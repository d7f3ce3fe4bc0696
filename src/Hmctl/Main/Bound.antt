-- ===== src/Hmctl/Main/Bound.antt =====
-- The memory that the library maps in a program that hmctl executes.
use hmsdk.Base.{
  ℕ, ◌<◌, ◌≤◌, ◌^◌, ◌-◌, Option, Bool, subst, sym, Bool-cases, inl, inr, ◌≡◌, refl, ◌≢◌, ◌∙◌, ap,
  true, false, not, ◌&&◌, if◌then◌else◌, none, some, List, Bytes, All, drop, length, get_elem?, ltb,
  ◌==◌, arith,
}
use hmsdk.Base.Int.{ℤ, pos}
use hmsdk.Hmalloc.Env.{Environ, Settings, update_env}
use hmsdk.Hmalloc.Libc.{Libc, IsLibc, MapFlags, map_failed}
use hmsdk.Hmalloc.Mapping.{Ended, hmmap-Ended, is_zero_lem}
use hmsdk.Hmalloc.Library.{Globals, is_zero, hmalloc_init, after_mbind, hmmap, extent_alloc}
use hmsdk.Hmctl.{Opts, default_opts, Key, handled, parse_keys, Numa}
use hmsdk.Hmctl.Settings.{chosen, IsReadable, choice_of, applied}
use hmsdk.Hmctl.Main.{executes, main}
use hmsdk.Hmctl.Main.Executed.{IsOption, IsShift, argp_calls, main-executes}

module _ {W : Type 0} (c : Libc W) (l : IsLibc c) where
  hmalloc_init-eq :
      (assertions : Bool) (mpol_default : ℕ) (env : Environ) (w : W) (settings : Settings)
      → update_env mpol_default env ≡ settings
      → settings.use_jemalloc ≡ true
      → is_zero (c.arenas_create w).0.0 ≡ true
      → hmalloc_init c assertions mpol_default env w
        ≡ some (
          record {
            settings = settings;
            arena_index = (c.arenas_create w).0.1;
            maxnode = c.numa_max_possible_node w;
          },
          (c.arenas_create w).1,
        )
  unfolding hmalloc_init
  hmalloc_init-eq assertions mpol_default env w settings e j created =
      ap
        (λ (st : Settings).
          if st.use_jemalloc
          then if assertions && not (is_zero (c.arenas_create w).0.0)
            then none
            else some (with_arena st, (c.arenas_create w).1)
          else some (record { settings = st; arena_index = 0; maxnode = 0 }, w))
        e
      ∙ rw (j, created) (ground arith)
    where
      with_arena : Settings → Globals
      with_arena st = record {
        settings = st;
        arena_index = if is_zero (c.arenas_create w).0.0 then (c.arenas_create w).0.1 else 0;
        maxnode = c.numa_max_possible_node w;
      }

  -- The flags of `extent_alloc`, and its call of `mmap`.
  abbrev pub extent_flags : MapFlags
  extent_flags = record { prot = c.prot_read_write; flags = c.map_private_anon; fd = 0; offset = 0 }

  abbrev pub new_mapping : ℕ → W → ℕ × W
  new_mapping size w = c.mmap 0 size extent_flags w

  -- The extent is bound, or given back with the error of `mbind`, as `mbind` answers.
  abbrev pub IsBound : ℤ → ℕ → ℕ → ℤ × W → ℕ × W → Type 0
  IsBound mode mask addr answer r =
      (answer.0 ≡ pos 0 → (r.0 ≡ addr) × (l.policy r.1 addr ≡ (mode, mask)))
      × (answer.0 ≢ pos 0 → (r.0 ≡ 0) × (c.errno r.1 ≡ c.errno answer.1))

  after_mbind-IsBound :
      (g : Globals) (mode : ℤ) (mask addr size : ℕ) (answer : ℤ × W)
      → (answer.0 ≡ pos 0 → l.policy answer.1 addr ≡ (mode, mask))
      → IsBound mode mask addr answer (after_mbind c g addr size answer)
  after_mbind-IsBound g mode mask addr size (ret, w) h = elim (Bool-cases (is_zero ret)) [
    | inl bound ↦
        let is_0 = is_zero_lem ret bound in rw bound (λ _. (refl, h is_0), λ n. absurd (n is_0))
    | inr fails ↦ rw fails (λ e. absurd (cc (rw e at fails)), λ n. (refl, l.errno-set_errno _ _))
  ]

  extent_alloc-IsBound :
      (g : Globals) (size : ℕ) (w : W)
      → size ≢ 0
      → g.maxnode ≤ 64
      → g.settings.nodemask < 2 ^ (g.maxnode - 1)
      → g.settings.nodemask ≢ 0
      → (new_mapping size w).0 ≢ map_failed
      → let (addr, w') = new_mapping size w in
        IsBound g.settings.mpol_mode g.settings.nodemask addr
          (c.mbind addr size g.settings.mpol_mode g.settings.nodemask g.maxnode w')
          (extent_alloc c g size w)
  unfolding extent_alloc hmmap
  extent_alloc-IsBound g size w sized few lt some_nodes mapped =
      let (addr, w') = new_mapping size w in
      let ok : (addr == map_failed) ≡ false = ground arith in
      let nodes : ltb 0 g.settings.nodemask ≡ true = ground arith in
      rw (ok, nodes)
        (after_mbind-IsBound g g.settings.mpol_mode g.settings.nodemask addr size
          (c.mbind addr size g.settings.mpol_mode g.settings.nodemask g.maxnode w')
          (l.mbind_binds addr size g.settings.mpol_mode g.settings.nodemask g.maxnode w' sized few
            lt))

  extent_alloc-Ended :
      (g : Globals) (size : ℕ) (w : W) → Ended c l g size (l.mappings w) (extent_alloc c g size w)
  unfolding extent_alloc
  extent_alloc-Ended g size w = hmmap-Ended c l g 0 size extent_flags w l.is_fixed-map_private_anon

module _ (numa : Numa) (mpol_default : ℕ) {W : Type 0} (c : Libc W) (l : IsLibc c) where
  -- From the command line of hmctl to the kernel: if the options choose a policy with nodes, then
  -- the library in the program that hmctl executes starts, in a build with or without assertions,
  -- and for each extent that it maps for jemalloc: if `mbind` accepts, then the extent is returned,
  -- and the policy that the kernel has been told for it is the mode of the options with exactly
  -- those nodes; if `mbind` refuses, then a null pointer is returned with the error of `mbind`,
  -- and the mappings are those before (or `munmap` has failed too). This is for a command line of
  -- accepted options and a program that can be executed, where a preferred node is below 31, the
  -- mode is an `int`, the nodes are below 63 and at least two below the highest possible node,
  -- which is at most 64, the arena is created, the extent is not empty, and it can be mapped.
  pub main_binds :
      (options : List Key) (opts : Opts) (argv : List Bytes) (next : ℕ) (program : Bytes)
      (env : Environ) (execv : Option Bytes → Bool) (assertions : Bool) (mode mask size : ℕ)
      (w v : W)
      → All IsOption options
      → parse_keys options default_opts ≡ handled opts
      → get_elem? argv next ≡ some program
      → IsShift opts.preferred
      → choice_of numa opts ≡ chosen mode (some mask)
      → mode < 2 ^ 31
      → mask < 2 ^ 63
      → mask ≢ 0
      → c.numa_max_possible_node w ≤ 64
      → mask < 2 ^ (c.numa_max_possible_node w - 1)
      → execv (some program) ≡ true
      → is_zero (c.arenas_create w).0.0 ≡ true
      → size ≢ 0
      → (new_mapping c l size v).0 ≢ map_failed
      → (env' : Environ) × (g : Globals) × (main numa argv env execv
            (argp_calls options (length argv) next program)
          ≡ executes (some program) (drop next argv) env')
        × (hmalloc_init c assertions mpol_default env' w ≡ some (g, (c.arenas_create w).1))
        × Ended c l g size (l.mappings v) (extent_alloc c g size v)
        × IsBound c l
            (pos mode)
            mask
            (new_mapping c l size v).0
            (c.mbind
              (new_mapping c l size v).0
              size
              (pos mode)
              mask
              (c.numa_max_possible_node w)
              (new_mapping c l size v).1)
            (extent_alloc c g size v)
  main_binds options opts argv next program env execv assertions mode mask size w v only accepted
        named_by shift choice int_mode few_nodes nodes few lt can created sized mapped =
      let readable : IsReadable (choice_of numa opts) =
        subst IsReadable (sym choice) (int_mode, few_nodes) in
      let (env', ran, _, read) =
        main-executes numa mpol_default options opts argv next program env execv only accepted
          named_by shift readable can in
      let settings : Settings = record {
        use_jemalloc = true;
        nodemask = mask;
        mpol_mode = pos mode;
      } in
      let e : update_env mpol_default env' ≡ settings =
        read ∙ ap (λ ch. applied ch (update_env mpol_default env)) choice in
      let g : Globals = record {
        settings = settings;
        arena_index = (c.arenas_create w).0.1;
        maxnode = c.numa_max_possible_node w;
      } in
      (
        env',
        g,
        ran,
        hmalloc_init-eq c l assertions mpol_default env' w settings e refl created,
        extent_alloc-Ended c l g size v,
        extent_alloc-IsBound c l g size v sized few lt nodes mapped,
      )
