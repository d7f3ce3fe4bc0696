-- ===== src/Hmctl/Settings.antt =====
-- What the library reads from the environment that hmctl sets.
use hmsdk.Base.{
  ℕ, Bool, ltb, if◌then◌else◌, ◌^◌, ◌<◌, ◌≤◌, ◌-◌, ◌≡◌, refl, ◌>>=◌, ap, ◌∙◌, true, false, Option,
  none, some, Bytes, codes, same_text, arith,
}
use hmsdk.Base.Int.{ℤ, pos, negsuc}
use hmsdk.Base.Decimal.{to_decimal}
use hmsdk.Base.Long.{atol, atoi, as_u64, atol-to_decimal, atol-to_decimal_clamped, atoi-to_decimal}
use hmsdk.Hmalloc.Env.{
  Environ, Settings, getenv, setenv, getenv_jemalloc, getenv_nodemask, getenv_mpol_mode, update_env,
  getenv-setenv_same, getenv-setenv_other,
}
use hmsdk.Hmctl.{
  Opts, Numa, mpol_preferred_many, mpol_weighted_interleave, set_policy, set_nodes,
  setup_child_environ,
}

-- A policy that replaces the inherited one: its mode, and its nodes where they are valid.
pub data Choice : Type 0 where
  inherited : Choice
  chosen : ℕ → Option ℕ → Choice

abbrev pub applied : Choice → Settings → Settings
applied inherited s = record s { use_jemalloc = true }
applied (chosen mode none) s = record s { use_jemalloc = true; mpol_mode = pos mode }
applied (chosen mode (some mask)) s = record {
  use_jemalloc = true;
  nodemask = mask;
  mpol_mode = pos mode;
}

-- The mode is an `int`, and the nodes are those below 63.
abbrev pub IsReadable : Choice → Type 0
IsReadable inherited = Unit
IsReadable (chosen mode none) = mode < 2 ^ 31
IsReadable (chosen mode (some mask)) = (mode < 2 ^ 31) × (mask < 2 ^ 63)

-- The first of these options that is given counts: membind, preferred-many, preferred,
-- weighted-interleave, interleave. A preferred node has one bit.
abbrev interleave_choice : Numa → Option Bytes → Choice
interleave_choice numa none = inherited
interleave_choice numa (some nodes) = chosen numa.mpol_interleave (numa.numa_parse_nodestring nodes)

abbrev weighted_choice : Numa → Option Bytes → Choice → Choice
weighted_choice numa none later = later
weighted_choice numa (some nodes) later =
    chosen mpol_weighted_interleave (numa.numa_parse_nodestring nodes)

abbrev preferred_choice : Numa → ℤ → Choice → Choice
preferred_choice numa (pos node) later = chosen numa.mpol_preferred (some (2 ^ node))
preferred_choice numa (negsuc _) later = later

abbrev many_choice : Numa → Option Bytes → Choice → Choice
many_choice numa none later = later
many_choice numa (some nodes) later = chosen mpol_preferred_many (numa.numa_parse_nodestring nodes)

abbrev bind_choice : Numa → Option Bytes → Choice → Choice
bind_choice numa none later = later
bind_choice numa (some nodes) later = chosen numa.mpol_bind (numa.numa_parse_nodestring nodes)

abbrev pub choice_of : Numa → Opts → Choice
choice_of numa opts = bind_choice numa opts.membind (
    many_choice numa opts.preferred_many (
      preferred_choice numa opts.preferred
        (weighted_choice numa opts.weighted_interleave (interleave_choice numa opts.interleave))))

-- The environment of a choice.
abbrev environ_of : Choice → Environ → Environ
environ_of inherited env = env
environ_of (chosen mode none) env = setenv (codes "HMALLOC_MPOL_MODE") (to_decimal mode) env
environ_of (chosen mode (some mask)) env =
    setenv (codes "HMALLOC_NODEMASK") (to_decimal mask)
      (setenv (codes "HMALLOC_MPOL_MODE") (to_decimal mode) env)

abbrev jemalloc_name : Bytes
jemalloc_name = codes "HMALLOC_JEMALLOC"

abbrev mode_name : Bytes
mode_name = codes "HMALLOC_MPOL_MODE"

abbrev nodes_name : Bytes
nodes_name = codes "HMALLOC_NODEMASK"

-- The three settings, from what the three variables hold.
abbrev settings_from : ℕ → Option Bytes → Option Bytes → Option Bytes → Settings
settings_from mpol_default j n m = record {
  use_jemalloc = elim j [ none ↦ false | some v ↦ same_text v (codes "1") ];
  nodemask = elim n [ none ↦ 0 | some v ↦ as_u64 (atol v) ];
  mpol_mode = elim m [ none ↦ pos mpol_default | some v ↦ atoi v ];
}

module _ (mpol_default : ℕ) where
  update_env-eq :
      (env : Environ) {j n m : Option Bytes}
      → getenv jemalloc_name env ≡ j
      → getenv nodes_name env ≡ n
      → getenv mode_name env ≡ m
      → update_env mpol_default env ≡ settings_from mpol_default j n m
  unfolding getenv_jemalloc getenv_nodemask getenv_mpol_mode
  update_env-eq env ej en em = λ i. settings_from mpol_default (ej i) (en i) (em i)

  update_env-environ_of :
      (c : Choice) (env : Environ)
      → IsReadable c
      → update_env mpol_default (setenv jemalloc_name (codes "1") (environ_of c env))
        ≡ applied c (update_env mpol_default env)
  unfolding getenv_jemalloc getenv_nodemask getenv_mpol_mode same_text
  update_env-environ_of inherited env h =
      update_env-eq (setenv jemalloc_name (codes "1") env)
        (getenv-setenv_same jemalloc_name (codes "1") env)
        (getenv-setenv_other nodes_name jemalloc_name (codes "1") env refl)
        (getenv-setenv_other mode_name jemalloc_name (codes "1") env refl)
  update_env-environ_of (chosen mode none) env h =
      let env' = setenv mode_name (to_decimal mode) env in
      update_env-eq (setenv jemalloc_name (codes "1") env')
        (getenv-setenv_same jemalloc_name (codes "1") env')
        (getenv-setenv_other nodes_name jemalloc_name (codes "1") env' refl
          ∙ getenv-setenv_other nodes_name mode_name (to_decimal mode) env refl)
        (getenv-setenv_other mode_name jemalloc_name (codes "1") env' refl
          ∙ getenv-setenv_same mode_name (to_decimal mode) env)
      ∙ ap (λ z. record (update_env mpol_default env) { use_jemalloc = true; mpol_mode = z })
          (atoi-to_decimal mode h)
  update_env-environ_of (chosen mode (some mask)) env (h, k) =
      let env' = setenv mode_name (to_decimal mode) env in
      let env'' = setenv nodes_name (to_decimal mask) env' in
      update_env-eq (setenv jemalloc_name (codes "1") env'')
        (getenv-setenv_same jemalloc_name (codes "1") env'')
        (getenv-setenv_other nodes_name jemalloc_name (codes "1") env'' refl
          ∙ getenv-setenv_same nodes_name (to_decimal mask) env')
        (getenv-setenv_other mode_name jemalloc_name (codes "1") env'' refl
          ∙ (getenv-setenv_other mode_name nodes_name (to_decimal mask) env' refl
              ∙ getenv-setenv_same mode_name (to_decimal mode) env))
      ∙ (λ i. record {
        use_jemalloc = true;
        nodemask = as_u64 (atol-to_decimal mask k i);
        mpol_mode = atoi-to_decimal mode h i;
      })
      ∙ ap (λ n. record { use_jemalloc = true; nodemask = n; mpol_mode = pos mode }) (omega arith)

module _ (numa : Numa) (env : Environ) where
  set_nodes-eq :
      (mode : ℕ) (nodes : Bytes)
      → set_nodes numa mode nodes env
        ≡ environ_of (chosen mode (numa.numa_parse_nodestring nodes)) env
  set_nodes-eq mode nodes = go (numa.numa_parse_nodestring nodes)
    where
      go :
          (parsed : Option ℕ)
          → elim parsed [
            | none ↦ setenv mode_name (to_decimal mode) env
            | some mask ↦
                setenv nodes_name (to_decimal mask) (setenv mode_name (to_decimal mode) env)
          ]
            ≡ environ_of (chosen mode parsed) env
      go none = refl
      go (some mask) = refl

  unwrapped : {a b : Environ} → some a ≡ some b → b ≡ a
  unwrapped e = cc

  preferred_environ :
      (node : ℕ) (defined : Bool) {env' : Environ}
      → ((if defined then some (2 ^ node) else none) >>= λ mask.
          some (environ_of (chosen numa.mpol_preferred (some mask)) env))
        ≡ some env'
      → env' ≡ environ_of (chosen numa.mpol_preferred (some (2 ^ node))) env
  preferred_environ node true e = unwrapped e
  preferred_environ node false e = cc

  abbrev opts_of : ℕ → (exe m P : Option Bytes) → ℤ → (w i : Option Bytes) → Opts
  opts_of idx exe m P p w i = record {
    idx = idx;
    exename = exe;
    membind = m;
    preferred_many = P;
    interleave = i;
    weighted_interleave = w;
    preferred = p;
  }

  set_policy-eq :
      (idx : ℕ) (exe m P : Option Bytes) (p : ℤ) (w i : Option Bytes) {env' : Environ}
      → set_policy numa m P p w i env ≡ some env'
      → env' ≡ environ_of (choice_of numa (opts_of idx exe m P p w i)) env
  set_policy-eq idx exe (some nodes) P p w i e = unwrapped e ∙ set_nodes-eq numa.mpol_bind nodes
  set_policy-eq idx exe none (some nodes) p w i e =
      unwrapped e ∙ set_nodes-eq mpol_preferred_many nodes
  set_policy-eq idx exe none none (pos node) w i e = preferred_environ node (ltb node 31) e
  set_policy-eq idx exe none none (negsuc _) (some nodes) i e =
      unwrapped e ∙ set_nodes-eq mpol_weighted_interleave nodes
  set_policy-eq idx exe none none (negsuc _) none (some nodes) e =
      unwrapped e ∙ set_nodes-eq numa.mpol_interleave nodes
  set_policy-eq idx exe none none (negsuc _) none none e = unwrapped e

  saved_environ :
      (policy : Option Environ) (opts_environ : Environ) {env' : Environ}
      → ((env'' : Environ) → policy ≡ some env'' → env'' ≡ opts_environ)
      → (policy >>= λ env''. some (setenv jemalloc_name (codes "1") env'')) ≡ some env'
      → env' ≡ setenv jemalloc_name (codes "1") opts_environ
  saved_environ none o h e = cc
  saved_environ (some env'') o h e =
      unwrapped e ∙ ap (setenv jemalloc_name (codes "1")) (h env'' refl)

module _ (numa : Numa) (mpol_default : ℕ) where
  -- The library reads back the policy that the options choose: the first one of membind,
  -- preferred-many, preferred, weighted-interleave and interleave that is given, with its mode, and
  -- with its nodes if the text of the nodes is valid; whatever is not chosen is inherited, and
  -- jemalloc is used. This holds for modes that are an `int`, for nodes below 63, and where the
  -- shift by the preferred node is defined.
  pub update_env-setup_child_environ :
      (opts : Opts) (env : Environ) {env' : Environ}
      → IsReadable (choice_of numa opts)
      → setup_child_environ numa opts env ≡ some env'
      → update_env mpol_default env' ≡ applied (choice_of numa opts) (update_env mpol_default env)
  unfolding setup_child_environ
  update_env-setup_child_environ opts env h e =
      ap (update_env mpol_default) (
        saved_environ numa env _ (environ_of (choice_of numa opts) env)
          (λ env''.
            set_policy-eq numa env opts.idx opts.exename opts.membind opts.preferred_many
              opts.preferred opts.weighted_interleave opts.interleave)
          e)
      ∙ update_env-environ_of mpol_default (choice_of numa opts) env h

-- A mask that holds node 63 is not read back: for any such mask in the environment, `getenv_nodemask`
-- gives the mask of the nodes 0 to 62.
pub getenv_nodemask-to_decimal :
    (mask : ℕ) (env : Environ)
    → 2 ^ 63 ≤ mask
    → getenv nodes_name env ≡ some (to_decimal mask)
    → getenv_nodemask env ≡ 2 ^ 63 - 1
unfolding getenv_nodemask
getenv_nodemask-to_decimal mask env h e =
    rw (getenv_nodemask, e, atol-to_decimal_clamped mask h) refl
