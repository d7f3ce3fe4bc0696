-- ===== src/Hmalloc/Library.antt =====
-- hmalloc.c. Each function takes the library's global variables and the world.
use hmsdk.Base.{
  ℕ, ◌*◌, ◌%◌, Bool, true, false, not, ◌&&◌, Option, none, some, ltb, ◌==◌, if◌then◌else◌,
}
use hmsdk.Base.Words.{u64_mod}
use hmsdk.Base.Int.{ℤ, pos}
use hmsdk.Hmalloc.Env.{Environ, Settings, update_env}
use hmsdk.Hmalloc.Libc.{Libc, Call, Flags, MapFlags, map_failed}
use hmsdk.Hmalloc.Power.{is_refused}

pub record Globals : Type 0 where
  pub settings : Settings
  pub arena_index : ℕ
  pub maxnode : ℕ

abbrev pub is_zero : ℤ → Bool
is_zero (pos n) = n == 0
is_zero _ = false

module _ {W : Type 0} (c : Libc W) where
  -- The branch that creates the arena. A failure ends at the assertion, `none`, in a build with
  -- assertions; in the default build, which defines `NDEBUG`, the index stays 0.
  abbrev create_arena : Bool → Settings → W → (ℤ × ℕ) × W → Option (Globals × W)
  create_arena assertions settings w ((err, index), w') =
      if assertions && not (is_zero err)
      then none
      else some (
        record {
          settings = settings;
          arena_index = if is_zero err then index else 0;
          maxnode = c.numa_max_possible_node w;
        },
        w',
      )

  -- The globals are 0 before.
  unfoldable pub hmalloc_init : Bool → ℕ → Environ → W → Option (Globals × W)
  hmalloc_init assertions mpol_default env w =
      let settings = update_env mpol_default env in
      if settings.use_jemalloc
      then create_arena assertions settings w (c.arenas_create w)
      else some (record { settings = settings; arena_index = 0; maxnode = 0 }, w)

  -- `hmunmap`, as a Boolean: true if the result is not 0.
  unfoldable pub extent_dalloc : ℕ → ℕ → Call W Bool
  extent_dalloc addr size w = let (ret, w') = c.munmap addr size w in (not (is_zero ret), w')

  module _ (g : Globals) where
    -- `MALLOCX_ARENA(arena_index) | MALLOCX_TCACHE_NONE`
    abbrev pub arena_flags : Flags
    arena_flags = record { align = none; arena = some g.arena_index; tcache_none = true }

    -- `hmmap` behind `mbind`, from its result: a mapping that cannot be bound is undone.
    abbrev pub after_mbind : ℕ → ℕ → ℤ × W → ℕ × W
    after_mbind addr length (ret, w) =
        if is_zero ret then (addr, w) else (0, c.set_errno (c.errno w) (c.munmap addr length w).1)

    -- `hmmap` behind `mmap`, from its result.
    abbrev pub after_mmap : ℕ → ℕ × W → ℕ × W
    after_mmap length (addr, w) =
        if addr == map_failed
        then (map_failed, w)
        else if ltb 0 g.settings.nodemask
        then after_mbind addr length
            (c.mbind addr length g.settings.mpol_mode g.settings.nodemask g.maxnode w)
        else (addr, w)

    unfoldable pub hmmap : ℕ → ℕ → MapFlags → Call W ℕ
    hmmap addr length f w = after_mmap length (c.mmap addr length f w)

    unfoldable pub extent_alloc : ℕ → Call W ℕ
    extent_alloc size w =
        hmmap 0 size
          (record { prot = c.prot_read_write; flags = c.map_private_anon; fd = 0; offset = 0 }) w

    -- The test of `errno` behind `mallocx`.
    abbrev pub if_no_error : ℕ × W → ℕ × W
    if_no_error (ptr, w') = if c.errno w' == c.enomem then (0, w') else (ptr, w')

    unfoldable pub hmalloc : ℕ → Call W ℕ
    hmalloc size w =
        if g.settings.use_jemalloc
        then if_no_error (c.mallocx size arena_flags w)
        else c.malloc size w

    unfoldable pub hfree : ℕ → W → W
    hfree ptr w =
        if ptr == 0
        then w
        else if g.settings.use_jemalloc
        then c.dallocx ptr arena_flags w
        else c.free ptr w

    abbrev pub cleared : ℕ → ℕ × W → ℕ × W
    cleared total (ptr, w) = if ptr == 0 then (ptr, w) else (ptr, c.memset ptr 0 total w)

    unfoldable pub hcalloc : ℕ → ℕ → Call W ℕ
    hcalloc nmemb size w = let total = (nmemb * size) % u64_mod in cleared total (hmalloc total w)

    unfoldable pub hrealloc : ℕ → ℕ → Call W ℕ
    hrealloc ptr size w =
        if g.settings.use_jemalloc
        then if ptr == 0
          then hmalloc size w
          else if size == 0
          then (0, hfree ptr w)
          else c.rallocx ptr size arena_flags w
        else c.realloc ptr size w

    abbrev pub aligned_flags : ℕ → Flags
    aligned_flags alignment = record arena_flags { align = some alignment }

    unfoldable pub haligned_alloc : ℕ → ℕ → Call W ℕ
    haligned_alloc alignment size w =
        if g.settings.use_jemalloc
        then if is_refused alignment
          then (0, c.set_errno c.einval w)
          else c.mallocx size (aligned_flags alignment) w
        else c.aligned_alloc alignment size w

    -- The result and the new `*memptr`, from those of `mallocx`.
    abbrev pub with_errno : ℕ → ℕ × W → (ℕ × ℕ) × W
    with_errno old_errno (ptr, w') =
        if ptr == 0 then ((c.errno w', ptr), c.set_errno old_errno w') else ((0, ptr), w')

    -- From the old `*memptr`: the result and the new `*memptr`.
    unfoldable pub hposix_memalign : ℕ → ℕ → ℕ → Call W (ℕ × ℕ)
    hposix_memalign memptr alignment size w =
        if g.settings.use_jemalloc
        then if is_refused alignment
          then ((c.einval, 0), w)
          else with_errno (c.errno w) (c.mallocx size (aligned_flags alignment) w)
        else c.posix_memalign memptr alignment size w

    unfoldable pub hmalloc_usable_size : ℕ → W → ℕ
    hmalloc_usable_size ptr w =
        if g.settings.use_jemalloc
        then if ptr == 0
          then 0
          else c.sallocx ptr (record { align = none; arena = none; tcache_none = false }) w
        else c.malloc_usable_size ptr w
