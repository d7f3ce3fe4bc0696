-- ===== src/Hmalloc/Client.antt =====
-- A program that calls the library, and the blocks that it holds.
pub mod Given
pub mod Leaks
use hmsdk.Base.{
  ℕ, ◌+◌, ◌*◌, ◌%◌, ◌≡◌, refl, ◌≢◌, ◌∙◌, ap, sym, Bool-cases, inl, inr, ◌==◌, if◌then◌else◌, arith,
}
use hmsdk.Base.Words.{u64_mod}
use hmsdk.Hmalloc.Bag.{Bag, add}
use hmsdk.Hmalloc.Libc.{Libc, IsLibc}
use hmsdk.Hmalloc.Power.{is_refused}
use hmsdk.Hmalloc.Library.{
  Globals, arena_flags, aligned_flags, if_no_error, cleared, with_errno, hmalloc, hfree, hcalloc,
  hrealloc, haligned_alloc, hposix_memalign,
}
use hmsdk.Hmalloc.Blocks.{hmalloc-eq, if_no_error_kept}

-- The blocks that the program holds, and the world.
pub record State (W : Type 0) : Type 0 where
  pub held : Bag
  pub world : W

-- Behind a call that gives a pointer.
abbrev pub obtained : {W : Type 0} → Bag → ℕ × W → State W
obtained held (ptr, w) = record { held = if ptr == 0 then held else add ptr held; world = w }

-- Behind a call of `hrealloc` for a block, with the other blocks that are held.
abbrev pub resized : {W : Type 0} → ℕ → Bag → ℕ × W → State W
resized old others (ptr, w) = record {
  held = if ptr == 0 then add old others else add ptr others;
  world = w;
}

-- Behind `hposix_memalign`, which gives a result and a pointer.
abbrev pub stored : {W : Type 0} → Bag → (ℕ × ℕ) × W → State W
stored held ((ret, ptr), w) = obtained held (ptr, w)

module _ {W : Type 0} (c : Libc W) (g : Globals) where
  -- `errno` does not read ENOMEM behind a `mallocx` that gives a block.
  abbrev pub IsReliable : ℕ → W → Type 0
  IsReliable size w =
      (c.mallocx size (arena_flags c g) w).0 ≢ 0
      → c.errno (c.mallocx size (arena_flags c g) w).1 ≢ c.enomem

  -- A call of the program. It frees and resizes blocks that it holds, or null pointers.
  pub data Step (s : State W) : State W → Type 0 where
    allocates :
        (size : ℕ) → IsReliable size s.world → Step s (obtained s.held (hmalloc c g size s.world))
    clears :
        (nmemb size : ℕ)
        → IsReliable ((nmemb * size) % u64_mod) s.world
        → Step s (obtained s.held (hcalloc c g nmemb size s.world))
    aligns :
        (alignment size : ℕ) → Step s (obtained s.held (haligned_alloc c g alignment size s.world))
    stores :
        (memptr alignment size : ℕ)
        → Step s (stored s.held (hposix_memalign c g memptr alignment size s.world))
    releases :
        (ptr : ℕ) (others : Bag)
        → s.held ≡ add ptr others
        → ptr ≢ 0
        → Step s (record { held = others; world = hfree c g ptr s.world })
    releases_null : Step s (record { held = s.held; world = hfree c g 0 s.world })
    resizes :
        (ptr size : ℕ) (others : Bag)
        → s.held ≡ add ptr others
        → ptr ≢ 0
        → size ≢ 0
        → Step s (resized ptr others (hrealloc c g ptr size s.world))
    resizes_null :
        (size : ℕ)
        → IsReliable size s.world
        → Step s (obtained s.held (hrealloc c g 0 size s.world))
    resizes_to_zero :
        (ptr : ℕ) (others : Bag)
        → s.held ≡ add ptr others
        → ptr ≢ 0
        → Step s (record { held = others; world = (hrealloc c g ptr 0 s.world).1 })

  pub data Reach (s : State W) : State W → Type 0 where
    start : Reach s s
    later : {t u : State W} → Reach s t → Step t u → Reach s u
