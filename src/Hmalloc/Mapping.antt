-- ===== src/Hmalloc/Mapping.antt =====
-- What `hmmap`, the allocation of the arena's extents, leaves mapped.
use hmsdk.Base.{
  ℕ, ◌≡◌, refl, ◌≢◌, ◌∙◌, Bool, true, false, Bool-cases, inl, inr, List, ◌∷◌, ltb, ◌==◌,
  if◌then◌else◌, arith,
}
use hmsdk.Base.Int.{ℤ, pos}
use hmsdk.Hmalloc.Libc.{Libc, IsLibc, MapFlags, map_failed}
use hmsdk.Hmalloc.Library.{Globals, is_zero, after_mbind, after_mmap, hmmap}

pub is_zero_lem : (z : ℤ) → is_zero z ≡ true → z ≡ pos 0
is_zero_lem z e = ground arith

is_zero_ne : (z : ℤ) → is_zero z ≡ false → z ≢ pos 0
is_zero_ne z e = ground arith

module _ {W : Type 0} (c : Libc W) (l : IsLibc c) (g : Globals) where
  -- How `hmmap` ends, from the mappings before.
  pub data Ended (length : ℕ) (before : List (ℕ × ℕ)) : ℕ × W → Type 0 where
    -- `mmap` fails
    failed : {w : W} → l.mappings w ≡ before → Ended length before (map_failed, w)
    -- `mbind` fails: the mapping is gone again
    undone : {w : W} → l.mappings w ≡ before → Ended length before (0, w)
    -- `mbind` fails, and so does `munmap`, whose result is not tested: the mapping stays
    stuck :
        {addr : ℕ} {v w : W}
        → (c.munmap addr length v).0 ≢ pos 0
        → l.mappings w ≡ (addr, length) ∷ before
        → Ended length before (0, w)
    mapped :
        {addr : ℕ} {w : W} → l.mappings w ≡ (addr, length) ∷ before → Ended length before (addr, w)

  after_munmap-Ended :
      (addr length : ℕ) (w : W) (before : List (ℕ × ℕ))
      → l.mappings w ≡ (addr, length) ∷ before
      → Ended length before (0, c.set_errno (c.errno w) (c.munmap addr length w).1)
  after_munmap-Ended addr length w before e =
      elim (Bool-cases (is_zero (c.munmap addr length w).0)) [
        | inl done ↦
            undone
              (l.mappings-set_errno _ _ ∙ l.mappings-munmap addr length w (is_zero_lem _ done) e)
        | inr fails ↦
            let stays = is_zero_ne _ fails in
            stuck {addr = addr} {v = w} stays
              (l.mappings-set_errno _ _ ∙ l.munmap_fails addr length w stays ∙ e)
      ]

  after_mbind-Ended :
      (addr length : ℕ) (r : ℤ × W) (before : List (ℕ × ℕ))
      → l.mappings r.1 ≡ (addr, length) ∷ before
      → Ended length before (after_mbind c g addr length r)
  after_mbind-Ended addr length (ret, w) before e = elim (Bool-cases (is_zero ret)) [
    | inl bound ↦ rw bound (mapped e)
    | inr fails ↦ rw fails (after_munmap-Ended addr length w before e)
  ]

  after_mmap-Ended :
      (length : ℕ) (r : ℕ × W) (before : List (ℕ × ℕ))
      → (r.0 ≡ map_failed → l.mappings r.1 ≡ before)
      → (r.0 ≢ map_failed → l.mappings r.1 ≡ (r.0, length) ∷ before)
      → Ended length before (after_mmap c g length r)
  after_mmap-Ended length (addr, w) before fails maps =
      go (addr == map_failed) (ltb 0 g.settings.nodemask) (λ e. ground arith) (λ e. ground arith)
    where
      go :
          (no_map binds : Bool)
          → (no_map ≡ true → addr ≡ map_failed)
          → (no_map ≡ false → addr ≢ map_failed)
          → Ended length before (
              if no_map
              then (map_failed, w)
              else if binds
              then after_mbind c g addr length
                  (c.mbind addr length g.settings.mpol_mode g.settings.nodemask g.maxnode w)
              else (addr, w))
      go true binds y n = failed (fails (y refl))
      go false true y n =
          after_mbind-Ended addr length
            (c.mbind addr length g.settings.mpol_mode g.settings.nodemask g.maxnode w) before
            (l.mappings-mbind addr length g.settings.mpol_mode g.settings.nodemask g.maxnode w
              ∙ maps (n refl))
      go false false y n = mapped (maps (n refl))

  pub hmmap-Ended :
      (addr length : ℕ) (f : MapFlags) (w : W)
      → c.is_fixed f.flags ≡ false
      → Ended length (l.mappings w) (hmmap c g addr length f w)
  unfolding hmmap
  hmmap-Ended addr length f w free =
      after_mmap-Ended length (c.mmap addr length f w) (l.mappings w)
        (l.mmap_fails addr length f w free) (l.mmap_maps addr length f w free)
