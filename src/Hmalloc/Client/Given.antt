-- ===== src/Hmalloc/Client/Given.antt =====
-- The blocks that the library's functions give.
use hmsdk.Base.{
  ℕ, ◌*◌, ◌%◌, ◌≡◌, refl, ◌≢◌, ◌∙◌, true, Bool-cases, inl, inr, ◌==◌, if◌then◌else◌, arith,
}
use hmsdk.Base.Words.{u64_mod}
use hmsdk.Hmalloc.Bag.{add}
use hmsdk.Hmalloc.Libc.{Libc, IsLibc, Flags}
use hmsdk.Hmalloc.Power.{is_refused}
use hmsdk.Hmalloc.Library.{
  Globals, arena_flags, aligned_flags, if_no_error, cleared, with_errno, hmalloc, hcalloc,
  haligned_alloc, hposix_memalign,
}
use hmsdk.Hmalloc.Blocks.{hmalloc-eq}
use hmsdk.Hmalloc.Client.{IsReliable}

module _ {W : Type 0} (c : Libc W) (l : IsLibc c) (g : Globals)
    (jemalloc : g.settings.use_jemalloc ≡ true) where
  -- A call gives a block that it has added, or a null pointer.
  unfoldable pub Gives : W → ℕ × W → Type 0
  Gives w r = l.blocks r.1 ≡ (if r.0 == 0 then l.blocks w else add r.0 (l.blocks w))

  pub mallocx-Gives : (size : ℕ) (w : W) (f : Flags) → Gives w (c.mallocx size f w)
  unfolding Gives
  mallocx-Gives size w f = elim (Bool-cases ((c.mallocx size f w).0 == 0)) [
    | inl null ↦ rw null (l.mallocx_fails size f w (ground arith))
    | inr block ↦ rw block (l.mallocx_allocates size f w (ground arith))
  ]

  pub if_no_error-Gives :
      (w : W) (r : ℕ × W)
      → (r.0 ≢ 0 → c.errno r.1 ≢ c.enomem)
      → Gives w r
      → Gives w (if_no_error c g r)
  unfolding Gives
  if_no_error-Gives w (ptr, w') reliable h = elim (Bool-cases (c.errno w' == c.enomem)) [
    | inl lost ↦ elim (Bool-cases (ptr == 0)) [
      | inl null ↦ rw lost (rw null at h)
      | inr block ↦ absurd (reliable (ground arith) (ground arith))
    ]
    | inr kept ↦ rw kept h
  ]

  pub hmalloc-Gives : (size : ℕ) (w : W) → IsReliable c g size w → Gives w (hmalloc c g size w)
  hmalloc-Gives size w reliable = rw (hmalloc-eq c l g jemalloc size w) (
      if_no_error-Gives w (c.mallocx size (arena_flags c g) w) reliable
        (mallocx-Gives size w (arena_flags c g)))

  pub cleared-Gives : (total : ℕ) (w : W) (r : ℕ × W) → Gives w r → Gives w (cleared c g total r)
  unfolding Gives
  cleared-Gives total w (ptr, w') h = elim (Bool-cases (ptr == 0)) [
    | inl null ↦ rw (null, null) (rw null at h)
    | inr block ↦ rw (block, block) (l.blocks-memset ptr 0 total w' ∙ (rw block at h))
  ]

  pub hcalloc-Gives :
      (nmemb size : ℕ) (w : W)
      → IsReliable c g ((nmemb * size) % u64_mod) w
      → Gives w (hcalloc c g nmemb size w)
  unfolding hcalloc
  hcalloc-Gives nmemb size w reliable =
      cleared-Gives ((nmemb * size) % u64_mod) w (hmalloc c g ((nmemb * size) % u64_mod) w)
        (hmalloc-Gives ((nmemb * size) % u64_mod) w reliable)

  pub haligned_alloc-Gives :
      (alignment size : ℕ) (w : W) → Gives w (haligned_alloc c g alignment size w)
  unfolding haligned_alloc Gives
  haligned_alloc-Gives alignment size w = elim (Bool-cases (is_refused alignment)) [
    | inl refused ↦ rw (jemalloc, refused) (l.blocks-set_errno c.einval w)
    | inr accepted ↦ rw (jemalloc, accepted) (mallocx-Gives size w (aligned_flags c g alignment))
  ]

  -- The pointer that is stored, with the world.
  abbrev pub pointer : (ℕ × ℕ) × W → ℕ × W
  pointer ((ret, ptr), w) = (ptr, w)

  pub with_errno-Gives :
      (old_errno : ℕ) (w : W) (r : ℕ × W)
      → Gives w r
      → Gives w (pointer (with_errno c g old_errno r))
  unfolding Gives
  with_errno-Gives old_errno w (ptr, w') h = elim (Bool-cases (ptr == 0)) [
    | inl null ↦ rw (null, null) (l.blocks-set_errno old_errno w' ∙ (rw null at h))
    | inr block ↦ rw (block, block) (rw block at h)
  ]

  pub hposix_memalign-Gives :
      (memptr alignment size : ℕ) (w : W)
      → Gives w (pointer (hposix_memalign c g memptr alignment size w))
  unfolding hposix_memalign Gives
  hposix_memalign-Gives memptr alignment size w = elim (Bool-cases (is_refused alignment)) [
    | inl refused ↦ rw (jemalloc, refused) refl
    | inr accepted ↦
        rw (jemalloc, accepted)
          (with_errno-Gives (c.errno w) w (c.mallocx size (aligned_flags c g alignment) w)
            (mallocx-Gives size w (aligned_flags c g alignment)))
  ]
