-- ===== src/Hmalloc/Blocks.antt =====
-- What the allocation functions do with the blocks of jemalloc, with `errno` and with memory.
use hmsdk.Base.{
  ℕ, ◌+◌, ◌*◌, ◌%◌, ◌^◌, ◌<◌, ◌≡◌, refl, ◌≢◌, ◌∙◌, true, false, Bool-cases, inl, inr, ◌==◌, arith,
}
use hmsdk.Base.Words.{u64_mod}
use hmsdk.Hmalloc.Bag.{Bag, add}
use hmsdk.Hmalloc.Libc.{Libc, IsLibc}
use hmsdk.Hmalloc.Power.{is_refused, is_refused_iff}
use hmsdk.Hmalloc.Library.{
  Globals, arena_flags, aligned_flags, if_no_error, cleared, with_errno, hmalloc, hfree, hcalloc,
  haligned_alloc, hposix_memalign,
}

eq_false : (a b : ℕ) → a ≢ b → (a == b) ≡ false
eq_false a b h = ground arith

module _ {W : Type 0} (c : Libc W) (l : IsLibc c) (g : Globals) where
  -- A block that `hcalloc` gives holds zeros: for any number of elements and any size, each byte
  -- below their product, as a `size_t`, reads 0 where the result is not a null pointer.
  pub load-hcalloc :
      (nmemb size i : ℕ) (w : W)
      → (hcalloc c g nmemb size w).0 ≢ 0
      → i < (nmemb * size) % u64_mod
      → l.load (hcalloc c g nmemb size w).1 ((hcalloc c g nmemb size w).0 + i) ≡ 0
  unfolding hcalloc
  load-hcalloc nmemb size i w h lt = go (hmalloc c g ((nmemb * size) % u64_mod) w) h
    where
      go :
          (r : ℕ × W)
          → (cleared c g ((nmemb * size) % u64_mod) r).0 ≢ 0
          → l.load
              (cleared c g ((nmemb * size) % u64_mod) r).1
              ((cleared c g ((nmemb * size) % u64_mod) r).0 + i)
            ≡ 0
      go (ptr, w') h = elim (Bool-cases (ptr == 0)) [
        | inl null ↦ absurd (ground arith)
        | inr block ↦ rw block (l.load-memset ptr 0 ((nmemb * size) % u64_mod) i w' lt)
      ]

module _ {W : Type 0} (c : Libc W) (l : IsLibc c) (g : Globals)
    (jemalloc : g.settings.use_jemalloc ≡ true) where
  pub hmalloc-eq :
      (size : ℕ) (w : W) → hmalloc c g size w ≡ if_no_error c g (c.mallocx size (arena_flags c g) w)
  unfolding hmalloc
  hmalloc-eq size w = rw jemalloc refl

  pub if_no_error_kept : (r : ℕ × W) → c.errno r.1 ≢ c.enomem → if_no_error c g r ≡ r
  if_no_error_kept (ptr, w) h = rw (eq_false (c.errno w) c.enomem h) refl

  pub blocks-hfree :
      (ptr : ℕ) (w : W) {others : Bag}
      → (ptr ≡ 0 → l.blocks w ≡ others)
      → (ptr ≢ 0 → l.blocks w ≡ add ptr others)
      → l.blocks (hfree c g ptr w) ≡ others
  unfolding hfree
  blocks-hfree ptr w {others} z n = elim (Bool-cases (ptr == 0)) [
    | inl null ↦ rw null (z (ground arith))
    | inr block ↦ rw (block, jemalloc) (l.blocks-dallocx ptr _ w (n (ground arith)))
  ]

  -- With jemalloc, `haligned_alloc` allocates with an alignment that is a power of two, and for any
  -- other 64-bit alignment returns a null pointer with EINVAL and allocates nothing.
  pub haligned_alloc-eq :
      (alignment size : ℕ) (w : W)
      → alignment < 2 ^ 64
      → (((k : ℕ) × (alignment ≡ 2 ^ k))
          → haligned_alloc c g alignment size w ≡ c.mallocx size (aligned_flags c g alignment) w)
        × (((k : ℕ) → alignment ≢ 2 ^ k)
            → haligned_alloc c g alignment size w ≡ (0, c.set_errno c.einval w))
  unfolding haligned_alloc
  haligned_alloc-eq alignment size w h = elim (Bool-cases (is_refused alignment)) [
    | inl refused ↦ (
      λ p. absurd (cc (((is_refused_iff alignment h).1 p), refused)),
      λ p. rw (jemalloc, refused) refl,
    )
    | inr accepted ↦
        let (k, e) = (is_refused_iff alignment h).0 accepted in
        (λ p. rw (jemalloc, accepted) refl, λ p. absurd (p k e))
  ]

  -- An error leaves `errno` and the blocks as they were, and gives a null pointer.
  abbrev Unchanged : W → (ℕ × ℕ) × W → Type 0
  Unchanged w r = r.0.0 ≢ 0 → (c.errno r.1 ≡ c.errno w) × (r.0.1 ≡ 0) × (l.blocks r.1 ≡ l.blocks w)

  with_errno-Unchanged :
      (w : W) (r : ℕ × W)
      → (r.0 ≡ 0 → l.blocks r.1 ≡ l.blocks w)
      → Unchanged w (with_errno c g (c.errno w) r)
  with_errno-Unchanged w (ptr, w') z = elim (Bool-cases (ptr == 0)) [
    | inl null ↦
        let is_null : ptr ≡ 0 = ground arith in
        rw null (λ _. (
          l.errno-set_errno (c.errno w) w',
          is_null,
          l.blocks-set_errno (c.errno w) w' ∙ z is_null,
        ))
    | inr block ↦ rw block (λ n. absurd (n refl))
  ]

  hposix_memalign-Unchanged :
      (memptr alignment size : ℕ) (w : W)
      → Unchanged w (hposix_memalign c g memptr alignment size w)
  unfolding hposix_memalign
  hposix_memalign-Unchanged memptr alignment size w = elim (Bool-cases (is_refused alignment)) [
    | inl refused ↦ rw (jemalloc, refused) (λ _. (refl, refl, refl))
    | inr accepted ↦
        rw (jemalloc, accepted)
          (with_errno-Unchanged w (c.mallocx size (aligned_flags c g alignment) w)
            (l.mallocx_fails size (aligned_flags c g alignment) w))
  ]

  -- With jemalloc, if `hposix_memalign` returns an error, then `errno` is as before, `*memptr` is a
  -- null pointer and no block is allocated.
  pub hposix_memalign_error :
      (memptr alignment size : ℕ) (w : W)
      → (hposix_memalign c g memptr alignment size w).0.0 ≢ 0
      → (c.errno (hposix_memalign c g memptr alignment size w).1 ≡ c.errno w)
        × ((hposix_memalign c g memptr alignment size w).0.1 ≡ 0)
        × (l.blocks (hposix_memalign c g memptr alignment size w).1 ≡ l.blocks w)
  hposix_memalign_error memptr alignment size w = hposix_memalign-Unchanged memptr alignment size w
