-- ===== src/Hmalloc/Client/Leaks.antt =====
-- The blocks of the world behind the calls of a program.
use hmsdk.Base.{
  ℕ, ◌≡◌, refl, ◌≢◌, ◌∙◌, ap, sym, true, false, Bool-cases, inl, inr, ◌==◌, if◌then◌else◌, arith,
}
use hmsdk.Hmalloc.Bag.{Bag, add, join, join-add}
use hmsdk.Hmalloc.Libc.{Libc, IsLibc}
use hmsdk.Hmalloc.Library.{
  Globals, arena_flags, hmalloc, hfree, hcalloc, hrealloc, haligned_alloc, hposix_memalign,
}
use hmsdk.Hmalloc.Blocks.{blocks-hfree}
use hmsdk.Hmalloc.Client.{
  State, obtained, resized, Step, allocates, clears, aligns, stores, releases, releases_null,
  resizes, resizes_null, resizes_to_zero, Reach, start, later,
}
use hmsdk.Hmalloc.Client.Given.{
  Gives, hmalloc-Gives, hcalloc-Gives, haligned_alloc-Gives, hposix_memalign-Gives, pointer,
}

module _ {W : Type 0} (c : Libc W) (l : IsLibc c) (g : Globals)
    (jemalloc : g.settings.use_jemalloc ≡ true) where
  module _ (foreign : Bag) where
    -- The blocks of the world are those that the program holds, and those of others.
    abbrev pub IsOwned : State W → Type 0
    IsOwned s = l.blocks s.world ≡ join s.held foreign

    obtained-IsOwned :
        (s : State W) (r : ℕ × W)
        → Gives c l g jemalloc s.world r
        → IsOwned s
        → IsOwned (obtained s.held r)
    unfolding Gives
    obtained-IsOwned s (ptr, w') h v = elim (Bool-cases (ptr == 0)) [
      | inl null ↦ rw null ((rw null at h) ∙ v)
      | inr block ↦ rw block ((rw block at h) ∙ ap (add ptr) v ∙ sym (join-add ptr s.held foreign))
    ]

    with_block :
        (s : State W) (ptr : ℕ) (others : Bag)
        → s.held ≡ add ptr others
        → IsOwned s
        → l.blocks s.world ≡ add ptr (join others foreign)
    with_block s ptr others e v = v ∙ ap (λ b. join b foreign) e ∙ join-add ptr others foreign

    released-IsOwned :
        (s : State W) (ptr : ℕ) (others : Bag)
        → s.held ≡ add ptr others
        → ptr ≢ 0
        → IsOwned s
        → l.blocks (hfree c g ptr s.world) ≡ join others foreign
    released-IsOwned s ptr others e n v =
        blocks-hfree c l g jemalloc ptr s.world (λ z. absurd (n z))
          (λ _. with_block s ptr others e v)

    freed_null : (w : W) → l.blocks (hfree c g 0 w) ≡ l.blocks w
    freed_null w = blocks-hfree c l g jemalloc 0 w (λ _. refl) (λ n. absurd (n refl))

    -- What `rallocx` does with a block.
    Moves : ℕ → Bag → W → ℕ × W → Type 0
    Moves ptr others w r =
        l.blocks r.1 ≡ (if r.0 == 0 then l.blocks w else add r.0 (join others foreign))

    hrealloc-Moves :
        (s : State W) (ptr size : ℕ) (others : Bag)
        → s.held ≡ add ptr others
        → ptr ≢ 0
        → size ≢ 0
        → IsOwned s
        → Moves ptr others s.world (hrealloc c g ptr size s.world)
    unfolding Moves hrealloc
    hrealloc-Moves s ptr size others e n k v =
        let block : (ptr == 0) ≡ false = ground arith in
        let sized : (size == 0) ≡ false = ground arith in
        let f = arena_flags c g in
        rw (jemalloc, block, sized)
          (elim (Bool-cases ((c.rallocx ptr size f s.world).0 == 0)) [
            | inl null ↦ rw null (l.rallocx_fails ptr size f s.world (ground arith))
            | inr moved ↦ rw moved (
                l.rallocx_moves ptr size f s.world (join others foreign) (ground arith)
                  (with_block s ptr others e v))
          ])

    resized-IsOwned :
        (s : State W) (ptr : ℕ) (others : Bag) (r : ℕ × W)
        → s.held ≡ add ptr others
        → IsOwned s
        → Moves ptr others s.world r
        → IsOwned (resized ptr others r)
    unfolding Moves
    resized-IsOwned s ptr others (ptr', w') e v h = elim (Bool-cases (ptr' == 0)) [
      | inl null ↦
          rw null ((rw null at h) ∙ with_block s ptr others e v ∙ sym (join-add ptr others foreign))
      | inr moved ↦ rw moved ((rw moved at h) ∙ sym (join-add ptr' others foreign))
    ]

    hrealloc_null : (size : ℕ) (w : W) → hrealloc c g 0 size w ≡ hmalloc c g size w
    unfolding hrealloc
    hrealloc_null size w = rw jemalloc refl

    hrealloc_to_zero : (ptr : ℕ) (w : W) → ptr ≢ 0 → hrealloc c g ptr 0 w ≡ (0, hfree c g ptr w)
    unfolding hrealloc
    hrealloc_to_zero ptr w n =
        let block : (ptr == 0) ≡ false = ground arith in rw (jemalloc, block) refl

    Step-IsOwned : {s t : State W} → Step c g s t → IsOwned s → IsOwned t
    Step-IsOwned {s} (allocates size reliable) v =
        obtained-IsOwned s (hmalloc c g size s.world)
          (hmalloc-Gives c l g jemalloc size s.world reliable) v
    Step-IsOwned {s} (clears nmemb size reliable) v =
        obtained-IsOwned s (hcalloc c g nmemb size s.world)
          (hcalloc-Gives c l g jemalloc nmemb size s.world reliable) v
    Step-IsOwned {s} (aligns alignment size) v =
        obtained-IsOwned s (haligned_alloc c g alignment size s.world)
          (haligned_alloc-Gives c l g jemalloc alignment size s.world) v
    Step-IsOwned {s} (stores memptr alignment size) v =
        obtained-IsOwned s
          (pointer c l g jemalloc (hposix_memalign c g memptr alignment size s.world))
          (hposix_memalign-Gives c l g jemalloc memptr alignment size s.world) v
    Step-IsOwned {s} (releases ptr others e n) v = released-IsOwned s ptr others e n v
    Step-IsOwned {s} releases_null v = freed_null s.world ∙ v
    Step-IsOwned {s} (resizes ptr size others e n k) v =
        resized-IsOwned s ptr others (hrealloc c g ptr size s.world) e v
          (hrealloc-Moves s ptr size others e n k v)
    Step-IsOwned {s} (resizes_null size reliable) v =
        obtained-IsOwned s (hrealloc c g 0 size s.world)
          (rw (hrealloc_null size s.world) (hmalloc-Gives c l g jemalloc size s.world reliable)) v
    Step-IsOwned {s} (resizes_to_zero ptr others e n) v =
        ap (λ (r : ℕ × W). l.blocks r.1) (hrealloc_to_zero ptr s.world n)
        ∙ released-IsOwned s ptr others e n v

    -- The library neither leaks nor takes a block: with jemalloc, whatever calls a program makes to
    -- allocate, resize and free, in whatever order, the blocks of jemalloc are at every moment those
    -- that the program has been given and has not freed, with those that are not the program's; a
    -- request or a resize that fails leaves the blocks as they are. This is for a program that frees
    -- and resizes only blocks that it holds, or null pointers, and where `errno` does not read
    -- ENOMEM behind a `mallocx` of `hmalloc` that gives a block.
    pub Reach-IsOwned : {s t : State W} → Reach c g s t → IsOwned s → IsOwned t
    Reach-IsOwned start v = v
    Reach-IsOwned (later reach step) v = Step-IsOwned step (Reach-IsOwned reach v)
