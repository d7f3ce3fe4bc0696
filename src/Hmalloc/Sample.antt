-- ===== src/Hmalloc/Sample.antt =====
-- A small machine that satisfies `IsLibc`, to run the library on: a request of 1000 bytes fails in
-- jemalloc, one of a million in `mmap`, and a mask of node 3 or above in `mbind`.
use hmsdk.Base.{
  ◌-◌, ℕ, suc, ◌+◌, ◌*◌, ◌/◌, ◌%◌, ◌^◌, ◌<◌, ◌≡◌, refl, sym, ap, ◌∙◌, Bool-cases, inl, inr, ◌≢◌,
  Bool, true, false, ◌&&◌, List, [], ◌∷◌, length, ltb, leb, ◌==◌, if◌then◌else◌, arith,
}
use native.Mathlib.Nat.{mod-eq_of_lt}
use hmsdk.Base.Int.{ℤ, pos, negsuc}
use hmsdk.Hmalloc.Bag.{one, occurrences, Bag, bag_of, times, add, Bag-ext, times-add, times-bag_of}
use hmsdk.Hmalloc.Libc.{Libc, IsLibc, map_failed}
use hmsdk.Hmalloc.Library.{Globals}

pub record Heap : Type 0 where
  pub err : ℕ
  pub live : List ℕ
  pub maps : List (ℕ × ℕ)
  pub bytes : ℕ → ℕ
  pub policies : ℕ → ℤ × ℕ

abbrev pub new_heap : Heap
new_heap = record { err = 0; live = []; maps = []; bytes = λ i. i; policies = λ _. (pos 0, 0) }

abbrev remove_block : ℕ → List ℕ → List ℕ
remove_block ptr [] = []
remove_block ptr (p ∷ ps) = let rest = remove_block ptr ps in if p == ptr then ps else p ∷ rest

abbrev remove_map : ℕ → List (ℕ × ℕ) → List (ℕ × ℕ)
remove_map addr [] = []
remove_map addr ((a, n) ∷ ms) =
    let rest = remove_map addr ms in if a == addr then ms else (a, n) ∷ rest

abbrev heap_map : ℕ → Bool → Heap → ℕ × Heap
heap_map length true w = (65536, record w { maps = (65536, length) ∷ w.maps })
heap_map length false w = (map_failed, record w { err = 12 })

abbrev heap_bind : ℕ → ℤ × ℕ → Bool → Heap → ℤ × Heap
heap_bind addr p true w =
    (pos 0, record w { policies = λ a. if a == addr then p else w.policies a })
heap_bind addr p false w = (negsuc 0, record w { err = 22 })

abbrev heap_alloc : Bool → Heap → ℕ × Heap
heap_alloc true w =
    (4096 * suc (length w.live), record w { live = 4096 * suc (length w.live) ∷ w.live })
heap_alloc false w = (0, record w { err = 12 })

abbrev heap_resize : ℕ → Bool → Heap → ℕ × Heap
heap_resize ptr true w = (ptr, w)
heap_resize ptr false w = (0, record w { err = 12 })

abbrev heap_set : ℕ → ℕ → ℕ → Heap → Heap
heap_set ptr byte size w = record w {
  bytes = λ i. if leb ptr i && ltb i (ptr + size) then byte else w.bytes i;
}

abbrev pub heap_libc : Libc Heap
heap_libc = record {
  errno = λ w. w.err;
  set_errno = λ e w. record w { err = e };
  enomem = 12;
  einval = 22;
  prot_read_write = 3;
  map_private_anon = 34;
  is_fixed = λ flags. (flags / 16) % 2 == 1;
  mmap = λ addr length f w. heap_map length (ltb length 1000000) w;
  mbind = λ addr length mode mask maxnode w.
      heap_bind addr (mode, mask % 2 ^ (maxnode - 1)) (ltb mask 8) w;
  munmap = λ addr length w. (pos 0, record w { maps = remove_map addr w.maps });
  malloc = λ size w. heap_alloc (ltb size 1000) w;
  free = λ ptr w. record w { live = remove_block ptr w.live };
  realloc = λ ptr size w. (ptr, w);
  aligned_alloc = λ alignment size w. heap_alloc (ltb size 1000) w;
  posix_memalign = λ memptr alignment size w. ((12, memptr), w);
  malloc_usable_size = λ ptr w. 1000;
  memset = heap_set;
  mallocx = λ size f w. heap_alloc (ltb size 1000) w;
  dallocx = λ ptr f w. record w { live = remove_block ptr w.live };
  rallocx = λ ptr size f w. heap_resize ptr (ltb size 1000) w;
  sallocx = λ ptr f w. 1000;
  numa_max_possible_node = λ w. 63;
  arenas_create = λ w. ((pos 0, 1), w);
}

same : (n : ℕ) → (n == n) ≡ true
same n = ground arith

pub heap_map_fails :
    (n : ℕ) (fits : Bool) (w : Heap)
    → (heap_map n fits w).0 ≡ map_failed
    → (heap_map n fits w).1.maps ≡ w.maps
heap_map_fails n true w e = absurd (omega arith)
heap_map_fails n false w e = refl

pub heap_map_maps :
    (n : ℕ) (fits : Bool) (w : Heap)
    → (heap_map n fits w).0 ≢ map_failed
    → (heap_map n fits w).1.maps ≡ ((heap_map n fits w).0, n) ∷ w.maps
heap_map_maps n true w h = refl
heap_map_maps n false w h = absurd (h refl)

pub maps-heap_bind :
    (addr : ℕ) (p : ℤ × ℕ) (fits : Bool) (w : Heap) → (heap_bind addr p fits w).1.maps ≡ w.maps
maps-heap_bind addr p true w = refl
maps-heap_bind addr p false w = refl

pub policies-heap_bind :
    (addr : ℕ) (p : ℤ × ℕ) (fits : Bool) (w : Heap)
    → (heap_bind addr p fits w).0 ≡ pos 0
    → (heap_bind addr p fits w).1.policies addr ≡ p
policies-heap_bind addr p true w e = rw (same addr) refl
policies-heap_bind addr p false w e = cc

pub remove_map_first :
    (addr n : ℕ) (ms : List (ℕ × ℕ)) {others : List (ℕ × ℕ)}
    → ms ≡ (addr, n) ∷ others
    → remove_map addr ms ≡ others
remove_map_first addr n ms e = rw (e, same addr) refl

occurrences-remove_block :
    (ptr : ℕ) (ps : List ℕ) (a : ℕ)
    → occurrences ps ptr ≢ 0
    → one ptr a + occurrences (remove_block ptr ps) a ≡ occurrences ps a
occurrences-remove_block ptr [] a h = absurd (h refl)
occurrences-remove_block ptr (p ∷ ps) a h = elim (Bool-cases (p == ptr)) [
  | inl found ↦
      let e : p ≡ ptr = ground arith in rw found (ap (λ q. one q a + occurrences ps a) (sym e))
  | inr other ↦
      let later = occurrences-remove_block ptr ps a (λ e. h (rw (other, e) refl)) in
      rw other (omega (arith, later))
]

pub bag_of-remove_block :
    (ptr : ℕ) (ps : List ℕ) (others : Bag)
    → bag_of ps ≡ add ptr others
    → bag_of (remove_block ptr ps) ≡ others
bag_of-remove_block ptr ps others e =
    let counted : (a : ℕ) → occurrences ps a ≡ one ptr a + times others a =
      λ a. sym (times-bag_of ps a) ∙ ap (λ b. times b a) e ∙ times-add ptr others a in
    let here : one ptr ptr ≡ 1 = rw (same ptr) refl in
    let self = counted ptr in
    Bag-ext (bag_of (remove_block ptr ps)) others (λ a.
      let removed =
        occurrences-remove_block ptr ps a (λ z. absurd (omega (arith, self, here, z))) in
      let there = counted a in times-bag_of (remove_block ptr ps) a ∙ omega (arith, there, removed))

pub heap_alloc_fails :
    (fits : Bool) (w : Heap) → (heap_alloc fits w).0 ≡ 0 → (heap_alloc fits w).1.live ≡ w.live
heap_alloc_fails true w e = absurd (omega arith)
heap_alloc_fails false w e = refl

pub heap_alloc_allocates :
    (fits : Bool) (w : Heap)
    → (heap_alloc fits w).0 ≢ 0
    → (heap_alloc fits w).1.live ≡ (heap_alloc fits w).0 ∷ w.live
heap_alloc_allocates true w h = refl
heap_alloc_allocates false w h = absurd (h refl)

pub heap_alloc_adds :
    (fits : Bool) (w : Heap)
    → (heap_alloc fits w).0 ≢ 0
    → bag_of (heap_alloc fits w).1.live ≡ add (heap_alloc fits w).0 (bag_of w.live)
unfolding add
heap_alloc_adds fits w h = ap bag_of (heap_alloc_allocates fits w h)

pub heap_resize_fails :
    (ptr : ℕ) (fits : Bool) (w : Heap)
    → (heap_resize ptr fits w).0 ≡ 0
    → bag_of (heap_resize ptr fits w).1.live ≡ bag_of w.live
heap_resize_fails ptr true w e = refl
heap_resize_fails ptr false w e = refl

pub heap_resize_moves :
    (ptr : ℕ) (fits : Bool) (w : Heap) (others : Bag)
    → (heap_resize ptr fits w).0 ≢ 0
    → bag_of w.live ≡ add ptr others
    → bag_of (heap_resize ptr fits w).1.live ≡ add (heap_resize ptr fits w).0 others
heap_resize_moves ptr true w others h e = e
heap_resize_moves ptr false w others h e = absurd (h refl)

pub bytes-heap_set :
    (ptr byte size i : ℕ) (w : Heap) → i < size → (heap_set ptr byte size w).bytes (ptr + i) ≡ byte
bytes-heap_set ptr byte size i w h = ground arith

abbrev pub heap-IsLibc : IsLibc heap_libc
heap-IsLibc = record {
  mappings = λ w. w.maps;
  blocks = λ w. bag_of w.live;
  load = λ w i. w.bytes i;
  errno-set_errno = λ e w. refl;
  blocks-set_errno = λ e w. refl;
  mappings-set_errno = λ e w. refl;
  policy = λ w a. w.policies a;
  is_fixed-map_private_anon = refl;
  mmap_fails = λ addr n f w _. heap_map_fails n (ltb n 1000000) w;
  mmap_maps = λ addr n f w _. heap_map_maps n (ltb n 1000000) w;
  mappings-mbind = λ addr n mode mask maxnode w.
      maps-heap_bind addr (mode, mask % 2 ^ (maxnode - 1)) (ltb mask 8) w;
  mbind_binds = λ addr n mode mask maxnode w _ _ lt e.
      policies-heap_bind addr (mode, mask % 2 ^ (maxnode - 1)) (ltb mask 8) w e
      ∙ ap (λ nodes. (mode, nodes)) (mod-eq_of_lt lt);
  munmap_fails = λ addr n w h. absurd (h refl);
  mappings-munmap = λ addr n w _ e. remove_map_first addr n w.maps e;
  mallocx_fails = λ size f w e. ap bag_of (heap_alloc_fails (ltb size 1000) w e);
  mallocx_allocates = λ size f w h. heap_alloc_adds (ltb size 1000) w h;
  blocks-dallocx = λ ptr f w e. bag_of-remove_block ptr w.live _ e;
  rallocx_fails = λ ptr size f w. heap_resize_fails ptr (ltb size 1000) w;
  rallocx_moves = λ ptr size f w others h e. heap_resize_moves ptr (ltb size 1000) w others h e;
  blocks-memset = λ ptr byte size w. refl;
  load-memset = λ ptr byte size i w h. bytes-heap_set ptr byte size i w h;
}

-- Node 4 is asked for, which `mbind` refuses.
abbrev pub globals : Globals
globals = record {
  settings = record { use_jemalloc = true; nodemask = 16; mpol_mode = pos 2 };
  arena_index = 1;
  maxnode = 63;
}
