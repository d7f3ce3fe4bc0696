-- ===== src/Hmalloc/Tests.antt =====
-- The library on a small machine.
use hmsdk.Base.{◌∷◌, ℕ, ◌+◌, ◌^◌, ◌≡◌, refl, sym, ◌∙◌, ◌≢◌, ◌↔◌, false, [], arith}
use hmsdk.Hmalloc.Power.{is_refused, is_refused_iff, is_pow2}
use hmsdk.Hmalloc.Library.{
  aligned_flags, hmmap, hmalloc, hfree, hcalloc, haligned_alloc, hposix_memalign,
}
use hmsdk.Hmalloc.Blocks.{load-hcalloc, haligned_alloc-eq, hposix_memalign_error}
use hmsdk.Hmalloc.Client.{State, obtained, Reach, start, later, allocates, releases}
use hmsdk.Hmalloc.Client.Leaks.{IsOwned, Reach-IsOwned}
use hmsdk.Hmalloc.Bag.{bag_of, add, join, join-empty, add_comm}
use hmsdk.Hmalloc.Sample.{Heap, new_heap, heap_libc, heap-IsLibc, globals}

-- The binding fails, so the mapping is undone and `errno` is that of `mbind`.
undoes :
    hmmap heap_libc globals 0 4096 (record { prot = 3; flags = 34; fd = 0; offset = 0 }) new_heap
    ≡ (0, record new_heap { err = 22 })
unfolding hmmap
undoes = refl

is_refused_iff_example : (is_refused 64 ≡ false) ↔ ((k : ℕ) × (64 ≡ 2 ^ k))
is_refused_iff_example = is_refused_iff 64 (omega arith)

load-hcalloc_example :
    heap-IsLibc.load
      (hcalloc heap_libc globals 3 8 new_heap).1
      ((hcalloc heap_libc globals 3 8 new_heap).0 + 5)
    ≡ 0
unfolding hcalloc hmalloc
load-hcalloc_example =
    load-hcalloc heap_libc heap-IsLibc globals 3 8 5 new_heap (omega arith) (omega arith)

-- After a request that failed, the next one succeeds and its block is lost.
abbrev failed_heap : Heap
failed_heap = record new_heap { err = 12 }

loses_block : hmalloc heap_libc globals 8 failed_heap ≡ (0, record failed_heap { live = 4096 ∷ [] })
unfolding hmalloc
loses_block = refl

haligned_alloc-eq_example :
    (((k : ℕ) × (24 ≡ 2 ^ k))
      → haligned_alloc heap_libc globals 24 8 new_heap
        ≡ heap_libc.mallocx 8 (aligned_flags heap_libc globals 24) new_heap)
    × (((k : ℕ) → 24 ≢ 2 ^ k)
        → haligned_alloc heap_libc globals 24 8 new_heap ≡ (0, record new_heap { err = 22 }))
haligned_alloc-eq_example =
    haligned_alloc-eq heap_libc heap-IsLibc globals refl 24 8 new_heap (omega arith)

-- A request that jemalloc refuses.
hposix_memalign_error_example :
    ((hposix_memalign heap_libc globals 7 64 2000 new_heap).1.err ≡ 0)
    × ((hposix_memalign heap_libc globals 7 64 2000 new_heap).0.1 ≡ 0)
    × (bag_of (hposix_memalign heap_libc globals 7 64 2000 new_heap).1.live ≡ bag_of [])
unfolding hposix_memalign is_refused is_pow2
hposix_memalign_error_example =
    hposix_memalign_error heap_libc heap-IsLibc globals refl 7 64 2000 new_heap (omega arith)

-- Two requests, and then the first block is freed.
abbrev nothing_held : State Heap
nothing_held = record { held = bag_of []; world = new_heap }

abbrev first_held : State Heap
first_held = obtained nothing_held.held (hmalloc heap_libc globals 8 nothing_held.world)

abbrev both_held : State Heap
both_held = obtained first_held.held (hmalloc heap_libc globals 16 first_held.world)

abbrev second_held : State Heap
second_held = record {
  held = add 8192 (bag_of []);
  world = hfree heap_libc globals 4096 both_held.world;
}

both : both_held.held ≡ add 8192 (add 4096 (bag_of []))
unfolding hmalloc
both = refl

two_requests : Reach heap_libc globals nothing_held both_held
unfolding hmalloc
two_requests =
    later (later start (allocates 8 (λ _. omega arith))) (allocates 16 (λ _. omega arith))

out_of_order : Reach heap_libc globals nothing_held second_held
out_of_order =
    later two_requests
      (releases 4096 (add 8192 (bag_of [])) (both ∙ add_comm 8192 4096 (bag_of [])) (omega arith))

nothing-IsOwned : IsOwned heap_libc heap-IsLibc globals refl (bag_of []) nothing_held
nothing-IsOwned = sym (join-empty (bag_of []))

Reach-IsOwned_example :
    bag_of (hfree heap_libc globals 4096 both_held.world).live
    ≡ join (add 8192 (bag_of [])) (bag_of [])
Reach-IsOwned_example =
    Reach-IsOwned heap_libc heap-IsLibc globals refl (bag_of []) out_of_order nothing-IsOwned
