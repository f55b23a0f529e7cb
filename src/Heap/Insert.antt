-- ===== src/Heap/Insert.antt =====
-- heap_insert() on a heap that heap_alloc() has just made.
use proxy_part.Prelude.{ℕ, zero, suc, ◌-◌, ◌^◌, ◌≡◌, refl, List, ◌∷◌, some, leb, false, arith}
use proxy_part.Heap.{
  Heap, HeapEnt, Result, ok, fault, nulls, entry, heap_alloc, heap_insert, upheap, upheap_loop,
}

entry-nulls : (n i : ℕ) → entry (nulls n) i ≡ fault
entry-nulls zero i = refl
entry-nulls (suc n) zero = refl
entry-nulls (suc n) (suc i) = entry-nulls n i

-- The parent of position 0 is past the entries.
upheap_front : (hp : Heap) (e : HeapEnt) (n : ℕ) → hp.heap ≡ some e ∷ nulls n → upheap hp 0 ≡ fault
unfolding upheap
upheap_front hp e n h = rw (h, upheap_loop, entry-nulls n 2147483646)

room : (n : ℕ) → leb (suc n) 0 ≡ false
room n = ground arith

-- What heap_insert() does with the first entry of a heap.
abbrev pub first_insert : ℕ → Result (ℕ × Heap)
first_insert zero = ok (2 ^ 32 - 1, heap_alloc 0)
first_insert (suc n) = fault

-- The first heap_insert() into a heap that heap_alloc() has made returns -1 if there is no room, and
-- otherwise looks up the parent of position 0, for every size, node and distance.
pub heap_insert_first :
    (max : ℕ) (node : List ℕ) (dist : ℕ) → heap_insert (heap_alloc max) node dist ≡ first_insert max
unfolding heap_insert heap_alloc
heap_insert_first zero node dist = refl
heap_insert_first (suc n) node dist =
    rw
      (
        heap_insert,
        room n,
        upheap_front
            (record (heap_alloc (suc n)) {
              heap = some (record { node = node; dist = dist }) ∷ nulls n;
            })
            (record { node = node; dist = dist }) n refl,
      )
      refl
