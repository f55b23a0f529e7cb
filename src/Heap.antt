-- ===== src/Heap.antt =====
-- The binary heap of route.c, which Dijkstra() uses: heap_alloc(), heap_insert(), heap_delete(),
-- upheap() and downheap().
pub mod Insert
use proxy_part.Prelude.{
  ℕ, zero, suc, ◌+◌, ◌-◌, ◌*◌, ◌/◌, ◌%◌, ◌^◌, Bool, true, false, ◌&&◌, ◌||◌, ltb, leb,
  if◌then◌else◌, List, [], ◌∷◌, Option, none, some,
}
use proxy_part.Wire.{same_bytes}

-- `heapent`: its node is given by the node's tap address. Its other fields are Dijkstra()'s.
pub record HeapEnt : Type 0 where
  pub node : List ℕ
  pub dist : ℕ

-- `none` in the array is NULL. `index` is the hash table from tap addresses to positions.
pub record Heap : Type 0 where
  pub size : ℕ
  pub max : ℕ
  pub heap : List (Option HeapEnt)
  pub index : List ℕ → Option ℕ

-- A call returns, uses memory that is not there, or runs out of the model's fuel.
pub data Result {ℓ} (A : Type ℓ) : Type ℓ where
  ok : A → Result A
  fault out_of_fuel : Result A

infixl 5 ◌>>=◌
abbrev pub ◌>>=◌ {ℓ κ} : {A : Type ℓ} {B : Type κ} → Result A → (A → Result B) → Result B
ok a >>= f = f a
fault >>= f = fault
out_of_fuel >>= f = out_of_fuel

abbrev pub nulls : ℕ → List (Option HeapEnt)
nulls zero = []
nulls (suc n) = none ∷ nulls n

unfoldable pub heap_alloc : ℕ → Heap
heap_alloc max = record { size = 0; max = max; heap = nulls max; index = λ k. none }

-- `hp->heap[i]`
abbrev pub pointer : List (Option HeapEnt) → ℕ → Result (Option HeapEnt)
pointer [] i = fault
pointer (e ∷ es) zero = ok e
pointer (e ∷ es) (suc i) = pointer es i

-- `hp->heap[i]->...`: a position past the end and NULL are faults.
abbrev pub entry : List (Option HeapEnt) → ℕ → Result HeapEnt
entry [] i = fault
entry (none ∷ es) zero = fault
entry (some e ∷ es) zero = ok e
entry (e ∷ es) (suc i) = entry es i

abbrev pub set {ℓ} : {A : Type ℓ} → List A → ℕ → A → List A
set [] i a = []
set (x ∷ xs) zero a = a ∷ xs
set (x ∷ xs) (suc i) a = x ∷ set xs i a

-- `if(hip!=NULL) hip->index=i;`
unfoldable pub set_index : (List ℕ → Option ℕ) → List ℕ → ℕ → List ℕ → Option ℕ
set_index index key i k =
    if same_bytes k key then elim (index k) [ none ↦ none | some j ↦ some i ] else index k

-- `(index-1)/2` in 32 bits.
abbrev pub parent_of : ℕ → ℕ
parent_of index = (index + 2 ^ 32 - 1) % 2 ^ 32 / 2

-- One swap of the entries `a` at `i` and `b` at `j`, after which the index of `a` is `j`.
unfoldable pub swap : Heap → (i j : ℕ) → (a b : HeapEnt) → Heap
unfolding set_index
swap hp i j a b = record hp {
  heap = set (set hp.heap i (some b)) j (some a);
  index = set_index hp.index a.node j;
}

unfoldable pub upheap_loop : ℕ → Heap → ℕ → Result Heap
unfolding swap set_index
upheap_loop zero hp index = out_of_fuel
upheap_loop (suc fuel) hp index = entry hp.heap index >>= λ a.
    entry hp.heap (parent_of index) >>= λ b.
    let up = upheap_loop fuel (swap hp index (parent_of index) a b) (parent_of index) in
    if ltb a.dist b.dist then up else ok (record hp { index = set_index hp.index a.node index })

-- Each round at least halves the position, so one more round than the position is enough.
unfoldable pub upheap : Heap → ℕ → Result Heap
unfolding upheap_loop
upheap hp index = upheap_loop (suc index) hp index

-- The result is -1, as a number without sign, or 0.
unfoldable pub heap_insert : Heap → List ℕ → ℕ → Result (ℕ × Heap)
unfolding upheap
heap_insert hp node dist =
    let ent : HeapEnt = record { node = node; dist = dist } in
    if leb hp.max hp.size
    then ok (2 ^ 32 - 1, hp)
    else (upheap (record hp { heap = set hp.heap hp.size (some ent) }) hp.size >>= λ up.
        ok (0, record up { size = suc up.size }))

-- `hp->heap[index]->dist>hp->heap[child]->dist`, which is only computed if `child<hp->size`.
unfoldable pub farther : Heap → (index child : ℕ) → Result Bool
farther hp index child =
    if ltb child hp.size
    then (entry hp.heap index >>= λ a. entry hp.heap child >>= λ b. ok (ltb b.dist a.dist))
    else ok false

-- The test of the loop of downheap().
unfoldable pub sinks : Heap → ℕ → Result Bool
unfolding farther
sinks hp index = farther hp index (2 * index + 1) >>= λ left.
    if left then ok true else farther hp index (2 * index + 2)

-- `left<right?left:right` is `left`, for the positions below 2 ^ 31 that an array of pointers has.
-- After the swap, the index that is set is that of the entry that has gone down.
unfoldable pub downheap_loop : ℕ → Heap → ℕ → Result Heap
unfolding sinks swap set_index
downheap_loop zero hp index = out_of_fuel
downheap_loop (suc fuel) hp index = sinks hp index >>= λ more. entry hp.heap index >>= λ a.
    let down = entry hp.heap (2 * index + 1) >>= λ b.
    downheap_loop fuel (swap hp index (2 * index + 1) a b) (2 * index + 1) in
    if more then down else ok (record hp { index = set_index hp.index a.node index })

unfoldable pub downheap : Heap → Result Heap
unfolding downheap_loop
downheap hp = downheap_loop (suc hp.size) hp 0

-- `none` is NULL, and so are the two pointers that are only copied here.
unfoldable pub heap_delete : Heap → Result (Option HeapEnt × Heap)
unfolding downheap
heap_delete hp =
    let size = hp.size - 1 in
    if leb hp.size 0
    then ok (none, hp)
    else (pointer hp.heap 0 >>= λ first. pointer hp.heap size >>= λ last.
        downheap (record hp { size = size; heap = set hp.heap 0 last }) >>= λ down.
        ok (first, down))
