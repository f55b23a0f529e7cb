-- ===== src/Route/Dijkstra.antt =====
-- Dijkstra(), with the binary heap. No function of the program calls it. The two pointers and the
-- flag of an entry that it writes and nothing reads are left out, and so is heap_free().
pub mod Faults
mod Tests
use proxy_part.Prelude.{
  ℕ, ◌-◌, ◌%◌, ◌^◌, leb, if◌then◌else◌, List, [], ◌∷◌, Option, none, some, length,
}
use proxy_part.UtHash.{UtHash, Item}
use proxy_part.Heap.{
  Heap, HeapEnt, Result, ok, fault, out_of_fuel, entry, pointer, set, heap_alloc, heap_insert,
  heap_delete,
}
use proxy_part.Proxy.{ret, stuck, M, ◌>>=◌, ◌>>◌, pure, write_begin, write_end}
use proxy_part.Proxy
use proxy_part.Route.{Net, N, lift, deref_vertex, find_vertex}

module _ {T : Type 0} where
  -- A call on the heap.
  unfoldable pub of_result : {A : Type 0} → Result A → M (Net T) A
  of_result (ok a) s = ret a s
  of_result fault s = Proxy.fault
  of_result out_of_fuel s = stuck

module _ (h : UtHash) where
  -- The iteration over the graph: every vertex goes into the heap, at the greatest distance, and what
  -- heap_insert() returns is used as its position.
  unfoldable pub insert_all : Heap → List Item → M (N h) Heap
  unfolding of_result heap_insert
  insert_all hp [] = pure hp
  insert_all hp ((k, p) ∷ items) = do
    vertex ← deref_vertex p
    (i, more) ← of_result (heap_insert hp vertex.ls.tap_mac (2 ^ 32 - 1))
    ent ← of_result (entry more.heap i)
    insert_all more items

  -- The entry at `i` gets distance 0 and changes places with the first one.
  unfoldable pub put_first : Heap → ℕ → M (N h) Heap
  unfolding of_result
  put_first hp i = do
    own ← of_result (entry hp.heap i)
    let zeroed = set hp.heap i (some (record own { dist = 0 }))
    first ← of_result (pointer zeroed 0)
    at_i ← of_result (pointer zeroed i)
    pure (record hp { heap = set (set zeroed 0 at_i) i first })

  -- A round of the loop. `node` is NULL since the end of the iteration over the graph, and
  -- `node->nbrs` is read after the deletion.
  unfoldable pub drain_round : Heap → M (N h) (Unit {0})
  unfolding of_result heap_delete
  drain_round hp = do (ent, rest) ← of_result (heap_delete hp); λ s. Proxy.fault

  unfoldable pub drain : Heap → M (N h) (Unit {0})
  unfolding drain_round
  drain hp = if leb hp.size 0 then lift write_end else drain_round hp

  -- The own vertex has a position in the heap's index, or none: then the function returns.
  unfoldable pub dijkstra_at : Heap → Option ℕ → M (N h) (Unit {0})
  unfolding put_first drain
  dijkstra_at hp none = pure tt
  dijkstra_at hp (some i) = do placed ← put_first hp i; drain placed

  -- The own vertex is in the graph, or not.
  unfoldable pub dijkstra_from : Option ℕ → M (N h) (Unit {0})
  unfolding insert_all dijkstra_at heap_alloc
  dijkstra_from none s = pure tt s
  dijkstra_from (some node) s =
      (insert_all (heap_alloc (length (h.items s.network) % 2 ^ 32)) (h.items s.network) >>= λ hp t.
      dijkstra_at hp (hp.index t.proxy.link_state.tap_mac) t)
        s

  unfoldable pub dijkstra : (dest : ℕ) → M (N h) (Unit {0})
  unfolding dijkstra_from
  dijkstra dest = do
    lift write_begin
    found ← λ s. find_vertex h s.proxy.link_state.tap_mac s
    dijkstra_from found
