-- ===== src/Route/Dijkstra/Faults.antt =====
-- How Dijkstra() ends.
use proxy_part.Prelude.{
  ℕ, zero, suc, ◌-◌, ◌%◌, ◌^◌, ◌≡◌, ◌↔◌, ◌∙◌, refl, ap, List, [], ◌∷◌, none, some, false, true, inl,
  inr, Option-cases, length,
}
use proxy_part.UtHash.{UtHash, Item, Has}
use proxy_part.Heap.{Heap, HeapEnt, heap_alloc, heap_insert, entry}
use proxy_part.Heap.Insert.{heap_insert_first}
use proxy_part.Proxy.{ret, fault, deadlock, M, ◌>>=◌, write_begin}
use proxy_part.Proxy.Steps.{bind_ret}
use proxy_part.Route.{N, lift, deref_vertex, find_vertex}
use proxy_part.Route.Steps.{lock_step, deref_vertex_step, find_vertex_step, lock_deadlock}
use proxy_part.Route.Dijkstra.{of_result, insert_all, dijkstra_from, dijkstra}

bind_fault :
    {S A B : Type 0} (m : M S A) (f : A → M S B) (s : S) → m s ≡ fault → (m >>= f) s ≡ fault
bind_fault m f s e = rw (e, ◌>>=◌)

module _ (h : UtHash) where
  abbrev pub locked : N h → N h
  locked s = record s { proxy = record s.proxy { writing = true } }

  -- The first heap_insert() faults, or its result -1 is used as a position.
  insert_fault :
      (n : ℕ) (node : List ℕ) (dist : ℕ) (f : Heap → HeapEnt → M (N h) Heap) (s : N h)
      → (of_result (heap_insert (heap_alloc n) node dist) >>= λ r.
            of_result (entry r.1.heap r.0) >>= f r.1)
          s
        ≡ fault
  unfolding of_result heap_alloc
  insert_fault zero node dist f s =
      bind_ret (of_result (heap_insert (heap_alloc 0) node dist)) _ s
        (ap (λ r. of_result r s) (heap_insert_first 0 node dist))
      ∙ bind_fault (of_result (entry [] (2 ^ 32 - 1))) (f (heap_alloc 0)) s refl
  insert_fault (suc n) node dist f s =
      bind_fault (of_result (heap_insert (heap_alloc (suc n)) node dist)) _ s
        (ap (λ r. of_result r s) (heap_insert_first (suc n) node dist))

  insert_all_fault :
      (n : ℕ) (items : List Item) (k : List ℕ) (p : ℕ) (s : N h)
      → Has k p items
      → insert_all h (heap_alloc n) items s ≡ fault
  unfolding insert_all deref_vertex
  insert_all_fault n [] k p s here = absurd here
  insert_all_fault n ((j, q) ∷ items) k p s here = elim (Option-cases (s.vertices q)) [
    | inl gone ↦ bind_fault (deref_vertex q) _ s (rw (gone, deref_vertex))
    | inr (v, m) ↦
        deref_vertex_step s q v _ m
        ∙ insert_fault n v.ls.tap_mac (2 ^ 32 - 1) (λ more ent. insert_all h more items) s
  ]

  dijkstra_found :
      (dest node : ℕ) (s : N h)
      → s.proxy.writing ≡ false
      → h.find s.network s.proxy.link_state.tap_mac ≡ some node
      → dijkstra h dest s ≡ fault
  unfolding dijkstra dijkstra_from find_vertex
  dijkstra_found dest node s w found =
      lock_step s _ w
      ∙ (find_vertex_step h (locked s) s.proxy.link_state.tap_mac (some node) (dijkstra_from h)
            found
          ∙ bind_fault
              (insert_all h (heap_alloc (length (h.items s.network) % 2 ^ 32)) (h.items s.network))
              _ (locked s)
              (insert_all_fault _ (h.items s.network) _ node (locked s)
                (h.find_some s.network _ node found)))

  dijkstra_absent :
      (dest : ℕ) (s : N h)
      → s.proxy.writing ≡ false
      → h.find s.network s.proxy.link_state.tap_mac ≡ none
      → dijkstra h dest s ≡ ret tt (locked s)
  unfolding dijkstra dijkstra_from find_vertex
  dijkstra_absent dest s w found =
      lock_step s _ w
      ∙ find_vertex_step h (locked s) s.proxy.link_state.tap_mac none (dijkstra_from h) found

  -- When the lock is free, Dijkstra() returns exactly if the own vertex is not in the graph, with the
  -- lock held and nothing else changed, so that a writeBegin() after it waits for ever. It ends in a
  -- use of memory that is not there exactly if the own vertex is in the graph.
  pub dijkstra_ends :
      (dest : ℕ) (s : N h)
      → s.proxy.writing ≡ false
      → ((h.find s.network s.proxy.link_state.tap_mac ≡ none)
          ↔ ((dijkstra h dest s ≡ ret tt (locked s)) × (lift write_begin (locked s) ≡ deadlock)))
        × (((node : ℕ) × (h.find s.network s.proxy.link_state.tap_mac ≡ some node))
            ↔ (dijkstra h dest s ≡ fault))
  dijkstra_ends dest s w =
      let own = h.find s.network s.proxy.link_state.tap_mac in
      let absent = dijkstra_absent dest s w in
      let found = λ (node : ℕ). dijkstra_found dest node s w in
      elim (Option-cases own) [
        | inl n ↦ (
          (λ _. (absent n, lock_deadlock (locked s) refl), λ _. n),
          (λ (node, m). found node m, λ e. absurd (let x = absent n in cc)),
        )
        | inr (node, m) ↦ (
          (λ n. absurd (let x = found node m in cc), λ (e, _). absurd (let x = found node m in cc)),
          (λ _. found node m, λ _. (node, m)),
        )
      ]
