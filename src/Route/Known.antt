-- ===== src/Route/Known.antt =====
-- The graph when the first vertex is known: evaluate_record() with an edge that is there, and
-- remove_from_network().
use proxy_part.Prelude.{ℕ, ◌≡◌, ◌∙◌, refl, some, true, false, ap}
use proxy_part.UtHash.{UtHash}
use proxy_part.Proxy.{ret, deadlock, update, write_begin}
use proxy_part.Proxy.Steps.{bind_ret}
use proxy_part.Wire.{of_net}
use proxy_part.Route.{ReceivedRecord, host_time}
use proxy_part.Route.{
  Edge, Vertex, N, lift, edge_from, edge_or_new, evaluate_record, unless_found, remove_from_network,
}
use proxy_part.Route.Steps.{
  lock_step, deref_vertex_step, deref_edge_step, store_edge_step, find_vertex_step, unlock_last,
  lock_deadlock,
}

module _ (h : UtHash) where
  -- When the lock is free and the edge from the first proxy of a record to the second is in the
  -- graph, evaluate_record() returns with the lock free and the time of the edge set to that of the
  -- record; nothing else has changed.
  pub evaluate_record-Known :
      (s : N h) (r : ReceivedRecord) (v e : ℕ) (vertex : Vertex (h.Table)) (edge : Edge)
      → s.proxy.writing ≡ false
      → h.find s.network r.proxy1.tap_mac ≡ some v
      → s.vertices v ≡ some vertex
      → h.find vertex.nbrs r.proxy2.tap_mac ≡ some e
      → s.edges e ≡ some edge
      → evaluate_record h r s
        ≡ ret tt (record s {
          proxy = record s.proxy { writing = false };
          edges = update s.edges e (
              some
                (record edge { timestamp = host_time r.id; link_weight = of_net r.link_weight }));
        })
  unfolding evaluate_record edge_from edge_or_new
  evaluate_record-Known s r v e vertex edge w fv mv fe me =
      let s₁ = record s { proxy = record s.proxy { writing = true } } in
      lock_step s _ w
      ∙ (find_vertex_step h s₁ r.proxy1.tap_mac (some v) _ fv
          ∙ (bind_ret (edge_from h r (some v)) _ s₁
                (deref_vertex_step s₁ v vertex _ mv ∙ ap (λ o. edge_or_new h r v o s₁) fe)
              ∙ (deref_edge_step s₁ e edge _ me
                  ∙ (store_edge_step s₁ e edge _ _ me ∙ unlock_last _ refl))))

  -- When the lock is free, remove_from_network() of a vertex whose tap address is in the graph
  -- returns with the lock held and nothing else changed, and a writeBegin() after it waits for ever.
  pub remove_from_network_keeps_lock :
      (s : N h) (pp node : ℕ) (vertex : Vertex (h.Table))
      → s.proxy.writing ≡ false
      → s.vertices pp ≡ some vertex
      → h.find s.network vertex.ls.tap_mac ≡ some node
      → (t : N h) × (remove_from_network h pp s ≡ ret tt t)
        × (t ≡ record s { proxy = record s.proxy { writing = true } })
        × (lift write_begin t ≡ deadlock)
  unfolding remove_from_network unless_found
  remove_from_network_keeps_lock s pp node vertex w m f =
      let s₁ = record s { proxy = record s.proxy { writing = true } } in
      (
        s₁,
        lock_step s _ w
            ∙ (deref_vertex_step s₁ pp vertex _ m
                ∙ find_vertex_step h s₁ vertex.ls.tap_mac (some node) _ f),
        refl,
        lock_deadlock s₁ refl,
      )
