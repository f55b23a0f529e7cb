-- ===== src/Route/Extended.antt =====
-- evaluate_record() of a record whose two vertices are in the graph, without an edge from the first
-- to the second.
use proxy_part.Prelude.{ℕ, suc, ◌≡◌, ◌≢◌, ◌∙◌, refl, sym, ap, none, some, true, false}
use proxy_part.UtHash.{UtHash}
use proxy_part.Proxy.{ret, update}
use proxy_part.Proxy.Steps.{bind_ret}
use proxy_part.Proxy.Member.Add.{update_self, update_other}
use proxy_part.Wire.{of_net}
use proxy_part.Route.{ReceivedRecord, host_time}
use proxy_part.Route.{Vertex, N, vertex_or_new, new_edge, edge_or_new, edge_from, evaluate_record}
use proxy_part.Route.Steps.{
  lock_step, deref_vertex_step, store_vertex_step, deref_edge_step, store_edge_step,
  find_vertex_step, unlock_last,
}

module _ (h : UtHash) where
  -- The graph with a new edge at `e` from the vertex `first` at `v` to the one `second` at `node`.
  pub record Extended (s : N h) (r : ReceivedRecord) (v node : ℕ) (first second : Vertex (h.Table))
      (t : N h) : Type 0 where
    pub unlocked : t.proxy ≡ record s.proxy { writing = false }
    pub network : t.network ≡ s.network
    pub count : t.next_edge ≡ suc s.next_edge
    pub edge :
        t.edges s.next_edge
        ≡ some
            (record { node = node; timestamp = host_time r.id; link_weight = of_net r.link_weight })
    pub other_edges : (p : ℕ) → s.next_edge ≢ p → t.edges p ≡ s.edges p
    pub from :
        t.vertices v ≡ some (record first { nbrs = h.add first.nbrs r.proxy2.tap_mac s.next_edge })
    pub to : t.vertices node ≡ some (record second { ls = r.proxy2 })
    pub other_vertices : (p : ℕ) → v ≢ p → node ≢ p → t.vertices p ≡ s.vertices p

  -- When the lock is free, the two vertices of a record are in the graph at different addresses and
  -- the first has no edge to the second, evaluate_record() returns with the lock free. There is then a
  -- new edge with the time of the record to the second vertex, listed at the first one under the tap
  -- address of the second, which has the link state of the record; the other vertices and edges, the
  -- table of vertices and the state outside the graph are as before.
  pub evaluate_record-Extended :
      (s : N h) (r : ReceivedRecord) (v node : ℕ) (first second : Vertex (h.Table))
      → s.proxy.writing ≡ false
      → h.find s.network r.proxy1.tap_mac ≡ some v
      → h.find s.network r.proxy2.tap_mac ≡ some node
      → s.vertices v ≡ some first
      → s.vertices node ≡ some second
      → node ≢ v
      → h.find first.nbrs r.proxy2.tap_mac ≡ none
      → (t : N h) × (evaluate_record h r s ≡ ret tt t) × Extended s r v node first second t
  unfolding evaluate_record edge_from edge_or_new new_edge vertex_or_new
  evaluate_record-Extended s r v node first second w fv fn mv mn ne absent =
      let e = s.next_edge in
      let raw = s.raw_edge in
      let s₁ = record s { proxy = record s.proxy { writing = true } } in
      let s₂ = record s₁ { edges = update s.edges e (some raw); next_edge = suc e } in
      let s₃ = record s₂ { edges = update s₂.edges e (some (record raw { node = node })) } in
      let to : Vertex (h.Table) = record second { ls = r.proxy2 } in
      let s₄ = record s₃ { vertices = update s.vertices node (some to) } in
      let from : Vertex (h.Table) = record first { nbrs = h.add first.nbrs r.proxy2.tap_mac e } in
      let s₅ = record s₄ { vertices = update s₄.vertices v (some from) } in
      let made : s₂.edges e ≡ some raw = update_self s.edges e _ in
      let linked : s₅.edges e ≡ some (record raw { node = node }) = update_self s₂.edges e _ in
      let here : s₄.vertices v ≡ some first = update_other s.vertices node v (some to) ne ∙ mv in
      let new : new_edge h r v s₁ ≡ ret e s₅ =
        find_vertex_step h s₂ r.proxy2.tap_mac (some node) _ fn
        ∙ (deref_edge_step s₂ e raw _ made
            ∙ (store_edge_step s₂ e raw _ _ made
                ∙ (deref_vertex_step s₃ node second _ mn
                    ∙ (store_vertex_step s₃ node second to _ mn
                        ∙ (deref_vertex_step s₄ v first _ here
                            ∙ store_vertex_step s₄ v first from _ here))))) in
      (
        _,
        lock_step s _ w
            ∙ (find_vertex_step h s₁ r.proxy1.tap_mac (some v) _ fv
                ∙ (bind_ret (edge_from h r (some v)) _ s₁ (
                      deref_vertex_step s₁ v first _ mv
                      ∙ (ap (λ o. edge_or_new h r v o s₁) absent ∙ new))
                    ∙ (deref_edge_step s₅ e _ _ linked
                        ∙ (store_edge_step s₅ e _ _ _ linked ∙ unlock_last _ refl)))),
        record {
          unlocked = refl;
          network = refl;
          count = refl;
          edge = update_self s₅.edges e _;
          other_edges = λ p q.
              update_other s₅.edges e p _ q
              ∙ (update_other s₂.edges e p _ q ∙ update_other s.edges e p _ q);
          from = update_self s₄.vertices v _;
          to =
              update_other s₄.vertices v node _ (λ same. ne (sym same))
              ∙ update_self s.vertices node _;
          other_vertices =
              λ p q q'. update_other s₄.vertices v p _ q ∙ update_other s.vertices node p _ q';
        },
      )
