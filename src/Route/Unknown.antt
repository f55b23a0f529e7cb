-- ===== src/Route/Unknown.antt =====
-- evaluate_record() of a record whose first vertex is not in the graph.
use proxy_part.Prelude.{
  ℕ, suc, ◌≡◌, ◌≢◌, ◌∙◌, refl, subst, ap, sym, arith, [], ◌∷◌, ◌++◌, Option, none, some, true,
  false, Option-cases, inl, inr,
}
use proxy_part.UtHash.{UtHash}
use proxy_part.Proxy.{ret, update}
use proxy_part.Proxy.Steps.{bind_ret}
use proxy_part.Proxy.Member.Add.{update_self, update_other}
use proxy_part.Wire.{Time, of_net}
use proxy_part.Route.{ReceivedRecord, host_time}
use proxy_part.Route.{
  Edge, Vertex, N, vertex_or_new, link_new, edge_from_new, edge_from, evaluate_record,
}
use proxy_part.Route.Order.{Sent, host_time-Sent}
use proxy_part.Route.Steps.{
  lock_step, deref_vertex_step, store_vertex_step, deref_edge_step, store_edge_step,
  find_vertex_step, unlock_last,
}

module _ (h : UtHash) where
  -- The state after the edge has been linked.
  abbrev linked : N h → ReceivedRecord → ℕ → ℕ → ℕ → Edge → Vertex (h.Table) → N h
  linked s r v e node edge first = record s {
    edges = update s.edges e (some (record edge { node = node }));
    network = h.add s.network r.proxy1.tap_mac v;
    vertices =
        update (update s.vertices node (some (record { ls = r.proxy2; nbrs = h.empty }))) v
          (some (record first { nbrs = h.add first.nbrs r.proxy2.tap_mac e }));
  }

  link_step :
      (s : N h) (r : ReceivedRecord) (v e node : ℕ) (edge : Edge) (first old : Vertex (h.Table))
      → node ≢ v
      → s.edges e ≡ some edge
      → s.vertices node ≡ some old
      → s.vertices v ≡ some first
      → link_new h r v e node s ≡ ret e (linked s r v e node edge first)
  unfolding link_new
  link_step s r v e node edge first old ne me mn mv =
      let second : Vertex (h.Table) = record { ls = r.proxy2; nbrs = h.empty } in
      let s₁ = record s { edges = update s.edges e (some (record edge { node = node })) } in
      let s₂ = record s₁ { vertices = update s.vertices node (some second) } in
      let s₃ = record s₂ { network = h.add s.network r.proxy1.tap_mac v } in
      let here : s₃.vertices v ≡ some first =
        update_other s.vertices node v (some second) ne ∙ mv in
      deref_edge_step s e edge _ me
      ∙ (store_edge_step s e edge _ _ me
          ∙ (store_vertex_step s₁ node old second _ mn
              ∙ (deref_vertex_step s₃ v first _ here ∙ store_vertex_step s₃ v first _ _ here)))

  -- What a record has added: a vertex with one edge, to the vertex at `node`.
  pub record Linked (s : N h) (r : ReceivedRecord) (now : Time) (node : ℕ) (t : N h) : Type 0 where
    pub unlocked : t.proxy.writing ≡ false
    pub vertices : h.items t.network ≡ h.items s.network ++ (r.proxy1.tap_mac, s.next_vertex) ∷ []
    pub first :
        t.vertices s.next_vertex
        ≡ some (record { ls = r.proxy1; nbrs = h.add h.empty r.proxy2.tap_mac s.next_edge })
    pub edge :
        t.edges s.next_edge
        ≡ some (record { node = node; timestamp = now; link_weight = of_net r.link_weight })
    pub second : t.vertices node ≡ some (record { ls = r.proxy2; nbrs = h.empty })

  -- The first vertex and the edge as they are before they are linked.
  abbrev begun : N h → ReceivedRecord → N h
  begun s r = record s {
    proxy = record s.proxy { writing = true };
    vertices =
        update (update s.vertices s.next_vertex (some s.raw_vertex)) s.next_vertex
          (some (record { ls = r.proxy1; nbrs = h.empty }));
    next_vertex = suc s.next_vertex;
    edges = update s.edges s.next_edge (some s.raw_edge);
    next_edge = suc s.next_edge;
  }

  -- The second vertex is found or allocated at `node`, and the state is then `t`.
  finish :
      (s : N h) (r : ReceivedRecord) (o : Option ℕ) (node : ℕ) (old : Vertex (h.Table)) (t : N h)
      → s.proxy.writing ≡ false
      → h.find s.network r.proxy1.tap_mac ≡ none
      → h.find s.network r.proxy2.tap_mac ≡ o
      → vertex_or_new o (begun s r) ≡ ret node t
      → t.network ≡ s.network
      → t.proxy ≡ record s.proxy { writing = true }
      → t.edges ≡ (begun s r).edges
      → node ≢ s.next_vertex
      → t.vertices node ≡ some old
      → t.vertices s.next_vertex ≡ some (record { ls = r.proxy1; nbrs = h.empty })
      → (u : N h) × (evaluate_record h r s ≡ ret tt u) × Linked s r (host_time r.id) node u
  unfolding evaluate_record edge_from edge_from_new
  finish s r o node old t w absent found got net prox edg ne mn mv =
      let v = s.next_vertex in
      let e = s.next_edge in
      let first : Vertex (h.Table) = record { ls = r.proxy1; nbrs = h.empty } in
      let me : t.edges e ≡ some s.raw_edge = ap (λ f. f e) edg ∙ update_self s.edges e _ in
      let s₁ = record s { proxy = record s.proxy { writing = true } } in
      let s₂ = linked t r v e node s.raw_edge first in
      let made : edge_from_new h r s₁ ≡ ret e s₂ =
        store_vertex_step _ v s.raw_vertex first _ (update_self s.vertices v _)
        ∙ (find_vertex_step h (begun s r) r.proxy2.tap_mac o _ found
            ∙ (bind_ret (vertex_or_new o) _ (begun s r) got
                ∙ link_step t r v e node s.raw_edge first old ne me mn mv)) in
      let linked_edge : s₂.edges e ≡ some (record (s.raw_edge) { node = node }) =
        update_self t.edges e _ in
      (
        _,
        lock_step s _ w
            ∙ (find_vertex_step h s₁ r.proxy1.tap_mac none _ absent
                ∙ (bind_ret (edge_from h r none) _ s₁ made
                    ∙ (deref_edge_step s₂ e _ _ linked_edge
                        ∙ (store_edge_step s₂ e _ _ _ linked_edge
                            ∙ unlock_last _ (ap (λ p. p.writing) prox))))),
        record {
          unlocked = refl;
          vertices =
              h.items-add t.network r.proxy1.tap_mac v
              ∙ ap (λ n. h.items n ++ (r.proxy1.tap_mac, v) ∷ []) net;
          first = update_self (update t.vertices node _) v _;
          edge = update_self s₂.edges e _;
          second =
              update_other (update t.vertices node _) v node _ (λ q. ne (sym q))
              ∙ update_self t.vertices node _;
        },
      )

  -- Where the second vertex is: where it was found, or in memory that malloc() has given out after
  -- the first vertex.
  abbrev pub second_at : N h → Option ℕ → ℕ
  second_at s none = suc s.next_vertex
  second_at s (some p) = p

  second_new :
      (s : N h) (r : ReceivedRecord)
      → s.proxy.writing ≡ false
      → h.find s.network r.proxy1.tap_mac ≡ none
      → h.find s.network r.proxy2.tap_mac ≡ none
      → (u : N h) × (evaluate_record h r s ≡ ret tt u)
        × Linked s r (host_time r.id) (suc s.next_vertex) u
  unfolding vertex_or_new
  second_new s r w absent found =
      let b = begun s r in
      let v = s.next_vertex in
      let t = record b {
        vertices = update b.vertices (suc v) (some s.raw_vertex);
        next_vertex = suc (suc v);
      } in
      finish s r none (suc v) s.raw_vertex t w absent found refl refl refl refl (λ e. omega arith)
        (update_self b.vertices (suc v) _)
        (update_other b.vertices (suc v) v _ (λ e. omega arith)
          ∙ update_self (update s.vertices v (some s.raw_vertex)) v _)

  second_old :
      (s : N h) (r : ReceivedRecord) (p : ℕ) (old : Vertex (h.Table))
      → s.proxy.writing ≡ false
      → h.find s.network r.proxy1.tap_mac ≡ none
      → h.find s.network r.proxy2.tap_mac ≡ some p
      → s.vertices p ≡ some old
      → s.next_vertex ≢ p
      → (u : N h) × (evaluate_record h r s ≡ ret tt u) × Linked s r (host_time r.id) p u
  unfolding vertex_or_new
  second_old s r p old w absent found here other =
      let b = begun s r in
      let v = s.next_vertex in
      let V = update s.vertices v (some s.raw_vertex) in
      finish s r (some p) p old b w absent found refl refl refl refl (λ e. other (sym e))
        (update_other V v p _ other ∙ (update_other s.vertices v p _ other ∙ here))
        (update_self V v _)

  -- When the lock is free, the first proxy of a record is not in the graph, the second has a vertex
  -- in memory if it is, and malloc() gives out an address that is not in use, evaluate_record()
  -- of a record that holds the time `now` in network order returns with the lock free. The graph has
  -- one vertex more, the first proxy, with one edge, which has the time `now` and ntohl() of the
  -- record's weight and leads to a vertex of the second proxy. That vertex has no edges,
  -- also if it was in the graph and had some, and it is not put into the graph if it was not there.
  pub evaluate_record-Linked :
      (s : N h) (r : ReceivedRecord) (now : Time)
      → Sent now r
      → s.proxy.writing ≡ false
      → h.find s.network r.proxy1.tap_mac ≡ none
      → s.vertices s.next_vertex ≡ none
      → ((p : ℕ)
          → h.find s.network r.proxy2.tap_mac ≡ some p
          → (old : Vertex (h.Table)) × (s.vertices p ≡ some old))
      → (u : N h) × (evaluate_record h r s ≡ ret tt u)
        × Linked s r now (second_at s (h.find s.network r.proxy2.tap_mac)) u
  evaluate_record-Linked s r now sent w absent unused held =
      let time = host_time-Sent now r sent in
      elim (Option-cases (h.find s.network r.proxy2.tap_mac)) [
        | inl found ↦ rw found (told time (second_new s r w absent found))
        | inr (p, found) ↦
            let (old, here) = held p found in
            let other : s.next_vertex ≢ p =
              λ e. some-ne-none (sym here ∙ (ap (s.vertices) (sym e) ∙ unused)) in
            rw found (told time (second_old s r p old w absent found here other))
      ]
    where
      some-ne-none : {A : Type 0} {a : A} → ◌≡◌ {A = Option A} (some a) none → ⊥
      some-ne-none e = cc

      told :
          {node : ℕ} {τ : Time}
          → τ ≡ now
          → (u : N h) × (evaluate_record h r s ≡ ret tt u) × Linked s r τ node u
          → (u : N h) × (evaluate_record h r s ≡ ret tt u) × Linked s r now node u
      told {node} e (u, run, l) = (u, run, subst (λ τ. Linked s r τ node u) e l)
