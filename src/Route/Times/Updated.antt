-- ===== src/Route/Times/Updated.antt =====
-- evaluate_record() of a record whose two vertices are in the graph, as an update of the map.
use proxy_part.Prelude.{
  ℕ, ◌≡◌, ◌≢◌, ◌∙◌, refl, sym, subst, ap, ap₂, List, Option, none, some, false, inl, inr,
  Option-cases, if◌then◌else◌, ℕ_discrete,
}
use proxy_part.UtHash.{UtHash}
use proxy_part.Proxy.{ret, update}
use proxy_part.Proxy.Member.Add.{update_self, update_other}
use proxy_part.Wire.{Time, of_net}
use proxy_part.Route.{ReceivedRecord, host_time}
use proxy_part.Route.{Edge, Vertex, N, evaluate_record}
use proxy_part.Route.Order.{Sent, host_time-Sent}
use proxy_part.Route.Known.{evaluate_record-Known}
use proxy_part.Route.Extended.{evaluate_record-Extended}
use proxy_part.Route.Times.{at_pointer, label_of, edge_at, edge_label, IsGraph}
use proxy_part.Route.Times.Keys.{is_key, chosen, not_chosen, Updated}
use proxy_part.Route.Times.Grown.{extended-Updated}

module _ (h : UtHash) (s : N h) (r : ReceivedRecord) (v : ℕ) (first : Vertex (h.Table)) where
  -- The pointer under the tap addresses of the record.
  own_edge :
      (o : Option ℕ)
      → h.find s.network r.proxy1.tap_mac ≡ some v
      → s.vertices v ≡ some first
      → h.find first.nbrs r.proxy2.tap_mac ≡ o
      → edge_at h s r.proxy1.tap_mac r.proxy2.tap_mac ≡ o
  unfolding edge_at
  own_edge o fv mv e = rw (fv, mv) e

  -- Of the table of edges after a write to the one at `e`.
  label_at_pointer :
      (m : ℕ → Option Edge) (e : ℕ) (new : Edge) (o : Option ℕ) (k j : List ℕ)
      → (o ≡ some e → (k ≡ r.proxy1.tap_mac) × (j ≡ r.proxy2.tap_mac))
      → ((k ≡ r.proxy1.tap_mac) × (j ≡ r.proxy2.tap_mac) → o ≡ some e)
      → label_of (at_pointer o (update m e (some new))) ≡ (
          if is_key r k j then some (new.timestamp, new.link_weight) else label_of (at_pointer o m))
  label_at_pointer m e new none k j there here =
      sym (not_chosen r k j _ _ (λ p. let q = here p in cc))
  label_at_pointer m e new (some p) k j there here = elim (ℕ_discrete e p) [
    | yes same ↦
        let (a, b) = there (ap (λ x. some x) (sym same)) in
        ap label_of (ap (update m e (some new)) (sym same) ∙ update_self m e (some new))
        ∙ sym (chosen r k j _ _ a b)
    | no other ↦
        ap label_of (update_other m e p (some new) other)
        ∙ sym (not_chosen r k j _ _ (λ q. let x = here q in other (cc)))
  ]

  known-Updated :
      (e : ℕ) (edge : Edge)
      → IsGraph h s
      → edge_at h s r.proxy1.tap_mac r.proxy2.tap_mac ≡ some e
      → s.edges e ≡ some edge
      → Updated h s r (host_time r.id) (record s {
        proxy = record s.proxy { writing = false };
        edges =
            update s.edges e (
              some
                (record edge { timestamp = host_time r.id; link_weight = of_net r.link_weight }));
      })
  unfolding edge_at edge_label
  known-Updated e edge g own me =
      let new : Edge = record edge {
        timestamp = host_time r.id;
        link_weight = of_net r.link_weight;
      } in
      record {
        graph = record {
          once = g.once;
          live = λ k j p found.
              let (lt, x, there) = g.live k j p found in
              let (y, y_there) = still_live p x there in (lt, y, y_there);
          vertex_once = g.vertex_once;
          keys = g.keys;
        };
        unlocked = refl;
        labels = λ k j.
            label_at_pointer s.edges e new (edge_at h s k j) k j
              (λ found. g.once k j r.proxy1.tap_mac r.proxy2.tap_mac e found own)
              (λ (p, q). ap₂ (edge_at h s) p q ∙ own);
      }
    where
      still_live :
          (p : ℕ) (x : Edge)
          → s.edges p ≡ some x
          → (y : Edge) × (update s.edges e
                (some
                  (record edge { timestamp = host_time r.id; link_weight = of_net r.link_weight }))
                p
              ≡ some y)
      still_live p x there = elim (ℕ_discrete e p) [
        | yes same ↦ (_, ap (update s.edges e _) (sym same) ∙ update_self s.edges e _)
        | no other ↦ (x, update_other s.edges e p _ other ∙ there)
      ]

-- In a valid graph whose lock is free and that has the two vertices of a record at different
-- addresses, evaluate_record() of a record that holds the time `now` in network order returns with the
-- lock free and the graph valid. As a map from pairs of tap addresses to times and weights, the graph
-- has been updated: it has `now` and ntohl() of the record's weight for the pair of the record, whether
-- or not it had an edge there, and what it had, or nothing, for every other pair.
pub evaluate_record-Updated :
    (h : UtHash) (s : N h) (r : ReceivedRecord) (now : Time) (v node : ℕ)
    (first second : Vertex (h.Table))
    → IsGraph h s
    → Sent now r
    → s.proxy.writing ≡ false
    → h.find s.network r.proxy1.tap_mac ≡ some v
    → h.find s.network r.proxy2.tap_mac ≡ some node
    → s.vertices v ≡ some first
    → s.vertices node ≡ some second
    → node ≢ v
    → (t : N h) × (evaluate_record h r s ≡ ret tt t) × Updated h s r now t
evaluate_record-Updated h s r now v node first second g sent w fv fn mv mn ne =
    elim (Option-cases (h.find first.nbrs r.proxy2.tap_mac)) [
      | inl absent ↦
          let (t, run, x) =
            evaluate_record-Extended h s r v node first second w fv fn mv mn ne absent in
          (
            t,
            run,
            subst (λ τ. Updated h s r τ t) (host_time-Sent now r sent)
                (extended-Updated h s t r v node first second x ne g fv mv mn absent),
          )
      | inr (e, found) ↦
          let own = own_edge h s r v first (some e) fv mv found in
          let (lt, edge, me) = g.live r.proxy1.tap_mac r.proxy2.tap_mac e own in
          let t : N h = record s {
            proxy = record s.proxy { writing = false };
            edges = update s.edges e (
                some
                  (record edge { timestamp = host_time r.id; link_weight = of_net r.link_weight }));
          } in
          (
            t,
            evaluate_record-Known h s r v e first edge w fv mv found me,
            subst (λ τ. Updated h s r τ t) (host_time-Sent now r sent)
                (known-Updated h s r v first e edge g own me),
          )
    ]
