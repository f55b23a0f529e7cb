-- ===== src/Route/Times/Grown.antt =====
-- The map after evaluate_record() has made a new edge between two vertices of the graph.
use proxy_part.Prelude.{
  ℕ, ◌≡◌, ◌≢◌, ◌<◌, ◌∙◌, refl, sym, ap, subst, arith, List, Option, none, some, ◌⊎◌, inl, inr,
  Bool-cases, if◌then◌else◌, ℕ_discrete,
}
use proxy_part.UtHash.{UtHash}
use proxy_part.Proxy.Member.Lists.{Distinct, Distinct-append}
use proxy_part.Wire.{of_net}
use proxy_part.Route.{ReceivedRecord, host_time}
use proxy_part.Route.{Edge, Vertex, N}
use proxy_part.Route.Extended.{Extended}
use proxy_part.Route.Times.{at_pointer, label_of, edge_at, edge_label, IsGraph}
use proxy_part.Route.Times.Keys.{is_key, is_key_iff, Updated}
use proxy_part.Route.Times.Pointers.{edge_at-Extended}

module _ (h : UtHash) (s t : N h) (r : ReceivedRecord) (v node : ℕ)
    (first second : Vertex (h.Table)) (x : Extended h s r v node first second t)
    (ne : node ≢ v) where
  -- The key of a pointer in the new graph: that of the record, or one of before.
  edge_at-cases :
      (k j : List ℕ) (e : ℕ)
      → IsGraph h s
      → edge_at h t k j ≡ (if is_key r k j then some s.next_edge else edge_at h s k j)
      → edge_at h t k j ≡ some e
      → ((e ≡ s.next_edge) × (k ≡ r.proxy1.tap_mac) × (j ≡ r.proxy2.tap_mac))
        ⊎ ((e < s.next_edge) × (edge_at h s k j ≡ some e))
  edge_at-cases k j e g step found = elim (Bool-cases (is_key r k j)) [
    | inl is ↦
        let (p, q) = (is_key_iff r k j).0 is in
        let same : some e ≡ some s.next_edge = sym found ∙ (step ∙ rw is refl) in inl (cc, p, q)
    | inr not_is ↦
        let old : edge_at h s k j ≡ some e = sym (step ∙ rw not_is refl) ∙ found in
        inr ((g.live k j e old).0, old)
  ]

  -- Equal pointers of the new graph stand under equal keys.
  once_again :
      (k j k' j' : List ℕ) (e : ℕ)
      → IsGraph h s
      → ((e ≡ s.next_edge) × (k ≡ r.proxy1.tap_mac) × (j ≡ r.proxy2.tap_mac))
        ⊎ ((e < s.next_edge) × (edge_at h s k j ≡ some e))
      → ((e ≡ s.next_edge) × (k' ≡ r.proxy1.tap_mac) × (j' ≡ r.proxy2.tap_mac))
        ⊎ ((e < s.next_edge) × (edge_at h s k' j' ≡ some e))
      → (k ≡ k') × (j ≡ j')
  once_again k j k' j' e g (inl (n, p, q)) (inl (n', p', q')) = (p ∙ sym p', q ∙ sym q')
  once_again k j k' j' e g (inl (n, p, q)) (inr (lt, old)) = absurd (omega arith)
  once_again k j k' j' e g (inr (lt, old)) (inl (n, p, q)) = absurd (omega arith)
  once_again k j k' j' e g (inr (lt, old)) (inr (lt', old')) = g.once k j k' j' e old old'

  still_live :
      (k j : List ℕ) (e : ℕ)
      → IsGraph h s
      → ((e ≡ s.next_edge) × (k ≡ r.proxy1.tap_mac) × (j ≡ r.proxy2.tap_mac))
        ⊎ ((e < s.next_edge) × (edge_at h s k j ≡ some e))
      → (e < t.next_edge) × (edge : Edge) × (t.edges e ≡ some edge)
  still_live k j e g (inl (n, p, q)) = (
    omega (arith, x.count),
    record { node = node; timestamp = host_time r.id; link_weight = of_net r.link_weight },
    ap t.edges n ∙ x.edge,
  )
  still_live k j e g (inr (lt, old)) =
      let (l, edge, there) = g.live k j e old in
      (omega (arith, x.count), edge, x.other_edges e (λ same. omega arith) ∙ there)

  kept-Distinct :
      (w : ℕ) (y : Vertex (h.Table))
      → IsGraph h s
      → s.vertices v ≡ some first
      → s.vertices node ≡ some second
      → h.find first.nbrs r.proxy2.tap_mac ≡ none
      → t.vertices w ≡ some y
      → Distinct (h.items y.nbrs)
  kept-Distinct w y g mv mn absent e = elim (ℕ_discrete v w) [
    | yes same ↦
        let nbrs = nbrs_of (sym x.from ∙ (ap t.vertices same ∙ e)) in
        subst (λ n. Distinct (h.items n)) nbrs
          (subst Distinct (sym (h.items-add first.nbrs r.proxy2.tap_mac s.next_edge)) (
            Distinct-append r.proxy2.tap_mac s.next_edge (h.items first.nbrs) (g.keys v first mv)
              (h.find_none first.nbrs r.proxy2.tap_mac absent)))
    | no other ↦ elim (ℕ_discrete node w) [
      | yes same ↦
          let nbrs = nbrs_of (sym x.to ∙ (ap t.vertices same ∙ e)) in
          subst (λ n. Distinct (h.items n)) nbrs (g.keys node second mn)
      | no differs ↦ g.keys w y (sym (x.other_vertices w other differs) ∙ e)
    ]
  ]
    where
      nbrs_of :
          {a b : Vertex (h.Table)}
          → ◌≡◌ {A = Option (Vertex (h.Table))} (some a) (some b)
          → a.nbrs ≡ b.nbrs
      nbrs_of p = cc

  old_label :
      (k j : List ℕ) (o : Option ℕ)
      → IsGraph h s
      → edge_at h s k j ≡ o
      → label_of (at_pointer o t.edges) ≡ label_of (at_pointer o s.edges)
  old_label k j none g e = refl
  old_label k j (some p) g e =
      let lt = (g.live k j p e).0 in ap label_of (x.other_edges p (λ same. omega arith))

  new_label :
      (k j : List ℕ)
      → IsGraph h s
      → edge_at h t k j ≡ (if is_key r k j then some s.next_edge else edge_at h s k j)
      → edge_label h t k j
        ≡ (if is_key r k j then some (host_time r.id, of_net r.link_weight) else edge_label h s k j)
  unfolding edge_label
  new_label k j g step = elim (Bool-cases (is_key r k j)) [
    | inl is ↦
        let at_new : edge_at h t k j ≡ some s.next_edge = step ∙ rw is refl in
        ap (λ o. label_of (at_pointer o t.edges)) at_new ∙ (ap label_of x.edge ∙ rw is refl)
    | inr not_is ↦
        let at_old : edge_at h t k j ≡ edge_at h s k j = step ∙ rw not_is refl in
        ap (λ o. label_of (at_pointer o t.edges)) at_old
        ∙ (old_label k j (edge_at h s k j) g refl ∙ rw not_is refl)
  ]

  pub extended-Updated :
      IsGraph h s
      → h.find s.network r.proxy1.tap_mac ≡ some v
      → s.vertices v ≡ some first
      → s.vertices node ≡ some second
      → h.find first.nbrs r.proxy2.tap_mac ≡ none
      → Updated h s r (host_time r.id) t
  extended-Updated g fv mv mn absent =
      let step =
        λ (k j : List ℕ). edge_at-Extended h s t r v node first second x ne k j g fv mv mn absent in
      record {
        graph = record {
          once = λ k j k' j' e a b.
              once_again k j k' j' e g (edge_at-cases k j e g (step k j) a)
                (edge_at-cases k' j' e g (step k' j') b);
          live = λ k j e a. still_live k j e g (edge_at-cases k j e g (step k j) a);
          vertex_once = λ k k' w a b.
              g.vertex_once k k' w (ap (λ n. h.find n k) (sym x.network) ∙ a)
                (ap (λ n. h.find n k') (sym x.network) ∙ b);
          keys = λ w y e. kept-Distinct w y g mv mn absent e;
        };
        unlocked = x.unlocked;
        labels = λ k j. new_label k j g (step k j);
      }
