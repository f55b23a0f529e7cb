-- ===== src/Route/Times/Pointers.antt =====
-- The pointers to edges after evaluate_record() has made a new edge.
use proxy_part.Prelude.{
  ℕ, ◌≡◌, ◌≢◌, ◌∙◌, refl, sym, ap, true≢false, List, Option, none, some, inl, inr, Bool-cases,
  Option-cases, if◌then◌else◌, ℕ_discrete,
}
use proxy_part.Wire.{same_bytes}
use proxy_part.Wire.Bytes.{same_bytes_iff}
use proxy_part.UtHash.{UtHash}
use proxy_part.Route.{ReceivedRecord}
use proxy_part.Route.{Vertex, N}
use proxy_part.Route.Extended.{Extended}
use proxy_part.Route.Times.{edge_of, edge_at, IsGraph, find-add, find-add_other}
use proxy_part.Route.Times.Keys.{is_key, chosen, not_chosen, at_absent, at_found}

module _ (h : UtHash) (s t : N h) (r : ReceivedRecord) (v node : ℕ)
    (first second : Vertex (h.Table)) (x : Extended h s r v node first second t)
    (ne : node ≢ v) where
  -- What the vertices other than the first lead to.
  other_vertex :
      (w : ℕ) (j : List ℕ)
      → s.vertices node ≡ some second
      → v ≢ w
      → edge_of h (t.vertices w) j ≡ edge_of h (s.vertices w) j
  other_vertex w j mn other = elim (ℕ_discrete node w) [
    | yes same ↦
        ap (λ o. edge_of h o j) (ap t.vertices (sym same) ∙ x.to)
        ∙ ap (λ o. edge_of h o j) (sym mn ∙ ap s.vertices same)
    | no differs ↦ ap (λ o. edge_of h o j) (x.other_vertices w other differs)
  ]

  first_vertex :
      (j : List ℕ)
      → IsGraph h s
      → s.vertices v ≡ some first
      → h.find first.nbrs r.proxy2.tap_mac ≡ none
      → edge_of h (t.vertices v) j
        ≡ (if same_bytes j r.proxy2.tap_mac then some s.next_edge else edge_of h (s.vertices v) j)
  first_vertex j g mv absent = elim (Bool-cases (same_bytes j r.proxy2.tap_mac)) [
    | inl same ↦
        ap (λ o. edge_of h o j) x.from
        ∙ (ap (h.find (h.add first.nbrs r.proxy2.tap_mac s.next_edge))
              ((same_bytes_iff j r.proxy2.tap_mac).0 same)
            ∙ (find-add h first.nbrs r.proxy2.tap_mac s.next_edge absent ∙ rw same refl))
    | inr differs ↦
        ap (λ o. edge_of h o j) x.from
        ∙ (find-add_other h first.nbrs r.proxy2.tap_mac j s.next_edge (g.keys v first mv)
              (λ e. true≢false (sym ((same_bytes_iff j r.proxy2.tap_mac).1 e) ∙ differs))
            ∙ rw (differs, mv) refl)
  ]

  pub edge_at-Extended :
      (k j : List ℕ)
      → IsGraph h s
      → h.find s.network r.proxy1.tap_mac ≡ some v
      → s.vertices v ≡ some first
      → s.vertices node ≡ some second
      → h.find first.nbrs r.proxy2.tap_mac ≡ none
      → edge_at h t k j ≡ (if is_key r k j then some s.next_edge else edge_at h s k j)
  edge_at-Extended k j g fv mv mn absent = elim (Option-cases (h.find s.network k)) [
    | inl gone ↦
        at_absent h t k j (found_in_t none gone)
        ∙ sym (
            not_chosen r k j _ _ (λ (p, q). let e = ap (h.find s.network) p ∙ fv in cc)
            ∙ at_absent h s k j gone)
    | inr (w, found) ↦ elim (ℕ_discrete v w) [
      | yes same ↦
          let at_v : h.find s.network k ≡ some v = found ∙ ap (λ o. some o) (sym same) in
          let key = g.vertex_once k r.proxy1.tap_mac v at_v fv in
          at_found h t k j v (found_in_t (some v) at_v)
          ∙ (first_vertex j g mv absent ∙ elim (Bool-cases (same_bytes j r.proxy2.tap_mac)) [
            | inl e ↦
                rw e refl ∙ sym (chosen r k j _ _ key ((same_bytes_iff j r.proxy2.tap_mac).0 e))
            | inr e ↦
                rw e refl
                ∙ sym (
                    not_chosen r k j _ _
                      (λ (p, q). true≢false (sym ((same_bytes_iff j r.proxy2.tap_mac).1 q) ∙ e))
                    ∙ at_found h s k j v at_v)
          ])
      | no other ↦
          at_found h t k j w (found_in_t (some w) found)
          ∙ (other_vertex w j mn other
              ∙ sym (
                  not_chosen r k j _ _ (λ (p, q).
                    let e : some v ≡ some w = sym (ap (h.find s.network) p ∙ fv) ∙ found in
                    other (cc))
                  ∙ at_found h s k j w found))
    ]
  ]
    where
      found_in_t : (o : Option ℕ) → h.find s.network k ≡ o → h.find t.network k ≡ o
      found_in_t o e = ap (λ n. h.find n k) x.network ∙ e
