-- ===== src/Route/Times.antt =====
-- The graph as a map: the time and the weight that it has for the edge between two tap addresses.
pub mod Keys
pub mod Pointers
pub mod Grown
pub mod Updated
mod Tests
use proxy_part.Prelude.{
  ℕ, ◌≡◌, ◌≢◌, ◌<◌, ◌∙◌, refl, sym, ap, subst, arith, List, [], ◌∷◌, ◌++◌, Option, none, some, Bool,
  true, false, ◌&&◌, ◌⊎◌, inl, inr, Bool-cases, Option-cases,
}
use proxy_part.Wire.{Time, Float, same_bytes}
use proxy_part.Wire.Bytes.{same_bytes_iff}
use proxy_part.UtHash.{UtHash, Item, Has, Lacks}
use proxy_part.Proxy.Member.Lists.{Distinct, Has-Lacks, Has-unique}
use proxy_part.Route.{ReceivedRecord}
use proxy_part.Route.{Edge, Vertex, N}

abbrev pub at_pointer : {A : Type 0} → Option ℕ → (ℕ → Option A) → Option A
at_pointer none m = none
at_pointer (some p) m = m p

abbrev pub label_of : Option Edge → Option (Time × Float)
label_of none = none
label_of (some edge) = some (edge.timestamp, edge.link_weight)

module _ (h : UtHash) where
  abbrev pub edge_of : Option (Vertex (h.Table)) → List ℕ → Option ℕ
  edge_of none key = none
  edge_of (some x) key = h.find x.nbrs key

  -- The pointer to the edge from the one tap address to the other.
  unfoldable pub edge_at : N h → (from to : List ℕ) → Option ℕ
  edge_at s from to = edge_of (at_pointer (h.find s.network from) s.vertices) to

  -- What the graph says of that edge.
  unfoldable pub edge_label : N h → (from to : List ℕ) → Option (Time × Float)
  unfolding edge_at
  edge_label s from to = label_of (at_pointer (edge_at s from to) s.edges)

  -- Every edge is allocated and stands in one place, no vertex is there under two addresses, and no
  -- two edges of a vertex lead to the same address.
  pub record IsGraph (s : N h) : Type 0 where
    pub once :
        (k j k' j' : List ℕ) (e : ℕ)
        → edge_at s k j ≡ some e
        → edge_at s k' j' ≡ some e
        → (k ≡ k') × (j ≡ j')
    pub live :
        (k j : List ℕ) (e : ℕ)
        → edge_at s k j ≡ some e
        → (e < s.next_edge) × (edge : Edge) × (s.edges e ≡ some edge)
    pub vertex_once :
        (k k' : List ℕ) (v : ℕ)
        → h.find s.network k ≡ some v
        → h.find s.network k' ≡ some v
        → k ≡ k'
    pub keys : (v : ℕ) (x : Vertex (h.Table)) → s.vertices v ≡ some x → Distinct (h.items x.nbrs)

  Has-split :
      (k j : List ℕ) (p q : ℕ) (items : List Item)
      → Has k q (items ++ (j, p) ∷ [])
      → Has k q items ⊎ ((k ≡ j) × (q ≡ p))
  Has-split k j p q [] (inl e) = inr e
  Has-split k j p q [] (inr e) = absurd e
  Has-split k j p q ((i, r) ∷ items) (inl e) = inl (inl e)
  Has-split k j p q ((i, r) ∷ items) (inr e) = elim (Has-split k j p q items e) [
    | inl old ↦ inl (inr old)
    | inr new ↦ inr new
  ]

  Has-front :
      (k : List ℕ) (q : ℕ) (items more : List Item) → Has k q items → Has k q (items ++ more)
  Has-front k q [] more e = absurd e
  Has-front k q ((i, r) ∷ items) more (inl e) = inl e
  Has-front k q ((i, r) ∷ items) more (inr e) = inr (Has-front k q items more e)

  Has-end : (k : List ℕ) (p : ℕ) (items : List Item) → Has k p (items ++ (k, p) ∷ [])
  Has-end k p [] = inl (refl, refl)
  Has-end k p (i ∷ items) = inr (Has-end k p items)

  -- The element that has been added is found.
  pub find-add :
      (t : h.Table) (k : List ℕ) (p : ℕ) → h.find t k ≡ none → h.find (h.add t k p) k ≡ some p
  find-add t k p absent = elim (Option-cases (h.find (h.add t k p) k)) [
    | inl gone ↦ absurd (
        Has-Lacks k p (h.items (h.add t k p))
          (subst (Has k p) (sym (h.items-add t k p)) (Has-end k p (h.items t)))
          (h.find_none (h.add t k p) k gone))
    | inr (q, found) ↦
        elim (Has-split k k p q (h.items t)
          (subst (Has k q) (h.items-add t k p) (h.find_some (h.add t k p) k q found))) [
            | inl old ↦ absurd (Has-Lacks k q (h.items t) old (h.find_none t k absent))
            | inr (e, same) ↦ found ∙ ap (λ x. some x) same
          ]
  ]

  -- The others are found as before.
  pub find-add_other :
      (t : h.Table) (k j : List ℕ) (p : ℕ)
      → Distinct (h.items t)
      → ¬ (j ≡ k)
      → h.find (h.add t k p) j ≡ h.find t j
  find-add_other t k j p d ne = elim (Option-cases (h.find (h.add t k p) j)) [
    | inl gone ↦ elim (Option-cases (h.find t j)) [
      | inl none_there ↦ gone ∙ sym none_there
      | inr (q, found) ↦ absurd (
          Has-Lacks j q (h.items (h.add t k p))
            (subst (Has j q) (sym (h.items-add t k p))
              (Has-front j q (h.items t) _ (h.find_some t j q found)))
            (h.find_none (h.add t k p) j gone))
    ]
    | inr (q, found) ↦
        elim (Has-split j k p q (h.items t)
          (subst (Has j q) (h.items-add t k p) (h.find_some (h.add t k p) j q found))) [
            | inr (e, same) ↦ absurd (ne e)
            | inl old ↦ elim (Option-cases (h.find t j)) [
              | inl none_there ↦ absurd (Has-Lacks j q (h.items t) old (h.find_none t j none_there))
              | inr (q', found') ↦
                  found
                  ∙ (ap (λ x. some x)
                        (Has-unique j q q' (h.items t) d old (h.find_some t j q' found'))
                      ∙ sym found')
            ]
          ]
  ]
