-- ===== src/Route/Times/Tests.antt =====
-- A record for a graph of two vertices and one edge.
use proxy_part.Prelude.{
  ℕ, ◌≡◌, ◌∙◌, refl, sym, subst, [], ◌∷◌, List, some, none, ◌==◌, if◌then◌else◌, arith, inl, inr,
  Bool-cases, ◌⊎◌, ℕ_discrete, pos,
}
use proxy_part.UtHash.Lists.{list_table}
use proxy_part.Wire.{same_bytes, htonl, of_int}
use proxy_part.Route.Order.{Sent}
use proxy_part.Wire.Bytes.{same_bytes_iff}
use proxy_part.Proxy.{ret}
use proxy_part.Proxy.Member.Lists.{Distinct}
use proxy_part.Proxy.Samples.{sample, host, mac, time}
use proxy_part.Route.{ReceivedRecord, Edge, Vertex, N, evaluate_record}
use proxy_part.Route.Times.{edge_at, IsGraph}
use proxy_part.Route.Times.Keys.{Updated}
use proxy_part.Route.Times.Updated.{evaluate_record-Updated}

abbrev first : Vertex (list_table.Table)
first = record { ls = host 1; nbrs = (mac 2, 4) ∷ [] }

abbrev second : Vertex (list_table.Table)
second = record { ls = host 2; nbrs = [] }

abbrev edge : Edge
edge = record { node = 8; timestamp = time 1; link_weight = of_int (pos 1) }

abbrev pair : N list_table
pair = record {
  proxy = sample;
  network = (mac 1, 7) ∷ (mac 2, 8) ∷ [];
  vertices = λ p. if p == 7 then some first else if p == 8 then some second else none;
  edges = λ p. if p == 4 then some edge else none;
  next_vertex = 20;
  next_edge = 30;
  raw_vertex = record { ls = host 55; nbrs = (mac 66, 77) ∷ [] };
  raw_edge = record { node = 99; timestamp = time 88; link_weight = of_int (pos 2) };
}

only_edge :
    (k j : List ℕ) (e : ℕ)
    → edge_at list_table pair k j ≡ some e
    → (k ≡ mac 1) × (j ≡ mac 2) × (e ≡ 4)
unfolding edge_at
only_edge k j e found = elim (Bool-cases (same_bytes k (mac 1))) [
  | inl a ↦ elim (Bool-cases (same_bytes j (mac 2))) [
    | inl b ↦ (
      (same_bytes_iff k (mac 1)).0 a,
      (same_bytes_iff j (mac 2)).0 b,
      let x = rw (a, b) at found in cc,
    )
    | inr b ↦ absurd (let x = rw (a, b) at found in cc)
  ]
  | inr a ↦ elim (Bool-cases (same_bytes k (mac 2))) [
    | inl b ↦ absurd (let x = rw (a, b) at found in cc)
    | inr b ↦ absurd (let x = rw (a, b) at found in cc)
  ]
]

only_vertex :
    (k : List ℕ) (v : ℕ)
    → list_table.find pair.network k ≡ some v
    → ((v ≡ 7) × (k ≡ mac 1)) ⊎ ((v ≡ 8) × (k ≡ mac 2))
only_vertex k v found = elim (Bool-cases (same_bytes k (mac 1))) [
  | inl a ↦ inl (let x = rw a at found in cc, (same_bytes_iff k (mac 1)).0 a)
  | inr a ↦ elim (Bool-cases (same_bytes k (mac 2))) [
    | inl b ↦ inr (let x = rw (a, b) at found in cc, (same_bytes_iff k (mac 2)).0 b)
    | inr b ↦ absurd (let x = rw (a, b) at found in cc)
  ]
]

same_vertex :
    (k k' : List ℕ) (v : ℕ)
    → ((v ≡ 7) × (k ≡ mac 1)) ⊎ ((v ≡ 8) × (k ≡ mac 2))
    → ((v ≡ 7) × (k' ≡ mac 1)) ⊎ ((v ≡ 8) × (k' ≡ mac 2))
    → k ≡ k'
same_vertex k k' v (inl (n, p)) (inl (n', p')) = p ∙ sym p'
same_vertex k k' v (inl (n, p)) (inr (n', p')) = absurd (omega arith)
same_vertex k k' v (inr (n, p)) (inl (n', p')) = absurd (omega arith)
same_vertex k k' v (inr (n, p)) (inr (n', p')) = p ∙ sym p'

one_neighbor :
    (v : ℕ) (x : Vertex (list_table.Table)) → pair.vertices v ≡ some x → Distinct (x.nbrs)
one_neighbor v x e = elim (ℕ_discrete v 7) [
  | yes a ↦
      let same : first ≡ x = ground arith in
      subst (λ (y : Vertex (list_table.Table)). Distinct (y.nbrs)) same (tt, tt)
  | no a ↦ elim (ℕ_discrete v 8) [
    | yes b ↦
        let same : second ≡ x = ground arith in
        subst (λ (y : Vertex (list_table.Table)). Distinct (y.nbrs)) same tt
    | no b ↦ absurd (ground arith)
  ]
]

pair-IsGraph : IsGraph list_table pair
pair-IsGraph = record {
  once = λ k j k' j' e a b.
      let (p, q, n) = only_edge k j e a in
      let (p', q', n') = only_edge k' j' e b in (p ∙ sym p', q ∙ sym q');
  live = λ k j e a. let (p, q, n) = only_edge k j e a in (omega arith, edge, ground arith);
  vertex_once = λ k k' v a b. same_vertex k k' v (only_vertex k v a) (only_vertex k' v b);
  keys = one_neighbor;
}

-- The edge back from the second host to the first.
abbrev back : ReceivedRecord
back = record {
  id = record { tv_sec = htonl 5; tv_nsec = htonl 0 };
  proxy1 = host 2;
  proxy2 = host 1;
  link_weight = of_int (pos 1);
}

back-Sent : Sent (time 5) back
back-Sent = record { fits = record { seconds = omega arith; nanoseconds = omega arith }; id = refl }

evaluate_record-Updated_example :
    (t : N list_table) × (evaluate_record list_table back pair ≡ ret tt t)
    × Updated list_table pair back (time 5) t
unfolding same_bytes
evaluate_record-Updated_example =
    evaluate_record-Updated list_table pair back (time 5) 8 7 second first pair-IsGraph back-Sent
      refl refl refl refl refl (λ e. cc)
