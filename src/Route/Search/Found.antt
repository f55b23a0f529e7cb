-- ===== src/Route/Search/Found.antt =====
-- prepare_forwarding_table() leaves the graph as it is.
use proxy_part.Prelude.{ℕ, zero, suc, refl, arith, Option, none, some}
use proxy_part.UtHash.{UtHash}
use proxy_part.Route.{deref_vertex}
use proxy_part.Route.Search.{Platform, on_net, not_null, deref_visited, key_of, ForwardingTable}
use proxy_part.Route.Search.Forward.{
  deref_hop, store_hop, malloc_hop, known_table, set_hop, hop_round, hop_loop,
  prepare_forwarding_table,
}
use proxy_part.Route.Search.Only.{
  Keeps, Keeps-bind, Keeps-pure, Keeps-ret, Keeps-not_null, Keeps-option, Keeps-deref_vertex,
  Keeps-deref_visited, Keeps-key_of,
}

module _ {T : Type 0} where
  Keeps-deref_hop : (p : ℕ) → Keeps (deref_hop {T = T} p)
  unfolding deref_hop
  Keeps-deref_hop p s u b e = ground arith

  Keeps-store_hop : (p : ℕ) (f : ForwardingTable) → Keeps (store_hop {T = T} p f)
  unfolding store_hop
  Keeps-store_hop p f s u b e = ground arith

  Keeps-known_table : (o : Option T) → Keeps (known_table o)
  unfolding known_table
  Keeps-known_table none s u b e = absurd (cc)
  Keeps-known_table (some t) s u b e = Keeps-pure t s u b e

module _ (h : UtHash) (c : Platform (h.Table)) where
  Keeps-set_hop :
      (f p destination : ℕ) (table : Option h.Table) → Keeps (set_hop h c f p destination table)
  unfolding set_hop
  Keeps-set_hop f p destination table = Keeps-bind (store_hop f _) _ (Keeps-store_hop f _) λ _.
      Keeps-bind (deref_hop f) _ (Keeps-deref_hop f) λ entry.
        Keeps-bind (on_net (deref_vertex entry.dest)) _ (Keeps-deref_vertex entry.dest)
          λ vertex. Keeps-bind (known_table table) _ (Keeps-known_table table) λ old. Keeps-pure _

  Keeps-hop_round :
      (f destination : ℕ) (table : Option h.Table) (node : Option ℕ)
      → Keeps (hop_round h c f destination table node)
  unfolding hop_round
  Keeps-hop_round f destination table node =
      Keeps-bind (not_null node) _ (Keeps-not_null node) λ at_node.
        Keeps-bind (on_net (deref_vertex at_node)) _ (Keeps-deref_vertex at_node) λ vertex.
          Keeps-bind {A = Option ℕ} _ _ (Keeps-ret _ (λ s. s) λ s. refl) λ found.
            Keeps-option found _ _ (Keeps-pure none) λ p.
              Keeps-bind (set_hop h c f p destination table) _ (Keeps-set_hop f p destination table)
                λ more. Keeps-pure (some more)

  Keeps-hop_loop :
      (fuel : ℕ) (visited : h.Table) (f destination : ℕ) (table : Option h.Table) (v : Option ℕ)
      → Keeps (hop_loop h c fuel visited f destination table v)
  unfolding hop_loop
  Keeps-hop_loop zero visited f destination table v = λ s u b e. absurd (cc)
  Keeps-hop_loop (suc fuel) visited f destination table v =
      Keeps-bind (not_null v) _ (Keeps-not_null v) λ at_v.
        Keeps-bind (deref_visited at_v) _ (Keeps-deref_visited at_v) λ entry.
          Keeps-option entry.prev _ _ (Keeps-pure tt) λ prev.
            Keeps-bind (hop_round h c f destination table entry.node) _ (Keeps-hop_round _ _ _ _)
              λ done. Keeps-option done _ _ (Keeps-pure tt) λ more.
                Keeps-bind (key_of c c.sizeof_graph prev) _ (Keeps-key_of c _ _)
                  λ key. Keeps-hop_loop fuel visited f destination (some more) (h.find visited key)

  pub Keeps-prepare_forwarding_table :
      (fuel : ℕ) (table : Option h.Table) (visited : h.Table) (curr previous destination : ℕ)
      → Keeps (prepare_forwarding_table h c fuel table visited curr previous destination)
  unfolding prepare_forwarding_table
  Keeps-prepare_forwarding_table fuel table visited curr previous destination =
      Keeps-bind malloc_hop _ (Keeps-ret _ _ λ s. refl) λ f.
        Keeps-bind (key_of c c.sizeof_graph previous) _ (Keeps-key_of c _ _) λ key.
          Keeps-option (h.find visited key) _ _ (Keeps-pure tt)
            λ v. Keeps-hop_loop fuel visited f destination table (some v)
