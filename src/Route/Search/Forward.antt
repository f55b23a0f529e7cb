-- ===== src/Route/Search/Forward.antt =====
-- prepare_forwarding_table()
use proxy_part.Prelude.{ℕ, zero, suc, Option, none, some}
use proxy_part.UtHash.{UtHash}
use proxy_part.Proxy.{ret, fault, stuck, M, ◌>>=◌, ◌>>◌, pure, update}
use proxy_part.Route.{deref_vertex}
use proxy_part.Route.Search.{
  Search, ForwardingTable, Platform, S, on_net, not_null, deref_visited, key_of,
}

module _ {T : Type 0} where
  unfoldable pub deref_hop : ℕ → M (Search T) ForwardingTable
  deref_hop p s = elim (s.hops p) [ none ↦ fault | some f ↦ ret f s ]

  unfoldable pub store_hop : ℕ → ForwardingTable → M (Search T) (Unit {0})
  store_hop p f s = elim (s.hops p) [
    | none ↦ fault
    | some _ ↦ ret tt (record s { hops = update s.hops p (some f) })
  ]

  abbrev pub malloc_hop : M (Search T) ℕ
  malloc_hop s =
      ret s.next_hop
        (record s { hops = update s.hops s.next_hop (some s.raw_hop); next_hop = suc s.next_hop })

  -- A pointer that is not set may point to no table.
  unfoldable pub known_table : Option T → M (Search T) T
  known_table none s = fault
  known_table (some t) s = ret t s

module _ (h : UtHash) (c : Platform (h.Table)) where
  -- `tmpFT` at `f` becomes the entry for the peer at `p`, and goes into the table.
  unfoldable pub set_hop : (f p destination : ℕ) → Option h.Table → M (S h) h.Table
  unfolding deref_hop store_hop known_table
  set_hop f p destination table = do
    store_hop f (record { next_hop = p; dest = destination })
    entry ← deref_hop f
    vertex ← on_net (deref_vertex entry.dest)
    old ← known_table table
    pure (h.add old vertex.ls.tap_mac f)

  -- One round, for the visited vertex `node`: the table after it, or nothing if there is no peer.
  unfoldable pub hop_round :
      (f destination : ℕ) (table : Option h.Table) (node : Option ℕ) → M (S h) (Option h.Table)
  unfolding not_null set_hop
  hop_round f destination table node = do
    at_node ← not_null node
    vertex ← on_net (deref_vertex at_node)
    found ← λ s. ret (h.find s.net.proxy.hash_table vertex.ls.tap_mac) s
    elim found [
      | none ↦ pure none
      | some p ↦ do more ← set_hop f p destination table; pure (some more)
    ]

  -- The loop, with as many rounds as the fuel, from the visited vertex that `v` points to.
  unfoldable pub hop_loop :
      ℕ → (visited : h.Table) (f destination : ℕ) → Option h.Table → Option ℕ → M (S h) (Unit {0})
  unfolding not_null deref_visited key_of hop_round
  hop_loop zero visited f destination table v = λ s. stuck
  hop_loop (suc fuel) visited f destination table v = do
    at_v ← not_null v
    entry ← deref_visited at_v
    elim (entry.prev) [
      | none ↦ pure tt
      | some prev ↦ do
        done ← hop_round f destination table entry.node
        elim done [
          | none ↦ pure tt
          | some more ↦ do
            key ← key_of c c.sizeof_graph prev
            hop_loop fuel visited f destination (some more) (h.find visited key)
        ]
    ]

  -- `table` is what the pointer holds that is never set: `some h.empty` is NULL.
  unfoldable pub prepare_forwarding_table :
      ℕ → Option h.Table → (visited : h.Table) (curr previous destination : ℕ) → M (S h) (Unit {0})
  unfolding key_of hop_loop
  prepare_forwarding_table fuel table visited curr previous destination = do
    f ← malloc_hop
    key ← key_of c c.sizeof_graph previous
    elim (h.find visited key) [
      | none ↦ pure tt
      | some v ↦ hop_loop fuel visited f destination table (some v)
    ]
