-- ===== src/Route.antt =====
-- The graph of route.c: evaluate_record() and remove_from_network().
pub mod Steps
pub mod Order
pub mod Known
pub mod Unknown
pub mod Extended
pub mod Times
pub mod Free
pub mod Search
pub mod Dijkstra
mod Tests
use proxy_part.Prelude.{ℕ, suc, ◌==◌, if◌then◌else◌, List, [], ◌∷◌, Option, none, some, Bool}
use proxy_part.Wire.{LinkState, Time, Float, of_net, htonl}
use proxy_part.UtHash.{UtHash, Item, listed}
use proxy_part.Proxy.{
  Proxy, Run, ret, exited, fault, deadlock, waiting, stuck, M, ◌>>=◌, ◌>>◌, pure, modify, update,
  each, write_begin, write_end,
}

-- `link_state_record`, as it is in a packet: the time in network order.
pub record ReceivedRecord : Type 0 where
  pub id : Time
  pub proxy1 : LinkState
  pub proxy2 : LinkState
  pub link_weight : Float

-- ntohl() of both fields.
abbrev pub host_time : Time → Time
host_time id = record { tv_sec = htonl id.tv_sec; tv_nsec = htonl id.tv_nsec }

-- `edge`
pub record Edge : Type 0 where
  pub node : ℕ
  pub timestamp : Time
  pub link_weight : Float

-- `graph`
pub record Vertex (Table : Type 0) : Type 0 where
  pub ls : LinkState
  pub nbrs : Table

-- The graph beside the rest of the state. `vertices` and `edges` hold what malloc() has given out
-- for either, `raw_vertex` and `raw_edge` what such memory holds at first. It never returns NULL
-- here.
pub record Net (Table : Type 0) : Type 0 where
  pub proxy : Proxy Table
  pub network : Table
  pub vertices : ℕ → Option (Vertex Table)
  pub edges : ℕ → Option Edge
  pub next_vertex : ℕ
  pub next_edge : ℕ
  pub raw_vertex : Vertex Table
  pub raw_edge : Edge

module _ {T : Type 0} where
  -- A call on the rest of the state.
  unfoldable pub lift : {A : Type 0} → M (Proxy T) A → M (Net T) A
  lift m s = elim (m s.proxy) [
    | ret a t ↦ ret a (record s { proxy = t })
    | exited v t ↦ exited v (record s { proxy = t })
    | fault ↦ fault
    | deadlock ↦ deadlock
    | waiting ↦ waiting
    | stuck ↦ stuck
  ]

  unfoldable pub deref_vertex : ℕ → M (Net T) (Vertex T)
  deref_vertex p s = elim (s.vertices p) [ none ↦ fault | some v ↦ ret v s ]

  unfoldable pub store_vertex : ℕ → Vertex T → M (Net T) (Unit {0})
  store_vertex p v s = elim (s.vertices p) [
    | none ↦ fault
    | some _ ↦ ret tt (record s { vertices = update s.vertices p (some v) })
  ]

  unfoldable pub deref_edge : ℕ → M (Net T) Edge
  deref_edge p s = elim (s.edges p) [ none ↦ fault | some e ↦ ret e s ]

  unfoldable pub store_edge : ℕ → Edge → M (Net T) (Unit {0})
  store_edge p e s = elim (s.edges p) [
    | none ↦ fault
    | some _ ↦ ret tt (record s { edges = update s.edges p (some e) })
  ]

  abbrev pub malloc_vertex : M (Net T) ℕ
  malloc_vertex s = ret s.next_vertex (record s {
    vertices = update s.vertices s.next_vertex (some s.raw_vertex);
    next_vertex = suc s.next_vertex;
  })

  abbrev pub malloc_edge : M (Net T) ℕ
  malloc_edge s = ret s.next_edge (record s {
    edges = update s.edges s.next_edge (some s.raw_edge);
    next_edge = suc s.next_edge;
  })

  -- The second vertex, or memory for it.
  unfoldable pub vertex_or_new : Option ℕ → M (Net T) ℕ
  vertex_or_new none = malloc_vertex
  vertex_or_new (some p) = pure p

module _ (h : UtHash) where
  abbrev pub N : Type 0
  N = Net h.Table

  unfoldable pub find_vertex : List ℕ → M N (Option ℕ)
  find_vertex key s = ret (h.find s.network key) s

  -- The new edge at `e` leads from the new vertex at `v` to the one at `node`.
  unfoldable pub link_new : ReceivedRecord → ℕ → ℕ → ℕ → M N ℕ
  link_new r v e node = do
    edge ← deref_edge e
    store_edge e (record edge { node = node })
    store_vertex node (record { ls = r.proxy2; nbrs = h.empty })
    modify λ s. record s { network = h.add s.network r.proxy1.tap_mac v }
    vertex ← deref_vertex v
    store_vertex v (record vertex { nbrs = h.add vertex.nbrs r.proxy2.tap_mac e })
    pure e

  -- The first vertex is not in the graph.
  unfoldable pub edge_from_new : ReceivedRecord → M N ℕ
  unfolding vertex_or_new link_new
  edge_from_new r = do
    v ← malloc_vertex
    e ← malloc_edge
    store_vertex v (record { ls = r.proxy1; nbrs = h.empty })
    found ← find_vertex r.proxy2.tap_mac
    node ← vertex_or_new found
    link_new r v e node

  -- The first vertex is at `v`, and has no edge to the second.
  unfoldable pub new_edge : ReceivedRecord → ℕ → M N ℕ
  unfolding vertex_or_new
  new_edge r v = do
    e ← malloc_edge
    found ← find_vertex r.proxy2.tap_mac
    node ← vertex_or_new found
    edge ← deref_edge e
    store_edge e (record edge { node = node })
    old ← deref_vertex node
    store_vertex node (record old { ls = r.proxy2 })
    vertex ← deref_vertex v
    store_vertex v (record vertex { nbrs = h.add vertex.nbrs r.proxy2.tap_mac e })
    pure e

  unfoldable pub edge_or_new : ReceivedRecord → ℕ → Option ℕ → M N ℕ
  unfolding new_edge
  edge_or_new r v none = new_edge r v
  edge_or_new r v (some e) = pure e

  unfoldable pub edge_from : ReceivedRecord → Option ℕ → M N ℕ
  unfolding edge_from_new edge_or_new
  edge_from r none = edge_from_new r
  edge_from r (some v) = do
    vertex ← deref_vertex v
    edge_or_new r v (h.find vertex.nbrs r.proxy2.tap_mac)

  unfoldable pub evaluate_record : ReceivedRecord → M N (Unit {0})
  unfolding edge_from htonl
  evaluate_record r = do
    lift write_begin
    found ← find_vertex r.proxy1.tap_mac
    e ← edge_from r found
    edge ← deref_edge e
    store_edge e (record edge { timestamp = host_time r.id; link_weight = of_net r.link_weight })
    lift write_end

  -- Whether the vertex is found or not, the function returns: its `return` is not under the `if`.
  unfoldable pub unless_found : Option ℕ → M N (Unit {0})
  unless_found none = lift write_end
  unless_found (some node) = pure tt

  unfoldable pub remove_from_network : ℕ → M N (Unit {0})
  unfolding unless_found
  remove_from_network pp = do
    lift write_begin
    vertex ← deref_vertex pp
    found ← find_vertex vertex.ls.tap_mac
    unless_found found
