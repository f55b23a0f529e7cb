-- ===== src/Route/Search/Visit.antt =====
-- The steps that shortest_path() and bfs() have in common.
use proxy_part.Prelude.{ℕ, suc, Option, none, some}
use proxy_part.UtHash.{UtHash}
use proxy_part.Proxy.{ret, fault, M, ◌>>=◌, ◌>>◌, pure, each}
use proxy_part.Route.{deref_vertex, deref_edge}
use proxy_part.Route.Search.{
  Platform, S, on_net, not_null, queue_node, deref_visited, store_visited, malloc_visited, enqueue,
  add_visited,
}

module _ (h : UtHash) (c : Platform (h.Table)) where
  -- The first visited vertex is the one at the front of `q`.
  unfoldable pub visit_first : Option ℕ → M (S h) (h.Table × ℕ)
  unfolding queue_node store_visited add_visited
  visit_first q = do
    v ← malloc_visited
    front ← queue_node q
    store_visited v (record { node = some front; prev = none; dist = 0 })
    visited ← add_visited h c h.empty c.sizeof_graph v
    pure (visited, v)

  unfoldable pub enqueue_nbr : Option ℕ → ℕ → M (S h) (Unit {0})
  unfolding enqueue
  enqueue_nbr q e = do edge ← on_net (deref_edge e); enqueue c q edge.node

  -- The neighbour `nbr` has not been found, so `node` is NULL. The inner iteration uses the variables
  -- of the outer one, which ends with it.
  unfoldable pub visit_new :
      (size : ℕ) (q : Option ℕ) (v nbr : ℕ) (visited : h.Table) (distance : ℕ)
      → M (S h) (h.Table × ℕ)
  unfolding store_visited add_visited deref_visited not_null enqueue_nbr
  visit_new size q v nbr visited distance = do
    store_visited v (record { node = none; prev = some nbr; dist = distance })
    more ← add_visited h c visited size v
    entry ← deref_visited v
    node ← not_null entry.node
    vertex ← on_net (deref_vertex node)
    each (enqueue_nbr q) (h.items vertex.nbrs)
    pure (more, suc distance)

  -- The search for a neighbour among the visited ones, which faults if its memory is not there.
  unfoldable pub find_nbr : h.Table → ℕ → ℕ → M (S h) (Option ℕ)
  find_nbr visited nbr size = do
    vertex ← on_net (deref_vertex nbr)
    λ s. elim (c.find_as_graph s visited nbr size) [ none ↦ fault | some found ↦ ret found s ]

  unfoldable pub unless_visited : {A : Type 0} → Option ℕ → M (S h) A → M (S h) A → M (S h) A
  unless_visited none new rest = new
  unless_visited (some node) new rest = rest
