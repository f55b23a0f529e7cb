-- ===== src/Route/Search/Bfs.antt =====
-- bfs()
use proxy_part.Prelude.{ℕ, zero, suc, List, [], ◌∷◌, Option, none, some}
use proxy_part.UtHash.{UtHash, Item}
use proxy_part.Wire.{eth_alen}
use proxy_part.Proxy.{stuck, M, ◌>>=◌, ◌>>◌, pure, write_end}
use proxy_part.Route.{lift, deref_vertex, deref_edge}
use proxy_part.Route.Search.{Platform, S, on_net, find_own, dequeue, enqueue}
use proxy_part.Route.Search.Visit.{visit_first, visit_new, find_nbr, unless_visited}

module _ (h : UtHash) (c : Platform (h.Table)) where
  -- The iteration over the neighbours of one vertex.
  unfoldable pub bfs_nbrs :
      (q : Option ℕ) (v : ℕ) (visited : h.Table) (distance : ℕ) → List Item → M (S h) (h.Table × ℕ)
  unfolding find_nbr unless_visited visit_new
  bfs_nbrs q v visited distance [] = pure (visited, distance)
  bfs_nbrs q v visited distance ((k, e) ∷ items) =
      let rest = bfs_nbrs q v visited distance items in
      do
        edge ← on_net (deref_edge e)
        found ← find_nbr h c visited edge.node eth_alen
        unless_visited h c found (visit_new h c c.sizeof_graph q v edge.node visited distance) rest

  -- The loop over the queue, with as many rounds as the fuel. The functions that it calls have a copy
  -- of `q`.
  unfoldable pub bfs_loop :
      ℕ → (q : Option ℕ) (v : ℕ) (visited : h.Table) (distance : ℕ) → M (S h) h.Table
  unfolding dequeue bfs_nbrs
  bfs_loop zero q v visited distance = λ s. stuck
  bfs_loop (suc fuel) none v visited distance = pure visited
  bfs_loop (suc fuel) (some p) v visited distance = do
    node ← dequeue (some p)
    vertex ← on_net (deref_vertex node)
    (more, next) ← bfs_nbrs (some p) v visited distance (h.items vertex.nbrs)
    bfs_loop fuel (some p) v more next

  -- The own vertex is not in the graph, or is at `node`.
  unfoldable pub bfs_from : ℕ → Option ℕ → Option ℕ → M (S h) (Option h.Table)
  unfolding visit_first enqueue bfs_loop
  bfs_from fuel q none = pure none
  bfs_from fuel q (some node) = do
    (visited, v) ← visit_first h c q
    enqueue c q node
    all ← bfs_loop fuel q v visited 1
    on_net (lift write_end)
    pure (some all)

  -- `q` is what the pointer holds that is never set. The result `none` is NULL.
  unfoldable pub bfs : ℕ → Option ℕ → M (S h) (Option h.Table)
  unfolding find_own bfs_from
  bfs fuel q = do own ← find_own h; bfs_from fuel q own
