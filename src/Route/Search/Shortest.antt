-- ===== src/Route/Search/Shortest.antt =====
-- shortest_path()
use proxy_part.Prelude.{ℕ, zero, suc, ◌==◌, if◌then◌else◌, List, [], ◌∷◌, Option, none, some}
use proxy_part.UtHash.{UtHash, Item}
use proxy_part.Wire.{eth_alen}
use proxy_part.Proxy.{stuck, M, ◌>>=◌, ◌>>◌, pure, write_end}
use proxy_part.Route.{lift, deref_vertex, deref_edge}
use proxy_part.Route.Search.{Platform, S, on_net, find_own, dequeue, enqueue}
use proxy_part.Route.Search.Visit.{visit_first, visit_new, find_nbr, unless_visited}
use proxy_part.Route.Search.Forward.{prepare_forwarding_table}

module _ (h : UtHash) (c : Platform (h.Table)) (table : Option (h.Table)) (dest : ℕ) where
  -- The neighbour is the destination: the function returns.
  unfoldable pub arrive : ℕ → (visited : h.Table) (from nbr : ℕ) → M (S h) (Option (h.Table × ℕ))
  unfolding prepare_forwarding_table
  arrive fuel visited from nbr = do
    prepare_forwarding_table h c fuel table visited nbr from dest
    on_net (lift write_end)
    pure none

  unfoldable pub visit_other :
      (q : Option ℕ) (v nbr : ℕ) (visited : h.Table) (distance : ℕ) → M (S h) (Option (h.Table × ℕ))
  unfolding visit_new
  visit_other q v nbr visited distance = do
    scan ← visit_new h c eth_alen q v nbr visited distance
    pure (some scan)

  unfoldable pub look_up :
      (q : Option ℕ) (v nbr : ℕ) (visited : h.Table) (distance : ℕ)
      → (rest : M (S h) (Option (h.Table × ℕ))) → M (S h) (Option (h.Table × ℕ))
  unfolding find_nbr unless_visited visit_other
  look_up q v nbr visited distance rest = do
    found ← find_nbr h c visited nbr c.sizeof_graph
    unless_visited h c found (visit_other q v nbr visited distance) rest

  unfoldable pub unless_dest : {A : Type 0} → ℕ → M (S h) A → M (S h) A → M (S h) A
  unless_dest nbr here other = if nbr == dest then here else other

  -- The iteration over the neighbours of the vertex `from`; `none` is the return of the function.
  unfoldable pub path_nbrs :
      ℕ
      → (q : Option ℕ) (v from : ℕ) (visited : h.Table) (distance : ℕ) → List Item
      → M (S h) (Option (h.Table × ℕ))
  unfolding arrive look_up unless_dest
  path_nbrs fuel q v from visited distance [] = pure (some (visited, distance))
  path_nbrs fuel q v from visited distance ((k, e) ∷ items) =
      let rest = path_nbrs fuel q v from visited distance items in
      do
        edge ← on_net (deref_edge e)
        unless_dest edge.node (arrive fuel visited from edge.node)
            (look_up q v edge.node visited distance rest)

  unfoldable pub unless_returned :
      (h.Table → ℕ → M (S h) (Unit {0})) → Option (h.Table × ℕ) → M (S h) (Unit {0})
  unless_returned next_round none = pure tt
  unless_returned next_round (some (visited, distance)) = next_round visited distance

  -- The loop over the queue, with as many rounds as the fuel. The functions that it calls have a copy
  -- of `q`.
  unfoldable pub path_loop :
      ℕ → (q : Option ℕ) (v : ℕ) (visited : h.Table) (distance : ℕ) → M (S h) (Unit {0})
  unfolding dequeue path_nbrs unless_returned
  path_loop zero q v visited distance = λ s. stuck
  path_loop (suc fuel) none v visited distance = on_net (lift write_end)
  path_loop (suc fuel) (some p) v visited distance = do
    node ← dequeue (some p)
    vertex ← on_net (deref_vertex node)
    scan ← path_nbrs fuel (some p) v node visited distance (h.items vertex.nbrs)
    unless_returned (path_loop fuel (some p) v) scan

  -- The own vertex is not in the graph, or is at `node`.
  unfoldable pub path_from : ℕ → Option ℕ → Option ℕ → M (S h) (Unit {0})
  unfolding enqueue visit_first path_loop
  path_from fuel q none = pure tt
  path_from fuel q (some node) = do
    enqueue c q node
    (visited, v) ← visit_first h c q
    path_loop fuel q v visited 1

  -- `q` is what the pointer holds that is never set.
  unfoldable pub shortest_path : ℕ → Option ℕ → M (S h) (Unit {0})
  unfolding find_own path_from
  shortest_path fuel q = do own ← find_own h; path_from fuel q own
