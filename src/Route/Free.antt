-- ===== src/Route/Free.antt =====
-- graph_free(), which no function of the program calls.
pub mod Freed
use proxy_part.Prelude.{ℕ, List, [], ◌∷◌, none, some}
use proxy_part.UtHash.{UtHash, Item}
use proxy_part.Proxy.{ret, fault, M, ◌>>◌, ◌>>=◌, pure, update, each}
use proxy_part.Route.{Net, N, deref_vertex, store_vertex}

-- free() of an address that is free already is a fault.
module _ {T : Type 0} where
  unfoldable pub free_edge : ℕ → M (Net T) (Unit {0})
  free_edge p s = elim (s.edges p) [
    | none ↦ fault
    | some _ ↦ ret tt (record s { edges = update s.edges p none })
  ]

  unfoldable pub free_vertex : ℕ → M (Net T) (Unit {0})
  free_vertex p s = elim (s.vertices p) [
    | none ↦ fault
    | some _ ↦ ret tt (record s { vertices = update s.vertices p none })
  ]

module _ (h : UtHash) where
  -- The body of the inner loop.
  unfoldable pub free_nbr : ℕ → ℕ → M (N h) (Unit {0})
  unfolding free_edge
  free_nbr v e = do
    vertex ← deref_vertex v
    store_vertex v (record vertex { nbrs = h.del vertex.nbrs e })
    free_edge e

  -- The body of the outer loop, less HASH_DEL(g, v).
  unfoldable pub free_with_edges : ℕ → M (N h) (Unit {0})
  unfolding free_nbr free_vertex
  free_with_edges v = do
    vertex ← deref_vertex v
    each (free_nbr v) (h.items vertex.nbrs)
    free_vertex v

  -- The outer loop. `g` is a copy of the caller's pointer, which the deletions do not change.
  unfoldable pub free_vertices : h.Table → List Item → M (N h) (Unit {0})
  unfolding free_with_edges
  free_vertices g [] = pure tt
  free_vertices g ((k, v) ∷ items) =
      let rest = free_vertices (h.del g v) items in free_with_edges v >> rest

  unfoldable pub graph_free : h.Table → M (N h) (Unit {0})
  unfolding free_vertices
  graph_free g = free_vertices g (h.items g)
