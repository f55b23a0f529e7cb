-- ===== src/Route/Search.antt =====
-- What the searches of route.c share: the memory of their queue and of their visited vertices,
-- enqueue() and dequeue(). No function of the program calls the searches. Each of them reads
-- local variables before they are set: such a value is an argument of the model.
pub mod Visit
pub mod Forward
pub mod Shortest
pub mod Bfs
pub mod Only
pub mod Ends
pub mod Found
pub mod Scans
pub mod Reached
mod Tests
use proxy_part.Prelude.{ℕ, suc, List, Option, none, some}
use proxy_part.UtHash.{UtHash}
use proxy_part.Proxy.{
  ret, exited, fault, deadlock, waiting, stuck, M, ◌>>=◌, ◌>>◌, pure, modify, update, write_begin,
  write_end,
}
use proxy_part.Route.{Net, Vertex, Edge, lift, deref_vertex, deref_edge, find_vertex}

-- `Queue`
pub record Queue : Type 0 where
  pub node : ℕ
  pub next : Option ℕ

-- `Visited`: `none` is NULL.
pub record Visited : Type 0 where
  pub node : Option ℕ
  pub prev : Option ℕ
  pub dist : ℕ

-- `ForwardingTable`, less its distance, which is never used.
pub record ForwardingTable : Type 0 where
  pub next_hop : ℕ
  pub dest : ℕ

-- The graph, with what malloc() has given out for each of the three, and what such memory holds.
pub record Search (Table : Type 0) : Type 0 where
  pub net : Net Table
  pub queue : ℕ → Option Queue
  pub visits : ℕ → Option Visited
  pub hops : ℕ → Option ForwardingTable
  pub next_queue : ℕ
  pub next_visit : ℕ
  pub next_hop : ℕ
  pub raw_queue : Queue
  pub raw_visit : Visited
  pub raw_hop : ForwardingTable

-- What the source leaves to the compiler and to utlist.h: the bytes of memory from a vertex on, and
-- from the field `node` of a visited one on, as many as are asked for; the size of a vertex;
-- LL_APPEND, the memory after it; and a HASH_FIND in a table of `Visited` for a pointer to `graph`,
-- which reads the fields of the one where the other has its own. For the last two, `none` is a fault.
pub record Platform (Table : Type 0) : Type 0 where
  pub vertex_bytes : Search Table → ℕ → ℕ → List ℕ
  pub visited_bytes : Search Table → ℕ → ℕ → List ℕ
  pub sizeof_graph : ℕ
  pub ll_append : (ℕ → Option Queue) → Option ℕ → ℕ → Option (ℕ → Option Queue)
  pub find_as_graph : Search Table → Table → ℕ → ℕ → Option (Option ℕ)

module _ {T : Type 0} where
  -- A call on the graph.
  unfoldable pub on_net : {A : Type 0} → M (Net T) A → M (Search T) A
  on_net m s = elim (m s.net) [
    | ret a t ↦ ret a (record s { net = t })
    | exited v t ↦ exited v (record s { net = t })
    | fault ↦ fault
    | deadlock ↦ deadlock
    | waiting ↦ waiting
    | stuck ↦ stuck
  ]

  -- A pointer that is used: NULL is a fault.
  unfoldable pub not_null : Option ℕ → M (Search T) ℕ
  not_null none s = fault
  not_null (some p) s = ret p s

  unfoldable pub deref_queue : ℕ → M (Search T) Queue
  deref_queue p s = elim (s.queue p) [ none ↦ fault | some q ↦ ret q s ]

  unfoldable pub deref_visited : ℕ → M (Search T) Visited
  deref_visited p s = elim (s.visits p) [ none ↦ fault | some v ↦ ret v s ]

  unfoldable pub store_visited : ℕ → Visited → M (Search T) (Unit {0})
  store_visited p v s = elim (s.visits p) [
    | none ↦ fault
    | some _ ↦ ret tt (record s { visits = update s.visits p (some v) })
  ]

  abbrev pub malloc_queue : M (Search T) ℕ
  malloc_queue s = ret s.next_queue (record s {
    queue = update s.queue s.next_queue (some s.raw_queue);
    next_queue = suc s.next_queue;
  })

  abbrev pub malloc_visited : M (Search T) ℕ
  malloc_visited s = ret s.next_visit (record s {
    visits = update s.visits s.next_visit (some s.raw_visit);
    next_visit = suc s.next_visit;
  })

  -- The first field of the element at `q`, for a pointer that may be NULL.
  unfoldable pub queue_node : Option ℕ → M (Search T) ℕ
  unfolding not_null deref_queue
  queue_node q = do p ← not_null q; cell ← deref_queue p; pure cell.node

  -- LL_DELETE moves the function's own copy of `q` on to the next element, and the result is the
  -- node of the first one.
  unfoldable pub dequeue : Option ℕ → M (Search T) ℕ
  unfolding queue_node
  dequeue q = queue_node q

  unfoldable pub appended : Option (ℕ → Option Queue) → M (Search T) (Unit {0})
  appended none s = fault
  appended (some cells) s = ret tt (record s { queue = cells })

module _ {T : Type 0} (c : Platform T) where
  -- LL_APPEND on an empty list sets the function's own copy of `q`.
  unfoldable pub enqueue : Option ℕ → ℕ → M (Search T) (Unit {0})
  unfolding appended deref_queue
  enqueue q peer = do
    p ← malloc_queue
    cell ← deref_queue p
    modify λ s. record s { queue = update s.queue p (some (record cell { node = peer })) }
    λ s. appended (c.ll_append s.queue q p) s

  -- The key under which HASH_FIND looks a vertex up: so many bytes from the vertex on.
  unfoldable pub key_of : ℕ → ℕ → M (Search T) (List ℕ)
  key_of size node = do vertex ← on_net (deref_vertex node); λ s. ret (c.vertex_bytes s node size) s

module _ (h : UtHash) where
  abbrev pub S : Type 0
  S = Search h.Table

  -- `writeBegin()`, and the search of the graph for the own vertex.
  unfoldable pub find_own : M S (Option ℕ)
  find_own = do
    on_net (lift write_begin)
    λ s. ret (h.find s.net.network s.net.proxy.link_state.tap_mac) s

module _ (h : UtHash) (c : Platform (h.Table)) where
  -- HASH_ADD(hh, visited, node, size, v)
  unfoldable pub add_visited : h.Table → ℕ → ℕ → M (S h) h.Table
  unfolding deref_visited
  add_visited visited size v = do
    entry ← deref_visited v
    λ s. ret (h.add visited (c.visited_bytes s v size) v) s
