-- ===== src/Route/Steps.antt =====
-- One lemma for each call on the graph: what follows it, once it is known how it ends.
use proxy_part.Prelude.{ℕ, ◌≡◌, List, Option, some, true, false}
use proxy_part.UtHash.{UtHash}
use proxy_part.Proxy.{ret, deadlock, M, ◌>>=◌, update, write_begin, write_end}
use proxy_part.Proxy.Steps.{bind_ret, write_begin_free, write_end_held, write_begin_held}
use proxy_part.Route.{
  Edge, Vertex, Net, N, lift, deref_vertex, store_vertex, deref_edge, store_edge, find_vertex,
}

module _ {T A : Type 0} (s : Net T) where
  pub lock_step :
      (f : Unit {0} → M (Net T) A)
      → s.proxy.writing ≡ false
      → (lift write_begin >>= f) s ≡ f tt (record s { proxy = record (s.proxy) { writing = true } })
  unfolding lift
  lock_step f e = bind_ret (lift write_begin) f s (rw (write_begin_free s.proxy e, lift))

  pub deref_vertex_step :
      (p : ℕ) (v : Vertex T) (f : Vertex T → M (Net T) A)
      → s.vertices p ≡ some v
      → (deref_vertex p >>= f) s ≡ f v s
  unfolding deref_vertex
  deref_vertex_step p v f e = bind_ret (deref_vertex p) f s (rw (e, deref_vertex))

  pub store_vertex_step :
      (p : ℕ) (old new : Vertex T) (f : Unit {0} → M (Net T) A)
      → s.vertices p ≡ some old
      → (store_vertex p new >>= f) s ≡ f tt (record s { vertices = update s.vertices p (some new) })
  unfolding store_vertex
  store_vertex_step p old new f e = bind_ret (store_vertex p new) f s (rw (e, store_vertex))

  pub deref_edge_step :
      (p : ℕ) (x : Edge) (f : Edge → M (Net T) A)
      → s.edges p ≡ some x
      → (deref_edge p >>= f) s ≡ f x s
  unfolding deref_edge
  deref_edge_step p x f e = bind_ret (deref_edge p) f s (rw (e, deref_edge))

  pub store_edge_step :
      (p : ℕ) (old new : Edge) (f : Unit {0} → M (Net T) A)
      → s.edges p ≡ some old
      → (store_edge p new >>= f) s ≡ f tt (record s { edges = update s.edges p (some new) })
  unfolding store_edge
  store_edge_step p old new f e = bind_ret (store_edge p new) f s (rw (e, store_edge))

module _ {T : Type 0} (s : Net T) where
  pub unlock_last :
      s.proxy.writing ≡ true
      → lift write_end s ≡ ret tt (record s { proxy = record (s.proxy) { writing = false } })
  unfolding lift
  unlock_last e = rw (write_end_held s.proxy e, lift)

  pub lock_deadlock : s.proxy.writing ≡ true → lift write_begin s ≡ deadlock
  unfolding lift
  lock_deadlock e = rw (write_begin_held s.proxy e, lift)

module _ (h : UtHash) {A : Type 0} (s : N h) where
  pub find_vertex_step :
      (key : List ℕ) (o : Option ℕ) (f : Option ℕ → M (N h) A)
      → h.find s.network key ≡ o
      → (find_vertex h key >>= f) s ≡ f o s
  unfolding find_vertex
  find_vertex_step key o f e = bind_ret (find_vertex h key) f s (rw e)
