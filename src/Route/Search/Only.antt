-- ===== src/Route/Search/Only.antt =====
-- Searches that have returned: the calls that leave the graph as it is.
use proxy_part.Prelude.{ℕ, ◌≡◌, ◌∙◌, refl, sym, ap, List, [], ◌∷◌, Option, none, some, arith}
use proxy_part.UtHash.{UtHash, Item}
use proxy_part.Proxy.{Run, ret, exited, fault, deadlock, waiting, stuck, M, ◌>>=◌, pure, each}
use proxy_part.Route.{Vertex, Edge, deref_vertex, deref_edge}
use proxy_part.Route.Search.{
  Search, Platform, Queue, Visited, on_net, not_null, deref_queue, queue_node, dequeue,
  deref_visited, store_visited, malloc_visited, malloc_queue, appended, enqueue, key_of,
  add_visited,
}
use proxy_part.Route.Search.Visit.{visit_first, visit_new, enqueue_nbr, find_nbr}

pub bind_returns :
    {S A B : Type 0} (m : M S A) (f : A → M S B) (s : S) {b : B} {u : S}
    → (m >>= f) s ≡ ret b u
    → (a : A) × (t : S) × (m s ≡ ret a t) × (f a t ≡ ret b u)
bind_returns {S} {A} {B} m f s {b} {u} e = go (m s) refl
  where
    go : (r : Run S A) → m s ≡ r → (a : A) × (t : S) × (m s ≡ ret a t) × (f a t ≡ ret b u)
    go (ret a t) h = (a, t, h, rw (h, ◌>>=◌) at e)
    go (exited v t) h = absurd (let x = rw (h, ◌>>=◌) at e in cc)
    go fault h = absurd (let x = rw (h, ◌>>=◌) at e in cc)
    go deadlock h = absurd (let x = rw (h, ◌>>=◌) at e in cc)
    go waiting h = absurd (let x = rw (h, ◌>>=◌) at e in cc)
    go stuck h = absurd (let x = rw (h, ◌>>=◌) at e in cc)

pub ret_inj : {S A : Type 0} {a b : A} {s t : S} → ret a s ≡ ret b t → (a ≡ b) × (s ≡ t)
ret_inj e = (cc, cc)

module _ {T : Type 0} where
  -- If the call returns, the graph is as before.
  abbrev pub Keeps : {A : Type 0} → M (Search T) A → Type 0
  Keeps {A} m = (s u : Search T) (a : A) → m s ≡ ret a u → u.net ≡ s.net

  pub Keeps-bind :
      {A B : Type 0} (m : M (Search T) A) (f : A → M (Search T) B)
      → Keeps m
      → ((a : A) → Keeps (f a))
      → Keeps (m >>= f)
  Keeps-bind m f k l s u b e =
      let (a, t, first, rest) = bind_returns m f s e in l a t u b rest ∙ k s t a first

  pub Keeps-pure : {A : Type 0} (a : A) → Keeps (pure a)
  Keeps-pure a s u b e = sym (ap (λ x. x.net) (ret_inj e).1)

  pub Keeps-not_null : (o : Option ℕ) → Keeps (not_null o)
  unfolding not_null
  Keeps-not_null none s u b e = absurd (cc)
  Keeps-not_null (some p) s u b e = sym (ap (λ x. x.net) (ret_inj e).1)

  Keeps-deref_queue : (p : ℕ) → Keeps (deref_queue p)
  unfolding deref_queue
  Keeps-deref_queue p s u b e = ground arith

  pub Keeps-deref_visited : (p : ℕ) → Keeps (deref_visited p)
  unfolding deref_visited
  Keeps-deref_visited p s u b e = ground arith

  pub Keeps-option :
      {A B : Type 0} (o : Option B) (x : M (Search T) A) (f : B → M (Search T) A)
      → Keeps x
      → ((b : B) → Keeps (f b))
      → Keeps (elim o [ none ↦ x | some b ↦ f b ])
  Keeps-option none x f k l = k
  Keeps-option (some b) x f k l = l b

  Keeps-store_visited : (p : ℕ) (v : Visited) → Keeps (store_visited p v)
  unfolding store_visited
  Keeps-store_visited p v s u b e = ground arith

  Keeps-appended : (o : Option (ℕ → Option Queue)) → Keeps (appended o)
  unfolding appended
  Keeps-appended none s u b e = absurd (cc)
  Keeps-appended (some cells) s u b e = sym (ap (λ x. x.net) (ret_inj e).1)

  -- What a vertex or an edge is found to be.
  pub deref_vertex_returns :
      (n : ℕ) (s u : Search T) (x : Vertex T)
      → on_net (deref_vertex n) s ≡ ret x u
      → (s.net.vertices n ≡ some x) × (u ≡ s)
  unfolding on_net deref_vertex
  deref_vertex_returns n s u x e = ground arith

  pub deref_edge_returns :
      (n : ℕ) (s u : Search T) (x : Edge)
      → on_net (deref_edge n) s ≡ ret x u
      → (s.net.edges n ≡ some x) × (u ≡ s)
  unfolding on_net deref_edge
  deref_edge_returns n s u x e = ground arith

  pub Keeps-deref_vertex : (n : ℕ) → Keeps (on_net {T = T} (deref_vertex n))
  Keeps-deref_vertex n s u x e = ap (λ t. t.net) (deref_vertex_returns n s u x e).1

  Keeps-deref_edge : (n : ℕ) → Keeps (on_net {T = T} (deref_edge n))
  Keeps-deref_edge n s u x e = ap (λ t. t.net) (deref_edge_returns n s u x e).1

  -- A call that always returns.
  pub Keeps-ret :
      {A : Type 0} (k : Search T → A) (w : Search T → Search T)
      → ((s : Search T) → (w s).net ≡ s.net)
      → Keeps (λ s. ret (k s) (w s))
  Keeps-ret k w same s u b e = ap (λ x. x.net) (sym (ret_inj e).1) ∙ same s

  Keeps-queue_node : (q : Option ℕ) → Keeps (queue_node {T = T} q)
  unfolding queue_node
  Keeps-queue_node q =
      Keeps-bind (not_null q) _ (Keeps-not_null q)
        λ p. Keeps-bind (deref_queue p) _ (Keeps-deref_queue p) λ cell. Keeps-pure _

  pub Keeps-dequeue : (q : Option ℕ) → Keeps (dequeue {T = T} q)
  unfolding dequeue
  Keeps-dequeue q = Keeps-queue_node q

  pub Keeps-each :
      (body : ℕ → M (Search T) (Unit {0})) (is : List Item)
      → ((p : ℕ) → Keeps (body p))
      → Keeps (each body is)
  Keeps-each body [] k = Keeps-pure _
  Keeps-each body ((j, p) ∷ is) k =
      Keeps-bind (body p) (λ _. each body is) (k p) λ _. Keeps-each body is k

module _ {T : Type 0} (c : Platform T) where
  pub Keeps-enqueue : (q : Option ℕ) (peer : ℕ) → Keeps (enqueue c q peer)
  unfolding enqueue
  Keeps-enqueue q peer = Keeps-bind malloc_queue _ (Keeps-ret _ _ λ s. refl) λ p.
      Keeps-bind (deref_queue p) _ (Keeps-deref_queue p) λ cell.
        Keeps-bind {A = Unit {0}} _ (λ _ s. appended (c.ll_append s.queue q p) s)
          (Keeps-ret (λ _. tt) _ λ s. refl)
          λ _ s u b e. Keeps-appended (c.ll_append s.queue q p) s u b e

  pub Keeps-key_of : (size node : ℕ) → Keeps (key_of c size node)
  unfolding key_of
  Keeps-key_of size node =
      Keeps-bind (on_net (deref_vertex node)) _ (Keeps-deref_vertex node)
        λ vertex. Keeps-ret _ _ λ s. refl

module _ (h : UtHash) (c : Platform (h.Table)) where
  Keeps-add_visited : (visited : h.Table) (size v : ℕ) → Keeps (add_visited h c visited size v)
  unfolding add_visited
  Keeps-add_visited visited size v =
      Keeps-bind (deref_visited v) _ (Keeps-deref_visited v) λ entry. Keeps-ret _ _ λ s. refl

  pub Keeps-visit_first : (q : Option ℕ) → Keeps (visit_first h c q)
  unfolding visit_first
  Keeps-visit_first q = Keeps-bind malloc_visited _ (Keeps-ret _ _ λ s. refl) λ v.
      Keeps-bind (queue_node q) _ (Keeps-queue_node q) λ front.
        Keeps-bind (store_visited v _) _ (Keeps-store_visited v _) λ _.
          Keeps-bind (add_visited h c h.empty c.sizeof_graph v) _ (Keeps-add_visited _ _ _)
            λ visited. Keeps-pure _

  pub Keeps-visit_new :
      (size : ℕ) (q : Option ℕ) (v nbr : ℕ) (visited : h.Table) (distance : ℕ)
      → Keeps (visit_new h c size q v nbr visited distance)
  unfolding visit_new enqueue_nbr
  Keeps-visit_new size q v nbr visited distance =
      Keeps-bind (store_visited v _) _ (Keeps-store_visited v _) λ _.
        Keeps-bind (add_visited h c visited size v) _ (Keeps-add_visited _ _ _) λ more.
          Keeps-bind (deref_visited v) _ (Keeps-deref_visited v) λ entry.
            Keeps-bind (not_null entry.node) _ (Keeps-not_null entry.node) λ node.
              Keeps-bind (on_net (deref_vertex node)) _ (Keeps-deref_vertex node) λ vertex.
                Keeps-bind (each (enqueue_nbr h c q) (h.items vertex.nbrs)) _
                  (Keeps-each _ _ λ e.
                    Keeps-bind (on_net (deref_edge e)) _ (Keeps-deref_edge e)
                      λ edge. Keeps-enqueue c q edge.node)
                  λ _. Keeps-pure _

  pub Keeps-find_nbr : (visited : h.Table) (nbr size : ℕ) → Keeps (find_nbr h c visited nbr size)
  unfolding find_nbr
  Keeps-find_nbr visited nbr size =
      Keeps-bind (on_net (deref_vertex nbr)) _ (Keeps-deref_vertex nbr)
        λ vertex s u b e. ground arith
