-- ===== src/Route/Free/Freed.antt =====
-- What graph_free() frees.
use proxy_part.Prelude.{
  ℕ, ◌≡◌, ◌≢◌, ◌∙◌, refl, sym, subst, arith, List, [], ◌∷◌, ◌++◌, Option, none, some, true, false,
  ◌||◌, if◌then◌else◌,
}
use proxy_part.UtHash.{UtHash, Item, listed}
use proxy_part.Proxy.{ret, M, ◌>>=◌, update, each}
use proxy_part.Proxy.Steps.{bind_ret}
use proxy_part.Proxy.Member.Add.{update_self, update_other}
use proxy_part.Route.{Edge, Vertex, Net, N}
use proxy_part.Route.Steps.{deref_vertex_step, store_vertex_step}
use proxy_part.Route.Free.{
  free_edge, free_vertex, free_nbr, free_with_edges, free_vertices, graph_free,
}

-- The memory `m` without the pointers of the items.
unfoldable pub wiped : {A : Type 0} → (ℕ → Option A) → List Item → ℕ → Option A
wiped m is p = if listed p is then none else m p

-- Each pointer is allocated, and none is listed twice.
abbrev pub Owned : {A : Type 0} → (ℕ → Option A) → List Item → Type 0
Owned m [] = Unit
Owned {A} m ((k, p) ∷ is) = ((a : A) × (m p ≡ some a)) × (listed p is ≡ false) × Owned m is

wiped-Owned :
    {A : Type 0} (m n : ℕ → Option A) (is : List Item)
    → ((p : ℕ) → listed p is ≡ true → m p ≡ n p)
    → Owned m is
    → Owned n is
unfolding listed
wiped-Owned m n [] same o = tt
wiped-Owned m n ((k, p) ∷ is) same ((a, e), once, o) = (
  (a, sym (same p (ground arith)) ∙ e),
  once,
  wiped-Owned m n is (λ q l. same q (ground arith)) o,
)

listed-append : (p : ℕ) (is js : List Item) → listed p (is ++ js) ≡ (listed p is || listed p js)
unfolding listed
listed-append p [] js = refl
listed-append p ((k, q) ∷ is) js = ground (arith, listed-append p is js)

-- Of two lists that are owned together, the second is owned once the first has been freed.
Owned-append :
    {A : Type 0} (m : ℕ → Option A) (is js : List Item)
    → Owned m (is ++ js)
    → Owned m is × Owned m js × ((p : ℕ) → listed p js ≡ true → listed p is ≡ false)
unfolding listed
Owned-append m [] js o = (tt, o, λ p l. refl)
Owned-append m ((k, q) ∷ is) js (live, once, o) =
    let (a, b, apart) = Owned-append m is js o in
    let both = listed-append q is js in
    ((live, ground arith, a), b, λ p l. let c = apart p l in ground arith)

module _ {T A : Type 0} (s : Net T) where
  free_edge_step :
      (p : ℕ) (e : Edge) (f : Unit {0} → M (Net T) A)
      → s.edges p ≡ some e
      → (free_edge p >>= f) s ≡ f tt (record s { edges = update s.edges p none })
  unfolding free_edge
  free_edge_step p e f m = bind_ret (free_edge p) f s (rw (m, free_edge))

  free_vertex_step :
      (p : ℕ) (x : Vertex T) (f : Unit {0} → M (Net T) A)
      → s.vertices p ≡ some x
      → (free_vertex p >>= f) s ≡ f tt (record s { vertices = update s.vertices p none })
  unfolding free_vertex
  free_vertex_step p x f m = bind_ret (free_vertex p) f s (rw (m, free_vertex))

module _ {T : Type 0} where
  -- From `s` to `t`, the vertices `vs` and the edges `es` have been freed, and nothing else has
  -- changed of the graph, nor of the state that is not the graph's.
  pub record Freed (s : Net T) (vs es : List Item) (t : Net T) : Type 0 where
    pub vertices : (p : ℕ) → t.vertices p ≡ wiped s.vertices vs p
    pub edges : (p : ℕ) → t.edges p ≡ wiped s.edges es p
    pub network : t.network ≡ s.network
    pub proxy : t.proxy ≡ s.proxy

  Freed-cons :
      (s t u : Net T) (k : List ℕ) (v : ℕ) (is es rest : List Item)
      → Freed s ((k, v) ∷ []) es t
      → Freed t is rest u
      → Freed s ((k, v) ∷ is) (es ++ rest) u
  unfolding wiped listed
  Freed-cons s t u k v is es rest a b = record {
    vertices = λ p. ground (arith, a.vertices p, b.vertices p);
    edges = λ p. ground (arith, a.edges p, b.edges p, listed-append p es rest);
    network = b.network ∙ a.network;
    proxy = b.proxy ∙ a.proxy;
  }

  -- Within one vertex `v`, whose own table shrinks.
  record EdgesFreed (s : Net T) (v : ℕ) (es : List Item) (t : Net T) : Type 0 where
    vertex : (x : Vertex T) × (t.vertices v ≡ some x)
    vertices : (p : ℕ) → v ≢ p → t.vertices p ≡ s.vertices p
    edges : (p : ℕ) → t.edges p ≡ wiped s.edges es p
    network : t.network ≡ s.network
    proxy : t.proxy ≡ s.proxy

module _ (h : UtHash) where
  -- The edges of the vertices that the items point to.
  unfoldable pub edges_of : (ℕ → Option (Vertex (h.Table))) → List Item → List Item
  edges_of m [] = []
  edges_of m ((k, p) ∷ is) =
      let rest = edges_of m is in elim (m p) [ none ↦ rest | some x ↦ h.items x.nbrs ++ rest ]

  -- Of the state after one edge `e` of vertex `v`.
  abbrev less_edge : N h → ℕ → Vertex (h.Table) → ℕ → N h
  less_edge s v x e = record s {
    vertices = update s.vertices v (some (record x { nbrs = h.del x.nbrs e }));
    edges = update s.edges e none;
  }

  free_nbr_run :
      (s : N h) (v : ℕ) (x : Vertex (h.Table)) (p : ℕ) (e : Edge)
      → s.vertices v ≡ some x
      → s.edges p ≡ some e
      → free_nbr h v p s ≡ ret tt (less_edge s v x p)
  unfolding free_nbr
  free_nbr_run s v x p e mv me =
      let y : Vertex (h.Table) = record x { nbrs = h.del x.nbrs p } in
      let s₁ = record s { vertices = update s.vertices v (some y) } in
      deref_vertex_step s v x _ mv ∙ (store_vertex_step s v x y _ mv ∙ rw (me, free_edge))

  free_nbrs_run :
      (s : N h) (v : ℕ) (x : Vertex (h.Table)) (is : List Item)
      → s.vertices v ≡ some x
      → Owned s.edges is
      → (t : N h) × (each (free_nbr h v) is s ≡ ret tt t) × EdgesFreed s v is t
  unfolding listed wiped
  free_nbrs_run s v x [] m o = (
    s,
    refl,
    record {
      vertex = (x, m);
      vertices = λ p ne. refl;
      edges = λ p. refl;
      network = refl;
      proxy = refl;
    },
  )
  free_nbrs_run s v x ((k, p) ∷ is) m ((e, me), once, o) =
      let y : Vertex (h.Table) = record x { nbrs = h.del x.nbrs p } in
      let s₁ = less_edge s v x p in
      let left : Owned s₁.edges is = wiped-Owned s.edges s₁.edges is (λ q l. ground arith) o in
      let (t, run, freed) = free_nbrs_run s₁ v y is (update_self s.vertices v _) left in
      (
        t,
        bind_ret (free_nbr h v p) _ s (free_nbr_run s v x p e m me) ∙ run,
        record {
          vertex = freed.vertex;
          vertices = λ q ne. freed.vertices q ne ∙ update_other s.vertices v q (some y) ne;
          edges = λ q. ground (arith, freed.edges q);
          network = freed.network;
          proxy = freed.proxy;
        },
      )

  free_with_edges_run :
      (s : N h) (k : List ℕ) (v : ℕ) (x : Vertex (h.Table))
      → s.vertices v ≡ some x
      → Owned s.edges (h.items x.nbrs)
      → (t : N h) × (free_with_edges h v s ≡ ret tt t) × Freed s ((k, v) ∷ []) (h.items x.nbrs) t
  unfolding free_with_edges listed wiped
  free_with_edges_run s k v x m o =
      let (t, run, freed) = free_nbrs_run s v x (h.items x.nbrs) m o in
      let (y, here) = freed.vertex in
      (
        record t { vertices = update t.vertices v none },
        deref_vertex_step s v x _ m
            ∙ (bind_ret (each (free_nbr h v) (h.items x.nbrs)) _ s run ∙ rw (here, free_vertex)),
        record {
          vertices = λ p. ground (arith, freed.vertices p);
          edges = freed.edges;
          network = freed.network;
          proxy = freed.proxy;
        },
      )

  edges_of-cons :
      (m : ℕ → Option (Vertex (h.Table))) (k : List ℕ) (p : ℕ) (x : Vertex (h.Table))
      (is : List Item)
      → m p ≡ some x
      → edges_of m ((k, p) ∷ is) ≡ h.items x.nbrs ++ edges_of m is
  unfolding edges_of
  edges_of-cons m k p x is e = rw (e, edges_of)

  -- The edges do not depend on vertices that are not listed.
  edges_of-same :
      (m n : ℕ → Option (Vertex (h.Table))) (is : List Item)
      → ((p : ℕ) → listed p is ≡ true → m p ≡ n p)
      → edges_of m is ≡ edges_of n is
  unfolding edges_of listed
  edges_of-same m n [] same = refl
  edges_of-same m n ((k, p) ∷ is) same =
      ground (arith, same p (ground arith), edges_of-same m n is (λ q l. same q (ground arith)))

  free_vertices_run :
      (s : N h) (g : h.Table) (is : List Item)
      → Owned s.vertices is
      → Owned s.edges (edges_of s.vertices is)
      → (t : N h) × (free_vertices h g is s ≡ ret tt t) × Freed s is (edges_of s.vertices is) t
  unfolding free_vertices listed wiped edges_of
  free_vertices_run s g [] o oe =
      (s, refl, record { vertices = λ p. refl; edges = λ p. refl; network = refl; proxy = refl })
  free_vertices_run s g ((k, v) ∷ is) ((x, m), once, o) oe =
      let es = h.items x.nbrs in
      let rest = edges_of s.vertices is in
      let all = edges_of-cons s.vertices k v x is m in
      let (mine, others, apart) = Owned-append s.edges es rest (rw all at oe) in
      let (s₁, run, first) = free_with_edges_run s k v x m mine in
      let kept : (p : ℕ) → listed p is ≡ true → s.vertices p ≡ s₁.vertices p =
        λ p l. ground (arith, first.vertices p) in
      let same : rest ≡ edges_of s₁.vertices is = edges_of-same s.vertices s₁.vertices is kept in
      let left : Owned s₁.edges rest =
        wiped-Owned s.edges s₁.edges rest
          (λ p l. let a = apart p l in ground (arith, first.edges p)) others in
      let (t, runs, freed) =
        free_vertices_run s₁ (h.del g v) is (wiped-Owned s.vertices s₁.vertices is kept o)
          (subst (Owned s₁.edges) same left) in
      (
        t,
        bind_ret (free_with_edges h v) _ s run ∙ runs,
        subst (λ w. Freed s ((k, v) ∷ is) w t) (sym all)
            (Freed-cons s s₁ t k v is es rest first
              (subst (λ w. Freed s₁ is w t) (sym same) freed)),
      )

  -- graph_free() of a table whose vertices and their edges are all allocated, each listed once,
  -- returns, so no address is freed twice or used after it is free. It has freed the vertices of the
  -- table and the edges of those vertices and no other memory, and has changed neither `network`
  -- nor any state outside the graph.
  pub graph_free-Freed :
      (s : N h) (g : h.Table)
      → Owned s.vertices (h.items g)
      → Owned s.edges (edges_of s.vertices (h.items g))
      → (t : N h) × (graph_free h g s ≡ ret tt t)
        × Freed s (h.items g) (edges_of s.vertices (h.items g)) t
  unfolding graph_free
  graph_free-Freed s g o oe = free_vertices_run s g (h.items g) o oe
