-- ===== src/Route/Search/Scans.antt =====
-- The iteration of shortest_path() over the neighbours of one vertex.
use proxy_part.Prelude.{
  ℕ, ◌≡◌, ◌∙◌, refl, sym, ap, arith, List, [], ◌∷◌, Option, none, some, Bool, true, false, inl, inr,
  ◌==◌, if◌then◌else◌,
}
use proxy_part.UtHash.{UtHash, Item, Has}
use proxy_part.Wire.{eth_alen}
use proxy_part.Proxy.{ret, M, write_end}
use proxy_part.Route.{Edge, Vertex, Net, N, lift, deref_edge}
use proxy_part.Route.Steps.{unlock_last}
use proxy_part.Route.Search.{Platform, S, on_net}
use proxy_part.Route.Search.Visit.{visit_new, find_nbr, unless_visited}
use proxy_part.Route.Search.Forward.{prepare_forwarding_table}
use proxy_part.Route.Search.Shortest.{arrive, visit_other, look_up, unless_dest, path_nbrs}
use proxy_part.Route.Search.Only.{
  bind_returns, ret_inj, Keeps-visit_new, Keeps-find_nbr, deref_edge_returns,
}
use proxy_part.Route.Search.Found.{Keeps-prepare_forwarding_table}

-- The graph `n` once its lock is free.
abbrev pub unlocked : {T : Type 0} → Net T → Net T
unlocked n = record n { proxy = record n.proxy { writing = false } }

module _ (h : UtHash) where
  -- One of the items is an edge to `dest`.
  pub record Leads (n : N h) (dest : ℕ) (items : List Item) : Type 0 where
    pub key : List ℕ
    pub edge : ℕ
    pub content : Edge
    pub listed : Has key edge items
    pub stored : n.edges edge ≡ some content
    pub leads : content.node ≡ dest

  -- Some vertex has an edge to `dest`.
  pub record Adjacent (n : N h) (dest : ℕ) : Type 0 where
    pub vertex : ℕ
    pub content : Vertex (h.Table)
    pub stored : n.vertices vertex ≡ some content
    pub leads : Leads n dest (h.items content.nbrs)

  Leads-cons :
      (n : N h) (dest : ℕ) (k : List ℕ) (e : ℕ) (items : List Item)
      → Leads n dest items
      → Leads n dest ((k, e) ∷ items)
  Leads-cons n dest k e items l = record {
    key = l.key;
    edge = l.edge;
    content = l.content;
    listed = inr l.listed;
    stored = l.stored;
    leads = l.leads;
  }

module _ (h : UtHash) (c : Platform (h.Table)) (table : Option (h.Table)) (dest : ℕ) where
  -- What an iteration has left: the graph as it was, or, if the function returns, its lock free.
  unfoldable pub Scanned : N h → List Item → Option (h.Table × ℕ) → N h → Type 0
  Scanned n items none m = (m ≡ unlocked n) × Leads h n dest items
  Scanned n items (some scan) m = m ≡ n

  arrive_returns :
      (fuel : ℕ) (visited : h.Table) (from nbr : ℕ) (s u : S h) (o : Option (h.Table × ℕ))
      → s.net.proxy.writing ≡ true
      → arrive h c table dest fuel visited from nbr s ≡ ret o u
      → (o ≡ none) × (u.net ≡ unlocked s.net)
  unfolding arrive on_net
  arrive_returns fuel visited from nbr s u o w e =
      let prepare = prepare_forwarding_table h c fuel table visited nbr from dest in
      let (_, s₁, a, e₁) = bind_returns prepare _ s e in
      let kept = Keeps-prepare_forwarding_table h c fuel table visited nbr from dest s s₁ tt a in
      let (_, s₂, b, e₂) = bind_returns (on_net (lift write_end)) _ s₁ e₁ in
      let free = unlock_last s₁.net (rw kept w) in
      let (x, y) = ret_inj e₂ in
      let z = ret_inj (rw (free, on_net) at b) in (sym x, rw (sym y, sym z.1, kept) refl)

  look_up_returns :
      (n : N h) (items : List Item) (q : Option ℕ) (v nbr : ℕ) (visited : h.Table) (distance : ℕ)
      (rest : M (S h) (Option (h.Table × ℕ)))
      → ((s u : S h) (o : Option (h.Table × ℕ))
          → s.net ≡ n
          → rest s ≡ ret o u
          → Scanned n items o u.net)
      → (s u : S h) (o : Option (h.Table × ℕ)) → s.net ≡ n
      → look_up h c table dest q v nbr visited distance rest s ≡ ret o u
      → Scanned n items o u.net
  unfolding look_up visit_other unless_visited Scanned
  look_up_returns n items q v nbr visited distance rest later s u o same e =
      let (found, s₁, a, e₁) = bind_returns (find_nbr h c visited nbr c.sizeof_graph) _ s e in
      let kept = Keeps-find_nbr h c visited nbr c.sizeof_graph s s₁ found a in
      go found s₁ (kept ∙ same) e₁
    where
      new :
          (s₁ : S h)
          → s₁.net ≡ n
          → visit_other h c table dest q v nbr visited distance s₁ ≡ ret o u
          → Scanned n items o u.net
      new s₁ same₁ e₁ =
          let (scan, s₂, b, e₂) =
            bind_returns (visit_new h c eth_alen q v nbr visited distance) _ s₁ e₁ in
          let (x, y) = ret_inj e₂ in
          rw (sym x) (
            sym (ap (λ t. t.net) y)
            ∙ (Keeps-visit_new h c eth_alen q v nbr visited distance s₁ s₂ scan b ∙ same₁))

      go :
          (found : Option ℕ) (s₁ : S h)
          → s₁.net ≡ n
          → unless_visited h c found (visit_other h c table dest q v nbr visited distance) rest s₁
            ≡ ret o u
          → Scanned n items o u.net
      go none s₁ same₁ e₁ = new s₁ same₁ e₁
      go (some x) s₁ same₁ e₁ = later s₁ u o same₁ e₁

  Scanned-cons :
      (n m : N h) (k : List ℕ) (e : ℕ) (items : List Item) (o : Option (h.Table × ℕ))
      → Scanned n items o m
      → Scanned n ((k, e) ∷ items) o m
  unfolding Scanned
  Scanned-cons n m k e items none (free, l) = (free, Leads-cons h n dest k e items l)
  Scanned-cons n m k e items (some scan) same = same

  path_nbr_returns :
      (n : N h) (fuel : ℕ) (q : Option ℕ) (v from : ℕ) (visited : h.Table) (distance : ℕ)
      (k : List ℕ) (e : ℕ) (items : List Item) (edge : Edge)
      → n.proxy.writing ≡ true
      → n.edges e ≡ some edge
      → ((s u : S h) (o : Option (h.Table × ℕ))
          → s.net ≡ n
          → path_nbrs h c table dest fuel q v from visited distance items s ≡ ret o u
          → Scanned n items o u.net)
      → (s u : S h) (o : Option (h.Table × ℕ)) → s.net ≡ n
      → unless_dest h c table dest edge.node
          (arrive h c table dest fuel visited from edge.node)
          (look_up h c table dest q v edge.node visited distance
            (path_nbrs h c table dest fuel q v from visited distance items))
          s
        ≡ ret o u
      → Scanned n ((k, e) ∷ items) o u.net
  unfolding unless_dest Scanned
  path_nbr_returns n fuel q v from visited distance k e items edge w stored later s u o same run =
      go (edge.node == dest) refl run
    where
      rest : M (S h) (Option (h.Table × ℕ))
      rest = path_nbrs h c table dest fuel q v from visited distance items

      go :
          (b : Bool)
          → edge.node == dest ≡ b
          → (if b
                then arrive h c table dest fuel visited from edge.node
                else look_up h c table dest q v edge.node visited distance rest)
              s
            ≡ ret o u
          → Scanned n ((k, e) ∷ items) o u.net
      go true here run =
          let (x, y) = arrive_returns fuel visited from edge.node s u o (rw same w) run in
          rw x (
            rw same at y,
            record {
              key = k;
              edge = e;
              content = edge;
              listed = inl (refl, refl);
              stored = stored;
              leads = ground arith;
            },
          )
      go false other run =
          look_up_returns n ((k, e) ∷ items) q v edge.node visited distance rest
            (λ s₁ u₁ o₁ same₁ l. Scanned-cons n u₁.net k e items o₁ (later s₁ u₁ o₁ same₁ l)) s u o
            same run

  pub path_nbrs_returns :
      (n : N h) (fuel : ℕ) (q : Option ℕ) (v from : ℕ) (visited : h.Table) (distance : ℕ)
      (items : List Item)
      → n.proxy.writing ≡ true
      → (s u : S h) (o : Option (h.Table × ℕ)) → s.net ≡ n
      → path_nbrs h c table dest fuel q v from visited distance items s ≡ ret o u
      → Scanned n items o u.net
  unfolding path_nbrs Scanned unless_dest
  path_nbrs_returns n fuel q v from visited distance [] w s u o same e =
      let (x, y) = ret_inj e in rw (sym x) (sym (ap (λ t. t.net) y) ∙ same)
  path_nbrs_returns n fuel q v from visited distance ((k, e) ∷ items) w s u o same run =
      let rest = path_nbrs h c table dest fuel q v from visited distance items in
      let (edge, s₁, a, e₁) = bind_returns (on_net (deref_edge e)) _ s run in
      let (stored, unmoved) = deref_edge_returns e s s₁ edge a in
      let same₁ : s₁.net ≡ n = ap (λ t. t.net) unmoved ∙ same in
      path_nbr_returns n fuel q v from visited distance k e items edge w
        (ap (λ m. m.edges e) (sym same) ∙ stored)
        (λ s₂ u₂ o₂ same₂ later.
          path_nbrs_returns n fuel q v from visited distance items w s₂ u₂ o₂ same₂ later)
        s₁ u o same₁ e₁
