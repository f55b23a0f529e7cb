-- ===== src/Route/Search/Reached.antt =====
-- shortest_path() that has returned.
use proxy_part.Prelude.{ℕ, zero, suc, ◌≡◌, ◌∙◌, refl, sym, ap, Option, none, some, true, false}
use proxy_part.UtHash.{UtHash}
use proxy_part.Proxy.{ret, M}
use proxy_part.Proxy.Steps.{bind_ret}
use proxy_part.Route.{Vertex, N, deref_vertex}
use proxy_part.Route.Search.{Platform, S, on_net, find_own, dequeue, enqueue}
use proxy_part.Route.Search.Visit.{visit_first}
use proxy_part.Route.Search.Shortest.{
  path_nbrs, unless_returned, path_loop, path_from, shortest_path,
}
use proxy_part.Route.Search.Only.{
  bind_returns, ret_inj, Keeps-visit_first, Keeps-dequeue, Keeps-enqueue, deref_vertex_returns,
}
use proxy_part.Route.Search.Ends.{locked, find_own_run, visit_first_set}
use proxy_part.Route.Search.Scans.{unlocked, Adjacent, Scanned, path_nbrs_returns}

module _ (h : UtHash) (c : Platform (h.Table)) (table : Option (h.Table)) (dest : ℕ) where
  -- After the iteration over one vertex: the return, or the next round.
  path_step :
      (n : N h) (node : ℕ) (vertex : Vertex (h.Table))
      (next_round : h.Table → ℕ → M (S h) (Unit {0}))
      → ((more : h.Table) (next : ℕ) (t u : S h)
          → t.net ≡ n
          → next_round more next t ≡ ret tt u
          → (u.net ≡ unlocked n) × Adjacent h n dest)
      → n.vertices node ≡ some vertex
      → (scan : Option (h.Table × ℕ)) (t u : S h)
      → Scanned h c table dest n (h.items vertex.nbrs) scan t.net
      → unless_returned h c table dest next_round scan t ≡ ret tt u
      → (u.net ≡ unlocked n) × Adjacent h n dest
  unfolding Scanned unless_returned
  path_step n node vertex next_round later stored none t u (free, l) e = (
    sym (ap (λ x. x.net) (ret_inj e).1) ∙ free,
    record { vertex = node; content = vertex; stored = stored; leads = l },
  )
  path_step n node vertex next_round later stored (some (more, next)) t u same e =
      later more next t u same e

  path_loop_returns :
      (n : N h) (fuel p v : ℕ) (visited : h.Table) (distance : ℕ)
      → n.proxy.writing ≡ true
      → (s u : S h) → s.net ≡ n
      → path_loop h c table dest fuel (some p) v visited distance s ≡ ret tt u
      → (u.net ≡ unlocked n) × Adjacent h n dest
  unfolding path_loop
  path_loop_returns n zero p v visited distance w s u same run = absurd (cc)
  path_loop_returns n (suc fuel) p v visited distance w s u same run =
      let (node, s₁, a, e₁) = bind_returns (dequeue (some p)) _ s run in
      let same₁ = Keeps-dequeue (some p) s s₁ node a ∙ same in
      let (vertex, s₂, b, e₂) = bind_returns (on_net (deref_vertex node)) _ s₁ e₁ in
      let (stored, unmoved) = deref_vertex_returns node s₁ s₂ vertex b in
      let same₂ = ap (λ t. t.net) unmoved ∙ same₁ in
      let (scan, s₃, d, e₃) =
        bind_returns
          (path_nbrs h c table dest fuel (some p) v node visited distance (h.items vertex.nbrs)) _
          s₂ e₂ in
      let scanned =
        path_nbrs_returns h c table dest n fuel (some p) v node visited distance
          (h.items vertex.nbrs) w s₂ s₃ scan same₂ d in
      path_step n node vertex (path_loop h c table dest fuel (some p) v)
        (λ more next t u₁ same₄ e. path_loop_returns n fuel p v more next w t u₁ same₄ e)
        (ap (λ m. m.vertices node) (sym same₁) ∙ stored) scan s₃ u scanned e₃

  path_loop_set :
      (n : N h) (fuel p v : ℕ) (visited : h.Table) (distance : ℕ) (q : Option ℕ)
      → n.proxy.writing ≡ true
      → (s u : S h) → q ≡ some p
      → s.net ≡ n
      → path_loop h c table dest fuel q v visited distance s ≡ ret tt u
      → (u.net ≡ unlocked n) × Adjacent h n dest
  path_loop_set n fuel p v visited distance q w s u m same run =
      path_loop_returns n fuel p v visited distance w s u same (rw m at run)

  -- When the lock is free, the own vertex is in the graph and shortest_path() returns, the lock is
  -- free and nothing of the graph or of the state outside it has changed, and some vertex of the
  -- graph's memory has an edge to the destination. This holds whatever the pointers hold that are
  -- never set, and for every number of rounds.
  pub shortest_path-Adjacent :
      (fuel node : ℕ) (q : Option ℕ) (s u : S h)
      → s.net.proxy.writing ≡ false
      → h.find s.net.network s.net.proxy.link_state.tap_mac ≡ some node
      → shortest_path h c table dest fuel q s ≡ ret tt u
      → (u.net ≡ unlocked s.net) × Adjacent h s.net dest
  unfolding shortest_path path_from
  shortest_path-Adjacent fuel node q s u w found run =
      let n = (locked s).net in
      let start = bind_ret (find_own h) (path_from h c table dest fuel q) s (find_own_run h s w) in
      let run₁ : path_from h c table dest fuel q (some node) (locked s) ≡ ret tt u =
        ap (λ o. path_from h c table dest fuel q o (locked s)) (sym found) ∙ (sym start ∙ run) in
      let (_, s₁, a, e₁) = bind_returns (enqueue c q node) _ (locked s) run₁ in
      let ((visited, v), s₂, b, e₂) = bind_returns (visit_first h c q) _ s₁ e₁ in
      let (p, set) = visit_first_set h c q s₁ s₂ (visited, v) b in
      let same =
        Keeps-visit_first h c q s₁ s₂ (visited, v) b ∙ Keeps-enqueue c q node (locked s) s₁ tt a in
      let (free, x) = path_loop_set n fuel p v visited 1 q refl s₂ u set same e₂ in
      (
        free,
        record {
          vertex = x.vertex;
          content = x.content;
          stored = x.stored;
          leads = record {
            key = x.leads.key;
            edge = x.leads.edge;
            content = x.leads.content;
            listed = x.leads.listed;
            stored = x.leads.stored;
            leads = x.leads.leads;
          };
        },
      )
