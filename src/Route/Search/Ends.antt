-- ===== src/Route/Search/Ends.antt =====
-- How bfs() and shortest_path() end.
use proxy_part.Prelude.{
  ℕ, zero, suc, ◌≡◌, ◌∙◌, refl, sym, ap, ◌↔◌, Option, none, some, true, false, inl, inr,
  Option-cases,
}
use proxy_part.UtHash.{UtHash}
use proxy_part.Proxy.{ret, deadlock, write_begin}
use proxy_part.Proxy.Steps.{bind_ret}
use proxy_part.Route.{lift, deref_vertex}
use proxy_part.Route.Steps.{lock_deadlock}
use proxy_part.Route.Search.{
  Search, Platform, S, on_net, find_own, dequeue, enqueue, not_null, queue_node,
}
use proxy_part.Route.Search.Visit.{visit_first}
use proxy_part.Route.Search.Bfs.{bfs_nbrs, bfs_loop, bfs_from, bfs}
use proxy_part.Route.Search.Only.{bind_returns}

-- The state with the lock held for writing.
abbrev pub locked : {T : Type 0} → Search T → Search T
locked s = record s { net = record s.net { proxy = record s.net.proxy { writing = true } } }

module _ (h : UtHash) where
  pub find_own_run :
      (s : S h)
      → s.net.proxy.writing ≡ false
      → find_own h s ≡ ret (h.find s.net.network s.net.proxy.link_state.tap_mac) (locked s)
  unfolding find_own on_net lift write_begin
  find_own_run s w = rw (w, find_own)

module _ (h : UtHash) (c : Platform (h.Table)) where
  -- The copy of `q` that the loop tests never changes.
  bfs_loop_never :
      (fuel p v : ℕ) (visited : h.Table) (distance : ℕ) (s u : S h) (t : h.Table)
      → ¬ (bfs_loop h c fuel (some p) v visited distance s ≡ ret t u)
  unfolding bfs_loop
  bfs_loop_never zero p v visited distance s u t e = cc
  bfs_loop_never (suc fuel) p v visited distance s u t e =
      let (node, s₁, a, e₁) = bind_returns (dequeue (some p)) _ s e in
      let (vertex, s₂, b, e₂) = bind_returns (on_net (deref_vertex node)) _ s₁ e₁ in
      let ((more, next), s₃, d, e₃) =
        bind_returns (bfs_nbrs h c (some p) v visited distance (h.items vertex.nbrs)) _ s₂ e₂ in
      bfs_loop_never fuel p v more next s₃ u t e₃

  bfs_loop_set :
      (fuel p v : ℕ) (visited : h.Table) (distance : ℕ) (q : Option ℕ) (s u : S h) (t : h.Table)
      → q ≡ some p
      → ¬ (bfs_loop h c fuel q v visited distance s ≡ ret t u)
  bfs_loop_set fuel p v visited distance q s u t m e =
      bfs_loop_never fuel p v visited distance s u t (rw m at e)

  pub visit_first_set :
      (q : Option ℕ) (s u : S h) (r : h.Table × ℕ)
      → visit_first h c q s ≡ ret r u
      → (p : ℕ) × (q ≡ some p)
  unfolding visit_first queue_node not_null
  visit_first_set (some p) s u r e = (p, refl)
  visit_first_set none s u r e = absurd (cc)

  bfs_from_never :
      (fuel node : ℕ) (q : Option ℕ) (s u : S h) (t : Option h.Table)
      → ¬ (bfs_from h c fuel q (some node) s ≡ ret t u)
  unfolding bfs_from
  bfs_from_never fuel node q s u t e =
      let ((visited, v), s₁, a, e₁) = bind_returns (visit_first h c q) _ s e in
      let (p, some_q) = visit_first_set q s s₁ (visited, v) a in
      let (_, s₂, b, e₂) = bind_returns (enqueue c q node) _ s₁ e₁ in
      let (all, s₃, d, e₃) = bind_returns (bfs_loop h c fuel q v visited 1) _ s₂ e₂ in
      bfs_loop_set fuel p v visited 1 q s₂ s₃ all some_q d

  -- When the lock is free, bfs() returns exactly if the own vertex is not in the graph, whatever the
  -- pointer to the queue holds that is never set, and for every number of rounds. It then returns
  -- NULL with the lock held and nothing else changed, and a writeBegin() after it waits for ever.
  pub bfs_returns_iff :
      (fuel : ℕ) (q : Option ℕ) (s : S h)
      → s.net.proxy.writing ≡ false
      → (((t : Option h.Table) × (u : S h) × (bfs h c fuel q s ≡ ret t u))
          ↔ (h.find s.net.network s.net.proxy.link_state.tap_mac ≡ none))
        × ((h.find s.net.network s.net.proxy.link_state.tap_mac ≡ none) ↔ (
            (bfs h c fuel q s ≡ ret none (locked s))
            × (lift write_begin (locked s).net ≡ deadlock)))
  unfolding bfs bfs_from
  bfs_returns_iff fuel q s w =
      let own = h.find s.net.network s.net.proxy.link_state.tap_mac in
      let start = bind_ret (find_own h) (bfs_from h c fuel q) s (find_own_run h s w) in
      let absent : own ≡ none → bfs h c fuel q s ≡ ret none (locked s) =
        λ n. start ∙ ap (λ o. bfs_from h c fuel q o (locked s)) n in
      let only : ((t : Option h.Table) × (u : S h) × (bfs h c fuel q s ≡ ret t u)) → own ≡ none =
        λ (t, u, e). elim (Option-cases own) [
          | inl n ↦ n
          | inr (p, m) ↦ absurd (
              bfs_from_never fuel p q (locked s) u t
                (ap (λ o. bfs_from h c fuel q o (locked s)) (sym m) ∙ (sym start ∙ e)))
        ] in
      (
        (only, λ n. (none, locked s, absent n)),
        (λ n. (absent n, lock_deadlock (locked s).net refl), λ r. only (none, locked s, r.0)),
      )
