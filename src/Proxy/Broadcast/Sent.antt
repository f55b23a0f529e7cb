-- ===== src/Proxy/Broadcast/Sent.antt =====
-- The sending loops of Link_State_Broadcast() and the membership list.
use proxy_part.Prelude.{
  ℕ, suc, ◌≡◌, refl, ◌∙◌, List, [], ◌∷◌, ◌++◌, some, Bool, inl, inr, ℤ, is_negative, if◌then◌else◌,
  Bool-cases,
}
use proxy_part.Rio.{Kernel}
use proxy_part.Wire.{header_bytes, time_bytes, bandwidth_probe_request}
use proxy_part.UtHash.{UtHash, Item}
use proxy_part.Proxy.{Peer, pure, P, update, hash_iter, fd_write}
use proxy_part.Proxy.Steps.{deref_step, del_step, free_done, store_step}
use proxy_part.Proxy.Safe.{Safe, returns, Never, Safe-eq, Safe-bind, fd_write-Wrote, each-Safe}
use proxy_part.Proxy.Member.Lists.{
  Has-listed, Distinct-remove, Live-remove, Live-update, Has-Live, AllIn-remove, AllIn-refl,
}
use proxy_part.Proxy.Member.Add.{update_self}
use proxy_part.Proxy.Member.Remove.{IsValid}
use proxy_part.Proxy.Messages.Tap.{Iterates}
use proxy_part.Proxy.Broadcast.{cut, send, send_state, send_probe, send_all}

module _ (h : UtHash) where
  cut-Iterates :
      {E : ℤ → P h → Type 0} (held : Bool) (k : List ℕ) (pp : ℕ) (peer : Peer) (todo : List Item)
      (s : P h)
      → s.memory pp ≡ some peer
      → Iterates h held ((k, pp) ∷ todo) s
      → Safe (λ _ t. Iterates h held todo t) E (cut h pp peer s)
  unfolding cut
  cut-Iterates held k pp peer todo s m i =
      let items = h.items s.hash_table in
      Safe-eq (del_step h _ pp _ (Has-listed k pp items i.inside.0) ∙ free_done _ pp peer m) (
        returns (record {
          valid = record {
            distinct = rw h.items-del (Distinct-remove pp items i.valid.distinct);
            live = rw h.items-del (Live-remove s.memory pp items i.valid.live);
          };
          distinct = i.distinct.1;
          inside = rw h.items-del (
              AllIn-remove s.memory k pp todo items i.valid.live i.inside.0 i.distinct.0
                i.inside.1);
          lock = i.lock;
        }))

  send-Iterates :
      {E : ℤ → P h → Type 0} (held : Bool) (packet k : List ℕ) (pp : ℕ) (peer : Peer)
      (todo : List Item) (s : P h)
      → s.memory pp ≡ some peer
      → Iterates h held ((k, pp) ∷ todo) s
      → Safe (λ _ t. Iterates h held todo t) E (send h packet pp peer s)
  unfolding send
  send-Iterates {E} held packet k pp peer todo s m i =
      Safe-bind (fd_write peer.fd packet) _ s (fd_write-Wrote peer.fd packet s)
        λ v t w. rw (w.state) (after v w.kernel)
    where
      after :
          (v : ℤ) (kernel : Kernel)
          → Safe
              (λ _ t. Iterates h held todo t)
              E
              ((if is_negative v then cut h pp peer else pure tt) (record s {
                files = update s.files peer.fd kernel;
                errno = kernel.errno;
                written = (peer.fd, packet) ∷ s.written;
              }))
      after v kernel = elim (Bool-cases (is_negative v)) [
        | inl e ↦ rw e (
            cut-Iterates held k pp peer todo _ m (record {
              valid = record { distinct = i.valid.distinct; live = i.valid.live };
              distinct = i.distinct;
              inside = i.inside;
              lock = i.lock;
            }))
        | inr e ↦ rw e (
            returns (record {
              valid = record { distinct = i.valid.distinct; live = i.valid.live };
              distinct = i.distinct.1;
              inside = i.inside.1;
              lock = i.lock;
            }))
      ]

  state-Iterates :
      {E : ℤ → P h → Type 0} (held : Bool) (packet k : List ℕ) (pp : ℕ) (todo : List Item) (s : P h)
      → Iterates h held ((k, pp) ∷ todo) s
      → Safe (λ _ t. Iterates h held todo t) E (send_state h packet pp s)
  unfolding send_state
  state-Iterates held packet k pp todo s i =
      let (peer, m, key) = Has-Live s.memory k pp (h.items s.hash_table) i.valid.live i.inside.0 in
      Safe-eq (deref_step s pp peer _ m) (send-Iterates held packet k pp peer todo s m i)

  probe-Iterates :
      {E : ℤ → P h → Type 0} (held : Bool) (k : List ℕ) (pp : ℕ) (todo : List Item) (s : P h)
      → Iterates h held ((k, pp) ∷ todo) s
      → Safe (λ _ t. Iterates h held todo t) E (send_probe h pp s)
  unfolding send_probe
  probe-Iterates held k pp todo s i =
      let (peer, m, key) = Has-Live s.memory k pp (h.items s.hash_table) i.valid.live i.inside.0 in
      let s₁ = record s { ticks = suc s.ticks } in
      let now = s.clock s.ticks in
      let probed = record peer { probe_ts = now } in
      Safe-eq (deref_step s₁ pp peer _ m ∙ store_step s₁ pp peer probed _ m) (
        send-Iterates held (header_bytes bandwidth_probe_request 8 ++ time_bytes now) k pp probed
          todo (record s₁ { memory = update s.memory pp (some probed) }) (update_self s.memory pp _)
          (record {
            valid = record {
              distinct = i.valid.distinct;
              live = Live-update s.memory pp peer probed (h.items s.hash_table) m refl i.valid.live;
            };
            distinct = i.distinct;
            inside = i.inside;
            lock = i.lock;
          }))

  all :
      (held : Bool) (s : P h)
      → IsValid h s
      → s.writing ≡ held
      → Iterates h held (h.items s.hash_table) s
  all held s v e = record {
    valid = v;
    distinct = v.distinct;
    inside = AllIn-refl (h.items s.hash_table);
    lock = e;
  }

  -- From a valid list, and whatever the peers' descriptors do, the sending loops neither fault nor
  -- wait for a lock of their own nor exit; if they end, the list is valid and the lock is as it was.
  pub send_all-Kept :
      (packet : List ℕ) (s : P h)
      → IsValid h s
      → Safe (λ _ t. Iterates h (s.writing) [] t) Never (send_all h packet s)
  unfolding send_all hash_iter
  send_all-Kept packet s v =
      Safe-bind (hash_iter h (send_state h packet)) _ s
        (each-Safe (Iterates h (s.writing)) (send_state h packet)
          (λ k p rest t i. state-Iterates (s.writing) packet k p rest t i) (h.items s.hash_table) s
          (all (s.writing) s v refl))
        λ a t i.
          each-Safe (Iterates h (s.writing)) (send_probe h)
            (λ k p rest u j. probe-Iterates (s.writing) k p rest u j) (h.items t.hash_table) t
            (all (s.writing) t i.valid i.lock)
