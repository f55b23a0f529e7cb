-- ===== src/Proxy/Messages/Tap.antt =====
-- tap_handler(): which peers a frame goes to, and what it leaves of the membership list.
use proxy_part.Prelude.{
  ℕ, ◌+◌, ◌≤◌, ◌≡◌, refl, ◌∙◌, List, [], ◌∷◌, ◌++◌, none, some, Bool, true, false, Option-cases,
  inl, inr, arith, ℤ, is_positive, length, take, drop, ltb, if◌then◌else◌, Bool-cases,
}
use proxy_part.Rio.{Kernel}
use proxy_part.Wire.{link_state_at, header_bytes, eth_alen, proxy_hlen, same_bytes}
use proxy_part.UtHash.{UtHash, Item}
use proxy_part.Proxy.{Peer, ◌>>=◌, ◌>>◌, pure, P, update, hash_iter, hash_find, write_end, fd_write}
use proxy_part.Proxy.Steps.{begin_step, deref_step, find_step, del_step, free_done, write_end_held}
use proxy_part.Proxy.Safe.{
  Safe, Safe-choose, returns, Never, Safe-eq, Safe-bind, fd_write-Wrote, each-Safe,
}
use proxy_part.Proxy.Member.Lists.{
  Distinct, AllIn, Has-listed, Distinct-remove, Live-remove, Has-Live, AllIn-remove, AllIn-refl,
}
use proxy_part.Proxy.Member.Remove.{IsValid}
use proxy_part.Proxy.Messages.{
  drop_peer, forward, forward_if_found, frame_buffer, broadcast_addr, tap_round,
}

module _ (h : UtHash) where
  -- A valid list, of which the items `todo` are still there, under a lock that is held or not.
  pub record Iterates (held : Bool) (todo : List Item) (s : P h) : Type 0 where
    pub valid : IsValid h s
    pub distinct : Distinct todo
    pub inside : AllIn todo (h.items s.hash_table)
    pub lock : s.writing ≡ held

  -- drop_peer() takes the first of them out.
  drop_peer-Iterates :
      {E : ℤ → P h → Type 0} (held : Bool) (k : List ℕ) (pp : ℕ) (peer : Peer) (todo : List Item)
      (s : P h)
      → s.memory pp ≡ some peer
      → Iterates held ((k, pp) ∷ todo) s
      → Safe (λ _ t. Iterates held todo t) E (drop_peer h pp peer s)
  unfolding drop_peer
  drop_peer-Iterates held k pp peer todo s m i =
      let items = h.items s.hash_table in
      Safe-eq (del_step h _ pp _ (Has-listed k pp items i.inside.0) ∙ free_done _ pp peer m) (
        returns (record {
          valid = record {
            distinct = rw h.items-del (Distinct-remove pp items i.valid.distinct);
            live = rw h.items-del (Live-remove s.memory pp items i.valid.live);
          };
          distinct = i.distinct.1;
          inside = rw h.items-del (
              AllIn-remove s.memory k pp todo items i.valid.live i.inside.0 i.distinct.0
                i.inside.1);
          lock = i.lock;
        }))

  forward-Iterates :
      {E : ℤ → P h → Type 0} (held : Bool) (packet : List ℕ) (k : List ℕ) (pp : ℕ)
      (todo : List Item) (s : P h)
      → Iterates held ((k, pp) ∷ todo) s
      → Safe (λ _ t. Iterates held todo t) E (forward h packet pp s)
  unfolding forward
  forward-Iterates {E} held packet k pp todo s i =
      let (peer, m, key) = Has-Live s.memory k pp (h.items s.hash_table) i.valid.live i.inside.0 in
      Safe-eq (deref_step s pp peer _ m) (
        Safe-bind (fd_write peer.fd packet) _ s (fd_write-Wrote peer.fd packet s)
          λ v t w. rw (w.state) (after v w.kernel peer m))
    where
      after :
          (v : ℤ) (kernel : Kernel) (peer : Peer)
          → s.memory pp ≡ some peer
          → Safe
              (λ _ t. Iterates held todo t)
              E
              ((if is_positive v then pure tt else drop_peer h pp peer) (record s {
                files = update s.files peer.fd kernel;
                errno = kernel.errno;
                written = (peer.fd, packet) ∷ s.written;
              }))
      after v kernel peer m = elim (Bool-cases (is_positive v)) [
        | inl e ↦ rw e (
            returns (record {
              valid = record { distinct = i.valid.distinct; live = i.valid.live };
              distinct = i.distinct.1;
              inside = i.inside.1;
              lock = i.lock;
            }))
        | inr e ↦ rw e (
            drop_peer-Iterates held k pp peer todo _ m (record {
              valid = record { distinct = i.valid.distinct; live = i.valid.live };
              distinct = i.distinct;
              inside = i.inside;
              lock = i.lock;
            }))
      ]

  -- What tap_handler() keeps from one frame to the next.
  pub record Kept (s : P h) : Type 0 where
    pub valid : IsValid h s
    pub lock : s.writing ≡ false

  locked_write_end :
      {E : ℤ → P h → Type 0} (s : P h)
      → IsValid h s
      → s.writing ≡ true
      → Safe (λ _ t. Kept t) E (write_end s)
  locked_write_end s v e =
      Safe-eq (write_end_held s e)
        (returns (record { valid = record { distinct = v.distinct; live = v.live }; lock = refl }))

  -- The frame goes to one peer, or to none.
  one-Kept :
      (packet key : List ℕ) (s : P h)
      → IsValid h s
      → s.writing ≡ true
      → Safe
          (λ _ t. Kept t)
          Never
          ((hash_find h key >>= λ pp. forward_if_found h packet pp >> write_end) s)
  unfolding forward_if_found
  one-Kept packet key s v w = elim (Option-cases (h.find s.hash_table key)) [
    | inl e ↦ Safe-eq (find_step h s key none _ e) (locked_write_end s v w)
    | inr (pp, e) ↦ Safe-eq (find_step h s key (some pp) _ e) (
        Safe-bind (forward h packet pp) (λ _. write_end) s
          (forward-Iterates true packet key pp [] s (record {
            valid = v;
            distinct = (tt, tt);
            inside = (h.find_some s.hash_table key pp e, tt);
            lock = w;
          }))
          λ a t i. locked_write_end t i.valid i.lock)
  ]

  -- For every frame of at most ETH_FRAME_LEN bytes, and whatever the peers' descriptors do, a
  -- round of tap_handler() that starts with a valid membership list and a free lock neither faults
  -- nor waits for itself. If it ends, the list is valid and the lock is free.
  pub tap_round-Kept :
      (frame : List ℕ) (s : P h)
      → length frame ≤ 1514
      → Kept s
      → Safe (λ _ t. Kept t) Never (tap_round h frame s)
  unfolding tap_round hash_iter
  tap_round-Kept frame s short kept =
      let buffer = frame_buffer frame in
      let packet = take (proxy_hlen + length frame) buffer in
      let v : IsValid h (record s { writing = true }) = record {
        distinct = kept.valid.distinct;
        live = kept.valid.live;
      } in
      Safe-choose (ltb 1514 (length frame)) _ _ s (λ long. absurd (ground arith))
        λ fits.
          Safe-choose (same_bytes (take eth_alen (drop proxy_hlen buffer)) broadcast_addr) _ _ s
            (λ all. Safe-eq (begin_step s _ kept.lock) (
              Safe-bind (hash_iter h (forward h packet)) (λ _. write_end)
                (record s { writing = true })
                (each-Safe (Iterates true) (forward h packet)
                  (λ k p rest t i. forward-Iterates true packet k p rest t i) (h.items s.hash_table)
                  (record s { writing = true })
                  (record {
                    valid = v;
                    distinct = kept.valid.distinct;
                    inside = AllIn-refl (h.items s.hash_table);
                    lock = refl;
                  }))
                λ a t i. locked_write_end t i.valid i.lock))
            λ one.
              Safe-eq (begin_step s _ kept.lock) (
                one-Kept packet (link_state_at buffer).tap_mac (record s { writing = true }) v refl)

-- The six bytes that tap_handler() looks up for a frame are not its destination: they are the last
-- four bytes of the destination and the first two of the source, because the cast to `link_state`
-- is made at the proxy header, two bytes off.
pub tap_key :
    (dest src rest : List ℕ)
    → length dest ≡ eth_alen
    → length src ≡ eth_alen
    → (link_state_at (frame_buffer (dest ++ (src ++ rest)))).tap_mac ≡ drop 2 dest ++ take 2 src
unfolding link_state_at frame_buffer header_bytes
tap_key (a ∷ b ∷ c ∷ d ∷ e ∷ f ∷ []) (u ∷ v ∷ src) rest hd hs = refl
tap_key _ _ rest hd hs = absurd (omega arith)
