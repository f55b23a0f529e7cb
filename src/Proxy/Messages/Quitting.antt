-- ===== src/Proxy/Messages/Quitting.antt =====
-- Quit() of proxy.c, on every branch.
use proxy_part.Prelude.{
  ℕ, ◌≡◌, ◌≢◌, refl, ap, ◌∙◌, List, [], ◌∷◌, ◌++◌, some, true, false, arith, ℤ, pos, minus_one,
  take,
}
use proxy_part.Rio.{Kernel, done, rio_write}
use proxy_part.Wire.{header_bytes, quit_type, quit_len}
use proxy_part.UtHash.{UtHash, Item}
use proxy_part.Proxy.{Peer, ret, exited, deadlock, P, hash_iter, each}
use proxy_part.Proxy.Steps.{
  bind_ret, bind_deadlock, begin_step, begin_deadlock, deref_step, write_step, end_step,
}
use proxy_part.Proxy.Member.{remove_member}
use proxy_part.Proxy.Messages.{quit, quit_peer}

module _ (h : UtHash) where
  -- Quit() refuses a message of another length than QUIT_LEN: it returns -1 and changes nothing.
  pub quit_wrong_size :
      (s : P h) (bytes : List ℕ) (n : ℕ) → n ≢ quit_len → quit h bytes n s ≡ ret minus_one s
  unfolding quit
  quit_wrong_size s bytes n ne = ground arith

  -- With an empty membership list and a free lock, Quit() exits with status 0, having cancelled
  -- the thread of the tap device.
  pub quit_alone :
      (s : P h) (bytes : List ℕ)
      → s.writing ≡ false
      → h.items s.hash_table ≡ []
      → quit h bytes quit_len s
        ≡ exited (pos 0) (record s { writing = false; cancelled = s.tap_tid ∷ s.cancelled })
  unfolding quit hash_iter
  quit_alone s bytes w e =
      begin_step s _ w
      ∙ (bind_ret (hash_iter h (quit_peer h packet)) _ locked
            (ap (λ (items : List Item). each (quit_peer h packet) items locked) e)
          ∙ end_step locked _ refl)
    where
      packet : List ℕ
      packet = header_bytes quit_type quit_len ++ take quit_len bytes

      locked : P h
      locked = record s { writing = true }

  remove_member_waits :
      (s : P h) (pp : ℕ) → s.writing ≡ true → remove_member h (some pp) s ≡ deadlock
  unfolding remove_member
  remove_member_waits s pp w = begin_deadlock s _ w

  -- With a peer in the membership list, Quit() never exits: it takes the lock for writing, sends
  -- the quit packet to the first peer, and then waits for ever in remove_member() for the lock
  -- that it holds itself.
  pub quit_deadlock :
      (s : P h) (bytes : List ℕ) (k : List ℕ) (pp : ℕ) (rest : List Item) (peer : Peer) (v : ℤ)
      (kernel : Kernel)
      → s.writing ≡ false
      → h.items s.hash_table ≡ (k, pp) ∷ rest
      → s.memory pp ≡ some peer
      → rio_write
          (record (s.files peer.fd) { errno = s.errno })
          (header_bytes quit_type quit_len ++ take quit_len bytes)
        ≡ done (v, kernel)
      → quit h bytes quit_len s ≡ deadlock
  unfolding quit quit_peer hash_iter
  quit_deadlock s bytes k pp rest peer v kernel w e m sent =
      begin_step s _ w
      ∙ bind_deadlock (hash_iter h (quit_peer h packet)) _ (record s { writing = true })
          (ap (λ (items : List Item). each (quit_peer h packet) items (record s { writing = true }))
              e
            ∙ bind_deadlock (quit_peer h packet pp) _ (record s { writing = true })
                (deref_step _ pp peer _ m
                  ∙ (write_step _ peer.fd packet _ sent ∙ remove_member_waits _ pp refl)))
    where
      packet : List ℕ
      packet = header_bytes quit_type quit_len ++ take quit_len bytes
