-- ===== src/Proxy/Join/Answer.antt =====
-- initial_join_server(): what it learns from a client's packet, and what it answers.
use proxy_part.Prelude.{
  ℕ, ◌≡◌, ◌∙◌, refl, ap, sym, List, ◌∷◌, some, true, false, not, ℤ, pos, length,
}
use proxy_part.Rio.{Rio, Kernel, done, rio_write, rio_readnb, overwrite}
use proxy_part.Wire.{LinkState}
use proxy_part.Wire.Packets.{Fits}
use proxy_part.UtHash.{UtHash}
use proxy_part.Proxy.{Peer, P, ret, pure, ◌>>=◌, peer_read, update}
use proxy_part.Proxy.Steps.{
  read_begin_step, count_step, deref_step, write_step, read_step, read_state, choose_call, bind_ret,
}
use proxy_part.Proxy.Member.Add.{update_self}
use proxy_part.Proxy.Join.{
  join_packet, sizeof_join_packet, is_zero, take_link_state, after_read, answer_join,
  initial_join_server,
}
use proxy_part.Proxy.Join.Exchange.{swapped, takes, overwrite_whole, packet_length, sent_state}

module _ (h : UtHash) where
  -- What the server sends: its link state with the port given to htons().
  abbrev pub answer : P h → List ℕ
  answer s = join_packet (swapped s.link_state) (length (h.items s.hash_table))

  -- The peer has the link state that it sent, with the port given to ntohs().
  abbrev pub told : P h → ℕ → Peer → LinkState → Rio → Kernel → P h
  told s pp peer ls rp k =
      let s₁ = read_state s pp peer rp k in
      record s₁ { memory = update s₁.memory pp (some (record peer { rio = rp; ls = swapped ls })) }

  -- The server has read the whole packet of a client with the link state `ls`, and written its own.
  pub record Answered (s : P h) (pp : ℕ) (peer : Peer) (ls : LinkState) (n : ℕ) (rp : Rio)
      (k : Kernel) (size : ℤ) (kernel : Kernel) : Type 0 where
    pub unlocked : s.writing ≡ false
    pub here : s.memory pp ≡ some peer
    pub read :
        rio_readnb peer.rio (record (s.files peer.fd) { errno = s.errno }) sizeof_join_packet
        ≡ done (pos sizeof_join_packet, join_packet ls n, rp, k)
    pub wrote : rio_write (record k { errno = k.errno }) (answer s) ≡ done (size, kernel)
    pub not_empty : is_zero size ≡ false

  server_takes :
      (s : P h) (pp : ℕ) (peer : Peer) (ls : LinkState) (n : ℕ) (rp : Rio) (k : Kernel)
      (pkt : List ℕ)
      → Fits ls
      → length pkt ≡ sizeof_join_packet
      → s.memory pp ≡ some peer
      → rio_readnb peer.rio (record (s.files peer.fd) { errno = s.errno }) sizeof_join_packet
        ≡ done (pos sizeof_join_packet, join_packet ls n, rp, k)
      → (peer_read pp sizeof_join_packet >>= after_read pp pkt) s
        ≡ ret true (told s pp peer ls rp k)
  unfolding after_read
  server_takes s pp peer ls n rp k pkt f size here read =
      let s₁ = read_state s pp peer rp k in
      read_step s pp sizeof_join_packet peer _ here read
      ∙ (choose_call (is_zero (pos sizeof_join_packet)) {c = false} (pure false)
            (take_link_state pp (overwrite (join_packet ls n) pkt)) s₁ refl
          ∙ (ap (λ p. take_link_state pp p s₁)
                (overwrite_whole (join_packet ls n) pkt (packet_length ls n f ∙ sym size))
              ∙ takes s₁ pp (record peer { rio = rp }) ls n (update_self s.memory pp _) f))

  -- A server that reads the whole packet of a client whose link state fits its C types, and whose
  -- write of the answer ends with a result other than 0, returns the peer, with the client's link
  -- state but the port's bytes swapped; it has written one packet, its own link state with the
  -- port's bytes swapped.
  pub initial_join_server-Joined :
      (s : P h) (pp : ℕ) (peer : Peer) (ls : LinkState) (n : ℕ) (rp : Rio) (k : Kernel) (size : ℤ)
      (kernel : Kernel) (pkt : List ℕ)
      → Fits ls
      → length pkt ≡ sizeof_join_packet
      → Answered s pp peer ls n rp k size kernel
      → (t : P h) × (initial_join_server h pp pkt s ≡ ret true t)
        × (t.memory pp ≡ some (record peer { rio = rp; ls = swapped ls }))
        × (t.hash_table ≡ s.hash_table)
        × (t.written ≡ (peer.fd, answer s) ∷ s.written)
  unfolding initial_join_server answer_join
  initial_join_server-Joined s pp peer ls n rp k size kernel pkt f whole x =
      let s₁ = told s pp peer ls rp k in
      let m = s₁.memory pp in
      let wrote : rio_write (record (s₁.files peer.fd) { errno = s₁.errno }) (answer s)
          ≡ done (size, kernel) =
        rw (update_self s.files peer.fd k) x.wrote in
      (
        _,
        bind_ret (λ t. (peer_read pp sizeof_join_packet >>= after_read pp pkt) t) _ s
              (server_takes s pp peer ls n rp k pkt f whole x.here x.read)
            ∙ (read_begin_step s₁ _ x.unlocked
                ∙ (count_step h s₁ _
                    ∙ (deref_step s₁ pp (record peer { rio = rp; ls = swapped ls }) _
                          (update_self (read_state s pp peer rp k).memory pp _)
                        ∙ (write_step s₁ peer.fd (answer s) _ wrote
                            ∙ ap (λ b. ret (not b) (sent_state h s₁ peer.fd (answer s) kernel))
                                x.not_empty)))),
        update_self (read_state s pp peer rp k).memory pp _,
        refl,
        refl,
      )
