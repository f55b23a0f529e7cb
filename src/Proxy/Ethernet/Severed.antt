-- ===== src/Proxy/Ethernet/Severed.antt =====
-- eth_handler() when a packet cannot be read or is refused.
use proxy_part.Prelude.{
  ℕ, ◌≡◌, ◌∙◌, refl, List, ◌∷◌, some, true, false, ℤ, is_positive, is_negative, arith,
}
use proxy_part.Rio.{overwrite, Rio, Kernel, done, rio_readnb}
use proxy_part.Wire.{parse_header, proxy_hlen}
use proxy_part.UtHash.{UtHash}
use proxy_part.Proxy.{Peer, P, M, ◌>>◌, ret, member}
use proxy_part.Proxy.Steps.{bind_ret, read_step, cancel_step, read_state, choose_call}
use proxy_part.Proxy.Member.{remove_member}
use proxy_part.Proxy.Member.Lists.{Live-update}
use proxy_part.Proxy.Member.Add.{update_self}
use proxy_part.Proxy.Member.Remove.{IsValid, IsMember, Removed, remove_member-Removed}
use proxy_part.Proxy.Ethernet.{
  Round, ended, dispatch, unless_cancelled, after_dispatch, after_payload, payload, after_header,
  eth_round,
}

module _ (h : UtHash) where
  -- The thread's peer is in a valid list whose lock is free, and the thread is not cancelled.
  pub record Serves (s : P h) (tid pp : ℕ) (peer : Peer) : Type 0 where
    pub valid : IsValid h s
    pub unlocked : s.writing ≡ false
    pub peer_in : IsMember h s pp peer
    pub own : peer.tid ≡ tid
    pub alive : member tid s.cancelled ≡ false

  -- A read changes nothing of that.
  pub read-Serves :
      (s : P h) (tid pp : ℕ) (peer : Peer) (rp : Rio) (k : Kernel)
      → Serves s tid pp peer
      → Serves (read_state s pp peer rp k) tid pp (record peer { rio = rp })
  read-Serves s tid pp peer rp k v = record {
    valid = record {
      distinct = v.valid.distinct;
      live = Live-update s.memory pp peer _ (h.items s.hash_table) v.peer_in.here refl v.valid.live;
    };
    unlocked = v.unlocked;
    peer_in = record { here = update_self s.memory pp _; listed = v.peer_in.listed };
    own = v.own;
    alive = v.alive;
  }

  first_member : (x y : ℕ) (xs : List ℕ) → x ≡ y → member y (x ∷ xs) ≡ true
  first_member x y xs e = ground arith

  -- remove_member() cancels the thread, so pthread_testcancel() ends it.
  removes_itself :
      (s : P h) (tid pp : ℕ) (peer : Peer) (rest : M (P h) Round)
      → Serves s tid pp peer
      → (t : P h) × ((remove_member h (some pp) >> unless_cancelled h tid rest) s ≡ ret ended t)
        × Removed h s pp peer t
  unfolding unless_cancelled
  removes_itself s tid pp peer rest v =
      let (t, e, r) = remove_member-Removed h s pp peer v.valid v.unlocked v.peer_in in
      (
        t,
        bind_ret (remove_member h (some pp)) _ s e
            ∙ cancel_step t tid true _ (
                rw (r.cancelled)
                  (first_member peer.tid tid (peer.timeout_tid ∷ s.cancelled) v.own)),
        r,
      )

  -- The reply to the read of a header or a payload at a state: what the peer's buffer and
  -- descriptor make of it.
  abbrev pub Replies : P h → Peer → ℕ → ℤ → List ℕ → Rio → Kernel → Type 0
  Replies s peer n v bytes rp k =
      rio_readnb peer.rio (record (s.files peer.fd) { errno = s.errno }) n ≡ done (v, bytes, rp, k)

  -- The thread has ended, and the peer is removed as remove_member() does it.
  abbrev pub Severed : P h → (tid pp : ℕ) → Peer → Type 0
  Severed s tid pp peer =
      (t : P h) × (eth_round h tid pp s ≡ ret ended t)
      × (u : P h) × (q : Peer) × (q.ls ≡ peer.ls)
      × (h.items u.hash_table ≡ h.items s.hash_table)
      × Removed h u pp q t

  -- When the read of the header ends at the end of the file or with an error, the round removes the
  -- thread's peer from the list and ends the thread.
  eth_round-Header :
      (s : P h) (tid pp : ℕ) (peer : Peer) (v : ℤ) (bytes : List ℕ) (rp : Rio) (k : Kernel)
      → Serves s tid pp peer
      → Replies s peer proxy_hlen v bytes rp k
      → is_positive v ≡ false
      → Severed s tid pp peer
  unfolding eth_round after_header unless_cancelled
  eth_round-Header s tid pp peer v bytes rp k ok e np =
      let s₁ = read_state s pp peer rp k in
      let peer₁ = record peer { rio = rp } in
      let ok₁ = read-Serves s tid pp peer rp k ok in
      let (t, run, r) = removes_itself s₁ tid pp peer₁ (payload h tid pp bytes) ok₁ in
      (
        t,
        read_step s pp proxy_hlen peer _ ok.peer_in.here e
            ∙ (not_positive ∙ (cancel_step s₁ tid false _ ok.alive ∙ run)),
        s₁,
        peer₁,
        refl,
        refl,
        r,
      )
    where
      not_positive :
          after_header h tid pp (v, bytes) (read_state s pp peer rp k)
          ≡ unless_cancelled h tid
              (remove_member h (some pp) >> unless_cancelled h tid (payload h tid pp bytes))
              (read_state s pp peer rp k)
      not_positive = rw np

  -- When a header has been read and the read of the payload ends at the end of the file or with an
  -- error, which it also does for a header whose length is 0, the round removes the thread's peer
  -- from the list and ends the thread.
  pub eth_round-Payload :
      (s : P h) (tid pp : ℕ) (peer : Peer) (n v : ℤ) (header bytes : List ℕ) (rp rp' : Rio)
      (k k' : Kernel)
      → Serves s tid pp peer
      → Replies s peer proxy_hlen n header rp k
      → is_positive n ≡ true
      → Replies
          (read_state s pp peer rp k)
          (record peer { rio = rp })
          (parse_header header).1
          v
          bytes
          rp'
          k'
      → is_positive v ≡ false
      → Severed s tid pp peer
  unfolding eth_round after_header unless_cancelled payload after_payload
  eth_round-Payload s tid pp peer n v header bytes rp rp' k k' ok e positive e' np =
      let s₁ = read_state s pp peer rp k in
      let peer₁ = record peer { rio = rp } in
      let ok₁ = read-Serves s tid pp peer rp k ok in
      let s₂ = read_state s₁ pp peer₁ rp' k' in
      let peer₂ = record peer₁ { rio = rp' } in
      let (t, run, r) = removes_itself s₂ tid pp peer₂ _ (read-Serves s₁ tid pp peer₁ rp' k' ok₁) in
      (
        t,
        read_step s pp proxy_hlen peer _ ok.peer_in.here e
            ∙ (choose_call (is_positive n) _ _ _ positive
                ∙ (cancel_step s₁ tid false _ ok.alive
                    ∙ (read_step s₁ pp (parse_header header).1 peer₁ _ ok₁.peer_in.here e'
                        ∙ (choose_call (is_positive v) _ _ _ np ∙ run)))),
        s₂,
        peer₂,
        refl,
        refl,
        r,
      )

  -- When a packet has been read and its handler returns a negative number and leaves the list as it
  -- was, the round removes the thread's peer from the list and ends the thread.
  eth_round-Refused :
      (s : P h) (tid pp : ℕ) (peer : Peer) (n v w : ℤ) (header bytes : List ℕ) (rp rp' : Rio)
      (k k' : Kernel)
      → Serves s tid pp peer
      → Replies s peer proxy_hlen n header rp k
      → is_positive n ≡ true
      → Replies
          (read_state s pp peer rp k)
          (record peer { rio = rp })
          (parse_header header).1
          v
          bytes
          rp'
          k'
      → is_positive v ≡ true
      → (let s₂ = read_state (read_state s pp peer rp k) pp (record peer { rio = rp }) rp' k' in
          dispatch h
            (parse_header header).0
            (overwrite bytes (s.raw_buffer (parse_header header).1))
            (parse_header header).1
            pp
            s₂
          ≡ ret w s₂)
      → is_negative w ≡ true
      → Severed s tid pp peer
  unfolding eth_round after_header unless_cancelled payload after_payload after_dispatch
  eth_round-Refused s tid pp peer n v w header bytes rp rp' k k' ok e positive e' positive' d neg =
      let s₁ = read_state s pp peer rp k in
      let peer₁ = record peer { rio = rp } in
      let ok₁ = read-Serves s tid pp peer rp k ok in
      let s₂ = read_state s₁ pp peer₁ rp' k' in
      let peer₂ = record peer₁ { rio = rp' } in
      let (t, run, r) = removes_itself s₂ tid pp peer₂ _ (read-Serves s₁ tid pp peer₁ rp' k' ok₁) in
      (
        t,
        read_step s pp proxy_hlen peer _ ok.peer_in.here e
            ∙ (choose_call (is_positive n) _ _ _ positive
                ∙ (cancel_step s₁ tid false _ ok.alive
                    ∙ (read_step s₁ pp (parse_header header).1 peer₁ _ ok₁.peer_in.here e'
                        ∙ (choose_call (is_positive v) _ _ _ positive'
                            ∙ (bind_ret
                                  (dispatch h (parse_header header).0
                                    (overwrite bytes (s.raw_buffer (parse_header header).1))
                                    (parse_header header).1 pp)
                                  _ s₂ d
                                ∙ (choose_call (is_negative w) _ _ _ neg ∙ run)))))),
        s₂,
        peer₂,
        refl,
        refl,
        r,
      )
