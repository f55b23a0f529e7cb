-- ===== src/Proxy/Records/Unknown.antt =====
-- connectbyaddr() and Link_State() on a packet that names a peer which is not in the list.
use proxy_part.Prelude.{
  ℕ, suc, ◌+◌, ◌-◌, ◌*◌, ◌%◌, ◌^◌, ◌==◌, ◌≡◌, ◌∙◌, refl, List, ◌∷◌, some, none, true, false, not,
  drop, ap,
}
use proxy_part.Wire.{link_state_at, load16, htons, same_bytes, length_ok, sizeof_link_state_source}
use proxy_part.UtHash.{UtHash}
use proxy_part.Proxy.{Dial, P, M, ◌>>=◌, ret, fault, deadlock, read_begin, update}
use proxy_part.Proxy.Member.{add_member}
use proxy_part.Proxy.Steps.{
  bind_ret, bind_deadlock, begin_step, find_step, choose_call, dial_step, choose,
}
use proxy_part.Proxy.Join.{
  connectbyaddr, connected, is_zero, adopt_address, initial_join_client, new_peer,
}
use proxy_part.Proxy.Records.{
  record_mac, stamp_new, refresh_found, refresh_record, refresh_all, connect_if_absent,
  link_state_message,
}

bind_fault :
    {S A B : Type 0} (m : M S A) (f : A → M S B) (s : S) → m s ≡ fault → (m >>= f) s ≡ fault
bind_fault m f s e = rw (e, ◌>>=◌)

module _ (h : UtHash) where
  -- When socket() succeeds with a descriptor other than 0, connectbyaddr() returns NULL, closes
  -- nothing and does nothing else.
  pub connectbyaddr-none :
      (s : P h) (addr port : ℕ) (d : Dial) (ds : List Dial)
      → s.dials ≡ d ∷ ds
      → is_zero d.socket ≡ false
      → connectbyaddr h addr port s ≡ ret none (record s { dials = ds })
  unfolding connectbyaddr
  connectbyaddr-none s addr port d ds e z =
      dial_step s d ds _ e ∙ choose_call (not (is_zero d.socket)) {c = true} _ _ _ (ap not z)

  -- A packet with the right length, a known source and records.
  pub record Begins (s : P h) (bytes : List ℕ) (length : ℕ) : Type 0 where
    pub right : length_ok (htons (load16 bytes)) length ≡ true
    pub foreign : same_bytes (link_state_at (drop 2 bytes)).tap_mac s.link_state.tap_mac ≡ false
    pub unlocked : s.writing ≡ false

  all_fault :
      (n : ℕ) (t : P h) (rest : List ℕ)
      → refresh_record h rest t ≡ fault
      → refresh_all h (suc n) rest t ≡ fault
  unfolding refresh_all
  all_fault n t rest f = bind_fault (refresh_record h rest) _ t f

  -- To connect to the proxy of a record gives NULL.
  record_fault :
      (t : P h) (bytes : List ℕ) (d : Dial) (ds : List Dial)
      → same_bytes (record_mac bytes) t.link_state.tap_mac ≡ false
      → h.find t.hash_table (record_mac bytes) ≡ none
      → t.dials ≡ d ∷ ds
      → is_zero d.socket ≡ false
      → refresh_record h bytes t ≡ fault
  unfolding refresh_record refresh_found stamp_new
  record_fault t bytes d ds other absent e z =
      choose (same_bytes (record_mac bytes) t.link_state.tap_mac) _ _ other
      ∙ (find_step h t (record_mac bytes) none _ absent
          ∙ bind_ret
              (connectbyaddr h (link_state_at bytes).ip_addr
                (htons (link_state_at bytes).listen_port))
              _ t (connectbyaddr-none t _ _ d ds e z))

  -- When the lock is free, the length right, the source another proxy that is in the list, the
  -- first record stands for a proxy that is neither this one nor in the list, and socket() succeeds
  -- with a descriptor other than 0, Link_State() writes to NULL.
  pub link_state_message_fault :
      (s : P h) (bytes : List ℕ) (length n q : ℕ) (d : Dial) (ds : List Dial)
      → Begins s bytes length
      → h.find s.hash_table (link_state_at (drop 2 bytes)).tap_mac ≡ some q
      → (htons (load16 bytes) * htons (load16 bytes) + htons (load16 bytes)) % 2 ^ 16 ≡ suc n
      → same_bytes (record_mac (drop (2 + sizeof_link_state_source) bytes)) s.link_state.tap_mac
        ≡ false
      → h.find s.hash_table (record_mac (drop (2 + sizeof_link_state_source) bytes)) ≡ none
      → s.dials ≡ d ∷ ds
      → is_zero d.socket ≡ false
      → link_state_message h bytes length s ≡ fault
  unfolding link_state_message connect_if_absent
  link_state_message_fault s bytes length n q d ds b known count other absent e z =
      let s₁ = record s { writing = true } in
      let first = drop (2 + sizeof_link_state_source) bytes in
      choose (not (length_ok (htons (load16 bytes)) length)) {c = false} _ _ (ap not b.right)
      ∙ (choose (same_bytes (link_state_at (drop 2 bytes)).tap_mac s.link_state.tap_mac) _ _
            b.foreign
          ∙ (begin_step s _ b.unlocked
              ∙ (find_step h s₁ (link_state_at (drop 2 bytes)).tap_mac _ _ known
                  ∙ bind_fault
                      (refresh_all h
                        ((htons (load16 bytes) * htons (load16 bytes) + htons (load16 bytes))
                          % 2 ^ 16)
                        first)
                      _ s₁
                      (rw count
                        (all_fault n s₁ first (record_fault s₁ first d ds other absent e z))))))

  join_deadlock : (t : P h) (pp : ℕ) → t.writing ≡ true → initial_join_client h pp t ≡ deadlock
  unfolding initial_join_client read_begin
  join_deadlock t pp w = bind_deadlock read_begin _ t (choose t.writing _ _ w)

  -- When the lock is free, the length right, the source another proxy that is not in the list, and
  -- socket() succeeds with descriptor 0 and the connection is made, Link_State() waits for ever for
  -- the membership lock that it holds itself.
  pub link_state_message_deadlock :
      (s : P h) (bytes : List ℕ) (length : ℕ) (d : Dial) (ds : List Dial)
      → Begins s bytes length
      → h.find s.hash_table (link_state_at (drop 2 bytes)).tap_mac ≡ none
      → s.dials ≡ d ∷ ds
      → is_zero d.socket ≡ true
      → d.setsockopt ≡ true
      → d.connect ≡ true
      → (s.link_state.ip_addr == 2 ^ 32 - 1) ≡ false
      → link_state_message h bytes length s ≡ deadlock
  unfolding link_state_message connect_if_absent connectbyaddr connected adopt_address
  link_state_message_deadlock s bytes length d ds b absent e z ok on known =
      let s₁ = record s { writing = true } in
      let s₂ = record s₁ { dials = ds } in
      let s₃ = record s₂ {
        memory = update s.memory s.next_address (some (new_peer h 0));
        next_address = suc s.next_address;
      } in
      let source = link_state_at (drop 2 bytes) in
      choose (not (length_ok (htons (load16 bytes)) length)) {c = false} _ _ (ap not b.right)
      ∙ (choose (same_bytes source.tap_mac s.link_state.tap_mac) _ _ b.foreign
          ∙ (begin_step s _ b.unlocked
              ∙ (find_step h s₁ source.tap_mac _ _ absent
                  ∙ bind_deadlock (connect_if_absent h source none) _ s₁ (
                      bind_deadlock (connectbyaddr h source.ip_addr (htons source.listen_port)) _ s₁
                        (dial_step s₁ d ds _ e
                          ∙ (choose_call (not (is_zero d.socket)) {c = false} _ _ s₂ (ap not z)
                              ∙ (choose_call (not d.setsockopt) {c = false} _ _ s₂ (ap not ok)
                                  ∙ (choose_call (not d.connect) {c = false} _ _ s₂ (ap not on)
                                      ∙ (bind_ret (adopt_address h source.ip_addr d.getsockname) _
                                            s₂
                                            (choose (s.link_state.ip_addr == 2 ^ 32 - 1) _ _ known)
                                          ∙ bind_deadlock
                                              (initial_join_client h s.next_address >>= λ _.
                                                add_member h s.next_address)
                                              _ s₃
                                              (bind_deadlock (initial_join_client h s.next_address)
                                                _ s₃
                                                (join_deadlock s₃ s.next_address refl)))))))))))
