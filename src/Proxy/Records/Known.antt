-- ===== src/Proxy/Records/Known.antt =====
-- Link_State() on a packet whose records all stand for known peers.
use proxy_part.Prelude.{
  ℕ, zero, suc, ◌+◌, ◌*◌, ◌%◌, ◌^◌, ◌==◌, ◌≡◌, ◌∙◌, refl, sym, ◌⊎◌, inl, inr, List, Option, some,
  none, Bool, true, false, not, if◌then◌else◌, pos, drop, Bool-cases, ap, ==_iff, subst,
}
use proxy_part.Wire.{
  Time, link_state_at, time_at, load16, htons, same_bytes, length_ok, sizeof_link_state_source,
  sizeof_link_state_record,
}
use proxy_part.UtHash.{UtHash}
use proxy_part.Proxy.{Peer, P, ret, update}
use proxy_part.Proxy.Steps.{
  bind_ret, begin_step, find_step, deref_step, end_step, choose, store_last,
}
use proxy_part.Proxy.Member.Lists.{Has-Live, Live-update}
use proxy_part.Proxy.Member.Remove.{IsValid}
use proxy_part.Proxy.Records.{
  record_mac, refresh_found, refresh_record, refresh_all, connect_if_absent, link_state_message,
}

module _ (h : UtHash) where
  -- The peer that a record stands for: none if it is this proxy.
  abbrev pub named : P h → List ℕ → Option ℕ
  named s bytes =
      if same_bytes (record_mac bytes) s.link_state.tap_mac
      then none
      else h.find s.hash_table (record_mac bytes)

  -- The `n` records stand for this proxy or for peers in the list.
  abbrev pub Known : P h → ℕ → List ℕ → Type 0
  Known s zero bytes = Unit {0}
  Known s (suc n) bytes =
      ((same_bytes (record_mac bytes) s.link_state.tap_mac ≡ true)
        ⊎ ((same_bytes (record_mac bytes) s.link_state.tap_mac ≡ false)
            × (q : ℕ) × (h.find s.hash_table (record_mac bytes) ≡ some q)))
      × Known s n (drop sizeof_link_state_record bytes)

  abbrev pub stamp : Option ℕ → Time → ℕ → Time → Time
  stamp none new q old = old
  stamp (some p) new q old = if p == q then new else old

  -- The time of the last of the records that stands for the peer at `q`, and `t` if none does.
  abbrev pub latest : P h → ℕ → List ℕ → ℕ → Time → Time
  latest s zero bytes q t = t
  latest s (suc n) bytes q t =
      latest s n (drop sizeof_link_state_record bytes) q (stamp (named s bytes) (time_at bytes) q t)

  restamped :
      (m : ℕ → Option Peer) (p q : ℕ) (old peer : Peer) (now : Time)
      → m p ≡ some old
      → m q ≡ some peer
      → update m p (some (record old { timestamp = now })) q
        ≡ some (record peer { timestamp = stamp (some p) now q peer.timestamp })
  restamped m p q old peer now mp mq = elim (Bool-cases (p == q)) [
    | inl e ↦
        rw e (ap (map λ x. record x { timestamp = now }) (sym mp ∙ (ap m ((==_iff p q).0 e) ∙ mq)))
    | inr e ↦ rw e mq
  ]
    where
      map : (Peer → Peer) → Option Peer → Option Peer
      map f none = none
      map f (some x) = some (f x)

  -- A write does not allocate.
  still_empty :
      (m : ℕ → Option Peer) (p q : ℕ) (old new : Peer)
      → m p ≡ some old
      → m q ≡ none
      → update m p (some new) q ≡ none
  still_empty m p q old new mp mq = elim (Bool-cases (p == q)) [
    | inl e ↦ absurd (let same = (==_iff p q).0 e in cc)
    | inr e ↦ rw e mq
  ]

  -- Only timestamps have changed, as `time` says.
  pub record Refreshed (s : P h) (time : ℕ → Time → Time) (t : P h) : Type 0 where
    pub memory : ℕ → Option Peer
    pub state : t ≡ record s { memory = memory }
    pub valid : IsValid h t
    pub peers :
        (q : ℕ) (peer : Peer)
        → s.memory q ≡ some peer
        → t.memory q ≡ some (record peer { timestamp = time q peer.timestamp })
    pub empty : (q : ℕ) → s.memory q ≡ none → t.memory q ≡ none

  refresh_record-Refreshed :
      (s : P h) (bytes : List ℕ)
      → IsValid h s
      → Known s 1 bytes
      → (t : P h) × (refresh_record h bytes s ≡ ret tt t)
        × Refreshed s (stamp (named s bytes) (time_at bytes)) t
  unfolding refresh_record refresh_found
  refresh_record-Refreshed s bytes v (inl e, u) = (
    s,
    choose (same_bytes (record_mac bytes) s.link_state.tap_mac) _ _ e,
    record {
      memory = s.memory;
      state = refl;
      valid = v;
      peers = λ q peer m. rw e m;
      empty = λ q m. m;
    },
  )
  refresh_record-Refreshed s bytes v (inr (e, p, f), u) =
      let (old, here, key) =
        Has-Live s.memory (record_mac bytes) p (h.items s.hash_table) v.live
          (h.find_some s.hash_table (record_mac bytes) p f) in
      (
        record s { memory = update s.memory p (some (record old { timestamp = time_at bytes })) },
        choose (same_bytes (record_mac bytes) s.link_state.tap_mac) _ _ e
            ∙ (find_step h s (record_mac bytes) (some p) _ f
                ∙ (deref_step s p old _ here ∙ store_last s p old _ here)),
        record {
          memory = _;
          state = refl;
          valid = record {
            distinct = v.distinct;
            live = Live-update s.memory p old _ (h.items s.hash_table) here refl v.live;
          };
          peers = λ q peer m. rw (e, f) (restamped s.memory p q old peer (time_at bytes) here m);
          empty = λ q m. still_empty s.memory p q old _ here m;
        },
      )

  -- What a record does not change of what later ones depend on.
  later-Known :
      (s : P h) (m : ℕ → Option Peer) (n : ℕ) (bytes : List ℕ)
      → Known s n bytes
      → Known (record s { memory = m }) n bytes
  later-Known s m zero bytes k = tt
  later-Known s m (suc n) bytes k =
      (k.0, later-Known s m n (drop sizeof_link_state_record bytes) k.1)

  locked-Known :
      (s : P h) (held : Bool) (n : ℕ) (bytes : List ℕ)
      → Known s n bytes
      → Known (record s { writing = held }) n bytes
  locked-Known s held zero bytes k = tt
  locked-Known s held (suc n) bytes k =
      (k.0, locked-Known s held n (drop sizeof_link_state_record bytes) k.1)

  locked-latest :
      (s : P h) (held : Bool) (n : ℕ) (bytes : List ℕ) (q : ℕ) (t : Time)
      → latest (record s { writing = held }) n bytes q t ≡ latest s n bytes q t
  locked-latest s held zero bytes q t = refl
  locked-latest s held (suc n) bytes q t =
      locked-latest s held n (drop sizeof_link_state_record bytes) q _

  same-latest :
      (s : P h) (m : ℕ → Option Peer) (n : ℕ) (bytes : List ℕ) (q : ℕ) (t : Time)
      → latest (record s { memory = m }) n bytes q t ≡ latest s n bytes q t
  same-latest s m zero bytes q t = refl
  same-latest s m (suc n) bytes q t = same-latest s m n (drop sizeof_link_state_record bytes) q _

  refresh_all-Refreshed :
      (n : ℕ) (s : P h) (bytes : List ℕ)
      → IsValid h s
      → Known s n bytes
      → (t : P h) × (refresh_all h n bytes s ≡ ret tt t) × Refreshed s (latest s n bytes) t
  unfolding refresh_all
  refresh_all-Refreshed zero s bytes v k = (
    s,
    refl,
    record { memory = s.memory; state = refl; valid = v; peers = λ q peer m. m; empty = λ q m. m },
  )
  refresh_all-Refreshed (suc n) s bytes v k =
      let (t, run, r) = refresh_record-Refreshed s bytes v (k.0, tt) in
      let rest = drop sizeof_link_state_record bytes in
      let (u, run', r') =
        refresh_all-Refreshed n t rest r.valid (rw r.state (later-Known s r.memory n rest k.1)) in
      (
        u,
        bind_ret (refresh_record h bytes) _ s run ∙ run',
        record {
          memory = r'.memory;
          state = rw r.state at r'.state;
          valid = r'.valid;
          peers = λ q peer m.
              r'.peers q _ (r.peers q peer m)
              ∙ ap (λ τ. some (record peer { timestamp = τ }))
                  (rw r.state (same-latest s r.memory n rest q _));
          empty = λ q m. r'.empty q (r.empty q m);
        },
      )

  -- When the lock has been given back.
  unlocked :
      (n : ℕ) (bytes : List ℕ) (s t : P h)
      → s.writing ≡ false
      → (r : Refreshed
          (record s { writing = true })
          (latest (record s { writing = true }) n bytes)
          t)
      → Refreshed s (latest s n bytes) (record s { memory = r.memory; writing = false })
  unlocked n bytes s t w r =
      let v : IsValid h (record s { memory = r.memory; writing = true }) =
        subst (λ x. IsValid h x) r.state r.valid in
      record {
        memory = r.memory;
        state = λ i. record s { memory = r.memory; writing = sym w i };
        valid = record { distinct = v.distinct; live = v.live };
        peers = λ q peer m.
            sym (ap (λ (x : P h). x.memory q) r.state)
            ∙ (r.peers q peer m
                ∙ ap (λ τ. some (record peer { timestamp = τ }))
                    (locked-latest s true n bytes q _));
        empty = λ q m. sym (ap (λ (x : P h). x.memory q) r.state) ∙ r.empty q m;
      }

  -- The number of the records in a packet.
  abbrev pub records : List ℕ → ℕ
  records bytes = (htons (load16 bytes) * htons (load16 bytes) + htons (load16 bytes)) % 2 ^ 16

  -- When the lock is free, the list valid, the length right, the source another proxy that is in
  -- the list, and every record stands for this proxy or for a peer in the list, Link_State() returns
  -- 0 with the lock free and the list as it was and valid. Each peer has the time of the last record
  -- that stands for it, or its old one if there is none, and is otherwise unchanged, as is all else.
  pub link_state_message-Refreshed :
      (s : P h) (bytes : List ℕ) (length q : ℕ)
      → IsValid h s
      → s.writing ≡ false
      → length_ok (htons (load16 bytes)) length ≡ true
      → same_bytes (link_state_at (drop 2 bytes)).tap_mac s.link_state.tap_mac ≡ false
      → h.find s.hash_table (link_state_at (drop 2 bytes)).tap_mac ≡ some q
      → Known s (records bytes) (drop (2 + sizeof_link_state_source) bytes)
      → (t : P h) × (link_state_message h bytes length s ≡ ret (pos 0) t)
        × Refreshed s (latest s (records bytes) (drop (2 + sizeof_link_state_source) bytes)) t
  unfolding link_state_message connect_if_absent
  link_state_message-Refreshed s bytes length q v w right foreign source known =
      let s₁ = record s { writing = true } in
      let first = drop (2 + sizeof_link_state_source) bytes in
      let v₁ : IsValid h s₁ = record { distinct = v.distinct; live = v.live } in
      let (t, run, r) =
        refresh_all-Refreshed (records bytes) s₁ first v₁
          (locked-Known s true (records bytes) first known) in
      (
        record s { memory = r.memory; writing = false },
        choose (not (length_ok (htons (load16 bytes)) length)) {c = false} _ _ (ap not right)
            ∙ (choose (same_bytes (link_state_at (drop 2 bytes)).tap_mac s.link_state.tap_mac) _ _
                  foreign
                ∙ (begin_step s _ w
                    ∙ (find_step h s₁ (link_state_at (drop 2 bytes)).tap_mac _ _ source
                        ∙ (bind_ret (refresh_all h (records bytes) first) _ s₁ run
                            ∙ (end_step t _ (ap (λ (x : P h). x.writing) r.state)
                                ∙ ap (λ (x : P h). ret (pos 0) (record x { writing = false }))
                                    r.state))))),
        unlocked (records bytes) first s t w r,
      )
