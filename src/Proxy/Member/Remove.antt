-- ===== src/Proxy/Member/Remove.antt =====
-- remove_member(): what it takes away, and the lock that it keeps when the peer is not found.
use proxy_part.Prelude.{
  ℕ, ◌≡◌, refl, ◌∙◌, List, ◌∷◌, Option, none, some, true, false, Option-cases, inl, inr, ◌⊎◌,
}
use proxy_part.UtHash.{UtHash, Has, Lacks, remove}
use proxy_part.Proxy.{Peer, ret, deadlock, ◌>>◌, P, update, write_begin}
use proxy_part.Proxy.Steps.{
  write_begin_free, write_begin_held, bind_ret, begin_step, deref_step, find_step, del_step,
  end_step, free_step,
}
use proxy_part.Proxy.Member.{remove_member}
use proxy_part.Proxy.Member.Lists.{
  Distinct, Live, Has-Lacks, Has-listed, Distinct-remove, Live-remove, Lacks-removed,
}

module _ (h : UtHash) where
  -- The list has one element for each tap address, and each is a peer in memory.
  pub record IsValid (s : P h) : Type 0 where
    pub distinct : Distinct (h.items s.hash_table)
    pub live : Live s.memory (h.items s.hash_table)

  -- The peer is in the list, under its tap address.
  pub record IsMember (s : P h) (pp : ℕ) (peer : Peer) : Type 0 where
    pub here : s.memory pp ≡ some peer
    pub listed : Has peer.ls.tap_mac pp (h.items s.hash_table)

  -- What is left when `pp` has been removed.
  pub record Removed (s : P h) (pp : ℕ) (peer : Peer) (t : P h) : Type 0 where
    pub valid : IsValid t
    pub unlocked : t.writing ≡ false
    pub items : h.items t.hash_table ≡ remove pp (h.items s.hash_table)
    pub gone : Lacks peer.ls.tap_mac (h.items t.hash_table)
    pub freed : t.memory ≡ update s.memory pp none
    pub closed : t.closed ≡ peer.fd ∷ s.closed
    pub cancelled : t.cancelled ≡ peer.tid ∷ peer.timeout_tid ∷ s.cancelled
    pub written : t.written ≡ s.written

  found :
      (s : P h) (k : List ℕ) (pp : ℕ)
      → Has k pp (h.items s.hash_table)
      → (q : ℕ) × (h.find s.hash_table k ≡ some q)
  found s k pp has = elim (Option-cases (h.find s.hash_table k)) [
    | inl e ↦ absurd (Has-Lacks k pp (h.items s.hash_table) has (h.find_none s.hash_table k e))
    | inr f ↦ f
  ]

  -- When the lock is free, remove_member() of a peer in the list returns, with the lock free. It
  -- has taken exactly that peer out of a list that stays valid and no longer has its tap address,
  -- closed its descriptor, cancelled its timeout thread and then its own thread, and freed it and
  -- no other peer.
  pub remove_member-Removed :
      (s : P h) (pp : ℕ) (peer : Peer)
      → IsValid s
      → s.writing ≡ false
      → IsMember s pp peer
      → (t : P h) × (remove_member h (some pp) s ≡ ret tt t) × Removed s pp peer t
  unfolding remove_member
  remove_member-Removed s pp peer v w m =
      let (q, f) = found s peer.ls.tap_mac pp m.listed in
      let l = Has-listed peer.ls.tap_mac pp (h.items s.hash_table) m.listed in
      (
        record s {
          memory = update s.memory pp none;
          hash_table = h.del s.hash_table pp;
          writing = false;
          closed = peer.fd ∷ s.closed;
          cancelled = peer.tid ∷ peer.timeout_tid ∷ s.cancelled;
        },
        begin_step s _ w
            ∙ (deref_step _ pp peer _ m.here
                ∙ (find_step h _ peer.ls.tap_mac _ _ f
                    ∙ (find_step h _ peer.ls.tap_mac _ _ f
                        ∙ (del_step h _ pp _ l
                            ∙ (end_step _ _ refl ∙ free_step _ pp peer _ m.here))))),
        record {
          valid = record {
            distinct = rw h.items-del (Distinct-remove pp (h.items s.hash_table) v.distinct);
            live = rw h.items-del (Live-remove s.memory pp (h.items s.hash_table) v.live);
          };
          unlocked = refl;
          items = h.items-del s.hash_table pp;
          gone = rw h.items-del (
              Lacks-removed s.memory peer.ls.tap_mac pp (h.items s.hash_table) v.distinct v.live
                m.listed);
          freed = refl;
          closed = refl;
          cancelled = refl;
          written = refl;
        },
      )

  -- When the lock is free, remove_member() of NULL, or of a peer whose tap address is not in the
  -- list, changes nothing else but returns with the lock held: the thread's next writeBegin()
  -- waits for itself.
  pub remove_member_keeps_lock :
      (s : P h)
      → s.writing ≡ false
      → (pp : Option ℕ)
      → (pp ≡ none)
        ⊎ ((p : ℕ) × (peer : Peer) × (pp ≡ some p)
            × (s.memory p ≡ some peer)
            × (h.find s.hash_table peer.ls.tap_mac ≡ none))
      → (remove_member h pp s ≡ ret tt (record s { writing = true }))
        × ((remove_member h pp >> write_begin) s ≡ deadlock)
  unfolding remove_member
  remove_member_keeps_lock s w pp c =
      (kept c, bind_ret (remove_member h pp) _ s (kept c) ∙ write_begin_held _ refl)
    where
      kept :
          (pp ≡ none)
            ⊎ ((p : ℕ) × (peer : Peer) × (pp ≡ some p)
                × (s.memory p ≡ some peer)
                × (h.find s.hash_table peer.ls.tap_mac ≡ none))
          → remove_member h pp s ≡ ret tt (record s { writing = true })
      kept (inl e) = rw e (write_begin_free s w)
      kept (inr (p, peer, e, here, absent)) = rw e (
          begin_step s _ w
          ∙ (deref_step _ p peer _ here ∙ find_step h _ peer.ls.tap_mac _ _ absent))
