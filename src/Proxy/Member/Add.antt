-- ===== src/Proxy/Member/Add.antt =====
-- add_member(): the peer enters the list unless its tap address is there, and two threads start.
use proxy_part.Prelude.{
  ℕ, suc, ◌≡◌, ◌≢◌, refl, sym, ◌∙◌, List, [], ◌∷◌, ◌++◌, Option, none, some, true, false,
  Option-cases, inl, inr, arith,
}
use proxy_part.UtHash.{UtHash, Item}
use proxy_part.Proxy.{Peer, ret, P, update, timeout_handler, eth_handler}
use proxy_part.Proxy.Steps.{bind_ret, begin_step, deref_step, find_step, store_step, write_end_held}
use proxy_part.Proxy.Member.{add_member, add_if_absent}
use proxy_part.Proxy.Member.Lists.{Live, Distinct-append, Live-append, Live-update}
use proxy_part.Proxy.Member.Remove.{IsValid}

pub update_self : {A : Type 0} (f : ℕ → A) (p : ℕ) (v : A) → update f p v p ≡ v
update_self f p v = ground arith

pub update_other : {A : Type 0} (f : ℕ → A) (p q : ℕ) (v : A) → p ≢ q → update f p v q ≡ f q
update_other f p q v ne = ground arith

module _ (h : UtHash) where
  -- The peer as add_member() leaves it: the time of the call, and its two threads.
  abbrev pub stamped : P h → Peer → Peer
  stamped s peer = record peer {
    timestamp = s.clock s.ticks;
    timeout_tid = s.next_tid;
    tid = suc s.next_tid;
  }

  -- The memory after the first, the second and the third write to the peer.
  abbrev written₁ : P h → ℕ → Peer → ℕ → Option Peer
  written₁ s pp peer = update s.memory pp (some (record peer { timestamp = s.clock s.ticks }))

  abbrev written₂ : P h → ℕ → Peer → ℕ → Option Peer
  written₂ s pp peer =
      update (written₁ s pp peer) pp
        (some (record peer { timestamp = s.clock s.ticks; timeout_tid = s.next_tid }))

  abbrev written : P h → ℕ → Peer → ℕ → Option Peer
  written s pp peer = update (written₂ s pp peer) pp (some (stamped s peer))

  -- What add_member() of the peer at `pp` leaves.
  pub record Added (s : P h) (pp : ℕ) (peer : Peer) (t : P h) : Type 0 where
    pub valid : IsValid h t
    pub unlocked : t.writing ≡ false
    pub here : t.memory pp ≡ some (stamped s peer)
    pub others : (q : ℕ) → pp ≢ q → t.memory q ≡ s.memory q
    pub absent :
        h.find s.hash_table peer.ls.tap_mac ≡ none
        → h.items t.hash_table ≡ h.items s.hash_table ++ (peer.ls.tap_mac, pp) ∷ []
    pub present :
        (q : ℕ)
        → h.find s.hash_table peer.ls.tap_mac ≡ some q
        → h.items t.hash_table ≡ h.items s.hash_table
    pub threads :
        t.threads ≡ (suc s.next_tid, eth_handler pp) ∷ (s.next_tid, timeout_handler pp) ∷ s.threads
    pub files : t.files ≡ s.files
    pub room : t.next_address ≡ s.next_address
    pub readings : t.clock ≡ s.clock
    pub own : t.link_state ≡ s.link_state

  -- The final state, for the table that add_if_absent() leaves.
  abbrev final : P h → ℕ → Peer → h.Table → P h
  final s pp peer table = record s {
    memory = written s pp peer;
    hash_table = table;
    writing = false;
    next_tid = suc (suc s.next_tid);
    threads = (suc s.next_tid, eth_handler pp) ∷ (s.next_tid, timeout_handler pp) ∷ s.threads;
    ticks = suc s.ticks;
  }

  rest_of_add :
      (s : P h) (pp : ℕ) (peer : Peer) (table : h.Table) (o : Option ℕ)
      → s.writing ≡ false
      → s.memory pp ≡ some peer
      → h.find s.hash_table peer.ls.tap_mac ≡ o
      → add_if_absent h pp peer o (record s { writing = true })
        ≡ ret tt (record s { writing = true; hash_table = table })
      → add_member h pp s ≡ ret tt (final s pp peer table)
  unfolding add_member
  rest_of_add s pp peer table o w m f a =
      begin_step s _ w
      ∙ (deref_step _ pp peer _ m
          ∙ (find_step h _ peer.ls.tap_mac _ _ f
              ∙ (bind_ret (add_if_absent h pp peer o) _ _ a
                  ∙ (store_step _ pp peer _ _ m
                      ∙ (store_step _ pp _ _ _ (update_self s.memory pp _)
                          ∙ (store_step _ pp _ _ _ (update_self (written₁ s pp peer) pp _)
                              ∙ write_end_held _ refl))))))

  written-Live :
      (s : P h) (pp : ℕ) (peer : Peer) (items : List Item)
      → s.memory pp ≡ some peer
      → Live s.memory items
      → Live (written s pp peer) items
  written-Live s pp peer items m l =
      Live-update (written₂ s pp peer) pp _ _ items (update_self (written₁ s pp peer) pp _) refl (
        Live-update (written₁ s pp peer) pp _ _ items (update_self s.memory pp _) refl
          (Live-update s.memory pp peer _ items m refl l))

  written_others :
      (s : P h) (pp : ℕ) (peer : Peer) (q : ℕ) → pp ≢ q → written s pp peer q ≡ s.memory q
  written_others s pp peer q ne =
      update_other (written₂ s pp peer) pp q _ ne
      ∙ (update_other (written₁ s pp peer) pp q _ ne ∙ update_other s.memory pp q _ ne)

  -- When the lock is free and the list is valid, add_member() of a peer in memory returns, with
  -- the lock free and the list valid. The peer is at the end of the list if its tap address was
  -- not there, and otherwise the list is as it was; in either case the peer has the time of the
  -- call and is the one that two new threads are started on. Other peers are as they were.
  pub add_member-Added :
      (s : P h) (pp : ℕ) (peer : Peer)
      → IsValid h s
      → s.writing ≡ false
      → s.memory pp ≡ some peer
      → (t : P h) × (add_member h pp s ≡ ret tt t) × Added s pp peer t
  unfolding add_if_absent
  add_member-Added s pp peer v w m = elim (Option-cases (h.find s.hash_table peer.ls.tap_mac)) [
    | inl e ↦
        let table = h.add s.hash_table peer.ls.tap_mac pp in
        (
          final s pp peer table,
          rest_of_add s pp peer table none w m e refl,
          record {
            valid = record {
              distinct = rw h.items-add (
                  Distinct-append peer.ls.tap_mac pp (h.items s.hash_table) v.distinct
                    (h.find_none s.hash_table peer.ls.tap_mac e));
              live = rw h.items-add (
                  Live-append (written s pp peer) pp (stamped s peer) (h.items s.hash_table)
                    (written-Live s pp peer (h.items s.hash_table) m v.live)
                    (update_self (written₂ s pp peer) pp _));
            };
            unlocked = refl;
            here = update_self (written₂ s pp peer) pp _;
            others = written_others s pp peer;
            absent = λ _. h.items-add s.hash_table peer.ls.tap_mac pp;
            present = λ q f. absurd (none-ne-some q (sym e ∙ f));
            threads = refl;
            files = refl;
            room = refl;
            readings = refl;
            own = refl;
          },
        )
    | inr (q, e) ↦ (
      final s pp peer s.hash_table,
      rest_of_add s pp peer s.hash_table (some q) w m e refl,
      record {
        valid = record {
          distinct = v.distinct;
          live = written-Live s pp peer (h.items s.hash_table) m v.live;
        };
        unlocked = refl;
        here = update_self (written₂ s pp peer) pp _;
        others = written_others s pp peer;
        absent = λ f. absurd (none-ne-some q (sym f ∙ e));
        present = λ q' f. refl;
        threads = refl;
        files = refl;
        room = refl;
        readings = refl;
        own = refl;
      },
    )
  ]
    where
      none-ne-some : (q : ℕ) → ◌≡◌ {A = Option ℕ} none (some q) → ⊥
      none-ne-some q f = cc
