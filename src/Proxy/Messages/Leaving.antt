-- ===== src/Proxy/Messages/Leaving.antt =====
-- The leave packet, from leave_handler() of the proxy that stops to Leave() of another.
use proxy_part.Prelude.{
  ℕ, ◌≡◌, ◌≢◌, refl, sym, ap, ◌∙◌, List, [], ◌∷◌, Option, none, some, false, Option-cases, inl, inr,
  arith, ◌⊎◌, ℤ, pos,
}
use proxy_part.Wire.{LinkState, Time, link_state_at, leave_bytes, leave_packet_bytes}
use proxy_part.Wire.Packets
use proxy_part.Wire.Packets.{leave_bytes_mac}
use proxy_part.UtHash.{UtHash, Item, Has, Lacks}
use proxy_part.Proxy.{Peer, ret, exit, P, update, fd_write, hash_iter}
use proxy_part.Proxy.Steps.{bind_ret, read_begin_step, deref_step, find_step, del_step, free_done}
use proxy_part.Proxy.Safe.{Safe, returns, exits, Safe-eq, Safe-bind, fd_write-Wrote, each-Safe}
use proxy_part.Proxy.Member.{remove_member}
use proxy_part.Proxy.Member.Lists.{
  Distinct, Live, Has-listed, Distinct-remove, Live-remove, Has-unique, Has-Lacks, remove-head,
}
use proxy_part.Proxy.Member.Add.{update_other}
use proxy_part.Proxy.Member.Remove.{IsValid, IsMember, Removed, remove_member-Removed}
use proxy_part.Proxy.Messages.{leave, leave_peer, leave_handler}

module _ (h : UtHash) where
  -- When a proxy with link state `ls` has sent its leave packet, and the receiver has a valid list
  -- with a free lock and knows the sender by its tap address, then Leave() on the packet's payload
  -- returns 0 and has removed exactly that peer.
  pub leave-Removed :
      (s : P h) (pp : ℕ) (peer : Peer) (ls : LinkState) (id : Time) (n : ℕ)
      → IsValid h s
      → s.writing ≡ false
      → IsMember h s pp peer
      → Packets.Fits ls
      → peer.ls.tap_mac ≡ ls.tap_mac
      → (t : P h) × (leave h (leave_bytes ls id) n s ≡ ret (pos 0) t) × Removed h s pp peer t
  unfolding leave
  leave-Removed s pp peer ls id n v w m f e =
      let (t, run, r) = remove_member-Removed h s pp peer v w m in
      (
        t,
        read_begin_step s _ w
            ∙ (find_step h s _ (some pp) _ (ap (λ k. h.find s.hash_table k) key ∙ at_key)
                ∙ bind_ret (remove_member h (some pp)) _ s run),
        r,
      )
    where
      key : (link_state_at (leave_bytes ls id)).tap_mac ≡ peer.ls.tap_mac
      key = (leave_bytes_mac ls id f).0 ∙ sym e

      at_key : h.find s.hash_table peer.ls.tap_mac ≡ some pp
      at_key = elim (Option-cases (h.find s.hash_table peer.ls.tap_mac)) [
        | inl none_there ↦ absurd (
            Has-Lacks peer.ls.tap_mac pp (h.items s.hash_table) m.listed
              (h.find_none s.hash_table peer.ls.tap_mac none_there))
        | inr (q, there) ↦
            there
            ∙ ap some (
                Has-unique peer.ls.tap_mac q pp (h.items s.hash_table) v.distinct
                  (h.find_some s.hash_table peer.ls.tap_mac q there) m.listed)
      ]

  -- Leave() of a message that names no member changes nothing.
  pub leave_stranger :
      (s : P h) (bytes : List ℕ) (n : ℕ)
      → s.writing ≡ false
      → h.find s.hash_table (link_state_at bytes).tap_mac ≡ none
      → leave h bytes n s ≡ ret (pos 0) s
  unfolding leave
  leave_stranger s bytes n w e = read_begin_step s _ w ∙ find_step h s _ none _ e

  -- The descriptor of the peer at an address.
  abbrev pub fd_of : (ℕ → Option Peer) → ℕ → ℕ
  fd_of m p = elim (m p) [ none ↦ 0 | some peer ↦ peer.fd ]

  -- The log when the packet has gone to the items in turn.
  abbrev pub log_after :
      List ℕ → (ℕ → Option Peer) → List Item → List (ℕ × List ℕ) → List (ℕ × List ℕ)
  log_after packet m [] log = log
  log_after packet m ((k, p) ∷ items) log = log_after packet m items ((fd_of m p, packet) ∷ log)

  -- The loop of leave_handler() that began in `s₀`: `todo` is what the table still holds.
  record Leaves (packet : List ℕ) (s₀ : P h) (todo : List Item) (s : P h) : Type 0 where
    valid : IsValid h s
    items : h.items s.hash_table ≡ todo
    log :
        log_after packet s.memory todo s.written
        ≡ log_after packet s₀.memory (h.items s₀.hash_table) s₀.written
    kept :
        (k : List ℕ) (p : ℕ) → Has k p (h.items s₀.hash_table) → Has k p todo ⊎ (s.memory p ≡ none)

  -- Freeing a peer does not change what the log says of peers under other keys.
  log-free :
      (packet : List ℕ) (m : ℕ → Option Peer) (k : List ℕ) (pp : ℕ) (peer : Peer)
      (items : List Item) (log : List (ℕ × List ℕ))
      → m pp ≡ some peer
      → peer.ls.tap_mac ≡ k
      → Lacks k items
      → Live m items
      → log_after packet (update m pp none) items log ≡ log_after packet m items log
  log-free packet m k pp peer [] log e f lacks l = refl
  log-free packet m k pp peer ((j, q) ∷ items) log e f lacks l =
      log-free packet m k pp peer items _ e f lacks.1 l.1
      ∙ ap (λ fd. log_after packet m items ((fd, packet) ∷ log)) same_fd
    where
      other : pp ≢ q
      other same = let (b, mb, kb) = l.0 in let mp : m pp ≡ some b = rw same mb in lacks.0 (cc)

      same_fd : fd_of (update m pp none) q ≡ fd_of m q
      same_fd =
          ap {B = ℕ} (λ (o : Option Peer). elim o [ none ↦ 0 | some b ↦ b.fd ])
            (update_other m pp q none other)

  leave_peer-Leaves :
      {E : ℤ → P h → Type 0} (packet : List ℕ) (s₀ : P h) (k : List ℕ) (pp : ℕ) (rest : List Item)
      (s : P h)
      → Leaves packet s₀ ((k, pp) ∷ rest) s
      → Safe (λ _ t. Leaves packet s₀ rest t) E (leave_peer h packet pp s)
  unfolding leave_peer
  leave_peer-Leaves {E} packet s₀ k pp rest s i =
      let d : Distinct ((k, pp) ∷ rest) = rw i.items at i.valid.distinct in
      let l : Live s.memory ((k, pp) ∷ rest) = rw i.items at i.valid.live in
      let (peer, m, key) = l.0 in
      let listed = Has-listed k pp (h.items s.hash_table) (rw i.items (inl (refl, refl))) in
      Safe-eq (deref_step s pp peer _ m) (
        Safe-bind (fd_write peer.fd packet) _ _ (fd_write-Wrote peer.fd packet _) λ v t w.
          rw w.state (
            Safe-eq (del_step h _ pp _ listed ∙ free_done _ pp peer m) (
              returns (record {
                valid = record {
                  distinct =
                      rw h.items-del (Distinct-remove pp (h.items s.hash_table) i.valid.distinct);
                  live =
                      rw h.items-del (Live-remove s.memory pp (h.items s.hash_table) i.valid.live);
                };
                items = rw (h.items-del, i.items) (remove-head s.memory k pp rest d l);
                log =
                    log-free packet s.memory k pp peer rest _ m key d.0 l.1
                    ∙ (ap (λ fd. log_after packet s.memory rest ((fd, packet) ∷ s.written)) (fd m)
                        ∙ i.log);
                kept = λ k' p has. kept (i.kept k' p has);
              }))))
    where
      fd : {peer : Peer} → s.memory pp ≡ some peer → peer.fd ≡ fd_of s.memory pp
      fd m = rw (m, fd_of)

      kept :
          {k' : List ℕ} {p : ℕ}
          → (((k' ≡ k) × (p ≡ pp)) ⊎ Has k' p rest) ⊎ (s.memory p ≡ none)
          → Has k' p rest ⊎ (update s.memory pp none p ≡ none)
      kept (inl (inl e)) = inr (ground arith)
      kept (inl (inr has)) = inl has
      kept (inr e) = inr (ground arith)

  -- How the process ends.
  pub record Left (s : P h) (v : ℤ) (t : P h) : Type 0 where
    pub status : v ≡ pos 0
    pub empty : h.items t.hash_table ≡ []
    pub sent :
        t.written
        ≡ log_after
            (leave_packet_bytes s.link_state s.timestamp)
            s.memory
            (h.items s.hash_table)
            s.written
    pub freed : (k : List ℕ) (p : ℕ) → Has k p (h.items s.hash_table) → t.memory p ≡ none

  -- From a valid list, and whatever the peers' descriptors do, leave_handler() does not fault. If
  -- all its writes end, the process exits with status 0, after one write of the leave packet with
  -- the local link state to the descriptor of each member, in the order of the list; the list is
  -- then empty and every member freed.
  pub leave_handler-Left : (s : P h) → IsValid h s → Safe (λ _ t. ⊥) (Left s) (leave_handler h s)
  unfolding leave_handler hash_iter
  leave_handler-Left s v =
      let packet = leave_packet_bytes s.link_state s.timestamp in
      Safe-bind (hash_iter h (leave_peer h packet)) (λ _. exit (pos 0)) s
        (each-Safe (Leaves packet s) (leave_peer h packet)
          (λ k p rest t i. leave_peer-Leaves packet s k p rest t i) (h.items s.hash_table) s
          (record { valid = v; items = refl; log = refl; kept = λ k p has. inl has }))
        λ a t i. exits (record {
          status = refl;
          empty = i.items;
          sent = i.log;
          freed = λ k p has. gone (i.kept k p has);
        })
    where
      gone : {o : Option Peer} → ⊥ ⊎ (o ≡ none) → o ≡ none
      gone (inl e) = absurd e
      gone (inr e) = e
