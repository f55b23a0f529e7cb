-- ===== src/Proxy/Startup/Entering.antt =====
-- The calls on a new peer, until it is in the list.
use proxy_part.Prelude.{
  subst, ℕ, suc, ◌≡◌, inl, inr, refl, sym, ◌∙◌, ap, List, ◌++◌, some, Bool, true, false, not, ◌==◌,
  ◌∷◌, [], arith, ℤ, Option-cases, length,
}
use proxy_part.Rio.{Rio, done, Kernel, Outcome, Received, rio_readnb, overwrite}
use proxy_part.Rio.Ends.{Ends, ends, waits}
use proxy_part.Rio.Fill
use proxy_part.Rio.Stream.{Reads, rio_readnb-Reads}
use proxy_part.Wire.{LinkState, parse_header, link_state_type, htons}
use proxy_part.Wire.Packets.{Fits}
use proxy_part.Wire.Typed.{AllBytes, Addressed, append-AllBytes, split-AllBytes}
use proxy_part.Proxy.Join.Typed.{IsPacket, joined-Fits, join_packet-IsPacket, overwrite-IsPacket}
use proxy_part.Proxy.Broadcast.Members.{TimeFits}
use proxy_part.UtHash.{UtHash, Item}
use proxy_part.Proxy.{P, pure, ◌>>=◌, update, fd_write, peer_read}
use proxy_part.Proxy.Safe.{
  Safe, returns, pending, Safe-eq, Safe-bind, Safe-choose, Safe-map, fd_write-Wrote,
}
use proxy_part.Proxy.Steps.{read_begin_step, count_step, deref_step, store_step}
use proxy_part.Proxy.Member.{add_member}
use proxy_part.Proxy.Member.Add.{update_self, update_other, add_member-Added}
use proxy_part.Proxy.Member.Remove
use proxy_part.Proxy.Join.{
  new_peer, sizeof_join_packet, join_packet, joined, is_zero, take_link_state, after_read,
  after_write, initial_join_client, answer_join, initial_join_server,
}
use proxy_part.Proxy.Startup.Ready.{
  Arrives, PeersFit-update, PeersFit-change, Ready, Entering, Entered, stored-Entering, fit-update,
  Live-store, unlisted,
}

-- A read hands over bytes, and leaves bytes.
read_bytes :
    (bytes : List ℕ) (rp rp' : Rio) (k k' : Kernel)
    → bytes ++ Fill.stream rp' k' ≡ Fill.stream rp k
    → AllBytes (Fill.pending rp)
    → AllBytes (Fill.arriving k.reads)
    → AllBytes bytes × AllBytes (Fill.pending rp') × AllBytes (Fill.arriving k'.reads)
read_bytes bytes rp rp' k k' same unread coming =
    let all =
      subst AllBytes (sym same)
        (append-AllBytes (Fill.pending rp) (Fill.arriving k.reads) unread coming) in
    let (a, b) = split-AllBytes bytes (Fill.stream rp' k') all in
    let (c, d) = split-AllBytes (Fill.pending rp') (Fill.arriving k'.reads) b in (a, c, d)

module _ (h : UtHash) (items : List Item) (pp : ℕ) where
  -- malloc() of the new peer.
  pub malloc-Entering :
      (s : P h) (fd : ℕ)
      → Ready h s
      → h.items s.hash_table ≡ items
      → s.next_address ≡ pp
      → Entering h items pp (record s {
        memory = update s.memory s.next_address (some (new_peer h fd));
        next_address = suc s.next_address;
      })
  malloc-Entering s fd r e at =
      let out =
        unlisted s.memory s.next_address (h.items s.hash_table)
          (r.room s.next_address (omega arith)) r.live in
      record {
        ready = record {
          distinct = r.distinct;
          live = Live-store s.memory s.next_address _ (h.items s.hash_table) out r.live;
          unlocked = r.unlocked;
          room = λ a le.
              update_other s.memory s.next_address a _ (λ q. omega arith) ∙ r.room a (omega arith);
          typed = PeersFit-update s.memory s.next_address (new_peer h fd) r.typed new-Fits;
          fit = r.fit;
          clock = r.clock;
          own = r.own;
        };
        same = e;
        outside = rw at at out;
        below = omega arith;
        peer = new_peer h fd;
        here =
            ap (λ q. update s.memory s.next_address (some (new_peer h fd)) q) (sym at)
            ∙ update_self s.memory s.next_address _;
        buffer = Fill.fresh-IsValid;
        unread = rw Fill.fresh-pending tt;
      }
    where
      new-Fits : Fits (new_peer h fd).ls × TimeFits (new_peer h fd).timestamp
      new-Fits = (
        record { address = omega arith; port = omega arith; tap = refl; eth = refl },
        record { seconds = omega arith; nanoseconds = omega arith },
      )

  -- Only a descriptor changes.
  files-Entering :
      (s : P h) (files : ℕ → Kernel)
      → Entering h items pp s
      → ((fd : ℕ) → Arrives (files fd).reads)
      → Entering h items pp (record s { files = files })
  files-Entering s files e f = record {
    ready = record {
      distinct = e.ready.distinct;
      live = e.ready.live;
      unlocked = e.ready.unlocked;
      room = e.ready.room;
      typed = e.ready.typed;
      fit = f;
      clock = e.ready.clock;
      own = e.ready.own;
    };
    same = e.same;
    outside = e.outside;
    below = e.below;
    peer = e.peer;
    here = e.here;
    buffer = e.buffer;
    unread = e.unread;
  }

  write-Entering :
      {E : ℤ → P h → Type 0} (s : P h) (fd : ℕ) (bytes : List ℕ)
      → Entering h items pp s
      → Safe (λ _ t. Entering h items pp t) E (fd_write fd bytes s)
  write-Entering s fd bytes e =
      Safe-map (fd_write-Wrote fd bytes s)
        (λ v t w. rw (w.state) (
          files-Entering s (update s.files fd w.kernel) e (
            fit-update s.files fd w.kernel e.ready.fit
              (rw (w.writes.sends.reads) (e.ready.fit fd)))))
        (λ v t x. x)

  read-Entering :
      {E : ℤ → P h → Type 0} (s : P h) (n : ℕ)
      → Entering h items pp s
      → Safe (λ r t. Entering h items pp t × AllBytes r.1) E (peer_read pp n s)
  unfolding peer_read
  read-Entering {E} s n e =
      go (rio_readnb e.peer.rio kernel n) refl
        (rio_readnb-Reads e.peer.rio kernel n e.buffer (e.ready.fit e.peer.fd).0)
    where
      kernel : Kernel
      kernel = record (s.files e.peer.fd) { errno = s.errno }

      go :
          (o : Outcome Received)
          → rio_readnb e.peer.rio kernel n ≡ o
          → Ends (Reads n (Fill.stream e.peer.rio kernel) kernel) o
          → Safe (λ r t. Entering h items pp t × AllBytes r.1) E (peer_read pp n s)
      go (done (v, bytes, rp, k)) q (ends w) =
          let (stored, unread, coming) =
            read_bytes bytes e.peer.rio rp kernel k w.same e.unread (e.ready.fit e.peer.fd).1 in
          rw (e.here, q, peer_read)
            (returns (
              stored-Entering h items pp s _ _ e w.valid unread (e.ready.typed pp e.peer e.here)
                  (fit-update s.files e.peer.fd _ e.ready.fit (w.fits, coming)),
              stored,
            ))
      go o q waits = rw (e.here, q, peer_read) pending

  join-Entering :
      {E : ℤ → P h → Type 0} (s : P h) (packet : List ℕ)
      → IsPacket packet
      → Entering h items pp s
      → Safe (λ _ t. Entering h items pp t) E (take_link_state pp packet s)
  unfolding take_link_state
  join-Entering s packet p e =
      Safe-choose (not ((parse_header packet).0 == link_state_type)) (pure false) _ s
        (λ q. returns e)
        λ q. Safe-eq (deref_step s pp e.peer _ e.here ∙ store_step s pp e.peer _ _ e.here) (
          returns (
            stored-Entering h items pp s (record e.peer { ls = joined packet }) s.files e e.buffer
              e.unread (joined-Fits packet p, (e.ready.typed pp e.peer e.here).1) e.ready.fit))

  after_read-Entering :
      {E : ℤ → P h → Type 0} (s : P h) (pkt : List ℕ) (r : ℤ × List ℕ)
      → IsPacket pkt
      → AllBytes r.1
      → Entering h items pp s
      → Safe (λ _ t. Entering h items pp t) E (after_read pp pkt r s)
  unfolding after_read
  after_read-Entering s pkt (size, bytes) p b e =
      Safe-choose (is_zero size) (pure false) (take_link_state pp (overwrite bytes pkt)) s
        (λ q. returns e)
        (λ q. join-Entering s (overwrite bytes pkt) (overwrite-IsPacket bytes pkt b p) e)

  after_write-Entering :
      {E : ℤ → P h → Type 0} (s : P h) (pkt : List ℕ) (size : ℤ)
      → IsPacket pkt
      → Entering h items pp s
      → Safe (λ _ t. Entering h items pp t) E (after_write pp pkt size s)
  unfolding after_write
  after_write-Entering s pkt size p e =
      Safe-choose (is_zero size) (pure false)
        (peer_read pp sizeof_join_packet >>= after_read pp pkt) s (λ q. returns e)
        λ q.
          Safe-bind (peer_read pp sizeof_join_packet) (after_read pp pkt) s
            (read-Entering s sizeof_join_packet e) (λ r t f. after_read-Entering t pkt r p f.1 f.0)

  pub client-Entering :
      {E : ℤ → P h → Type 0} (s : P h)
      → Entering h items pp s
      → Safe (λ _ t. Entering h items pp t) E (initial_join_client h pp s)
  unfolding initial_join_client
  client-Entering s e =
      let packet = join_packet s.link_state (length (h.items s.hash_table)) in
      Safe-eq
        (read_begin_step s _ e.ready.unlocked
          ∙ (count_step h s _ ∙ deref_step s pp e.peer _ e.here))
        (Safe-bind (fd_write e.peer.fd packet) (after_write pp packet) s
          (write-Entering s e.peer.fd packet e)
          (λ v t f.
            after_write-Entering t packet v (join_packet-IsPacket s.link_state _ e.ready.own) f))

  answer-Entering :
      {E : ℤ → P h → Type 0} (s : P h) (joined : Bool)
      → Entering h items pp s
      → Safe (λ _ t. Entering h items pp t) E (answer_join h pp joined s)
  unfolding answer_join
  answer-Entering s false e = returns e
  answer-Entering s true e =
      let packet =
        join_packet (record s.link_state { listen_port = htons s.link_state.listen_port })
          (length (h.items s.hash_table)) in
      Safe-eq
        (read_begin_step s _ e.ready.unlocked
          ∙ (count_step h s _ ∙ deref_step s pp e.peer _ e.here))
        (Safe-bind (fd_write e.peer.fd packet) (λ v. pure (not (is_zero v))) s
          (write-Entering s e.peer.fd packet e) (λ v t f. returns f))

  pub server-Entering :
      {E : ℤ → P h → Type 0} (s : P h) (pkt : List ℕ)
      → IsPacket pkt
      → Entering h items pp s
      → Safe (λ _ t. Entering h items pp t) E (initial_join_server h pp pkt s)
  unfolding initial_join_server
  server-Entering s pkt p e =
      Safe-bind (λ t. (peer_read pp sizeof_join_packet >>= after_read pp pkt) t) (answer_join h pp)
        s
        (Safe-bind (peer_read pp sizeof_join_packet) (after_read pp pkt) s
          (read-Entering s sizeof_join_packet e) (λ r t f. after_read-Entering t pkt r p f.1 f.0))
        (λ b t f. answer-Entering t b f)

  -- add_member() of the new peer.
  pub add-Entered :
      {E : ℤ → P h → Type 0} (s : P h)
      → Entering h items pp s
      → Safe (λ _ t. Entered h items pp t) E (add_member h pp s)
  add-Entered s e =
      let valid : Remove.IsValid h s = record {
        distinct = e.ready.distinct;
        live = e.ready.live;
      } in
      let (t, q, a) = add_member-Added h s pp e.peer valid e.ready.unlocked e.here in
      Safe-eq q (
        returns (record {
          ready = record {
            distinct = a.valid.distinct;
            live = a.valid.live;
            unlocked = a.unlocked;
            room = λ b le.
                a.others b (λ same. omega (arith, same, e.below, a.room))
                ∙ e.ready.room b (rw a.room at le);
            typed =
                PeersFit-change s.memory t.memory pp _ e.ready.typed a.others a.here
                  ((e.ready.typed pp e.peer e.here).0, e.ready.clock s.ticks);
            fit = λ fd. rw a.files (e.ready.fit fd);
            clock = λ n. rw a.readings (e.ready.clock n);
            own = subst (λ (l : LinkState). Addressed l.tap_mac l.eth_mac) (sym a.own) e.ready.own;
          };
          peer = _;
          here = a.here;
          grown = elim (Option-cases (h.find s.hash_table e.peer.ls.tap_mac)) [
            | inl none_there ↦
                inr (a.absent none_there ∙ ap (λ l. l ++ (e.peer.ls.tap_mac, pp) ∷ []) e.same)
            | inr (p, there) ↦ inl (a.present p there ∙ e.same)
          ];
        }))
