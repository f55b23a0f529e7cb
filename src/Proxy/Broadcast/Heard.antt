-- ===== src/Proxy/Broadcast/Heard.antt =====
-- A broadcast of one proxy as Link_State() of another takes it.
use proxy_part.Prelude.{
  ℕ, zero, suc, ◌+◌, ◌*◌, ◌≡◌, ◌≤◌, ◌⊎◌, inl, inr, refl, ap, sym, ◌∙◌, subst, List, [], ◌∷◌, ◌++◌,
  Option, some, none, true, false, ◌==◌, if◌then◌else◌, arith, length, drop, pos, Bool-cases,
}
use proxy_part.Wire.{Time, LinkState, same_bytes, parse_header, sizeof_link_state_record}
use proxy_part.Wire.Packets.{Fits}
use proxy_part.UtHash.{UtHash, Item}
use proxy_part.Proxy.{Peer, P, ret}
use proxy_part.Proxy.Member.Remove.{IsValid}
use proxy_part.Proxy.Records.{record_mac, link_state_message}
use proxy_part.Proxy.Records.Known.{
  Known, stamp, latest, Refreshed, records, link_state_message-Refreshed,
}
use proxy_part.Proxy.Broadcast.{LinkStateRecord, send_all, link_state_broadcast}
use proxy_part.Proxy.Broadcast.Edges.{record_at, records_at}
use proxy_part.Proxy.Broadcast.Members.{
  Entry, origin_edges, pair_edges, neighbor_edges, edges, TimeFits,
}
use proxy_part.Proxy.Broadcast.Packet.{Holds, length-Holds, Tells, square_bound}
use proxy_part.Proxy.Broadcast.Told.{PeersFit, link_state_broadcast-Tells}

module _ (h : UtHash) (s : P h) where
  -- The address is that of this proxy, or of a peer in its list.
  abbrev pub IsKnown : List ℕ → Type 0
  IsKnown mac =
      (same_bytes mac s.link_state.tap_mac ≡ true)
      ⊎ ((same_bytes mac s.link_state.tap_mac ≡ false)
          × (q : ℕ) × (h.find s.hash_table mac ≡ some q))

  abbrev AllKnown : List LinkStateRecord → Type 0
  AllKnown [] = Unit {0}
  AllKnown (e ∷ es) = IsKnown e.proxy1.tap_mac × AllKnown es

  -- The time of the last edge from the peer at `q`, and `t` if there is none.
  pub last_time : List LinkStateRecord → ℕ → Time → Time
  last_time [] q t = t
  last_time (e ∷ es) q t =
      let from =
        if same_bytes e.proxy1.tap_mac s.link_state.tap_mac
        then none
        else h.find s.hash_table e.proxy1.tap_mac in
      last_time es q (stamp h from e.id q t)

  append-AllKnown : (es fs : List LinkStateRecord) → AllKnown es → AllKnown fs → AllKnown (es ++ fs)
  append-AllKnown [] fs a b = b
  append-AllKnown (e ∷ es) fs a b = (a.0, append-AllKnown es fs a.1 b)

  -- The records of a packet are read from its bytes one after the other.
  read-Known : (n : ℕ) (bytes : List ℕ) → AllKnown (records_at n bytes) → Known h s n bytes
  unfolding record_at record_mac
  read-Known zero bytes k = tt
  read-Known (suc n) bytes k = (k.0, read-Known n (drop sizeof_link_state_record bytes) k.1)

  read-latest :
      (n : ℕ) (bytes : List ℕ) (q : ℕ) (t : Time)
      → latest h s n bytes q t ≡ last_time (records_at n bytes) q t
  unfolding record_at record_mac last_time
  read-latest zero bytes q t = refl
  read-latest (suc n) bytes q t = read-latest n (drop sizeof_link_state_record bytes) q _

  -- Every peer that the sender lists is known.
  abbrev PeersKnown : List Entry → Type 0
  PeersKnown [] = Unit {0}
  PeersKnown ((p, peer) ∷ ps) = IsKnown peer.ls.tap_mac × PeersKnown ps

  module _ (now : Time) (self : LinkState) (sender : IsKnown self.tap_mac) where
    origin-Known : (ps : List Entry) → AllKnown (origin_edges now self ps)
    origin-Known [] = tt
    origin-Known ((p, peer) ∷ ps) = (sender, origin-Known ps)

    pair-Known :
        (p : ℕ) (peer : Peer) (ps : List Entry)
        → IsKnown peer.ls.tap_mac
        → AllKnown (pair_edges p peer ps)
    pair-Known p peer [] k = tt
    pair-Known p peer ((q, other) ∷ ps) k = elim (Bool-cases (p == q)) [
      | inl e ↦ rw e (pair-Known p peer ps k)
      | inr e ↦ rw e (k, pair-Known p peer ps k)
    ]

    neighbor-Known :
        (all ps : List Entry) → PeersKnown ps → AllKnown (neighbor_edges now self all ps)
    neighbor-Known all [] k = tt
    neighbor-Known all ((p, peer) ∷ ps) k = (
      k.0,
      append-AllKnown (pair_edges p peer all) (neighbor_edges now self all ps)
          (pair-Known p peer all k.0) (neighbor-Known all ps k.1),
    )

  held-PeersKnown :
      (m : ℕ → Option Peer) (is : List Item) (ps : List Entry)
      → ((p : ℕ) (peer : Peer) → m p ≡ some peer → IsKnown peer.ls.tap_mac)
      → Holds m is ps
      → PeersKnown ps
  held-PeersKnown m [] [] k e = tt
  held-PeersKnown m [] (x ∷ ps) k e = absurd e
  held-PeersKnown m (i ∷ is) [] k e = absurd e
  held-PeersKnown m ((j, p) ∷ is) ((q, peer) ∷ ps) k e =
      (k p peer e.1, held-PeersKnown m is ps k e.2)

  -- Link_State() on such a packet.
  heard :
      (now : Time) (self : LinkState) (ps : List Entry) (packet : List ℕ) (q : ℕ)
      → Tells now self ps packet
      → length ps ≤ 36
      → IsValid h s
      → s.writing ≡ false
      → same_bytes self.tap_mac s.link_state.tap_mac ≡ false
      → h.find s.hash_table self.tap_mac ≡ some q
      → PeersKnown ps
      → (t : P h) × (link_state_message h (drop 4 packet) (parse_header packet).1 s ≡ ret (pos 0) t)
        × Refreshed h s (last_time (edges now self ps)) t
  heard now self ps packet q told few v free foreign found known =
      let body = drop 4 packet in
      let sender : IsKnown self.tap_mac = inr (foreign, q, found) in
      let n = length ps in
      let count : records h body ≡ n * n + n = rw told.count (omega (arith, square_bound n few)) in
      let read : records_at (records h body) (drop 22 body) ≡ edges now self ps =
        ap (λ k. records_at k (drop 22 body)) count ∙ told.records in
      let all : AllKnown (records_at (records h body) (drop 22 body)) = subst AllKnown (sym read) (
        append-AllKnown (origin_edges now self ps) (neighbor_edges now self ps ps)
          (origin-Known now self sender ps) (neighbor-Known now self sender ps ps known)) in
      let (t, run, r) =
        link_state_message-Refreshed h s body (length body) q v free told.accepted
          (ap (λ l. same_bytes l.tap_mac s.link_state.tap_mac) told.source ∙ foreign)
          (ap (λ l. h.find s.hash_table l.tap_mac) told.source ∙ found)
          (read-Known (records h body) (drop 22 body) all) in
      (
        t,
        ap (λ x. link_state_message h body x s) (ap (λ x. x.1) told.header) ∙ run,
        record {
          memory = r.memory;
          state = r.state;
          valid = r.valid;
          peers = λ p peer m.
              r.peers p peer m
              ∙ ap (λ τ. some (record peer { timestamp = τ }))
                  (read-latest (records h body) (drop 22 body) p peer.timestamp
                    ∙ ap (λ es. last_time es p peer.timestamp) read);
          empty = r.empty;
        },
      )

-- One proxy broadcasts and another takes what it has sent. The sender has a valid list of 1 to 36
-- peers, link states and times that fit their C types, and one of its own that does. The receiver
-- has a valid list and a free lock, it is another proxy with the sender in its list, and every peer
-- that the sender knows is the receiver itself or in its list. Then the sender sends one packet to
-- all and then the probes; and Link_State() on the payload of that packet, with the length in its
-- header, returns 0 at the receiver, where each peer has the time of the last edge from it that the
-- sender tells, and all else is as it was.
pub broadcast-Refreshed :
    (h : UtHash) (a s : P h) (q : ℕ)
    → IsValid h a
    → PeersFit a.memory
    → Fits a.link_state
    → TimeFits (a.clock a.ticks)
    → 1 ≤ length (h.items a.hash_table)
    → length (h.items a.hash_table) ≤ 36
    → IsValid h s
    → s.writing ≡ false
    → same_bytes a.link_state.tap_mac s.link_state.tap_mac ≡ false
    → h.find s.hash_table a.link_state.tap_mac ≡ some q
    → ((p : ℕ) (peer : Peer) → a.memory p ≡ some peer → IsKnown h s peer.ls.tap_mac)
    → (ps : List Entry) × (packet : List ℕ) × Holds a.memory (h.items a.hash_table) ps
      × (link_state_broadcast h a
          ≡ send_all h packet (record a { ticks = suc a.ticks; timestamp = a.clock a.ticks }))
      × ((t : P h) × (link_state_message h (drop 4 packet) (parse_header packet).1 s
            ≡ ret (pos 0) t)
          × Refreshed h s (last_time h s (edges (a.clock a.ticks) a.link_state ps)) t)
broadcast-Refreshed h a s q va fa own time some_peers few v free foreign found known =
    let (ps, packet, held, told, sent) =
      link_state_broadcast-Tells h a va fa own time some_peers few in
    let small : length ps ≤ 36 = rw (length-Holds a.memory (h.items a.hash_table) ps held) at few in
    (
      ps,
      packet,
      held,
      sent,
      heard h s (a.clock a.ticks) a.link_state ps packet q told small v free foreign found
          (held-PeersKnown h s a.memory (h.items a.hash_table) ps known held),
    )
