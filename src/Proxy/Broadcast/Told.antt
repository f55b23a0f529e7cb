-- ===== src/Proxy/Broadcast/Told.antt =====
-- Link_State_Broadcast() from a valid membership list.
use proxy_part.Prelude.{
  ℕ, suc, ◌^◌, ◌%◌, ◌≤◌, ◌≡◌, refl, ap, ◌∙◌, List, [], ◌∷◌, ◌++◌, Option, some, true, arith, length,
  leb, take_all,
}
use proxy_part.Wire.{Time, header_bytes, link_state_type, broadcast_buffer, link_state_length}
use proxy_part.Wire.Packets.{Fits}
use proxy_part.UtHash.{UtHash, Item, Lacks}
use proxy_part.Proxy.{Peer, P, ret}
use proxy_part.Proxy.Steps.{bind_ret, choose}
use proxy_part.Proxy.Member.Lists.{Distinct, Live}
use proxy_part.Proxy.Member.Remove.{IsValid}
use proxy_part.Proxy.Broadcast.{
  origin_records, neighbor_records, broadcast_front, build_packet, send_packet, send_all,
  broadcast_rest, link_state_broadcast,
}
use proxy_part.Proxy.Broadcast.Edges.{bytes_of, bytes_of-append}
use proxy_part.Proxy.Broadcast.Members.{
  Entry, origin_edges, neighbor_edges, edges, Absent, Apart, TimeFits, EntriesFit,
}
use proxy_part.Proxy.Broadcast.Packet.{
  Holds, length-Holds, origin_run, neighbor_run, Tells, payload, front_payload, tells,
  whole_payload,
}

-- The peers of a valid list, with their addresses, which are all different.
entries-Absent :
    (m : ℕ → Option Peer) (k : List ℕ) (p : ℕ) (peer : Peer) (is : List Item) (ps : List Entry)
    → m p ≡ some peer
    → peer.ls.tap_mac ≡ k
    → Lacks k is
    → Live m is
    → Holds m is ps
    → Absent p ps
entries-Absent m k p peer [] [] e t l v h = tt
entries-Absent m k p peer [] (x ∷ ps) e t l v h = absurd h
entries-Absent m k p peer (i ∷ is) [] e t l v h = absurd h
entries-Absent m k p peer ((j, q) ∷ is) ((r, other) ∷ ps) e t l v h =
    (λ same. let (o, eo, to) = v.0 in l.0 (cc), entries-Absent m k p peer is ps e t l.1 v.1 h.2)

pub entries :
    (m : ℕ → Option Peer) (is : List Item)
    → Distinct is
    → Live m is
    → (ps : List Entry) × Holds m is ps × Apart ps
entries m [] d v = ([], tt, tt)
entries m ((k, p) ∷ is) d v =
    let (peer, e, t) = v.0 in
    let (ps, h, a) = entries m is d.1 v.1 in
    ((p, peer) ∷ ps, (refl, e, h), (entries-Absent m k p peer is ps e t d.0 v.1 h, a))

-- Every peer in memory has a link state and a time that fit their C types.
abbrev pub PeersFit : (ℕ → Option Peer) → Type 0
PeersFit m = (p : ℕ) (peer : Peer) → m p ≡ some peer → Fits peer.ls × TimeFits peer.timestamp

pub entries-Fit :
    (m : ℕ → Option Peer) (is : List Item) (ps : List Entry)
    → PeersFit m
    → Holds m is ps
    → EntriesFit ps
entries-Fit m [] [] f h = tt
entries-Fit m [] (e ∷ ps) f h = absurd h
entries-Fit m (i ∷ is) [] f h = absurd h
entries-Fit m ((k, p) ∷ is) ((q, peer) ∷ ps) f h =
    let (a, b) = f p peer h.1 in (a, b, entries-Fit m is ps f h.2)

module _ (h : UtHash) where
  pub built :
      (s : P h) (now : Time) (is : List Item) (ps : List Entry)
      → Holds s.memory is ps
      → build_packet h now is s
        ≡ ret
            (broadcast_front (length is % 2 ^ 16) s.link_state
              ++ bytes_of (edges now s.link_state ps))
            s
  unfolding build_packet
  built s now is ps held =
      bind_ret (origin_records now s.link_state is) _ s (origin_run s now s.link_state is ps held)
      ∙ (bind_ret (neighbor_records now s.link_state is is) _ s
            (neighbor_run s now s.link_state is is ps ps held held)
          ∙ rw (
              bytes_of-append (origin_edges now s.link_state ps)
                (neighbor_edges now s.link_state ps ps)))

  small : (n : ℕ) → n ≤ 36 → n % 2 ^ 16 ≡ n
  small n h = omega arith

  -- A packet that fills its buffer is sent whole.
  sent_whole :
      (s : P h) (n : ℕ) (packet : List ℕ)
      → length packet ≡ broadcast_buffer n
      → send_packet h n packet s ≡ send_all h packet s
  unfolding send_packet
  sent_whole s n packet e =
      choose (leb (length packet) (broadcast_buffer n)) {c = true} _ _ (ground arith)
      ∙ ap (λ p. send_all h p s) (take_all (broadcast_buffer n) packet (omega arith))

  rest_run :
      (s : P h) (now : Time) (is : List Item) (packet : List ℕ)
      → 1 ≤ length is
      → build_packet h now is s ≡ ret packet s
      → length packet ≡ broadcast_buffer (length is % 2 ^ 16)
      → broadcast_rest h now is s ≡ send_all h packet s
  unfolding broadcast_rest
  rest_run s now [] packet ne b l = absurd (omega arith)
  rest_run s now (i ∷ is) packet ne b l =
      bind_ret (build_packet h now (i ∷ is)) _ s b
      ∙ sent_whole s (length (i ∷ is) % 2 ^ 16) packet l

  packet_length :
      (n : ℕ) (bytes : List ℕ)
      → length bytes ≡ link_state_length n
      → length (header_bytes link_state_type (link_state_length n) ++ bytes) ≡ broadcast_buffer n
  unfolding header_bytes broadcast_buffer
  packet_length n bytes e = omega arith

  -- From a valid list of 1 to 36 peers whose link states and times fit their C types, as the local
  -- ones do, Link_State_Broadcast() takes the time and then sends one packet and the probes. What
  -- Link_State() reads from the packet: the header gives the type and the length of the payload, the
  -- length passes the test, the source is the local proxy, and the records are an edge from it to
  -- each peer, and for each peer an edge to it and one to each other peer; the edges between peers
  -- have the time of the first one, all others the time of the call.
  pub link_state_broadcast-Tells :
      (s : P h)
      → IsValid h s
      → PeersFit s.memory
      → Fits s.link_state
      → TimeFits (s.clock s.ticks)
      → 1 ≤ length (h.items s.hash_table)
      → length (h.items s.hash_table) ≤ 36
      → (ps : List Entry) × (packet : List ℕ) × Holds s.memory (h.items s.hash_table) ps
        × Tells (s.clock s.ticks) s.link_state ps packet
        × (link_state_broadcast h s
            ≡ send_all h packet (record s { ticks = suc s.ticks; timestamp = s.clock s.ticks }))
  unfolding link_state_broadcast
  link_state_broadcast-Tells s v f own t some_peers few =
      let is = h.items s.hash_table in
      let now = s.clock s.ticks in
      let s₁ = record s { ticks = suc s.ticks; timestamp = now } in
      let (ps, held, apart) = entries s.memory is v.distinct v.live in
      let n = length ps in
      let same : length is ≡ n = length-Holds s.memory is ps held in
      let size : length is % 2 ^ 16 ≡ n = small (length is) few ∙ same in
      let packet =
        header_bytes link_state_type (link_state_length n)
        ++ payload n s.link_state (bytes_of (edges now s.link_state ps)) in
      let shape : broadcast_front (length is % 2 ^ 16) s.link_state
            ++ bytes_of (edges now s.link_state ps)
          ≡ packet =
        rw size (front_payload n s.link_state (bytes_of (edges now s.link_state ps))) in
      let fits = entries-Fit s.memory is ps f held in
      let told = tells now s.link_state ps t own fits apart (rw same at few) in
      (
        ps,
        packet,
        held,
        told,
        rest_run s₁ now is packet some_peers (built s₁ now is ps held ∙ ap (λ p. ret p s₁) shape) (
            rw size (
              packet_length n _
                (whole_payload now s.link_state ps t own fits apart (rw same at few)))),
      )
