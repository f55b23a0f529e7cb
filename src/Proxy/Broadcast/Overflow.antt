-- ===== src/Proxy/Broadcast/Overflow.antt =====
-- Link_State_Broadcast() with more neighbours than its length field has room for.
use proxy_part.Prelude.{
  ℕ, suc, ◌^◌, ◌%◌, ◌≤◌, ◌≡◌, sym, ap, ◌∙◌, List, [], ◌∷◌, ◌++◌, false, arith, length, leb,
}
use proxy_part.Wire.{Time, LinkState, header_bytes, broadcast_buffer, broadcast_written}
use proxy_part.Wire.Packets.{Fits, broadcast_limit}
use proxy_part.UtHash.{UtHash, Item}
use proxy_part.Proxy.{P, ret, fault}
use proxy_part.Proxy.Steps.{bind_ret, choose}
use proxy_part.Proxy.Member.Remove.{IsValid}
use proxy_part.Proxy.Broadcast.{
  broadcast_front, build_packet, send_packet, broadcast_rest, link_state_broadcast,
}
use proxy_part.Proxy.Broadcast.Edges.{bytes_of, length-bytes_of}
use proxy_part.Proxy.Broadcast.Members.{
  Entry, edges, Apart, length-edges, TimeFits, EntriesFit, edges-AllFit,
}
use proxy_part.Proxy.Broadcast.Packet.{length-Holds, front_payload, length-payload}
use proxy_part.Proxy.Broadcast.Told.{PeersFit, entries, entries-Fit, built}

-- The packet has as many bytes as the loops write.
written_length :
    (now : Time) (self : LinkState) (ps : List Entry)
    → TimeFits now
    → Fits self
    → EntriesFit ps
    → Apart ps
    → length (broadcast_front (length ps) self ++ bytes_of (edges now self ps))
      ≡ broadcast_written (length ps)
unfolding header_bytes broadcast_written
written_length now self ps t f es apart =
    let body = bytes_of (edges now self ps) in
    ap length (front_payload (length ps) self body)
    ∙ omega (
      arith,
      length-payload (length ps) self body f,
      length-bytes_of (edges now self ps) (edges-AllFit now self ps t f es),
      length-edges now self ps apart,
    )

too_long : (a b : ℕ) → ¬ (a ≤ b) → leb a b ≡ false
too_long a b above = ground arith

module _ (h : UtHash) where
  rest_overflows :
      (s : P h) (now : Time) (is : List Item) (packet : List ℕ)
      → 37 ≤ length is
      → length is ≤ 9000
      → build_packet h now is s ≡ ret packet s
      → length packet ≡ broadcast_written (length is)
      → broadcast_rest h now is s ≡ fault
  unfolding broadcast_rest send_packet
  rest_overflows s now [] packet many few b l = absurd (omega arith)
  rest_overflows s now (i ∷ is) packet many few b l =
      let n = length (i ∷ is) in
      let limit = (broadcast_limit n few).0 in
      let same : n % 2 ^ 16 ≡ n = omega arith in
      let over : leb (length packet) (broadcast_buffer (n % 2 ^ 16)) ≡ false =
        too_long (length packet) _
          λ fits. let few = limit.1 (rw (l, same) at fits) in omega arith in
      bind_ret (build_packet h now (i ∷ is)) _ s b ∙ choose _ {c = false} _ _ over

  -- From a valid list of 37 to 9000 peers whose link states and times fit their C types, as the local
  -- ones do, Link_State_Broadcast() writes past the end of the buffer that it has allocated.
  pub link_state_broadcast-Overflows :
      (s : P h)
      → IsValid h s
      → PeersFit s.memory
      → Fits s.link_state
      → TimeFits (s.clock s.ticks)
      → 37 ≤ length (h.items s.hash_table)
      → length (h.items s.hash_table) ≤ 9000
      → link_state_broadcast h s ≡ fault
  unfolding link_state_broadcast
  link_state_broadcast-Overflows s v f own t many few =
      let is = h.items s.hash_table in
      let now = s.clock s.ticks in
      let s₁ = record s { ticks = suc s.ticks; timestamp = now } in
      let (ps, held, apart) = entries s.memory is v.distinct v.live in
      let same : length is ≡ length ps = length-Holds s.memory is ps held in
      let size : length is % 2 ^ 16 ≡ length ps = omega arith in
      rest_overflows s₁ now is _ many few (built h s₁ now is ps held) (
        rw size (
          written_length now s.link_state ps t own (entries-Fit s.memory is ps f held) apart
          ∙ ap broadcast_written (sym same)))
