-- ===== src/Wire/Packets.antt =====
-- Whole packets: what one proxy builds against what the other reads out of the same bytes, and
-- the length of a link-state packet.
use proxy_part.Prelude.{
  ℕ, ◌*◌, ◌^◌, ◌≤◌, ◌<◌, ◌≡◌, true, List, ◌++◌, length, dec_lt, take, drop, arith, append_assoc,
  take-length_append, drop-length_append, length-append, ◌↔◌,
}
use proxy_part.Wire.{
  mem16, LinkState, link_state_bytes, link_state_at, Time, leave_bytes, time_bytes, quit_len,
  eth_alen, link_state_length, broadcast_written, broadcast_buffer, length_ok,
}
use proxy_part.Wire.Bytes.{load16-mem16, load32-mem32}

-- The fields fit the C types.
pub record Fits (ls : LinkState) : Type 0 where
  pub address : ls.ip_addr < 2 ^ 32
  pub port : ls.listen_port < 2 ^ 16
  pub tap : length ls.tap_mac ≡ eth_alen
  pub eth : length ls.eth_mac ≡ eth_alen

take-front : (n : ℕ) (xs ys : List ℕ) → length xs ≡ n → take n (xs ++ ys) ≡ xs
take-front n xs ys h = rw (← h) (take-length_append xs ys)

drop-front : (n : ℕ) (xs ys : List ℕ) → length xs ≡ n → drop n (xs ++ ys) ≡ ys
drop-front n xs ys h = rw (← h) (drop-length_append xs ys)

-- The bytes of a link_state structure, cast back, are the structure.
pub link_state_at-bytes :
    (ls : LinkState) (rest : List ℕ) → Fits ls → link_state_at (link_state_bytes ls ++ rest) ≡ ls
unfolding link_state_at link_state_bytes
link_state_at-bytes ls rest f = λ i. record {
  ip_addr = load32-mem32 ls.ip_addr (mem16 ls.listen_port ++ macs) f.address i;
  listen_port = load16-mem16 ls.listen_port macs f.port i;
  tap_mac = tap i;
  eth_mac = eth i;
}
  where
    macs : List ℕ
    macs = (ls.tap_mac ++ ls.eth_mac) ++ rest

    tap : take eth_alen macs ≡ ls.tap_mac
    tap = rw append_assoc (take-front eth_alen ls.tap_mac (ls.eth_mac ++ rest) f.tap)

    eth : take eth_alen (drop eth_alen macs) ≡ ls.eth_mac
    eth =
        rw (append_assoc, drop-front eth_alen ls.tap_mac (ls.eth_mac ++ rest) f.tap)
          (take-front eth_alen ls.eth_mac rest f.eth)

-- The payload of the leave packet that leave_handler sends is QUIT_LEN bytes long, and the place
-- where Leave() looks for a MAC address in it holds the leaving proxy's tap address.
pub leave_bytes_mac :
    (ls : LinkState) (id : Time)
    → Fits ls
    → ((link_state_at (leave_bytes ls id)).tap_mac ≡ ls.tap_mac)
      × (length (leave_bytes ls id) ≡ quit_len)
unfolding link_state_at leave_bytes time_bytes
leave_bytes_mac ls id f = (
  take-front eth_alen ls.tap_mac _ f.tap,
  omega (arith, f.tap, length-append {0} ls.tap_mac (time_bytes id)),
)

square_le : (n m : ℕ) → n ≤ m → n * n ≤ m * m
square_le n m h = grind arith

-- With `n` neighbours, the packet that Link_State_Broadcast builds fits into the buffer that it
-- allocates, and passes the length test of the Link_State() that receives it, exactly if `n` is at
-- most 36. From 37 neighbours on the length field has wrapped round: the records are written past
-- the end of the buffer, and the receiver refuses the packet.
pub broadcast_limit :
    (n : ℕ)
    → n ≤ 9000
    → ((n ≤ 36) ↔ (broadcast_written n ≤ broadcast_buffer n))
      × ((n ≤ 36) ↔ (length_ok n (link_state_length n) ≡ true))
unfolding broadcast_written broadcast_buffer link_state_length length_ok
broadcast_limit n h = elim (dec_lt 36 n) [
  | no few ↦
      let p = square_le n 36 (omega arith) in
      let fits : broadcast_written n ≤ broadcast_buffer n = omega arith in
      let same : length_ok n (link_state_length n) ≡ true = ground arith in
      ((λ _. fits, λ _. omega arith), (λ _. same, λ _. omega arith))
  | yes many ↦
      let p = square_le 37 n many in
      let q = square_le n 9000 h in
      (
        (λ l. absurd (omega arith), λ l. absurd (omega arith)),
        (λ l. absurd (omega arith), λ e. absurd (ground arith)),
      )
]
