-- ===== src/Wire/Tests.antt =====
-- The packets at concrete values.
use proxy_part.Prelude.{◌≡◌, refl, [], ◌∷◌}
use proxy_part.Wire.{LinkState, header_bytes, leave_type, quit_len}

header_runs : header_bytes leave_type quit_len ≡ 0xab ∷ 0x01 ∷ 0 ∷ 20 ∷ []
unfolding header_bytes
header_runs = refl

abbrev home : LinkState
home = record {
  ip_addr = 0x0101a8c0;
  listen_port = 0xd007;
  tap_mac = 1 ∷ 2 ∷ 3 ∷ 4 ∷ 5 ∷ 6 ∷ [];
  eth_mac = 7 ∷ 8 ∷ 9 ∷ 10 ∷ 11 ∷ 12 ∷ [];
}
