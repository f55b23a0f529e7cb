-- ===== src/Wire.antt =====
-- The packets of proxy.h: numbers in memory and in network order, structures as the bytes that
-- they occupy, and the sizes of the packed structures. The machine is little-endian with 32-bit
-- words, as the source's 8-byte `struct timespec` and its QUIT_LEN require.
pub mod Bytes
pub mod Packets
pub mod Typed
mod Tests
use proxy_part.Prelude.{
  ℕ, zero, suc, ◌+◌, ◌*◌, ◌/◌, ◌%◌, ◌^◌, ◌==◌, ◌&&◌, Bool, true, false, List, [], ◌∷◌, ◌++◌, take,
  ℤ, drop,
}

-- Two bytes in memory, and the number that they stand for.
abbrev pub mem16 : ℕ → List ℕ
mem16 x = x % 256 ∷ x / 256 % 256 ∷ []

unfoldable pub load16 : List ℕ → ℕ
load16 (a ∷ b ∷ rest) = a + 256 * b
load16 _ = 0

abbrev pub mem32 : ℕ → List ℕ
mem32 x = x % 256 ∷ x / 256 % 256 ∷ x / 65536 % 256 ∷ x / 16777216 % 256 ∷ []

unfoldable pub load32 : List ℕ → ℕ
load32 (a ∷ b ∷ c ∷ d ∷ rest) = a + 256 * b + 65536 * c + 16777216 * d
load32 _ = 0

-- htons() and ntohs() swap the two bytes, htonl() and ntohl() reverse the four.
unfoldable pub htons : ℕ → ℕ
htons x = x % 256 * 256 + x / 256 % 256

unfoldable pub htonl : ℕ → ℕ
htonl x = x % 256 * 16777216 + x / 256 % 256 * 65536 + x / 65536 % 256 * 256 + x / 16777216 % 256

-- `memcmp(xs, ys, n)==0` for two arrays of the same length.
unfoldable pub same_bytes : List ℕ → List ℕ → Bool
same_bytes [] [] = true
same_bytes (x ∷ xs) (y ∷ ys) = x == y && same_bytes xs ys
same_bytes _ _ = false

-- A `float`, by the operations of C that compute it, which the processor may round: a number that is
-- converted, a sum, a quotient, and ntohl() of a `float`, converted to 32 bits and back.
pub data Float : Type 0 where
  of_int : ℤ → Float
  sum quotient : Float → Float → Float
  of_net : Float → Float

-- Packet types.
abbrev pub data_type : ℕ
data_type = 0xabcd

abbrev pub leave_type : ℕ
leave_type = 0xab01

abbrev pub quit_type : ℕ
quit_type = 0xab12

abbrev pub link_state_type : ℕ
link_state_type = 0xabac

abbrev pub rtt_probe_request : ℕ
rtt_probe_request = 0xab34

abbrev pub rtt_probe_response : ℕ
rtt_probe_response = 0xab35

abbrev pub proxy_public_key : ℕ
proxy_public_key = 0xab21

abbrev pub signed_data : ℕ
signed_data = 0xabc1

abbrev pub proxy_secret_key : ℕ
proxy_secret_key = 0xab2

abbrev pub encrypted_data : ℕ
encrypted_data = 0xabc2

abbrev pub encrypted_link_state : ℕ
encrypted_link_state = 0xabab

abbrev pub signed_link_state : ℕ
signed_link_state = 0xabad

abbrev pub bandwidth_probe_request : ℕ
bandwidth_probe_request = 0xab45

abbrev pub bandwidth_probe_response : ℕ
bandwidth_probe_response = 0xab46

-- PROXY_HLEN, QUIT_LEN and the sizes of the packed structures.
abbrev pub proxy_hlen : ℕ
proxy_hlen = 4

abbrev pub quit_len : ℕ
quit_len = 20

abbrev pub eth_alen : ℕ
eth_alen = 6

abbrev pub sizeof_link_state : ℕ
sizeof_link_state = 4 + 2 + 6 + 6

abbrev pub sizeof_link_state_source : ℕ
sizeof_link_state_source = sizeof_link_state + 2

abbrev pub sizeof_link_state_record : ℕ
sizeof_link_state_record = 8 + sizeof_link_state + sizeof_link_state + 4

-- `struct timespec`
pub record Time : Type 0 where
  pub tv_sec : ℕ
  pub tv_nsec : ℕ

-- `link_state`: `ip_addr` is the address as it stands in memory, and a MAC address is six bytes.
pub record LinkState : Type 0 where
  pub ip_addr : ℕ
  pub listen_port : ℕ
  pub tap_mac : List ℕ
  pub eth_mac : List ℕ

-- The bytes of a `link_state`, and the one that a pointer cast reads from bytes.
unfoldable pub link_state_bytes : LinkState → List ℕ
link_state_bytes ls = mem32 ls.ip_addr ++ (mem16 ls.listen_port ++ (ls.tap_mac ++ ls.eth_mac))

unfoldable pub link_state_at : List ℕ → LinkState
unfolding load16 load32
link_state_at bytes = record {
  ip_addr = load32 bytes;
  listen_port = load16 (drop 4 bytes);
  tap_mac = take eth_alen (drop 6 bytes);
  eth_mac = take eth_alen (drop 12 bytes);
}

-- `proxy_header` with both fields given to htons().
unfoldable pub header_bytes : ℕ → ℕ → List ℕ
unfolding htons
header_bytes type length = mem16 (htons type) ++ mem16 (htons length)

-- What eth_handler makes of the header that it has read: ntohs() of both fields.
unfoldable pub parse_header : List ℕ → ℕ × ℕ
unfolding htons load16
parse_header bytes = (htons (load16 bytes), htons (load16 (drop 2 bytes)))

-- A `struct timespec` with both fields given to htonl(), and back by ntohl().
unfoldable pub time_bytes : Time → List ℕ
unfolding htonl
time_bytes t = mem32 (htonl t.tv_sec) ++ mem32 (htonl t.tv_nsec)

unfoldable pub time_at : List ℕ → Time
unfolding htonl load32
time_at bytes = record { tv_sec = htonl (load32 bytes); tv_nsec = htonl (load32 (drop 4 bytes)) }

-- `leave`, as leave_handler fills it in: the port goes through htons().
unfoldable pub leave_bytes : LinkState → Time → List ℕ
unfolding htons time_bytes
leave_bytes ls id =
    mem32 ls.ip_addr ++ (mem16 (htons ls.listen_port) ++ (ls.tap_mac ++ time_bytes id))

unfoldable pub leave_packet_bytes : LinkState → Time → List ℕ
unfolding header_bytes leave_bytes
leave_packet_bytes ls id = header_bytes leave_type quit_len ++ leave_bytes ls id

-- The length field that Link_State_Broadcast writes for `n` neighbours: the sum is a 32-bit
-- `size_t`, and htons() takes its low 16 bits.
unfoldable pub link_state_length : ℕ → ℕ
link_state_length n =
    (2 + sizeof_link_state_source + n * (n + 1) * sizeof_link_state_record) % 2 ^ 32 % 2 ^ 16

-- The buffer that it allocates, and the bytes that it writes there: the header, the two counts and
-- the local proxy, a record for each neighbour, and for each of them one record for each neighbour.
unfoldable pub broadcast_buffer : ℕ → ℕ
unfolding link_state_length
broadcast_buffer n = proxy_hlen + link_state_length n

unfoldable pub broadcast_written : ℕ → ℕ
broadcast_written n =
    proxy_hlen
    + 2
    + sizeof_link_state
    + 2
    + n * sizeof_link_state_record
    + n * (n * sizeof_link_state_record)

-- The test of Link_State() on the neighbour count and the length of the payload.
unfoldable pub length_ok : ℕ → ℕ → Bool
length_ok n length =
    (2 * 2 + sizeof_link_state + (n * n + n) * sizeof_link_state_record) % 2 ^ 32 == length
