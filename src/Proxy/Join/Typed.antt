-- ===== src/Proxy/Join/Typed.antt =====
-- The C types of what the initial exchange takes from a packet.
use proxy_part.Prelude.{ℕ, ◌≤◌, List, ◌++◌, arith, length, drop, length-append, length-drop}
use proxy_part.Rio.{overwrite}
use proxy_part.Wire.{LinkState, mem16, htons, header_bytes, link_state_bytes, link_state_type}
use proxy_part.Wire.Bytes.{htons-lt}
use proxy_part.Wire.Packets.{Fits}
use proxy_part.Wire.Typed.{
  AllBytes, append-AllBytes, drop-AllBytes, mem16-AllBytes, link_state_at-Fits, Addressed,
  header_bytes-AllBytes, link_state_bytes-AllBytes,
}
use proxy_part.Proxy.Join.{join_packet, joined, sizeof_join_packet}

-- The bytes of a packet, and enough of them.
pub record IsPacket (packet : List ℕ) : Type 0 where
  pub bytes : AllBytes packet
  pub size : sizeof_join_packet ≤ length packet

pub joined-Fits : (packet : List ℕ) → IsPacket packet → Fits (joined packet)
unfolding joined
joined-Fits packet p =
    let f =
      link_state_at-Fits (drop 6 packet) (drop-AllBytes 6 packet p.bytes)
        (omega (arith, p.size, length-drop 6 packet)) in
    record { address = f.address; port = htons-lt _; tap = f.tap; eth = f.eth }

pub join_packet-IsPacket :
    (ls : LinkState) (n : ℕ) → Addressed ls.tap_mac ls.eth_mac → IsPacket (join_packet ls n)
unfolding join_packet header_bytes link_state_bytes
join_packet-IsPacket ls n a = record {
  bytes =
      append-AllBytes (header_bytes link_state_type 22)
        (mem16 (htons n) ++ (link_state_bytes ls ++ mem16 (htons n)))
        (header_bytes-AllBytes link_state_type 22)
        (append-AllBytes (mem16 (htons n)) (link_state_bytes ls ++ mem16 (htons n))
          (mem16-AllBytes (htons n))
          (append-AllBytes (link_state_bytes ls) (mem16 (htons n)) (link_state_bytes-AllBytes ls a)
            (mem16-AllBytes (htons n))));
  size = omega (
    arith,
    a.tap,
    a.eth,
    length-append {0} (ls.tap_mac ++ ls.eth_mac) (mem16 (htons n)),
    length-append {0} ls.tap_mac ls.eth_mac,
  );
}

pub overwrite-IsPacket :
    (bytes packet : List ℕ) → AllBytes bytes → IsPacket packet → IsPacket (overwrite bytes packet)
overwrite-IsPacket bytes packet a p = record {
  bytes =
      append-AllBytes bytes (drop (length bytes) packet) a
        (drop-AllBytes (length bytes) packet p.bytes);
  size = omega (
    arith,
    p.size,
    length-append {0} bytes (drop (length bytes) packet),
    length-drop (length bytes) packet,
  );
}
