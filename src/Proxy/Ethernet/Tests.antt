-- ===== src/Proxy/Ethernet/Tests.antt =====
-- The theorems on eth_handler() at concrete packets.
use proxy_part.Prelude.{refl, List, [], ◌∷◌, pos}
use proxy_part.Rio.{ReadReply, got, rio_readnb}
use proxy_part.Wire.{parse_header}
use proxy_part.UtHash.Lists.{list_table}
use proxy_part.Proxy.Samples.{sample-IsValid, first-IsMember, peer, reading}
use proxy_part.Proxy.Ethernet.Severed.{Serves, Severed, eth_round-Payload}

reading-Serves : (replies : List ReadReply) → Serves list_table (reading replies) 11 1 (peer 1)
reading-Serves replies = record {
  valid = record { distinct = sample-IsValid.distinct; live = sample-IsValid.live };
  unlocked = refl;
  peer_in = record { here = refl; listed = first-IsMember.listed };
  own = refl;
  alive = refl;
}

-- A data packet of length 0.
abbrev empty_packet : List ReadReply
empty_packet = got (0xab ∷ 0xcd ∷ 0 ∷ 0 ∷ []) ∷ []

eth_round-Payload_example : Severed list_table (reading empty_packet) 11 1 (peer 1)
unfolding rio_readnb parse_header
eth_round-Payload_example =
    eth_round-Payload list_table (reading empty_packet) 11 1 (peer 1) (pos 4) (pos 0)
      (0xab ∷ 0xcd ∷ 0 ∷ 0 ∷ []) [] _ _ _ _ (reading-Serves _) refl refl refl refl
