-- ===== src/Proxy/Join/Tests.antt =====
-- The exchange of link states at a concrete proxy: it has 2 peers, and asks the first of them.
use proxy_part.Prelude.{◌≡◌, refl, [], ◌∷◌, some, true, pos, arith}
use proxy_part.Rio.{got, zeros, read_failed, other, rio_write, rio_readnb}
use proxy_part.Wire.{header_bytes, link_state_bytes, htons}
use proxy_part.Wire.Packets.{Fits}
use proxy_part.UtHash.Lists.{list_table}
use proxy_part.Proxy.{P, ret}
use proxy_part.Proxy.Samples.{reading, peer, host, host-Fits}
use proxy_part.Proxy.Join.{join_packet, is_zero, initial_join_client, initial_join_server}
use proxy_part.Proxy.Join.Answer.{answer, initial_join_server-Joined}
use proxy_part.Proxy.Join.Exchange.{swapped, own_packet, initial_join_client-Joined}

-- The answer of a server with the first peer's link state, and 5 peers of its own.
abbrev asked : P list_table
asked = reading (got (join_packet (swapped (host 1)) 5) ∷ [])

abbrev refused : P list_table
refused = reading (read_failed other ∷ [])

own-Fits : Fits (host 9)
own-Fits = record { address = omega arith; port = omega arith; tap = refl; eth = refl }

-- The first peer has sent its packet to this proxy.
abbrev joining : P list_table
joining = reading (got (join_packet (host 1) 5) ∷ [])

initial_join_server-Joined_example :
    (t : P list_table) × (initial_join_server list_table 1 (zeros 26) joining ≡ ret true t)
    × (t.memory 1
        ≡ some (record (peer 1) {
          rio = record { cnt = pos 0; bufp = 0; buf = join_packet (host 1) 5 };
          ls = swapped (host 1);
        }))
    × (t.hash_table ≡ joining.hash_table)
    × (t.written ≡ (3, answer list_table joining) ∷ [])
unfolding rio_write rio_readnb join_packet is_zero header_bytes link_state_bytes htons
initial_join_server-Joined_example =
    initial_join_server-Joined list_table joining 1 (peer 1) (host 1) 5 _ _ (pos 26) _ (zeros 26)
      host-Fits refl
      (record { unlocked = refl; here = refl; read = refl; wrote = refl; not_empty = refl })

initial_join_client-Joined_example :
    (t : P list_table) × (initial_join_client list_table 1 asked ≡ ret true t)
    × (t.memory 1
        ≡ some (record (peer 1) {
          rio = record { cnt = pos 0; bufp = 0; buf = join_packet (swapped (host 1)) 5 };
          ls = host 1;
        }))
    × (t.hash_table ≡ asked.hash_table)
    × (t.written ≡ (3, own_packet list_table asked) ∷ [])
unfolding rio_write rio_readnb join_packet is_zero header_bytes link_state_bytes htons
initial_join_client-Joined_example =
    initial_join_client-Joined list_table asked 1 (peer 1) (host 1) 5 _ _ own-Fits host-Fits
      (record {
        unlocked = refl;
        here = refl;
        size = pos 26;
        kernel = _;
        wrote = refl;
        not_empty = refl;
        read = refl;
        not_ended = refl;
      })
