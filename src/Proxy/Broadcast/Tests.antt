-- ===== src/Proxy/Broadcast/Tests.antt =====
-- The packet and the sending loops at a concrete proxy.
use proxy_part.Prelude.{
  zero, suc, some, refl, ◌≤◌, inl, inr, pos, drop, subst, ◌==◌, if◌then◌else◌, ℕ, ◌≡◌, List, [],
  ◌∷◌, false, arith,
}
use proxy_part.Proxy.Broadcast.{link_state_broadcast}
use proxy_part.Proxy.Broadcast.Members.{edges, Entry}
use proxy_part.Proxy.Broadcast.Packet.{Holds, Tells}
use proxy_part.Proxy.Broadcast.Told.{link_state_broadcast-Tells}
use proxy_part.Wire.{same_bytes, parse_header}
use proxy_part.Proxy.{Peer, P, ret}
use proxy_part.Proxy.Member.Remove.{IsValid}
use proxy_part.Proxy.Records.{link_state_message}
use proxy_part.Proxy.Records.Known.{Refreshed}
use proxy_part.Proxy.Broadcast.Heard.{IsKnown, last_time, broadcast-Refreshed}
use proxy_part.UtHash.Lists.{list_table}
use proxy_part.Proxy.Safe.{Safe, Never}
use proxy_part.Proxy.Samples.{
  mac, peer, sample-peers, sample, sample-IsValid, sample-PeersFit, host, hosts-Fits, time,
}
use proxy_part.Proxy.Messages.Tap.{Iterates}
use proxy_part.Proxy.Broadcast.{send_all}
use proxy_part.Proxy.Broadcast.Sent.{send_all-Kept}

send_all-Kept_example :
    Safe (λ _ t. Iterates list_table false [] t) Never (send_all list_table (1 ∷ 2 ∷ []) sample)
send_all-Kept_example = send_all-Kept list_table (1 ∷ 2 ∷ []) sample sample-IsValid

link_state_broadcast-Tells_example :
    (ps : List Entry) × (packet : List ℕ) × Holds sample.memory sample.hash_table ps
    × Tells (time 100) (host 9) ps packet
    × (link_state_broadcast list_table sample
        ≡ send_all list_table packet (record sample { ticks = 1; timestamp = time 100 }))
link_state_broadcast-Tells_example =
    link_state_broadcast-Tells list_table sample sample-IsValid sample-PeersFit
      (hosts-Fits 9 (omega arith)) (record { seconds = omega arith; nanoseconds = omega arith })
      (omega arith) (omega arith)

-- The first peer of the sample, with the sample's proxy and the other two in its list.
abbrev receiver : P list_table
receiver = record sample {
  link_state = host 1;
  hash_table = (mac 9, 5) ∷ (mac 2, 2) ∷ (mac 3, 3) ∷ [];
  memory = λ p. if p == 5 then some (peer 9) else if p == 2 then some (peer 2) else some (peer 3);
}

receiver-IsValid : IsValid list_table receiver
receiver-IsValid = record {
  distinct = ((λ e. ground arith, (λ e. ground arith, tt)), ((λ e. ground arith, tt), (tt, tt)));
  live = ((peer 9, refl, refl), ((peer 2, refl, refl), ((peer 3, refl, refl), tt)));
}

receiver_knows : (n : ℕ) → 1 ≤ n → n ≤ 3 → IsKnown list_table receiver (mac n)
unfolding same_bytes
receiver_knows zero a b = absurd (omega arith)
receiver_knows (suc zero) a b = inl refl
receiver_knows (suc (suc zero)) a b = inr (refl, 2, refl)
receiver_knows (suc (suc (suc zero))) a b = inr (refl, 3, refl)
receiver_knows (suc (suc (suc (suc n)))) a b = absurd (omega arith)

all-IsKnown :
    (p : ℕ) (x : Peer) → sample.memory p ≡ some x → IsKnown list_table receiver x.ls.tap_mac
all-IsKnown p x e =
    let (n, some_n, small, same) = sample-peers p x e in
    subst (λ (y : Peer). IsKnown list_table receiver y.ls.tap_mac) same
      (receiver_knows n some_n small)

broadcast-Refreshed_example :
    (ps : List Entry) × (packet : List ℕ) × Holds sample.memory sample.hash_table ps
    × (link_state_broadcast list_table sample
        ≡ send_all list_table packet (record sample { ticks = 1; timestamp = time 100 }))
    × ((t : P list_table) × (link_state_message list_table
            (drop 4 packet)
            (parse_header packet).1
            receiver
          ≡ ret (pos 0) t)
        × Refreshed list_table receiver
            (last_time list_table receiver (edges (time 100) (host 9) ps))
            t)
unfolding same_bytes
broadcast-Refreshed_example =
    broadcast-Refreshed list_table sample receiver 5 sample-IsValid sample-PeersFit
      (hosts-Fits 9 (omega arith)) (record { seconds = omega arith; nanoseconds = omega arith })
      (omega arith) (omega arith) receiver-IsValid refl refl refl all-IsKnown
