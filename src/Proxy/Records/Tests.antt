-- ===== src/Proxy/Records/Tests.antt =====
-- Link_State() at a concrete proxy. A packet has one neighbour, and so two records.
use proxy_part.Prelude.{ℕ, ◌+◌, ◌≡◌, refl, List, [], ◌∷◌, ◌++◌, true, pos, drop, inl, inr}
use proxy_part.Rio.{zeros}
use proxy_part.Wire.{
  link_state_bytes, link_state_at, time_bytes, mem16, htons, load16, same_bytes, length_ok,
  sizeof_link_state_source,
}
use proxy_part.UtHash.Lists.{list_table}
use proxy_part.Proxy.{P, Dial, ret, fault, deadlock}
use proxy_part.Proxy.Samples.{sample, sample-IsValid, host, time}
use proxy_part.Proxy.Join.{is_zero}
use proxy_part.Proxy.Records.{record_mac, link_state_message}
use proxy_part.Proxy.Records.Known.{Refreshed, latest, records, link_state_message-Refreshed}
use proxy_part.Proxy.Records.Unknown.{link_state_message_fault, link_state_message_deadlock}

-- The bytes of a packet: its source and the two proxies of its records.
abbrev packet : (a b c : ℕ) → List ℕ
packet a b c =
    mem16 (htons 1)
    ++ (link_state_bytes (host a) ++ (mem16 (htons 1) ++ (entry b 40 ++ entry c 50)))
  where
    entry : ℕ → ℕ → List ℕ
    entry n t =
        time_bytes (time t) ++ (link_state_bytes (host n) ++ (link_state_bytes (host 1) ++ zeros 4))

-- What socket() replies.
abbrev socket : ℕ → Dial
socket fd = record {
  socket = pos fd;
  setsockopt = true;
  connect = true;
  getsockname = true;
  local_address = 9;
}

abbrev dialling : ℕ → P list_table
dialling fd = record sample { dials = socket fd ∷ [] }

link_state_message-Refreshed_example :
    (t : P list_table) × (link_state_message list_table (packet 1 2 9) 118 sample ≡ ret (pos 0) t)
    × Refreshed list_table sample
        (latest list_table sample
          (records list_table (packet 1 2 9))
          (drop (2 + sizeof_link_state_source) (packet 1 2 9)))
        t
unfolding htons load16 same_bytes length_ok record_mac link_state_bytes link_state_at time_bytes
link_state_message-Refreshed_example =
    link_state_message-Refreshed list_table sample (packet 1 2 9) 118 1 sample-IsValid refl refl
      refl refl ((inr (refl, 2, refl)), ((inl refl), tt))

link_state_message_fault_example :
    link_state_message list_table (packet 1 4 9) 118 (dialling 7) ≡ fault
unfolding htons load16 same_bytes length_ok record_mac link_state_bytes link_state_at time_bytes
    is_zero
link_state_message_fault_example =
    link_state_message_fault list_table (dialling 7) (packet 1 4 9) 118 1 1 (socket 7) []
      (record { right = refl; foreign = refl; unlocked = refl }) refl refl refl refl refl refl

link_state_message_deadlock_example :
    link_state_message list_table (packet 4 1 9) 118 (dialling 0) ≡ deadlock
unfolding htons load16 same_bytes length_ok link_state_bytes link_state_at time_bytes is_zero
link_state_message_deadlock_example =
    link_state_message_deadlock list_table (dialling 0) (packet 4 1 9) 118 (socket 0) []
      (record { right = refl; foreign = refl; unlocked = refl }) refl refl refl refl refl refl
