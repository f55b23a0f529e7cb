-- ===== src/Proxy/Messages/Tests.antt =====
-- Runs of the message handlers, and their theorems at a concrete proxy.
use proxy_part.Prelude.{ℕ, ◌≡◌, refl, List, [], ◌∷◌, ◌++◌, arith, pos, minus_one}
use proxy_part.Rio.{rio_write, got}
use proxy_part.Wire.{leave_bytes, header_bytes, quit_len}
use proxy_part.UtHash.Lists.{list_table}
use proxy_part.Proxy.{P, ret, deadlock}
use proxy_part.Proxy.Safe.{Safe}
use proxy_part.Proxy.Samples.{
  sample, sample-IsValid, first-IsMember, peer, mac, host, host-Fits, time, reading,
}
use proxy_part.Proxy.Member.Remove.{Removed}
use proxy_part.Proxy.Messages.{leave, leave_handler, quit, tap_handler_round, broadcast_addr}
use proxy_part.Proxy.Messages.Leaving.{leave-Removed, Left, leave_handler-Left}
use proxy_part.Proxy.Messages.Quitting.{quit_deadlock}
use proxy_part.Proxy.Messages.Tap.{Kept}
use proxy_part.Proxy.Messages.Reading.{tap_handler_round-Kept}

leave-Removed_example :
    (t : P list_table) × (leave list_table (leave_bytes (host 1) (time 5)) 20 sample
      ≡ ret (pos 0) t)
    × Removed list_table sample 1 (peer 1) t
leave-Removed_example =
    leave-Removed list_table sample 1 (peer 1) (host 1) (time 5) 20 sample-IsValid refl
      first-IsMember host-Fits refl

leave_handler-Left_example :
    Safe (λ _ t. ⊥) (Left list_table sample) (leave_handler list_table sample)
leave_handler-Left_example = leave_handler-Left list_table sample sample-IsValid

-- The twenty bytes of a quit message.
abbrev message : List ℕ
message =
    1 ∷ 2 ∷ 3 ∷ 4 ∷ 5 ∷ 6 ∷ 7 ∷ 8 ∷ 9 ∷ 10 ∷ 11 ∷ 12 ∷ 13 ∷ 14 ∷ 15 ∷ 16 ∷ 17 ∷ 18 ∷ 19 ∷ 20 ∷ []

quit_deadlock_example : quit list_table message quit_len sample ≡ deadlock
unfolding rio_write header_bytes
quit_deadlock_example =
    quit_deadlock list_table sample message (mac 1) 1 ((mac 2, 2) ∷ []) (peer 1) _ _ refl refl refl
      refl

-- A broadcast frame.
abbrev frame : List ℕ
frame = broadcast_addr ++ (mac 9 ++ (8 ∷ 0 ∷ 1 ∷ 2 ∷ []))

-- The sample, with that frame on the tap device.
abbrev framed : P list_table
framed = reading (got frame ∷ [])

tap_handler_round-Kept_example :
    Safe
      (λ _ t. Kept list_table t)
      (λ v t. (v ≡ minus_one) × Kept list_table t)
      (tap_handler_round list_table framed)
tap_handler_round-Kept_example =
    tap_handler_round-Kept list_table framed (omega arith, tt) (omega arith)
      (record {
        valid = record { distinct = sample-IsValid.distinct; live = sample-IsValid.live };
        lock = refl;
      })
