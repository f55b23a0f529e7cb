-- ===== src/Proxy/Messages/Reading.antt =====
-- tap_handler() with its read of the tap device.
use proxy_part.Prelude.{ℕ, ◌≤◌, ◌≡◌, refl, List, ℤ, minus_one, is_positive, pos_part, length}
use proxy_part.Rio.{Kernel, Outcome, Received, rio_read}
use proxy_part.Rio.Ends.{Ends, ends, waits}
use proxy_part.Rio.Frames.{AllShort, OneFrame, rio_read-OneFrame}
use proxy_part.UtHash.{UtHash}
use proxy_part.Proxy.{P, exit}
use proxy_part.Proxy.Safe.{Safe, Safe-choose, Safe-map, pending, exits}
use proxy_part.Proxy.Messages.{tap_round, after_tap_read, tap_handler_round}
use proxy_part.Proxy.Messages.Tap.{Kept, tap_round-Kept}

module _ (h : UtHash) where
  after_read-Kept :
      (size : ℤ) (frame : List ℕ) (s : P h)
      → length frame ≤ 1514
      → Kept h s
      → Safe (λ _ t. Kept h t) (λ v t. (v ≡ minus_one) × Kept h t) (after_tap_read h size frame s)
  unfolding after_tap_read
  after_read-Kept size frame s short k =
      Safe-choose (is_positive size) (tap_round h frame) (exit minus_one) s
        (λ e. Safe-map (tap_round-Kept h frame s short k) (λ a t q. q) (λ v t n. absurd n))
        (λ e. exits (refl, k))

  -- If no frame from the tap device has more than ETH_FRAME_LEN bytes, nor have the bytes that are
  -- already in its buffer, then whatever the descriptors do, a round of tap_handler() that starts
  -- with a valid membership list and a free lock neither faults nor waits for itself nor runs out of
  -- fuel. If it returns, the list is valid and the lock is free; if it exits, so they are, and the
  -- status is -1.
  pub tap_handler_round-Kept :
      (s : P h)
      → AllShort 1514 (s.files s.tap_fd).reads
      → pos_part s.rio_tap.cnt ≤ 1514
      → Kept h s
      → Safe (λ _ t. Kept h t) (λ v t. (v ≡ minus_one) × Kept h t) (tap_handler_round h s)
  unfolding tap_handler_round
  tap_handler_round-Kept s f c k =
      go (rio_read s.rio_tap kernel 1518) refl (rio_read-OneFrame 1514 s.rio_tap kernel 1518 f c)
    where
      kernel : Kernel
      kernel = record (s.files s.tap_fd) { errno = s.errno }

      go :
          (o : Outcome Received)
          → rio_read s.rio_tap kernel 1518 ≡ o
          → Ends (OneFrame 1514) o
          → Safe (λ _ t. Kept h t) (λ v t. (v ≡ minus_one) × Kept h t) (tap_handler_round h s)
      go o e (ends w) =
          rw (e, tap_handler_round)
            (after_read-Kept _ _ _ w.0 (record {
              valid = record { distinct = k.valid.distinct; live = k.valid.live };
              lock = k.lock;
            }))
      go o e waits = rw (e, tap_handler_round) pending
