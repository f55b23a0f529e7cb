-- ===== src/Proxy/Timeout.antt =====
-- timeout_handler() of handlers.c: the thread that removes a peer whose link has expired.
pub mod Expiry
mod Tests
use proxy_part.Prelude.{ℕ, if◌then◌else◌, Bool, true, false, List, [], ◌∷◌}
use proxy_part.Wire.{Time}
use proxy_part.Clock.{expired}
use proxy_part.UtHash.{UtHash}
use proxy_part.Proxy.{
  Peer, Proxy, M, ◌>>=◌, ◌>>◌, pure, ret, waiting, P, deref, free, close, pthread_cancel,
  testcancel, clock_gettime, write_begin, write_end, hash_del,
}

-- What pthread_cond_timedwait() does: it returns 0 on a signal, and a positive number otherwise.
-- When it wakes up, which the time given to it decides, is behind these replies.
pub data TimedWait : Type 0 where
  signalled timed_out : TimedWait

-- How the loop ends: by its test or a `break`, or with the thread, in pthread_testcancel().
pub data Loop : Type 0 where
  left cancelled : Loop

module _ {T : Type 0} where
  -- A round of the loop after its pthread_testcancel(), with the rounds after it as `again`.
  unfoldable pub timed_round : M (Proxy T) Loop → ℕ → Bool → M (Proxy T) Loop
  unfolding expired
  timed_round again pp true = pure cancelled
  timed_round again pp false = do
    now ← clock_gettime
    peer ← deref pp
    λ s. if expired now peer.timestamp s.config.link_timeout then ret left s else again s

  unfoldable pub timeout_loop : List TimedWait → (tid pp : ℕ) → M (Proxy T) Loop
  unfolding timed_round
  timeout_loop [] tid pp s = waiting
  timeout_loop (signalled ∷ waits) tid pp s = ret left s
  timeout_loop (timed_out ∷ waits) tid pp s =
      (testcancel tid >>= timed_round (timeout_loop waits tid pp) pp) s

module _ (h : UtHash) where
  -- The rest of the routine after the last pthread_testcancel().
  unfoldable pub sever : ℕ → Bool → M (P h) (Unit {0})
  sever pp true = pure tt
  sever pp false = do
    write_begin
    hash_del h pp
    peer ← deref pp
    close peer.fd
    pthread_cancel peer.tid
    free pp
    write_end

  unfoldable pub after_loop : (tid pp : ℕ) → Loop → M (P h) (Unit {0})
  unfolding sever
  after_loop tid pp cancelled = pure tt
  after_loop tid pp left = testcancel tid >>= sever pp

  -- `tid` is the thread itself.
  unfoldable pub timeout_routine : List TimedWait → (tid pp : ℕ) → M (P h) (Unit {0})
  unfolding timeout_loop after_loop
  timeout_routine waits tid pp = do
    ts ← clock_gettime
    end ← timeout_loop waits tid pp
    after_loop tid pp end
