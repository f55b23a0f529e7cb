-- ===== src/Proxy/Probes.antt =====
-- The bandwidth probe of proxy.c: Bandwidth_Probe_Request() and Bandwidth_Probe_Response().
pub mod Echo
mod Tests
use proxy_part.Prelude.{
  ℕ, ◌==◌, ◌&&◌, Bool, if◌then◌else◌, List, ◌++◌, ◌*◌, ℤ, pos, minus_one, is_negative, take,
}
use proxy_part.Wire.{
  Float, of_int, sum, quotient, Time, time_at, header_bytes, bandwidth_probe_response,
}
use proxy_part.Clock.{rtt}
use proxy_part.Proxy.{Peer, Proxy, M, ◌>>=◌, ◌>>◌, pure, deref, store, clock_gettime, fd_write}

-- Equal seconds and nanoseconds.
unfoldable pub same_time : Time → Time → Bool
same_time t u = t.tv_sec == u.tv_sec && t.tv_nsec == u.tv_nsec

-- `RTT`, from the seconds and nanoseconds of `ts`.
unfoldable pub float_seconds : ℤ × ℤ → Float
float_seconds (secs, nanos) = sum (of_int secs) (quotient (of_int nanos) (of_int (pos 1000000000)))

module _ {T : Type 0} where
  -- The payload's first 8 bytes go back unchanged.
  unfoldable pub on_probe_request : List ℕ → ℕ → ℕ → M (Proxy T) ℤ
  unfolding header_bytes
  on_probe_request bytes length pp = do
    peer ← deref pp
    v ← fd_write peer.fd (header_bytes bandwidth_probe_response 8 ++ take 8 bytes)
    pure (if is_negative v then minus_one else pos 0)

  -- The size of the packet is 66 bytes. The line that is printed is left out.
  unfoldable pub on_echo : (now echoed : Time) → ℕ → Peer → M (Proxy T) ℤ
  unfolding same_time float_seconds
  on_echo now echoed pp peer =
      let half = quotient (float_seconds (rtt now echoed)) (of_int (pos 2)) in
      if same_time echoed peer.probe_ts
      then (store pp (record peer {
        bandwidth = quotient (of_int (pos (8 * 66))) half;
        link_weight = quotient half (of_int (pos 66));
      })
          >> pure (pos 0))
      else pure (pos 0)

  unfoldable pub on_probe_response : List ℕ → ℕ → ℕ → M (Proxy T) ℤ
  unfolding on_echo time_at
  on_probe_response bytes length pp = do
    now ← clock_gettime
    peer ← deref pp
    on_echo now (time_at bytes) pp peer
