-- ===== src/Proxy/Probes/Echo.antt =====
-- The bandwidth probe: the answer to a request, and the round-trip time that is taken from one.
use proxy_part.Prelude.{
  ℕ, ◌≡◌, ◌∙◌, List, ◌∷◌, ◌++◌, some, false, ℤ, pos, is_negative, suc, ◌<◌, ◌≢◌, ◌+◌, ◌-◌, ◌*◌, ltb,
  if◌then◌else◌,
}
use proxy_part.Rio.{Kernel, done, rio_write}
use proxy_part.Wire.{
  of_int, sum, quotient, Time, time_bytes, header_bytes, bandwidth_probe_response,
}
use proxy_part.Clock.{second}
use proxy_part.Clock.Elapsed.{total}
use proxy_part.Proxy.{Peer, Proxy, Run, ret, update}
use proxy_part.Proxy.Steps.{deref_step, write_step}
use proxy_part.Proxy.Probes.{on_probe_request}

-- The two numbers from a round trip of `a` seconds and `b` nanoseconds.
abbrev pub measured : Peer → (a b : ℕ) → Peer
measured peer a b =
    let half =
      quotient (sum (of_int (pos a)) (quotient (of_int (pos b)) (of_int (pos second))))
        (of_int (pos 2)) in
    record peer {
      bandwidth = quotient (of_int (pos 528)) half;
      link_weight = quotient half (of_int (pos 66));
    }

module _ {T : Type 0} where
  -- A request whose payload starts with the bytes of a time is answered, if the write ends without
  -- an error, by one packet: the header of a response of length 8, and the bytes of that time.
  on_probe_request-Echo :
      (s : Proxy T) (pp : ℕ) (peer : Peer) (t : Time) (rest : List ℕ) (n : ℕ) (v : ℤ) (k : Kernel)
      → s.memory pp ≡ some peer
      → rio_write
          (record (s.files peer.fd) { errno = s.errno })
          (header_bytes bandwidth_probe_response 8 ++ time_bytes t)
        ≡ done (v, k)
      → is_negative v ≡ false
      → on_probe_request (time_bytes t ++ rest) n pp s
        ≡ ret (pos 0) (record s {
          files = update s.files peer.fd k;
          errno = k.errno;
          written = (peer.fd, header_bytes bandwidth_probe_response 8 ++ time_bytes t) ∷ s.written;
        })
  unfolding on_probe_request time_bytes
  on_probe_request-Echo s pp peer t rest n v k m w ok =
      deref_step s pp peer _ m
      ∙ (write_step s peer.fd (header_bytes bandwidth_probe_response 8 ++ time_bytes t) _ w ∙ rw ok)

  -- What Bandwidth_Probe_Response() does with an echo of `t` at the time `now`.
  pub data Measured (s : Proxy T) (pp : ℕ) (peer : Peer) (now t : Time) (r : Run (Proxy T) ℤ)
      : Type 0 where
    latest :
        (a b : ℕ)
        → t ≡ peer.probe_ts
        → b < second
        → a * second + b
          ≡ total now - total t + (if ltb now.tv_nsec t.tv_nsec then 2 * second else 0)
        → r
          ≡ ret (pos 0) (record s {
            ticks = suc s.ticks;
            memory = update s.memory pp (some (measured peer a b));
          })
        → Measured s pp peer now t r
    other :
        t ≢ peer.probe_ts
        → r ≡ ret (pos 0) (record s { ticks = suc s.ticks })
        → Measured s pp peer now t r
