-- ===== src/Route/Order.antt =====
-- The time of a record in network order, and after ntohl().
use proxy_part.Prelude.{◌≡◌, ◌∙◌, ap}
use proxy_part.Wire.{Time, htonl}
use proxy_part.Wire.Bytes.{htonl-htonl}
use proxy_part.Proxy.Broadcast.Members.{TimeFits}
use proxy_part.Route.{ReceivedRecord, host_time}

-- A record that was sent at the time `now`.
pub record Sent (now : Time) (r : ReceivedRecord) : Type 0 where
  pub fits : TimeFits now
  pub id : r.id ≡ record { tv_sec = htonl now.tv_sec; tv_nsec = htonl now.tv_nsec }

pub host_time-Sent : (now : Time) (r : ReceivedRecord) → Sent now r → host_time r.id ≡ now
host_time-Sent now r s = ap host_time s.id ∙ λ i. record {
  tv_sec = htonl-htonl now.tv_sec s.fits.seconds i;
  tv_nsec = htonl-htonl now.tv_nsec s.fits.nanoseconds i;
}
