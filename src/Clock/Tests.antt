-- ===== src/Clock/Tests.antt =====
-- The theorems on times at concrete ones.
use proxy_part.Prelude.{◌+◌, ◌*◌, ◌<◌, ◌≤◌, ◌≡◌, ◌↔◌, ◌⊎◌, true, arith}
use proxy_part.Wire.{Time}
use proxy_part.Clock.{second, expired}
use proxy_part.Clock.Elapsed.{total, Proper, expired_iff}

abbrev now : Time
now = record { tv_sec = 100; tv_nsec = 5 }

abbrev before : Time
before = record { tv_sec = 74; tv_nsec = 999999999 }

now-Proper : Proper now
now-Proper = record { nanoseconds = omega arith; seconds = omega arith }

before-Proper : Proper before
before-Proper = record { nanoseconds = omega arith; seconds = omega arith }

expired_iff_example :
    (expired now before 25 ≡ true)
    ↔ (total now < total before) ⊎ (total before + 25 * second ≤ total now)
expired_iff_example = expired_iff now before 25 now-Proper before-Proper (omega arith)
