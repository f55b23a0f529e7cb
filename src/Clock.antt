-- ===== src/Clock.antt =====
-- The differences of times in timeout_handler() (handlers.c) and in Bandwidth_Probe_Response()
-- (proxy.c).
pub mod Elapsed
mod Tests
use proxy_part.Prelude.{
  ℕ, ◌+◌, ◌-◌, ◌*◌, ◌^◌, ◌%◌, Bool, leb, ltb, if◌then◌else◌, ℤ, pos, negsuc, is_negative, minus,
}
use proxy_part.Wire.{Time}

-- One billion.
abbrev pub second : ℕ
second = 1000000000

-- The difference of two numbers of 32 bits, taken for one with sign.
unfoldable pub difference : ℕ → ℕ → ℤ
difference m n =
    let d = (m + (2 ^ 32 - n)) % 2 ^ 32 in if ltb d (2 ^ 31) then pos d else negsuc (2 ^ 32 - 1 - d)

-- `tscmp`, from the current time and a peer's timestamp: the seconds and the nanoseconds, of which
-- one second is borrowed when they are negative.
unfoldable pub elapsed : Time → Time → ℤ × ℤ
unfolding difference
elapsed now ts =
    if is_negative (difference now.tv_nsec ts.tv_nsec)
    then (difference now.tv_sec (ts.tv_sec + 1), difference (now.tv_nsec + second) ts.tv_nsec)
    else (difference now.tv_sec ts.tv_sec, difference now.tv_nsec ts.tv_nsec)

-- A 32-bit number with sign as one without.
abbrev pub unsigned : ℤ → ℕ
unsigned (pos n) = n
unsigned (negsuc n) = 2 ^ 32 - 1 - n

-- `tscmp.tv_sec>=config.link_timeout`: the timeout has no sign, so the comparison has none.
unfoldable pub expired : Time → Time → ℕ → Bool
unfolding elapsed
expired now ts link_timeout = leb link_timeout (unsigned (elapsed now ts).0)

-- `ts` in Bandwidth_Probe_Response() when the round-trip time is computed from it. The numbers are
-- not cut to 32 bits here.
unfoldable pub rtt : Time → Time → ℤ × ℤ
rtt now probe =
    if is_negative (minus now.tv_nsec probe.tv_nsec)
    then (minus (now.tv_sec + 1) probe.tv_sec, minus (now.tv_nsec + second) probe.tv_nsec)
    else (minus now.tv_sec probe.tv_sec, minus now.tv_nsec probe.tv_nsec)
