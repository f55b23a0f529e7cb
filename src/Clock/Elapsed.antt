-- ===== src/Clock/Elapsed.antt =====
-- What timeout_handler() and the bandwidth probe compute from two times, against the times in
-- nanoseconds.
use proxy_part.Prelude.{
  ℕ, ◌+◌, ◌-◌, ◌*◌, ◌^◌, ◌<◌, ◌≤◌, ◌≡◌, ◌%◌, ◌↔◌, ◌⊎◌, inl, inr, true, false, leb, Bool-cases, ap,
  ℤ, pos_part, pos, negsuc, is_negative, minus, arith,
}
use proxy_part.Wire.{Time}
use proxy_part.Clock.{difference, second, elapsed, unsigned, expired, rtt}

-- A time in nanoseconds.
abbrev pub total : Time → ℕ
total t = t.tv_sec * second + t.tv_nsec

-- The fields of a time: less than a billion nanoseconds, and the seconds in 31 bits.
pub record Proper (t : Time) : Type 0 where
  pub nanoseconds : t.tv_nsec < second
  pub seconds : t.tv_sec < 2 ^ 31

minus-pos : (m n : ℕ) → n ≤ m → minus m n ≡ pos (m - n)
minus-pos m n h = ground arith

minus-negsuc : (m n : ℕ) → m < n → minus m n ≡ negsuc (n - m - 1)
minus-negsuc m n h = ground arith

-- The whole seconds, in the comparison's terms: how many, and how far below 2 ^ 32 if negative.
whole :
    (m n t : ℕ)
    → m ≤ 2 ^ 31
    → n ≤ 2 ^ 31
    → t ≤ 2 ^ 31
    → (leb t (unsigned (minus m n)) ≡ true) ↔ (m < n) ⊎ (n + t ≤ m)
whole m n t hm hn ht = ground arith

borrow : (m n : ℕ) → (is_negative (minus m n) ≡ true) ↔ (m < n)
borrow m n = ground arith

-- The comparison of the whole seconds against that of the nanoseconds.
borrowed :
    (s n s' n' t : ℕ)
    → n < n'
    → n' < second
    → ((s < s' + 1) ⊎ (s' + 1 + t ≤ s))
      ↔ ((s * second + n < s' * second + n') ⊎ (s' * second + n' + t * second ≤ s * second + n))
borrowed s n s' n' t h h' = ground arith

unborrowed :
    (s n s' n' t : ℕ)
    → n' ≤ n
    → n < second
    → ((s < s') ⊎ (s' + t ≤ s))
      ↔ ((s * second + n < s' * second + n') ⊎ (s' * second + n' + t * second ≤ s * second + n))
unborrowed s n s' n' t h h' = ground arith

not_borrow : (m n : ℕ) → is_negative (minus m n) ≡ false → n ≤ m
not_borrow m n h = ground arith

-- Where both numbers have 31 bits, nothing is lost.
difference-minus : (m n : ℕ) → m < 2 ^ 31 → n ≤ 2 ^ 31 → difference m n ≡ minus m n
unfolding difference
difference-minus m n hm hn = elim (Bool-cases (leb n m)) [
  | inl le ↦ let d : (m + (2 ^ 32 - n)) % 2 ^ 32 ≡ m - n = ground arith in rw d (ground arith)
  | inr gt ↦
      let d : (m + (2 ^ 32 - n)) % 2 ^ 32 ≡ m + (2 ^ 32 - n) = ground arith in rw d (ground arith)
]

-- For times of less than 2 ^ 31 seconds with less than a billion nanoseconds each, and a timeout
-- of at most 2 ^ 31 seconds, timeout_handler() takes a link for expired exactly if its timestamp is
-- at least the timeout in the past, or is in the future.
pub expired_iff :
    (now ts : Time) (link_timeout : ℕ)
    → Proper now
    → Proper ts
    → link_timeout ≤ 2 ^ 31
    → (expired now ts link_timeout ≡ true)
      ↔ (total now < total ts) ⊎ (total ts + link_timeout * second ≤ total now)
unfolding expired elapsed
expired_iff now ts t p q h =
    let nanos =
      difference-minus now.tv_nsec ts.tv_nsec (omega (arith, p.nanoseconds))
        (omega (arith, q.nanoseconds)) in
    let secs = difference-minus now.tv_sec ts.tv_sec p.seconds (omega (arith, q.seconds)) in
    let secs_borrowed =
      difference-minus now.tv_sec (ts.tv_sec + 1) p.seconds (omega (arith, q.seconds)) in
    elim (Bool-cases (is_negative (minus now.tv_nsec ts.tv_nsec))) [
      | inl e ↦
          let b = (borrow now.tv_nsec ts.tv_nsec).0 e in
          let w =
            whole now.tv_sec (ts.tv_sec + 1) t (omega (arith, p.seconds)) (omega (arith, q.seconds))
              h in
          let f = borrowed now.tv_sec now.tv_nsec ts.tv_sec ts.tv_nsec t b q.nanoseconds in
          rw (nanos, e, secs_borrowed) (λ a. f.0 (w.0 a), λ c. w.1 (f.1 c))
      | inr e ↦
          let w =
            whole now.tv_sec ts.tv_sec t (omega (arith, p.seconds)) (omega (arith, q.seconds)) h in
          let f =
            unborrowed now.tv_sec now.tv_nsec ts.tv_sec ts.tv_nsec t (not_borrow _ _ e)
              p.nanoseconds in
          rw (nanos, e, secs) (λ a. f.0 (w.0 a), λ c. w.1 (f.1 c))
    ]

-- Less than a billion of them are apart from the whole seconds.
pub rtt_nanoseconds :
    (now probe : Time) (a : ℤ) (n : ℕ)
    → Proper now
    → Proper probe
    → rtt now probe ≡ (a, pos n)
    → n < second
unfolding rtt
rtt_nanoseconds now probe a n p q h =
    elim (Bool-cases (is_negative (minus now.tv_nsec probe.tv_nsec))) [
      | inl e ↦
          let b = (borrow now.tv_nsec probe.tv_nsec).0 e in
          let m =
            minus-pos (now.tv_nsec + second) probe.tv_nsec
              (omega (arith, p.nanoseconds, q.nanoseconds)) in
          let eq = ap (λ x. pos_part x.1) (rw e at h) in
          let eq' : now.tv_nsec + second - probe.tv_nsec ≡ n = rw m at eq in
          omega (arith, p.nanoseconds, q.nanoseconds)
      | inr e ↦
          let b = not_borrow now.tv_nsec probe.tv_nsec e in
          let m = minus-pos now.tv_nsec probe.tv_nsec b in
          let eq = ap (λ x. pos_part x.1) (rw e at h) in
          let eq' : now.tv_nsec - probe.tv_nsec ≡ n = rw m at eq in
          omega (arith, p.nanoseconds, q.nanoseconds)
    ]
