-- ===== src/RwLock/Safety.antt =====
-- What the lock promises in every state that the threads can reach.
use proxy_part.Prelude.{ℕ, ◌+◌, ◌≤◌, ◌<◌, ◌≡◌, ◌≢◌, ◌⊎◌, inl, inr, arith, dec_lt, ℕ_discrete}
use proxy_part.RwLock.{
  Locks, Pc, reading, writing, rb_lock_r, wb_lock_w, rb_take_r, Move, System, Reach,
}
use proxy_part.RwLock.Counts.{total, weight-le-total, weights-le-total, totals-le}
use proxy_part.RwLock.Invariant.{
  Inv, Tally, in_write, is_reader, is_writer, takes_w, takes_r, Reach-Inv,
}

abbrev in_read : Pc → ℕ
in_read reading = 1
in_read _ = 0

abbrev barred : Pc → ℕ
barred wb_lock_w = 1
barred writing = 1
barred _ = 0

at_weight :
    (weight : Pc → ℕ) (n i : ℕ) (pc : ℕ → Pc) {p : Pc}
    → i < n
    → pc i ≡ p
    → weight p ≤ total weight n pc
at_weight weight n i pc lt e = rw e at (weight-le-total weight n i pc lt)

-- A writer that is inside leaves no reader but one that waits for `w`.
inside-alone :
    {l : Locks} {t : Tally} (k : ℕ)
    → Inv l t
    → 1 ≤ t.inside
    → t.first_reader + k ≤ t.readers
    → k ≡ 0
inside-alone {l} k v h le = elim (dec_lt 0 l.readcount) [
  | yes some ↦ omega (arith, v.w_some some)
  | no none ↦ omega arith
]

inside-le-one : {l : Locks} {t : Tally} → Inv l t → t.inside ≤ 1
inside-le-one {l} v = elim (dec_lt 0 l.readcount) [
  | yes some ↦ omega (arith, v.w_some some)
  | no none ↦ omega (arith, v.w_none (omega arith))
]

-- A writer that is past the first part of writeBegin() holds `r`.
writer-holds-r :
    {l : Locks} {t : Tally} (k : ℕ) → Inv l t → 1 ≤ k → t.first_writer + k ≤ t.writers → l.r ≢ 0
writer-holds-r {l} k v h le free =
    let some : 1 ≤ l.writecount = omega arith in omega (arith, v.r_some some)

-- While a thread is between writeBegin() and writeEnd(), no thread is between readBegin() and
-- readEnd().
pub writer_excludes_readers :
    {n : ℕ} {s : System}
    → Reach n s
    → (i j : ℕ) → i < n
    → j < n
    → s.pc i ≡ writing
    → s.pc j ≢ reading
writer_excludes_readers {n} {s} r i j hi hj wi rj =
    let alone =
      inside-alone (total in_read n s.pc) (Reach-Inv r) (at_weight in_write n i s.pc hi wi)
        (totals-le takes_w in_read is_reader (λ p. ground arith) n s.pc) in
    omega (arith, alone, at_weight in_read n j s.pc hj rj)

-- Two threads are never both between writeBegin() and writeEnd().
one_writer :
    {n : ℕ} {s : System}
    → Reach n s
    → (i j : ℕ) → i < n
    → j < n
    → s.pc i ≡ writing
    → s.pc j ≡ writing
    → i ≡ j
one_writer {n} {s} r i j hi hj wi wj = elim (ℕ_discrete i j) [
  | yes e ↦ e
  | no ne ↦
      let both : 2 ≤ total in_write n s.pc =
        rw (wi, wj) at (weights-le-total in_write n i j s.pc hi hj ne) in
      absurd (omega (arith, inside-le-one (Reach-Inv r), both))
]

-- Writers have preference: once a thread has passed the first part of writeBegin() and waits for
-- `w`, and until it calls writeEnd(), no thread gets past the lock of `r` in readBegin().
pub writer_bars_readers :
    {n : ℕ} {s : System}
    → Reach n s
    → (i : ℕ) → i < n
    → (s.pc i ≡ wb_lock_w) ⊎ (s.pc i ≡ writing)
    → (l : Locks) (p : Pc) → ¬ Move s.locks rb_lock_r l p
writer_bars_readers {n} {s} r i hi at l p (rb_take_r free) =
    writer-holds-r (total barred n s.pc) (Reach-Inv r) (counts at)
      (totals-le takes_r barred is_writer (λ p. ground arith) n s.pc) free
  where
    counts : (s.pc i ≡ wb_lock_w) ⊎ (s.pc i ≡ writing) → 1 ≤ total barred n s.pc
    counts (inl e) = at_weight barred n i s.pc hi e
    counts (inr e) = at_weight barred n i s.pc hi e
