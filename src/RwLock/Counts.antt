-- ===== src/RwLock/Counts.antt =====
-- How many of the first `n` threads stand at given places.
use proxy_part.Prelude.{ℕ, zero, suc, ◌+◌, ◌≤◌, ◌<◌, ◌≡◌, ◌≢◌, refl, arith, dec_lt}
use proxy_part.RwLock.{Pc, put}

module _ (weight : Pc → ℕ) where
  pub total : ℕ → (ℕ → Pc) → ℕ
  total zero pc = 0
  total (suc n) pc = weight (pc n) + total n pc

  total-put_beyond : (n i : ℕ) (pc : ℕ → Pc) (p : Pc) → n ≤ i → total n (put pc i p) ≡ total n pc
  unfolding total
  total-put_beyond zero i pc p h = refl
  total-put_beyond (suc n) i pc p h = ground (arith, total-put_beyond n i pc p)

  -- When thread `i` goes to `p`, the total changes by the weights of its two places.
  pub total-put :
      (n i : ℕ) (pc : ℕ → Pc) (p : Pc)
      → i < n
      → total n (put pc i p) + weight (pc i) ≡ total n pc + weight p
  unfolding total
  total-put zero i pc p h = absurd (omega arith)
  total-put (suc n) i pc p h = elim (dec_lt i n) [
    | yes inside ↦ ground (arith, total-put n i pc p inside)
    | no last ↦ ground (arith, total-put_beyond n i pc p)
  ]

  pub total-idle : (n : ℕ) → weight Pc.idle ≡ 0 → total n (λ _. Pc.idle) ≡ 0
  unfolding total
  total-idle zero h = refl
  total-idle (suc n) h = omega (arith, total-idle n h)

  -- A thread counts towards the total.
  pub weight-le-total : (n i : ℕ) (pc : ℕ → Pc) → i < n → weight (pc i) ≤ total n pc
  unfolding total
  weight-le-total zero i pc h = absurd (omega arith)
  weight-le-total (suc n) i pc h = elim (dec_lt i n) [
    | yes inside ↦ omega (arith, weight-le-total n i pc inside)
    | no last ↦ let e : i ≡ n = omega arith in rw e (omega arith)
  ]

  -- Two threads do.
  pub weights-le-total :
      (n i j : ℕ) (pc : ℕ → Pc) → i < n → j < n → i ≢ j → weight (pc i) + weight (pc j) ≤ total n pc
  unfolding total
  weights-le-total zero i j pc hi hj ne = absurd (omega arith)
  weights-le-total (suc n) i j pc hi hj ne = elim (dec_lt i n) [
    | yes p ↦ elim (dec_lt j n) [
      | yes q ↦ omega (arith, weights-le-total n i j pc p q ne)
      | no q ↦ let e : j ≡ n = omega arith in rw e (omega (arith, weight-le-total n i pc p))
    ]
    | no p ↦
        let e : i ≡ n = omega arith in rw e (omega (arith, weight-le-total n j pc (omega arith)))
  ]

-- Weights that add up to at most a third one do so in total.
pub totals-le :
    (u v w : Pc → ℕ)
    → ((p : Pc) → u p + v p ≤ w p)
    → (n : ℕ) (pc : ℕ → Pc) → total u n pc + total v n pc ≤ total w n pc
unfolding total
totals-le u v w h zero pc = omega arith
totals-le u v w h (suc n) pc = omega (arith, h (pc n), totals-le u v w h n pc)

-- A total that is not 0 has a thread that counts towards it.
pub counted :
    (weight : Pc → ℕ) (n : ℕ) (pc : ℕ → Pc)
    → 1 ≤ total weight n pc
    → (j : ℕ) × (j < n) × (1 ≤ weight (pc j))
unfolding total
counted weight zero pc h = absurd (omega arith)
counted weight (suc n) pc h = elim (dec_lt 0 (weight (pc n))) [
  | yes here ↦ (n, omega arith, here)
  | no other ↦ let (j, lt, w) = counted weight n pc (omega arith) in (j, omega arith, w)
]
