-- ===== src/Rio/Ends.antt =====
-- The rules for calls that return, or wait for the operating system, but never run out of fuel.
use proxy_part.Prelude.{
  ◌≡◌, refl, Bool, true, false, if◌then◌else◌, ℤ, is_negative, List, [], ◌∷◌, Option, none, some,
}
use proxy_part.Rio.{
  Outcome, done, blocked, ◌>>=◌, Errno, Kernel, is_eintr, retry, wait, lock, takes, LockType,
}

-- If the call returns, its result satisfies `P`; it does not run out of fuel.
pub data Ends {ℓ κ} {A : Type ℓ} (P : A → Type κ) : Outcome A → Type (ℓ ⊔ κ) where
  ends : {a : A} → P a → Ends P (done a)
  waits : Ends P blocked

module _ {ℓ κ} {A : Type ℓ} {P : A → Type κ} where
  pub Ends-bind {ℓ' κ'} :
      {B : Type ℓ'} {Q : B → Type κ'} {o : Outcome A} {f : A → Outcome B}
      → Ends P o
      → ((a : A) → P a → Ends Q (f a))
      → Ends Q (o >>= f)
  Ends-bind (ends p) next = next _ p
  Ends-bind waits next = waits

  pub Ends-map {κ'} :
      {Q : A → Type κ'} {o : Outcome A} → Ends P o → ((a : A) → P a → Q a) → Ends Q o
  Ends-map (ends p) next = ends (next _ p)
  Ends-map waits next = waits

  pub Ends-if :
      {x y : Outcome A} (b : Bool)
      → (b ≡ true → Ends P x)
      → (b ≡ false → Ends P y)
      → Ends P (if b then x else y)
  Ends-if true p q = p refl
  Ends-if false p q = q refl

  -- The outcome of a call that ends well.
  pub Ends-done : {a : A} {o : Outcome A} → Ends P o → o ≡ done a → P a
  Ends-done (ends p) e = subst_done e p
    where
      subst_done : {a b : A} → done a ≡ done b → P a → P b
      subst_done {a} {b} q h = rw (← (done_injective q)) h
        where
          done_injective : done a ≡ done b → a ≡ b
          done_injective q' = cc
  Ends-done waits e = cc

-- What `Wait()` and `Lock()` leave alone.
pub record SameData (k k' : Kernel) : Type 0 where
  pub reads : k'.reads ≡ k.reads
  pub writes : k'.writes ≡ k.writes
  pub sent : k'.sent ≡ k.sent

retry-Ends :
    (replies : List (Option Errno)) (e : Errno)
    → Ends (λ (r : ℤ × Errno × List (Option Errno)). is_eintr r.1 ≡ false) (retry replies e)
unfolding retry
retry-Ends [] e = waits
retry-Ends (none ∷ rest) e = Ends-if (is_eintr e) (λ h. retry-Ends rest e) (λ h. ends h)
retry-Ends (some f ∷ rest) e = Ends-if (is_eintr f) (λ h. retry-Ends rest f) (λ h. ends h)

pub wait-SameData :
    (k : Kernel)
    → Ends
        (λ (r : ℤ × Kernel).
          SameData k r.1 × (r.1.locked ≡ k.locked) × (is_eintr r.1.errno ≡ false))
        (wait k)
unfolding wait
wait-SameData k =
    Ends-bind (retry-Ends k.polls k.errno)
      λ a h. ends (record { reads = refl; writes = refl; sent = refl }, refl, h)

pub lock-SameData :
    (type : LockType) (k : Kernel)
    → Ends
        (λ (r : ℤ × Kernel).
          SameData k r.1
          × (is_negative r.0 ≡ false → r.1.locked ≡ takes type)
          × (is_negative r.0 ≡ true → r.1.locked ≡ k.locked))
        (lock type k)
unfolding lock
lock-SameData type k =
    Ends-bind (retry-Ends k.fcntls k.errno)
      λ a h. ends (record { reads = refl; writes = refl; sent = refl }, (λ n. rw n), (λ n. rw n))
