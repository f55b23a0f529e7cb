-- ===== src/Proxy/Safe.antt =====
-- Calls that neither fault nor wait for a lock of their own, and what holds when they end.
use proxy_part.Prelude.{ℕ, ◌≡◌, refl, List, [], ◌∷◌, Bool, true, false, if◌then◌else◌, ℤ}
use proxy_part.Rio.{Kernel, Outcome, rio_write}
use proxy_part.Rio.Ends.{Ends, ends, waits}
use proxy_part.Rio.Write.{Writes, rio_write-Writes}
use proxy_part.UtHash.{Item}
use proxy_part.Proxy.{Proxy, Run, ret, exited, waiting, M, ◌>>=◌, update, fd_write, each}

-- If the run returns, its result and state satisfy `P`; if it exits, its status and state satisfy
-- `E`; otherwise it is still waiting for the operating system.
pub data Safe {S A : Type 0} (Q : A → S → Type 0) (E : ℤ → S → Type 0) : Run S A → Type 0 where
  returns : {a : A} {s : S} → Q a s → Safe Q E (ret a s)
  exits : {v : ℤ} {s : S} → E v s → Safe Q E (exited v s)
  pending : Safe Q E waiting

-- The run does not exit.
abbrev pub Never : {S : Type 0} → ℤ → S → Type 0
Never v s = ⊥

module _ {S A : Type 0} {Q : A → S → Type 0} {E : ℤ → S → Type 0} where
  pub Safe-eq : {x y : Run S A} → x ≡ y → Safe Q E y → Safe Q E x
  Safe-eq e safe = rw e safe

  pub Safe-bind :
      {B : Type 0} {R : B → S → Type 0} (m : M S A) (f : A → M S B) (s : S)
      → Safe Q E (m s)
      → ((a : A) (t : S) → Q a t → Safe R E (f a t))
      → Safe R E ((m >>= f) s)
  Safe-bind {B} {R} m f s safe next = go (m s) refl safe
    where
      go : (r : Run S A) → m s ≡ r → Safe Q E r → Safe R E ((m >>= f) s)
      go r e (returns q) = rw (e, ◌>>=◌) (next _ _ q)
      go r e (exits q) = rw (e, ◌>>=◌) (exits q)
      go r e pending = rw (e, ◌>>=◌) pending

  pub Safe-map :
      {R : A → S → Type 0} {F : ℤ → S → Type 0} {r : Run S A}
      → Safe Q E r
      → ((a : A) (s : S) → Q a s → R a s)
      → ((v : ℤ) (s : S) → E v s → F v s)
      → Safe R F r
  Safe-map (returns q) f g = returns (f _ _ q)
  Safe-map (exits q) f g = exits (g _ _ q)
  Safe-map pending f g = pending

  pub Safe-if :
      {x y : Run S A} (b : Bool)
      → (b ≡ true → Safe Q E x)
      → (b ≡ false → Safe Q E y)
      → Safe Q E (if b then x else y)
  Safe-if true p q = p refl
  Safe-if false p q = q refl

pub Safe-choose :
    {S A : Type 0} {Q : A → S → Type 0} {E : ℤ → S → Type 0} (b : Bool) (x y : M S A) (s : S)
    → (b ≡ true → Safe Q E (x s))
    → (b ≡ false → Safe Q E (y s))
    → Safe Q E ((if b then x else y) s)
Safe-choose true x y s p q = p refl
Safe-choose false x y s p q = q refl

-- The first branch, where the test is known to hold.
pub Safe-given :
    {S A : Type 0} {Q : A → S → Type 0} {E : ℤ → S → Type 0} (b : Bool) (x y : M S A) (s : S)
    → b ≡ true
    → Safe Q E (x s)
    → Safe Q E ((if b then x else y) s)
Safe-given b x y s e q = Safe-choose b x y s (λ _. q) (λ e'. absurd (cc))

-- A write changes one descriptor, as rio_write does, and `errno`.
pub record Wrote {T : Type 0} (fd : ℕ) (bytes : List ℕ) (s : Proxy T) (v : ℤ) (t : Proxy T)
    : Type 0 where
  pub kernel : Kernel
  pub state : t ≡ record s {
    files = update s.files fd kernel;
    errno = kernel.errno;
    written = (fd, bytes) ∷ s.written;
  }
  pub writes : Writes bytes (record (s.files fd) { errno = s.errno }) (v, kernel)

pub fd_write-Wrote :
    {T : Type 0} {E : ℤ → Proxy T → Type 0} (fd : ℕ) (bytes : List ℕ) (s : Proxy T)
    → Safe (Wrote fd bytes s) E (fd_write fd bytes s)
unfolding fd_write
fd_write-Wrote {T} {E} fd bytes s = go (rio_write k bytes) refl (rio_write-Writes k bytes)
  where
    k : Kernel
    k = record (s.files fd) { errno = s.errno }

    go :
        (o : Outcome (ℤ × Kernel))
        → rio_write k bytes ≡ o
        → Ends (Writes bytes k) o
        → Safe (Wrote fd bytes s) E (fd_write fd bytes s)
    go o e (ends w) = rw (e, fd_write) (returns (record { kernel = _; state = refl; writes = w }))
    go o e waits = rw (e, fd_write) pending

-- The rule for HASH_ITER: `I` holds of the items that are left.
pub each-Safe :
    {S : Type 0} {E : ℤ → S → Type 0} (I : List Item → S → Type 0) (body : ℕ → M S (Unit {0}))
    → ((k : List ℕ) (p : ℕ) (rest : List Item) (s : S)
        → I ((k, p) ∷ rest) s
        → Safe (λ _ t. I rest t) E (body p s))
    → (items : List Item) (s : S) → I items s
    → Safe (λ _ t. I [] t) E (each body items s)
each-Safe I body keep [] s i = returns i
each-Safe I body keep ((k, p) ∷ items) s i =
    Safe-bind (body p) (λ _. each body items) s (keep k p items s i)
      λ a t j. each-Safe I body keep items t j
