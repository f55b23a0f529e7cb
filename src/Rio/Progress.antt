-- ===== src/Rio/Progress.antt =====
-- rio_readnb returns what was asked for when the bytes arrive and no call is interrupted; after an
-- interrupted call, `Wait()` never returns.
use proxy_part.Prelude.{
  ℕ, zero, suc, ◌+◌, ◌-◌, ◌≤◌, ◌<◌, ◌≡◌, refl, sym, ap, ◌∙◌, ◌⊎◌, inl, inr, List, [], ◌∷◌, ◌++◌,
  true, false, Bool-cases, if◌then◌else◌, leb, ℤ, pos, negsuc, is_negative, is_positive, pos_part,
  length, take, drop, arith, Option, none, some, length-append, append-take, true≢false,
}
use proxy_part.Rio.{
  Outcome, done, blocked, ◌>>=◌, Errno, eintr, Kernel, is_eintr, is_eagain, ReadReply, got,
  read_failed, Rio, buf_size, Filled, ready, returned, retry, wait, fill_read, fill, out_cnt,
  Received, finish_read, rio_read, readnb_round, readnb_loop, rio_readnb,
}
use proxy_part.Rio.Ends.{Ends, ends}
use proxy_part.Rio.Fill.{arriving, Fits, IsValid, stream}
use proxy_part.Rio.Stream.{rio_read-Reads, rio_readnb-Reads}

-- The call returns, with a result that satisfies `P`.
pub data Returns {ℓ κ} {A : Type ℓ} (P : A → Type κ) : Outcome A → Type (ℓ ⊔ κ) where
  returns : {a : A} → P a → Returns P (done a)

module _ {ℓ κ} {A : Type ℓ} {P : A → Type κ} where
  pub Returns-bind {ℓ' κ'} :
      {B : Type ℓ'} {Q : B → Type κ'} {o : Outcome A} {f : A → Outcome B}
      → Returns P o
      → ((a : A) → P a → Returns Q (f a))
      → Returns Q (o >>= f)
  Returns-bind (returns p) next = next _ p

  pub Returns-inv : {o : Outcome A} → Returns P o → (a : A) × (o ≡ done a) × P a
  Returns-inv (returns p) = (_, refl, p)

  -- What holds of a result, if there is one, and that there is one.
  pub Returns-both {κ'} :
      {Q : A → Type κ'} {o : Outcome A} → Returns P o → Ends Q o → Returns (λ a. P a × Q a) o
  Returns-both (returns p) (ends q) = returns (p, q)

abbrev pub Succeeds : List (Option Errno) → Type 0
Succeeds [] = Unit
Succeeds (none ∷ replies) = Succeeds replies
Succeeds (some e ∷ replies) = ⊥

-- Every `read()` brings bytes, or fails with EAGAIN.
abbrev pub Brings : List ReadReply → Type 0
Brings [] = Unit
Brings (got [] ∷ rs) = ⊥
Brings (got (x ∷ xs) ∷ rs) = (length (x ∷ xs) ≤ buf_size) × Brings rs
Brings (read_failed e ∷ rs) = (is_eagain e ≡ true) × Brings rs

-- `errno` is not EINTR, and there is a successful `poll()` for each of the replies `rs`.
pub record IsQuiet (rs : List ReadReply) (k : Kernel) : Type 0 where
  pub calm : is_eintr k.errno ≡ false
  pub polls : Succeeds k.polls
  pub enough : length rs ≤ length k.polls
  pub replies : Brings rs

eagain-ne-eintr : (e : Errno) → is_eagain e ≡ true → is_eintr e ≡ false
eagain-ne-eintr e h = ground arith

Brings-Fits : (rs : List ReadReply) → Brings rs → Fits rs
Brings-Fits [] b = tt
Brings-Fits (got [] ∷ rs) b = absurd b
Brings-Fits (got (x ∷ xs) ∷ rs) b = (b.0, Brings-Fits rs b.1)
Brings-Fits (read_failed e ∷ rs) b = Brings-Fits rs b.1

-- A `poll()` that succeeds at once ends the wait, and the code after it runs.
pub after_wait {ℓ κ} :
    {A : Type ℓ} {P : A → Type κ} (m : ℕ) (k : Kernel) (failed next : Kernel → Outcome A)
    → is_eintr k.errno ≡ false
    → Succeeds k.polls
    → suc m ≤ length k.polls
    → ((ps : List (Option Errno))
        → Succeeds ps
        → m ≤ length ps
        → Returns P (next (record k { polls = ps })))
    → Returns P (wait k >>= λ (v, k'). if is_negative v then failed k' else next k')
unfolding wait retry
after_wait {P} m k failed next calm polls enough go = step k.polls polls enough
  where
    step :
        (ps : List (Option Errno))
        → Succeeds ps
        → suc m ≤ length ps
        → Returns P (
            retry ps k.errno
            >>= (λ (v, e, rest). done (v, record k { errno = e; polls = rest }))
            >>= λ (v, k'). if is_negative v then failed k' else next k')
    step [] s h = absurd (omega arith)
    step (none ∷ ps) s h = rw calm (go ps s (omega arith))
    step (some e ∷ ps) s h = absurd s

abbrev Ready : Filled × Rio × Kernel → Type 0
Ready (f, rp, k) = (f ≡ ready) × (is_positive rp.cnt ≡ true) × IsQuiet k.reads k

-- One reply that brings bytes or EAGAIN.
reply-Ready :
    (rs : List ReadReply) (rp : Rio) (k : Kernel) (r : ReadReply)
    (again : Rio → Kernel → Outcome (Filled × Rio × Kernel))
    → ((rp' : Rio) (k' : Kernel)
        → IsQuiet rs k'
        → 0 < length (arriving rs)
        → Returns Ready (again rp' k'))
    → Brings (r ∷ rs)
    → 0 < length (arriving (r ∷ rs))
    → is_eintr k.errno ≡ false
    → Succeeds k.polls
    → length rs ≤ length k.polls
    → Returns Ready (fill_read r rp (record k { reads = rs }) again)
unfolding fill_read
reply-Ready rs rp k (got []) again next b p c s l = absurd b
reply-Ready rs rp k (got (x ∷ xs)) again next b p c s l =
    returns (refl, refl, record { calm = c; polls = s; enough = l; replies = b.1 })
reply-Ready rs rp k (read_failed e) again next b p c s l =
    rw (eagain-ne-eintr e b.0, b.0)
      (next _ _ (record { calm = eagain-ne-eintr e b.0; polls = s; enough = l; replies = b.1 }) p)

-- Data in the buffer or on the way ends the loop of rio_read with data in the buffer.
fill-Ready :
    (rs : List ReadReply) (rp : Rio) (k : Kernel)
    → IsQuiet rs k
    → (is_positive rp.cnt ≡ true) ⊎ (0 < length (arriving rs))
    → Returns Ready (fill rs rp k)
unfolding fill
fill-Ready [] rp k q (inl h) =
    rw h (
      returns (refl, h, record { calm = q.calm; polls = q.polls; enough = q.enough; replies = tt }))
fill-Ready [] rp k q (inr h) = absurd (omega arith)
fill-Ready (r ∷ rs) rp k q h = elim (Bool-cases (is_positive rp.cnt)) [
  | inl e ↦ rw e (
      returns (
        refl,
        e,
        record { calm = q.calm; polls = q.polls; enough = q.enough; replies = q.replies },
      ))
  | inr e ↦ rw e (
      after_wait (length rs) k _ _ q.calm q.polls q.enough λ ps s l.
        reply-Ready rs rp (record k { polls = ps }) r (fill rs)
          (λ rp' k'' q' p. fill-Ready rs rp' k'' q' (inr p)) q.replies (more h e) q.calm s l)
]
  where
    more :
        (is_positive rp.cnt ≡ true) ⊎ (0 < length (arriving (r ∷ rs)))
        → is_positive rp.cnt ≡ false
        → 0 < length (arriving (r ∷ rs))
    more (inl p) e = absurd (true≢false (sym p ∙ e))
    more (inr p) e = p

out_cnt_pos :
    (rp : Rio) (n : ℕ) → 0 < n → is_positive rp.cnt ≡ true → (m : ℕ) × (out_cnt rp n ≡ suc m)
unfolding out_cnt
out_cnt_pos rp n h p = (out_cnt rp n - 1, ground arith)

-- What a call of rio_read returns when bytes are there.
abbrev Some : Received → Type 0
Some (v, bytes, rp, k) = ((m : ℕ) × (v ≡ pos (suc m))) × IsQuiet k.reads k

rio_read-Some :
    (rp : Rio) (k : Kernel) (n : ℕ)
    → 0 < n
    → IsQuiet k.reads k
    → 0 < length (stream rp k)
    → Returns Some (rio_read rp k n)
unfolding rio_read finish_read
rio_read-Some rp k n h q there =
    Returns-bind (fill-Ready k.reads rp k q (source rp.cnt refl)) finish
  where
    source : (c : ℤ) → rp.cnt ≡ c → (is_positive rp.cnt ≡ true) ⊎ (0 < length (arriving k.reads))
    source (pos zero) e = inr (rw e at there)
    source (pos (suc m)) e = inl (rw e)
    source (negsuc m) e = inr (rw e at there)

    finish : (r : Filled × Rio × Kernel) → Ready r → Returns Some (finish_read n r)
    finish (ready, rp', k') (e, p, q') =
        let (m, c) = out_cnt_pos rp' n h p in returns ((m, ap pos c), q')
    finish (returned v, rp', k') (e, p, q') = cc

abbrev Whole : ℕ → Received → Type 0
Whole n (v, bytes, rp, k) = (v ≡ pos n) × IsQuiet k.reads k

readnb_loop-Whole :
    (fuel n nleft : ℕ) (rp : Rio) (k : Kernel) (stored : List ℕ)
    → nleft < fuel
    → IsValid rp
    → IsQuiet k.reads k
    → nleft ≤ length (stream rp k)
    → Returns (Whole n) (readnb_loop fuel n nleft rp k stored)
unfolding readnb_loop readnb_round
readnb_loop-Whole zero n nleft rp k stored lt v q there = absurd (omega arith)
readnb_loop-Whole (suc fuel) n nleft rp k stored lt v q there = elim (Bool-cases (leb nleft 0)) [
  | inl e ↦ let end : n - nleft ≡ n = ground arith in rw e (returns (ap pos end, q))
  | inr e ↦
      let more : 0 < nleft = ground arith in
      rw e (
        Returns-bind
          (Returns-both (rio_read-Some rp k nleft more q (omega arith))
            (rio_read-Reads rp k nleft v (Brings-Fits k.reads q.replies)))
          λ (w, bytes, rp', k') (((m, one), q'), reads).
            let size : suc m ≡ length bytes = ap pos_part (sym one ∙ reads.counted (rw one refl)) in
            rw one (
              readnb_loop-Whole fuel n (nleft - suc m) rp' k' (stored ++ bytes) (omega arith)
                reads.valid q'
                (omega (
                  arith,
                  size,
                  reads.short,
                  ap length reads.same,
                  length-append bytes (stream rp' k'),
                ))))
]

-- What rio_readnb gives when all the bytes are there.
pub record Delivered (n : ℕ) (bytes : List ℕ) (r : Received) : Type 0 where
  pub value : r.0 ≡ pos n
  pub stored : r.1 ≡ take n bytes
  pub rest : stream r.2 r.3 ≡ drop n bytes
  pub valid : IsValid r.2
  pub quiet : IsQuiet r.3.reads r.3

-- If `n` bytes are unread or arriving, every `poll()` succeeds, every `read()` brings bytes or
-- fails with EAGAIN, and `errno` is not EINTR, then rio_readnb returns `n`, stores exactly the
-- next `n` bytes of the stream, and leaves the rest of it, whatever pieces the bytes arrive in.
pub rio_readnb-Delivered :
    (rp : Rio) (k : Kernel) (n : ℕ)
    → IsValid rp
    → IsQuiet k.reads k
    → n ≤ length (stream rp k)
    → Returns (Delivered n (stream rp k)) (rio_readnb rp k n)
unfolding rio_readnb
rio_readnb-Delivered rp k n v q there =
    Returns-bind'
      (Returns-both (readnb_loop-Whole (n + 1) n n rp k [] (omega arith) v q there)
        (unfold rio_readnb in rio_readnb-Reads rp k n v (Brings-Fits k.reads q.replies)))
      λ (w, bytes, rp', k') ((one, q'), reads).
        let size : length bytes ≡ n = sym (ap pos_part (sym one ∙ reads.counted (rw one refl))) in
        let (front, back) = append-take reads.same size in
        record { value = one; stored = front; rest = back; valid = reads.valid; quiet = q' }
  where
    Returns-bind' :
        {P Q : Received → Type 0} {o : Outcome Received}
        → Returns P o
        → ((a : Received) → P a → Q a)
        → Returns Q o
    Returns-bind' (returns p) f = returns (f _ p)

spins :
    (replies : List (Option Errno)) (e : Errno)
    → Succeeds replies
    → is_eintr e ≡ true
    → retry replies e ≡ blocked
unfolding retry
spins [] e s h = refl
spins (none ∷ rest) e s h = rw h (spins rest e s h)
spins (some f ∷ rest) e s h = absurd s

-- An interrupted `poll()` leaves EINTR in `errno`, which no successful call resets: with EINTR in
-- `errno`, `Wait()` does not return, however often `poll()` succeeds. So it does not return either
-- when its first `poll()` is interrupted and all the others succeed.
pub wait_never_returns :
    (k : Kernel) (replies : List (Option Errno))
    → Succeeds replies
    → ((is_eintr k.errno ≡ true) × (k.polls ≡ replies)) ⊎ (k.polls ≡ some eintr ∷ replies)
    → wait k ≡ blocked
unfolding wait retry
wait_never_returns k replies s (inl (e, p)) = rw (p, spins replies k.errno s e)
wait_never_returns k replies s (inr p) = rw (p, retry, spins replies eintr s refl)
