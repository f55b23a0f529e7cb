-- ===== src/Rio.antt =====
-- rio.c and rio.h: robust input and output over a non-blocking descriptor.
-- The operating system is an argument: a `Kernel` holds the replies that its calls are going to
-- give, in order. A call that finds its list empty has not returned yet, `blocked`.
pub mod Ends
pub mod Fill
pub mod Stream
pub mod Frames
pub mod Progress
pub mod Write
mod Tests
use proxy_part.Prelude.{
  ℕ, zero, suc, ◌+◌, ◌-◌, List, [], ◌∷◌, ◌++◌, Option, none, some, Bool, true, false, ltb, leb,
  if◌then◌else◌, ℤ, pos, negsuc, minus_one, is_negative, is_positive, pos_part, length, take, drop,
}

-- The values of `errno` that the code tells apart.
pub data Errno : Type 0 where
  no_error eintr eagain other : Errno

abbrev pub is_eintr : Errno → Bool
is_eintr eintr = true
is_eintr _ = false

abbrev pub is_eagain : Errno → Bool
is_eagain eagain = true
is_eagain _ = false

-- What `read()` does: it gives bytes (none of them at the end of the file), or fails.
pub data ReadReply : Type 0 where
  got : List ℕ → ReadReply
  read_failed : Errno → ReadReply

-- What `write()` does: it accepts a number of bytes, or fails.
pub data WriteReply : Type 0 where
  accepted : ℕ → WriteReply
  write_failed : Errno → WriteReply

-- `errno`, the replies to come, the bytes sent, and whether the descriptor's file lock is held.
-- In `polls` and `fcntls`, `none` is success and `some e` a failure with that `errno`.
pub record Kernel : Type 0 where
  pub errno : Errno
  pub polls : List (Option Errno)
  pub fcntls : List (Option Errno)
  pub reads : List ReadReply
  pub writes : List WriteReply
  pub sent : List ℕ
  pub locked : Bool

-- How a call ends: it returns, it has not returned, or the model's fuel ran out.
pub data Outcome {ℓ} (A : Type ℓ) : Type ℓ where
  done : A → Outcome A
  blocked out_of_fuel : Outcome A

infixl 5 ◌>>=◌
abbrev pub ◌>>=◌ {ℓ κ} : {A : Type ℓ} {B : Type κ} → Outcome A → (A → Outcome B) → Outcome B
done a >>= f = f a
blocked >>= f = blocked
out_of_fuel >>= f = out_of_fuel

-- `do { if(call()<0 && errno!=EINTR) return -1; } while(errno==EINTR); return 0;`
-- A call that succeeds leaves `errno` as it was.
unfoldable pub retry : List (Option Errno) → Errno → Outcome (ℤ × Errno × List (Option Errno))
retry [] e = blocked
retry (none ∷ rest) e =
    let again = retry rest e in if is_eintr e then again else done (pos 0, e, rest)
retry (some f ∷ rest) e =
    let again = retry rest f in if is_eintr f then again else done (minus_one, f, rest)

unfoldable pub wait : Kernel → Outcome (ℤ × Kernel)
unfolding retry
wait k = do (v, e, rest) ← retry k.polls k.errno; done (v, record k { errno = e; polls = rest })

-- `F_WRLCK` and `F_RDLCK` take the lock, `F_UNLCK` gives it back.
pub data LockType : Type 0 where
  read_lock write_lock unlock : LockType

abbrev pub takes : LockType → Bool
takes unlock = false
takes _ = true

unfoldable pub lock : LockType → Kernel → Outcome (ℤ × Kernel)
unfolding retry
lock type k = do
  (v, e, rest) ← retry k.fcntls k.errno
  done (
    v,
    record k { errno = e; fcntls = rest; locked = if is_negative v then k.locked else takes type },
  )

-- ETH_FRAME_LEN + PROXY_HLEN
abbrev pub buf_size : ℕ
buf_size = 1514 + 4

-- `rio_t`: `bufp` is the offset of the first unread byte.
pub record Rio : Type 0 where
  pub cnt : ℤ
  pub bufp : ℕ
  pub buf : List ℕ

-- What `memcpy` of `xs` to the start of the buffer leaves in it.
abbrev pub overwrite : List ℕ → List ℕ → List ℕ
overwrite xs buf = xs ++ drop (length xs) buf

abbrev pub zeros : ℕ → List ℕ
zeros zero = []
zeros (suc n) = 0 ∷ zeros n

-- The descriptor's flags, which the routine also sets, are behind the replies of the `Kernel`. The
-- calls of fcntl() that set them do not fail here, and so the routine does not exit.
unfoldable pub rio_readinit : Rio
rio_readinit = record { cnt = pos 0; bufp = 0; buf = zeros buf_size }

-- The `while(rp->cnt<=0)` loop of rio_read either leaves data in the buffer or returns a value.
pub data Filled : Type 0 where
  ready : Filled
  returned : ℤ → Filled

-- One `read()`, with what the loop does next given as `again`.
unfoldable pub fill_read :
    ReadReply
    → Rio
    → Kernel
    → (Rio → Kernel → Outcome (Filled × Rio × Kernel))
    → Outcome (Filled × Rio × Kernel)
fill_read (got []) rp k again = done (returned (pos 0), record rp { cnt = pos 0 }, k)
fill_read (got (x ∷ xs)) rp k again =
    done
      (ready, record { cnt = pos (length (x ∷ xs)); bufp = 0; buf = overwrite (x ∷ xs) rp.buf }, k)
fill_read (read_failed e) rp k again =
    let rp' = record rp { cnt = minus_one } in
    let k' = record k { errno = e } in
    if is_eintr e
    then again rp' k'
    else if is_eagain e
    then again rp' k'
    else done (returned minus_one, rp', k')

-- The list is `k.reads`, which the loop consumes.
unfoldable pub fill : List ReadReply → Rio → Kernel → Outcome (Filled × Rio × Kernel)
unfolding wait fill_read
fill [] rp k =
    let poll = wait k >>= λ (v, k').
    if is_negative v then done (returned minus_one, rp, record k' { reads = [] }) else blocked in
    if is_positive rp.cnt then done (ready, rp, record k { reads = [] }) else poll
fill (r ∷ rs) rp k =
    let poll = wait k >>= λ (v, k').
    if is_negative v
    then done (returned minus_one, rp, record k' { reads = r ∷ rs })
    else fill_read r rp (record k' { reads = rs }) (fill rs) in
    if is_positive rp.cnt then done (ready, rp, record k { reads = r ∷ rs }) else poll

-- The number of bytes that the end of rio_read hands over: at most `n` of the unread ones.
unfoldable pub out_cnt : Rio → ℕ → ℕ
out_cnt rp n = if ltb (pos_part rp.cnt) n then pos_part rp.cnt else n

-- The buffer after they have been handed over.
unfoldable pub advance : Rio → ℕ → Rio
advance rp c =
    let left = pos_part rp.cnt - c in
    record rp { cnt = pos left; bufp = if leb left 0 then 0 else rp.bufp + c }

-- The returned value, the bytes stored in the caller's buffer, and the new states.
abbrev pub Received : Type 0
Received = ℤ × List ℕ × Rio × Kernel

unfoldable pub finish_read : ℕ → Filled × Rio × Kernel → Outcome Received
unfolding out_cnt advance
finish_read n (returned v, rp, k) = done (v, [], rp, k)
finish_read n (ready, rp, k) =
    let c = out_cnt rp n in done (pos c, take c (drop rp.bufp rp.buf), advance rp c, k)

unfoldable pub rio_read : Rio → Kernel → ℕ → Outcome Received
unfolding fill finish_read
rio_read rp k n = fill k.reads rp k >>= finish_read n

-- One round of the loop of rio_readnb, with the rounds after it as `again`, and `n`, `nleft` and
-- the bytes already stored.
unfoldable pub readnb_round :
    (ℕ → Rio → Kernel → List ℕ → Outcome Received)
    → (n nleft : ℕ) → List ℕ
    → Received
    → Outcome Received
readnb_round again n nleft stored (negsuc m, bytes, rp, k) =
    if is_eintr k.errno then again nleft rp k stored else done (minus_one, stored ++ bytes, rp, k)
readnb_round again n nleft stored (pos zero, bytes, rp, k) = done (pos (n - nleft), stored, rp, k)
readnb_round again n nleft stored (pos (suc m), bytes, rp, k) =
    again (nleft - suc m) rp k (stored ++ bytes)

unfoldable pub readnb_loop : ℕ → (n nleft : ℕ) → Rio → Kernel → List ℕ → Outcome Received
unfolding rio_read readnb_round
readnb_loop zero n nleft rp k stored = out_of_fuel
readnb_loop (suc fuel) n nleft rp k stored =
    let round =
      rio_read rp k nleft >>= readnb_round (λ l r q s. readnb_loop fuel n l r q s) n nleft stored in
    if leb nleft 0 then done (pos (n - nleft), stored, rp, k) else round

-- Each round stores a byte, so `n + 1` rounds are enough (Rio/Progress).
unfoldable pub rio_readnb : Rio → Kernel → ℕ → Outcome Received
unfolding readnb_loop
rio_readnb rp k n = readnb_loop (n + 1) n n rp k []

-- The bytes of `usrbuf` that are not written yet are `rest`, and there are `nleft` of them.
-- The list is `k.writes`, which the loop consumes.
unfoldable pub write_loop : List WriteReply → List ℕ → Kernel → Outcome (Bool × Kernel)
unfolding wait
write_loop ws [] k = done (true, record k { writes = ws })
write_loop [] (b ∷ rest) k =
    wait k >>= λ (v, k'). if is_negative v then done (false, record k' { writes = [] }) else blocked
write_loop (accepted m ∷ ws) (b ∷ rest) k =
    let go = λ (q : Kernel).
      write_loop ws (drop m (b ∷ rest))
        (record q { writes = ws; sent = q.sent ++ take m (b ∷ rest) }) in
    wait k >>= λ (v, k').
    if is_negative v then done (false, record k' { writes = accepted m ∷ ws }) else go k'
write_loop (write_failed e ∷ ws) (b ∷ rest) k =
    let go = λ (q : Kernel). write_loop ws (b ∷ rest) (record q { writes = ws; errno = e }) in
    wait k >>= λ (v, k').
    if is_negative v
    then done (false, record k' { writes = write_failed e ∷ ws })
    else if is_eintr e
    then go k'
    else lock unlock (record k' { writes = ws; errno = e }) >>= λ (u, k''). done (false, k'')

-- The new kernel and the returned value; `n` is the length of the bytes. `write()` accepts no more
-- than it is given. When the loop ends by its test, `nleft` is 0 and `n-nleft` is `n`.
unfoldable pub rio_write : Kernel → List ℕ → Outcome (ℤ × Kernel)
unfolding lock write_loop
rio_write k bytes = lock write_lock k >>= λ (v, k₁).
    if is_negative v
    then done (minus_one, k₁)
    else (write_loop k₁.writes bytes k₁ >>= λ (whole, k₂).
        if whole
        then (lock unlock k₂ >>= λ (u, k₃).
            if is_negative u then done (minus_one, k₃) else done (pos (length bytes), k₃))
        else done (minus_one, k₂))
