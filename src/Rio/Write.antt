-- ===== src/Rio/Write.antt =====
-- rio_write: what reaches the descriptor, the value that says so, and the file lock.
use proxy_part.Prelude.{
  ℕ, zero, suc, ◌+◌, ◌≤◌, ◌≡◌, refl, sym, ap, ◌∙◌, List, [], ◌∷◌, ◌++◌, Bool, true, false,
  if◌then◌else◌, ℤ, pos, is_negative, length, take, drop, arith, Option, none, some, append-nil,
  append_assoc, take-append-drop, minus_one, length-drop,
}
use proxy_part.Rio.{
  Outcome, done, ◌>>=◌, Errno, Kernel, is_eintr, WriteReply, accepted, write_failed, unlock,
  write_lock, LockType, takes, retry, lock, write_loop, rio_write,
}
use proxy_part.Rio.Ends.{
  Ends, ends, waits, Ends-bind, Ends-map, Ends-if, SameData, wait-SameData, lock-SameData,
}
use proxy_part.Rio.Progress.{Returns, returns, Returns-bind, Succeeds, after_wait}

-- A call that writes `bytes` sends a part of them from the front, and nothing is read.
pub record Sends (bytes : List ℕ) (k k' : Kernel) : Type 0 where
  pub front : List ℕ
  pub back : List ℕ
  pub parts : front ++ back ≡ bytes
  pub sent : k'.sent ≡ k.sent ++ front
  pub reads : k'.reads ≡ k.reads

abbrev Loop : List ℕ → Kernel → Bool × Kernel → Type 0
Loop bytes k (whole, k') = (s : Sends bytes k k') × (whole ≡ true → s.back ≡ [])

unsent : (bytes : List ℕ) {k k' : Kernel} → k'.sent ≡ k.sent → k'.reads ≡ k.reads → Sends bytes k k'
unsent bytes {k} e r = record {
  front = [];
  back = bytes;
  parts = refl;
  sent = e ∙ sym (append-nil k.sent);
  reads = r;
}

-- A part of the bytes goes out first, then some of the others.
Sends-more :
    (m : ℕ) (bytes : List ℕ) {k k₁ k' : Kernel}
    → k₁.sent ≡ k.sent ++ take m bytes
    → k₁.reads ≡ k.reads
    → (s : Sends (drop m bytes) k₁ k') → (t : Sends bytes k k') × (t.back ≡ s.back)
Sends-more m bytes {k} e r s = (
  record {
    front = take m bytes ++ s.front;
    back = s.back;
    parts =
        append_assoc (take m bytes) s.front s.back
        ∙ (ap (λ x. take m bytes ++ x) s.parts ∙ take-append-drop m bytes);
    sent = s.sent ∙ (ap (λ x. x ++ s.front) e ∙ append_assoc k.sent (take m bytes) s.front);
    reads = s.reads ∙ r;
  },
  refl,
)

write_loop-Sends :
    (ws : List WriteReply) (rest : List ℕ) (k : Kernel) → Ends (Loop rest k) (write_loop ws rest k)
unfolding write_loop
write_loop-Sends ws [] k = ends (
  record { front = []; back = []; parts = refl; sent = sym (append-nil k.sent); reads = refl },
  λ _. refl,
)
write_loop-Sends [] (b ∷ rest) k = Ends-bind (wait-SameData k) λ a (d, l, e).
    Ends-if (is_negative a.0) (λ n. ends (unsent (b ∷ rest) d.sent d.reads, λ h. cc)) λ n. waits
write_loop-Sends (accepted m ∷ ws) (b ∷ rest) k = Ends-bind (wait-SameData k) λ a (d, l, e).
    Ends-if (is_negative a.0) (λ n. ends (unsent (b ∷ rest) d.sent d.reads, λ h. cc))
      λ n. Ends-map (write_loop-Sends ws (drop m (b ∷ rest)) _) λ r (s, whole).
        let (t, same) =
          Sends-more m (b ∷ rest) (ap (λ x. x ++ take m (b ∷ rest)) d.sent) d.reads s in
        (t, λ h. same ∙ whole h)
write_loop-Sends (write_failed f ∷ ws) (b ∷ rest) k = Ends-bind (wait-SameData k) λ a (d, l, e).
    Ends-if (is_negative a.0) (λ n. ends (unsent (b ∷ rest) d.sent d.reads, λ h. cc))
      λ n.
        Ends-if (is_eintr f)
          (λ i. Ends-map (write_loop-Sends ws (b ∷ rest) _) λ r (s, whole). (
            record {
              front = s.front;
              back = s.back;
              parts = s.parts;
              sent = s.sent ∙ ap (λ x. x ++ s.front) d.sent;
              reads = s.reads ∙ d.reads;
            },
            whole,
          ))
          λ i. Ends-bind (lock-SameData unlock _) λ u (d', _, _).
            ends (unsent (b ∷ rest) (d'.sent ∙ d.sent) (d'.reads ∙ d.reads), λ h. cc)

-- What rio_write does for `bytes`.
pub record Writes (bytes : List ℕ) (k : Kernel) (r : ℤ × Kernel) : Type 0 where
  pub sends : Sends bytes k r.1
  pub whole :
      is_negative r.0 ≡ false
      → (r.0 ≡ pos (length bytes)) × (r.1.sent ≡ k.sent ++ bytes) × (r.1.locked ≡ false)

after-Loop :
    (bytes : List ℕ) (k k₁ : Kernel) (r : Bool × Kernel)
    → SameData k k₁
    → Loop bytes k₁ r
    → Ends (Writes bytes k) (
        let (whole, k₂) = r in
        if whole
        then (lock unlock k₂ >>= λ (u, k₃).
            if is_negative u then done (minus_one, k₃) else done (pos (length bytes), k₃))
        else done (minus_one, k₂))
after-Loop bytes k k₁ (whole, k₂) d (s, all) =
    Ends-if whole
      (λ w. Ends-bind (lock-SameData unlock k₂) λ u (d', given, _).
        let bytes_sent : s.front ≡ bytes =
          sym (append-nil s.front) ∙ (ap (λ x. s.front ++ x) (sym (all w)) ∙ s.parts) in
        let t : Sends bytes k k₂ = sent_from_start in
        let t' : Sends bytes k u.1 = record {
          front = t.front;
          back = t.back;
          parts = t.parts;
          sent = d'.sent ∙ t.sent;
          reads = d'.reads ∙ t.reads;
        } in
        Ends-if (is_negative u.0) (λ n. ends (record { sends = t'; whole = λ h. cc }))
          λ n. ends (record {
            sends = t';
            whole = λ h. (refl, t'.sent ∙ ap (λ x. k.sent ++ x) bytes_sent, given n);
          }))
      λ w. ends (record { sends = sent_from_start; whole = λ h. cc })
  where
    sent_from_start : Sends bytes k k₂
    sent_from_start = record {
      front = s.front;
      back = s.back;
      parts = s.parts;
      sent = s.sent ∙ ap (λ x. x ++ s.front) d.sent;
      reads = s.reads ∙ d.reads;
    }

-- rio_write sends a part of its bytes from the front, in order and none of them twice, on every
-- branch. If it does not return a negative value, it returns their number, has sent all of them
-- and has given the file lock back. It reads nothing.
pub rio_write-Writes : (k : Kernel) (bytes : List ℕ) → Ends (Writes bytes k) (rio_write k bytes)
unfolding rio_write
rio_write-Writes k bytes = Ends-bind (lock-SameData write_lock k) λ a (d, _, _).
    Ends-if (is_negative a.0)
      (λ n. ends (record { sends = unsent bytes d.sent d.reads; whole = λ h. cc }))
      λ n. Ends-bind (write_loop-Sends a.1.writes bytes a.1) λ r l. after-Loop bytes k a.1 r d l

-- Every `write()` accepts at least one byte.
abbrev pub Accepts : List WriteReply → Type 0
Accepts [] = Unit
Accepts (accepted zero ∷ ws) = ⊥
Accepts (accepted (suc m) ∷ ws) = Accepts ws
Accepts (write_failed e ∷ ws) = ⊥

abbrev pub capacity : List WriteReply → ℕ
capacity [] = 0
capacity (accepted m ∷ ws) = m + capacity ws
capacity (write_failed e ∷ ws) = capacity ws

-- Nothing is interrupted or fails, and the descriptor takes `n` bytes in the end.
pub record IsWritable (n : ℕ) (k : Kernel) : Type 0 where
  pub calm : is_eintr k.errno ≡ false
  pub fcntls : Succeeds k.fcntls × (2 ≤ length k.fcntls)
  pub polls : Succeeds k.polls × (length k.writes ≤ length k.polls)
  pub accepts : Accepts k.writes
  pub enough : n ≤ capacity k.writes

-- A lock that succeeds at once, and the code after it.
after_lock {κ} :
    {P : ℤ × Kernel → Type κ} (type : LockType) (m : ℕ) (k : Kernel)
    (failed next : Kernel → Outcome (ℤ × Kernel))
    → is_eintr k.errno ≡ false
    → Succeeds k.fcntls
    → suc m ≤ length k.fcntls
    → ((fs : List (Option Errno))
        → Succeeds fs
        → m ≤ length fs
        → Returns P (next (record k { fcntls = fs; locked = takes type })))
    → Returns P (lock type k >>= λ (v, k'). if is_negative v then failed k' else next k')
unfolding lock retry
after_lock {P} type m k failed next calm ok enough go = step k.fcntls ok enough
  where
    step :
        (fs : List (Option Errno))
        → Succeeds fs
        → suc m ≤ length fs
        → Returns P (
            retry fs k.errno
            >>= (λ (v, e, rest). done (
              v,
              record k {
                errno = e;
                fcntls = rest;
                locked = if is_negative v then k.locked else takes type;
              },
            ))
            >>= λ (v, k'). if is_negative v then failed k' else next k')
    step [] s h = absurd (omega arith)
    step (none ∷ fs) s h = rw calm (go fs s (omega arith))
    step (some e ∷ fs) s h = absurd s

abbrev Finished : Kernel → Bool × Kernel → Type 0
Finished k (whole, k') = (whole ≡ true) × (is_eintr k'.errno ≡ false) × (k'.fcntls ≡ k.fcntls)

write_loop_finishes :
    (ws : List WriteReply) (rest : List ℕ) (k : Kernel)
    → is_eintr k.errno ≡ false
    → Succeeds k.polls
    → length ws ≤ length k.polls
    → Accepts ws
    → length rest ≤ capacity ws
    → Returns (Finished k) (write_loop ws rest k)
unfolding write_loop
write_loop_finishes ws [] k c p l a e = returns (refl, c, refl)
write_loop_finishes [] (b ∷ rest) k c p l a e = absurd (omega arith)
write_loop_finishes (accepted zero ∷ ws) (b ∷ rest) k c p l a e = absurd a
write_loop_finishes (accepted (suc m) ∷ ws) (b ∷ rest) k c p l a e =
    after_wait (length ws) k _ _ c p l
      λ ps s h. write_loop_finishes ws (drop m rest) _ c s h a (omega (arith, length-drop m rest))
write_loop_finishes (write_failed f ∷ ws) (b ∷ rest) k c p l a e = absurd a

-- If no call is interrupted or fails, and the descriptor accepts at least one byte at a time and
-- as many as there are in the end, rio_write returns the number of its bytes, whatever pieces the
-- descriptor accepts them in.
pub rio_write-Returns :
    (k : Kernel) (bytes : List ℕ)
    → IsWritable (length bytes) k
    → Returns (λ (r : ℤ × Kernel). r.0 ≡ pos (length bytes)) (rio_write k bytes)
unfolding rio_write
rio_write-Returns k bytes q = after_lock write_lock 1 k _ _ q.calm q.fcntls.0 q.fcntls.1 λ fs s l.
    Returns-bind
      (write_loop_finishes k.writes bytes _ q.calm q.polls.0 q.polls.1 q.accepts q.enough)
      λ (whole, k₂) (w, c, f).
        rw w (after_lock unlock 0 k₂ _ _ c (rw f s) (rw f l) λ fs' s' l'. returns refl)

-- rio_write gives up at once when `poll()` fails, and then keeps the file lock that it took: it
-- returns -1, nothing is sent, and the lock is still held.
pub rio_write_keeps_lock :
    (k : Kernel) (b : ℕ) (bytes : List ℕ) (e : Errno) (fs ps : List (Option Errno))
    → is_eintr k.errno ≡ false
    → k.fcntls ≡ none ∷ fs
    → k.polls ≡ some e ∷ ps
    → is_eintr e ≡ false
    → Returns
        (λ (r : ℤ × Kernel). (r.0 ≡ minus_one) × (r.1.locked ≡ true) × (r.1.sent ≡ k.sent))
        (rio_write k (b ∷ bytes))
unfolding rio_write retry
rio_write_keeps_lock k b bytes e fs ps c f p h = rw (f, retry, c) (go k.writes)
  where
    go :
        (ws : List WriteReply)
        → Returns
            (λ (r : ℤ × Kernel). (r.0 ≡ minus_one) × (r.1.locked ≡ true) × (r.1.sent ≡ k.sent))
            (write_loop ws (b ∷ bytes) (record k { errno = k.errno; fcntls = fs; locked = true })
              >>= λ (whole, k₂).
                  if whole
                  then (lock unlock k₂ >>= λ (u, k₃).
                      if is_negative u
                      then done (minus_one, k₃)
                      else done (pos (length (b ∷ bytes)), k₃))
                  else done (minus_one, k₂))
    go [] = rw (p, retry, h) (returns (refl, refl, refl))
    go (accepted m ∷ ws) = rw (p, retry, h) (returns (refl, refl, refl))
    go (write_failed g ∷ ws) = rw (p, retry, h) (returns (refl, refl, refl))
