-- ===== src/Rio/Frames.antt =====
-- A device such as the tap, which gives one frame to each read().
use proxy_part.Prelude.{
  ℕ, ◌≤◌, List, [], ◌∷◌, is_negative, is_positive, pos_part, length, drop, arith, length-take,
}
use proxy_part.Rio.{
  Outcome, Kernel, ReadReply, got, read_failed, is_eintr, is_eagain, Rio, Filled, ready, returned,
  fill_read, fill, out_cnt, Received, finish_read, rio_read,
}
use proxy_part.Rio.Ends.{Ends, ends, waits, Ends-bind, Ends-if, wait-SameData}

module _ (m : ℕ) where
  -- No frame has more than `m` bytes.
  abbrev pub AllShort : List ReadReply → Type 0
  AllShort [] = Unit {0}
  AllShort (got xs ∷ rs) = (length xs ≤ m) × AllShort rs
  AllShort (read_failed e ∷ rs) = AllShort rs

  tail-AllShort : (r : ReadReply) (rs : List ReadReply) → AllShort (r ∷ rs) → AllShort rs
  tail-AllShort (got xs) rs h = h.1
  tail-AllShort (read_failed e) rs h = h

  abbrev pub Holds : Filled × Rio × Kernel → Type 0
  Holds r = (pos_part r.1.cnt ≤ m) × AllShort r.2.reads

  fill_read-Holds :
      (r : ReadReply) (rs : List ReadReply) (rp : Rio) (k : Kernel)
      (again : Rio → Kernel → Outcome (Filled × Rio × Kernel))
      → AllShort (r ∷ rs)
      → AllShort k.reads
      → ((rp' : Rio) (k' : Kernel) → pos_part rp'.cnt ≤ m → Ends Holds (again rp' k'))
      → Ends Holds (fill_read r rp k again)
  unfolding fill_read
  fill_read-Holds (got []) rs rp k again h s next = ends (omega arith, s)
  fill_read-Holds (got (x ∷ xs)) rs rp k again h s next = ends (h.0, s)
  fill_read-Holds (read_failed e) rs rp k again h s next =
      Ends-if (is_eintr e) (λ i. next _ _ (omega arith))
        λ i. Ends-if (is_eagain e) (λ j. next _ _ (omega arith)) (λ j. ends (omega arith, s))

  fill-Holds :
      (rs : List ReadReply) (rp : Rio) (k : Kernel)
      → AllShort rs
      → pos_part rp.cnt ≤ m
      → Ends Holds (fill rs rp k)
  unfolding fill
  fill-Holds [] rp k h c =
      Ends-if (is_positive rp.cnt) (λ i. ends (c, tt))
        λ i.
          Ends-bind (wait-SameData k)
            λ a d. Ends-if (is_negative a.0) (λ n. ends (c, tt)) (λ n. waits)
  fill-Holds (r ∷ rs) rp k h c =
      Ends-if (is_positive rp.cnt) (λ i. ends (c, h))
        λ i. Ends-bind (wait-SameData k) λ a d.
          Ends-if (is_negative a.0) (λ n. ends (c, h))
            λ n.
              fill_read-Holds r rs rp _ (fill rs) h (tail-AllShort r rs h)
                λ rp' k' c'. fill-Holds rs rp' k' (tail-AllShort r rs h) c'

  -- What a read of `n` bytes stores is at most one frame.
  abbrev pub OneFrame : Received → Type 0
  OneFrame r = (length r.1 ≤ m) × (pos_part r.2.cnt ≤ m) × AllShort r.3.reads

  finish-OneFrame : (n : ℕ) (r : Filled × Rio × Kernel) → Holds r → Ends OneFrame (finish_read n r)
  unfolding finish_read
  finish-OneFrame n (returned v, rp, k) h = ends (omega arith, h.0, h.1)
  finish-OneFrame n (ready, rp, k) h =
      let c : out_cnt rp n ≤ pos_part rp.cnt = ground arith in
      ends (
        omega (arith, h.0, length-take (out_cnt rp n) (drop rp.bufp rp.buf)),
        omega (arith, h.0),
        h.1,
      )

  pub rio_read-OneFrame :
      (rp : Rio) (k : Kernel) (n : ℕ)
      → AllShort k.reads
      → pos_part rp.cnt ≤ m
      → Ends OneFrame (rio_read rp k n)
  unfolding rio_read
  rio_read-OneFrame rp k n h c = Ends-bind (fill-Holds k.reads rp k h c) (finish-OneFrame n)
