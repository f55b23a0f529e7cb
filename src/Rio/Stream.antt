-- ===== src/Rio/Stream.antt =====
-- rio_read and rio_readnb against the byte stream that the descriptor delivers.
use proxy_part.Prelude.{
  ℕ, zero, suc, ◌+◌, ◌-◌, ◌≤◌, ◌<◌, ◌≡◌, refl, sym, ap, ◌∙◌, List, [], ◌++◌, append_assoc,
  append-nil, true, false, Bool-cases, leb, ℤ, pos, negsuc, is_negative, pos_part, length-eq-zero,
  true≢false, length, take, drop, arith, inl, inr, length-append, length-drop, length-take,
  drop-drop, take-split,
}
use proxy_part.Rio.{
  Outcome, Kernel, is_eintr, Rio, Filled, ready, returned, out_cnt, advance, Received, finish_read,
  rio_read, readnb_round, readnb_loop, rio_readnb,
}
use proxy_part.Rio.Ends.{Ends, ends, Ends-bind, Ends-if}
use proxy_part.Rio.Fill.{arriving, Fits, IsValid, pending, stream, Fills, fill-Fills}

-- What a call of rio_read or rio_readnb for `n` bytes returns, stores and leaves: nothing of the
-- stream is lost, doubled or reordered.
pub record Reads (n : ℕ) (bytes : List ℕ) (k₀ : Kernel) (r : Received) : Type 0 where
  pub valid : IsValid r.2
  pub fits : Fits r.3.reads
  pub same : r.1 ++ stream r.2 r.3 ≡ bytes
  pub short : length r.1 ≤ n
  pub sent : r.3.sent ≡ k₀.sent
  pub counted : is_negative r.0 ≡ false → r.0 ≡ pos (length r.1)
  pub errors : is_negative r.0 ≡ true → is_eintr r.3.errno ≡ false

-- Taking `c` of the unread bytes leaves the others.
advance-pending :
    (rp : Rio) (c : ℕ)
    → c ≤ pos_part rp.cnt
    → take c (drop rp.bufp rp.buf) ++ pending (advance rp c) ≡ pending rp
unfolding advance
advance-pending rp c h = elim (Bool-cases (leb (pos_part rp.cnt - c) 0)) [
  | inl e ↦
      let all : pos_part rp.cnt ≡ c = ground arith in
      let none_left : pos_part rp.cnt - c ≡ 0 = omega arith in rw (e, none_left, append-nil, all)
  | inr e ↦ rw (e, drop-drop) (take-split c (pos_part rp.cnt) (drop rp.bufp rp.buf) h)
]

advance-IsValid : (rp : Rio) (c : ℕ) → c ≤ pos_part rp.cnt → IsValid rp → IsValid (advance rp c)
unfolding advance
advance-IsValid rp c h v = record { size = v.size; inside = ground (arith, v.inside) }

out_cnt_bounds : (rp : Rio) (n : ℕ) → (out_cnt rp n ≤ pos_part rp.cnt) × (out_cnt rp n ≤ n)
unfolding out_cnt
out_cnt_bounds rp n = ground arith

taken_length :
    (rp : Rio) (c : ℕ)
    → IsValid rp
    → c ≤ pos_part rp.cnt
    → length (take c (drop rp.bufp rp.buf)) ≡ c
taken_length rp c v h =
    omega (arith, v.size, v.inside, length-take c (drop rp.bufp rp.buf), length-drop rp.bufp rp.buf)

returned-Reads :
    (n : ℕ) (bytes : List ℕ) (v : ℤ) (rp : Rio) (k₀ k : Kernel)
    → IsValid rp
    → Fits k.reads
    → stream rp k ≡ bytes
    → k.sent ≡ k₀.sent
    → pos_part v ≡ 0
    → is_eintr k.errno ≡ false
    → Reads n bytes k₀ (v, [], rp, k)
returned-Reads n bytes (pos m) rp k₀ k val f same q z e = record {
  valid = val;
  fits = f;
  same = same;
  short = omega arith;
  sent = q;
  counted = λ _. ap pos z;
  errors = λ h. e;
}
returned-Reads n bytes (negsuc m) rp k₀ k val f same q z e = record {
  valid = val;
  fits = f;
  same = same;
  short = omega arith;
  sent = q;
  counted = λ h. cc;
  errors = λ h. e;
}

finish_read-Reads :
    (n : ℕ) (bytes : List ℕ) (k₀ : Kernel) (r : Filled × Rio × Kernel)
    → Fills bytes k₀ r
    → Ends (Reads n bytes k₀) (finish_read n r)
unfolding finish_read
finish_read-Reads n bytes k₀ (returned v, rp, k) f =
    ends (returned-Reads n bytes v rp k₀ k f.valid f.fits f.same f.quiet.0 f.result.0 f.result.1)
finish_read-Reads n bytes k₀ (ready, rp, k) f =
    let (have, asked) = out_cnt_bounds rp n in
    let size = taken_length rp (out_cnt rp n) f.valid have in
    ends (record {
      valid = advance-IsValid rp (out_cnt rp n) have f.valid;
      fits = f.fits;
      same =
          sym (append_assoc (take (out_cnt rp n) (drop rp.bufp rp.buf)) _ _)
          ∙ (ap (λ x. x ++ arriving k.reads) (advance-pending rp (out_cnt rp n) have) ∙ f.same);
      short = omega (arith, size);
      sent = f.quiet.0;
      counted = λ _. ap pos (sym size);
      errors = λ h. cc;
    })

-- rio_read of `n` bytes, if it returns, keeps the buffer valid, stores at most `n` bytes, returns
-- their number or a negative value, and puts them and what is still unread together to the stream
-- as it was, on every branch.
pub rio_read-Reads :
    (rp : Rio) (k : Kernel) (n : ℕ)
    → IsValid rp
    → Fits k.reads
    → Ends (Reads n (stream rp k) k) (rio_read rp k n)
unfolding rio_read
rio_read-Reads rp k n v f =
    Ends-bind (fill-Fills k.reads rp k k v f (refl, refl))
      λ r h. finish_read-Reads n (stream rp k) k r h

-- What the loop of rio_readnb keeps: `stored` and the unread bytes make up the stream.
record Loop (n nleft : ℕ) (bytes : List ℕ) (k₀ : Kernel) (rp : Rio) (k : Kernel) (stored : List ℕ)
    : Type 0 where
  valid : IsValid rp
  fits : Fits k.reads
  same : stored ++ stream rp k ≡ bytes
  room : length stored + nleft ≡ n
  sent : k.sent ≡ k₀.sent

leave-Reads :
    (n nleft m : ℕ) (bytes : List ℕ) (k₀ : Kernel) (rp : Rio) (k : Kernel) (stored : List ℕ)
    → Loop n nleft bytes k₀ rp k stored
    → m ≡ n - nleft
    → Reads n bytes k₀ (pos m, stored, rp, k)
leave-Reads n nleft m bytes k₀ rp k stored inv e = record {
  valid = inv.valid;
  fits = inv.fits;
  same = inv.same;
  short = omega (arith, inv.room);
  sent = inv.sent;
  counted = λ _. ap pos (omega (arith, inv.room, e));
  errors = λ h. cc;
}

round-Reads :
    (again : ℕ → Rio → Kernel → List ℕ → Outcome Received) (n nleft : ℕ) (bytes stored : List ℕ)
    (k₀ k : Kernel) (rp : Rio) (r : Received)
    → 0 < nleft
    → Loop n nleft bytes k₀ rp k stored
    → Reads nleft (stream rp k) k r
    → ((m : ℕ) (rp' : Rio) (k' : Kernel) (stored' : List ℕ)
        → m < nleft
        → Loop n m bytes k₀ rp' k' stored'
        → Ends (Reads n bytes k₀) (again m rp' k' stored'))
    → Ends (Reads n bytes k₀) (readnb_round again n nleft stored r)
unfolding readnb_round
round-Reads again n nleft bytes stored k₀ k rp (negsuc m, more, rp', k') lt inv r next =
    Ends-if (is_eintr k'.errno) (λ h. absurd (true≢false (sym h ∙ r.errors refl)))
      λ h. ends (record {
        valid = r.valid;
        fits = r.fits;
        same = append_assoc stored more _ ∙ (ap (λ x. stored ++ x) r.same ∙ inv.same);
        short = omega (arith, inv.room, r.short, length-append stored more);
        sent = r.sent ∙ inv.sent;
        counted = λ e. cc;
        errors = λ e. h;
      })
round-Reads again n nleft bytes stored k₀ k rp (pos zero, more, rp', k') lt inv r next =
    let nothing : more ≡ [] = length-eq-zero more (omega (arith, ap pos_part (r.counted refl))) in
    ends (
      leave-Reads n nleft (n - nleft) bytes k₀ rp' k' stored
        (record {
          valid = r.valid;
          fits = r.fits;
          same =
              ap (λ x. stored ++ x) (ap (λ x. x ++ stream rp' k') (sym nothing) ∙ r.same)
              ∙ inv.same;
          room = inv.room;
          sent = r.sent ∙ inv.sent;
        })
        refl)
round-Reads again n nleft bytes stored k₀ k rp (pos (suc m), more, rp', k') lt inv r next =
    let size : suc m ≡ length more = ap pos_part (r.counted refl) in
    next (nleft - suc m) rp' k' (stored ++ more) (omega arith) (record {
      valid = r.valid;
      fits = r.fits;
      same = append_assoc stored more _ ∙ (ap (λ x. stored ++ x) r.same ∙ inv.same);
      room = omega (arith, inv.room, r.short, length-append stored more);
      sent = r.sent ∙ inv.sent;
    })

readnb_loop-Reads :
    (fuel n nleft : ℕ) (bytes : List ℕ) (k₀ : Kernel) (rp : Rio) (k : Kernel) (stored : List ℕ)
    → nleft < fuel
    → Loop n nleft bytes k₀ rp k stored
    → Ends (Reads n bytes k₀) (readnb_loop fuel n nleft rp k stored)
unfolding readnb_loop
readnb_loop-Reads zero n nleft bytes k₀ rp k stored lt inv = absurd (omega arith)
readnb_loop-Reads (suc fuel) n nleft bytes k₀ rp k stored lt inv =
    Ends-if (leb nleft 0) (λ h. ends (leave-Reads n nleft _ bytes k₀ rp k stored inv refl))
      λ h. Ends-bind (rio_read-Reads rp k nleft inv.valid inv.fits) λ r reads.
        round-Reads _ n nleft bytes stored k₀ k rp r (ground arith) inv reads
          λ m rp' k' stored' lt' inv'.
            readnb_loop-Reads fuel n m bytes k₀ rp' k' stored' (omega arith) inv'

-- rio_readnb of `n` bytes never runs out of its `n + 1` rounds. If it returns, it keeps the buffer
-- valid, stores at most `n` bytes and returns their number or a negative value, and puts them and
-- what is still unread together to the stream as it was, on every branch. It sends nothing.
pub rio_readnb-Reads :
    (rp : Rio) (k : Kernel) (n : ℕ)
    → IsValid rp
    → Fits k.reads
    → Ends (Reads n (stream rp k) k) (rio_readnb rp k n)
unfolding rio_readnb
rio_readnb-Reads rp k n v f =
    readnb_loop-Reads (n + 1) n n (stream rp k) k rp k [] (omega arith)
      (record { valid = v; fits = f; same = refl; room = omega arith; sent = refl })
