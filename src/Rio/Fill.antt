-- ===== src/Rio/Fill.antt =====
-- The byte stream of a descriptor, and the loop of rio_read that fills the buffer from it.
use proxy_part.Prelude.{
  ℕ, zero, suc, ◌+◌, ◌≤◌, ◌≡◌, refl, ◌∙◌, List, [], ◌∷◌, ◌++◌, true, false, ℤ, pos, negsuc,
  is_negative, is_positive, pos_part, length, take, drop, arith, take-length_append, length-append,
  length-drop,
}
use proxy_part.Rio.{
  Outcome, Kernel, ReadReply, got, read_failed, is_eintr, is_eagain, Rio, buf_size, zeros,
  rio_readinit, overwrite, Filled, ready, returned, fill_read, fill,
}
use proxy_part.Rio.Ends.{Ends, ends, waits, Ends-bind, Ends-if, wait-SameData}

-- The bytes that the replies of `read()` bring.
abbrev pub arriving : List ReadReply → List ℕ
arriving [] = []
arriving (got xs ∷ rs) = xs ++ arriving rs
arriving (read_failed e ∷ rs) = arriving rs

-- `read()` gives at most the `sizeof(rp->buf)` bytes that it is asked for.
abbrev pub Fits : List ReadReply → Type 0
Fits [] = Unit
Fits (got xs ∷ rs) = (length xs ≤ buf_size) × Fits rs
Fits (read_failed e ∷ rs) = Fits rs

-- The unread bytes lie inside the buffer.
pub record IsValid (rp : Rio) : Type 0 where
  pub size : length rp.buf ≡ buf_size
  pub inside : rp.bufp + pos_part rp.cnt ≤ buf_size

pub length-zeros : (n : ℕ) → length (zeros n) ≡ n
length-zeros zero = refl
length-zeros (suc n) = omega (arith, length-zeros n)

pub fresh-IsValid : IsValid rio_readinit
unfolding rio_readinit
fresh-IsValid = record { size = length-zeros buf_size; inside = omega arith }

-- The bytes that are read and not yet handed over.
abbrev pub pending : Rio → List ℕ
pending rp = take (pos_part rp.cnt) (drop rp.bufp rp.buf)

pub fresh-pending : pending rio_readinit ≡ []
unfolding rio_readinit
fresh-pending = refl

abbrev pub stream : Rio → Kernel → List ℕ
stream rp k = pending rp ++ arriving k.reads

abbrev pub Result : Filled → Rio → Kernel → Type 0
Result ready rp k = is_positive rp.cnt ≡ true
Result (returned v) rp k = (pos_part v ≡ 0) × (is_eintr k.errno ≡ false)

pub record Fills (bytes : List ℕ) (k₀ : Kernel) (r : Filled × Rio × Kernel) : Type 0 where
  pub valid : IsValid r.1
  pub fits : Fits r.2.reads
  pub same : stream r.1 r.2 ≡ bytes
  pub quiet : (r.2.sent ≡ k₀.sent) × (r.2.writes ≡ k₀.writes)
  pub result : Result r.0 r.1 r.2

pending-empty : (rp : Rio) → is_positive rp.cnt ≡ false → pos_part rp.cnt ≡ 0
pending-empty rp h = go rp.cnt h
  where
    go : (c : ℤ) → is_positive c ≡ false → pos_part c ≡ 0
    go (pos zero) e = refl
    go (pos (suc n)) e = cc
    go (negsuc n) e = refl

overwrite-IsValid :
    (x : ℕ) (xs : List ℕ) (rp : Rio)
    → IsValid rp
    → length (x ∷ xs) ≤ buf_size
    → IsValid (record { cnt = pos (length (x ∷ xs)); bufp = 0; buf = overwrite (x ∷ xs) rp.buf })
overwrite-IsValid x xs rp v h = record {
  size = omega (
    arith,
    v.size,
    length-append (x ∷ xs) (drop (length (x ∷ xs)) rp.buf),
    length-drop (length (x ∷ xs)) rp.buf,
  );
  inside = omega arith;
}

nothing_pending :
    (rp : Rio) (rs : List ReadReply)
    → is_positive rp.cnt ≡ false
    → arriving rs ≡ pending rp ++ arriving rs
nothing_pending rp rs h = rw (pending-empty rp h)

Fits-tail : (r : ReadReply) (rs : List ReadReply) → Fits (r ∷ rs) → Fits rs
Fits-tail (got xs) rs f = f.1
Fits-tail (read_failed e) rs f = f

-- A round of the loop, if what the loop does next keeps the stream.
fill_read-Fills :
    (r : ReadReply) (rs : List ReadReply) (rp : Rio) (k₀ k : Kernel)
    (again : Rio → Kernel → Outcome (Filled × Rio × Kernel))
    → IsValid rp
    → Fits (r ∷ rs)
    → is_eintr k.errno ≡ false
    → (k.sent ≡ k₀.sent) × (k.writes ≡ k₀.writes)
    → k.reads ≡ rs
    → ((rp' : Rio) (k' : Kernel)
        → IsValid rp'
        → is_positive rp'.cnt ≡ false
        → (k'.sent ≡ k₀.sent) × (k'.writes ≡ k₀.writes)
        → Ends (Fills (arriving rs) k₀) (again rp' k'))
    → Ends (Fills (arriving (r ∷ rs)) k₀) (fill_read r rp k again)
unfolding fill_read
fill_read-Fills (got []) rs rp k₀ k again v f e q s next = ends (record {
  valid = record { size = v.size; inside = omega (arith, v.inside) };
  fits = rw s f.1;
  same = rw s;
  quiet = q;
  result = (refl, e);
})
fill_read-Fills (got (x ∷ xs)) rs rp k₀ k again v f e q s next = ends (record {
  valid = overwrite-IsValid x xs rp v f.0;
  fits = rw s f.1;
  same = rw (s, take-length_append xs (drop (length (x ∷ xs)) rp.buf));
  quiet = q;
  result = refl;
})
fill_read-Fills (read_failed err) rs rp k₀ k again v f e q s next =
    let v' : IsValid (record rp { cnt = negsuc 0 }) = record {
      size = v.size;
      inside = omega (arith, v.inside);
    } in
    Ends-if (is_eintr err) (λ h. next _ _ v' refl q)
      λ h.
        Ends-if (is_eagain err) (λ h'. next _ _ v' refl q)
          λ h'.
            ends (record { valid = v'; fits = rw s f; same = rw s; quiet = q; result = (refl, h) })

pub fill-Fills :
    (rs : List ReadReply) (rp : Rio) (k₀ k : Kernel)
    → IsValid rp
    → Fits rs
    → (k.sent ≡ k₀.sent) × (k.writes ≡ k₀.writes)
    → Ends (Fills (pending rp ++ arriving rs) k₀) (fill rs rp k)
unfolding fill
fill-Fills [] rp k₀ k v f q =
    Ends-if (is_positive rp.cnt)
      (λ h. ends (record { valid = v; fits = tt; same = refl; quiet = q; result = h }))
      λ h. Ends-bind (wait-SameData k) λ r (d, l, e).
        Ends-if (is_negative r.0)
          (λ n. ends (record {
            valid = v;
            fits = tt;
            same = refl;
            quiet = (d.sent ∙ q.0, d.writes ∙ q.1);
            result = (refl, e);
          }))
          λ n. waits
fill-Fills (r ∷ rs) rp k₀ k v f q =
    Ends-if (is_positive rp.cnt)
      (λ h. ends (record { valid = v; fits = f; same = refl; quiet = q; result = h }))
      λ h. Ends-bind (wait-SameData k) λ a (d, l, e).
        Ends-if (is_negative a.0)
          (λ n. ends (record {
            valid = v;
            fits = f;
            same = refl;
            quiet = (d.sent ∙ q.0, d.writes ∙ q.1);
            result = (refl, e);
          }))
          λ n. rw (pending-empty rp h) (
            fill_read-Fills r rs rp k₀ _ (fill rs) v f e (d.sent ∙ q.0, d.writes ∙ q.1) refl
              λ rp' k' v' h' q'.
                rw (pending-empty rp' h') at (fill-Fills rs rp' k₀ k' v' (Fits-tail r rs f) q'))
