-- ===== src/Rio/Tests.antt =====
-- Runs of rio.c, and the theorems of Rio at concrete inputs.
use proxy_part.Prelude.{ℕ, ◌≡◌, refl, List, [], ◌∷◌, false, ℤ, pos, arith, none, inl}
use proxy_part.Rio.{
  Outcome, done, blocked, no_error, eintr, eagain, Kernel, got, read_failed, accepted, Rio,
  buf_size, zeros, rio_read, rio_readnb, wait, rio_write, Received,
}
use proxy_part.Rio.Ends.{Ends}
use proxy_part.Rio.Fill.{IsValid, stream, length-zeros}
use proxy_part.Rio.Stream.{Reads, rio_read-Reads, rio_readnb-Reads}
use proxy_part.Rio.Progress.{Returns, IsQuiet, Delivered, rio_readnb-Delivered, wait_never_returns}
use proxy_part.Rio.Write.{Writes, rio_write-Writes, IsWritable, rio_write-Returns}

-- Five bytes arrive in two pieces, with a spurious wake-up between them.
abbrev pieces : Kernel
pieces = record {
  errno = no_error;
  polls = none ∷ none ∷ none ∷ [];
  fcntls = none ∷ none ∷ [];
  reads = got (1 ∷ 2 ∷ 3 ∷ []) ∷ read_failed eagain ∷ got (4 ∷ 5 ∷ []) ∷ [];
  writes = accepted 1 ∷ accepted 3 ∷ [];
  sent = 9 ∷ [];
  locked = false;
}

abbrev fresh : Rio
fresh = record { cnt = pos 0; bufp = 0; buf = zeros buf_size }

-- Two bytes are left over from an earlier read.
abbrev half : Rio
half = record { cnt = pos 2; bufp = 1; buf = 7 ∷ 8 ∷ 9 ∷ zeros 1515 }

fresh-IsValid : IsValid fresh
fresh-IsValid = record { size = length-zeros buf_size; inside = omega arith }

half-IsValid : IsValid half
half-IsValid = record { size = omega (arith, length-zeros 1515); inside = omega arith }

-- What a call stored and returned.
abbrev summary : Outcome Received → Outcome (ℤ × List ℕ)
summary (done (v, bytes, rp, k)) = done (v, bytes)
summary blocked = blocked
summary Outcome.out_of_fuel = Outcome.out_of_fuel

readnb_runs : summary (rio_readnb fresh pieces 4) ≡ done (pos 4, 1 ∷ 2 ∷ 3 ∷ 4 ∷ [])
unfolding rio_readnb
readnb_runs = refl

-- A stream that ends early gives a short count.
readnb_short :
    summary (rio_readnb half (record pieces { reads = got [] ∷ [] }) 4) ≡ done (pos 2, 8 ∷ 9 ∷ [])
unfolding rio_readnb
readnb_short = refl

rio_read-Reads_example : Ends (Reads 4 (stream half pieces) pieces) (rio_read half pieces 4)
rio_read-Reads_example = rio_read-Reads half pieces 4 half-IsValid (omega arith)

rio_readnb-Reads_example : Ends (Reads 4 (stream half pieces) pieces) (rio_readnb half pieces 4)
rio_readnb-Reads_example = rio_readnb-Reads half pieces 4 half-IsValid (omega arith)

pieces-IsQuiet : IsQuiet pieces.reads pieces
pieces-IsQuiet = record {
  calm = refl;
  polls = tt;
  enough = omega arith;
  replies = (omega arith, (refl, (omega arith, tt)));
}

rio_readnb-Delivered_example : Returns (Delivered 6 (stream half pieces)) (rio_readnb half pieces 6)
rio_readnb-Delivered_example =
    rio_readnb-Delivered half pieces 6 half-IsValid pieces-IsQuiet (omega arith)

wait_never_returns_example : wait (record pieces { errno = eintr }) ≡ blocked
wait_never_returns_example =
    wait_never_returns (record pieces { errno = eintr }) (none ∷ none ∷ none ∷ []) tt
      (inl (refl, refl))

rio_write-Writes_example : Ends (Writes (6 ∷ 7 ∷ []) pieces) (rio_write pieces (6 ∷ 7 ∷ []))
rio_write-Writes_example = rio_write-Writes pieces (6 ∷ 7 ∷ [])

pieces-IsWritable : IsWritable 3 pieces
pieces-IsWritable = record {
  calm = refl;
  fcntls = (tt, omega arith);
  polls = (tt, omega arith);
  accepts = tt;
  enough = omega arith;
}

rio_write-Returns_example :
    Returns (λ (r : ℤ × Kernel). r.0 ≡ pos 3) (rio_write pieces (6 ∷ 7 ∷ 8 ∷ []))
rio_write-Returns_example = rio_write-Returns pieces (6 ∷ 7 ∷ 8 ∷ []) pieces-IsWritable
