-- ===== src/RwLock/Tests.antt =====
-- Runs of the lock by two threads, and the theorems of Safety at reached states.
use proxy_part.Prelude.{ℕ, ◌≡◌, ◌≢◌, ◌<◌, refl, arith, inr}
use proxy_part.RwLock.{
  Locks, Pc, reading, writing, rb_lock_r, System, Reach, begin, later, step, start, Move, call_read,
  rb_take3, call_write, wb_take2, wb_first, wb_take_r, wb_give2, wb_take_w,
}
use proxy_part.RwLock.Progress.{no_deadlock}
use proxy_part.RwLock.Safety.{writer_excludes_readers, writer_bars_readers}

-- Thread 0 is in writeBegin() and waits for `w`.
abbrev waiting : (s : System) × Reach 2 s
waiting = (
  _,
  later
      (later
        (later
          (later (later begin (step 0 (omega arith) call_write))
            (step 0 (omega arith) (wb_take2 refl)))
          (step 0 (omega arith) (wb_first refl)))
        (step 0 (omega arith) (wb_take_r refl)))
      (step 0 (omega arith) wb_give2),
)

-- It goes in, and thread 1 gets as far as the lock of `r`.
abbrev contended : (s : System) × Reach 2 s
contended = (
  _,
  later
      (later (later waiting.1 (step 0 (omega arith) (wb_take_w refl)))
        (step 1 (omega arith) call_read))
      (step 1 (omega arith) (rb_take3 refl)),
)

contended_places : (contended.0.pc 0 ≡ writing) × (contended.0.pc 1 ≡ rb_lock_r)
contended_places = (refl, refl)

writer_excludes_readers_example : contended.0.pc 1 ≢ reading
writer_excludes_readers_example =
    writer_excludes_readers contended.1 0 1 (omega arith) (omega arith) refl

writer_bars_readers_example : ¬ Move contended.0.locks rb_lock_r start.locks reading
writer_bars_readers_example =
    writer_bars_readers contended.1 0 (omega arith) (inr refl) start.locks reading

no_deadlock_example :
    (j : ℕ) × (j < 2)
    × (contended.0.pc j ≢ Pc.idle)
    × ((l : Locks) × (p : Pc) × Move contended.0.locks (contended.0.pc j) l p)
no_deadlock_example = no_deadlock contended.1 1 (omega arith) (λ e. absurd (cc))
