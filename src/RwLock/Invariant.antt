-- ===== src/RwLock/Invariant.antt =====
-- The invariant of the lock: the mutexes and counters agree with where the threads stand.
use proxy_part.Prelude.{ℕ, ◌+◌, ◌≤◌, ◌≡◌, refl, arith}
use proxy_part.RwLock.{
  Locks, Pc, Move, System, Step, step, Reach, begin, later, call_read, rb_take3, rb_take_r,
  rb_take1, rb_first, rb_other, rb_take_w, rb_give1, rb_give_r, rb_give3, re_take1, re_last,
  re_other, re_give_w, re_give1, call_write, wb_take2, wb_first, wb_other, wb_take_r, wb_give2,
  wb_take_w, we_give_w, we_take2, we_last, we_other, we_give_r, we_give2,
}
use proxy_part.RwLock.Counts.{total, total-put, total-idle, weight-le-total}

-- The thread holds mutex1, and is not about to lock or unlock w.
abbrev pub rest1 : Pc → ℕ
rest1 Pc.rb_count = 1
rest1 Pc.rb_unlock1 = 1
rest1 Pc.re_count = 1
rest1 Pc.re_unlock1 = 1
rest1 _ = 0

-- The thread holds mutex2, and is not about to lock or unlock r.
abbrev pub rest2 : Pc → ℕ
rest2 Pc.wb_count = 1
rest2 Pc.wb_unlock2 = 1
rest2 Pc.we_count = 1
rest2 Pc.we_unlock2 = 1
rest2 _ = 0

-- The thread holds mutex3.
abbrev pub holds3 : Pc → ℕ
holds3 Pc.rb_lock_r = 1
holds3 Pc.rb_lock1 = 1
holds3 Pc.rb_count = 1
holds3 Pc.rb_lock_w = 1
holds3 Pc.rb_unlock1 = 1
holds3 Pc.rb_unlock_r = 1
holds3 Pc.rb_unlock3 = 1
holds3 _ = 0

-- The thread is counted in readcount.
abbrev pub is_reader : Pc → ℕ
is_reader Pc.rb_lock_w = 1
is_reader Pc.rb_unlock1 = 1
is_reader Pc.rb_unlock_r = 1
is_reader Pc.rb_unlock3 = 1
is_reader Pc.reading = 1
is_reader Pc.re_count = 1
is_reader _ = 0

-- The thread is counted in writecount.
abbrev pub is_writer : Pc → ℕ
is_writer Pc.wb_lock_r = 1
is_writer Pc.wb_unlock2 = 1
is_writer Pc.wb_lock_w = 1
is_writer Pc.writing = 1
is_writer Pc.we_lock2 = 1
is_writer Pc.we_count = 1
is_writer _ = 0

-- The thread holds w as a writer.
abbrev pub in_write : Pc → ℕ
in_write Pc.writing = 1
in_write _ = 0

-- The thread holds r as a reader.
abbrev pub entering_r : Pc → ℕ
entering_r Pc.rb_lock1 = 1
entering_r Pc.rb_count = 1
entering_r Pc.rb_lock_w = 1
entering_r Pc.rb_unlock1 = 1
entering_r Pc.rb_unlock_r = 1
entering_r _ = 0

-- The thread is the first reader, and about to lock w.
abbrev pub takes_w : Pc → ℕ
takes_w Pc.rb_lock_w = 1
takes_w _ = 0

-- The thread was the last reader, and is about to unlock w.
abbrev pub gives_w : Pc → ℕ
gives_w Pc.re_unlock_w = 1
gives_w _ = 0

-- The thread is the first writer, and about to lock r.
abbrev pub takes_r : Pc → ℕ
takes_r Pc.wb_lock_r = 1
takes_r _ = 0

-- The thread was the last writer, and is about to unlock r.
abbrev pub gives_r : Pc → ℕ
gives_r Pc.we_unlock_r = 1
gives_r _ = 0

-- How many threads there are of each kind.
pub record Tally : Type 0 where
  pub n1 : ℕ
  pub n2 : ℕ
  pub n3 : ℕ
  pub readers : ℕ
  pub writers : ℕ
  pub inside : ℕ
  pub entering : ℕ
  pub first_reader : ℕ
  pub last_reader : ℕ
  pub first_writer : ℕ
  pub last_writer : ℕ

abbrev pub tally : ℕ → (ℕ → Pc) → Tally
tally n pc = record {
  n1 = total rest1 n pc;
  n2 = total rest2 n pc;
  n3 = total holds3 n pc;
  readers = total is_reader n pc;
  writers = total is_writer n pc;
  inside = total in_write n pc;
  entering = total entering_r n pc;
  first_reader = total takes_w n pc;
  last_reader = total gives_w n pc;
  first_writer = total takes_r n pc;
  last_writer = total gives_r n pc;
}

-- Every mutex is held by the threads that stand where it is held, and the counters count. While
-- there are readers they hold `w`, but for the first that is about to lock it; when there are none
-- the last may still have to unlock it. So it is with the writers and `r`.
pub record Inv (l : Locks) (t : Tally) : Type 0 where
  pub one1 : (l.mutex1 ≡ t.first_reader + t.last_reader + t.n1) × (l.mutex1 ≤ 1)
  pub one2 : (l.mutex2 ≡ t.first_writer + t.last_writer + t.n2) × (l.mutex2 ≤ 1)
  pub one3 : (l.mutex3 ≡ t.n3) × (l.mutex3 ≤ 1)
  pub read_count : l.readcount ≡ t.readers
  pub write_count : l.writecount ≡ t.writers
  pub one_w : l.w ≤ 1
  pub one_r : l.r ≤ 1
  pub w_some : 1 ≤ l.readcount → (l.w + t.first_reader ≡ t.inside + 1) × (t.last_reader ≡ 0)
  pub w_none : l.readcount ≡ 0 → (l.w ≡ t.inside + t.last_reader) × (t.first_reader ≡ 0)
  pub r_some : 1 ≤ l.writecount → (l.r + t.first_writer ≡ t.entering + 1) × (t.last_writer ≡ 0)
  pub r_none : l.writecount ≡ 0 → (l.r ≡ t.entering + t.last_writer) × (t.first_writer ≡ 0)
  pub first_reads : 1 ≤ t.first_reader → l.readcount ≡ 1
  pub first_writes : 1 ≤ t.first_writer → l.writecount ≡ 1

-- One thread, which counts in `t`, goes from `p` to `q`.
record Shift (p q : Pc) (t u : Tally) : Type 0 where
  d_rest1 : (u.n1 + rest1 p ≡ t.n1 + rest1 q) × (rest1 p ≤ t.n1)
  d_rest2 : (u.n2 + rest2 p ≡ t.n2 + rest2 q) × (rest2 p ≤ t.n2)
  d_holds3 : (u.n3 + holds3 p ≡ t.n3 + holds3 q) × (holds3 p ≤ t.n3)
  d_is_reader : (u.readers + is_reader p ≡ t.readers + is_reader q) × (is_reader p ≤ t.readers)
  d_is_writer : (u.writers + is_writer p ≡ t.writers + is_writer q) × (is_writer p ≤ t.writers)
  d_in_write : (u.inside + in_write p ≡ t.inside + in_write q) × (in_write p ≤ t.inside)
  d_entering_r :
      (u.entering + entering_r p ≡ t.entering + entering_r q) × (entering_r p ≤ t.entering)
  d_takes_w :
      (u.first_reader + takes_w p ≡ t.first_reader + takes_w q) × (takes_w p ≤ t.first_reader)
  d_gives_w : (u.last_reader + gives_w p ≡ t.last_reader + gives_w q) × (gives_w p ≤ t.last_reader)
  d_takes_r :
      (u.first_writer + takes_r p ≡ t.first_writer + takes_r q) × (takes_r p ≤ t.first_writer)
  d_gives_r : (u.last_writer + gives_r p ≡ t.last_writer + gives_r q) × (gives_r p ≤ t.last_writer)

-- Each move keeps the invariant.
Move-Inv : {l m : Locks} {p q : Pc} {t u : Tally} → Move l p m q → Shift p q t u → Inv l t → Inv m u
Move-Inv call_read d v = omega arith
Move-Inv (rb_take3 g) d v = omega arith
Move-Inv (rb_take_r g) d v = omega arith
Move-Inv (rb_take1 g) d v = omega arith
Move-Inv (rb_first g) d v = omega arith
Move-Inv (rb_other g) d v = omega arith
Move-Inv (rb_take_w g) d v = omega arith
Move-Inv rb_give1 d v = omega arith
Move-Inv rb_give_r d v = omega arith
Move-Inv rb_give3 d v = omega arith
Move-Inv (re_take1 g) d v = omega arith
Move-Inv (re_last g) d v = omega arith
Move-Inv (re_other g) d v = omega arith
Move-Inv re_give_w d v = omega arith
Move-Inv re_give1 d v = omega arith
Move-Inv call_write d v = omega arith
Move-Inv (wb_take2 g) d v = omega arith
Move-Inv (wb_first g) d v = omega arith
Move-Inv (wb_other g) d v = omega arith
Move-Inv (wb_take_r g) d v = omega arith
Move-Inv wb_give2 d v = omega arith
Move-Inv (wb_take_w g) d v = omega arith
Move-Inv we_give_w d v = omega arith
Move-Inv (we_take2 g) d v = omega arith
Move-Inv (we_last g) d v = omega arith
Move-Inv (we_other g) d v = omega arith
Move-Inv we_give_r d v = omega arith
Move-Inv we_give2 d v = omega arith

-- A step of the system keeps the invariant.
pub Step-Inv :
    {n : ℕ} {s t : System} → Step n s t → Inv s.locks (tally n s.pc) → Inv t.locks (tally n t.pc)
Step-Inv {n} {s} (step i {p = p} lt mv) v =
    Move-Inv mv
      (record {
        d_rest1 = (total-put rest1 n i s.pc p lt, weight-le-total rest1 n i s.pc lt);
        d_rest2 = (total-put rest2 n i s.pc p lt, weight-le-total rest2 n i s.pc lt);
        d_holds3 = (total-put holds3 n i s.pc p lt, weight-le-total holds3 n i s.pc lt);
        d_is_reader = (total-put is_reader n i s.pc p lt, weight-le-total is_reader n i s.pc lt);
        d_is_writer = (total-put is_writer n i s.pc p lt, weight-le-total is_writer n i s.pc lt);
        d_in_write = (total-put in_write n i s.pc p lt, weight-le-total in_write n i s.pc lt);
        d_entering_r = (total-put entering_r n i s.pc p lt, weight-le-total entering_r n i s.pc lt);
        d_takes_w = (total-put takes_w n i s.pc p lt, weight-le-total takes_w n i s.pc lt);
        d_gives_w = (total-put gives_w n i s.pc p lt, weight-le-total gives_w n i s.pc lt);
        d_takes_r = (total-put takes_r n i s.pc p lt, weight-le-total takes_r n i s.pc lt);
        d_gives_r = (total-put gives_r n i s.pc p lt, weight-le-total gives_r n i s.pc lt);
      })
      v

-- Every state that the threads can reach satisfies the invariant.
pub Reach-Inv : {n : ℕ} {s : System} → Reach n s → Inv s.locks (tally n s.pc)
Reach-Inv {n} begin = omega (
  arith,
  total-idle rest1 n refl,
  total-idle rest2 n refl,
  total-idle holds3 n refl,
  total-idle is_reader n refl,
  total-idle is_writer n refl,
  total-idle in_write n refl,
  total-idle entering_r n refl,
  total-idle takes_w n refl,
  total-idle gives_w n refl,
  total-idle takes_r n refl,
  total-idle gives_r n refl,
)
Reach-Inv (later r st) = Step-Inv st (Reach-Inv r)
