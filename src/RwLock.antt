-- ===== src/RwLock.antt =====
-- readBegin(), readEnd(), writeBegin() and writeEnd() of proxy.c: the writer-preferential lock
-- around the membership list, run by `n` threads that interleave in any order.
pub mod Counts
pub mod Invariant
pub mod Safety
pub mod Progress
mod Tests
use proxy_part.Prelude.{ℕ, ◌+◌, ◌-◌, ◌<◌, ◌≡◌, ◌≢◌, ◌==◌, if◌then◌else◌}

-- A mutex is 0 when it is free and 1 when it is held. The counters are `int`s, which do not
-- overflow: neither exceeds the number of threads.
pub record Locks : Type 0 where
  pub readcount : ℕ
  pub writecount : ℕ
  pub mutex1 : ℕ
  pub mutex2 : ℕ
  pub mutex3 : ℕ
  pub r : ℕ
  pub w : ℕ

-- Where a thread stands: before the statement that the name tells.
pub data Pc : Type 0 where
  idle : Pc
  -- readBegin()
  rb_lock3 rb_lock_r rb_lock1 rb_count rb_lock_w rb_unlock1 rb_unlock_r rb_unlock3 : Pc
  -- between readBegin() and readEnd(), which begins with a lock of mutex1
  reading : Pc
  -- readEnd()
  re_count re_unlock_w re_unlock1 : Pc
  -- writeBegin()
  wb_lock2 wb_count wb_lock_r wb_unlock2 wb_lock_w : Pc
  -- between writeBegin() and writeEnd(), which begins with an unlock of w
  writing : Pc
  -- writeEnd()
  we_lock2 we_count we_unlock_r we_unlock2 : Pc

-- One statement of one thread. A lock is taken only when it is free.
pub data Move (s : Locks) : Pc → Locks → Pc → Type 0 where
  call_read : Move s idle s rb_lock3
  rb_take3 : s.mutex3 ≡ 0 → Move s rb_lock3 (record s { mutex3 = 1 }) rb_lock_r
  rb_take_r : s.r ≡ 0 → Move s rb_lock_r (record s { r = 1 }) rb_lock1
  rb_take1 : s.mutex1 ≡ 0 → Move s rb_lock1 (record s { mutex1 = 1 }) rb_count
  rb_first :
      s.readcount + 1 ≡ 1 → Move s rb_count (record s { readcount = s.readcount + 1 }) rb_lock_w
  rb_other :
      s.readcount + 1 ≢ 1 → Move s rb_count (record s { readcount = s.readcount + 1 }) rb_unlock1
  rb_take_w : s.w ≡ 0 → Move s rb_lock_w (record s { w = 1 }) rb_unlock1
  rb_give1 : Move s rb_unlock1 (record s { mutex1 = 0 }) rb_unlock_r
  rb_give_r : Move s rb_unlock_r (record s { r = 0 }) rb_unlock3
  rb_give3 : Move s rb_unlock3 (record s { mutex3 = 0 }) reading
  re_take1 : s.mutex1 ≡ 0 → Move s reading (record s { mutex1 = 1 }) re_count
  re_last :
      s.readcount - 1 ≡ 0 → Move s re_count (record s { readcount = s.readcount - 1 }) re_unlock_w
  re_other :
      s.readcount - 1 ≢ 0 → Move s re_count (record s { readcount = s.readcount - 1 }) re_unlock1
  re_give_w : Move s re_unlock_w (record s { w = 0 }) re_unlock1
  re_give1 : Move s re_unlock1 (record s { mutex1 = 0 }) idle
  call_write : Move s idle s wb_lock2
  wb_take2 : s.mutex2 ≡ 0 → Move s wb_lock2 (record s { mutex2 = 1 }) wb_count
  wb_first :
      s.writecount + 1 ≡ 1 → Move s wb_count (record s { writecount = s.writecount + 1 }) wb_lock_r
  wb_other :
      s.writecount + 1 ≢ 1 → Move s wb_count (record s { writecount = s.writecount + 1 }) wb_unlock2
  wb_take_r : s.r ≡ 0 → Move s wb_lock_r (record s { r = 1 }) wb_unlock2
  wb_give2 : Move s wb_unlock2 (record s { mutex2 = 0 }) wb_lock_w
  wb_take_w : s.w ≡ 0 → Move s wb_lock_w (record s { w = 1 }) writing
  we_give_w : Move s writing (record s { w = 0 }) we_lock2
  we_take2 : s.mutex2 ≡ 0 → Move s we_lock2 (record s { mutex2 = 1 }) we_count
  we_last :
      s.writecount - 1 ≡ 0
      → Move s we_count (record s { writecount = s.writecount - 1 }) we_unlock_r
  we_other :
      s.writecount - 1 ≢ 0 → Move s we_count (record s { writecount = s.writecount - 1 }) we_unlock2
  we_give_r : Move s we_unlock_r (record s { r = 0 }) we_unlock2
  we_give2 : Move s we_unlock2 (record s { mutex2 = 0 }) idle

abbrev pub put {ℓ} : {A : Type ℓ} → (ℕ → A) → ℕ → A → ℕ → A
put f i a j = if i == j then a else f j

pub record System : Type 0 where
  pub locks : Locks
  pub pc : ℕ → Pc

-- Some thread makes a move.
pub data Step (n : ℕ) (s : System) : System → Type 0 where
  step :
      (i : ℕ) {l : Locks} {p : Pc}
      → i < n
      → Move s.locks (s.pc i) l p
      → Step n s (record { locks = l; pc = put s.pc i p })

-- The static initialisers: no thread is inside, and every mutex is free.
abbrev pub start : System
start = record {
  locks = record {
    readcount = 0;
    writecount = 0;
    mutex1 = 0;
    mutex2 = 0;
    mutex3 = 0;
    r = 0;
    w = 0;
  };
  pc = λ _. idle;
}

pub data Reach (n : ℕ) : System → Type 0 where
  begin : Reach n start
  later : {s t : System} → Reach n s → Step n s t → Reach n t
