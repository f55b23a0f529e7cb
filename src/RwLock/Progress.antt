-- ===== src/RwLock/Progress.antt =====
-- Whether the threads that are inside the lock's routines can go on.
use proxy_part.Prelude.{ℕ, ◌+◌, ◌-◌, ◌≤◌, ◌<◌, ◌≡◌, ◌≢◌, refl, ap, arith, dec_lt, ℕ_discrete}
use proxy_part.RwLock.{
  Locks, Pc, Move, System, Reach, rb_take3, rb_take_r, rb_take1, rb_first, rb_other, rb_take_w,
  rb_give1, rb_give_r, rb_give3, re_take1, re_last, re_other, re_give_w, re_give1, wb_take2,
  wb_first, wb_other, wb_take_r, wb_give2, wb_take_w, we_give_w, we_take2, we_last, we_other,
  we_give_r, we_give2,
}
use proxy_part.RwLock.Counts.{total, counted, weight-le-total}
use proxy_part.RwLock.Invariant.{
  Inv, tally, rest1, rest2, holds3, is_reader, is_writer, in_write, entering_r, takes_w, gives_w,
  takes_r, gives_r, Reach-Inv,
}

-- The mutex that a thread is about to lock: its value now, or 0 if there is none.
abbrev needs : Locks → Pc → ℕ
needs l Pc.rb_lock3 = l.mutex3
needs l Pc.rb_lock_r = l.r
needs l Pc.rb_lock1 = l.mutex1
needs l Pc.rb_lock_w = l.w
needs l Pc.reading = l.mutex1
needs l Pc.wb_lock2 = l.mutex2
needs l Pc.wb_lock_r = l.r
needs l Pc.wb_lock_w = l.w
needs l Pc.we_lock2 = l.mutex2
needs l _ = 0

abbrev Moves : Locks → Pc → Type 0
Moves l p = (m : Locks) × (q : Pc) × Move l p m q

-- A thread that needs no mutex, or one that is free, can move.
moves : (l : Locks) (p : Pc) → p ≢ Pc.idle → needs l p ≡ 0 → Moves l p
moves l Pc.idle ne e = absurd (ne refl)
moves l Pc.rb_lock3 ne e = (_, _, rb_take3 e)
moves l Pc.rb_lock_r ne e = (_, _, rb_take_r e)
moves l Pc.rb_lock1 ne e = (_, _, rb_take1 e)
moves l Pc.rb_count ne e = elim (ℕ_discrete (l.readcount + 1) 1) [
  | yes h ↦ (_, _, rb_first h)
  | no h ↦ (_, _, rb_other h)
]
moves l Pc.rb_lock_w ne e = (_, _, rb_take_w e)
moves l Pc.rb_unlock1 ne e = (_, _, rb_give1)
moves l Pc.rb_unlock_r ne e = (_, _, rb_give_r)
moves l Pc.rb_unlock3 ne e = (_, _, rb_give3)
moves l Pc.reading ne e = (_, _, re_take1 e)
moves l Pc.re_count ne e = elim (ℕ_discrete (l.readcount - 1) 0) [
  | yes h ↦ (_, _, re_last h)
  | no h ↦ (_, _, re_other h)
]
moves l Pc.re_unlock_w ne e = (_, _, re_give_w)
moves l Pc.re_unlock1 ne e = (_, _, re_give1)
moves l Pc.wb_lock2 ne e = (_, _, wb_take2 e)
moves l Pc.wb_count ne e = elim (ℕ_discrete (l.writecount + 1) 1) [
  | yes h ↦ (_, _, wb_first h)
  | no h ↦ (_, _, wb_other h)
]
moves l Pc.wb_lock_r ne e = (_, _, wb_take_r e)
moves l Pc.wb_unlock2 ne e = (_, _, wb_give2)
moves l Pc.wb_lock_w ne e = (_, _, wb_take_w e)
moves l Pc.writing ne e = (_, _, we_give_w)
moves l Pc.we_lock2 ne e = (_, _, we_take2 e)
moves l Pc.we_count ne e = elim (ℕ_discrete (l.writecount - 1) 0) [
  | yes h ↦ (_, _, we_last h)
  | no h ↦ (_, _, we_other h)
]
moves l Pc.we_unlock_r ne e = (_, _, we_give_r)
moves l Pc.we_unlock2 ne e = (_, _, we_give2)

module _ (n : ℕ) (s : System) (v : Inv s.locks (tally n s.pc)) where
  -- A thread that is not idle can move.
  abbrev Goes : Type 0
  Goes = (j : ℕ) × (j < n) × (s.pc j ≢ Pc.idle) × Moves s.locks (s.pc j)

  -- A thread goes, or the mutex that it needs is held.
  goes_unless : (j : ℕ) → j < n → s.pc j ≢ Pc.idle → (needs s.locks (s.pc j) ≢ 0 → Goes) → Goes
  goes_unless j lt ne held = elim (ℕ_discrete (needs s.locks (s.pc j)) 0) [
    | yes e ↦ (j, lt, ne, moves s.locks (s.pc j) ne e)
    | no e ↦ held e
  ]

  -- So some thread goes if one of a kind is there, of which none is idle.
  one_goes :
      (weight : Pc → ℕ)
      → weight Pc.idle ≡ 0
      → ((p : Pc) → 1 ≤ weight p → needs s.locks p ≢ 0 → Goes)
      → 1 ≤ total weight n s.pc
      → Goes
  one_goes weight idle_zero held h =
      let (j, lt, w) = counted weight n s.pc h in
      goes_unless j lt (λ e. omega (arith, ap weight e)) (held (s.pc j) w)

  -- Whoever holds mutex1 goes, or waits for a writer to leave.
  held1 : 1 ≤ s.locks.mutex1 → Goes
  held1 h = elim (dec_lt 0 (total rest1 n s.pc)) [
    | yes r ↦ one_goes rest1 refl (λ p w e. absurd (ground arith)) r
    | no r ↦ elim (dec_lt 0 (total gives_w n s.pc)) [
      | yes g ↦ one_goes gives_w refl (λ p w e. absurd (ground arith)) g
      | no g ↦ elim (ℕ_discrete s.locks.w 0) [
        | yes free ↦ one_goes takes_w refl (λ p w e. absurd (ground arith)) (omega (arith, v.one1))
        | no held ↦
            one_goes in_write refl (λ p w e. absurd (ground arith))
              (let first : 1 ≤ total takes_w n s.pc = omega (arith, v.one1) in
                let one : s.locks.readcount ≡ 1 = v.first_reads first in
                omega (arith, v.one1, v.w_some (omega arith)))
      ]
    ]
  ]

  -- A reader that is counted goes, or mutex1 is held, if none is about to lock w.
  reader_goes : total takes_w n s.pc ≡ 0 → 1 ≤ total is_reader n s.pc → Goes
  reader_goes none_first h =
      let (j, lt, w) = counted is_reader n s.pc h in
      goes_unless j lt (λ e. omega (arith, ap is_reader e))
        (λ held. held1 (waits (s.pc j) w (omega (arith, weight-le-total takes_w n j s.pc lt)) held))
    where
      waits : (p : Pc) → 1 ≤ is_reader p → takes_w p ≡ 0 → needs s.locks p ≢ 0 → 1 ≤ s.locks.mutex1
      waits p counts other held = ground arith

  -- Whoever holds w goes.
  held_w : 1 ≤ s.locks.w → Goes
  held_w h = elim (dec_lt 0 (total in_write n s.pc)) [
    | yes i ↦ one_goes in_write refl (λ p w e. absurd (ground arith)) i
    | no i ↦ elim (dec_lt 0 s.locks.readcount) [
      | yes some ↦ let q = v.w_some some in reader_goes (omega arith) (omega (arith, v.read_count))
      | no none ↦
          let q = v.w_none (omega arith) in
          one_goes gives_w refl (λ p w e. absurd (ground arith)) (omega arith)
    ]
  ]

  -- A reader on its way through readBegin() goes, or the mutex that it needs is held.
  entering_goes : 1 ≤ total entering_r n s.pc → Goes
  entering_goes h = one_goes entering_r refl waits h
    where
      waits : (p : Pc) → 1 ≤ entering_r p → needs s.locks p ≢ 0 → Goes
      waits Pc.rb_lock1 w e = held1 (omega arith)
      waits Pc.rb_lock_w w e = held_w (omega arith)
      waits p w e = absurd (ground arith)

  -- Whoever holds mutex2 goes, if none is about to lock r.
  held2_rest : total takes_r n s.pc ≡ 0 → 1 ≤ s.locks.mutex2 → Goes
  held2_rest none_first h = elim (dec_lt 0 (total rest2 n s.pc)) [
    | yes i ↦ one_goes rest2 refl (λ p w e. absurd (ground arith)) i
    | no i ↦ one_goes gives_r refl (λ p w e. absurd (ground arith)) (omega (arith, v.one2))
  ]

  -- A writer that is counted goes, if none is about to lock r.
  writer_goes : total takes_r n s.pc ≡ 0 → 1 ≤ total is_writer n s.pc → Goes
  writer_goes none_first h =
      let (j, lt, w) = counted is_writer n s.pc h in
      goes_unless j lt (λ e. omega (arith, ap is_writer e))
        (λ held. waits (s.pc j) w (omega (arith, weight-le-total takes_r n j s.pc lt)) held)
    where
      waits : (p : Pc) → 1 ≤ is_writer p → takes_r p ≡ 0 → needs s.locks p ≢ 0 → Goes
      waits Pc.wb_lock_w w other e = held_w (omega arith)
      waits Pc.we_lock2 w other e = held2_rest none_first (omega arith)
      waits p w other e = absurd (ground arith)

  -- Whoever holds r goes.
  held_r : 1 ≤ s.locks.r → Goes
  held_r h = elim (dec_lt 0 (total entering_r n s.pc)) [
    | yes i ↦ entering_goes i
    | no i ↦ elim (dec_lt 0 s.locks.writecount) [
      | yes some ↦ let q = v.r_some some in writer_goes (omega arith) (omega (arith, v.write_count))
      | no none ↦
          let q = v.r_none (omega arith) in
          one_goes gives_r refl (λ p w e. absurd (ground arith)) (omega arith)
    ]
  ]

  -- Whoever holds mutex2 goes.
  held2 : 1 ≤ s.locks.mutex2 → Goes
  held2 h = elim (dec_lt 0 (total takes_r n s.pc)) [
    | yes i ↦ one_goes takes_r refl waits i
    | no i ↦ held2_rest (omega arith) h
  ]
    where
      waits : (p : Pc) → 1 ≤ takes_r p → needs s.locks p ≢ 0 → Goes
      waits Pc.wb_lock_r w e = held_r (omega arith)
      waits p w e = absurd (ground arith)

  -- Whoever holds mutex3 goes.
  held3 : 1 ≤ s.locks.mutex3 → Goes
  held3 h = one_goes holds3 refl waits (omega (arith, v.one3))
    where
      waits : (p : Pc) → 1 ≤ holds3 p → needs s.locks p ≢ 0 → Goes
      waits Pc.rb_lock_r w e = held_r (omega arith)
      waits Pc.rb_lock1 w e = held1 (omega arith)
      waits Pc.rb_lock_w w e = held_w (omega arith)
      waits p w e = absurd (ground arith)

  -- A thread inside the routines goes, or whoever holds the mutex that it needs does.
  goes : (p : Pc) → needs s.locks p ≢ 0 → Goes
  goes Pc.rb_lock3 e = held3 (omega arith)
  goes Pc.rb_lock_r e = held_r (omega arith)
  goes Pc.rb_lock1 e = held1 (omega arith)
  goes Pc.rb_lock_w e = held_w (omega arith)
  goes Pc.reading e = held1 (omega arith)
  goes Pc.wb_lock2 e = held2 (omega arith)
  goes Pc.wb_lock_r e = held_r (omega arith)
  goes Pc.wb_lock_w e = held_w (omega arith)
  goes Pc.we_lock2 e = held2 (omega arith)
  goes p e = absurd (ground arith)

-- The lock has no deadlock: in every state that the threads can reach in which some thread is
-- inside readBegin(), readEnd(), writeBegin() or writeEnd(), or between them, a thread that is can
-- make its next move.
pub no_deadlock :
    {n : ℕ} {s : System}
    → Reach n s
    → (i : ℕ) → i < n
    → s.pc i ≢ Pc.idle
    → (j : ℕ) × (j < n) × (s.pc j ≢ Pc.idle) × ((l : Locks) × (p : Pc) × Move s.locks (s.pc j) l p)
no_deadlock {n} {s} r i lt ne =
    let v = Reach-Inv r in goes_unless n s v i lt ne (goes n s v (s.pc i))
