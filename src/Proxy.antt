-- ===== src/Proxy.antt =====
-- The global state of the proxy (proxy.h, proxy.c) and the calls that its functions make of it:
-- memory, the membership lock, the membership list, clocks, descriptors and threads. One thread
-- runs at a time; what several do at once to the lock is in RwLock.
pub mod Steps
pub mod Safe
pub mod Member
pub mod Messages
pub mod Join
pub mod Startup
pub mod Records
pub mod Probes
pub mod Timeout
pub mod Ethernet
pub mod Broadcast
pub mod Samples
use proxy_part.Prelude.{
  ℕ, suc, ◌+◌, ◌==◌, if◌then◌else◌, Bool, true, false, List, [], ◌∷◌, ◌++◌, Option, none, some, ℤ,
  pos, length,
}
use proxy_part.Rio.{Errno, Kernel, Outcome, done, blocked, out_of_fuel, Rio, rio_write, rio_readnb}
use proxy_part.Wire.{LinkState, Time, Float}
use proxy_part.UtHash.{UtHash, Item, listed}

-- `Peer`, less its mutex and condition variable. `fd` is `rio.fd`.
pub record Peer : Type 0 where
  pub timestamp : Time
  pub ls : LinkState
  pub fd : ℕ
  pub rio : Rio
  pub tid : ℕ
  pub timeout_tid : ℕ
  pub probe_ts : Time
  pub bandwidth : Float
  pub link_weight : Float

pub record Config : Type 0 where
  pub listen_port : ℕ
  pub link_period : ℕ
  pub link_timeout : ℕ
  pub quit_timer : ℕ

-- The routines that threads are started with, two of them on a peer.
pub data Start : Type 0 where
  timeout_handler eth_handler : ℕ → Start
  tap_handler : Start

-- What the system replies to an attempt to open a connection: the value of socket(), and whether
-- setsockopt(), connect() and getsockname() succeed, and the address that getsockname() gives.
pub record Dial : Type 0 where
  pub socket : ℤ
  pub setsockopt : Bool
  pub connect : Bool
  pub getsockname : Bool
  pub local_address : ℕ

-- `memory` holds the peers at their addresses, and nothing at an address that is free. `writing`:
-- the membership lock is held for writing. `threads`, `cancelled`, `written` and `closed` record the
-- calls of pthread_create(), pthread_cancel(), rio_write() and close(), the last one first. `clock`
-- gives the readings of the real-time clock, of which `ticks` are taken. `dials` are the replies to
-- attempts to connect, and malloc() gives out the addresses from `next_address` on. `raw_buffer` is
-- what a buffer that it gives out for a payload of some length holds before it is read.
pub record Proxy (Table : Type 0) : Type 0 where
  pub memory : ℕ → Option Peer
  pub hash_table : Table
  pub writing : Bool
  pub link_state : LinkState
  pub timestamp : Time
  pub config : Config
  pub tap_fd : ℕ
  pub tap_tid : ℕ
  pub rio_tap : Rio
  pub files : ℕ → Kernel
  pub errno : Errno
  pub written : List (ℕ × List ℕ)
  pub closed : List ℕ
  pub next_tid : ℕ
  pub threads : List (ℕ × Start)
  pub cancelled : List ℕ
  pub clock : ℕ → Time
  pub ticks : ℕ
  pub dials : List Dial
  pub next_address : ℕ
  pub raw_buffer : ℕ → List ℕ

-- How a function ends: it returns; exit() ends the process; it uses memory that is not there or
-- unlocks what is not locked; it waits for a lock that it holds itself; or it has not returned.
pub data Run (S A : Type 0) : Type 0 where
  ret : A → S → Run S A
  exited : ℤ → S → Run S A
  fault deadlock waiting stuck : Run S A

abbrev pub M : Type 0 → Type 0 → Type 0
M S A = S → Run S A

infixl 5 ◌>>=◌ ◌>>◌
abbrev pub ◌>>=◌ : {S A B : Type 0} → M S A → (A → M S B) → M S B
◌>>=◌ m f s = elim (m s) [
  | ret a t ↦ f a t
  | exited v t ↦ exited v t
  | fault ↦ fault
  | deadlock ↦ deadlock
  | waiting ↦ waiting
  | stuck ↦ stuck
]

abbrev pub ◌>>◌ : {S B : Type 0} → M S (Unit {0}) → M S B → M S B
m >> k = m >>= λ _. k

abbrev pub pure : {S A : Type 0} → A → M S A
pure a s = ret a s

abbrev pub modify : {S : Type 0} → (S → S) → M S (Unit {0})
modify f s = ret tt (f s)

abbrev pub exit : {S A : Type 0} → ℤ → M S A
exit v s = exited v s

abbrev pub update {ℓ} : {A : Type ℓ} → (ℕ → A) → ℕ → A → ℕ → A
update f p v q = if p == q then v else f q

abbrev pub member : ℕ → List ℕ → Bool
member n [] = false
member n (x ∷ xs) = if x == n then true else member n xs

-- The body for each element, as HASH_ITER goes through them.
abbrev pub each : {S : Type 0} → (ℕ → M S (Unit {0})) → List Item → M S (Unit {0})
each body [] = pure tt
each body ((k, p) ∷ items) = let rest = each body items in body p >> rest

module _ {T : Type 0} where
  -- `*pp`
  unfoldable pub deref : ℕ → M (Proxy T) Peer
  deref p s = elim (s.memory p) [ none ↦ fault | some peer ↦ ret peer s ]

  -- `*pp=peer`
  unfoldable pub store : ℕ → Peer → M (Proxy T) (Unit {0})
  store p peer s = elim (s.memory p) [
    | none ↦ fault
    | some _ ↦ ret tt (record s { memory = update s.memory p (some peer) })
  ]

  -- free() of an address that is free already is a fault.
  unfoldable pub free : ℕ → M (Proxy T) (Unit {0})
  free p s = elim (s.memory p) [
    | none ↦ fault
    | some _ ↦ ret tt (record s { memory = update s.memory p none })
  ]

  abbrev pub close : ℕ → M (Proxy T) (Unit {0})
  close fd = modify λ s. record s { closed = fd ∷ s.closed }

  abbrev pub pthread_cancel : ℕ → M (Proxy T) (Unit {0})
  pthread_cancel tid = modify λ s. record s { cancelled = tid ∷ s.cancelled }

  abbrev pub pthread_create : Start → M (Proxy T) ℕ
  pthread_create start s =
      ret s.next_tid
        (record s { next_tid = suc s.next_tid; threads = (s.next_tid, start) ∷ s.threads })

  abbrev pub clock_gettime : M (Proxy T) Time
  clock_gettime s = ret (s.clock s.ticks) (record s { ticks = suc s.ticks })

  -- malloc() of a peer that is then filled in. It never returns NULL here.
  abbrev pub malloc : Peer → M (Proxy T) ℕ
  malloc peer s = ret s.next_address (record s {
    memory = update s.memory s.next_address (some peer);
    next_address = suc s.next_address;
  })

  -- pthread_testcancel() of the thread `tid`: whether it ends here.
  unfoldable pub testcancel : ℕ → M (Proxy T) Bool
  testcancel tid s = ret (member tid s.cancelled) s

  unfoldable pub dial : M (Proxy T) Dial
  dial s = elim (s.dials) [ [] ↦ waiting | d ∷ ds ↦ ret d (record s { dials = ds }) ]

  -- With no other thread about, a lock is refused only to the thread that holds it for writing.
  unfoldable pub write_begin : M (Proxy T) (Unit {0})
  write_begin s = if s.writing then deadlock else ret tt (record s { writing = true })

  unfoldable pub write_end : M (Proxy T) (Unit {0})
  write_end s = if s.writing then ret tt (record s { writing = false }) else fault

  unfoldable pub read_begin : M (Proxy T) (Unit {0})
  read_begin s = if s.writing then deadlock else ret tt s

  abbrev pub read_end : M (Proxy T) (Unit {0})
  read_end = pure tt

  -- rio_write() on a descriptor; `errno` belongs to the thread.
  unfoldable pub fd_write : ℕ → List ℕ → M (Proxy T) ℤ
  fd_write fd bytes s = elim (rio_write (record (s.files fd) { errno = s.errno }) bytes) [
    | done (v, k) ↦ ret v (record s {
      files = update s.files fd k;
      errno = k.errno;
      written = (fd, bytes) ∷ s.written;
    })
    | blocked ↦ waiting
    | out_of_fuel ↦ stuck
  ]

  -- rio_readnb() on a peer's buffer: the returned value and the bytes stored.
  unfoldable pub peer_read : ℕ → ℕ → M (Proxy T) (ℤ × List ℕ)
  peer_read p n s = elim (s.memory p) [
    | none ↦ fault
    | some peer ↦ elim (rio_readnb peer.rio (record (s.files peer.fd) { errno = s.errno }) n) [
      | done (v, bytes, rp, k) ↦
          ret (v, bytes)
            (record s {
              memory = update s.memory p (some (record peer { rio = rp }));
              files = update s.files peer.fd k;
              errno = k.errno;
            })
      | blocked ↦ waiting
      | out_of_fuel ↦ stuck
    ]
  ]

module _ (h : UtHash) where
  abbrev pub P : Type 0
  P = Proxy (h.Table)

  unfoldable pub hash_find : List ℕ → M P (Option ℕ)
  hash_find key s = ret (h.find s.hash_table key) s

  -- HASH_COUNT
  unfoldable pub hash_count : M P ℕ
  hash_count s = ret (length (h.items s.hash_table)) s

  abbrev pub hash_add : List ℕ → ℕ → M P (Unit {0})
  hash_add key p = modify λ s. record s { hash_table = h.add s.hash_table key p }

  -- To delete an element that is not in the table is undefined.
  unfoldable pub hash_del : ℕ → M P (Unit {0})
  hash_del p s =
      if listed p (h.items s.hash_table)
      then ret tt (record s { hash_table = h.del s.hash_table p })
      else fault

  -- HASH_ITER
  unfoldable pub hash_iter : (ℕ → M P (Unit {0})) → M P (Unit {0})
  hash_iter body s = each body (h.items s.hash_table) s
