-- ===== src/Proxy/Samples.antt =====
-- A small proxy for the tests: two peers in the list, and a third in memory only.
use proxy_part.Wire.Packets.{Fits}
use proxy_part.Proxy.Broadcast.Members.{TimeFits}
use proxy_part.Proxy.Broadcast.Told.{PeersFit}
use proxy_part.Prelude.{
  ◌≤◌, ◌<◌, ◌≡◌, subst, ℕ_discrete, ℕ, ◌+◌, refl, List, [], ◌∷◌, none, some, false, arith, ◌==◌,
  if◌then◌else◌, pos, inl,
}
use proxy_part.Rio.{zeros, Kernel, ReadReply, no_error, accepted}
use proxy_part.Wire.{LinkState, Time, of_int}
use proxy_part.Wire.Packets
use proxy_part.UtHash.Lists.{list_table}
use proxy_part.Proxy.{Peer, P}
use proxy_part.Proxy.Member.Remove.{IsValid, IsMember}

-- A descriptor that takes whatever is written to it twice.
abbrev pub willing : Kernel
willing = record {
  errno = no_error;
  polls = none ∷ none ∷ [];
  fcntls = none ∷ none ∷ none ∷ none ∷ [];
  reads = [];
  writes = accepted 2000 ∷ accepted 2000 ∷ [];
  sent = [];
  locked = false;
}

abbrev pub mac : ℕ → List ℕ
mac n = n ∷ 0 ∷ 0 ∷ 0 ∷ 0 ∷ 1 ∷ []

abbrev pub host : ℕ → LinkState
host n = record { ip_addr = n; listen_port = 2000; tap_mac = mac n; eth_mac = mac (n + 100) }

abbrev pub time : ℕ → Time
time n = record { tv_sec = n; tv_nsec = 0 }

-- The peer with the tap address `mac n`.
abbrev pub peer : ℕ → Peer
peer n = record {
  timestamp = time 0;
  ls = host n;
  fd = n + 2;
  rio = record { cnt = pos 0; bufp = 0; buf = [] };
  tid = 10 + n;
  timeout_tid = 20 + n;
  probe_ts = time 0;
  bandwidth = of_int (pos 0);
  link_weight = of_int (pos 0);
}

abbrev pub sample : P list_table
sample = record {
  memory = λ p.
      if p == 1
      then some (peer 1)
      else if p == 2
      then some (peer 2)
      else if p == 3
      then some (peer 3)
      else none;
  hash_table = (mac 1, 1) ∷ (mac 2, 2) ∷ [];
  writing = false;
  link_state = host 9;
  timestamp = time 77;
  config = record { listen_port = 2000; link_period = 5; link_timeout = 25; quit_timer = 60 };
  tap_fd = 1;
  tap_tid = 50;
  rio_tap = record { cnt = pos 0; bufp = 0; buf = [] };
  files = λ fd. willing;
  errno = no_error;
  written = [];
  closed = [];
  next_tid = 60;
  threads = [];
  cancelled = [];
  clock = λ n. time (100 + n);
  ticks = 0;
  dials = [];
  next_address = 9;
  raw_buffer = zeros;
}

pub sample-IsValid : IsValid list_table sample
sample-IsValid = record {
  distinct = ((λ e. ground arith, tt), (tt, tt));
  live = ((peer 1, refl, refl), ((peer 2, refl, refl), tt));
}

pub first-IsMember : IsMember list_table sample 1 (peer 1)
first-IsMember = record { here = refl; listed = inl (refl, refl) }

pub host-Fits : Packets.Fits (host 1)
host-Fits = record { address = omega arith; port = omega arith; tap = refl; eth = refl }

-- The sample, with bytes to read on every descriptor.
abbrev pub reading : List ReadReply → P list_table
reading replies = record sample {
  files = λ fd. record willing { reads = replies; polls = none ∷ none ∷ none ∷ [] };
}

pub hosts-Fits : (n : ℕ) → n < 100 → Fits (host n)
hosts-Fits n h = record { address = omega arith; port = omega arith; tap = refl; eth = refl }

-- The peers of the sample.
pub sample-peers :
    (p : ℕ) (x : Peer) → sample.memory p ≡ some x → (n : ℕ) × (1 ≤ n) × (n ≤ 3) × (peer n ≡ x)
sample-peers p x e = elim (ℕ_discrete p 1) [
  | yes a ↦ (1, omega arith, omega arith, ground arith)
  | no a ↦ elim (ℕ_discrete p 2) [
    | yes b ↦ (2, omega arith, omega arith, ground arith)
    | no b ↦ (3, omega arith, omega arith, ground arith)
  ]
]

pub sample-PeersFit : PeersFit sample.memory
sample-PeersFit p x e =
    let (n, some_n, small, same) = sample-peers p x e in
    let fit : Fits (peer n).ls × TimeFits (peer n).timestamp =
      (hosts-Fits n (omega arith), record { seconds = omega arith; nanoseconds = omega arith }) in
    subst (λ (q : Peer). Fits q.ls × TimeFits q.timestamp) same fit
