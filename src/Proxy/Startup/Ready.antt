-- ===== src/Proxy/Startup/Ready.antt =====
-- What main() keeps from one connection to the next, and while a new peer is not yet in the list.
use proxy_part.Wire.{Time}
use proxy_part.Wire.Packets.{Fits}
use proxy_part.Wire.Typed.{AllBytes, Addressed}
use proxy_part.Proxy.Broadcast.Members.{TimeFits}
use proxy_part.Proxy.Broadcast.Told.{PeersFit}
use proxy_part.Prelude.{
  subst, ap, sym, ◌≢◌, ℕ, ◌≤◌, ◌<◌, ◌≡◌, ◌⊎◌, refl, ◌∙◌, List, [], ◌∷◌, ◌++◌, Option, none, some,
  Bool, false, arith, ℕ_discrete,
}
use proxy_part.Rio.{ReadReply, Kernel}
use proxy_part.Rio.Fill
use proxy_part.UtHash.{UtHash, Item, listed}
use proxy_part.Proxy.{Peer, P, update}
use proxy_part.Proxy.Member.Lists.{Distinct, Live}
use proxy_part.Proxy.Member.Add.{update_self, update_other}

-- What read() gives fits the buffer of a `rio_t`, and is bytes.
abbrev pub Arrives : List ReadReply → Type 0
Arrives replies = Fill.Fits replies × AllBytes (Fill.arriving replies)

-- The list is valid and its lock free, the addresses that malloc() has not given out hold nothing,
-- every peer in memory fits its C types, and what arrives at a descriptor, the readings of the clock
-- and the two local addresses are as the system gives them.
pub record Readiness (m : ℕ → Option Peer) (items : List Item) (writing : Bool) (next : ℕ)
    (files : ℕ → Kernel) (readings : ℕ → Time) (tap eth : List ℕ) : Type 0 where
  pub distinct : Distinct items
  pub live : Live m items
  pub unlocked : writing ≡ false
  pub room : (a : ℕ) → next ≤ a → m a ≡ none
  pub typed : PeersFit m
  pub fit : (fd : ℕ) → Arrives (files fd).reads
  pub clock : (n : ℕ) → TimeFits (readings n)
  pub own : Addressed tap eth

-- A peer that is not in the list may change.
pub Live-store :
    (m : ℕ → Option Peer) (p : ℕ) (v : Option Peer) (items : List Item)
    → listed p items ≡ false
    → Live m items
    → Live (update m p v) items
unfolding listed
Live-store m p v [] e l = tt
Live-store m p v ((k, q) ∷ items) e l = (
  (l.0.0, update_other m p q v (λ same. ground arith) ∙ l.0.1, l.0.2),
  Live-store m p v items (ground arith) l.1,
)

pub unlisted :
    (m : ℕ → Option Peer) (p : ℕ) (items : List Item)
    → m p ≡ none
    → Live m items
    → listed p items ≡ false
unfolding listed
unlisted m p [] e l = refl
unlisted m p ((k, q) ∷ items) e l = elim (ℕ_discrete p q) [
  | yes same ↦ let mq : m p ≡ some (l.0.0) = rw same (l.0.1) in absurd (cc)
  | no other ↦ ground (arith, unlisted m p items e l.1)
]

pub fit-update :
    (files : ℕ → Kernel) (fd : ℕ) (k : Kernel)
    → ((fd : ℕ) → Arrives (files fd).reads)
    → Arrives k.reads
    → (other : ℕ) → Arrives (update files fd k other).reads
fit-update files fd k all new other = elim (ℕ_discrete fd other) [
  | yes e ↦ rw (← e, update_self files fd k) new
  | no e ↦ rw (update_other files fd other k e) (all other)
]

same_peer : {a b : Peer} → ◌≡◌ {A = Option Peer} (some a) (some b) → a ≡ b
same_peer e = cc

-- Only the peer at `p` has changed.
pub PeersFit-change :
    (m n : ℕ → Option Peer) (p : ℕ) (peer : Peer)
    → PeersFit m
    → ((q : ℕ) → p ≢ q → n q ≡ m q)
    → n p ≡ some peer
    → Fits peer.ls × TimeFits peer.timestamp
    → PeersFit n
PeersFit-change m n p peer all others here new q x e = elim (ℕ_discrete p q) [
  | yes same ↦
      subst (λ (y : Peer). Fits y.ls × TimeFits y.timestamp)
        (same_peer (sym here ∙ (ap n same ∙ e))) new
  | no other ↦ all q x (sym (others q other) ∙ e)
]

pub PeersFit-update :
    (m : ℕ → Option Peer) (p : ℕ) (peer : Peer)
    → PeersFit m
    → Fits peer.ls × TimeFits peer.timestamp
    → PeersFit (update m p (some peer))
PeersFit-update m p peer all new =
    PeersFit-change m (update m p (some peer)) p peer all
      (λ q other. update_other m p q (some peer) other) (update_self m p (some peer)) new

module _ (h : UtHash) where
  abbrev pub Ready : P h → Type 0
  Ready s =
      Readiness s.memory (h.items s.hash_table) s.writing s.next_address s.files s.clock
        s.link_state.tap_mac s.link_state.eth_mac

  -- The new peer is in memory, and not in the list, which is as it was.
  pub record Newcomer (items : List Item) (pp : ℕ) (m : ℕ → Option Peer) (table : h.Table)
      (writing : Bool) (next : ℕ) (files : ℕ → Kernel) (readings : ℕ → Time) (tap eth : List ℕ)
      : Type 0 where
    pub ready : Readiness m (h.items table) writing next files readings tap eth
    pub same : h.items table ≡ items
    pub outside : listed pp (h.items table) ≡ false
    pub below : pp < next
    pub peer : Peer
    pub here : m pp ≡ some peer
    pub buffer : Fill.IsValid peer.rio
    pub unread : AllBytes (Fill.pending peer.rio)

  abbrev pub Entering : List Item → ℕ → P h → Type 0
  Entering items pp s =
      Newcomer items pp s.memory s.hash_table s.writing s.next_address s.files s.clock
        s.link_state.tap_mac s.link_state.eth_mac

  -- The peer is in memory, and the list is as it was, or the peer is at its end.
  pub record Entered (items : List Item) (pp : ℕ) (s : P h) : Type 0 where
    pub ready : Ready s
    pub peer : Peer
    pub here : s.memory pp ≡ some peer
    pub grown :
        (h.items s.hash_table ≡ items)
        ⊎ (h.items s.hash_table ≡ items ++ (peer.ls.tap_mac, pp) ∷ [])

  -- A write to the new peer, which keeps its buffer valid.
  pub stored-Entering :
      (items : List Item) (pp : ℕ) (s : P h) (peer : Peer) (files : ℕ → Kernel)
      → Entering items pp s
      → Fill.IsValid peer.rio
      → AllBytes (Fill.pending peer.rio)
      → Fits peer.ls × TimeFits peer.timestamp
      → ((fd : ℕ) → Arrives (files fd).reads)
      → Entering items pp (record s { memory = update s.memory pp (some peer); files = files })
  stored-Entering items pp s peer files e v u c f = record {
    ready = record {
      distinct = e.ready.distinct;
      live = Live-store s.memory pp (some peer) (h.items s.hash_table) e.outside e.ready.live;
      unlocked = e.ready.unlocked;
      room = λ a le.
          update_other s.memory pp a (some peer) (λ q. omega (arith, q, e.below))
          ∙ e.ready.room a le;
      typed = PeersFit-update s.memory pp peer e.ready.typed c;
      fit = f;
      clock = e.ready.clock;
      own = e.ready.own;
    };
    same = e.same;
    outside = e.outside;
    below = e.below;
    peer = peer;
    here = update_self s.memory pp (some peer);
    buffer = v;
    unread = u;
  }
