-- ===== src/Proxy/Broadcast/Members.antt =====
-- The records that Link_State_Broadcast() is to write for the members of the list.
use proxy_part.Prelude.{
  ℕ, suc, ◌+◌, ◌*◌, ◌^◌, ◌<◌, ◌≡◌, ◌≢◌, ◌⊎◌, inl, inr, refl, ap, sym, ◌∙◌, List, [], ◌∷◌, ◌++◌,
  true, false, ◌==◌, if◌then◌else◌, Bool-cases, arith, length, length-append, subst,
}
use proxy_part.Wire.{Time, LinkState}
use proxy_part.Wire.Packets.{Fits}
use proxy_part.Proxy.{Peer}
use proxy_part.Proxy.Broadcast.{LinkStateRecord}
use proxy_part.Proxy.Broadcast.Edges.{RecordFits, AllFit, AllFit-append}

-- A member of the list, with its address.
abbrev pub Entry : Type 0
Entry = ℕ × Peer

-- The records that Link_State_Broadcast() is to write: an edge from the origin to each member; then
-- for each member an edge to the origin, and one to each other member. The members' edges to one
-- another have the member's time, all others the origin's.
abbrev pub origin_edges : Time → LinkState → List Entry → List LinkStateRecord
origin_edges now self [] = []
origin_edges now self ((p, peer) ∷ ps) =
    record { id = now; proxy1 = self; proxy2 = peer.ls } ∷ origin_edges now self ps

abbrev pub pair_edges : ℕ → Peer → List Entry → List LinkStateRecord
pair_edges pp peer [] = []
pair_edges pp peer ((p, other) ∷ ps) =
    let rest = pair_edges pp peer ps in
    if pp == p
    then rest
    else record { id = peer.timestamp; proxy1 = peer.ls; proxy2 = other.ls } ∷ rest

abbrev pub neighbor_edges : Time → LinkState → (all ps : List Entry) → List LinkStateRecord
neighbor_edges now self all [] = []
neighbor_edges now self all ((p, peer) ∷ ps) =
    record { id = now; proxy1 = peer.ls; proxy2 = self }
    ∷ (pair_edges p peer all ++ neighbor_edges now self all ps)

abbrev pub edges : Time → LinkState → List Entry → List LinkStateRecord
edges now self ps = origin_edges now self ps ++ neighbor_edges now self ps ps

-- No member has the address `p`; all members have different addresses.
abbrev pub Absent : ℕ → List Entry → Type 0
Absent p [] = Unit {0}
Absent p ((q, peer) ∷ ps) = (p ≢ q) × Absent p ps

abbrev pub Apart : List Entry → Type 0
Apart [] = Unit {0}
Apart ((p, peer) ∷ ps) = Absent p ps × Apart ps

abbrev pub Within : ℕ → List Entry → Type 0
Within p [] = ⊥
Within p ((q, peer) ∷ ps) = (p ≡ q) ⊎ Within p ps

length-origin :
    (now : Time) (self : LinkState) (ps : List Entry)
    → length (origin_edges now self ps) ≡ length ps
length-origin now self [] = refl
length-origin now self (p ∷ ps) = ap suc (length-origin now self ps)

pairs-Absent :
    (pp : ℕ) (peer : Peer) (ps : List Entry)
    → Absent pp ps
    → length (pair_edges pp peer ps) ≡ length ps
pairs-Absent pp peer [] a = refl
pairs-Absent pp peer ((p, other) ∷ ps) a = ground (arith, pairs-Absent pp peer ps a.1)

Absent-ne : (p q : ℕ) (ps : List Entry) → Absent p ps → Within q ps → p ≢ q
Absent-ne p q [] a w = absurd w
Absent-ne p q ((r, peer) ∷ ps) a (inl e) = λ eq. a.0 (eq ∙ e)
Absent-ne p q ((r, peer) ∷ ps) a (inr w) = Absent-ne p q ps a.1 w

-- A member has an edge to each other one.
pairs-Within :
    (pp : ℕ) (peer : Peer) (ps : List Entry)
    → Apart ps
    → Within pp ps
    → length (pair_edges pp peer ps) + 1 ≡ length ps
pairs-Within pp peer [] a w = absurd w
pairs-Within pp peer ((p, other) ∷ ps) a (inl e) =
    let same : (pp == p) ≡ true = ground arith in
    rw same (omega (arith, pairs-Absent pp peer ps (subst (λ q. Absent q ps) (sym e) a.0)))
pairs-Within pp peer ((p, other) ∷ ps) a (inr w) =
    let differ : p ≢ pp = Absent-ne p pp ps a.0 w in
    let other_one : (pp == p) ≡ false = ground arith in
    rw other_one (omega (arith, pairs-Within pp peer ps a.1 w))

-- The members of `ps` are members of `all`.
abbrev pub AllWithin : List Entry → List Entry → Type 0
AllWithin [] all = Unit {0}
AllWithin ((p, peer) ∷ ps) all = Within p all × AllWithin ps all

more-AllWithin : (e : Entry) (ps all : List Entry) → AllWithin ps all → AllWithin ps (e ∷ all)
more-AllWithin e [] all w = tt
more-AllWithin e ((p, peer) ∷ ps) all w = (inr w.0, more-AllWithin e ps all w.1)

AllWithin-refl : (ps : List Entry) → AllWithin ps ps
AllWithin-refl [] = tt
AllWithin-refl ((p, peer) ∷ ps) = (inl refl, more-AllWithin (p, peer) ps ps (AllWithin-refl ps))

length-neighbor :
    (now : Time) (self : LinkState) (all ps : List Entry)
    → Apart all
    → AllWithin ps all
    → length (neighbor_edges now self all ps) ≡ length ps * length all
length-neighbor now self all [] a w = omega arith
length-neighbor now self all ((p, peer) ∷ ps) a w =
    let n = length ps in
    let m = length all in
    let mul : suc n * m ≡ m + n * m = grind arith in
    omega (
      arith,
      mul,
      pairs-Within p peer all a w.0,
      length-neighbor now self all ps a w.1,
      length-append {0} (pair_edges p peer all) (neighbor_edges now self all ps),
    )

-- `n` members make `n * n + n` records.
pub length-edges :
    (now : Time) (self : LinkState) (ps : List Entry)
    → Apart ps
    → length (edges now self ps) ≡ length ps * length ps + length ps
length-edges now self ps a = omega (
  arith,
  length-origin now self ps,
  length-neighbor now self ps ps a (AllWithin-refl ps),
  length-append {0} (origin_edges now self ps) (neighbor_edges now self ps ps),
)

-- The times and link states fit their C types.
pub record TimeFits (t : Time) : Type 0 where
  pub seconds : t.tv_sec < 2 ^ 32
  pub nanoseconds : t.tv_nsec < 2 ^ 32

abbrev pub EntriesFit : List Entry → Type 0
EntriesFit [] = Unit {0}
EntriesFit ((p, peer) ∷ ps) = Fits peer.ls × TimeFits peer.timestamp × EntriesFit ps

fitting :
    {t : Time} {a b : LinkState}
    → TimeFits t
    → Fits a
    → Fits b
    → RecordFits (record { id = t; proxy1 = a; proxy2 = b })
fitting t a b = record { seconds = t.seconds; nanoseconds = t.nanoseconds; first = a; second = b }

origin-AllFit :
    (now : Time) (self : LinkState) (ps : List Entry)
    → TimeFits now
    → Fits self
    → EntriesFit ps
    → AllFit (origin_edges now self ps)
origin-AllFit now self [] t f es = tt
origin-AllFit now self ((p, peer) ∷ ps) t f es =
    (fitting t f es.0, origin-AllFit now self ps t f es.2)

pair-AllFit :
    (pp : ℕ) (peer : Peer) (ps : List Entry)
    → Fits peer.ls
    → TimeFits peer.timestamp
    → EntriesFit ps
    → AllFit (pair_edges pp peer ps)
pair-AllFit pp peer [] f t es = tt
pair-AllFit pp peer ((p, other) ∷ ps) f t es = elim (Bool-cases (pp == p)) [
  | inl e ↦ rw e (pair-AllFit pp peer ps f t es.2)
  | inr e ↦ rw e (fitting t f es.0, pair-AllFit pp peer ps f t es.2)
]

neighbor-AllFit :
    (now : Time) (self : LinkState) (all ps : List Entry)
    → TimeFits now
    → Fits self
    → EntriesFit all
    → EntriesFit ps
    → AllFit (neighbor_edges now self all ps)
neighbor-AllFit now self all [] t f fs es = tt
neighbor-AllFit now self all ((p, peer) ∷ ps) t f fs es = (
  fitting t es.0 f,
  AllFit-append (pair_edges p peer all) (neighbor_edges now self all ps)
      (pair-AllFit p peer all es.0 es.1 fs) (neighbor-AllFit now self all ps t f fs es.2),
)

pub edges-AllFit :
    (now : Time) (self : LinkState) (ps : List Entry)
    → TimeFits now
    → Fits self
    → EntriesFit ps
    → AllFit (edges now self ps)
edges-AllFit now self ps t f es =
    AllFit-append (origin_edges now self ps) (neighbor_edges now self ps ps)
      (origin-AllFit now self ps t f es) (neighbor-AllFit now self ps ps t f es es)
