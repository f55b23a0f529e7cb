-- ===== src/Proxy/Member/Lists.antt =====
-- Facts about the items of the table: adding at the end, removing a pointer.
use proxy_part.Prelude.{
  ℕ, ◌≡◌, ◌≢◌, refl, sym, ◌∙◌, inl, inr, ◌++◌, List, [], ◌∷◌, Option, none, some, ◌==◌, true, false,
  arith, Bool-cases, ==_iff, ℕ_discrete,
}
use proxy_part.UtHash.{Item, Has, Lacks, remove, listed}
use proxy_part.Proxy.{Peer, update}

-- No key stands twice.
abbrev pub Distinct : List Item → Type 0
Distinct [] = Unit
Distinct ((k, p) ∷ items) = Lacks k items × Distinct items

-- Every pointer leads to a peer with the key that it stands under.
abbrev pub Live : (ℕ → Option Peer) → List Item → Type 0
Live memory [] = Unit
Live memory ((k, p) ∷ items) =
    ((peer : Peer) × (memory p ≡ some peer) × (peer.ls.tap_mac ≡ k)) × Live memory items

pub Has-Lacks : (k : List ℕ) (p : ℕ) (items : List Item) → Has k p items → ¬ Lacks k items
Has-Lacks k p [] h l = h
Has-Lacks k p ((j, q) ∷ items) (inl e) l = l.0 e.0
Has-Lacks k p ((j, q) ∷ items) (inr h) l = Has-Lacks k p items h l.1

pub Has-listed : (k : List ℕ) (p : ℕ) (items : List Item) → Has k p items → listed p items ≡ true
unfolding listed
Has-listed k p [] h = absurd h
Has-listed k p ((j, q) ∷ items) (inl e) = ground arith
Has-listed k p ((j, q) ∷ items) (inr h) = ground (arith, Has-listed k p items h)

pub Lacks-append :
    (k j : List ℕ) (p : ℕ) (items : List Item)
    → Lacks k items
    → ¬ (k ≡ j)
    → Lacks k (items ++ (j, p) ∷ [])
Lacks-append k j p [] l n = (n, tt)
Lacks-append k j p ((i, q) ∷ items) l n = (l.0, Lacks-append k j p items l.1 n)

pub Distinct-append :
    (k : List ℕ) (p : ℕ) (items : List Item)
    → Distinct items
    → Lacks k items
    → Distinct (items ++ (k, p) ∷ [])
Distinct-append k p [] d l = (tt, tt)
Distinct-append k p ((i, q) ∷ items) d l =
    (Lacks-append i k p items d.0 (λ e. l.0 (sym e)), Distinct-append k p items d.1 l.1)

pub Live-append :
    (m : ℕ → Option Peer) (p : ℕ) (peer : Peer) (items : List Item)
    → Live m items
    → m p ≡ some peer
    → Live m (items ++ (peer.ls.tap_mac, p) ∷ [])
Live-append m p peer [] l e = ((peer, e, refl), tt)
Live-append m p peer ((i, q) ∷ items) l e = (l.0, Live-append m p peer items l.1 e)

-- A write to a peer that keeps its tap address keeps the list live.
pub Live-update :
    (m : ℕ → Option Peer) (p : ℕ) (old new : Peer) (items : List Item)
    → m p ≡ some old
    → new.ls.tap_mac ≡ old.ls.tap_mac
    → Live m items
    → Live (update m p (some new)) items
Live-update m p old new [] e same l = tt
Live-update m p old new ((k, q) ∷ items) e same l =
    (at_q (ℕ_discrete p q), Live-update m p old new items e same l.1)
  where
    at_q :
        Dec (p ≡ q) → (peer : Peer) × (update m p (some new) q ≡ some peer) × (peer.ls.tap_mac ≡ k)
    at_q (yes r) = (new, ground arith, same ∙ ground (arith, l.0))
    at_q (no r) = (l.0.0, ground (arith, l.0.1), l.0.2)

pub Lacks-remove :
    (k : List ℕ) (p : ℕ) (items : List Item) → Lacks k items → Lacks k (remove p items)
unfolding remove
Lacks-remove k p [] l = tt
Lacks-remove k p ((j, q) ∷ items) l = elim (Bool-cases (p == q)) [
  | inl e ↦ rw e (Lacks-remove k p items l.1)
  | inr e ↦ rw e (l.0, Lacks-remove k p items l.1)
]

pub Distinct-remove : (p : ℕ) (items : List Item) → Distinct items → Distinct (remove p items)
unfolding remove
Distinct-remove p [] d = tt
Distinct-remove p ((j, q) ∷ items) d = elim (Bool-cases (p == q)) [
  | inl e ↦ rw e (Distinct-remove p items d.1)
  | inr e ↦ rw e (Lacks-remove j p items d.0, Distinct-remove p items d.1)
]

-- The peer at `p` may be freed once `p` is out of the list.
pub Live-remove :
    (m : ℕ → Option Peer) (p : ℕ) (items : List Item)
    → Live m items
    → Live (update m p none) (remove p items)
unfolding remove
Live-remove m p [] l = tt
Live-remove m p ((j, q) ∷ items) l = elim (Bool-cases (p == q)) [
  | inl e ↦ rw e (Live-remove m p items l.1)
  | inr e ↦ rw e ((l.0.0, rw e l.0.1, l.0.2), Live-remove m p items l.1)
]

-- What the list says of a pointer in it.
pub Has-Live :
    (m : ℕ → Option Peer) (k : List ℕ) (p : ℕ) (items : List Item)
    → Live m items
    → Has k p items
    → (peer : Peer) × (m p ≡ some peer) × (peer.ls.tap_mac ≡ k)
Has-Live m k p [] l h = absurd h
Has-Live m k p ((j, q) ∷ items) l (inl e) = (l.0.0, rw (e.1) l.0.1, l.0.2 ∙ sym e.0)
Has-Live m k p ((j, q) ∷ items) l (inr h) = Has-Live m k p items l.1 h

-- With one element for each key, removing the element removes the key.
pub Lacks-removed :
    (m : ℕ → Option Peer) (k : List ℕ) (p : ℕ) (items : List Item)
    → Distinct items
    → Live m items
    → Has k p items
    → Lacks k (remove p items)
unfolding remove
Lacks-removed m k p [] d l h = tt
Lacks-removed m k p ((j, q) ∷ items) d l (inl e) =
    rw ((==_iff p q).1 e.1) (Lacks-remove k p items (rw (e.0) d.0))
Lacks-removed m k p ((j, q) ∷ items) d l (inr h) = elim (Bool-cases (p == q)) [
  | inl e ↦ rw e (Lacks-removed m k p items d.1 l.1 h)
  | inr e ↦ rw e (λ same. Has-Lacks k p items h (rw same d.0), Lacks-removed m k p items d.1 l.1 h)
]

-- Every one of the first items is among the others.
abbrev pub AllIn : List Item → List Item → Type 0
AllIn [] items = Unit
AllIn ((k, p) ∷ todo) items = Has k p items × AllIn todo items

pub Has-remove :
    (k : List ℕ) (p q : ℕ) (items : List Item) → p ≢ q → Has k q items → Has k q (remove p items)
unfolding remove
Has-remove k p q [] ne h = h
Has-remove k p q ((j, r) ∷ items) ne (inl e) =
    let other : (p == r) ≡ false = ground arith in rw other (inl e)
Has-remove k p q ((j, r) ∷ items) ne (inr h) = elim (Bool-cases (p == r)) [
  | inl e ↦ rw e (Has-remove k p q items ne h)
  | inr e ↦ rw e (inr (Has-remove k p q items ne h))
]

-- Two keys that lead to one pointer are one key.
pub same_key :
    (m : ℕ → Option Peer) (j k : List ℕ) (p : ℕ) (items : List Item)
    → Live m items
    → Has j p items
    → Has k p items
    → j ≡ k
same_key m j k p items l hj hk =
    let (a, ma, ka) = Has-Live m j p items l hj in let (b, mb, kb) = Has-Live m k p items l hk in cc

-- Items under other keys stay when `p` is removed.
pub AllIn-remove :
    (m : ℕ → Option Peer) (k : List ℕ) (p : ℕ) (todo items : List Item)
    → Live m items
    → Has k p items
    → Lacks k todo
    → AllIn todo items
    → AllIn todo (remove p items)
AllIn-remove m k p [] items l h lacks all = tt
AllIn-remove m k p ((j, q) ∷ todo) items l h lacks all = (
  Has-remove j p q items (λ e. lacks.0 (same_key m k j p items l h (rw e all.0))) all.0,
  AllIn-remove m k p todo items l h lacks.1 all.1,
)

pub Has-unique :
    (k : List ℕ) (p q : ℕ) (items : List Item)
    → Distinct items
    → Has k p items
    → Has k q items
    → p ≡ q
Has-unique k p q [] d hp hq = absurd hp
Has-unique k p q ((j, r) ∷ items) d (inl e) (inl f) = e.1 ∙ sym f.1
Has-unique k p q ((j, r) ∷ items) d (inl e) (inr f) = absurd (Has-Lacks k q items f (rw (e.0) d.0))
Has-unique k p q ((j, r) ∷ items) d (inr e) (inl f) = absurd (Has-Lacks k p items e (rw (f.0) d.0))
Has-unique k p q ((j, r) ∷ items) d (inr e) (inr f) = Has-unique k p q items d.1 e f

pub remove-absent :
    (m : ℕ → Option Peer) (k : List ℕ) (p : ℕ) (peer : Peer) (items : List Item)
    → m p ≡ some peer
    → peer.ls.tap_mac ≡ k
    → Lacks k items
    → Live m items
    → remove p items ≡ items
unfolding remove
remove-absent m k p peer [] e f lacks l = refl
remove-absent m k p peer ((j, q) ∷ items) e f lacks l = elim (Bool-cases (p == q)) [
  | inl same ↦ absurd (lacks.0 (at_q ((==_iff p q).0 same)))
  | inr other ↦ rw (other, remove-absent m k p peer items e f lacks.1 l.1)
]
  where
    at_q : p ≡ q → k ≡ j
    at_q same = let (b, mb, kb) = l.0 in let mp : m p ≡ some b = rw same mb in cc

-- The first item is the only one with its pointer.
pub remove-head :
    (m : ℕ → Option Peer) (k : List ℕ) (p : ℕ) (items : List Item)
    → Distinct ((k, p) ∷ items)
    → Live m ((k, p) ∷ items)
    → remove p ((k, p) ∷ items) ≡ items
unfolding remove
remove-head m k p items d l =
    let same : (p == p) ≡ true = ground arith in
    rw same (remove-absent m k p l.0.0 items l.0.1 l.0.2 d.0 l.1)

pub AllIn-refl : (items : List Item) → AllIn items items
AllIn-refl [] = tt
AllIn-refl ((k, p) ∷ items) = (inl (refl, refl), AllIn-weaken items items (k, p) (AllIn-refl items))
  where
    AllIn-weaken : (todo items : List Item) (i : Item) → AllIn todo items → AllIn todo (i ∷ items)
    AllIn-weaken [] items i a = tt
    AllIn-weaken ((j, q) ∷ todo) items i a = (inr a.0, AllIn-weaken todo items i a.1)
