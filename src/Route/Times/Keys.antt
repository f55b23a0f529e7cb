-- ===== src/Route/Times/Keys.antt =====
-- The pair of tap addresses of a record, and the graph as a map after that record.
use proxy_part.Prelude.{
  ℕ, ◌≡◌, ◌↔◌, refl, arith, List, none, some, Bool, true, false, ◌&&◌, inl, inr, Bool-cases,
  if◌then◌else◌,
}
use proxy_part.Wire.{same_bytes}
use proxy_part.Wire.Bytes.{same_bytes_iff}
use proxy_part.UtHash.{UtHash}
use proxy_part.Wire.{Time, of_net}
use proxy_part.Route.{ReceivedRecord}
use proxy_part.Route.{N}
use proxy_part.Route.Times.{edge_of, edge_at, edge_label, IsGraph}

-- The two tap addresses of the record.
abbrev pub is_key : ReceivedRecord → (from to : List ℕ) → Bool
is_key r from to = same_bytes from r.proxy1.tap_mac && same_bytes to r.proxy2.tap_mac

pub is_key_iff :
    (r : ReceivedRecord) (k j : List ℕ)
    → (is_key r k j ≡ true) ↔ ((k ≡ r.proxy1.tap_mac) × (j ≡ r.proxy2.tap_mac))
is_key_iff r k j =
    let a = same_bytes_iff k r.proxy1.tap_mac in
    let b = same_bytes_iff j r.proxy2.tap_mac in
    (
      λ e. (a.0 (ground arith), b.0 (ground arith)),
      λ (p, q). let x = a.1 p in let y = b.1 q in ground arith,
    )

pub chosen :
    {A : Type 0} (r : ReceivedRecord) (k j : List ℕ) (new old : A)
    → k ≡ r.proxy1.tap_mac
    → j ≡ r.proxy2.tap_mac
    → (if is_key r k j then new else old) ≡ new
chosen r k j new old p q = rw ((is_key_iff r k j).1 (p, q)) refl

pub not_chosen :
    {A : Type 0} (r : ReceivedRecord) (k j : List ℕ) (new old : A)
    → ¬ ((k ≡ r.proxy1.tap_mac) × (j ≡ r.proxy2.tap_mac))
    → (if is_key r k j then new else old) ≡ old
not_chosen r k j new old ne = elim (Bool-cases (is_key r k j)) [
  | inl e ↦ absurd (ne ((is_key_iff r k j).0 e))
  | inr e ↦ rw e refl
]

module _ (h : UtHash) (s : N h) (r : ReceivedRecord) (now : Time) where
  -- What the record, of the time `now`, does to the map.
  pub record Updated (t : N h) : Type 0 where
    pub graph : IsGraph h t
    pub unlocked : t.proxy ≡ record s.proxy { writing = false }
    pub labels :
        (k j : List ℕ)
        → edge_label h t k j
          ≡ (if is_key r k j then some (now, of_net r.link_weight) else edge_label h s k j)

module _ (h : UtHash) (u : N h) (k j : List ℕ) where
  pub at_absent : h.find u.network k ≡ none → edge_at h u k j ≡ none
  unfolding edge_at
  at_absent e = rw e refl

  pub at_found :
      (w : ℕ) → h.find u.network k ≡ some w → edge_at h u k j ≡ edge_of h (u.vertices w) j
  unfolding edge_at
  at_found w e = rw e refl
