-- ===== src/UtHash/Lists.antt =====
-- A list of items meets the laws of the interface.
use proxy_part.Prelude.{
  ℕ, ◌≡◌, refl, sym, ◌∙◌, inl, inr, ◌++◌, List, [], ◌∷◌, Option, none, some, if◌then◌else◌,
  Bool-cases, arith, true≢false,
}
use proxy_part.UtHash.{UtHash, Item, Has, Lacks, remove}
use proxy_part.Wire.{same_bytes}
use proxy_part.Wire.Bytes.{same_bytes_iff}

abbrev pub find_first : List Item → List ℕ → Option ℕ
find_first [] k = none
find_first ((j, p) ∷ items) k =
    let rest = find_first items k in if same_bytes k j then some p else rest

pub find_first-Has :
    (items : List Item) (k : List ℕ) (p : ℕ) → find_first items k ≡ some p → Has k p items
find_first-Has [] k p e = cc
find_first-Has ((j, q) ∷ items) k p e = elim (Bool-cases (same_bytes k j)) [
  | inl same ↦ inl ((same_bytes_iff k j).0 same, ground arith)
  | inr other ↦ inr (find_first-Has items k p (rw other at e))
]

pub find_first-Lacks : (items : List Item) (k : List ℕ) → find_first items k ≡ none → Lacks k items
find_first-Lacks [] k e = tt
find_first-Lacks ((j, q) ∷ items) k e = elim (Bool-cases (same_bytes k j)) [
  | inl same ↦ absurd (ground arith)
  | inr other ↦ (
    λ eq. true≢false (sym ((same_bytes_iff k j).1 eq) ∙ other),
    find_first-Lacks items k (rw other at e),
  )
]

abbrev pub list_table : UtHash
list_table = record {
  Table = List Item;
  empty = [];
  items = λ t. t;
  find = find_first;
  add = λ t k p. t ++ (k, p) ∷ [];
  del = λ t p. remove p t;
  items-empty = refl;
  items-add = λ t k p. refl;
  items-del = λ t p. refl;
  find_some = find_first-Has;
  find_none = find_first-Lacks;
}
