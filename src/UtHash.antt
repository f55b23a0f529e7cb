-- ===== src/UtHash.antt =====
-- The part of uthash.h that the proxy uses, as an interface: a table of pointers under byte keys.
-- The laws are the library's documented behaviour. `add` does not look for the key, iteration is
-- in the order of insertion and may delete the element that it stands at, and `find` gives some
-- element with the key, if there is one.
pub mod Lists
use proxy_part.Prelude.{
  ℕ, ◌≡◌, ◌⊎◌, ◌++◌, List, [], ◌∷◌, Option, none, some, ◌==◌, if◌then◌else◌, Bool, false, ◌||◌,
}

-- A key, and the pointer to the structure that holds it.
abbrev pub Item : Type 0
Item = List ℕ × ℕ

-- The items without those of pointer `p`.
unfoldable pub remove : ℕ → List Item → List Item
remove p [] = []
remove p ((k, q) ∷ items) = let rest = remove p items in if p == q then rest else (k, q) ∷ rest

-- The pointer is in the table.
unfoldable pub listed : ℕ → List Item → Bool
listed p [] = false
listed p ((k, q) ∷ items) = p == q || listed p items

-- There is an item with the key and the pointer.
abbrev pub Has : List ℕ → ℕ → List Item → Type 0
Has k p [] = ⊥
Has k p ((j, q) ∷ items) = ((k ≡ j) × (p ≡ q)) ⊎ Has k p items

-- There is none with the key.
abbrev pub Lacks : List ℕ → List Item → Type 0
Lacks k [] = Unit
Lacks k ((j, q) ∷ items) = ¬ (k ≡ j) × Lacks k items

-- HASH_FIND, HASH_ADD, HASH_DEL, and the order of HASH_ITER and of the `hh.next` pointers.
pub record UtHash : Type 1 where
  pub Table : Type 0
  pub empty : Table
  pub items : Table → List Item
  pub find : Table → List ℕ → Option ℕ
  pub add : Table → List ℕ → ℕ → Table
  pub del : Table → ℕ → Table
  pub items-empty : items empty ≡ []
  pub items-add : (t : Table) (k : List ℕ) (p : ℕ) → items (add t k p) ≡ items t ++ (k, p) ∷ []
  pub items-del : (t : Table) (p : ℕ) → items (del t p) ≡ remove p (items t)
  pub find_some : (t : Table) (k : List ℕ) (p : ℕ) → find t k ≡ some p → Has k p (items t)
  pub find_none : (t : Table) (k : List ℕ) → find t k ≡ none → Lacks k (items t)
