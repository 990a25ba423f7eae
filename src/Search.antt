-- ===== src/Search.antt =====
-- qsort and bsearch as the daemon uses them, over tables in the order of a number for each entry.
pub mod Order
pub mod Sorted
pub mod Binary
pub mod Found
use Prim.Native.Nat.{Ordering}
use lr.Base.{
  ℕ, zero, suc, ◌+◌, ◌/◌, Bool, true, false, Option, none, some, List, [], ◌∷◌, length, get_elem?,
  ltb, ◌==◌, if◌then◌else◌, ◌>>=◌,
}

module _ {A : Type 0} (cmp : A → A → Ordering) where
  unfoldable pub insert_sorted : A → List A → List A
  insert_sorted x [] = x ∷ []
  insert_sorted x (y ∷ ys) =
      let rest : List A = y ∷ insert_sorted x ys in
      elim (cmp x y) [ Ordering.lt ↦ x ∷ (y ∷ ys) | _ ↦ rest ]

  -- qsort. Where no two entries compare as equal, every sort has this result.
  unfoldable pub qsort : List A → List A
  qsort [] = []
  qsort (x ∷ xs) = insert_sorted x (qsort xs)

  -- The loop of bsearch on the entries from `low` on and below `high`.
  unfoldable pub bsearch_from : ℕ → A → List A → ℕ → ℕ → Option ℕ
  bsearch_from zero key xs low high = none
  bsearch_from (suc fuel) key xs low high = elim (ltb low high) [
    | false ↦ none
    | true ↦ elim (get_elem? xs ((low + high) / 2)) [
      | none ↦ none
      | some x ↦ elim (cmp key x) [
        | Ordering.lt ↦ bsearch_from fuel key xs low ((low + high) / 2)
        | Ordering.eq ↦ some ((low + high) / 2)
        | Ordering.gt ↦ bsearch_from fuel key xs ((low + high) / 2 + 1) high
      ]
    ]
  ]

  -- bsearch: the index of an entry that compares as equal.
  unfoldable pub bsearch : A → List A → Option ℕ
  bsearch key xs = bsearch_from (suc (length xs)) key xs 0 (length xs)

-- The first index of a number.
unfoldable pub index_of : ℕ → List ℕ → Option ℕ
index_of r [] = none
index_of r (s ∷ rs) =
    let rest : Option ℕ = index_of r rs >>= λ i. some (suc i) in if r == s then some 0 else rest
