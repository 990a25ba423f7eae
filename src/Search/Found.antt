-- ===== src/Search/Found.antt =====
-- What sorting keeps to be found.
use Prim.Native.Nat.{Ordering, compare}
use mathlib.Core.Path.{subst}
use lr.Base.{
  ℕ, zero, suc, ◌<◌, arith, length, ◌≡◌, ◌≢◌, refl, sym, ap, ◌∙◌, inl, inr, Option, none, some,
  List, [], ◌∷◌, ◌++◌, ◌==◌, ==→ne, ==_refl, ne→==, Bool-cases, Option-cases,
}
use lr.Search.{qsort, index_of}
use lr.Search.Sorted.{nums, NotIn, Distinct, entry_of, entry_of-qsort}

-- Nothing is not something.
pub none_some : {A B : Type 0} (x : A) → ◌≡◌ {A = Option A} none (some x) → B
none_some x e = absurd (subst (λ o. elim o [ none ↦ Unit {0} | some y ↦ ⊥ ]) e tt)

pub some_inj : {a b : ℕ} → some a ≡ some b → a ≡ b
some_inj {a} {b} e = ap (λ (o : Option ℕ). elim o [ none ↦ a | some m ↦ m ]) e

pub index_of-last : (r : ℕ) (rs : List ℕ) → index_of r (rs ++ r ∷ []) ≢ none
unfolding index_of
index_of-last r [] = λ e. none_some 0 (sym (rw (==_refl r) at e))
index_of-last r (s ∷ rs) = elim (Bool-cases (r == s)) [
  | inl e ↦ λ q. none_some 0 (sym (rw e at q))
  | inr e ↦ elim (Option-cases (index_of r (rs ++ r ∷ []))) [
    | inl n ↦ absurd (index_of-last r rs n)
    | inr (i, n) ↦ λ q. none_some (suc i) (sym (rw (e, n) at q))
  ]
]

-- A number that is not there is not in front of the list, and not behind.
pub index_of-NotIn : (r : ℕ) (rs : List ℕ) → index_of r rs ≡ none → NotIn r rs
unfolding index_of
index_of-NotIn r [] h = tt
index_of-NotIn r (s ∷ rs) h = elim (Bool-cases (r == s)) [
  | inl e ↦ none_some 0 (sym (rw e at h))
  | inr e ↦ elim (Option-cases (index_of r rs)) [
    | inl n ↦ (==→ne r s e, index_of-NotIn r rs n)
    | inr (i, n) ↦ none_some (suc i) (sym (rw (e, n) at h))
  ]
]

pub NotIn-index_of : (r : ℕ) (rs : List ℕ) → NotIn r rs → index_of r rs ≡ none
unfolding index_of
NotIn-index_of r [] h = refl
NotIn-index_of r (s ∷ rs) h = rw (ne→== r s h.0, NotIn-index_of r rs h.1) refl

module _ {A : Type 0} (num : A → ℕ) where
  entry_of-NotIn : (r : ℕ) (xs : List A) → entry_of num r xs ≡ none → NotIn r (nums num xs)
  entry_of-NotIn r [] h = tt
  entry_of-NotIn r (x ∷ xs) h = elim (Bool-cases (r == num x)) [
    | inl e ↦ none_some x (sym (rw e at h))
    | inr e ↦ (==→ne r (num x) e, entry_of-NotIn r xs (rw e at h))
  ]

  NotIn-entry_of : (r : ℕ) (xs : List A) → NotIn r (nums num xs) → entry_of num r xs ≡ none
  NotIn-entry_of r [] h = refl
  NotIn-entry_of r (x ∷ xs) h = rw (ne→== r (num x) h.0) (NotIn-entry_of r xs h.1)

  -- What sorting leaves to be found was there.
  pub index_of-qsort :
      (cmp : A → A → Ordering) (IsKey : A → Type 0)
      → ((x y : A) → IsKey x → IsKey y → cmp x y ≡ compare (num x) (num y))
      → (r : ℕ) (xs : List A) → Distinct (nums num xs)
      → index_of r (nums num (qsort cmp xs)) ≡ none
      → index_of r (nums num xs) ≡ none
  index_of-qsort cmp IsKey agree r xs h e = NotIn-index_of r (nums num xs) (
      entry_of-NotIn r xs (
        sym (entry_of-qsort cmp num IsKey agree r xs h)
        ∙ NotIn-entry_of r (qsort cmp xs) (index_of-NotIn r (nums num (qsort cmp xs)) e)))

  -- What is found is in the table.
  pub index_of-length : (xs : List A) (r j : ℕ) → index_of r (nums num xs) ≡ some j → j < length xs
  unfolding index_of
  index_of-length [] r j e = none_some j e
  index_of-length (x ∷ xs) r zero e = omega arith
  index_of-length (x ∷ xs) r (suc j) e = elim (Bool-cases (r == num x)) [
    | inl s ↦ absurd (omega (arith, some_inj (rw s at e)))
    | inr s ↦ elim (Option-cases (index_of r (nums num xs))) [
      | inl n ↦ none_some (suc j) (rw (s, n) at e)
      | inr (k, n) ↦
          let same : k ≡ j = omega (arith, some_inj (rw (s, n) at e)) in
          omega (arith, same, index_of-length xs r k n)
    ]
  ]
