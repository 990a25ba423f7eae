-- ===== src/Search/Sorted.antt =====
-- Ascending tables, and that sorting a table with distinct entries makes one of the same entries.
use Prim.Native.Nat.{Ordering, compare}
use lr.Base.{
  ℕ, suc, ◌<◌, ◌≡◌, ◌≢◌, refl, sym, ap, ◌∙◌, ◌⊎◌, inl, inr, Option, none, some, List, [], ◌∷◌, ◌++◌,
  arith, length, ◌==◌, ==_iff, ne→==, if◌then◌else◌, Bool-cases,
}
use lr.Search.Order.{Ordering-cases}
use lr.Search.{insert_sorted, qsort}

-- The numbers ascend, with no two alike.
abbrev pub AllAbove : ℕ → List ℕ → Type 0
AllAbove r [] = Unit {0}
AllAbove r (s ∷ rs) = (r < s) × AllAbove r rs

abbrev pub Ascending : List ℕ → Type 0
Ascending [] = Unit {0}
Ascending (r ∷ rs) = AllAbove r rs × Ascending rs

abbrev pub NotIn : ℕ → List ℕ → Type 0
NotIn r [] = Unit {0}
NotIn r (s ∷ rs) = (r ≢ s) × NotIn r rs

abbrev pub Distinct : List ℕ → Type 0
Distinct [] = Unit {0}
Distinct (r ∷ rs) = NotIn r rs × Distinct rs

pub AllAbove-NotIn : (r : ℕ) (rs : List ℕ) → AllAbove r rs → NotIn r rs
AllAbove-NotIn r [] h = tt
AllAbove-NotIn r (s ∷ rs) h = ((λ e. omega (arith, e, h.0)), AllAbove-NotIn r rs h.1)

pub Ascending-Distinct : (rs : List ℕ) → Ascending rs → Distinct rs
Ascending-Distinct [] h = tt
Ascending-Distinct (r ∷ rs) h = (AllAbove-NotIn r rs h.0, Ascending-Distinct rs h.1)

pub AllAbove-trans : (q r : ℕ) (rs : List ℕ) → q < r → AllAbove r rs → AllAbove q rs
AllAbove-trans q r [] h k = tt
AllAbove-trans q r (s ∷ rs) h k = (omega arith, AllAbove-trans q r rs h k.1)

pub NotIn-append : (r s : ℕ) (rs : List ℕ) → NotIn r rs → r ≢ s → NotIn r (rs ++ s ∷ [])
NotIn-append r s [] h k = (k, tt)
NotIn-append r s (t ∷ rs) h k = (h.0, NotIn-append r s rs h.1 k)

pub Distinct-append : (rs : List ℕ) (s : ℕ) → Distinct rs → NotIn s rs → Distinct (rs ++ s ∷ [])
Distinct-append [] s h k = (tt, tt)
Distinct-append (r ∷ rs) s h k =
    (NotIn-append r s rs h.0 (λ e. k.0 (sym e)), Distinct-append rs s h.1 k.1)

abbrev pub Every : {A : Type 0} → (A → Type 0) → List A → Type 0
Every P [] = Unit {0}
Every P (x ∷ xs) = P x × Every P xs

pub Every-append :
    {A : Type 0} (P : A → Type 0) (xs ys : List A) → Every P xs → Every P ys → Every P (xs ++ ys)
Every-append P [] ys h k = k
Every-append P (x ∷ xs) ys h k = (h.0, Every-append P xs ys h.1 k)

-- The numbers of the entries.
abbrev pub nums : {A : Type 0} → (A → ℕ) → List A → List ℕ
nums num [] = []
nums num (x ∷ xs) = num x ∷ nums num xs

pub nums-append :
    {A : Type 0} (num : A → ℕ) (xs ys : List A) → nums num (xs ++ ys) ≡ nums num xs ++ nums num ys
nums-append num [] ys = refl
nums-append num (x ∷ xs) ys = ap (◌∷◌ (num x)) (nums-append num xs ys)

pub length-nums : {A : Type 0} (num : A → ℕ) (xs : List A) → length (nums num xs) ≡ length xs
length-nums num [] = refl
length-nums num (x ∷ xs) = ap suc (length-nums num xs)

-- The entry with a number.
abbrev pub entry_of : {A : Type 0} → (A → ℕ) → ℕ → List A → Option A
entry_of num r [] = none
entry_of num r (x ∷ xs) = if r == num x then some x else entry_of num r xs

-- Sorting by a comparison that goes by the numbers, on entries that are keys.
module _ {A : Type 0} (cmp : A → A → Ordering) (num : A → ℕ) (IsKey : A → Type 0)
    (agree : (x y : A) → IsKey x → IsKey y → cmp x y ≡ compare (num x) (num y)) where
  -- Where an insertion goes.
  insert-cases :
      (x y : A) (ys : List A)
      → ((cmp x y ≡ Ordering.lt) × (insert_sorted cmp x (y ∷ ys) ≡ x ∷ (y ∷ ys)))
        ⊎ (((cmp x y ≡ Ordering.eq) ⊎ (cmp x y ≡ Ordering.gt))
            × (insert_sorted cmp x (y ∷ ys) ≡ y ∷ insert_sorted cmp x ys))
  unfolding insert_sorted
  insert-cases x y ys = elim (Ordering-cases (cmp x y)) [
    | inl e ↦ inl (e, rw (e, insert_sorted) refl)
    | inr (inl e) ↦ inr (inl e, rw (e, insert_sorted) refl)
    | inr (inr e) ↦ inr (inr e, rw (e, insert_sorted) refl)
  ]

  insert-nil : (x : A) → insert_sorted cmp x [] ≡ x ∷ []
  unfolding insert_sorted
  insert-nil x = refl

  length-insert : (x : A) (ys : List A) → length (insert_sorted cmp x ys) ≡ suc (length ys)
  length-insert x [] = rw (insert-nil x) refl
  length-insert x (y ∷ ys) = elim (insert-cases x y ys) [
    | inl (c, e) ↦ rw e refl
    | inr (c, e) ↦ rw e (ap suc (length-insert x ys))
  ]

  pub length-qsort : (xs : List A) → length (qsort cmp xs) ≡ length xs
  unfolding qsort
  length-qsort [] = refl
  length-qsort (x ∷ xs) = length-insert x (qsort cmp xs) ∙ ap suc (length-qsort xs)

  Every-insert :
      (P : A → Type 0) (x : A) (ys : List A) → P x → Every P ys → Every P (insert_sorted cmp x ys)
  Every-insert P x [] h k = rw (insert-nil x) (h, tt)
  Every-insert P x (y ∷ ys) h k = elim (insert-cases x y ys) [
    | inl (c, e) ↦ rw e (h, k)
    | inr (c, e) ↦ rw e (k.0, Every-insert P x ys h k.1)
  ]

  pub Every-qsort : (P : A → Type 0) (xs : List A) → Every P xs → Every P (qsort cmp xs)
  unfolding qsort
  Every-qsort P [] h = tt
  Every-qsort P (x ∷ xs) h = Every-insert P x (qsort cmp xs) h.0 (Every-qsort P xs h.1)

  NotIn-insert :
      (r : ℕ) (x : A) (ys : List A)
      → r ≢ num x
      → NotIn r (nums num ys)
      → NotIn r (nums num (insert_sorted cmp x ys))
  NotIn-insert r x [] h k = rw (insert-nil x) (h, tt)
  NotIn-insert r x (y ∷ ys) h k = elim (insert-cases x y ys) [
    | inl (c, e) ↦ rw e (h, k)
    | inr (c, e) ↦ rw e (k.0, NotIn-insert r x ys h k.1)
  ]

  NotIn-qsort : (r : ℕ) (xs : List A) → NotIn r (nums num xs) → NotIn r (nums num (qsort cmp xs))
  unfolding qsort
  NotIn-qsort r [] h = tt
  NotIn-qsort r (x ∷ xs) h = NotIn-insert r x (qsort cmp xs) h.0 (NotIn-qsort r xs h.1)

  AllAbove-insert :
      (r : ℕ) (x : A) (ys : List A)
      → r < num x
      → AllAbove r (nums num ys)
      → AllAbove r (nums num (insert_sorted cmp x ys))
  AllAbove-insert r x [] h k = rw (insert-nil x) (h, tt)
  AllAbove-insert r x (y ∷ ys) h k = elim (insert-cases x y ys) [
    | inl (c, e) ↦ rw e (h, k)
    | inr (c, e) ↦ rw e (k.0, AllAbove-insert r x ys h k.1)
  ]

  Ascending-insert :
      (x : A) (ys : List A)
      → IsKey x
      → Every IsKey ys
      → NotIn (num x) (nums num ys)
      → Ascending (nums num ys)
      → Ascending (nums num (insert_sorted cmp x ys))
  Ascending-insert x [] kx g h k = rw (insert-nil x) (tt, tt)
  Ascending-insert x (y ∷ ys) kx g h k = elim (insert-cases x y ys) [
    | inl (c, e) ↦
        let l : num x < num y = ground (arith, agree x y kx g.0) in
        rw e ((l, AllAbove-trans (num x) (num y) (nums num ys) l k.0), k)
    | inr (inl c, e) ↦ absurd (h.0 (ground (arith, agree x y kx g.0)))
    | inr (inr c, e) ↦ rw e (
      AllAbove-insert (num y) x ys (ground (arith, agree x y kx g.0)) k.0,
      Ascending-insert x ys kx g.1 h.1 k.1,
    )
  ]

  -- Sorting keys with distinct numbers makes them ascend.
  pub Ascending-qsort :
      (xs : List A) → Every IsKey xs → Distinct (nums num xs) → Ascending (nums num (qsort cmp xs))
  unfolding qsort
  Ascending-qsort [] g h = tt
  Ascending-qsort (x ∷ xs) g h =
      Ascending-insert x (qsort cmp xs) g.0 (Every-qsort IsKey xs g.1) (NotIn-qsort (num x) xs h.0)
        (Ascending-qsort xs g.1 h.1)

  entry_of-insert :
      (r : ℕ) (x : A) (ys : List A)
      → NotIn (num x) (nums num ys)
      → entry_of num r (insert_sorted cmp x ys) ≡ entry_of num r (x ∷ ys)
  entry_of-insert r x [] h = rw (insert-nil x) refl
  entry_of-insert r x (y ∷ ys) h = elim (insert-cases x y ys) [
    | inl (c, e) ↦ rw e refl
    | inr (c, e) ↦ rw e (swap r x y ys h (entry_of-insert r x ys h.1))
  ]
    where
      swap :
          (r : ℕ) (x y : A) (ys : List A)
          → NotIn (num x) (nums num (y ∷ ys))
          → entry_of num r (insert_sorted cmp x ys) ≡ entry_of num r (x ∷ ys)
          → entry_of num r (y ∷ insert_sorted cmp x ys) ≡ entry_of num r (x ∷ (y ∷ ys))
      swap r x y ys h ih = elim (Bool-cases (r == num y)) [
        | inl e ↦ rw e (rw (ne→== r (num x) (λ q. h.0 (sym q ∙ (==_iff r (num y)).0 e))) refl)
        | inr e ↦ rw e ih
      ]

  -- Sorting keeps the entry with each number.
  pub entry_of-qsort :
      (r : ℕ) (xs : List A)
      → Distinct (nums num xs)
      → entry_of num r (qsort cmp xs) ≡ entry_of num r xs
  unfolding qsort
  entry_of-qsort r [] h = refl
  entry_of-qsort r (x ∷ xs) h =
      entry_of-insert r x (qsort cmp xs) (NotIn-qsort (num x) xs h.0)
      ∙ ap (λ o. if r == num x then some x else o) (entry_of-qsort r xs h.1)
