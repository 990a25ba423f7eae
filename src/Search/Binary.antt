-- ===== src/Search/Binary.antt =====
-- bsearch on an ascending table gives the index of the entry with the number of the key.
use Prim.Native.Nat.{Ordering, compare}
use lr.Base.{
  ℕ, zero, suc, ◌+◌, ◌/◌, ◌≤◌, ◌<◌, ◌≡◌, ◌≢◌, refl, sym, ap, ◌∙◌, inl, inr, none, some, List, [],
  ◌∷◌, arith, length, get_or, get_elem?, ne→==, ltb, ltb→lt, ltb→ge, Bool-cases, ==_refl,
}
use lr.Search.{bsearch_from, bsearch, index_of}
use lr.Search.Order.{Ordering-cases}
use lr.Search.Sorted.{AllAbove, Ascending, Every, nums, length-nums}

above_at : (r : ℕ) (rs : List ℕ) (i : ℕ) → AllAbove r rs → i < length rs → r < get_or rs i 0
above_at r [] i h k = absurd (omega arith)
above_at r (s ∷ rs) zero h k = h.0
above_at r (s ∷ rs) (suc i) h k = above_at r rs i h.1 (omega arith)

-- Later numbers are greater.
pub Ascending-lt :
    (rs : List ℕ) (i j : ℕ) → Ascending rs → i < j → j < length rs → get_or rs i 0 < get_or rs j 0
Ascending-lt [] i j h l k = absurd (omega arith)
Ascending-lt (r ∷ rs) i zero h l k = absurd (omega arith)
Ascending-lt (r ∷ rs) zero (suc j) h l k = above_at r rs j h.0 (omega arith)
Ascending-lt (r ∷ rs) (suc i) (suc j) h l k = Ascending-lt rs i j h.1 (omega arith) (omega arith)

pub Ascending-le :
    (rs : List ℕ) (i j : ℕ) → Ascending rs → i ≤ j → j < length rs → get_or rs i 0 ≤ get_or rs j 0
Ascending-le rs i j h l k = elim (Bool-cases (ltb i j)) [
  | inl e ↦ omega (arith, Ascending-lt rs i j h (ltb→lt i j e) k)
  | inr e ↦
      let same : i ≡ j = omega (arith, ltb→ge i j e) in omega (arith, ap (λ m. get_or rs m 0) same)
]

pub index_of-none :
    (r : ℕ) (rs : List ℕ) → ((i : ℕ) → i < length rs → get_or rs i 0 ≢ r) → index_of r rs ≡ none
unfolding index_of
index_of-none r [] h = refl
index_of-none r (s ∷ rs) h =
    rw
      (
        ne→== r s (λ e. h 0 (omega arith) (sym e)),
        index_of-none r rs (λ i l. h (suc i) (omega arith)),
      )
      refl

index_of-some :
    (rs : List ℕ) (m : ℕ) → Ascending rs → m < length rs → index_of (get_or rs m 0) rs ≡ some m
unfolding index_of
index_of-some [] m h l = absurd (omega arith)
index_of-some (s ∷ rs) zero h l = rw (==_refl s) refl
index_of-some (s ∷ rs) (suc m) h l =
    let above : s < get_or rs m 0 = above_at s rs m h.0 (omega arith) in
    rw (ne→== (get_or rs m 0) s (λ e. omega (arith, e)), index_of-some rs m h.1 (omega arith)) refl

module _ {A : Type 0} (cmp : A → A → Ordering) (num : A → ℕ) (IsKey : A → Type 0)
    (agree : (x y : A) → IsKey x → IsKey y → cmp x y ≡ compare (num x) (num y)) where
  pub at_index :
      (xs : List A) (i : ℕ)
      → Every IsKey xs
      → i < length xs
      → (x : A) × (get_elem? xs i ≡ some x) × IsKey x × (num x ≡ get_or (nums num xs) i 0)
  at_index [] i h l = absurd (omega arith)
  at_index (x ∷ xs) zero h l = (x, refl, h.0, refl)
  at_index (x ∷ xs) (suc i) h l = at_index xs i h.1 (omega arith)

  bsearch_from-index_of :
      (fuel : ℕ) (key : A) (xs : List A) (low high : ℕ)
      → Every IsKey xs
      → IsKey key
      → Ascending (nums num xs)
      → high ≤ length xs
      → high < low + fuel
      → ((i : ℕ) → i < low → get_or (nums num xs) i 0 ≢ num key)
      → ((i : ℕ) → high ≤ i → i < length xs → get_or (nums num xs) i 0 ≢ num key)
      → bsearch_from cmp fuel key xs low high ≡ index_of (num key) (nums num xs)
  unfolding bsearch_from
  bsearch_from-index_of zero key xs low high g k asc top enough below above = sym (
      index_of-none (num key) (nums num xs) (λ i l. elim (Bool-cases (ltb i low)) [
        | inl e ↦ below i (ltb→lt i low e)
        | inr e ↦ above i (omega (arith, ltb→ge i low e)) (omega (arith, length-nums num xs))
      ]))
  bsearch_from-index_of (suc fuel) key xs low high g k asc top enough below above =
      elim (Bool-cases (ltb low high)) [
        | inr done ↦
            rw (done, bsearch_from)
              (sym (
                index_of-none (num key) (nums num xs) (λ i l. elim (Bool-cases (ltb i low)) [
                  | inl e ↦ below i (ltb→lt i low e)
                  | inr e ↦
                      above i (omega (arith, ltb→ge i low e, ltb→ge low high done))
                        (omega (arith, length-nums num xs))
                ])))
        | inl more ↦
            let l : low < high = ltb→lt low high more in
            let (x, e, kx, n) = at_index xs ((low + high) / 2) g (omega arith) in
            elim (Ordering-cases (cmp key x)) [
              | inl c ↦
                  let smaller : num key < num x = ground (arith, agree key x k kx) in
                  rw (more, bsearch_from)
                    (rw e (
                      rw c (
                        bsearch_from-index_of fuel key xs low ((low + high) / 2) g k asc
                          (omega arith) (omega arith) below
                          (λ i h t q. omega (
                            arith,
                            q,
                            n,
                            smaller,
                            Ascending-le (nums num xs) ((low + high) / 2) i asc h
                                (omega (arith, length-nums num xs)),
                          )))))
              | inr (inl c) ↦
                  let same : num key ≡ num x = ground (arith, agree key x k kx) in
                  rw (more, bsearch_from)
                    (rw e (
                      rw c (
                        sym (
                          ap (λ r. index_of r (nums num xs)) (same ∙ n)
                          ∙ index_of-some (nums num xs) ((low + high) / 2) asc
                              (omega (arith, length-nums num xs))))))
              | inr (inr c) ↦
                  let greater : num x < num key = ground (arith, agree key x k kx) in
                  rw (more, bsearch_from)
                    (rw e (
                      rw c (
                        bsearch_from-index_of fuel key xs ((low + high) / 2 + 1) high g k asc top
                          (omega arith)
                          (λ i h q. omega (
                            arith,
                            q,
                            n,
                            greater,
                            Ascending-le (nums num xs) i ((low + high) / 2) asc (omega arith)
                                (omega (arith, length-nums num xs)),
                          ))
                          above)))
            ]
      ]

  -- On an ascending table of keys, bsearch gives what a search from the front gives.
  pub bsearch-index_of :
      (key : A) (xs : List A)
      → Every IsKey xs
      → IsKey key
      → Ascending (nums num xs)
      → bsearch cmp key xs ≡ index_of (num key) (nums num xs)
  unfolding bsearch
  bsearch-index_of key xs g k asc =
      bsearch_from-index_of (suc (length xs)) key xs 0 (length xs) g k asc (omega arith)
        (omega arith) (λ i h. absurd (omega arith)) (λ i h l. absurd (omega arith))
