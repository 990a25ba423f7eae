-- ===== src/Filter/Slots.antt =====
-- Lists of slots of shared/dlt_common.c: what a search finds, what a write and the closing of a gap leave,
-- and ids as `dlt_set_id` leaves them.
use lr.Base.{
  ℕ, zero, suc, ◌+◌, ◌-◌, ◌≤◌, ◌<◌, ◌≡◌, refl, sym, ap, ap₂, ◌∙◌, ◌⊎◌, inl, inr, Bool, true, false,
  Option, some, none, List, [], ◌∷◌, ◌++◌, arith, length, get_or, set, take, drop, take-nil,
  replicate, length-set, Bool-cases, append_assoc, append-nil, ◌==◌,
}
use mathlib.Core.Path.{subst}
use lr.Filter.{id_chars, dlt_set_id, Slot, find_slot, cleared_slot, moved, shift_down}

id_chars-zeros : (n m : ℕ) → id_chars n (replicate m 0) ≡ replicate n 0
id_chars-zeros zero m = refl
id_chars-zeros (suc n) zero = ap (◌∷◌ 0) (id_chars-zeros n zero)
id_chars-zeros (suc n) (suc m) = refl

id_chars_idem : (n : ℕ) (text : List ℕ) → id_chars n (id_chars n text) ≡ id_chars n text
id_chars_idem zero text = refl
id_chars_idem (suc n) [] = ap (◌∷◌ 0) (sym (id_chars-zeros n 0))
id_chars_idem (suc n) (c ∷ text) = elim (Bool-cases (c == 0)) [
  | inl e ↦ rw e refl
  | inr e ↦ rw e (rw e (ap (◌∷◌ c) (id_chars_idem n text)))
]

pub dlt_set_id_idem : (text : List ℕ) → dlt_set_id (dlt_set_id text) ≡ dlt_set_id text
unfolding dlt_set_id
dlt_set_id_idem text = id_chars_idem 4 text

-- The ids are as `dlt_set_id` leaves them.
abbrev pub Normal : Slot → Type 0
Normal s = (dlt_set_id s.apid ≡ s.apid) × (dlt_set_id s.ctid ≡ s.ctid)

abbrev pub AllNormal : List Slot → Type 0
AllNormal [] = Unit {0}
AllNormal (s ∷ ss) = Normal s × AllNormal ss

-- The first index whose slot passes, or none passes.
abbrev pub AllFail : (Slot → Bool) → List Slot → Type 0
AllFail test [] = Unit {0}
AllFail test (s ∷ ss) = (test s ≡ false) × AllFail test ss

abbrev pub Finds : (Slot → Bool) → List Slot → Option ℕ → Type 0
Finds test ss r =
    ((r ≡ none) × AllFail test ss)
    ⊎ ((i : ℕ) × (r ≡ some i)
        × (i < length ss)
        × (test (get_or ss i cleared_slot) ≡ true)
        × AllFail test (take i ss))

pub find_slot-Finds : (test : Slot → Bool) (ss : List Slot) → Finds test ss (find_slot test ss)
unfolding find_slot
find_slot-Finds test [] = inl (refl, tt)
find_slot-Finds test (s ∷ ss) = elim (Bool-cases (test s)) [
  | inl e ↦ inr (0, rw e refl, omega arith, e, tt)
  | inr e ↦ elim (find_slot-Finds test ss) [
    | inl (n, fail) ↦ inl (rw (e, n) refl, (e, fail))
    | inr (i, n, l, t, fail) ↦ inr (suc i, rw (e, n) refl, omega arith, t, (e, fail))
  ]
]

pub take-set_next :
    (ss : List Slot) (k : ℕ) (v : Slot)
    → k < length ss
    → take (suc k) (set ss k v) ≡ take k ss ++ v ∷ []
take-set_next [] k v h = absurd (omega arith)
take-set_next (s ∷ ss) zero v h = refl
take-set_next (s ∷ ss) (suc k) v h = ap (◌∷◌ s) (take-set_next ss k v (omega arith))

pub take-set_before :
    (ss : List Slot) (j k : ℕ) (v : Slot) → j ≤ k → take j (set ss k v) ≡ take j ss
take-set_before ss zero k v h = refl
take-set_before [] (suc j) k v h = refl
take-set_before (s ∷ ss) (suc j) zero v h = absurd (omega arith)
take-set_before (s ∷ ss) (suc j) (suc k) v h = ap (◌∷◌ s) (take-set_before ss j k v (omega arith))

pub drop-set_after : (ss : List Slot) (j k : ℕ) (v : Slot) → k < j → drop j (set ss k v) ≡ drop j ss
drop-set_after ss zero k v h = absurd (omega arith)
drop-set_after [] (suc j) k v h = refl
drop-set_after (s ∷ ss) (suc j) zero v h = refl
drop-set_after (s ∷ ss) (suc j) (suc k) v h = drop-set_after ss j k v (omega arith)

take-drop_next :
    (ss : List Slot) (n k : ℕ)
    → k < length ss
    → take (suc n) (drop k ss) ≡ get_or ss k cleared_slot ∷ take n (drop (suc k) ss)
take-drop_next [] n k h = absurd (omega arith)
take-drop_next (s ∷ ss) n zero h = refl
take-drop_next (s ∷ ss) n (suc k) h = take-drop_next ss n k (omega arith)

pub drop-take : (ss : List Slot) (k n : ℕ) → k ≤ n → drop k (take n ss) ≡ take (n - k) (drop k ss)
drop-take ss zero n h = ap (λ m. take m ss) (omega arith)
drop-take ss (suc k) zero h = absurd (omega arith)
drop-take [] (suc k) (suc n) h = sym (take-nil (suc n - suc k))
drop-take (s ∷ ss) (suc k) (suc n) h =
    drop-take ss k n (omega arith) ∙ ap (λ m. take m (drop k ss)) (omega arith)

pub take-take : (ss : List Slot) (k n : ℕ) → k ≤ n → take k (take n ss) ≡ take k ss
take-take ss zero n h = refl
take-take ss (suc k) zero h = absurd (omega arith)
take-take [] (suc k) (suc n) h = refl
take-take (s ∷ ss) (suc k) (suc n) h = ap (◌∷◌ s) (take-take ss k n (omega arith))

pub AllNormal-append : (xs ys : List Slot) → AllNormal xs → AllNormal ys → AllNormal (xs ++ ys)
AllNormal-append [] ys h k = k
AllNormal-append (x ∷ xs) ys h k = (h.0, AllNormal-append xs ys h.1 k)

pub AllNormal-take : (n : ℕ) (xs : List Slot) → AllNormal xs → AllNormal (take n xs)
AllNormal-take zero xs h = tt
AllNormal-take (suc n) [] h = tt
AllNormal-take (suc n) (x ∷ xs) h = (h.0, AllNormal-take n xs h.1)

pub AllNormal-drop : (n : ℕ) (xs : List Slot) → AllNormal xs → AllNormal (drop n xs)
AllNormal-drop zero xs h = h
AllNormal-drop (suc n) [] h = tt
AllNormal-drop (suc n) (x ∷ xs) h = AllNormal-drop n xs h.1

pub length-shift_down : (n k : ℕ) (ss : List Slot) → length (shift_down n k ss) ≡ length ss
unfolding shift_down
length-shift_down zero k ss = refl
length-shift_down (suc n) k ss =
    length-shift_down n (k + 1) (set ss k (moved (get_or ss (k + 1) cleared_slot)))
    ∙ length-set ss k (moved (get_or ss (k + 1) cleared_slot))

moved-Normal : (s : Slot) → Normal s → moved s ≡ s
moved-Normal s (a, c) = ap₂ (λ x y. record s { apid = x; ctid = y }) a c

-- The loop closes the gap at `k`.
pub take-shift_down :
    (n k : ℕ) (ss : List Slot)
    → k + n < length ss
    → AllNormal (take n (drop (suc k) ss))
    → take (k + n) (shift_down n k ss) ≡ take k ss ++ take n (drop (suc k) ss)
unfolding shift_down
take-shift_down zero k ss h v =
    ap (λ m. take m ss) {x = k + 0} {y = k} (omega arith) ∙ sym (append-nil (take k ss))
take-shift_down (suc n) k ss h v =
    ap (λ l. take l (shift_down n (k + 1) ss1)) {x = k + suc n} {y = suc k + n} (omega arith)
    ∙ ap (λ m. take (suc k + n) (shift_down n m ss1)) {x = k + 1} {y = suc k} (omega arith)
    ∙ take-shift_down n (suc k) ss1 (omega (arith, length-set ss k next))
        (subst (λ l. AllNormal (take n l)) (sym after) split.1)
    ∙ ap₂ (λ x y. x ++ take n y) (take-set_next ss k next (omega arith)) after
    ∙ append_assoc (take k ss) (next ∷ []) (take n (drop (suc (suc k)) ss))
    ∙ ap (λ x. take k ss ++ x)
        (ap (λ x. x ∷ take n (drop (suc (suc k)) ss))
            (ap (λ m. moved (get_or ss m cleared_slot)) {x = k + 1} {y = suc k} (omega arith)
              ∙ moved-Normal next_slot split.0)
          ∙ sym (take-drop_next ss n (suc k) (omega arith)))
  where
    next_slot : Slot
    next_slot = get_or ss (suc k) cleared_slot

    next : Slot
    next = moved (get_or ss (k + 1) cleared_slot)

    ss1 : List Slot
    ss1 = set ss k next

    split : AllNormal (next_slot ∷ take n (drop (suc (suc k)) ss))
    split = subst AllNormal (take-drop_next ss n (suc k) (omega arith)) v

    after : drop (suc (suc k)) ss1 ≡ drop (suc (suc k)) ss
    after = drop-set_after ss (suc (suc k)) k next (omega arith)
