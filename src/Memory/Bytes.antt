-- ===== src/Memory/Bytes.antt =====
-- What stands where after a write into a block, and what a copy of a part holds.
use lr.Base.{
  ℕ, zero, suc, ◌+◌, ◌≤◌, ◌<◌, ◌≡◌, refl, ap, ap₂, ◌∙◌, List, [], ◌∷◌, ◌++◌, arith, length, get_or,
  set, drop, length-set, get_or-set_self, get_or-set_ne,
}
use lr.Memory.{slice, overwrite}

pub get_or-overwrite_before :
    (d mem : List ℕ) (i j : ℕ) → j < i → get_or (overwrite mem i d) j 0 ≡ get_or mem j 0
unfolding overwrite
get_or-overwrite_before [] mem i j h = refl
get_or-overwrite_before (x ∷ d) mem i j h =
    get_or-overwrite_before d (set mem i x) (i + 1) j (omega arith)
    ∙ get_or-set_ne mem i j x 0 (λ e. absurd (omega arith))

pub get_or-overwrite_in :
    (d mem : List ℕ) (i k : ℕ)
    → k < length d
    → i + length d ≤ length mem
    → get_or (overwrite mem i d) (i + k) 0 ≡ get_or d k 0
unfolding overwrite
get_or-overwrite_in [] mem i k h l = absurd (omega arith)
get_or-overwrite_in (x ∷ d) mem i zero h l =
    ap (λ j. get_or (overwrite (set mem i x) (i + 1) d) j 0) (omega arith)
    ∙ get_or-overwrite_before d (set mem i x) (i + 1) i (omega arith)
    ∙ get_or-set_self mem i x 0 (omega arith)
get_or-overwrite_in (x ∷ d) mem i (suc k) h l =
    ap (λ j. get_or (overwrite (set mem i x) (i + 1) d) j 0) (omega arith)
    ∙ get_or-overwrite_in d (set mem i x) (i + 1) k (omega arith)
        (omega (arith, length-set mem i x))

pub get_or-slice :
    (mem : List ℕ) (i n k : ℕ) → k < n → get_or (slice mem i n) k 0 ≡ get_or mem (i + k) 0
unfolding slice
get_or-slice mem i zero k h = absurd (omega arith)
get_or-slice mem i (suc n) zero h = ap (λ j. get_or mem j 0) (omega arith)
get_or-slice mem i (suc n) (suc k) h =
    get_or-slice mem (i + 1) n k (omega arith) ∙ ap (λ j. get_or mem j 0) (omega arith)

-- Slices agree where the bytes do.
pub slice_ext :
    (a b : List ℕ) (i j n : ℕ)
    → ((k : ℕ) → k < n → get_or a (i + k) 0 ≡ get_or b (j + k) 0)
    → slice a i n ≡ slice b j n
unfolding slice
slice_ext a b i j zero h = refl
slice_ext a b i j (suc n) h =
    ap₂ ◌∷◌
      (ap (λ k. get_or a k 0) (omega arith)
        ∙ h 0 (omega arith)
        ∙ ap (λ k. get_or b k 0) (omega arith))
      (slice_ext a b (i + 1) (j + 1) n (λ k l.
        ap (λ m. get_or a m 0) (omega arith)
        ∙ h (suc k) (omega arith)
        ∙ ap (λ m. get_or b m 0) (omega arith)))

-- A part of what was written.
pub slice-overwrite :
    (d mem : List ℕ) (i k n : ℕ)
    → k + n ≤ length d
    → i + length d ≤ length mem
    → slice (overwrite mem i d) (i + k) n ≡ slice d k n
slice-overwrite d mem i k n h l = slice_ext (overwrite mem i d) d (i + k) k n (λ m b.
    ap (λ j. get_or (overwrite mem i d) j 0) (omega arith)
    ∙ get_or-overwrite_in d mem i (k + m) (omega arith) l)

-- A part of a copy.
pub slice-slice :
    (mem : List ℕ) (i n k m : ℕ) → k + m ≤ n → slice (slice mem i n) k m ≡ slice mem (i + k) m
slice-slice mem i n k m h =
    slice_ext (slice mem i n) mem k (i + k) m
      (λ j b. get_or-slice mem i n (k + j) (omega arith) ∙ ap (λ q. get_or mem q 0) (omega arith))

-- Every entry is a byte.
abbrev pub AllBytes : List ℕ → Type 0
AllBytes [] = Unit {0}
AllBytes (x ∷ xs) = (x < 256) × AllBytes xs

pub AllBytes-get_or : (xs : List ℕ) (i : ℕ) → AllBytes xs → get_or xs i 0 < 256
AllBytes-get_or [] i h = omega arith
AllBytes-get_or (x ∷ xs) zero h = h.0
AllBytes-get_or (x ∷ xs) (suc i) h = AllBytes-get_or xs i h.1

pub AllBytes-drop : (n : ℕ) (xs : List ℕ) → AllBytes xs → AllBytes (drop n xs)
AllBytes-drop zero xs h = h
AllBytes-drop (suc n) [] h = tt
AllBytes-drop (suc n) (x ∷ xs) h = AllBytes-drop n xs h.1

pub slice-append :
    (mem : List ℕ) (i m n : ℕ) → slice mem i (m + n) ≡ slice mem i m ++ slice mem (i + m) n
unfolding slice
slice-append mem i zero n = ap₂ (λ j k. slice mem j k) (omega arith) (omega arith)
slice-append mem i (suc m) n =
    ap (slice mem i) {x = suc m + n} {y = suc (m + n)} (omega arith)
    ∙ ap (◌∷◌ (get_or mem i 0)) (
        slice-append mem (i + 1) m n ∙ ap (λ j. slice mem (i + 1) m ++ slice mem j n) (omega arith))

-- A write further on leaves a slice alone.
pub slice-overwrite_before :
    (d mem : List ℕ) (i j n : ℕ) → j + n ≤ i → slice (overwrite mem i d) j n ≡ slice mem j n
slice-overwrite_before d mem i j n h =
    slice_ext (overwrite mem i d) mem j j n
      (λ k l. get_or-overwrite_before d mem i (j + k) (omega arith))
