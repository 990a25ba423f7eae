-- ===== src/Memory/Ring.antt =====
-- A block read and written round its end: `window` and `put_ring` take an unreduced position.
use native.Mathlib.Nat.{mod-add-mod, mod-eq_of_lt, mod-eq-sub-mod, mod-lt}
use native.Mathlib.Decide.{dec_lt}
use lr.Base.{
  ℕ, zero, suc, ◌+◌, ◌-◌, ◌%◌, ◌≤◌, ◌<◌, ◌≡◌, ◌≢◌, refl, sym, ap, ap₂, ◌∙◌, List, [], ◌∷◌, ◌++◌,
  append-nil, append_assoc, arith, length, get_or, set, length-set, get_or-set_self, get_or-set_ne,
}
use lr.Memory.{slice, overwrite}

-- The `n` bytes from position `p` on, going round at `size`.
unfoldable pub window : List ℕ → ℕ → ℕ → ℕ → List ℕ
window mem size p zero = []
window mem size p (suc n) = get_or mem (p % size) 0 ∷ window mem size (p + 1) n

unfoldable pub put_ring : List ℕ → ℕ → ℕ → List ℕ → List ℕ
put_ring mem size p [] = mem
put_ring mem size p (x ∷ d) = put_ring (set mem (p % size) x) size (p + 1) d

pub length-window : (mem : List ℕ) (size p n : ℕ) → length (window mem size p n) ≡ n
unfolding window
length-window mem size p zero = refl
length-window mem size p (suc n) = ap suc (length-window mem size (p + 1) n)

pub length-put_ring :
    (mem : List ℕ) (size p : ℕ) (d : List ℕ) → length (put_ring mem size p d) ≡ length mem
unfolding put_ring
length-put_ring mem size p [] = refl
length-put_ring mem size p (x ∷ d) =
    omega
      (arith, length-put_ring (set mem (p % size) x) size (p + 1) d, length-set mem (p % size) x)

-- A straight read or write inside the ring is a ring read or write.
pub slice-window :
    (mem : List ℕ) (size i n : ℕ) → i + n ≤ size → slice mem i n ≡ window mem size i n
unfolding slice window
slice-window mem size i zero h = refl
slice-window mem size i (suc n) h =
    let e : i % size ≡ i = mod-eq_of_lt (omega arith) in
    ap₂ ◌∷◌ (ap (λ k. get_or mem k 0) (sym e)) (slice-window mem size (i + 1) n (omega arith))

pub overwrite-put_ring :
    (mem : List ℕ) (size i : ℕ) (d : List ℕ)
    → i + length d ≤ size
    → overwrite mem i d ≡ put_ring mem size i d
unfolding overwrite put_ring
overwrite-put_ring mem size i [] h = refl
overwrite-put_ring mem size i (x ∷ d) h =
    let e : i % size ≡ i = mod-eq_of_lt (omega arith) in
    rw e (overwrite-put_ring (set mem i x) size (i + 1) d (omega arith))

pub window-append :
    (mem : List ℕ) (size p a b : ℕ)
    → window mem size p (a + b) ≡ window mem size p a ++ window mem size (p + a) b
unfolding window
window-append mem size p zero b = ap₂ (λ q n. window mem size q n) (omega arith) (omega arith)
window-append mem size p (suc a) b =
    ap (λ n. window mem size p n) {x = suc a + b} {y = suc (a + b)} (omega arith)
    ∙ ap (◌∷◌ (get_or mem (p % size) 0)) (
        window-append mem size (p + 1) a b
        ∙ ap (λ q. window mem size (p + 1) a ++ window mem size q b) (omega arith))

pub put_ring-append :
    (mem : List ℕ) (size p : ℕ) (c d : List ℕ)
    → put_ring mem size p (c ++ d) ≡ put_ring (put_ring mem size p c) size (p + length c) d
unfolding put_ring
put_ring-append mem size p [] d = ap (λ q. put_ring mem size q d) (omega arith)
put_ring-append mem size p (x ∷ c) d =
    put_ring-append (set mem (p % size) x) size (p + 1) c d
    ∙ ap (λ q. put_ring (put_ring (set mem (p % size) x) size (p + 1) c) size q d) (omega arith)

-- Positions that agree modulo the size are one position.
mod-add_left : (size p q k : ℕ) → p % size ≡ q % size → (p + k) % size ≡ (q + k) % size
mod-add_left size p q k e =
    sym (mod-add-mod p size k) ∙ ap (λ r. (r + k) % size) e ∙ mod-add-mod q size k

pub window-mod :
    (mem : List ℕ) (size p q n : ℕ)
    → p % size ≡ q % size
    → window mem size p n ≡ window mem size q n
unfolding window
window-mod mem size p q zero e = refl
window-mod mem size p q (suc n) e =
    ap₂ ◌∷◌ (ap (λ k. get_or mem k 0) e)
      (window-mod mem size (p + 1) (q + 1) n (mod-add_left size p q 1 e))

pub put_ring-mod :
    (mem : List ℕ) (size p q : ℕ) (d : List ℕ)
    → p % size ≡ q % size
    → put_ring mem size p d ≡ put_ring mem size q d
unfolding put_ring
put_ring-mod mem size p q [] e = refl
put_ring-mod mem size p q (x ∷ d) e =
    rw e (put_ring-mod (set mem (q % size) x) size (p + 1) (q + 1) d (mod-add_left size p q 1 e))

-- Fewer than `size` steps round the ring do not come back.
add-mod-ne : (size r k : ℕ) → r < size → 0 < k → k < size → (r + k) % size ≢ r
add-mod-ne size r k hr hk hs = elim (dec_lt (r + k) size) [
  | yes p ↦ omega (arith, mod-eq_of_lt p)
  | no p ↦ omega (
    arith,
    mod-eq-sub-mod {n = r + k} {m = size} (omega arith),
    mod-eq_of_lt {n = r + k - size} {m = size} (omega arith),
  )
]

pub mod-ne : (size p n : ℕ) → 0 < n → n < size → (p + n) % size ≢ p % size
mod-ne size p n h k e =
    add-mod-ne size (p % size) n (mod-lt p (omega arith)) h k (mod-add-mod p size n ∙ e)

-- A byte written just past a window extends it by that byte.
window-set :
    (mem : List ℕ) (size p n x : ℕ)
    → length mem ≡ size
    → n < size
    → window (set mem ((p + n) % size) x) size p (suc n) ≡ window mem size p n ++ (x ∷ [])
unfolding window
window-set mem size p zero x h k =
    let e : p + 0 ≡ p = omega arith in
    rw e
      (ap (λ y. y ∷ []) (get_or-set_self mem (p % size) x 0 (omega (arith, mod-lt p {m = size}))))
window-set mem size p (suc n) x h k =
    ap₂ ◌∷◌
      (get_or-set_ne mem ((p + suc n) % size) (p % size) x 0
        (mod-ne size p (suc n) (omega arith) k))
      (ap (λ q. window (set mem (q % size) x) size (p + 1) (suc n)) (omega arith)
        ∙ window-set mem size (p + 1) n x h (omega arith))

-- Bytes written just past a window extend it, as long as the whole fits the ring.
pub window-put_ring :
    (d mem : List ℕ) (size p n : ℕ)
    → length mem ≡ size
    → n + length d ≤ size
    → window (put_ring mem size (p + n) d) size p (n + length d) ≡ window mem size p n ++ d
unfolding put_ring
window-put_ring [] mem size p n h k =
    ap (λ m. window mem size p m) (omega arith) ∙ sym (append-nil (window mem size p n))
window-put_ring (x ∷ d) mem size p n h k =
    let mem' = set mem ((p + n) % size) x in
    ap₂ (λ q m. window (put_ring mem' size q d) size p m) (omega arith) (omega arith)
    ∙ window-put_ring d mem' size p (suc n) (omega (arith, length-set mem ((p + n) % size) x))
        (omega arith)
    ∙ ap (λ l. l ++ d) (window-set mem size p n x h (omega arith))
    ∙ append_assoc (window mem size p n) (x ∷ []) d
