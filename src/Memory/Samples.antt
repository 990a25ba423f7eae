-- ===== src/Memory/Samples.antt =====
-- An instance of the interface of malloc, for tests.
use lr.Base.{ℕ, ◌≡◌, sym, ap, ◌∙◌, some, List, length, replicate, length-replicate}
use mathlib.Core.Option.{some-injective}
use lr.Memory.{Allocator}

-- Memory that is always given, and zero.
pub length-zeros : (n : ℕ) (m : List ℕ) → some (replicate n 0) ≡ some m → length m ≡ n
length-zeros n m e =
    ap length (sym (some-injective (replicate n 0) m e)) ∙ length-replicate n (let z : ℕ = 0 in z)

abbrev pub zeros : Allocator
zeros = record { malloc = λ n. some (replicate n 0); length-malloc = length-zeros }
