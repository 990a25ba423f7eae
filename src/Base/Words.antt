-- ===== src/Base/Words.antt =====
-- 32-bit words as numbers below 2 ^ 32. An `int` is its bit pattern: the tests that C makes on signed
-- values go through `flip32`, which carries the signed order to the order of the patterns.
use Prim.Native.Nat.{ℕ, ◌+◌, ◌-◌, ◌*◌, ◌/◌, ◌%◌, ◌^◌, ◌≤◌, ◌<◌}
use mathlib.Core.Path.{◌≡◌}
use mathlib.Core.Bool.{Bool}
use mathlib.Core.List.{List, [], ◌∷◌}
use native.Mathlib.Omega.{arith}
use lr.Base.Tests.{ltb}
use lr.Base.Lists.{get_or}

abbrev pub word : ℕ
word = 2 ^ 32

abbrev pub half_word : ℕ
half_word = 2 ^ 31

abbrev pub add32 : ℕ → ℕ → ℕ
add32 a b = (a + b) % word

abbrev pub sub32 : ℕ → ℕ → ℕ
sub32 a b = (a + word - b) % word

abbrev pub flip32 : ℕ → ℕ
flip32 a = (a + half_word) % word

-- The signed `a < b` on two `int`s given by their patterns.
abbrev pub slt32 : ℕ → ℕ → Bool
slt32 a b = ltb (flip32 a) (flip32 b)

pub add32_small : (a b : ℕ) → a + b < word → add32 a b ≡ a + b
add32_small a b h = omega arith

pub sub32_small : (a b : ℕ) → b ≤ a → a < word → sub32 a b ≡ a - b
sub32_small a b h k = omega arith

-- Patterns of non-negative values compare as they are.
pub slt32_small : (a b : ℕ) → a < half_word → b < half_word → slt32 a b ≡ ltb a b
slt32_small a b h k = ground arith

-- An int in memory, low byte first (a little-endian host).
abbrev pub int_bytes : ℕ → List ℕ
int_bytes n = (n % 256) ∷ (n / 256 % 256) ∷ (n / 65536 % 256) ∷ (n / 16777216 % 256) ∷ []

-- The int at index `i`.
abbrev pub int_of_bytes : List ℕ → ℕ → ℕ
int_of_bytes bs i =
    get_or bs i 0
    + 256 * get_or bs (i + 1) 0
    + 65536 * get_or bs (i + 2) 0
    + 16777216 * get_or bs (i + 3) 0

-- DLT_SWAP_32
pub swap32 : ℕ → ℕ
swap32 n =
    16777216 * (n % 256) + 65536 * (n / 256 % 256) + 256 * (n / 65536 % 256) + n / 16777216 % 256

pub swap32-swap32 : (n : ℕ) → n < word → swap32 (swap32 n) ≡ n
unfolding swap32
swap32-swap32 n h = omega arith
