-- ===== src/Memory.antt =====
-- Blocks of memory as lists of bytes: memcpy into and out of a block, and malloc as an interface.
-- `none` is an access outside the block, which is undefined in C.
pub mod Ring
pub mod Bytes
pub mod Samples
use lr.Base.{
  ℕ, zero, suc, ◌+◌, ◌≤◌, ◌<◌, ◌≡◌, refl, ap, Option, none, some, List, [], ◌∷◌, ◌++◌, arith, leb,
  if◌then◌else◌, length, get_or, set, length-set, length-replicate, replicate, le→leb,
}

-- The `n` bytes from index `i` on.
unfoldable pub slice : List ℕ → ℕ → ℕ → List ℕ
slice mem i zero = []
slice mem i (suc n) = get_or mem i 0 ∷ slice mem (i + 1) n

-- The bytes `d` written from index `i` on.
unfoldable pub overwrite : List ℕ → ℕ → List ℕ → List ℕ
overwrite mem i [] = mem
overwrite mem i (x ∷ d) = overwrite (set mem i x) (i + 1) d

-- memcpy(dst, mem + i, n)
unfoldable pub load : List ℕ → ℕ → ℕ → Option (List ℕ)
load mem i n = if leb (i + n) (length mem) then some (slice mem i n) else none

-- memcpy(mem + i, d, length d)
unfoldable pub store : List ℕ → ℕ → List ℕ → Option (List ℕ)
store mem i d = if leb (i + length d) (length mem) then some (overwrite mem i d) else none

pub load-in : (mem : List ℕ) (i n : ℕ) → i + n ≤ length mem → load mem i n ≡ some (slice mem i n)
unfolding load
load-in mem i n h = rw (le→leb _ _ h)

pub store-in :
    (mem : List ℕ) (i : ℕ) (d : List ℕ)
    → i + length d ≤ length mem
    → store mem i d ≡ some (overwrite mem i d)
unfolding store
store-in mem i d h = rw (le→leb _ _ h)

pub length-slice : (mem : List ℕ) (i n : ℕ) → length (slice mem i n) ≡ n
unfolding slice
length-slice mem i zero = refl
length-slice mem i (suc n) = ap suc (length-slice mem (i + 1) n)

pub length-overwrite : (mem : List ℕ) (i : ℕ) (d : List ℕ) → length (overwrite mem i d) ≡ length mem
unfolding overwrite
length-overwrite mem i [] = refl
length-overwrite mem i (x ∷ d) =
    omega (arith, length-overwrite (set mem i x) (i + 1) d, length-set mem i x)

-- What the code relies on of malloc: a block that it returns has the size asked for. The contents
-- are whatever they are, and it may fail (`none`) at any size.
pub record Allocator : Type 0 where
  pub malloc : ℕ → Option (List ℕ)
  pub length-malloc : (n : ℕ) (m : List ℕ) → malloc n ≡ some m → length m ≡ n
