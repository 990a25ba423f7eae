-- ===== src/Buffer/Frames.antt =====
-- The abstract view of the ring buffer: a queue of frames, each a message with the padding of its
-- header. `Holds b s q` says that the block `s` of the buffer `b` is sound and holds the frames `q`.
use lr.Base.{
  ℕ, ◌+◌, ◌-◌, ◌*◌, ◌≤◌, ◌<◌, ◌≡◌, refl, sym, ap, ◌∙◌, ◌⊎◌, some, List, [], ◌∷◌, ◌++◌, arith,
  length, length-append, half_word, word, append_assoc, int_of_bytes,
}
use lr.Memory.Ring.{window}
use lr.Buffer.{Shm, DltBuffer, used_size}
use lr.Buffer.Messages.{Padding, block_head, free_size}

pub record Frame : Type 0 where
  pub pad : Padding
  pub payload : List ℕ

-- The frames as they lie in the ring, and the space that they take.
unfoldable pub encode : List Frame → List ℕ
encode [] = []
encode (f ∷ q) = block_head f.pad (length f.payload) ++ (f.payload ++ encode q)

abbrev pub total : List Frame → ℕ
total [] = 0
total (f ∷ q) = 12 + (length f.payload + total q)

pub length-block_head : (p : Padding) (n : ℕ) → length (block_head p n) ≡ 12
unfolding block_head
length-block_head p n = refl

pub length-encode : (q : List Frame) → length (encode q) ≡ total q
unfolding encode
length-encode [] = refl
length-encode (f ∷ q) = omega (
  arith,
  length-append (block_head f.pad (length f.payload)) (f.payload ++ encode q),
  length-append f.payload (encode q),
  length-block_head f.pad (length f.payload),
  length-encode q,
)

pub encode-append : (q r : List Frame) → encode (q ++ r) ≡ encode q ++ encode r
unfolding encode
encode-append [] r = refl
encode-append (f ∷ q) r =
    ap (λ l. block_head f.pad (length f.payload) ++ (f.payload ++ l)) (encode-append q r)
    ∙ ap (λ l. block_head f.pad (length f.payload) ++ l)
        (sym (append_assoc f.payload (encode q) (encode r)))
    ∙ sym (append_assoc (block_head f.pad (length f.payload)) (f.payload ++ encode q) (encode r))

pub total-append : (q r : List Frame) → total (q ++ r) ≡ total q + total r
total-append [] r = omega arith
total-append (f ∷ q) r = omega (arith, total-append q r)

-- The size that a header holds is read back from it.
pub int_of_bytes-block_head : (p : Padding) (n : ℕ) → n < word → int_of_bytes (block_head p n) 8 ≡ n
unfolding block_head
int_of_bytes-block_head p n h = omega arith

-- Where `used` bytes from `read` on end: an empty ring has equal positions, and the write position of
-- any other is not 0.
abbrev pub Ends : ℕ → ℕ → ℕ → ℕ → Type 0
Ends size read write used =
    ((used ≡ 0) × (read ≡ write))
    ⊎ ((0 < used) × (0 < write) × ((read + used ≡ write) ⊎ (read + used ≡ write + size)))

pub record Limits (b : DltBuffer) : Type 0 where
  pub max_small : b.max_size < half_word
  pub size_fits : b.size + 12 ≤ b.max_size
  pub size_pos : 0 < b.size
  pub min_pos : 12 < b.min_size
  pub min_fits : b.min_size ≤ b.max_size
  pub min_least : b.min_size ≤ b.size + 12

pub record Holds (b : DltBuffer) (s : Shm) (q : List Frame) : Type 0 where
  pub shm_eq : b.shm ≡ some s
  pub limits : Limits b
  pub mem_len : length s.mem ≡ b.size
  pub read_in : s.read ≤ b.size
  pub write_in : s.write ≤ b.size
  pub room : total q ≤ b.size
  pub ends : Ends b.size s.read s.write (total q)
  pub count_eq : s.count ≡ length q
  pub bytes : window s.mem b.size s.read (total q) ≡ encode q

pub length-le-total : (q : List Frame) → 12 * length q ≤ total q
length-le-total [] = omega arith
length-le-total (f ∷ q) = omega (arith, length-le-total q)

pub total-pos : (q : List Frame) → 0 < length q → 0 < total q
total-pos [] h = absurd (omega arith)
total-pos (f ∷ q) h = omega arith

pub total-zero : (q : List Frame) → length q ≡ 0 → total q ≡ 0
total-zero [] h = refl
total-zero (f ∷ q) h = absurd (omega arith)

-- The code's measures of the space agree with the frames.
module _ {b : DltBuffer} {s : Shm} (q : List Frame) (v : Holds b s q) where
  pub used_size-total : 0 < s.count → used_size b.size s ≡ total q
  used_size-total h = ground (arith, v.ends, v.count_eq, total-pos q)

  pub free_size-total : free_size b.size s s.count ≡ b.size - total q
  unfolding free_size
  free_size-total = ground (arith, v.ends, v.count_eq, total-pos q, total-zero q)
