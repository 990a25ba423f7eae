-- ===== src/Buffer/Blocks.antt =====
-- What the two block transfers of the ring buffer do inside the ring, in terms of `window` and
-- `put_ring` of Memory/Ring.antt.
use native.Mathlib.Nat.{mod-eq-sub-mod}
use lr.Base.{
  ℕ, ◌+◌, ◌-◌, ◌%◌, ◌≤◌, ◌<◌, ◌≡◌, sym, ap, ap₂, ◌∙◌, inl, inr, some, List, ◌++◌, arith, length,
  length-take, length-drop, take, drop, take-append-drop, leb, if◌then◌else◌, half_word, Bool-cases,
}
use lr.Memory.{slice, overwrite, load-in, store-in, length-overwrite}
use lr.Memory.Ring.{
  window, put_ring, slice-window, overwrite-put_ring, window-append, put_ring-append, window-mod,
  put_ring-mod,
}
use lr.Buffer.{dlt_buffer_write_block, dlt_buffer_read_block}

-- The position `n` bytes on: at the end of the ring it stays there.
abbrev pub advance : ℕ → ℕ → ℕ → ℕ
advance size p n = if leb (p + n) size then p + n else p + n - size

-- A step round the ring is a step modulo the size.
mod-end : (size : ℕ) → size % size ≡ 0 % size
mod-end size = mod-eq-sub-mod {n = size} {m = size} (omega arith) ∙ ap (λ k. k % size) (omega arith)

pub mod-sub_size : (size p : ℕ) → size ≤ p → p % size ≡ (p - size) % size
mod-sub_size size p h = mod-eq-sub-mod {n = p} {m = size} h

module _ (size : ℕ) (mem : List ℕ) (small : size < half_word) (full : length mem ≡ size) where
  write_two :
      (w : ℕ) (d : List ℕ)
      → w ≤ size
      → length d ≤ size
      → size < w + length d
      → overwrite (overwrite mem w (take (size - w) d)) 0 (drop (size - w) d)
        ≡ put_ring mem size w d
  write_two w d hw hd over =
      overwrite-put_ring (overwrite mem w (take (size - w) d)) size 0 (drop (size - w) d)
        (omega (arith, length-drop (size - w) d))
      ∙ ap (λ m. put_ring m size 0 (drop (size - w) d))
          (overwrite-put_ring mem size w (take (size - w) d)
            (omega (arith, length-take (size - w) d)))
      ∙ put_ring-mod (put_ring mem size w (take (size - w) d)) size 0
          (w + length (take (size - w) d)) (drop (size - w) d)
          (sym (mod-end size) ∙ ap (λ k. k % size) (omega (arith, length-take (size - w) d)))
      ∙ sym (put_ring-append mem size w (take (size - w) d) (drop (size - w) d))
      ∙ ap (put_ring mem size w) (take-append-drop (size - w) d)

  pub read_two :
      (r n : ℕ)
      → r ≤ size
      → n ≤ size
      → size < r + n
      → slice mem r (size - r) ++ slice mem 0 (r + n - size) ≡ window mem size r n
  read_two r n hr hn over =
      ap₂ ◌++◌ (slice-window mem size r (size - r) (omega arith)) (
        slice-window mem size 0 (r + n - size) (omega arith)
        ∙ window-mod mem size 0 (r + (size - r)) (r + n - size)
            (sym (mod-end size) ∙ ap (λ k. k % size) (omega arith)))
      ∙ sym (window-append mem size r (size - r) (r + n - size))
      ∙ ap (window mem size r) (omega arith)

  -- Inside the ring a block write never leaves the memory, puts the bytes round the ring and steps
  -- over them.
  pub dlt_buffer_write_block_lem :
      (w : ℕ) (d : List ℕ)
      → w ≤ size
      → length d ≤ size
      → dlt_buffer_write_block size mem w d
        ≡ some (advance size w (length d), put_ring mem size w d)
  unfolding dlt_buffer_write_block
  dlt_buffer_write_block_lem w d hw hd = elim (Bool-cases (leb (w + length d) size)) [
    | inl one ↦ ground (arith, store-in mem w d, overwrite-put_ring mem size w d)
    | inr two ↦ ground (
      arith,
      store-in mem w (take (size - w) d),
      store-in (overwrite mem w (take (size - w) d)) 0 (drop (size - w) d),
      length-overwrite mem w (take (size - w) d),
      length-take (size - w) d,
      length-drop (size - w) d,
      write_two w d,
    )
  ]

  -- Likewise for a block read.
  pub dlt_buffer_read_block_lem :
      (r n : ℕ)
      → r ≤ size
      → n ≤ size
      → dlt_buffer_read_block size mem r n ≡ some (advance size r n, window mem size r n)
  unfolding dlt_buffer_read_block
  dlt_buffer_read_block_lem r n hr hn = elim (Bool-cases (leb (r + n) size)) [
    | inl one ↦ ground (arith, load-in mem r n, slice-window mem size r n)
    | inr two ↦ ground (arith, load-in mem r (size - r), load-in mem 0 (r + n - size), read_two r n)
  ]

-- Two steps round the ring are one step, and two writes one after the other are one write.
module _ (size w : ℕ) (w_in : w ≤ size) where
  pub advance_in : (n : ℕ) → n ≤ size → advance size w n ≤ size
  advance_in n h = ground arith

  pub advance-mod : (n : ℕ) → n ≤ size → advance size w n % size ≡ (w + n) % size
  advance-mod n h = elim (Bool-cases (leb (w + n) size)) [
    | inl e ↦ rw e
    | inr e ↦ rw e (sym (mod-sub_size size (w + n) (ground arith)))
  ]

  pub advance-advance :
      (m n : ℕ) → m + n ≤ size → advance size (advance size w m) n ≡ advance size w (m + n)
  advance-advance m n h = ground arith

  pub put_ring-advance :
      (mem c d : List ℕ)
      → length c ≤ size
      → put_ring (put_ring mem size w c) size (advance size w (length c)) d
        ≡ put_ring mem size w (c ++ d)
  put_ring-advance mem c d h =
      put_ring-mod (put_ring mem size w c) size (advance size w (length c)) (w + length c) d
        (advance-mod (length c) h)
      ∙ sym (put_ring-append mem size w c d)
