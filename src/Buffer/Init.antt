-- ===== src/Buffer/Init.antt =====
-- The initialisers of the ring buffer leave it holding the empty queue.
use lr.Base.{
  ℕ, ◌-◌, ◌≤◌, ◌<◌, ◌≡◌, refl, ◌∙◌, inl, some, none, List, [], arith, length, length-drop, drop,
  length-replicate, replicate, half_word, return_ok,
}
use lr.Memory.{Allocator, store, store-in, overwrite, length-overwrite}
use lr.Memory.Ring.{window}
use lr.Buffer.{
  Shm, DltBuffer, empty_shm, dlt_buffer_init_dynamic, dlt_buffer_init_static_server,
  dlt_buffer_reset,
}
use lr.Buffer.Frames.{Holds, encode, Limits}

abbrev cleared : List ℕ → ℕ → List ℕ
cleared mem n = overwrite mem 0 (replicate n 0)

cleared-Holds :
    (b : DltBuffer) (mem : List ℕ)
    → b.shm ≡ some (empty_shm (cleared mem b.size))
    → Limits b
    → length mem ≡ b.size
    → Holds b (empty_shm (cleared mem b.size)) []
unfolding window encode
cleared-Holds b mem e l len = record {
  shm_eq = e;
  limits = l;
  mem_len = length-overwrite mem 0 (replicate b.size 0) ∙ len;
  read_in = omega arith;
  write_in = omega arith;
  room = omega arith;
  ends = inl (refl, refl);
  count_eq = refl;
  bytes = refl;
}

store_zeros :
    (mem : List ℕ) (n : ℕ) → length mem ≡ n → store mem 0 (replicate n 0) ≡ some (cleared mem n)
store_zeros mem n len =
    store-in mem 0 (replicate n 0) (omega (arith, length-replicate n (let z : ℕ = 0 in z)))

abbrev pub started : ℕ → ℕ → ℕ → List ℕ → DltBuffer
started min_size max_size step_size mem = record {
  shm = some (empty_shm (cleared mem (min_size - 12)));
  size = min_size - 12;
  min_size = min_size;
  max_size = max_size;
  step_size = step_size;
}

module _ (a : Allocator) (b : DltBuffer) (min_size max_size step_size : ℕ) where
  -- With a minimal size above that of the header, and malloc giving memory, a dynamic buffer starts
  -- with the empty queue.
  pub dlt_buffer_init_dynamic-Holds :
      (block : List ℕ)
      → a.malloc min_size ≡ some block
      → 12 < min_size
      → min_size ≤ max_size
      → max_size < half_word
      → 0 < step_size
      → step_size ≤ max_size
      → (b' : DltBuffer) × (s : Shm) × (dlt_buffer_init_dynamic a b min_size max_size step_size
          ≡ some (return_ok, b'))
        × Holds b' s []
        × (b'.min_size ≡ min_size)
        × (b'.max_size ≡ max_size)
        × (b'.step_size ≡ step_size)
  unfolding dlt_buffer_init_dynamic
  dlt_buffer_init_dynamic-Holds block m h1 h2 h3 h4 h5 =
      let len : length block ≡ min_size = a.length-malloc min_size block m in
      let len' : length (drop 12 block) ≡ min_size - 12 = omega (arith, length-drop 12 block) in
      let b' : DltBuffer = started min_size max_size step_size (drop 12 block) in
      (
        b',
        empty_shm (cleared (drop 12 block) (min_size - 12)),
        ground (arith, m, len, store_zeros (drop 12 block) (min_size - 12) len'),
        cleared-Holds b' (drop 12 block) refl (omega arith) len',
        refl,
        refl,
        refl,
      )

  -- A minimal size below that of the header is refused only after the header was written past the
  -- end of the block.
  pub init_dynamic_overrun :
      (block : List ℕ)
      → a.malloc min_size ≡ some block
      → 0 < min_size
      → min_size < 12
      → min_size ≤ max_size
      → 0 < step_size
      → step_size ≤ max_size
      → dlt_buffer_init_dynamic a b min_size max_size step_size ≡ none
  unfolding dlt_buffer_init_dynamic
  init_dynamic_overrun block m h0 h1 h2 h3 h4 = ground (arith, m, a.length-malloc min_size block m)

-- So does a static buffer over shared memory whose data area has the size given less the header.
pub dlt_buffer_init_static_server-Holds :
    (b : DltBuffer) (ptr : Shm) (size : ℕ)
    → 12 < size
    → size < half_word
    → length ptr.mem ≡ size - 12
    → (b' : DltBuffer) × (s : Shm) × (dlt_buffer_init_static_server b ptr size
        ≡ some (return_ok, b'))
      × Holds b' s []
      × (b'.step_size ≡ 0)
unfolding dlt_buffer_init_static_server
dlt_buffer_init_static_server-Holds b ptr size h1 h2 len =
    let b' : DltBuffer = started size size 0 ptr.mem in
    (
      b',
      empty_shm (cleared ptr.mem (size - 12)),
      ground (arith, store_zeros ptr.mem (size - 12) len),
      cleared-Holds b' ptr.mem refl (omega arith) len,
      refl,
    )

-- A reset empties a buffer whatever its header holds.
pub dlt_buffer_reset-Holds :
    (b : DltBuffer) (s : Shm)
    → b.shm ≡ some s
    → Limits b
    → length s.mem ≡ b.size
    → (b' : DltBuffer) × (s' : Shm) × (dlt_buffer_reset b ≡ some (return_ok, b')) × Holds b' s' []
unfolding dlt_buffer_reset
dlt_buffer_reset-Holds b s e l len =
    let s' : Shm = empty_shm (cleared s.mem b.size) in
    let b' : DltBuffer = record b { shm = some s' } in
    (
      b',
      s',
      ground (arith, e, store_zeros s.mem b.size len),
      cleared-Holds b' s.mem refl (omega arith) len,
    )
