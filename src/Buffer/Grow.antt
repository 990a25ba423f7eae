-- ===== src/Buffer/Grow.antt =====
-- Growing the ring buffer keeps a queue that is not empty, and the loop of a push ends.
use lr.Base.{
  ℕ, ◌+◌, ◌-◌, ◌≤◌, ◌<◌, ◌≡◌, refl, sym, ap, ◌∙◌, ◌⊎◌, inl, inr, none, some, List, ◌++◌, arith,
  length, length-drop, drop, half_word, return_ok, return_error, Bool-cases, Option-cases, ltb,
  ◌==◌,
}
use lr.Memory.{Allocator, load-in, store-in, slice, overwrite, length-slice, length-overwrite}
use lr.Memory.Ring.{
  window, put_ring, length-put_ring, window-put_ring, slice-window, overwrite-put_ring,
  put_ring-append, length-window,
}
use lr.Buffer.{Shm, DltBuffer, grow, dlt_buffer_increase_size}
use lr.Buffer.Blocks.{read_two}
use lr.Buffer.Frames.{Frame, total, Ends, Holds}

abbrev pub grown_shm : DltBuffer → Shm → List ℕ → ℕ → Shm
grown_shm b s fresh used = record {
  write = used;
  read = 0;
  count = s.count;
  mem = put_ring fresh (b.size + b.step_size) 0 (window s.mem b.size s.read used);
}

abbrev pub grown : DltBuffer → Shm → List ℕ → ℕ → DltBuffer
grown b s fresh used = record b {
  shm = some (grown_shm b s fresh used);
  size = b.size + b.step_size;
}

module _ (b : DltBuffer) (s : Shm) (q : List Frame) (fresh : List ℕ) (v : Holds b s q) where
  module _ (some_held : 0 < total q) (fits : b.size + 12 + b.step_size ≤ b.max_size)
      (fresh_len : length fresh ≡ b.size + b.step_size) where
    small : b.size < half_word
    small = omega arith

    copied_one :
        s.read + total q ≡ s.write
        → overwrite fresh 0 (slice s.mem s.read (total q))
          ≡ put_ring fresh (b.size + b.step_size) 0 (window s.mem b.size s.read (total q))
    copied_one e =
        overwrite-put_ring fresh (b.size + b.step_size) 0 (slice s.mem s.read (total q))
          (omega (arith, length-slice s.mem s.read (total q)))
        ∙ ap (put_ring fresh (b.size + b.step_size) 0)
            (slice-window s.mem b.size s.read (total q) (omega arith))

    copied_two :
        0 < s.write
        → s.read + total q ≡ s.write + b.size
        → overwrite
            (overwrite fresh 0 (slice s.mem s.read (b.size - s.read)))
            (b.size - s.read)
            (slice s.mem 0 s.write)
          ≡ put_ring fresh (b.size + b.step_size) 0 (window s.mem b.size s.read (total q))
    copied_two w e =
        let size' : ℕ = b.size + b.step_size in
        let d : List ℕ = slice s.mem s.read (b.size - s.read) in
        let d' : List ℕ = slice s.mem 0 s.write in
        let n : length d ≡ b.size - s.read = length-slice s.mem s.read (b.size - s.read) in
        let n' : length d' ≡ s.write = length-slice s.mem 0 s.write in
        ap (λ m. overwrite m (b.size - s.read) d')
          (overwrite-put_ring fresh size' 0 d (omega arith))
        ∙ overwrite-put_ring (put_ring fresh size' 0 d) size' (b.size - s.read) d' (omega arith)
        ∙ ap (λ k. put_ring (put_ring fresh size' 0 d) size' k d') (omega arith)
        ∙ sym (put_ring-append fresh size' 0 d d')
        ∙ ap (put_ring fresh size' 0) (
            ap (λ k. d ++ slice s.mem 0 k) (omega arith)
            ∙ read_two b.size s.mem small v.mem_len s.read (total q) v.read_in v.room (omega arith))

    grow_lem : grow b s fresh ≡ some (return_ok, grown b s fresh (total q))
    unfolding grow
    grow_lem = by_ends v.ends
      where
        by_ends :
            Ends b.size s.read s.write (total q)
            → grow b s fresh ≡ some (return_ok, grown b s fresh (total q))
        by_ends (inl (e, _)) = absurd (omega arith)
        by_ends (inr (_, w, inl e)) = ground (
          arith,
          load-in s.mem s.read (total q),
          store-in fresh 0 (slice s.mem s.read (total q)),
          length-slice s.mem s.read (total q),
          copied_one e,
          v.mem_len,
        )
        by_ends (inr (_, w, inr e)) = ground (
          arith,
          load-in s.mem s.read (b.size - s.read),
          load-in s.mem 0 s.write,
          store-in fresh 0 (slice s.mem s.read (b.size - s.read)),
          store-in (overwrite fresh 0 (slice s.mem s.read (b.size - s.read))) (b.size - s.read)
              (slice s.mem 0 s.write),
          length-overwrite fresh 0 (slice s.mem s.read (b.size - s.read)),
          length-slice s.mem s.read (b.size - s.read),
          length-slice s.mem 0 s.write,
          copied_two w e,
          v.mem_len,
        )

    grown-Holds : Holds (grown b s fresh (total q)) (grown_shm b s fresh (total q)) q
    unfolding window
    grown-Holds = record {
      shm_eq = refl;
      limits = omega arith;
      mem_len =
          length-put_ring fresh (b.size + b.step_size) 0 (window s.mem b.size s.read (total q))
          ∙ fresh_len;
      read_in = omega arith;
      write_in = omega arith;
      room = omega arith;
      ends = inr (some_held, some_held, inl (omega arith));
      count_eq = v.count_eq;
      bytes =
          ap
            (λ n.
              window
                (put_ring fresh (b.size + b.step_size) 0 (window s.mem b.size s.read (total q)))
                (b.size + b.step_size) 0 n)
            (omega (arith, length-window s.mem b.size s.read (total q)))
          ∙ window-put_ring (window s.mem b.size s.read (total q)) fresh (b.size + b.step_size) 0 0
              fresh_len (omega (arith, length-window s.mem b.size s.read (total q)))
          ∙ v.bytes;
    }

module _ (a : Allocator) where
  open a use {malloc, length-malloc}

  -- A buffer that cannot be made larger: by its limits, or for want of memory.
  abbrev pub AtLimit : DltBuffer → Type 0
  AtLimit b =
      (b.step_size ≡ 0)
      ⊎ ((b.max_size < b.size + 12 + b.step_size) ⊎ (malloc (b.size + 12 + b.step_size) ≡ none))

  -- A larger buffer with the same frames.
  pub record Grows (b b' : DltBuffer) (s' : Shm) (q : List Frame) : Type 0 where
    pub holds : Holds b' s' q
    pub larger : b'.size ≡ b.size + b.step_size
    pub step_pos : 0 < b.step_size
    pub same_step : b'.step_size ≡ b.step_size
    pub same_max : b'.max_size ≡ b.max_size
    pub same_min : b'.min_size ≡ b.min_size

  module _ (b : DltBuffer) (s : Shm) (q : List Frame) (v : Holds b s q) where
    -- One increase refuses at the limit, and else moves the frames into a larger block.
    pub increase_cases :
        0 < total q
        → ((dlt_buffer_increase_size a b ≡ some (return_error, b)) × AtLimit b)
          ⊎ ((b' : DltBuffer) × (s' : Shm) × (dlt_buffer_increase_size a b ≡ some (return_ok, b'))
              × Grows b b' s' q)
    unfolding dlt_buffer_increase_size
    increase_cases h = elim (Bool-cases (b.step_size == 0)) [
      | inl e ↦ inl (ground arith, inl (ground arith))
      | inr e ↦ elim (Bool-cases (ltb b.max_size (b.size + 12 + b.step_size))) [
        | inl f ↦ inl (ground arith, inr (inl (ground arith)))
        | inr f ↦ elim (Option-cases (malloc (b.size + 12 + b.step_size))) [
          | inl g ↦ inl (ground arith, inr (inr g))
          | inr (block, g) ↦
              let len : length (drop 12 block) ≡ b.size + b.step_size =
                omega (
                  arith,
                  length-malloc (b.size + 12 + b.step_size) block g,
                  length-drop 12 block,
                ) in
              let fits : b.size + 12 + b.step_size ≤ b.max_size = ground arith in
              inr (
                grown b s (drop 12 block) (total q),
                grown_shm b s (drop 12 block) (total q),
                ground (arith, v.shm_eq, grow_lem b s q (drop 12 block) v h fits len),
                record {
                  holds = grown-Holds b s q (drop 12 block) v h fits len;
                  larger = refl;
                  step_pos = ground arith;
                  same_step = refl;
                  same_max = refl;
                  same_min = refl;
                },
              )
        ]
      ]
    ]
