-- ===== src/Buffer/Read.antt =====
-- The header and the bytes of the first message of a ring buffer that holds a queue, as `dlt_buffer_get`
-- of shared/dlt_common.c reads them, into a block that has room for them or not.
use lr.Base.{
  ◌≤◌, ◌≢◌, Option, none, ==→ne, ne→==, ℕ, ◌+◌, ◌-◌, ◌%◌, ◌<◌, ◌≡◌, refl, sym, ap, ap₂, ◌∙◌, ◌⊎◌,
  inl, inr, Bool, true, false, some, List, [], ◌∷◌, ◌++◌, arith, length, half_word, add32, sub32,
  slt32_small, bytes_eq, take, get_or, Bool-cases, le→ltb, if◌then◌else◌, leb, ◌==◌, append_inj,
}
use lr.Memory.{Allocator}
use lr.Memory.Ring.{window, length-window, window-append, window-mod}
use lr.Buffer.{Shm, DltBuffer, used_size, dlt_buffer_read_block}
use lr.Buffer.Messages.{
  stores, has_room, Padding, block_head, dlt_buffer_head, finish, get_message, check_head,
  read_head, dlt_buffer_get,
}
use lr.Buffer.Blocks.{advance, advance_in, advance-mod, advance-advance, dlt_buffer_read_block_lem}
use lr.Buffer.Frames.{
  Frame, encode, total, Holds, used_size-total, length-le-total, length-block_head,
  int_of_bytes-block_head,
}

magic-block_head : (p : Padding) (n : ℕ) → bytes_eq (take 4 (block_head p n)) dlt_buffer_head ≡ true
unfolding block_head
magic-block_head p n = refl

status-block_head : (p : Padding) (n : ℕ) → get_or (block_head p n) 4 0 ≡ 2
unfolding block_head
status-block_head p n = refl

-- Where the bytes of a message of `n` are stored, the block at `data` has room for them.
abbrev pub HasRoom : Option ℕ → ℕ → ℕ → Type 0
HasRoom none max_size n = Unit {0}
HasRoom (some room) max_size n = (max_size ≡ 0) ⊎ (n ≤ room)

-- The block at `data` is too small for a message of `n` bytes, which are stored all the same.
abbrev pub Overruns : Option ℕ → ℕ → ℕ → Type 0
Overruns none max_size n = ⊥
Overruns (some room) max_size n = (max_size ≢ 0) × (room < n)

pub room_cases :
    (dest : Option ℕ) (max_size n : ℕ) → HasRoom dest max_size n ⊎ Overruns dest max_size n
room_cases none max_size n = inl tt
room_cases (some room) max_size n = elim (Bool-cases (max_size == 0)) [
  | inl z ↦ inl (inl (ground arith))
  | inr z ↦ elim (Bool-cases (leb n room)) [
    | inl l ↦ inl (inr (ground arith))
    | inr l ↦ inr (==→ne max_size 0 z, ground arith)
  ]
]

HasRoom-has_room :
    (dest : Option ℕ) (max_size n : ℕ)
    → stores dest max_size ≡ true
    → HasRoom dest max_size n
    → has_room dest n ≡ true
HasRoom-has_room none max_size n e h = refl
HasRoom-has_room (some room) max_size n e h = ground arith

Overruns-stores :
    (dest : Option ℕ) (max_size n : ℕ) → Overruns dest max_size n → stores dest max_size ≡ true
Overruns-stores none max_size n h = absurd h
Overruns-stores (some room) max_size n h = rw (ne→== max_size 0 h.0) refl

Overruns-has_room :
    (dest : Option ℕ) (max_size n : ℕ) → Overruns dest max_size n → has_room dest n ≡ false
Overruns-has_room none max_size n h = absurd h
Overruns-has_room (some room) max_size n h = ground (arith, h.1)

-- The bytes that reach `data`.
abbrev pub delivered : Option ℕ → ℕ → Frame → List ℕ
delivered dest max_size f = if stores dest max_size then f.payload else []

module _ (b : DltBuffer) (s : Shm) (f : Frame) (q : List Frame) (v : Holds b s (f ∷ q)) where
  abbrev n : ℕ
  n = length f.payload

  small : b.size < half_word
  small = omega arith

  -- The bytes held are the header, the message and the other frames.
  split_head :
      (window s.mem b.size s.read 12 ≡ block_head f.pad n)
      × (window s.mem b.size (s.read + 12) (n + total q) ≡ f.payload ++ encode q)
  unfolding encode
  split_head =
      append_inj (window s.mem b.size s.read 12) (window s.mem b.size (s.read + 12) (n + total q))
        (block_head f.pad n) (f.payload ++ encode q)
        (length-window s.mem b.size s.read 12 ∙ sym (length-block_head f.pad n))
        (sym (window-append s.mem b.size s.read 12 (n + total q)) ∙ v.bytes)

  split_payload :
      (window s.mem b.size (s.read + 12) n ≡ f.payload)
      × (window s.mem b.size (s.read + 12 + n) (total q) ≡ encode q)
  split_payload =
      append_inj (window s.mem b.size (s.read + 12) n)
        (window s.mem b.size (s.read + 12 + n) (total q)) f.payload (encode q)
        (length-window s.mem b.size (s.read + 12) n)
        (sym (window-append s.mem b.size (s.read + 12) n (total q)) ∙ split_head.1)

  pub check_head_lem :
      (a : Allocator) (dest : Option ℕ) (max_size : ℕ) (delete : Bool) (read : ℕ)
      → check_head a b s dest max_size delete read (block_head f.pad n)
        ≡ get_message a b s dest max_size delete read n
  unfolding check_head
  check_head_lem a dest max_size delete read =
      rw
        (
          magic-block_head f.pad n,
          status-block_head f.pad n,
          int_of_bytes-block_head f.pad n (omega arith),
          used,
        )
        (rw (slt32_small (total (f ∷ q)) (add32 12 n) (omega arith) (omega arith))
          (rw (le→ltb (total (f ∷ q)) (add32 12 n) (omega arith))))
    where
      used : used_size b.size s ≡ total (f ∷ q)
      used = used_size-total (f ∷ q) v (omega (arith, v.count_eq))

  pub read_head_lem :
      (a : Allocator) (dest : Option ℕ) (max_size : ℕ) (delete : Bool)
      → read_head a b s dest max_size delete
        ≡ check_head a b s dest max_size delete (advance b.size s.read 12) (block_head f.pad n)
  unfolding read_head
  read_head_lem a dest max_size delete =
      rw
        (
          dlt_buffer_read_block_lem b.size s.mem small v.mem_len s.read 12 v.read_in (omega arith),
          split_head.0,
        )
        (rw (length-block_head f.pad n))

  pub get_to_read_head :
      (a : Allocator) (dest : Option ℕ) (max_size : ℕ) (delete : Bool)
      → dlt_buffer_get a b dest max_size delete ≡ read_head a b s dest max_size delete
  unfolding dlt_buffer_get
  get_to_read_head a dest max_size delete = ground (
    arith,
    v.shm_eq,
    v.count_eq,
    length-le-total q,
    used_size-total (f ∷ q) v (omega (arith, v.count_eq)),
    slt32_small (total (f ∷ q)) 12 (omega arith) (omega arith),
  )

  read_payload :
      dlt_buffer_read_block b.size s.mem (advance b.size s.read 12) n
      ≡ some (advance b.size s.read (12 + n), f.payload)
  read_payload =
      dlt_buffer_read_block_lem b.size s.mem small v.mem_len (advance b.size s.read 12) n
        (advance_in b.size s.read v.read_in 12 (omega arith)) (omega arith)
      ∙ ap₂ (λ p l. some (p, l)) (advance-advance b.size s.read v.read_in 12 n (omega arith))
          (window-mod s.mem b.size (advance b.size s.read 12) (s.read + 12) n
              (advance-mod b.size s.read v.read_in 12 (omega arith))
            ∙ split_payload.0)

  -- A step without a read ends at the same position.
  wrapped :
      (if leb (add32 (advance b.size s.read 12) n) b.size
        then add32 (advance b.size s.read 12) n
        else sub32 (add32 (advance b.size s.read 12) n) b.size)
      ≡ advance b.size s.read (12 + n)
  wrapped = ground arith

  pub get_to_finish :
      (a : Allocator) (dest : Option ℕ) (max_size : ℕ) (delete : Bool)
      → HasRoom dest max_size n
      → get_message a b s dest max_size delete (advance b.size s.read 12) n
        ≡ finish a b s (advance b.size s.read (12 + n)) n (delivered dest max_size f) delete
  unfolding get_message
  get_to_finish a dest max_size delete h = elim (Bool-cases (stores dest max_size)) [
    | inl e ↦ rw e (rw read_payload (rw (HasRoom-has_room dest max_size n e h) refl))
    | inr e ↦ rw e (ap (λ p. finish a b s p n [] delete) wrapped)
  ]

  pub get-Overruns :
      (a : Allocator) (dest : Option ℕ) (max_size : ℕ) (delete : Bool)
      → Overruns dest max_size n
      → get_message a b s dest max_size delete (advance b.size s.read 12) n ≡ none
  unfolding get_message
  get-Overruns a dest max_size delete h =
      rw (Overruns-stores dest max_size n h)
        (rw read_payload (rw (Overruns-has_room dest max_size n h) refl))

  abbrev pub rest_shm : Shm
  rest_shm = record s { read = advance b.size s.read (12 + n); count = s.count - 1 }

  abbrev pub rest : DltBuffer
  rest = record b { shm = some rest_shm }

  pub rest-Holds : Holds rest rest_shm q
  rest-Holds = record {
    shm_eq = refl;
    limits = omega arith;
    mem_len = v.mem_len;
    read_in = advance_in b.size s.read v.read_in (12 + n) (omega arith);
    write_in = v.write_in;
    room = omega arith;
    ends = ground (arith, v.ends);
    count_eq = omega (arith, v.count_eq);
    bytes =
        window-mod s.mem b.size (advance b.size s.read (12 + n)) (s.read + 12 + n) (total q) (
          advance-mod b.size s.read v.read_in (12 + n) (omega arith)
          ∙ ap (λ k. k % b.size) (omega arith))
        ∙ split_payload.1;
  }
