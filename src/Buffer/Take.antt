-- ===== src/Buffer/Take.antt =====
-- Taking a message out of a ring buffer that holds a queue gives the oldest message.
use lr.Base.{
  Option, none, ℕ, ◌+◌, ◌-◌, ◌≡◌, refl, ◌∙◌, ◌⊎◌, inl, inr, Bool, true, false, some, List, [], ◌∷◌,
  arith, length, sub32, return_ok, return_error, drop, replicate, length-drop, length-replicate,
  DltReturnValue, Bool-cases, Option-cases, ◌==◌,
}
use lr.Memory.{Allocator, overwrite, store-in, length-overwrite}
use lr.Memory.Ring.{window}
use lr.Buffer.{empty_shm, Shm, DltBuffer, dlt_buffer_minimize_size}
use lr.Buffer.Messages.{
  failed, taken, finish, dlt_buffer_get, dlt_buffer_copy, dlt_buffer_pull, dlt_buffer_remove,
}
use lr.Buffer.Blocks.{advance}
use lr.Buffer.Frames.{Frame, encode, Holds, length-le-total}
use lr.Buffer.Read.{
  HasRoom, Overruns, room_cases, delivered, check_head_lem, read_head_lem, get_to_read_head,
  get_to_finish, get-Overruns, rest_shm, rest, rest-Holds,
}

-- Minimizing a buffer that holds the empty queue leaves it holding the empty queue, with the same
-- minimal size. It returns OK at the least size, or an error with the buffer unchanged.
pub minimize_cases :
    (a : Allocator) (b : DltBuffer) (s : Shm) (q : List Frame)
    → Holds b s q
    → length q ≡ 0
    → (r : DltReturnValue) × (b' : DltBuffer) × (s' : Shm) × (dlt_buffer_minimize_size a b
        ≡ some (r, b'))
      × Holds b' s' q
      × (((r ≡ return_ok) × (b'.size + 12 ≡ b.min_size)) ⊎ ((r ≡ return_error) × (b' ≡ b)))
      × (b'.min_size ≡ b.min_size)
unfolding dlt_buffer_minimize_size encode window
minimize_cases a b s (f ∷ q) v none_held = absurd (omega arith)
minimize_cases a b s [] v none_held = elim (Bool-cases (b.size + 12 == b.min_size)) [
  | inl e ↦ (return_ok, b, s, ground arith, v, inl (refl, ground arith), refl)
  | inr e ↦ elim (Option-cases (a.malloc b.min_size)) [
    | inl g ↦ (return_error, b, s, ground arith, v, inr (refl, refl), refl)
    | inr (block, g) ↦
        let len : length block ≡ b.min_size = a.length-malloc b.min_size block g in
        let m : ℕ = b.min_size - 12 in
        let mem : List ℕ = overwrite (drop 12 block) 0 (replicate m 0) in
        let s' : Shm = empty_shm mem in
        (
          return_ok,
          record b { shm = some s'; size = m },
          s',
          ground (
            arith,
            len,
            length-drop 12 block,
            length-replicate m (let z : ℕ = 0 in z),
            store-in (drop 12 block) 0 (replicate m 0),
          ),
          record {
            shm_eq = refl;
            limits = omega arith;
            mem_len =
                length-overwrite (drop 12 block) 0 (replicate m 0)
                ∙ omega (arith, length-drop 12 block);
            read_in = omega arith;
            write_in = omega arith;
            room = omega arith;
            ends = inl (refl, refl);
            count_eq = refl;
            bytes = refl;
          },
          inl (refl, omega arith),
          refl,
        )
  ]
]

module _ (a : Allocator) (b : DltBuffer) (s : Shm) (f : Frame) (q : List Frame)
    (v : Holds b s (f ∷ q)) where
  get_eq_finish :
      (dest : Option ℕ) (max_size : ℕ) (delete : Bool)
      → HasRoom dest max_size (length f.payload)
      → dlt_buffer_get a b dest max_size delete
        ≡ finish a b s
            (advance b.size s.read (12 + length f.payload))
            (length f.payload)
            (delivered dest max_size f)
            delete
  get_eq_finish dest max_size delete h =
      get_to_read_head b s f q v a dest max_size delete
      ∙ read_head_lem b s f q v a dest max_size delete
      ∙ check_head_lem b s f q v a dest max_size delete (advance b.size s.read 12)
      ∙ get_to_finish b s f q v a dest max_size delete h

  get_eq_none :
      (dest : Option ℕ) (max_size : ℕ) (delete : Bool)
      → Overruns dest max_size (length f.payload)
      → dlt_buffer_get a b dest max_size delete ≡ none
  get_eq_none dest max_size delete h =
      get_to_read_head b s f q v a dest max_size delete
      ∙ read_head_lem b s f q v a dest max_size delete
      ∙ check_head_lem b s f q v a dest max_size delete (advance b.size s.read 12)
      ∙ get-Overruns b s f q v a dest max_size delete h

  pub copy_room :
      (dest : Option ℕ) (max_size : ℕ)
      → HasRoom dest max_size (length f.payload)
      → dlt_buffer_copy a b dest max_size
        ≡ some (taken (length f.payload) (delivered dest max_size f), b)
  unfolding dlt_buffer_copy finish
  copy_room dest max_size h = get_eq_finish dest max_size false h

  -- A copy delivers the oldest message and leaves the buffer as it was, or, where the bytes are stored
  -- and the block at the data pointer has less room than the message, writes past that block.
  pub dlt_buffer_copy_lem :
      (dest : Option ℕ) (max_size : ℕ)
      → (HasRoom dest max_size (length f.payload)
          × (dlt_buffer_copy a b dest max_size
              ≡ some (taken (length f.payload) (delivered dest max_size f), b)))
        ⊎ (Overruns dest max_size (length f.payload) × (dlt_buffer_copy a b dest max_size ≡ none))
  unfolding dlt_buffer_copy
  dlt_buffer_copy_lem dest max_size = elim (room_cases dest max_size (length f.payload)) [
    | inl h ↦ inl (h, copy_room dest max_size h)
    | inr h ↦ inr (h, get_eq_none dest max_size false h)
  ]

  counted : sub32 s.count 1 ≡ s.count - 1
  counted = omega (arith, v.count_eq, length-le-total q)

  get_delete :
      (dest : Option ℕ) (max_size : ℕ)
      → HasRoom dest max_size (length f.payload)
      → (b' : DltBuffer) × (s' : Shm) × (dlt_buffer_get a b dest max_size true
          ≡ some (taken (length f.payload) (delivered dest max_size f), b'))
        × Holds b' s' q
        × (b'.min_size ≡ b.min_size)
  unfolding finish
  get_delete dest max_size room = elim (Bool-cases (length q == 0)) [
    | inl e ↦
        let last : (s.count - 1 == 0) ≡ true = ground (arith, v.count_eq) in
        let (r, b', s', g, h, _, k) =
          minimize_cases a (rest b s f q v) (rest_shm b s f q v) q (rest-Holds b s f q v)
            (ground arith) in
        (b', s', get_eq_finish dest max_size true room ∙ rw counted (rw last (rw g)), h, k)
    | inr e ↦
        let more : (s.count - 1 == 0) ≡ false = ground (arith, v.count_eq) in
        (
          rest b s f q v,
          rest_shm b s f q v,
          get_eq_finish dest max_size true room ∙ rw counted (rw more),
          rest-Holds b s f q v,
          refl,
        )
  ]

  pub pull_room :
      (dest : Option ℕ) (max_size : ℕ)
      → HasRoom dest max_size (length f.payload)
      → (b' : DltBuffer) × (s' : Shm) × (dlt_buffer_pull a b dest max_size
          ≡ some (taken (length f.payload) (delivered dest max_size f), b'))
        × Holds b' s' q
        × (b'.min_size ≡ b.min_size)
  unfolding dlt_buffer_pull
  pull_room dest max_size h = get_delete dest max_size h

  -- A pull returns the length of the oldest message, delivers all its bytes where a data pointer and a
  -- maximal size other than 0 are given, whatever that size is, and takes it off the queue; or, where
  -- the bytes are stored and the block at the data pointer has less room than the message, it writes
  -- past that block.
  pub dlt_buffer_pull_lem :
      (dest : Option ℕ) (max_size : ℕ)
      → (HasRoom dest max_size (length f.payload)
          × ((b' : DltBuffer) × (s' : Shm) × (dlt_buffer_pull a b dest max_size
                ≡ some (taken (length f.payload) (delivered dest max_size f), b'))
              × Holds b' s' q
              × (b'.min_size ≡ b.min_size)))
        ⊎ (Overruns dest max_size (length f.payload) × (dlt_buffer_pull a b dest max_size ≡ none))
  unfolding dlt_buffer_pull
  dlt_buffer_pull_lem dest max_size = elim (room_cases dest max_size (length f.payload)) [
    | inl h ↦ inl (h, pull_room dest max_size h)
    | inr h ↦ inr (h, get_eq_none dest max_size true h)
  ]

  -- A remove takes it off the queue and delivers nothing.
  pub dlt_buffer_remove_lem :
      (b' : DltBuffer) × (s' : Shm) × (dlt_buffer_remove a b
        ≡ some (taken (length f.payload) [], b'))
      × Holds b' s' q
      × (b'.min_size ≡ b.min_size)
  unfolding dlt_buffer_remove
  dlt_buffer_remove_lem = get_delete none 0 tt

-- On an empty queue every get fails and leaves the buffer as it was.
pub get_empty :
    (a : Allocator) (b : DltBuffer) (s : Shm) (dest : Option ℕ) (max_size : ℕ) (delete : Bool)
    → Holds b s []
    → dlt_buffer_get a b dest max_size delete ≡ some (failed return_error, b)
unfolding dlt_buffer_get
get_empty a b s dest max_size delete v = ground (arith, v.shm_eq, v.count_eq, v.ends)
