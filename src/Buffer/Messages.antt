-- ===== src/Buffer/Messages.antt =====
-- The operations of shared/dlt_common.c that push a message into the ring buffer and take one out:
-- a message stands behind a `DltBufferBlockHead`.
use lr.Base.{
  ℕ, zero, suc, ◌+◌, ◌%◌, Bool, true, false, ◌&&◌, ◌||◌, not, Option, none, some, List, [], ◌∷◌,
  ◌++◌, length, get_or, take, ltb, leb, ◌==◌, if◌then◌else◌, bytes_eq, ◌>>=◌, ◌>>◌, guard, word,
  half_word, int_bytes, int_of_bytes, add32, sub32, slt32, DltReturnValue, return_error, return_ok,
}
use lr.Memory.{Allocator}
use lr.Buffer.{
  Shm, DltBuffer, sizeof_block_head, dlt_buffer_write_block, dlt_buffer_read_block,
  dlt_buffer_reset, dlt_buffer_increase_size, dlt_buffer_minimize_size, used_size,
}

-- The three bytes of padding in a `DltBufferBlockHead`, which the code leaves indeterminate.
abbrev pub Padding : Type 0
Padding = ℕ × ℕ × ℕ

-- DLT_BUFFER_HEAD, with its terminating zero
abbrev pub dlt_buffer_head : List ℕ
dlt_buffer_head = b'S' ∷ b'H' ∷ b'M' ∷ 0 ∷ []

-- A `DltBufferBlockHead` as it lies in memory.
unfoldable pub block_head : Padding → ℕ → List ℕ
block_head p size = dlt_buffer_head ++ 2 ∷ p.0 ∷ p.1 ∷ p.2 ∷ int_bytes size

-- The space that is left, an int. `count` is the one read when the push began.
unfoldable pub free_size : ℕ → Shm → ℕ → ℕ
free_size size s count =
    if slt32 s.write s.read
    then sub32 s.read s.write
    else if not (count == 0) && s.write == s.read
    then 0
    else add32 (sub32 size s.write) s.read

-- `if (size1) dlt_buffer_write_block(...)`
unfoldable pub write_chunk : ℕ → ℕ × List ℕ → List ℕ → Option (ℕ × List ℕ)
write_chunk size (w, m) [] = some (w, m)
write_chunk size (w, m) (x ∷ d) = dlt_buffer_write_block size m w (x ∷ d)

-- The header and the three parts, from the write position on.
unfoldable pub write_message : ℕ → Shm → List ℕ → List ℕ → List ℕ → List ℕ → Option (ℕ × List ℕ)
write_message size s head d1 d2 d3 = do
  w ← dlt_buffer_write_block size s.mem s.write head
  w1 ← write_chunk size w d1
  w2 ← write_chunk size w1 d2
  write_chunk size w2 d3

-- The message behind its header, once there is room.
unfoldable pub push_message :
    DltBuffer → Padding → List ℕ → List ℕ → List ℕ → Option (DltReturnValue × DltBuffer)
push_message b p d1 d2 d3 = do
  s ← b.shm
  (w, m) ←
      write_message b.size s (block_head p ((length d1 + length d2 + length d3) % word)) d1 d2 d3
  some (
    return_ok,
    record b { shm = some (record s { write = w; count = add32 s.count 1; mem = m }) },
  )

is_ok : DltReturnValue → Bool
is_ok DltReturnValue.return_ok = true
is_ok _ = false

module _ (a : Allocator) where
  -- The while loop of the push; the flag says whether the space was found.
  unfoldable pub make_room : ℕ → DltBuffer → ℕ → ℕ → Option (Bool × DltBuffer)
  unfolding is_ok
  make_room zero b needed count = none
  make_room (suc fuel) b needed count = b.shm >>= λ s.
      elim (slt32 (free_size b.size s count) needed) [
        | false ↦ some (true, b)
        | true ↦ dlt_buffer_increase_size a b >>= λ (r, b'). elim (is_ok r) [
          | true ↦ make_room fuel b' needed count
          | false ↦ some (false, b')
        ]
      ]

  -- The data are given with their lengths; each length is below 2 ^ 32.
  unfoldable pub dlt_buffer_push3 :
      DltBuffer → Padding → List ℕ → List ℕ → List ℕ → Option (DltReturnValue × DltBuffer)
  unfolding make_room push_message
  dlt_buffer_push3 b p d1 d2 d3 = elim b.shm [
    | none ↦ some (return_error, b)
    | some s ↦
        if ltb b.size s.read || ltb b.size s.write
        then (do (r, b') ← dlt_buffer_reset b; some (return_error, b'))
        else (do
          (found, b') ←
              make_room (suc b.max_size) b
                ((sizeof_block_head + length d1 + length d2 + length d3) % word) s.count
          if found then push_message b' p d1 d2 d3 else some (return_error, b'))
  ]

  unfoldable pub dlt_buffer_push :
      DltBuffer → Padding → List ℕ → Option (DltReturnValue × DltBuffer)
  dlt_buffer_push b p d = dlt_buffer_push3 b p d [] []

-- What `dlt_buffer_get` returns: an error, or the size in the header with the bytes stored at `data`.
pub data Got : Type 0 where
  failed : DltReturnValue → Got
  taken : ℕ → List ℕ → Got

-- A broken buffer is emptied.
unfoldable pub reset_and_fail : DltBuffer → Option (Got × DltBuffer)
reset_and_fail b = do (r, b') ← dlt_buffer_reset b; some (failed return_error, b')

-- The bytes of the message are stored: `(data != NULL) && max_size`.
abbrev pub stores : Option ℕ → ℕ → Bool
stores none max_size = false
stores (some room) max_size = not (max_size == 0)

-- The block at `data` has room for `n` bytes.
abbrev pub has_room : Option ℕ → ℕ → Bool
has_room none n = true
has_room (some room) n = leb n room

module _ (a : Allocator) where
  -- The last part of a get: `read` is the position behind the message.
  unfoldable pub finish : DltBuffer → Shm → ℕ → ℕ → List ℕ → Bool → Option (Got × DltBuffer)
  finish b s read n out false = some (taken n out, b)
  finish b s read n out true =
      let s' : Shm = record s { read = read; count = sub32 s.count 1 } in
      let b' : DltBuffer = record b { shm = some s' } in
      if s'.count == 0
      then (do (r, b'') ← dlt_buffer_minimize_size a b'; some (taken n out, b''))
      else some (taken n out, b')

  -- The message behind a sound header of size `n`, read from the position `read`.
  unfoldable pub get_message :
      DltBuffer → Shm → Option ℕ → ℕ → Bool → ℕ → ℕ → Option (Got × DltBuffer)
  get_message b s dest max_size delete read n =
      if stores dest max_size
      then (do
        (read', out) ← dlt_buffer_read_block b.size s.mem read n
        guard (has_room dest n)
        finish b s read' n out delete)
      else finish b s
          (if leb (add32 read n) b.size then add32 read n else sub32 (add32 read n) b.size) n []
          delete

  -- The checks of the header `head`, which ends at the position `read`.
  unfoldable pub check_head :
      DltBuffer → Shm → Option ℕ → ℕ → Bool → ℕ → List ℕ → Option (Got × DltBuffer)
  check_head b s dest max_size delete read head =
      if not (bytes_eq (take 4 head) dlt_buffer_head)
      then reset_and_fail b
      else if not (get_or head 4 0 == 2)
      then reset_and_fail b
      else if slt32 (used_size b.size s) (add32 sizeof_block_head (int_of_bytes head 8))
      then reset_and_fail b
      else get_message b s dest max_size delete read (int_of_bytes head 8)

  -- A get whose header was not read at all would use an indeterminate header, so it is undefined.
  unfoldable pub read_head : DltBuffer → Shm → Option ℕ → ℕ → Bool → Option (Got × DltBuffer)
  read_head b s dest max_size delete = do
    (read, head) ← dlt_buffer_read_block b.size s.mem s.read sizeof_block_head
    guard (length head == sizeof_block_head)
    check_head b s dest max_size delete read head

  -- `dest` is the room in bytes of the block at `data`, `none` for a null pointer.
  unfoldable pub dlt_buffer_get : DltBuffer → Option ℕ → ℕ → Bool → Option (Got × DltBuffer)
  dlt_buffer_get b dest max_size delete = elim b.shm [
    | none ↦ some (failed return_error, b)
    | some s ↦
        if ltb b.size s.read || ltb b.size s.write || leb half_word s.count
        then reset_and_fail b
        else if s.count == 0
        then (if s.write == s.read then some (failed return_error, b) else reset_and_fail b)
        else if slt32 (used_size b.size s) sizeof_block_head
        then reset_and_fail b
        else read_head b s dest max_size delete
  ]

  unfoldable pub dlt_buffer_pull : DltBuffer → Option ℕ → ℕ → Option (Got × DltBuffer)
  dlt_buffer_pull b dest max_size = dlt_buffer_get b dest max_size true

  unfoldable pub dlt_buffer_copy : DltBuffer → Option ℕ → ℕ → Option (Got × DltBuffer)
  dlt_buffer_copy b dest max_size = dlt_buffer_get b dest max_size false

  unfoldable pub dlt_buffer_remove : DltBuffer → Option (Got × DltBuffer)
  dlt_buffer_remove b = dlt_buffer_get b none 0 true
