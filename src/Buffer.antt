-- ===== src/Buffer.antt =====
-- The ring buffer of shared/dlt_common.c (`dlt_buffer_*`), which queues messages in the library and in
-- the daemon: its state, the transfer of blocks and the changes of size. `Buffer.Messages` has the
-- operations that push and take messages.
-- `none` is undefined behaviour: an access outside a block or through a null pointer.
pub mod Messages
pub mod Blocks
pub mod Frames
pub mod Push
pub mod Grow
pub mod Init
pub mod History
pub mod Lost
mod Tests
pub mod Read
pub mod Take
pub mod Refine
use lr.Base.{
  ℕ, ◌+◌, ◌-◌, ◌*◌, ◌%◌, ◌||◌, Option, none, some, List, [], ◌∷◌, ◌++◌, length, take, drop,
  replicate, ltb, leb, ◌==◌, if◌then◌else◌, ◌>>=◌, ◌>>◌, guard, word, half_word, add32, sub32,
  slt32, DltReturnValue, wrong_parameter, return_error, return_ok,
}
use lr.Memory.{load, store, Allocator}

-- sizeof(DltBufferHead): three ints
abbrev pub sizeof_buffer_head : ℕ
sizeof_buffer_head = 12

-- sizeof(DltBufferBlockHead): four chars, a byte and its padding, an int
abbrev pub sizeof_block_head : ℕ
sizeof_block_head = 12

-- The block behind `buf->shm`: the ints of `DltBufferHead`, as 32-bit patterns, and the data area
-- behind them, to which `buf->mem` points.
pub record Shm : Type 0 where
  pub write : ℕ
  pub read : ℕ
  pub count : ℕ
  pub mem : List ℕ

-- `shm` is `none` for a null pointer.
pub record DltBuffer : Type 0 where
  pub shm : Option Shm
  pub size : ℕ
  pub min_size : ℕ
  pub max_size : ℕ
  pub step_size : ℕ

abbrev pub empty_shm : List ℕ → Shm
empty_shm mem = record { write = 0; read = 0; count = 0; mem = mem }

-- An int as an offset or a size_t; a negative one lies outside every block.
abbrev pub as_index : ℕ → Option ℕ
as_index w = if ltb w half_word then some w else none

unfoldable pub dlt_buffer_write_block : ℕ → List ℕ → ℕ → List ℕ → Option (ℕ × List ℕ)
dlt_buffer_write_block size mem write d =
    if ltb size (length d)
    then some (write, mem)
    else if leb (add32 write (length d)) size
    then (do i ← as_index write; m ← store mem i d; some (add32 write (length d), m))
    else if leb write size
    then (do
      i ← as_index write
      m ← store mem i (take (size - write) d)
      m' ← store m 0 (drop (size - write) d)
      some (add32 write (sub32 (length d) size), m'))
    else some (write, mem)

-- The bytes that reach `data`, beside the new position.
unfoldable pub dlt_buffer_read_block : ℕ → List ℕ → ℕ → ℕ → Option (ℕ × List ℕ)
dlt_buffer_read_block size mem read n =
    if leb (add32 read n) size
    then (do i ← as_index read; d ← load mem i n; some (add32 read n, d))
    else if leb read size
    then (do
      i ← as_index read
      d ← load mem i (size - read)
      d' ← load mem 0 (add32 (sub32 n size) read)
      some (add32 read (sub32 n size), d ++ d'))
    else some (read, [])

-- A `size_t` made of an int.
abbrev pub sext64 : ℕ → ℕ
sext64 n = if ltb n half_word then n else n + (word * word - word)

unfoldable pub dlt_buffer_check_size : DltBuffer → ℕ → DltReturnValue
dlt_buffer_check_size b needed =
    if ltb b.max_size ((b.size + sizeof_buffer_head + sext64 needed) % (word * word))
    then return_error
    else return_ok

unfoldable pub dlt_buffer_reset : DltBuffer → Option (DltReturnValue × DltBuffer)
dlt_buffer_reset b = do
  s ← b.shm
  m ← store s.mem 0 (replicate b.size 0)
  some (return_ok, record b { shm = some (empty_shm m) })

unfoldable pub dlt_buffer_init_static_server :
    DltBuffer → Shm → ℕ → Option (DltReturnValue × DltBuffer)
dlt_buffer_init_static_server b ptr size = do
  m ← store ptr.mem 0 (replicate (sub32 size sizeof_buffer_head) 0)
  some (
    return_ok,
    record {
      shm = some (empty_shm m);
      size = sub32 size sizeof_buffer_head;
      min_size = size;
      max_size = size;
      step_size = 0;
    },
  )

unfoldable pub dlt_buffer_init_static_client : DltBuffer → Shm → ℕ → DltReturnValue × DltBuffer
dlt_buffer_init_static_client b ptr size = (
  return_ok,
  record {
    shm = some ptr;
    size = sub32 size sizeof_buffer_head;
    min_size = size;
    max_size = size;
    step_size = 0;
  },
)

unfoldable pub dlt_buffer_free_static : DltBuffer → DltReturnValue
dlt_buffer_free_static b = elim b.shm [ none ↦ return_error | some s ↦ return_ok ]

unfoldable pub dlt_buffer_free_dynamic : DltBuffer → DltReturnValue × DltBuffer
dlt_buffer_free_dynamic b = elim b.shm [
  | none ↦ (return_error, b)
  | some s ↦ (return_ok, record b { shm = none })
]

unfoldable pub dlt_buffer_get_total_size : DltBuffer → ℕ
dlt_buffer_get_total_size b = b.max_size

-- The distance from `read` to `write`, an int.
abbrev pub used_size : ℕ → Shm → ℕ
used_size size s =
    if slt32 s.read s.write then sub32 s.write s.read else add32 (sub32 size s.read) s.write

unfoldable pub dlt_buffer_get_used_size : DltBuffer → ℕ
dlt_buffer_get_used_size b = elim b.shm [
  | none ↦ 0
  | some s ↦ if s.count == 0 then 0 else used_size b.size s
]

unfoldable pub dlt_buffer_get_message_count : DltBuffer → ℕ
dlt_buffer_get_message_count b = elim b.shm [ none ↦ 0 | some s ↦ s.count ]

-- The copy of the data to the front of a larger block.
unfoldable pub grow : DltBuffer → Shm → List ℕ → Option (DltReturnValue × DltBuffer)
grow b s fresh =
    if slt32 s.read s.write
    then (do
      r ← as_index s.read
      d ← load s.mem r (sub32 s.write s.read)
      m ← store fresh 0 d
      some (return_ok, resized m (sub32 s.write s.read)))
    else (do
      r ← as_index s.read
      w ← as_index s.write
      d ← load s.mem r (sub32 b.size s.read)
      m ← store fresh 0 d
      d' ← load s.mem 0 w
      m' ← store m (sub32 b.size s.read) d'
      some (return_ok, resized m' (sub32 (add32 b.size s.write) s.read)))
  where
    resized : List ℕ → ℕ → DltBuffer
    resized m write = record b {
      shm = some (record { write = write; read = 0; count = s.count; mem = m });
      size = add32 b.size b.step_size;
    }

module _ (a : Allocator) where
  open a use {malloc}

  -- The parameters are stored before malloc is called, and the header before the size is checked
  -- against it.
  unfoldable pub dlt_buffer_init_dynamic :
      DltBuffer → ℕ → ℕ → ℕ → Option (DltReturnValue × DltBuffer)
  dlt_buffer_init_dynamic b min_size max_size step_size =
      if min_size == 0 || max_size == 0 || step_size == 0
      then some (wrong_parameter, b)
      else if ltb max_size min_size
      then some (wrong_parameter, b)
      else if ltb max_size step_size
      then some (wrong_parameter, b)
      else elim (malloc min_size) [
        | none ↦ some (
          return_error,
          record {
            shm = none;
            size = b.size;
            min_size = min_size;
            max_size = max_size;
            step_size = step_size;
          },
        )
        | some block ↦ do
          guard (leb sizeof_buffer_head (length block))
          if ltb min_size sizeof_buffer_head
              then some (wrong_parameter, started (drop sizeof_buffer_head block) b.size)
              else (do
                m ←
                    store (drop sizeof_buffer_head block) 0
                      (replicate (sub32 min_size sizeof_buffer_head) 0)
                some (return_ok, started m (sub32 min_size sizeof_buffer_head)))
      ]
    where
      started : List ℕ → ℕ → DltBuffer
      started m size = record {
        shm = some (empty_shm m);
        size = size;
        min_size = min_size;
        max_size = max_size;
        step_size = step_size;
      }

  unfoldable pub dlt_buffer_increase_size : DltBuffer → Option (DltReturnValue × DltBuffer)
  unfolding grow
  dlt_buffer_increase_size b =
      if b.step_size == 0
      then some (return_error, b)
      else if ltb b.max_size (b.size + sizeof_buffer_head + b.step_size)
      then some (return_error, b)
      else elim (malloc (b.size + sizeof_buffer_head + b.step_size)) [
        | none ↦ some (return_error, b)
        | some block ↦ b.shm >>= λ s. grow b s (drop sizeof_buffer_head block)
      ]

  unfoldable pub dlt_buffer_minimize_size : DltBuffer → Option (DltReturnValue × DltBuffer)
  dlt_buffer_minimize_size b =
      if b.size + sizeof_buffer_head == b.min_size
      then some (return_ok, b)
      else elim (malloc b.min_size) [
        | none ↦ some (return_error, b)
        | some block ↦ do
          guard (leb sizeof_buffer_head (length block))
          m ←
              store (drop sizeof_buffer_head block) 0
                (replicate (sub32 b.min_size sizeof_buffer_head) 0)
          some (
            return_ok,
            record b { shm = some (empty_shm m); size = sub32 b.min_size sizeof_buffer_head },
          )
      ]
