-- ===== src/Receiver.antt =====
-- Receivers of shared/dlt_common.c: `dlt_receiver_*`, which collect received bytes in a buffer and
-- keep what is not used for the next call.
-- `buffer` holds the block that the pointer of that name points to; a block that several receivers
-- share is put into the receiver before each call. `buf` is an offset into the block. The counts are
-- 32-bit patterns. The address of a UDP peer and `free` leave no trace. `none` is undefined behaviour.
pub mod Stream
pub mod Rounds
pub mod Shared
pub mod Get
mod Tests
use lr.Base.{
  ℕ, ◌+◌, ◌-◌, ◌%◌, ◌≤◌, Bool, true, false, not, ◌&&◌, ◌||◌, Option, none, some, List, ◌==◌, length,
  replicate, if◌then◌else◌, ◌>>=◌, slt32, add32, sub32, word, leb, DltReturnValue, return_ok,
  return_error, wrong_parameter,
}
use lr.Memory.{Allocator, load, store}

pub data DltReceiverType : Type 0 where
  receive_socket receive_udp_socket receive_fd : DltReceiverType

pub record DltReceiver : Type 0 where
  pub last_bytes_rcvd : ℕ
  pub bytes_rcvd : ℕ
  pub total_bytes_rcvd : ℕ
  pub buffer : Option (List ℕ)
  pub buf : Option ℕ
  pub backup_buf : Option (List ℕ)
  pub fd : ℕ
  pub type : DltReceiverType
  pub buffersize : ℕ

-- What the code relies on of recv, read and recvfrom: at most as many bytes as asked for. An answer
-- of 0 or below is no bytes.
pub record Source : Type 0 where
  pub recv : DltReceiverType → ℕ → ℕ → List ℕ
  pub length-recv : (t : DltReceiverType) (fd n : ℕ) → length (recv t fd n) ≤ n

-- calloc(1, n)
abbrev pub calloc : Allocator → ℕ → Option (List ℕ)
calloc a n = a.malloc n >>= λ m. some (replicate n 0)

-- DLT_RECEIVE_BUFSIZE
abbrev pub receive_bufsize : ℕ
receive_bufsize = 65535

-- A buffer of another size is given back.
abbrev pub kept_buffer : DltReceiver → ℕ → Option (List ℕ)
kept_buffer r buffersize = if buffersize == r.buffersize then r.buffer else none

unfoldable pub dlt_receiver_init :
    Allocator → DltReceiver → ℕ → DltReceiverType → ℕ → DltReturnValue × DltReceiver
dlt_receiver_init a r fd type buffersize = elim (kept_buffer r buffersize) [
  | some block ↦ (return_ok, record r { fd = fd; type = type; buffer = some block; buf = some 0 })
  | none ↦
      let fresh : DltReceiver = record r {
        fd = fd;
        type = type;
        last_bytes_rcvd = 0;
        bytes_rcvd = 0;
        total_bytes_rcvd = 0;
        buf = none;
        backup_buf = none;
        buffer = calloc a buffersize;
        buffersize = buffersize;
      } in
      elim (calloc a buffersize) [
        | none ↦ (return_error, fresh)
        | some block ↦ (return_ok, record fresh { buf = some 0 })
      ]
]

-- The block that all receivers of applications share, given or allocated.
abbrev pub global_block : Allocator → Option (List ℕ) → Option (List ℕ)
global_block a none = a.malloc receive_bufsize
global_block a (some block) = some block

-- With the shared block after the call.
unfoldable pub dlt_receiver_init_global_buffer :
    Allocator
    → DltReceiver
    → ℕ
    → DltReceiverType
    → Option (List ℕ)
    → DltReturnValue × DltReceiver × Option (List ℕ)
dlt_receiver_init_global_buffer a r fd type shared = elim (global_block a shared) [
  | none ↦ (return_error, r, none)
  | some block ↦ (
    return_ok,
    record {
      last_bytes_rcvd = 0;
      bytes_rcvd = 0;
      total_bytes_rcvd = 0;
      buffersize = receive_bufsize;
      fd = fd;
      type = type;
      buffer = some block;
      backup_buf = none;
      buf = some 0;
    },
    some block,
  )
]

unfoldable pub dlt_receiver_free : DltReceiver → DltReturnValue × DltReceiver
dlt_receiver_free r = (return_ok, record r { buffer = none; buf = none; backup_buf = none })

unfoldable pub dlt_receiver_free_global_buffer : DltReceiver → DltReturnValue × DltReceiver
dlt_receiver_free_global_buffer r =
    (return_ok, record r { buffer = none; buf = none; backup_buf = none })

-- The bytes kept from the call before come back to the front of the block: the block, and the backup
-- that is left.
unfoldable pub restore_backup : List ℕ → ℕ → Option (List ℕ) → Option (List ℕ × Option (List ℕ))
restore_backup block last none = some (block, none)
restore_backup block last (some backup) =
    if last == 0
    then some (block, some backup)
    else (do kept ← load backup 0 last; block1 ← store block 0 kept; some (block1, none))

-- Received bytes are counted; none at all is an answer of 0.
unfoldable pub count_received : DltReceiver → ℕ → ℕ → ℕ × DltReceiver
count_received r last n = if n == 0 then (0, record r { bytes_rcvd = 0 }) else (
  add32 n last,
  record r { total_bytes_rcvd = add32 r.total_bytes_rcvd n; bytes_rcvd = add32 n last },
)

-- The return value -1, as a pattern.
abbrev pub minus_one : ℕ
minus_one = word - 1

unfoldable pub dlt_receiver_receive : Source → DltReceiver → Option (ℕ × DltReceiver)
dlt_receiver_receive src r = elim r.buffer [
  | none ↦ some (minus_one, r)
  | some block ↦ do
    (block1, backup) ← restore_backup block r.bytes_rcvd r.backup_buf
    let got = src.recv r.type r.fd (sub32 r.buffersize r.bytes_rcvd)
    block2 ← store block1 r.bytes_rcvd got
    some (
        count_received
          (record r {
            buf = some 0;
            last_bytes_rcvd = r.bytes_rcvd;
            backup_buf = backup;
            buffer = some block2;
          })
          r.bytes_rcvd (length got))
]

-- The signed `a ≤ b`.
abbrev pub sle32 : ℕ → ℕ → Bool
sle32 a b = not (slt32 b a)

unfoldable pub dlt_receiver_remove : DltReceiver → ℕ → DltReturnValue × DltReceiver
dlt_receiver_remove r size = elim r.buf [
  | none ↦ (return_error, r)
  | some p ↦
      if slt32 r.bytes_rcvd size || sle32 size 0
      then (wrong_parameter, record r { buf = some (p + r.bytes_rcvd); bytes_rcvd = 0 })
      else (return_ok, record r { bytes_rcvd = sub32 r.bytes_rcvd size; buf = some (p + size) })
]

-- The copy of the unused bytes in a block of its own.
unfoldable pub make_backup : Allocator → List ℕ → ℕ → ℕ → Option (Option (List ℕ))
make_backup a block p n = elim (calloc a (n + 1)) [
  | none ↦ some none
  | some backup ↦ do d ← load block p n; backup1 ← store backup 0 d; some (some backup1)
]

unfoldable pub move_bytes :
    Allocator → DltReceiver → Option (List ℕ) → Option ℕ → Option (DltReturnValue × DltReceiver)
move_bytes a r none buf = some (return_error, r)
move_bytes a r (some block) none = some (return_error, r)
move_bytes a r (some block) (some p) =
    if not (p == 0) && not (r.bytes_rcvd == 0)
    then (do
      backup ← make_backup a block p r.bytes_rcvd
      some (return_ok, record r { backup_buf = backup }))
    else some (return_ok, r)

unfoldable pub dlt_receiver_move_to_begin :
    Allocator → DltReceiver → Option (DltReturnValue × DltReceiver)
unfolding move_bytes
dlt_receiver_move_to_begin a r = move_bytes a r r.buffer r.buf

-- What a check returns: an error, or the bytes copied to the destination, `to_get` of them.
pub data Checked : Type 0 where
  refused : DltReturnValue → Checked
  copied : List ℕ → Checked

-- sizeof(DltUserHeader) where the flag DLT_RCV_SKIP_HEADER is set
abbrev pub skipped : Bool → ℕ
skipped skip_header = if skip_header then 8 else 0

-- The flags are Booleans, and the destination is not null. The pointers into the block are read once.
unfoldable pub check_bytes :
    DltReceiver → ℕ → Bool → Bool → Option ℕ → Option (List ℕ) → Option (Checked × DltReceiver)
check_bytes r to_get skip_header remove none buffer = some (refused wrong_parameter, r)
check_bytes r to_get skip_header remove (some p) buffer =
    let min_size : ℕ = (to_get + skipped skip_header) % word in
    if slt32 r.bytes_rcvd min_size
    then some (refused wrong_parameter, r)
    else buffer >>= λ block. load block (p + skipped skip_header) to_get >>= λ d.
        if remove
        then (let (result, r1) = dlt_receiver_remove r min_size in
            elim result [ return_ok ↦ some (copied d, r1) | _ ↦ some (refused return_error, r1) ])
        else some (copied d, r)

unfoldable pub dlt_receiver_check_and_get :
    DltReceiver → ℕ → Bool → Bool → Option (Checked × DltReceiver)
unfolding check_bytes
dlt_receiver_check_and_get r to_get skip_header remove =
    check_bytes r to_get skip_header remove r.buf r.buffer
