-- ===== src/Message/Read.antt =====
-- `dlt_message_read`: a message is taken out of a buffer of received bytes, with its serial header
-- looked for if need be.
pub mod Parsed
pub mod Branches
pub mod Whole
use lr.Base.{
  ℕ, zero, suc, ◌+◌, ◌*◌, ◌-◌, Bool, true, false, ◌||◌, Option, none, some, List, [], ◌∷◌, length,
  get_or, drop, ltb, leb, ◌==◌, if◌then◌else◌, ◌>>=◌, bytes_eq, word, half_word, sub32,
}
use lr.Memory.{slice, load, store, Allocator}
use lr.Message.{
  DltMessage, sizeof_storage_header, sizeof_standard_header, sizeof_extended_header, extra_start,
  is_htyp_ueh, if_size, standard_header_extra_size, dlt_message_get_extraparameters,
}

-- DLT_MESSAGE_ERROR_OK, DLT_MESSAGE_ERROR_UNKNOWN, DLT_MESSAGE_ERROR_SIZE, DLT_MESSAGE_ERROR_CONTENT
pub data MessageError : Type 0 where
  message_ok message_unknown message_size message_content : MessageError

abbrev pub dlt_serial_header : List ℕ
dlt_serial_header = b'D' ∷ b'L' ∷ b'S' ∷ 1 ∷ []

-- The memcmp with the serial header; `none` is a read past the buffer.
unfoldable pub is_serial : List ℕ → ℕ → Option Bool
is_serial buffer i = load buffer i 4 >>= λ b. some (bytes_eq b dlt_serial_header)

-- The do-while loop of the resync: the offset where it stops, and whether a serial header is there.
-- Every round but the last leaves 4 bytes or more behind the offset.
unfoldable pub resync_from : ℕ → List ℕ → ℕ → Option (ℕ × Bool)
resync_from zero buffer offset = none
resync_from (suc fuel) buffer offset = elim (is_serial buffer offset) [
  | none ↦ none
  | some true ↦ some (offset, true)
  | some false ↦ elim (leb (4 + (offset + 1)) (length buffer)) [
    | true ↦ resync_from fuel buffer (offset + 1)
    | false ↦ some (offset + 1, false)
  ]
]

-- The buffer from the standard header on, with the flag and the offset that the message keeps.
unfoldable pub find_message : Bool → List ℕ → Option (Bool × ℕ × List ℕ)
find_message resync buffer = do
  here ← is_serial buffer 0
  if here
      then some (true, 0, drop 4 buffer)
      else if resync
      then (do
        (offset, found) ← resync_from (length buffer) buffer 0
        some (found, offset, drop (if_size found 4 + offset) buffer))
      else some (false, 0, buffer)

-- The payload, into a data buffer that is large enough.
unfoldable pub read_payload : DltMessage → List ℕ → Option (MessageError × DltMessage)
read_payload msg buffer = elim msg.databuffer [
  | none ↦ some (message_unknown, msg)
  | some d ↦ do
    p ← load buffer (msg.headersize - sizeof_storage_header) msg.datasize
    d' ← store d 0 p
    some (message_ok, record msg { databuffer = some d' })
]

unfoldable pub provide_databuffer : Allocator → DltMessage → DltMessage
provide_databuffer a msg = elim msg.databuffer [
  | none ↦ record msg { databuffer = a.malloc msg.datasize; databuffersize = msg.datasize }
  | some d ↦
      if ltb msg.databuffersize msg.datasize
      then record msg { databuffer = a.malloc msg.datasize; databuffersize = msg.datasize }
      else msg
]

-- The extra parameters and the extended header, where the standard header has any.
unfoldable pub read_extra : DltMessage → ℕ → ℕ → List ℕ → Option (Bool × DltMessage)
read_extra msg htyp extra_size buffer =
    if extra_size == 0
    then some (true, msg)
    else if ltb (length buffer) (msg.headersize - sizeof_storage_header)
    then some (false, msg)
    else (do
      e ← load buffer sizeof_standard_header extra_size
      hb ← store msg.headerbuffer extra_start e
      (r, m) ← dlt_message_get_extraparameters (record msg {
        headerbuffer = hb;
        extendedheader =
            if is_htyp_ueh htyp then some (extra_start + standard_header_extra_size htyp) else none;
      })
      some (true, m))

-- What the type and the length in the standard header give.
unfoldable pub read_body :
    Allocator → DltMessage → ℕ → ℕ → List ℕ → Option (MessageError × DltMessage)
read_body a msg htyp len buffer =
    let extra_size : ℕ =
      standard_header_extra_size htyp + if_size (is_htyp_ueh htyp) sizeof_extended_header in
    let headersize : ℕ = extra_start + extra_size in
    let m : DltMessage = record msg {
      headersize = headersize;
      datasize = sub32 (len + sizeof_storage_header) headersize;
    } in
    if ltb (len + sizeof_storage_header) headersize then some (message_content, m) else (do
      (fits, m') ← read_extra m htyp extra_size buffer
      if fits
          then (if ltb (length buffer) (m'.headersize - sizeof_storage_header + m'.datasize)
              then some (message_size, m')
              else read_payload (provide_databuffer a m') buffer)
          else some (message_size, m'))

-- The standard header; its length field is big-endian.
unfoldable pub read_header : Allocator → DltMessage → List ℕ → Option (MessageError × DltMessage)
read_header a msg buffer =
    if ltb (length buffer) sizeof_standard_header then some (message_size, msg) else (do
      h ← load buffer 0 sizeof_standard_header
      hb ← store msg.headerbuffer sizeof_storage_header h
      read_body a
          (record msg {
            headerbuffer = hb;
            storageheader = some 0;
            standardheader = some sizeof_storage_header;
          })
          (get_or hb 16 0) (256 * get_or hb 18 0 + get_or hb 19 0) buffer)

-- `length` is the length of the buffer.
unfoldable pub dlt_message_read :
    Allocator → DltMessage → List ℕ → Bool → Option (MessageError × DltMessage)
dlt_message_read a msg buffer resync =
    if length buffer == 0
    then some (message_unknown, msg)
    else if ltb (length buffer) 4
    then some (message_size, record msg { resync_offset = 0 })
    else (do
      (found, offset, rest) ← find_message resync buffer
      read_header a (record msg { found_serialheader = found; resync_offset = offset }) rest)
