-- ===== src/Message/Read/Whole.antt =====
-- The whole of `dlt_message_read`: the search for the serial header and the read behind it.
use lr.Base.{
  ℕ, zero, suc, ◌+◌, ◌*◌, ◌≤◌, ◌<◌, ◌≡◌, refl, ap, ◌∙◌, ◌⊎◌, inl, inr, Bool, true, false, Option,
  some, List, bytes_eq, drop, arith, length, get_or, ltb, ◌==◌, Bool-cases, le→ltb, ne→==, leb,
  ltb→ge, ltb→lt,
}
use lr.Memory.{slice, overwrite, load-in, store-in, length-overwrite, length-slice, Allocator}
use lr.Memory.Bytes.{
  get_or-overwrite_in, get_or-slice, slice-overwrite, slice-slice, AllBytes, AllBytes-get_or,
  AllBytes-drop,
}
use lr.Message.{DltMessage, if_size}
use lr.Message.Read.{
  MessageError, message_ok, message_unknown, message_size, message_content, read_header,
  find_message, resync_from, is_serial, dlt_serial_header, dlt_message_read,
}
use lr.Message.Read.Parsed.{IsValid}
use lr.Message.Read.Branches.{Parsed, read_body-Parsed}

-- The type and the length field of a standard header.
abbrev pub type_in : List ℕ → ℕ
type_in rest = get_or rest 0 0

abbrev pub length_in : List ℕ → ℕ
length_in rest = 256 * get_or rest 2 0 + get_or rest 3 0

module _ (a : Allocator) (msg : DltMessage) (rest : List ℕ) (v : IsValid msg)
    (bytes : AllBytes rest) (has_head : 4 ≤ length rest) where
  abbrev hb : List ℕ
  hb = overwrite msg.headerbuffer 16 (slice rest 0 4)

  abbrev headed : DltMessage
  headed = record msg { headerbuffer = hb; storageheader = some 0; standardheader = some 16 }

  header_byte : (k : ℕ) → k < 4 → get_or hb (16 + k) 0 ≡ get_or rest k 0
  header_byte k h =
      get_or-overwrite_in (slice rest 0 4) msg.headerbuffer 16 k
        (omega (arith, length-slice rest 0 4)) (omega (arith, length-slice rest 0 4, v.header_len))
      ∙ get_or-slice rest 0 4 k h
      ∙ ap (λ j. get_or rest j 0) (omega arith)

  -- A read from the standard header on takes the type and the length from it.
  pub read_header-Parsed :
      Parsed a msg rest (type_in rest) (length_in rest) (read_header a msg rest)
  unfolding read_header
  read_header-Parsed = rw (le→ltb (length rest) 4 has_head) (
      rw (load-in rest 0 4 has_head) (
        rw
          (store-in msg.headerbuffer 16 (slice rest 0 4)
            (omega (arith, length-slice rest 0 4, v.header_len)))
          (rw
            (header_byte 0 (omega arith), header_byte 2 (omega arith), header_byte 3 (omega arith))
            (read_body-Parsed a headed (type_in rest) (length_in rest) rest
              (record {
                header_len = length-overwrite msg.headerbuffer 16 (slice rest 0 4) ∙ v.header_len;
                data_fits = v.data_fits;
              })
              refl (header_byte 0 (omega arith)) copied has_head
              (omega (arith, AllBytes-get_or rest 2 bytes, AllBytes-get_or rest 3 bytes))))))
    where
      copied : slice hb 16 4 ≡ slice rest 0 4
      copied =
          ap (λ k. slice hb k 4) (omega arith)
          ∙ slice-overwrite (slice rest 0 4) msg.headerbuffer 16 0 4
              (omega (arith, length-slice rest 0 4))
              (omega (arith, length-slice rest 0 4, v.header_len))
          ∙ slice-slice rest 0 4 0 4 (omega arith)

-- The four bytes at `i` are those of a serial header.
abbrev pub serial : List ℕ → ℕ → Bool
serial buffer i = bytes_eq (slice buffer i 4) dlt_serial_header

-- A test inside the buffer.
is_serial-in :
    (buffer : List ℕ) (i : ℕ) → i + 4 ≤ length buffer → is_serial buffer i ≡ some (serial buffer i)
unfolding is_serial
is_serial-in buffer i h = rw (load-in buffer i 4 h) refl

-- No serial header stands at `n` positions from `i` on.
abbrev pub NoSerial : List ℕ → ℕ → ℕ → Type 0
NoSerial buffer i zero = Unit {0}
NoSerial buffer i (suc n) = (serial buffer i ≡ false) × NoSerial buffer (i + 1) n

-- Where the search from `i` on stops: at the first serial header, or where fewer than 4 bytes are
-- left.
abbrev pub Stops : List ℕ → ℕ → ℕ × Bool → Type 0
Stops buffer i (offset, found) =
    (n : ℕ) × (offset ≡ i + n)
    × NoSerial buffer i n
    × (((found ≡ true) × (serial buffer offset ≡ true) × (offset + 4 ≤ length buffer))
        ⊎ ((found ≡ false) × (offset + 3 ≡ length buffer)))

resync_from-Stops :
    (fuel : ℕ) (buffer : List ℕ) (i : ℕ)
    → i + 4 ≤ length buffer
    → length buffer < i + 4 + fuel
    → (r : ℕ × Bool) × (resync_from fuel buffer i ≡ some r) × Stops buffer i r
unfolding resync_from
resync_from-Stops zero buffer i h l = absurd (omega arith)
resync_from-Stops (suc fuel) buffer i h l = elim (Bool-cases (serial buffer i)) [
  | inl e ↦ (
    (i, true),
    rw (is_serial-in buffer i h, e, resync_from) refl,
    (0, omega arith, tt, inl (refl, e, h)),
  )
  | inr e ↦ elim (Bool-cases (leb (4 + (i + 1)) (length buffer))) [
    | inl more ↦
        let (r, there, (n, o, none_before, end)) =
          resync_from-Stops fuel buffer (i + 1) (ground arith) (omega arith) in
        (
          r,
          rw (is_serial-in buffer i h, e, resync_from) (rw (more, resync_from) there),
          (suc n, omega arith, (e, none_before), end),
        )
    | inr last ↦ (
      (i + 1, false),
      rw (is_serial-in buffer i h, e, resync_from) (rw (last, resync_from) refl),
      (1, omega arith, (e, tt), inr (refl, ground arith)),
    )
  ]
]

-- With a buffer of 4 bytes or more, the search never reads past it and stops within its fuel, at the first serial header of
-- the buffer, or 3 bytes before its end if there is none.
pub resync-Stops :
    (buffer : List ℕ)
    → 4 ≤ length buffer
    → (r : ℕ × Bool) × (resync_from (length buffer) buffer 0 ≡ some r) × Stops buffer 0 r
resync-Stops buffer h = resync_from-Stops (length buffer) buffer 0 (omega arith) (omega arith)

-- The search ends, and what it leaves are bytes.
find_message-AllBytes :
    (resync : Bool) (buffer : List ℕ)
    → 4 ≤ length buffer
    → AllBytes buffer
    → (w : Bool × ℕ × List ℕ) × (find_message resync buffer ≡ some w) × AllBytes w.2
unfolding find_message
find_message-AllBytes resync buffer h bytes = elim (Bool-cases (serial buffer 0)) [
  | inl e ↦
      ((true, 0, drop 4 buffer), rw (is_serial-in buffer 0 h, e) refl, AllBytes-drop 4 buffer bytes)
  | inr e ↦ elim (Bool-cases resync) [
    | inl f ↦
        let ((offset, found), there, _) = resync-Stops buffer h in
        (
          (found, offset, drop (if_size found 4 + offset) buffer),
          rw (is_serial-in buffer 0 h, e, f) (rw there refl),
          AllBytes-drop _ buffer bytes,
        )
    | inr f ↦ ((false, 0, buffer), rw (is_serial-in buffer 0 h, e, f) refl, bytes)
  ]
]

-- The message with the flag and the offset of the search.
abbrev pub located : DltMessage → Bool × ℕ × List ℕ → DltMessage
located msg (found, offset, rest) = record msg {
  found_serialheader = found;
  resync_offset = offset;
}

-- How a read of a buffer of 4 bytes or more ends, by what the search finds.
abbrev pub Reads :
    Allocator → DltMessage → Bool × ℕ × List ℕ → Option (MessageError × DltMessage) → Type 0
Reads a msg (found, offset, rest) r =
    ((length rest < 4) × (r ≡ some (message_size, located msg (found, offset, rest))))
    ⊎ ((4 ≤ length rest)
        × Parsed a (located msg (found, offset, rest)) rest (type_in rest) (length_in rest) r)

read_found :
    (a : Allocator) (msg : DltMessage) (rest : List ℕ)
    → IsValid msg
    → AllBytes rest
    → ((length rest < 4) × (read_header a msg rest ≡ some (message_size, msg)))
      ⊎ ((4 ≤ length rest)
          × Parsed a msg rest (type_in rest) (length_in rest) (read_header a msg rest))
unfolding read_header
read_found a msg rest v bytes = elim (Bool-cases (ltb (length rest) 4)) [
  | inl e ↦ inl (ltb→lt (length rest) 4 e, rw e)
  | inr e ↦
      inr
        (ltb→ge (length rest) 4 e, read_header-Parsed a msg rest v bytes (ltb→ge (length rest) 4 e))
]

-- A read of a buffer of 4 bytes or more, into a sound message, works on what the search leaves. With
-- fewer than 4 bytes left it reports the size. Else it ends by the type and the length that stand
-- there: a length below the size of the headers is refused, one beyond the bytes left is reported as
-- the size, a failed allocation as unknown, and otherwise headers, extra parameters and payload are
-- those of the buffer.
pub dlt_message_read-Reads :
    (a : Allocator) (msg : DltMessage) (buffer : List ℕ) (resync : Bool)
    → IsValid msg
    → AllBytes buffer
    → 4 ≤ length buffer
    → (w : Bool × ℕ × List ℕ) × (find_message resync buffer ≡ some w)
      × Reads a msg w (dlt_message_read a msg buffer resync)
unfolding dlt_message_read
dlt_message_read-Reads a msg buffer resync v bytes h =
    let (w, found, rest_bytes) = find_message-AllBytes resync buffer h bytes in
    (
      w,
      found,
      rw (ne→== (length buffer) 0 (omega arith)) (
          rw (le→ltb (length buffer) 4 h) (
            rw found (
              read_found a (located msg w) w.2
                (record { header_len = v.header_len; data_fits = v.data_fits }) rest_bytes))),
    )

-- Whatever the buffer, a read never leaves the memory, neither in the search nor behind it, and keeps
-- the message sound.
pub dlt_message_read-IsValid :
    (a : Allocator) (msg : DltMessage) (buffer : List ℕ) (resync : Bool)
    → IsValid msg
    → AllBytes buffer
    → (r : MessageError) × (m : DltMessage) × (dlt_message_read a msg buffer resync ≡ some (r, m))
      × IsValid m
unfolding dlt_message_read
dlt_message_read-IsValid a msg buffer resync v bytes = elim (Bool-cases (ltb (length buffer) 4)) [
  | inl short ↦ elim (Bool-cases (length buffer == 0)) [
    | inl e ↦ (message_unknown, msg, rw e, v)
    | inr e ↦ (
      message_size,
      record msg { resync_offset = 0 },
      rw e (rw short),
      record { header_len = v.header_len; data_fits = v.data_fits },
    )
  ]
  | inr long ↦
      let (w, _, how) =
        dlt_message_read-Reads a msg buffer resync v bytes (ltb→ge (length buffer) 4 long) in
      elim how [
        | inl (_, e) ↦ (
          message_size,
          located msg w,
          e,
          record { header_len = v.header_len; data_fits = v.data_fits },
        )
        | inr (_, (m, inl (e, _, vm))) ↦ (message_content, m, e, vm)
        | inr (_, (m, inr (inl (e, _, _, vm)))) ↦ (message_size, m, e, vm)
        | inr (_, (m, inr (inr (inl (e, _, _, _, vm))))) ↦ (message_unknown, m, e, vm)
        | inr (_, (m, inr (inr (inr (e, _, _, i))))) ↦ (message_ok, m, e, i.valid)
      ]
]
