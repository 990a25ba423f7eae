-- ===== src/Message/Tests.antt =====
-- Messages of shared/dlt_common.c read from concrete buffers.
use lr.Base.{Bool, ℕ, ◌≡◌, refl, true, false, some, none, List, [], ◌∷◌, arith, length, replicate}
use lr.Memory.{Allocator}
use lr.Memory.Bytes.{AllBytes}
use lr.Message.{DltMessage}
use lr.Message.Read.{MessageError, resync_from, find_message, dlt_message_read}
use lr.Message.Read.Parsed.{IsValid}
use lr.Message.Read.Whole.{
  Stops, resync-Stops, Reads, dlt_message_read-Reads, dlt_message_read-IsValid,
}

length-none : (n : ℕ) (m : List ℕ) → none ≡ some m → length m ≡ n
length-none n m e = absurd (cc)

-- Memory that is never given: the message fits the data buffer it has.
abbrev never : Allocator
never = record { malloc = λ n. none; length-malloc = length-none }

abbrev blank : DltMessage
blank = record {
  found_serialheader = false;
  resync_offset = 0;
  headersize = 0;
  datasize = 0;
  headerbuffer = replicate 42 0;
  databuffer = some (replicate 8 0);
  databuffersize = 8;
  storageheader = none;
  standardheader = none;
  headerextra = record { ecu = replicate 4 0; seid = 0; tmsp = 0 };
  extendedheader = none;
}

blank-IsValid : IsValid blank
blank-IsValid = record { header_len = refl; data_fits = omega arith }

-- Two stray bytes, a serial header, and a message with the payload 7, 8.
abbrev received : List ℕ
received = 1 ∷ 2 ∷ b'D' ∷ b'L' ∷ b'S' ∷ 1 ∷ 32 ∷ 0 ∷ 0 ∷ 6 ∷ 7 ∷ 8 ∷ []

received-AllBytes : AllBytes received
received-AllBytes = (
  omega arith,
  (
    omega arith,
    (
      omega arith,
      (
        omega arith,
        (
          omega arith,
          (
            omega arith,
            (
              omega arith,
              (omega arith, (omega arith, (omega arith, (omega arith, (omega arith, tt))))),
            ),
          ),
        ),
      ),
    ),
  ),
)

resync-Stops_example :
    (r : ℕ × Bool) × (resync_from (length received) received 0 ≡ some r) × Stops received 0 r
resync-Stops_example = resync-Stops received (omega arith)

dlt_message_read-Reads_example :
    (w : Bool × ℕ × List ℕ) × (find_message true received ≡ some w)
    × Reads never blank w (dlt_message_read never blank received true)
dlt_message_read-Reads_example =
    dlt_message_read-Reads never blank received true blank-IsValid received-AllBytes (omega arith)

dlt_message_read-IsValid_example :
    (r : MessageError) × (m : DltMessage) × (dlt_message_read never blank received true
      ≡ some (r, m))
    × IsValid m
dlt_message_read-IsValid_example =
    dlt_message_read-IsValid never blank received true blank-IsValid received-AllBytes
