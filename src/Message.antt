-- ===== src/Message.antt =====
-- Messages of shared/dlt_common.c: `DltMessage`, its flags, and the extra parameters of the standard
-- header. `Message.Read` takes a message out of a buffer of received bytes.
-- The header buffer lays out the storage header (16 bytes), the standard header (4), the extra
-- parameters (up to 12) and the extended header (10), 42 bytes in all; pointers into it are offsets.
-- The host is little-endian. `none` is undefined behaviour.
pub mod Read
pub mod Extra
pub mod Storage
mod Tests
use lr.Base.{
  ℕ, ◌+◌, ◌*◌, ◌/◌, ◌%◌, Bool, true, false, Option, none, some, List, get_or, ◌==◌, if◌then◌else◌,
  ◌>>=◌, DltReturnValue, return_ok, int_bytes, int_of_bytes, swap32,
}
use lr.Memory.{load, store}

abbrev pub dlt_id_size : ℕ
dlt_id_size = 4

-- sizeof(DltStorageHeader), sizeof(DltStandardHeader), sizeof(DltExtendedHeader)
abbrev pub sizeof_storage_header : ℕ
sizeof_storage_header = 16

abbrev pub sizeof_standard_header : ℕ
sizeof_standard_header = 4

abbrev pub sizeof_extended_header : ℕ
sizeof_extended_header = 10

-- Where the extra parameters begin in the header buffer.
abbrev pub extra_start : ℕ
extra_start = sizeof_storage_header + sizeof_standard_header

pub record DltStandardHeaderExtra : Type 0 where
  pub ecu : List ℕ
  pub seid : ℕ
  pub tmsp : ℕ

-- The sizes and the offset are ints, as 32-bit patterns.
pub record DltMessage : Type 0 where
  pub found_serialheader : Bool
  pub resync_offset : ℕ
  pub headersize : ℕ
  pub datasize : ℕ
  pub headerbuffer : List ℕ
  pub databuffer : Option (List ℕ)
  pub databuffersize : ℕ
  pub storageheader : Option ℕ
  pub standardheader : Option ℕ
  pub headerextra : DltStandardHeaderExtra
  pub extendedheader : Option ℕ

unfoldable pub dlt_message_init : DltMessage → DltReturnValue × DltMessage
dlt_message_init msg = (
  return_ok,
  record msg {
    headersize = 0;
    datasize = 0;
    databuffer = none;
    databuffersize = 0;
    storageheader = none;
    standardheader = none;
    extendedheader = none;
    found_serialheader = false;
  },
)

unfoldable pub dlt_message_free : DltMessage → DltReturnValue × DltMessage
dlt_message_free msg = elim msg.databuffer [
  | none ↦ (return_ok, msg)
  | some d ↦ (return_ok, record msg { databuffer = none; databuffersize = 0 })
]

-- DLT_IS_HTYP_UEH, DLT_IS_HTYP_WEID, DLT_IS_HTYP_WSID, DLT_IS_HTYP_WTMS
abbrev pub is_htyp_ueh : ℕ → Bool
is_htyp_ueh htyp = htyp % 2 == 1

abbrev pub is_htyp_weid : ℕ → Bool
is_htyp_weid htyp = htyp / 4 % 2 == 1

abbrev pub is_htyp_wsid : ℕ → Bool
is_htyp_wsid htyp = htyp / 8 % 2 == 1

abbrev pub is_htyp_wtms : ℕ → Bool
is_htyp_wtms htyp = htyp / 16 % 2 == 1

-- `flag ? size : 0`
abbrev pub if_size : Bool → ℕ → ℕ
if_size flag size = if flag then size else 0

-- DLT_STANDARD_HEADER_EXTRA_SIZE
unfoldable pub standard_header_extra_size : ℕ → ℕ
standard_header_extra_size htyp =
    if_size (is_htyp_weid htyp) 4 + if_size (is_htyp_wsid htyp) 4 + if_size (is_htyp_wtms htyp) 4

-- `msg->standardheader->htyp`
unfoldable pub htyp_of : DltMessage → Option ℕ
htyp_of msg = msg.standardheader >>= λ i. some (get_or msg.headerbuffer i 0)

-- Where the session number and the timestamp stand behind the parameters before them.
abbrev pub seid_at : ℕ → ℕ
seid_at htyp = extra_start + if_size (is_htyp_weid htyp) 4

abbrev pub tmsp_at : ℕ → ℕ
tmsp_at htyp = extra_start + (if_size (is_htyp_weid htyp) 4 + if_size (is_htyp_wsid htyp) 4)

-- One parameter is copied if its flag is set.
get_ecu : ℕ → DltMessage → Option DltMessage
get_ecu htyp msg =
    if is_htyp_weid htyp
    then (do
      d ← load msg.headerbuffer extra_start dlt_id_size
      some (record msg { headerextra = record (msg.headerextra) { ecu = d } }))
    else some msg

get_seid : ℕ → DltMessage → Option DltMessage
get_seid htyp msg =
    if is_htyp_wsid htyp
    then (do
      d ← load msg.headerbuffer (seid_at htyp) 4
      some (record msg {
        headerextra = record (msg.headerextra) { seid = swap32 (int_of_bytes d 0) };
      }))
    else some msg

get_tmsp : ℕ → DltMessage → Option DltMessage
get_tmsp htyp msg =
    if is_htyp_wtms htyp
    then (do
      d ← load msg.headerbuffer (tmsp_at htyp) 4
      some (record msg {
        headerextra = record (msg.headerextra) { tmsp = swap32 (int_of_bytes d 0) };
      }))
    else some msg

unfoldable pub dlt_message_get_extraparameters : DltMessage → Option (DltReturnValue × DltMessage)
unfolding get_ecu get_seid get_tmsp
dlt_message_get_extraparameters msg = do
  htyp ← htyp_of msg
  m1 ← get_ecu htyp msg
  m2 ← get_seid htyp m1
  m3 ← get_tmsp htyp m2
  some (return_ok, m3)

set_ecu : ℕ → DltMessage → Option DltMessage
set_ecu htyp msg =
    if is_htyp_weid htyp
    then (do
      hb ← store msg.headerbuffer extra_start msg.headerextra.ecu
      some (record msg { headerbuffer = hb }))
    else some msg

-- The number is put into network order where it stands, and stays so.
set_seid : ℕ → DltMessage → Option DltMessage
set_seid htyp msg =
    if is_htyp_wsid htyp
    then (do
      hb ← store msg.headerbuffer (seid_at htyp) (int_bytes (swap32 msg.headerextra.seid))
      some (record msg {
        headerbuffer = hb;
        headerextra = record (msg.headerextra) { seid = swap32 msg.headerextra.seid };
      }))
    else some msg

set_tmsp : ℕ → DltMessage → Option DltMessage
set_tmsp htyp msg =
    if is_htyp_wtms htyp
    then (do
      hb ← store msg.headerbuffer (tmsp_at htyp) (int_bytes (swap32 msg.headerextra.tmsp))
      some (record msg {
        headerbuffer = hb;
        headerextra = record (msg.headerextra) { tmsp = swap32 msg.headerextra.tmsp };
      }))
    else some msg

unfoldable pub dlt_message_set_extraparameters : DltMessage → Option (DltReturnValue × DltMessage)
unfolding set_ecu set_seid set_tmsp
dlt_message_set_extraparameters msg = do
  htyp ← htyp_of msg
  m1 ← set_ecu htyp msg
  m2 ← set_seid htyp m1
  m3 ← set_tmsp htyp m2
  some (return_ok, m3)
