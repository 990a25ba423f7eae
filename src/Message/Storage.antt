-- ===== src/Message/Storage.antt =====
-- The storage header of shared/dlt_common.c, `dlt_set_storageheader` and `dlt_check_storageheader`, and
-- `dlt_check_rcv_data_size`. The time of day is given with the call.
use lr.Base.{
  ℕ, ◌%◌, List, [], ◌∷◌, bytes_eq, slt32, word, if◌then◌else◌, DltReturnValue, return_ok,
  return_error, return_true,
}
use lr.Filter.{dlt_set_id}

pub record DltStorageHeader : Type 0 where
  pub pattern : List ℕ
  pub seconds : ℕ
  pub microseconds : ℕ
  pub ecu : List ℕ

abbrev pub dlt_pattern : List ℕ
dlt_pattern = b'D' ∷ b'L' ∷ b'T' ∷ 1 ∷ []

-- Seconds and microseconds are cut to 32 bits.
unfoldable pub dlt_set_storageheader :
    ℕ → ℕ → DltStorageHeader → List ℕ → DltReturnValue × DltStorageHeader
dlt_set_storageheader seconds microseconds header ecu = (
  return_ok,
  record {
    pattern = dlt_pattern;
    seconds = seconds % word;
    microseconds = microseconds % word;
    ecu = dlt_set_id ecu;
  },
)

unfoldable pub dlt_check_storageheader : DltStorageHeader → DltReturnValue
dlt_check_storageheader header =
    if bytes_eq header.pattern dlt_pattern then return_true else return_ok

unfoldable pub dlt_check_rcv_data_size : ℕ → ℕ → DltReturnValue
dlt_check_rcv_data_size received required =
    if slt32 received required then return_error else return_ok
