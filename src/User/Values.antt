-- ===== src/User/Values.antt =====
-- The calls of lib/dlt_user.c for values of one type and for raw data.
use lr.Base.{
  ℕ, ◌+◌, true, false, not, Option, none, some, List, if◌then◌else◌, DltReturnValue, return_error,
}
use lr.User.{
  DltUser, DltContextData, VarInfo, le_bytes, write_generic_attr, write_generic_formatted,
  write_raw_internal,
}

-- What a call returns.
abbrev pub Answer : Type 0
Answer = Option (DltReturnValue × DltContextData)

-- DLT_TYPE_INFO_BOOL, SINT, UINT and FLOA, with DLT_TYLE_8BIT to DLT_TYLE_64BIT for the size
abbrev pub type_bool : ℕ
type_bool = 16

abbrev pub type_sint : ℕ
type_sint = 32

abbrev pub type_uint : ℕ
type_uint = 64

abbrev pub type_floa : ℕ
type_floa = 128

abbrev pub named : Option (List ℕ) → Option (List ℕ) → Option VarInfo
named name unit = some (record { name = name; unit = unit; with_unit = true })

unfoldable pub dlt_user_log_write_float32 : DltUser → DltContextData → ℕ → Answer
dlt_user_log_write_float32 user log value =
    write_generic_attr user log (le_bytes 4 value) (type_floa + 3) none

unfoldable pub dlt_user_log_write_float32_attr :
    DltUser → DltContextData → ℕ → Option (List ℕ) → Option (List ℕ) → Answer
dlt_user_log_write_float32_attr user log value name unit =
    write_generic_attr user log (le_bytes 4 value) (type_floa + 3) (named name unit)

unfoldable pub dlt_user_log_write_float64 : DltUser → DltContextData → ℕ → Answer
dlt_user_log_write_float64 user log value =
    write_generic_attr user log (le_bytes 8 value) (type_floa + 4) none

unfoldable pub dlt_user_log_write_float64_attr :
    DltUser → DltContextData → ℕ → Option (List ℕ) → Option (List ℕ) → Answer
dlt_user_log_write_float64_attr user log value name unit =
    write_generic_attr user log (le_bytes 8 value) (type_floa + 4) (named name unit)

unfoldable pub dlt_user_log_write_uint8 : DltUser → DltContextData → ℕ → Answer
dlt_user_log_write_uint8 user log value =
    write_generic_attr user log (le_bytes 1 value) (type_uint + 1) none

unfoldable pub dlt_user_log_write_uint8_attr :
    DltUser → DltContextData → ℕ → Option (List ℕ) → Option (List ℕ) → Answer
dlt_user_log_write_uint8_attr user log value name unit =
    write_generic_attr user log (le_bytes 1 value) (type_uint + 1) (named name unit)

unfoldable pub dlt_user_log_write_uint8_formatted : DltUser → DltContextData → ℕ → ℕ → Answer
dlt_user_log_write_uint8_formatted user log value format =
    write_generic_formatted user log (le_bytes 1 value) (type_uint + 1) format

unfoldable pub dlt_user_log_write_uint16 : DltUser → DltContextData → ℕ → Answer
dlt_user_log_write_uint16 user log value =
    write_generic_attr user log (le_bytes 2 value) (type_uint + 2) none

unfoldable pub dlt_user_log_write_uint16_attr :
    DltUser → DltContextData → ℕ → Option (List ℕ) → Option (List ℕ) → Answer
dlt_user_log_write_uint16_attr user log value name unit =
    write_generic_attr user log (le_bytes 2 value) (type_uint + 2) (named name unit)

unfoldable pub dlt_user_log_write_uint16_formatted : DltUser → DltContextData → ℕ → ℕ → Answer
dlt_user_log_write_uint16_formatted user log value format =
    write_generic_formatted user log (le_bytes 2 value) (type_uint + 2) format

unfoldable pub dlt_user_log_write_uint32 : DltUser → DltContextData → ℕ → Answer
dlt_user_log_write_uint32 user log value =
    write_generic_attr user log (le_bytes 4 value) (type_uint + 3) none

unfoldable pub dlt_user_log_write_uint32_attr :
    DltUser → DltContextData → ℕ → Option (List ℕ) → Option (List ℕ) → Answer
dlt_user_log_write_uint32_attr user log value name unit =
    write_generic_attr user log (le_bytes 4 value) (type_uint + 3) (named name unit)

unfoldable pub dlt_user_log_write_uint32_formatted : DltUser → DltContextData → ℕ → ℕ → Answer
dlt_user_log_write_uint32_formatted user log value format =
    write_generic_formatted user log (le_bytes 4 value) (type_uint + 3) format

unfoldable pub dlt_user_log_write_uint64 : DltUser → DltContextData → ℕ → Answer
dlt_user_log_write_uint64 user log value =
    write_generic_attr user log (le_bytes 8 value) (type_uint + 4) none

unfoldable pub dlt_user_log_write_uint64_attr :
    DltUser → DltContextData → ℕ → Option (List ℕ) → Option (List ℕ) → Answer
dlt_user_log_write_uint64_attr user log value name unit =
    write_generic_attr user log (le_bytes 8 value) (type_uint + 4) (named name unit)

unfoldable pub dlt_user_log_write_uint64_formatted : DltUser → DltContextData → ℕ → ℕ → Answer
dlt_user_log_write_uint64_formatted user log value format =
    write_generic_formatted user log (le_bytes 8 value) (type_uint + 4) format

-- An unsigned int has four bytes.
unfoldable pub dlt_user_log_write_uint : DltUser → DltContextData → ℕ → Answer
dlt_user_log_write_uint user log value =
    if not user.initialised
    then some (return_error, log)
    else dlt_user_log_write_uint32 user log value

unfoldable pub dlt_user_log_write_uint_attr :
    DltUser → DltContextData → ℕ → Option (List ℕ) → Option (List ℕ) → Answer
dlt_user_log_write_uint_attr user log value name unit =
    if not user.initialised
    then some (return_error, log)
    else dlt_user_log_write_uint32_attr user log value name unit

unfoldable pub dlt_user_log_write_int8 : DltUser → DltContextData → ℕ → Answer
dlt_user_log_write_int8 user log value =
    write_generic_attr user log (le_bytes 1 value) (type_sint + 1) none

unfoldable pub dlt_user_log_write_int8_attr :
    DltUser → DltContextData → ℕ → Option (List ℕ) → Option (List ℕ) → Answer
dlt_user_log_write_int8_attr user log value name unit =
    write_generic_attr user log (le_bytes 1 value) (type_sint + 1) (named name unit)

unfoldable pub dlt_user_log_write_int16 : DltUser → DltContextData → ℕ → Answer
dlt_user_log_write_int16 user log value =
    write_generic_attr user log (le_bytes 2 value) (type_sint + 2) none

unfoldable pub dlt_user_log_write_int16_attr :
    DltUser → DltContextData → ℕ → Option (List ℕ) → Option (List ℕ) → Answer
dlt_user_log_write_int16_attr user log value name unit =
    write_generic_attr user log (le_bytes 2 value) (type_sint + 2) (named name unit)

unfoldable pub dlt_user_log_write_int32 : DltUser → DltContextData → ℕ → Answer
dlt_user_log_write_int32 user log value =
    write_generic_attr user log (le_bytes 4 value) (type_sint + 3) none

unfoldable pub dlt_user_log_write_int32_attr :
    DltUser → DltContextData → ℕ → Option (List ℕ) → Option (List ℕ) → Answer
dlt_user_log_write_int32_attr user log value name unit =
    write_generic_attr user log (le_bytes 4 value) (type_sint + 3) (named name unit)

unfoldable pub dlt_user_log_write_int64 : DltUser → DltContextData → ℕ → Answer
dlt_user_log_write_int64 user log value =
    write_generic_attr user log (le_bytes 8 value) (type_sint + 4) none

unfoldable pub dlt_user_log_write_int64_attr :
    DltUser → DltContextData → ℕ → Option (List ℕ) → Option (List ℕ) → Answer
dlt_user_log_write_int64_attr user log value name unit =
    write_generic_attr user log (le_bytes 8 value) (type_sint + 4) (named name unit)

-- An int has four bytes.
unfoldable pub dlt_user_log_write_int : DltUser → DltContextData → ℕ → Answer
dlt_user_log_write_int user log value =
    if not user.initialised
    then some (return_error, log)
    else dlt_user_log_write_int32 user log value

unfoldable pub dlt_user_log_write_int_attr :
    DltUser → DltContextData → ℕ → Option (List ℕ) → Option (List ℕ) → Answer
dlt_user_log_write_int_attr user log value name unit =
    if not user.initialised
    then some (return_error, log)
    else dlt_user_log_write_int32_attr user log value name unit

-- A pointer has eight bytes, and is shown as DLT_FORMAT_HEX64.
unfoldable pub dlt_user_log_write_ptr : DltUser → DltContextData → ℕ → Answer
dlt_user_log_write_ptr user log value =
    if not user.initialised
    then some (return_error, log)
    else dlt_user_log_write_uint64_formatted user log value 4

unfoldable pub dlt_user_log_write_bool : DltUser → DltContextData → ℕ → Answer
dlt_user_log_write_bool user log value =
    write_generic_attr user log (le_bytes 1 value) (type_bool + 1) none

unfoldable pub dlt_user_log_write_bool_attr :
    DltUser → DltContextData → ℕ → Option (List ℕ) → Answer
dlt_user_log_write_bool_attr user log value name =
    write_generic_attr user log (le_bytes 1 value) (type_bool + 1)
      (some (record { name = name; unit = none; with_unit = false }))

-- DLT_SCOD_UTF8
unfoldable pub dlt_user_log_write_span_byte_attr :
    DltUser → DltContextData → List ℕ → Option (List ℕ) → Option (List ℕ) → Answer
dlt_user_log_write_span_byte_attr user log data_bytes name unit =
    write_generic_attr user log data_bytes 32768 (named name unit)

-- DLT_SCOD_ASCII
unfoldable pub dlt_user_log_write_string_view_attr :
    DltUser → DltContextData → List ℕ → Option (List ℕ) → Option (List ℕ) → Answer
dlt_user_log_write_string_view_attr user log data_bytes name unit =
    write_generic_attr user log data_bytes 0 (named name unit)

unfoldable pub dlt_user_log_write_raw : DltUser → DltContextData → List ℕ → Answer
dlt_user_log_write_raw user log data_bytes = write_raw_internal user log data_bytes 0 none false

unfoldable pub dlt_user_log_write_raw_formatted : DltUser → DltContextData → List ℕ → ℕ → Answer
dlt_user_log_write_raw_formatted user log data_bytes format =
    write_raw_internal user log data_bytes format none false

unfoldable pub dlt_user_log_write_raw_attr :
    DltUser → DltContextData → List ℕ → Option (List ℕ) → Answer
dlt_user_log_write_raw_attr user log data_bytes name =
    write_raw_internal user log data_bytes 0 name true

unfoldable pub dlt_user_log_write_raw_formatted_attr :
    DltUser → DltContextData → List ℕ → ℕ → Option (List ℕ) → Answer
dlt_user_log_write_raw_formatted_attr user log data_bytes format name =
    write_raw_internal user log data_bytes format name true
