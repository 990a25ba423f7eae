-- ===== src/User.antt =====
-- The arguments of a log message in the user library lib/dlt_user.c: each call puts one argument behind
-- those that stand in the buffer of the message.
-- Values come as the pattern of their bits, raw data and texts as their bytes; a text is without its
-- terminating zero, and `none` is a null pointer. `none` as a result is an access outside a block.
pub mod Values
pub mod Written
pub mod Named
pub mod CStrings
pub mod Arguments
pub mod Raw
pub mod Strings
pub mod Head
pub mod Texts
pub mod Truncated
pub mod Overrun
mod Tests
use lr.Base.{
  ℕ, zero, suc, ◌+◌, ◌-◌, ◌/◌, ◌%◌, Bool, true, false, not, ◌&&◌, ◌||◌, Option, none, some, List,
  [], ◌∷◌, ◌++◌, length, add32, leb, ltb, ◌==◌, if◌then◌else◌, ◌>>=◌, DltReturnValue, return_ok,
  return_error, wrong_parameter, user_buffer_full,
}
use lr.Memory.{slice, store}

-- The part of the log data of a context that the calls use.
pub record DltContextData : Type 0 where
  pub buffer : List ℕ
  pub size : ℕ
  pub args_num : ℕ
  pub verbose_mode : Bool

-- The part of `dlt_user` that the calls use, and `dlt_user_initialised`.
pub record DltUser : Type 0 where
  pub initialised : Bool
  pub log_buf_len : ℕ
  pub verbose_mode : Bool

pub record VarInfo : Type 0 where
  pub name : Option (List ℕ)
  pub unit : Option (List ℕ)
  pub with_unit : Bool

unfoldable pub is_verbose_mode : DltUser → DltContextData → Bool
is_verbose_mode user log = user.verbose_mode || log.verbose_mode

-- The `n` low bytes of a value in memory, on a little-endian host.
abbrev pub le_bytes : ℕ → ℕ → List ℕ
le_bytes zero v = []
le_bytes (suc n) v = v % 256 ∷ le_bytes n (v / 256)

-- `v | bit`, for one bit
abbrev pub with_bit : ℕ → ℕ → ℕ
with_bit bit v = if v / bit % 2 == 0 then v + bit else v

-- DLT_TYPE_INFO_VARI, DLT_SCOD_HEX, and the two bits of DLT_SCOD_BIN
abbrev pub with_vari : ℕ → ℕ
with_vari = with_bit 2048

abbrev pub with_hex : ℕ → ℕ
with_hex = with_bit 65536

abbrev pub with_bin : ℕ → ℕ
with_bin v = with_bit 65536 (with_bit 32768 v)

-- memcpy(log->buffer + log->size, ...); log->size += ...
unfoldable pub put : DltContextData → List ℕ → Option DltContextData
put log d = store log.buffer log.size d >>= λ b.
    some (record log { buffer = b; size = log.size + length d })

-- strlen + 1 in 16 bits, 0 for a null pointer
unfoldable pub text_size : Option (List ℕ) → ℕ
text_size none = 0
text_size (some t) = (length t + 1) % 65536

-- The chars that are copied of a text.
unfoldable pub text_bytes : Option (List ℕ) → List ℕ
unfolding text_size
text_bytes none = []
text_bytes (some t) = slice (t ++ 0 ∷ []) 0 (text_size (some t))

unfoldable pub put_text : Option (List ℕ) → DltContextData → Option DltContextData
put_text t log = if text_size t == 0 then some log else put log (text_bytes t)

-- The sizes of name and unit, then both.
unfoldable pub put_var_info : Option VarInfo → DltContextData → Option DltContextData
put_var_info none log = some log
put_var_info (some v) log = do
  l1 ← put log (le_bytes 2 (text_size v.name))
  l2 ← if v.with_unit then put l1 (le_bytes 2 (text_size v.unit)) else some l1
  l3 ← put_text v.name l2
  put_text v.unit l3

unfoldable pub var_info_size : Option VarInfo → ℕ
var_info_size none = 0
var_info_size (some v) = 2 + text_size v.name + (if v.with_unit then 2 + text_size v.unit else 0)

abbrev pub vari_type : Option VarInfo → ℕ → ℕ
vari_type none type_info = type_info
vari_type (some v) type_info = with_vari type_info

-- The value itself, and one argument more.
unfoldable pub put_value : List ℕ → DltContextData → Option (DltReturnValue × DltContextData)
put_value d log = put log d >>= λ l. some (return_ok, record l { args_num = add32 l.args_num 1 })

unfoldable pub write_generic_attr :
    DltUser
    → DltContextData
    → List ℕ
    → ℕ
    → Option VarInfo
    → Option (DltReturnValue × DltContextData)
write_generic_attr user log data_bytes type_info varinfo =
    if not user.initialised
    then some (return_error, log)
    else if ltb user.log_buf_len (log.size + length data_bytes)
    then some (user_buffer_full, log)
    else if not (is_verbose_mode user log)
    then put_value data_bytes log
    else if ltb user.log_buf_len (log.size + (length data_bytes + 4 + var_info_size varinfo))
    then some (user_buffer_full, log)
    else (do
      l1 ← put log (le_bytes 4 (vari_type varinfo type_info))
      l2 ← put_var_info varinfo l1
      put_value data_bytes l2)

-- DltFormatType: 0 for the default, 1 to 4 for DLT_FORMAT_HEX8 to HEX64, 5 and 6 for DLT_FORMAT_BIN8 and BIN16.
abbrev pub format_max : ℕ
format_max = 7

abbrev pub is_hex : ℕ → Bool
is_hex format = leb 1 format && leb format 4

abbrev pub is_bin : ℕ → Bool
is_bin format = leb 5 format && leb format 6

unfoldable pub formatted_type : ℕ → ℕ → ℕ
formatted_type format type_info =
    if is_hex format
    then with_hex type_info
    else if is_bin format
    then with_bin type_info
    else type_info

unfoldable pub write_generic_formatted :
    DltUser → DltContextData → List ℕ → ℕ → ℕ → Option (DltReturnValue × DltContextData)
write_generic_formatted user log data_bytes type_info format =
    if leb format_max format
    then some (wrong_parameter, log)
    else if not user.initialised
    then some (return_error, log)
    else if ltb user.log_buf_len (log.size + length data_bytes)
    then some (user_buffer_full, log)
    else if not (is_verbose_mode user log)
    then put_value data_bytes log
    else if ltb user.log_buf_len (log.size + (length data_bytes + 4))
    then some (user_buffer_full, log)
    else (do l1 ← put log (le_bytes 4 (formatted_type format type_info)); put_value data_bytes l1)

-- DLT_TYPE_INFO_RAWD; of raw data the length field holds the width of the columns.
unfoldable pub raw_type : ℕ → Bool → ℕ
raw_type format with_var_info =
    let type_info : ℕ = if with_var_info then with_vari 1024 else 1024 in
    if is_hex format
    then with_hex type_info + format
    else if is_bin format
    then with_bin type_info + (format - 5 + 1)
    else type_info

unfoldable pub put_name : Bool → Option (List ℕ) → DltContextData → Option DltContextData
put_name with_var_info name log =
    if with_var_info
    then (do l ← put log (le_bytes 2 (text_size name)); put_text name l)
    else some log

abbrev pub name_info_size : Bool → Option (List ℕ) → ℕ
name_info_size with_var_info name = if with_var_info then 2 + text_size name else 0

unfoldable pub write_raw_internal :
    DltUser
    → DltContextData
    → List ℕ
    → ℕ
    → Option (List ℕ)
    → Bool
    → Option (DltReturnValue × DltContextData)
write_raw_internal user log data_bytes format name with_var_info =
    if leb format_max format
    then some (wrong_parameter, log)
    else if not user.initialised
    then some (return_error, log)
    else if ltb user.log_buf_len (log.size + (length data_bytes + 2))
    then some (user_buffer_full, log)
    else if not (is_verbose_mode user log)
    then (do l1 ← put log (le_bytes 2 (length data_bytes)); put_value data_bytes l1)
    else if ltb user.log_buf_len
        (log.size + (length data_bytes + 2 + 4 + name_info_size with_var_info name))
    then some (user_buffer_full, log)
    else (do
      l1 ← put log (le_bytes 4 (raw_type format with_var_info))
      l2 ← put l1 (le_bytes 2 (length data_bytes))
      l3 ← put_name with_var_info name l2
      put_value data_bytes l3)
