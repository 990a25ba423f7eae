-- ===== src/User/Strings.antt =====
-- The calls of lib/dlt_user.c for texts. A text is the block of its bytes; its length is given, or found at its
-- terminating zero. A text that does not fit is cut, and a message says so.
use lr.Base.{
  ℕ, ◌+◌, ◌-◌, ◌/◌, ◌%◌, Bool, not, Option, none, some, List, [], ◌∷◌, ◌++◌, length, add32, ltb,
  ◌==◌, get_elem?, if◌then◌else◌, ◌>>=◌, return_ok, return_error, user_buffer_full,
}
use lr.Memory.{load, store}
use lr.User.{DltUser, DltContextData, is_verbose_mode, le_bytes, put, put_name, name_info_size}
use lr.User.Values.{Answer}

-- STR_TRUNCATED_MESSAGE with its terminating zero
abbrev pub truncated_message : List ℕ
truncated_message =
    46
    ∷ (46
        ∷ (46
            ∷ (32
                ∷ (60
                    ∷ (60
                        ∷ (77
                            ∷ (101
                                ∷ (115
                                    ∷ (115
                                        ∷ (97
                                            ∷ (103
                                                ∷ (101
                                                    ∷ (32
                                                        ∷ (116
                                                            ∷ (114
                                                            ∷ (117
                                                            ∷ (110
                                                            ∷ (99
                                                            ∷ (97
                                                            ∷ (116
                                                            ∷ (101
                                                            ∷ (100
                                                            ∷ (44
                                                            ∷ (32
                                                            ∷ (116
                                                            ∷ (111
                                                            ∷ (111
                                                            ∷ (32
                                                            ∷ (108
                                                            ∷ (111
                                                            ∷ (110
                                                            ∷ (103
                                                            ∷ (62
                                                            ∷ (62
                                                            ∷ (0
                                                            ∷ [])))))))))))))))))))))))))))))))))))

pub data StringType : Type 0 where
  ascii_string utf8_string : StringType

-- DLT_TYPE_INFO_STRG with DLT_SCOD_ASCII or DLT_SCOD_UTF8, and DLT_TYPE_INFO_VARI
unfoldable pub string_type : StringType → Bool → ℕ
string_type ascii_string with_var_info = (if with_var_info then 2048 else 0) + 512
string_type utf8_string with_var_info = (if with_var_info then 2048 else 0) + 512 + 32768

-- What is added in verbose mode.
abbrev pub verbose_size : Bool → Bool → Option (List ℕ) → ℕ
verbose_size verbose with_var_info name =
    if verbose then 4 + name_info_size with_var_info name else 0

-- The type, the size of the text and the name.
unfoldable pub put_head :
    Bool → StringType → ℕ → Bool → Option (List ℕ) → DltContextData → Option DltContextData
unfolding string_type
put_head verbose type arg_size with_var_info name log = do
  l1 ← if verbose then put log (le_bytes 4 (string_type type with_var_info)) else some log
  l2 ← put l1 (le_bytes 2 arg_size)
  if verbose then put_name with_var_info name l2 else some l2

-- The char at `k` from the third char before index `max` on.
unfoldable pub char_before : List ℕ → ℕ → ℕ → Option ℕ
char_before text max k = if ltb (max + k) 3 then none else get_elem? text (max + k - 3)

-- How many bytes of a multi-byte char stand before index `max`.
unfoldable pub reduce_size : StringType → List ℕ → ℕ → Option ℕ
unfolding char_before
reduce_size ascii_string text max = some 0
reduce_size utf8_string text max = do
  c2 ← char_before text max 2
  if c2 / 128 % 2 == 0 then some 0 else if not (c2 / 64 % 2 == 0) then some 1 else (do
    c1 ← char_before text max 1
    if c1 / 32 % 8 == 7
        then some 2
        else (char_before text max 0 >>= λ c0. if c0 / 16 % 16 == 15 then some 3 else some 0))

-- The whole text and a zero behind it.
unfoldable pub put_whole : List ℕ → ℕ → ℕ → DltContextData → Answer
put_whole text len arg_size log = do
  t ← load text 0 len
  b1 ← store log.buffer log.size t
  b2 ← store b1 (log.size + len) (0 ∷ [])
  some (
    return_ok,
    record log { buffer = b2; size = log.size + arg_size; args_num = add32 log.args_num 1 },
  )

-- A part of the text, and the message.
unfoldable pub put_part : List ℕ → ℕ → DltContextData → Answer
put_part text max log = do
  t ← load text 0 max
  l1 ← put log t
  l2 ← put l1 truncated_message
  some (user_buffer_full, record l2 { args_num = add32 l2.args_num 1 })

unfoldable pub write_truncated :
    DltUser → DltContextData → List ℕ → StringType → Option (List ℕ) → Bool → Answer
write_truncated user log text type name with_var_info =
    let verbose : Bool = is_verbose_mode user log in
    let more : ℕ = verbose_size verbose with_var_info name in
    let min : ℕ = log.size + length truncated_message + 2 + more in
    if ltb user.log_buf_len min then some (user_buffer_full, log) else (do
      reduce ← reduce_size type text (user.log_buf_len - min)
      l1 ←
          put_head verbose type (user.log_buf_len - log.size - 2 - more - reduce) with_var_info name
            log
      put_part text (user.log_buf_len - min - reduce) l1)

unfoldable pub write_sized_string_utils_attr :
    DltUser → DltContextData → List ℕ → ℕ → StringType → Option (List ℕ) → Bool → Answer
write_sized_string_utils_attr user log text len type name with_var_info =
    let verbose : Bool = is_verbose_mode user log in
    let arg_size : ℕ = (len + 1) % 65536 in
    if not user.initialised
    then some (return_error, log)
    else if ltb user.log_buf_len (log.size + arg_size + 2 + verbose_size verbose with_var_info name)
    then write_truncated user log text type name with_var_info
    else put_head verbose type arg_size with_var_info name log >>= put_whole text len arg_size

-- strlen of the chars before the zero, in 16 bits
unfoldable pub write_string_utils_attr :
    DltUser → DltContextData → List ℕ → StringType → Option (List ℕ) → Bool → Answer
write_string_utils_attr user log text type name with_var_info =
    write_sized_string_utils_attr user log (text ++ 0 ∷ []) (length text % 65536) type name
      with_var_info
