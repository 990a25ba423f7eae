-- ===== src/User/Truncated.antt =====
-- What a call of lib/dlt_user.c for a text leaves in the buffer of the message: the text, or a part of it and the
-- message that it is cut.
use lr.Base.{
  ℕ, ◌+◌, ◌<◌, ◌≡◌, Bool, false, Option, List, [], ◌∷◌, ◌++◌, DltReturnValue, return_ok,
  return_error, user_buffer_full,
}
use lr.Memory.{slice}
use lr.User.{DltUser, DltContextData, is_verbose_mode}
use lr.User.Arguments.{IsLog, Argued}
use lr.User.Strings.{truncated_message, ascii_string, verbose_size}
use lr.User.Head.{head_bytes}

-- How a call for a text of `len` chars ends.
pub data TextOutcome (user : DltUser) (log : DltContextData) (text : List ℕ) (len : ℕ)
    (with_var_info : Bool) (name : Option (List ℕ)) : DltReturnValue → DltContextData → Type 0 where
  whole :
      (e : DltContextData)
      → Argued log e (
          head_bytes (is_verbose_mode user log) ascii_string (len + 1) with_var_info name
          ++ (slice text 0 len ++ 0 ∷ []))
      → IsLog user e
      → TextOutcome user log text len with_var_info name return_ok e
  cut :
      (e : DltContextData) (max : ℕ)
      → max < len
      → Argued log e (
          head_bytes (is_verbose_mode user log) ascii_string (max + 36) with_var_info name
          ++ (slice text 0 max ++ truncated_message))
      → e.size ≡ user.log_buf_len
      → IsLog user e
      → TextOutcome user log text len with_var_info name user_buffer_full e
  no_room :
      user.log_buf_len < log.size + 38 + verbose_size (is_verbose_mode user log) with_var_info name
      → TextOutcome user log text len with_var_info name user_buffer_full log
  not_initialised :
      user.initialised ≡ false → TextOutcome user log text len with_var_info name return_error log
