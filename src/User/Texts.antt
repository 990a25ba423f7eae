-- ===== src/User/Texts.antt =====
-- The calls of lib/dlt_user.c for texts, plain or UTF-8, with or without length and name. A constant text is
-- written in verbose mode only.
use lr.Base.{ℕ, true, false, Option, none, some, List, if◌then◌else◌, return_ok}
use lr.User.{DltUser, DltContextData, is_verbose_mode}
use lr.User.Values.{Answer}
use lr.User.Strings.{
  ascii_string, utf8_string, write_sized_string_utils_attr, write_string_utils_attr,
}

unfoldable pub dlt_user_log_write_string : DltUser → DltContextData → List ℕ → Answer
dlt_user_log_write_string user log text =
    write_string_utils_attr user log text ascii_string none false

unfoldable pub dlt_user_log_write_constant_string : DltUser → DltContextData → List ℕ → Answer
dlt_user_log_write_constant_string user log text =
    if is_verbose_mode user log
    then dlt_user_log_write_string user log text
    else some (return_ok, log)

unfoldable pub dlt_user_log_write_string_attr :
    DltUser → DltContextData → List ℕ → Option (List ℕ) → Answer
dlt_user_log_write_string_attr user log text name =
    write_string_utils_attr user log text ascii_string name true

unfoldable pub dlt_user_log_write_constant_string_attr :
    DltUser → DltContextData → List ℕ → Option (List ℕ) → Answer
dlt_user_log_write_constant_string_attr user log text name =
    if is_verbose_mode user log
    then dlt_user_log_write_string_attr user log text name
    else some (return_ok, log)

unfoldable pub dlt_user_log_write_sized_string : DltUser → DltContextData → List ℕ → ℕ → Answer
dlt_user_log_write_sized_string user log text len =
    write_sized_string_utils_attr user log text len ascii_string none false

unfoldable pub dlt_user_log_write_sized_constant_string :
    DltUser → DltContextData → List ℕ → ℕ → Answer
dlt_user_log_write_sized_constant_string user log text len =
    if is_verbose_mode user log
    then dlt_user_log_write_sized_string user log text len
    else some (return_ok, log)

unfoldable pub dlt_user_log_write_sized_string_attr :
    DltUser → DltContextData → List ℕ → ℕ → Option (List ℕ) → Answer
dlt_user_log_write_sized_string_attr user log text len name =
    write_sized_string_utils_attr user log text len ascii_string name true

unfoldable pub dlt_user_log_write_sized_constant_string_attr :
    DltUser → DltContextData → List ℕ → ℕ → Option (List ℕ) → Answer
dlt_user_log_write_sized_constant_string_attr user log text len name =
    if is_verbose_mode user log
    then dlt_user_log_write_sized_string_attr user log text len name
    else some (return_ok, log)

unfoldable pub dlt_user_log_write_utf8_string : DltUser → DltContextData → List ℕ → Answer
dlt_user_log_write_utf8_string user log text =
    write_string_utils_attr user log text utf8_string none false

unfoldable pub dlt_user_log_write_constant_utf8_string : DltUser → DltContextData → List ℕ → Answer
dlt_user_log_write_constant_utf8_string user log text =
    if is_verbose_mode user log
    then dlt_user_log_write_utf8_string user log text
    else some (return_ok, log)

unfoldable pub dlt_user_log_write_utf8_string_attr :
    DltUser → DltContextData → List ℕ → Option (List ℕ) → Answer
dlt_user_log_write_utf8_string_attr user log text name =
    write_string_utils_attr user log text utf8_string name true

unfoldable pub dlt_user_log_write_constant_utf8_string_attr :
    DltUser → DltContextData → List ℕ → Option (List ℕ) → Answer
dlt_user_log_write_constant_utf8_string_attr user log text name =
    if is_verbose_mode user log
    then dlt_user_log_write_utf8_string_attr user log text name
    else some (return_ok, log)

unfoldable pub dlt_user_log_write_sized_utf8_string : DltUser → DltContextData → List ℕ → ℕ → Answer
dlt_user_log_write_sized_utf8_string user log text len =
    write_sized_string_utils_attr user log text len utf8_string none false

unfoldable pub dlt_user_log_write_sized_constant_utf8_string :
    DltUser → DltContextData → List ℕ → ℕ → Answer
dlt_user_log_write_sized_constant_utf8_string user log text len =
    if is_verbose_mode user log
    then dlt_user_log_write_sized_utf8_string user log text len
    else some (return_ok, log)

unfoldable pub dlt_user_log_write_sized_utf8_string_attr :
    DltUser → DltContextData → List ℕ → ℕ → Option (List ℕ) → Answer
dlt_user_log_write_sized_utf8_string_attr user log text len name =
    write_sized_string_utils_attr user log text len utf8_string name true

unfoldable pub dlt_user_log_write_sized_constant_utf8_string_attr :
    DltUser → DltContextData → List ℕ → ℕ → Option (List ℕ) → Answer
dlt_user_log_write_sized_constant_utf8_string_attr user log text len name =
    if is_verbose_mode user log
    then dlt_user_log_write_sized_utf8_string_attr user log text len name
    else some (return_ok, log)
