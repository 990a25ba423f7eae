-- ===== src/User/Raw.antt =====
-- What the calls of lib/dlt_user.c for raw data leave in the buffer of the message, on every branch.
use lr.Base.{
  ap₂, ◌<◌, ◌⊎◌, ◌>>=◌, ℕ, ◌+◌, ◌≤◌, ◌≡◌, refl, inl, inr, Bool, Option, some, List, ◌++◌, arith,
  length, length-append, ltb, leb, ltb→lt, ltb→ge, if◌then◌else◌, Bool-cases, DltReturnValue,
  return_ok, return_error, wrong_parameter, user_buffer_full,
}
use mathlib.Core.Path.{subst}
use lr.User.CStrings.{c_name, named_type, IsShort, raw_type-named_type, name_bytes-c_name}
use lr.User.{
  put, put_name, DltUser, DltContextData, is_verbose_mode, le_bytes, put_value, format_max,
  raw_type, name_info_size, write_raw_internal,
}
use lr.User.Written.{Wrote-append, put-Wrote}
use lr.User.Named.{name_bytes, put_name-Wrote, length-name_bytes}
use lr.User.Arguments.{IsLog, Outcome, no_room, not_initialised, no_format, value-Outcome}

-- The bytes of raw data, which have their length in front in either mode: the type of the format, the
-- length, the size of the name and the name with its terminating zero, and the data.
abbrev pub raw_argument : DltUser → DltContextData → List ℕ → ℕ → Option (List ℕ) → Bool → List ℕ
raw_argument user log d format name with_var_info =
    if is_verbose_mode user log
    then (le_bytes 4 (named_type with_var_info format)
        ++ (le_bytes 2 (length d) ++ c_name with_var_info name))
      ++ d
    else le_bytes 2 (length d) ++ d

-- The same as the code puts them together.
abbrev pub raw_bytes : DltUser → DltContextData → List ℕ → ℕ → Option (List ℕ) → Bool → List ℕ
raw_bytes user log d format name with_var_info =
    if is_verbose_mode user log
    then (le_bytes 4 (raw_type format with_var_info)
        ++ (le_bytes 2 (length d) ++ name_bytes with_var_info name))
      ++ d
    else le_bytes 2 (length d) ++ d

length-raw_header :
    (type_info len : ℕ) (with_var_info : Bool) (name : Option (List ℕ))
    → length (le_bytes 4 type_info ++ (le_bytes 2 len ++ name_bytes with_var_info name))
      ≡ 6 + name_info_size with_var_info name
length-raw_header type_info len with_var_info name = omega (
  arith,
  length-append (le_bytes 4 type_info) (le_bytes 2 len ++ name_bytes with_var_info name),
  length-append (le_bytes 2 len) (name_bytes with_var_info name),
  length-name_bytes with_var_info name,
)

-- The type, the length and the name, and the data, where they fit.
raw-Outcome :
    (user : DltUser) (log : DltContextData) (d : List ℕ) (format : ℕ) (name : Option (List ℕ))
    (with_var_info : Bool)
    → IsLog user log
    → log.size + (length d + 2 + 4 + name_info_size with_var_info name) ≤ user.log_buf_len
    → (e : DltContextData) × ((put log (le_bytes 4 (raw_type format with_var_info)) >>= λ l1.
          put l1 (le_bytes 2 (length d)) >>= λ l2. put_name with_var_info name l2 >>= put_value d)
        ≡ some (return_ok, e))
      × Outcome user log format
          ((le_bytes 4 (raw_type format with_var_info)
              ++ (le_bytes 2 (length d) ++ name_bytes with_var_info name))
            ++ d)
          return_ok
          e
raw-Outcome user log d format name with_var_info sound fits =
    let type_bytes : List ℕ = le_bytes 4 (raw_type format with_var_info) in
    let length_bytes : List ℕ = le_bytes 2 (length d) in
    let named : List ℕ = name_bytes with_var_info name in
    let header : List ℕ = type_bytes ++ (length_bytes ++ named) in
    let header_len =
      length-raw_header (raw_type format with_var_info) (length d) with_var_info name in
    let (a, ea, wa) = put-Wrote log type_bytes (omega (arith, fits, sound.block)) in
    let (b, eb, wb) =
      put-Wrote a length_bytes (omega (arith, fits, wa.size_after, wa.same_block, sound.block)) in
    let (c, ec, wc) = put_name-Wrote with_var_info name b (
      omega
        (arith, fits, wa.size_after, wa.same_block, wb.size_after, wb.same_block, sound.block)) in
    let (e, eq, out) =
      value-Outcome user log c format header d sound
        (Wrote-append log a c type_bytes (length_bytes ++ named) wa
          (Wrote-append a b c length_bytes named wb wc))
        (omega (arith, fits, header_len)) in
    (e, rw (ea, eb, ec) eq, out)

raw_internal-Outcome :
    (user : DltUser) (log : DltContextData) (d : List ℕ) (format : ℕ) (name : Option (List ℕ))
    (with_var_info : Bool)
    → IsLog user log
    → (r : DltReturnValue) × (e : DltContextData) × (write_raw_internal user log d format name
          with_var_info
        ≡ some (r, e))
      × Outcome user log format (raw_bytes user log d format name with_var_info) r e
unfolding write_raw_internal is_verbose_mode
raw_internal-Outcome user log d format name with_var_info sound =
    let length_bytes : List ℕ = le_bytes 2 (length d) in
    let header : List ℕ =
      le_bytes 4 (raw_type format with_var_info)
      ++ (length_bytes ++ name_bytes with_var_info name) in
    let header_len =
      length-raw_header (raw_type format with_var_info) (length d) with_var_info name in
    elim (Bool-cases (leb format_max format)) [
      | inl bad ↦ (wrong_parameter, log, rw bad refl, no_format bad)
      | inr good ↦ elim (Bool-cases user.initialised) [
        | inr z ↦ (return_error, log, rw (good, z) refl, not_initialised z)
        | inl i ↦ elim (Bool-cases (is_verbose_mode user log)) [
          | inr plain ↦ elim (Bool-cases (ltb user.log_buf_len (log.size + (length d + 2)))) [
            | inl f ↦ (
              user_buffer_full,
              log,
              rw (good, i, f) refl,
              rw plain (no_room (omega (arith, ltb→lt _ _ f, length-append length_bytes d))),
            )
            | inr f ↦
                let fits = ltb→ge _ _ f in
                let (a, ea, wa) = put-Wrote log length_bytes (omega (arith, fits, sound.block)) in
                let (e, eq, out) =
                  value-Outcome user log a format length_bytes d sound wa (omega (arith, fits)) in
                (return_ok, e, rw (good, i, f, plain, ea) eq, rw plain out)
          ]
          | inl verbose ↦ elim (Bool-cases (ltb user.log_buf_len (log.size + (length d + 2)))) [
            | inl f ↦ (
              user_buffer_full,
              log,
              rw (good, i, f) refl,
              rw verbose
                  (no_room (omega (arith, ltb→lt _ _ f, header_len, length-append header d))),
            )
            | inr f ↦
                elim (Bool-cases (
                  ltb user.log_buf_len
                    (log.size + (length d + 2 + 4 + name_info_size with_var_info name)))) [
                      | inl g ↦ (
                        user_buffer_full,
                        log,
                        rw (good, i, f, verbose, g) refl,
                        rw verbose (
                            no_room
                              (omega (arith, ltb→lt _ _ g, header_len, length-append header d))),
                      )
                      | inr g ↦
                          let (e, eq, out) =
                            raw-Outcome user log d format name with_var_info sound (ltb→ge _ _ g) in
                          (return_ok, e, rw (good, i, f, verbose, g) eq, rw verbose out)
                    ]
          ]
        ]
      ]
    ]

-- A call for raw data refuses a format that is not below the number of formats. Otherwise it puts in
-- verbose mode, behind the message, the type of the format, the length of the data, the size of the name
-- and the name with its terminating zero if there is one to be given, and the data; in the other mode the
-- length and the data only; all of that or nothing. The name is shorter than 2 ^ 16 with its zero.
pub write_raw_internal_lem :
    (user : DltUser) (log : DltContextData) (d : List ℕ) (format : ℕ) (name : Option (List ℕ))
    (with_var_info : Bool)
    → IsLog user log
    → IsShort name
    → ((7 ≤ format)
        × (write_raw_internal user log d format name with_var_info ≡ some (wrong_parameter, log)))
      ⊎ ((format < 7)
          × ((r : DltReturnValue) × (e : DltContextData) × (write_raw_internal user log d format
                  name with_var_info
                ≡ some (r, e))
              × Outcome user log format (raw_argument user log d format name with_var_info) r e))
unfolding write_raw_internal
write_raw_internal_lem user log d format name with_var_info sound short =
    elim (Bool-cases (leb format_max format)) [
      | inl bad ↦ inl (ground arith, rw bad refl)
      | inr good ↦
          let known : format < 7 = ground arith in
          let (r, e, eq, out) = raw_internal-Outcome user log d format name with_var_info sound in
          inr (
            known,
            (
              r,
              e,
              eq,
              subst (λ l. Outcome user log format l r e)
                  (ap₂
                    (λ t n.
                      if is_verbose_mode user log
                      then (le_bytes 4 t ++ (le_bytes 2 (length d) ++ n)) ++ d
                      else le_bytes 2 (length d) ++ d)
                    (raw_type-named_type format with_var_info known)
                    (name_bytes-c_name with_var_info name short))
                  out,
            ),
          )
    ]
