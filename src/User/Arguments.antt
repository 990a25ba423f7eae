-- ===== src/User/Arguments.antt =====
-- What a call of lib/dlt_user.c that writes one argument leaves in the buffer of the message, on every branch.
use lr.Base.{
  ℕ, ◌+◌, ◌≤◌, ◌<◌, ◌≡◌, refl, ap, ◌∙◌, inl, inr, true, false, some, List, [], ◌++◌, arith, length,
  length-append, ltb, leb, ltb→lt, ltb→ge, if◌then◌else◌, Bool-cases, DltReturnValue, return_ok,
  return_error, wrong_parameter, user_buffer_full, add32,
}
use lr.User.{
  DltUser, DltContextData, is_verbose_mode, le_bytes, put_value, format_max, formatted_type,
  write_generic_formatted,
}
use lr.User.Written.{Wrote, Wrote-nil, Wrote-append, put-Wrote}

-- The buffer has the size that is configured, and the message is in it.
pub record IsLog (user : DltUser) (log : DltContextData) : Type 0 where
  pub block : length log.buffer ≡ user.log_buf_len
  pub within : log.size ≤ user.log_buf_len

-- One argument more, the bytes `d`.
abbrev pub Argued : DltContextData → DltContextData → List ℕ → Type 0
Argued log e d =
    (m : DltContextData) × Wrote log m d × (e ≡ record m { args_num = add32 log.args_num 1 })

-- How a call ends that is to write the bytes `d`: with all of them written, or with the log unchanged.
pub data Outcome (user : DltUser) (log : DltContextData) (format : ℕ) (d : List ℕ)
    : DltReturnValue → DltContextData → Type 0 where
  written :
      (e : DltContextData) → Argued log e d → IsLog user e → Outcome user log format d return_ok e
  no_room : user.log_buf_len < log.size + length d → Outcome user log format d user_buffer_full log
  not_initialised : user.initialised ≡ false → Outcome user log format d return_error log
  no_format : leb format_max format ≡ true → Outcome user log format d wrong_parameter log

-- The header of an argument is written in verbose mode only.
abbrev pub argument : DltUser → DltContextData → List ℕ → List ℕ → List ℕ
argument user log header d = if is_verbose_mode user log then header ++ d else d

-- With the header `h` written, the value.
pub value-Outcome :
    (user : DltUser) (log m : DltContextData) (format : ℕ) (h d : List ℕ)
    → IsLog user log
    → Wrote log m h
    → log.size + length h + length d ≤ user.log_buf_len
    → (e : DltContextData) × (put_value d m ≡ some (return_ok, e))
      × Outcome user log format (h ++ d) return_ok e
unfolding put_value
value-Outcome user log m format h d sound w fits =
    let (a, ea, wa) =
      put-Wrote m d (omega (arith, fits, w.size_after, w.same_block, sound.block)) in
    let all : Wrote log a (h ++ d) = Wrote-append log m a h d w wa in
    let e : DltContextData = record a { args_num = add32 a.args_num 1 } in
    (
      e,
      rw ea refl,
      written e (a, all, ap (λ n. record a { args_num = add32 n 1 }) all.same_args)
          (record {
            block = all.same_block ∙ sound.block;
            within = omega (arith, fits, all.size_after, length-append h d);
          }),
    )

-- A call for a value with a format refuses a format out of range; otherwise it puts the type with the bits
-- of the format and the value behind the message in verbose mode, and the value only in the other mode, all
-- of that or nothing.
pub write_generic_formatted_lem :
    (user : DltUser) (log : DltContextData) (d : List ℕ) (type_info format : ℕ)
    → IsLog user log
    → (r : DltReturnValue) × (e : DltContextData) × (write_generic_formatted user log d type_info
          format
        ≡ some (r, e))
      × Outcome user log format
          (argument user log (le_bytes 4 (formatted_type format type_info)) d)
          r
          e
unfolding write_generic_formatted is_verbose_mode
write_generic_formatted_lem user log d type_info format sound =
    let header : List ℕ = le_bytes 4 (formatted_type format type_info) in
    elim (Bool-cases (leb format_max format)) [
      | inl bad ↦ (wrong_parameter, log, rw bad refl, no_format bad)
      | inr good ↦ elim (Bool-cases user.initialised) [
        | inr z ↦ (return_error, log, rw (good, z) refl, not_initialised z)
        | inl i ↦ elim (Bool-cases (is_verbose_mode user log)) [
          | inr plain ↦ elim (Bool-cases (ltb user.log_buf_len (log.size + length d))) [
            | inl f ↦
                (user_buffer_full, log, rw (good, i, f) refl, rw plain (no_room (ltb→lt _ _ f)))
            | inr f ↦
                let (e, eq, out) =
                  value-Outcome user log log format [] d sound (Wrote-nil log)
                    (omega (arith, ltb→ge _ _ f)) in
                (return_ok, e, rw (good, i, f, plain) eq, rw plain out)
          ]
          | inl verbose ↦ elim (Bool-cases (ltb user.log_buf_len (log.size + length d))) [
            | inl f ↦ (
              user_buffer_full,
              log,
              rw (good, i, f) refl,
              rw verbose (no_room (omega (arith, ltb→lt _ _ f, length-append header d))),
            )
            | inr f ↦ elim (Bool-cases (ltb user.log_buf_len (log.size + (length d + 4)))) [
              | inl g ↦ (
                user_buffer_full,
                log,
                rw (good, i, f, verbose, g) refl,
                rw verbose (no_room (omega (arith, ltb→lt _ _ g, length-append header d))),
              )
              | inr g ↦
                  let fits = ltb→ge _ _ g in
                  let (a, ea, wa) = put-Wrote log header (omega (arith, fits, sound.block)) in
                  let (e, eq, out) =
                    value-Outcome user log a format header d sound wa (omega (arith, fits)) in
                  (return_ok, e, rw (good, i, f, verbose, g, ea) eq, rw verbose out)
            ]
          ]
        ]
      ]
    ]
