-- ===== src/User/Tests.antt =====
-- Arguments in a buffer of 100 bytes.
use lr.Base.{
  ◌⊎◌, ◌<◌, ◌≤◌, wrong_parameter, ℕ, ◌≤◌, ◌≡◌, refl, true, false, none, some, List, [], ◌∷◌, ◌++◌,
  arith, length, replicate, length-replicate, ◌>>=◌, DltReturnValue,
}
use lr.Memory.{slice, store, overwrite}
use lr.User.{
  DltUser, DltContextData, VarInfo, is_verbose_mode, put, put_var_info, var_info_size, put_value,
  write_generic_attr, write_raw_internal,
}
use lr.User.Values.{dlt_user_log_write_uint16}
use lr.User.Strings.{ascii_string, write_sized_string_utils_attr}
use lr.User.Written.{payload}
use lr.User.Arguments.{IsLog, Outcome}
use lr.User.Raw.{raw_argument, write_raw_internal_lem}
use lr.User.Overrun.{write_sized_string_overrun}

abbrev user : DltUser
user = record { initialised = true; log_buf_len = 100; verbose_mode = true }

abbrev log : DltContextData
log = record { buffer = replicate 100 0; size = 4; args_num = 0; verbose_mode = true }

log-IsLog : IsLog user log
log-IsLog = record { block = refl; within = omega arith }

abbrev speed : VarInfo
speed = record { name = some (118 ∷ []); unit = some (109 ∷ []); with_unit = true }

write_raw_internal_lem_example :
    ((7 ≤ 1)
      × (write_raw_internal user log (1 ∷ (2 ∷ [])) 1 (some (118 ∷ [])) true
          ≡ some (wrong_parameter, log)))
    ⊎ ((1 < 7)
        × ((r : DltReturnValue) × (e : DltContextData) × (write_raw_internal user log
                (1 ∷ (2 ∷ []))
                1
                (some (118 ∷ []))
                true
              ≡ some (r, e))
            × Outcome user log 1
                (raw_argument user log (1 ∷ (2 ∷ [])) 1 (some (118 ∷ [])) true)
                r
                e))
write_raw_internal_lem_example =
    write_raw_internal_lem user log (1 ∷ (2 ∷ [])) 1 (some (118 ∷ [])) true log-IsLog (omega arith)

abbrev letters : ℕ → List ℕ
letters n = replicate n 65

length-letters : (n : ℕ) → 65535 ≤ n → 65535 ≤ length (letters n)
length-letters n h = omega (arith, h, length-replicate n (let c : ℕ = 65 in c))

write_sized_string_overrun_example :
    write_sized_string_utils_attr user log (letters 65535) 65535 ascii_string none false ≡ none
unfolding is_verbose_mode
write_sized_string_overrun_example =
    write_sized_string_overrun user log (letters 65535) false none refl log-IsLog (omega arith)
      (omega arith) (length-letters 65535 (omega arith))

-- A number of 16 bits behind the message: type 0x42, then the low byte first.
uint16_written :
    (dlt_user_log_write_uint16 user log 300 >>= λ a. some (payload a.1))
    ≡ some (replicate 4 0 ++ (66 ∷ (0 ∷ (0 ∷ (0 ∷ (44 ∷ (1 ∷ [])))))))
unfolding dlt_user_log_write_uint16 write_generic_attr is_verbose_mode put put_var_info
    var_info_size put_value store overwrite slice
uint16_written = refl
