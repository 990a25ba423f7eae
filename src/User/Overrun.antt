-- ===== src/User/Overrun.antt =====
-- A text whose length and zero do not fit 16 bits, in lib/dlt_user.c.
use lr.Base.{
  ℕ, ◌+◌, ◌≤◌, ◌<◌, ◌≡◌, refl, ◌∙◌, Bool, true, false, Option, none, List, arith, length, leb, ltb,
  if◌then◌else◌, ◌>>=◌, le→ltb,
}
use lr.Memory.{slice, store, load-in, length-slice}
use lr.User.{DltUser, DltContextData, is_verbose_mode}
use lr.User.Arguments.{IsLog}
use lr.User.Strings.{
  ascii_string, verbose_size, put_head, put_whole, write_truncated, write_sized_string_utils_attr,
}
use lr.User.Head.{put_head-Wrote, length-head_bytes}

lt→leb : (a b : ℕ) → b < a → leb a b ≡ false
lt→leb a b h = ground arith

put_whole-none :
    (text : List ℕ) (len arg_size : ℕ) (m : DltContextData)
    → len ≤ length text
    → length m.buffer < m.size + len
    → put_whole text len arg_size m ≡ none
unfolding put_whole store
put_whole-none text len arg_size m in_text over =
    rw
      (
        load-in text 0 len (omega (arith, in_text)),
        lt→leb (m.size + length (slice text 0 len)) (length m.buffer)
            (omega (arith, over, length-slice text 0 len)),
      )
      refl

-- A plain text of 65535 chars passes the check of its size wherever its head has room, since its length
-- with the zero is 0 in 16 bits, and is written past the end of the buffer.
pub write_sized_string_overrun :
    (user : DltUser) (log : DltContextData) (text : List ℕ) (with_var_info : Bool)
    (name : Option (List ℕ))
    → user.initialised ≡ true
    → IsLog user log
    → user.log_buf_len < 65536
    → log.size + 2 + verbose_size (is_verbose_mode user log) with_var_info name ≤ user.log_buf_len
    → 65535 ≤ length text
    → write_sized_string_utils_attr user log text 65535 ascii_string name with_var_info ≡ none
unfolding write_sized_string_utils_attr
write_sized_string_overrun user log text with_var_info name i sound small fits in_text =
    let verbose : Bool = is_verbose_mode user log in
    let more : ℕ = verbose_size verbose with_var_info name in
    let opened : write_sized_string_utils_attr user log text 65535 ascii_string name with_var_info
        ≡ (if ltb user.log_buf_len (log.size + 0 + 2 + more)
            then write_truncated user log text ascii_string name with_var_info
            else (put_head verbose ascii_string 0 with_var_info name log
                >>= put_whole text 65535 0)) =
      rw i refl in
    let room : ltb user.log_buf_len (log.size + 0 + 2 + more) ≡ false =
      le→ltb _ _ (omega (arith, fits)) in
    let head_len = length-head_bytes verbose ascii_string 0 with_var_info name in
    let (m, em, wm) =
      put_head-Wrote verbose ascii_string 0 with_var_info name log
        (omega (arith, fits, sound.block)) in
    opened
    ∙ rw (room, em)
        (put_whole-none text 65535 0 m in_text
          (omega (arith, small, sound.block, wm.size_after, wm.same_block, head_len)))
