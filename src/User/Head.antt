-- ===== src/User/Head.antt =====
-- What stands in front of a text in the buffer of a message (lib/dlt_user.c).
use lr.Base.{
  ℕ, ◌+◌, ◌≤◌, ◌≡◌, refl, Bool, true, false, Option, some, List, [], ◌++◌, arith, length,
  if◌then◌else◌,
}
use lr.User.{DltContextData, le_bytes}
use lr.User.Written.{Wrote, Wrote-append, put-Wrote}
use lr.User.Named.{name_bytes, put_name-Wrote, length-name_bytes}
use lr.User.Strings.{StringType, string_type, verbose_size, put_head}

-- The type, the size and the name.
abbrev pub head_bytes : Bool → StringType → ℕ → Bool → Option (List ℕ) → List ℕ
head_bytes verbose type arg_size with_var_info name =
    (if verbose then le_bytes 4 (string_type type with_var_info) else [])
    ++ (le_bytes 2 arg_size ++ (if verbose then name_bytes with_var_info name else []))

pub length-head_bytes :
    (verbose : Bool) (type : StringType) (arg_size : ℕ) (with_var_info : Bool)
    (name : Option (List ℕ))
    → length (head_bytes verbose type arg_size with_var_info name)
      ≡ 2 + verbose_size verbose with_var_info name
length-head_bytes false type arg_size with_var_info name = refl
length-head_bytes true type arg_size with_var_info name =
    omega (arith, length-name_bytes with_var_info name)

pub put_head-Wrote :
    (verbose : Bool) (type : StringType) (arg_size : ℕ) (with_var_info : Bool)
    (name : Option (List ℕ)) (log : DltContextData)
    → log.size + (2 + verbose_size verbose with_var_info name) ≤ length log.buffer
    → (e : DltContextData) × (put_head verbose type arg_size with_var_info name log ≡ some e)
      × Wrote log e (head_bytes verbose type arg_size with_var_info name)
unfolding put_head
put_head-Wrote false type arg_size with_var_info name log h =
    let (e, ee, w) = put-Wrote log (le_bytes 2 arg_size) h in (e, rw ee refl, w)
put_head-Wrote true type arg_size with_var_info name log h =
    let type_bytes : List ℕ = le_bytes 4 (string_type type with_var_info) in
    let (a, ea, wa) = put-Wrote log type_bytes (omega (arith, h)) in
    let (b, eb, wb) =
      put-Wrote a (le_bytes 2 arg_size) (omega (arith, h, wa.size_after, wa.same_block)) in
    let (e, ee, we) =
      put_name-Wrote with_var_info name b
        (omega (arith, h, wa.size_after, wa.same_block, wb.size_after, wb.same_block)) in
    (
      e,
      rw (ea, eb) ee,
      Wrote-append log a e type_bytes (le_bytes 2 arg_size ++ name_bytes with_var_info name) wa
          (Wrote-append a b e (le_bytes 2 arg_size) (name_bytes with_var_info name) wb we),
    )
