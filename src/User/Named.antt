-- ===== src/User/Named.antt =====
-- The name and the unit of an argument in the buffer of a message (lib/dlt_user.c).
use lr.Base.{
  ℕ, ◌+◌, ◌≤◌, ◌≡◌, refl, ◌⊎◌, inl, inr, Bool, true, false, Option, none, some, List, [], ◌++◌,
  arith, length, length-append, if◌then◌else◌, Bool-cases,
}
use lr.User.{
  DltContextData, VarInfo, le_bytes, put, text_size, text_bytes, put_var_info, var_info_size,
  put_name, name_info_size,
}
use lr.User.Written.{Wrote, Wrote-nil, Wrote-append, put-Wrote, put_text-Wrote, length-text_bytes}

-- The bytes of the name and the unit.
unfoldable pub var_info_bytes : Option VarInfo → List ℕ
var_info_bytes none = []
var_info_bytes (some v) =
    le_bytes 2 (text_size v.name)
    ++ ((if v.with_unit then le_bytes 2 (text_size v.unit) else [])
        ++ (text_bytes v.name ++ text_bytes v.unit))

-- A unit is given only where it is considered.
unfoldable pub IsVarInfo : Option VarInfo → Type 0
IsVarInfo none = Unit {0}
IsVarInfo (some v) = (v.with_unit ≡ true) ⊎ (v.unit ≡ none)

abbrev unit_size : VarInfo → ℕ
unit_size v = if v.with_unit then 2 else 0

abbrev unit_part : VarInfo → List ℕ
unit_part v = if v.with_unit then le_bytes 2 (text_size v.unit) else []

unit_length : (v : VarInfo) → length (unit_part v) ≡ unit_size v
unit_length v = elim (Bool-cases v.with_unit) [ inl e ↦ rw e refl | inr e ↦ rw e refl ]

-- The part of the size that is the unit's.
unit_fits :
    (v : VarInfo)
    → IsVarInfo (some v)
    → (if v.with_unit then 2 + text_size v.unit else 0) ≡ unit_size v + text_size v.unit
unfolding IsVarInfo text_size
unit_fits v (inl e) = rw e refl
unit_fits v (inr e) = elim (Bool-cases v.with_unit) [ inl w ↦ rw w refl | inr w ↦ rw (w, e) refl ]

unit-Wrote :
    (v : VarInfo) (a : DltContextData)
    → a.size + unit_size v ≤ length a.buffer
    → (e : DltContextData) × ((if v.with_unit
          then put a (le_bytes 2 (text_size v.unit))
          else some a)
        ≡ some e)
      × Wrote a e (unit_part v)
unit-Wrote v a l = elim (Bool-cases v.with_unit) [
  | inl e ↦ rw e (put-Wrote a (le_bytes 2 (text_size v.unit)) (rw e at l))
  | inr e ↦ rw e (a, refl, Wrote-nil a)
]

pub put_var_info-Wrote :
    (v : Option VarInfo) (log : DltContextData)
    → IsVarInfo v
    → log.size + var_info_size v ≤ length log.buffer
    → (e : DltContextData) × (put_var_info v log ≡ some e) × Wrote log e (var_info_bytes v)
unfolding put_var_info var_info_bytes var_info_size IsVarInfo
put_var_info-Wrote none log h fits = (log, refl, Wrote-nil log)
put_var_info-Wrote (some v) log h fits =
    let by_unit = unit_fits v h in
    let by_part = unit_length v in
    let by_name = length-text_bytes v.name in
    let (a, ea, wa) = put-Wrote log (le_bytes 2 (text_size v.name)) (omega (arith, fits)) in
    let (b, eb, wb) = unit-Wrote v a (omega (arith, fits, by_unit, wa.size_after, wa.same_block)) in
    let (c, ec, wc) = put_text-Wrote v.name b (
      omega (
        arith, fits, by_unit, by_part, wa.size_after, wa.same_block, wb.size_after, wb.same_block,
      )) in
    let (e, ee, we) = put_text-Wrote v.unit c (
      omega (
        arith, fits, by_unit, by_part, by_name, wa.size_after, wa.same_block, wb.size_after,
        wb.same_block, wc.size_after, wc.same_block,
      )) in
    (
      e,
      rw (ea, eb, ec) ee,
      Wrote-append log a e (le_bytes 2 (text_size v.name))
          (unit_part v ++ (text_bytes v.name ++ text_bytes v.unit)) wa
          (Wrote-append a b e (unit_part v) (text_bytes v.name ++ text_bytes v.unit) wb
            (Wrote-append b c e (text_bytes v.name) (text_bytes v.unit) wc we)),
    )

pub length-var_info_bytes :
    (v : Option VarInfo) → IsVarInfo v → length (var_info_bytes v) ≡ var_info_size v
unfolding var_info_bytes var_info_size IsVarInfo
length-var_info_bytes none h = refl
length-var_info_bytes (some v) h = omega (
  arith,
  unit_fits v h,
  unit_length v,
  length-text_bytes v.name,
  length-text_bytes v.unit,
  length-append (unit_part v) (text_bytes v.name ++ text_bytes v.unit),
  length-append (text_bytes v.name) (text_bytes v.unit),
)

unfoldable pub name_bytes : Bool → Option (List ℕ) → List ℕ
name_bytes with_var_info name =
    if with_var_info then le_bytes 2 (text_size name) ++ text_bytes name else []

pub put_name-Wrote :
    (with_var_info : Bool) (name : Option (List ℕ)) (log : DltContextData)
    → log.size + name_info_size with_var_info name ≤ length log.buffer
    → (e : DltContextData) × (put_name with_var_info name log ≡ some e)
      × Wrote log e (name_bytes with_var_info name)
unfolding put_name name_bytes
put_name-Wrote false name log h = (log, refl, Wrote-nil log)
put_name-Wrote true name log h =
    let (a, ea, wa) = put-Wrote log (le_bytes 2 (text_size name)) (omega (arith, h)) in
    let (e, ee, we) = put_text-Wrote name a (omega (arith, h, wa.size_after, wa.same_block)) in
    (e, rw ea ee, Wrote-append log a e (le_bytes 2 (text_size name)) (text_bytes name) wa we)

pub length-name_bytes :
    (with_var_info : Bool) (name : Option (List ℕ))
    → length (name_bytes with_var_info name) ≡ name_info_size with_var_info name
unfolding name_bytes
length-name_bytes false name = refl
length-name_bytes true name =
    omega
      (arith, length-append (le_bytes 2 (text_size name)) (text_bytes name), length-text_bytes name)
