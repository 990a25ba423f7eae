-- ===== src/User/CStrings.antt =====
-- The name and the unit of an argument as C strings (lib/dlt_user.c): what the sizes and the copies of
-- `dlt_user_log_write_generic_attr` and its like come to where the 16-bit sizes do not wrap.
use lr.Base.{
  ℕ, ◌+◌, ◌/◌, ◌%◌, ◌<◌, ◌≡◌, refl, Bool, true, false, Option, none, some, List, [], ◌∷◌, ◌++◌,
  arith, length, length-append, if◌then◌else◌, zero, suc,
}
use lr.User.{VarInfo, le_bytes, text_size, text_bytes, vari_type, raw_type}
use lr.User.Written.{slice_all}
use lr.User.Named.{var_info_bytes, name_bytes}

-- The chars of a text and the terminating zero; nothing for a null pointer.
abbrev pub c_string : Option (List ℕ) → List ℕ
c_string none = []
c_string (some t) = t ++ 0 ∷ []

-- With its terminating zero the text is shorter than 2 ^ 16.
abbrev pub IsShort : Option (List ℕ) → Type 0
IsShort t = length (c_string t) < 65536

abbrev pub IsShortInfo : Option VarInfo → Type 0
IsShortInfo none = Unit {0}
IsShortInfo (some v) = IsShort v.name × IsShort v.unit

-- The sizes of the name and, where a unit is considered, of the unit, then both.
abbrev pub c_strings : Option VarInfo → List ℕ
c_strings none = []
c_strings (some v) =
    le_bytes 2 (length (c_string v.name))
    ++ ((if v.with_unit then le_bytes 2 (length (c_string v.unit)) else [])
        ++ (c_string v.name ++ c_string v.unit))

abbrev pub c_name : Bool → Option (List ℕ) → List ℕ
c_name true name = le_bytes 2 (length (c_string name)) ++ c_string name
c_name false name = []

-- Bit 11 of the type, which is not set before, tells that there is a name.
abbrev pub attr_type : Option VarInfo → ℕ → ℕ
attr_type none type_info = type_info
attr_type (some v) type_info = type_info + 2048

-- The type of raw data in each format: bit 10, for the hexadecimal formats bit 16 and the format, for
-- the binary ones bits 15 and 16 and the number of the format among these.
abbrev pub format_type : ℕ → ℕ
format_type format = elim format [
  | zero ↦ 1024
  | suc zero ↦ 66561
  | suc (suc zero) ↦ 66562
  | suc (suc (suc zero)) ↦ 66563
  | suc (suc (suc (suc zero))) ↦ 66564
  | suc (suc (suc (suc (suc zero)))) ↦ 99329
  | suc (suc (suc (suc (suc (suc n))))) ↦ 99330
]

abbrev pub named_type : Bool → ℕ → ℕ
named_type true format = format_type format + 2048
named_type false format = format_type format

text_size-c_string : (t : Option (List ℕ)) → IsShort t → text_size t ≡ length (c_string t)
unfolding text_size
text_size-c_string none h = refl
text_size-c_string (some t) h = omega (arith, h, length-append t (0 ∷ []))

text_bytes-c_string : (t : Option (List ℕ)) → IsShort t → text_bytes t ≡ c_string t
unfolding text_bytes
text_bytes-c_string none h = refl
text_bytes-c_string (some t) h = rw (text_size-c_string (some t) h) (slice_all (t ++ 0 ∷ []))

pub var_info_bytes-c_strings : (v : Option VarInfo) → IsShortInfo v → var_info_bytes v ≡ c_strings v
unfolding var_info_bytes
var_info_bytes-c_strings none h = refl
var_info_bytes-c_strings (some v) (name, unit) =
    rw
      (
        text_size-c_string v.name name,
        text_size-c_string v.unit unit,
        text_bytes-c_string v.name name,
        text_bytes-c_string v.unit unit,
      )
      refl

pub name_bytes-c_name :
    (with_var_info : Bool) (name : Option (List ℕ))
    → IsShort name
    → name_bytes with_var_info name ≡ c_name with_var_info name
unfolding name_bytes
name_bytes-c_name true name h = rw (text_size-c_string name h, text_bytes-c_string name h) refl
name_bytes-c_name false name h = refl

pub vari_type-attr_type :
    (v : Option VarInfo) (type_info : ℕ)
    → type_info / 2048 % 2 ≡ 0
    → vari_type v type_info ≡ attr_type v type_info
vari_type-attr_type none type_info h = refl
vari_type-attr_type (some v) type_info h = rw h refl

pub raw_type-named_type :
    (format : ℕ) (with_var_info : Bool)
    → format < 7
    → raw_type format with_var_info ≡ named_type with_var_info format
unfolding raw_type
raw_type-named_type zero true h = refl
raw_type-named_type zero false h = refl
raw_type-named_type (suc zero) true h = refl
raw_type-named_type (suc zero) false h = refl
raw_type-named_type (suc (suc zero)) true h = refl
raw_type-named_type (suc (suc zero)) false h = refl
raw_type-named_type (suc (suc (suc zero))) true h = refl
raw_type-named_type (suc (suc (suc zero))) false h = refl
raw_type-named_type (suc (suc (suc (suc zero)))) true h = refl
raw_type-named_type (suc (suc (suc (suc zero)))) false h = refl
raw_type-named_type (suc (suc (suc (suc (suc zero))))) true h = refl
raw_type-named_type (suc (suc (suc (suc (suc zero))))) false h = refl
raw_type-named_type (suc (suc (suc (suc (suc (suc zero)))))) true h = refl
raw_type-named_type (suc (suc (suc (suc (suc (suc zero)))))) false h = refl
raw_type-named_type (suc (suc (suc (suc (suc (suc (suc n))))))) w h = absurd (omega arith)
