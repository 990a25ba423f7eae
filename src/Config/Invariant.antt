-- ===== src/Config/Invariant.antt =====
-- What holds of a configuration file (shared/dlt_config_file_parser.c) whatever is read into it.
use lr.Base.{
  ◌&&◌, ℕ, ◌+◌, ◌-◌, ◌≤◌, ◌<◌, ◌≡◌, refl, inl, inr, Bool, true, false, Option, none, some, List, [],
  ◌∷◌, ◌++◌, arith, length, length-append, take, Bool-cases, Option-cases, leb,
}
use lr.Config.{
  Grant, strdup, DltConfigKeyData, DltConfigFileSection, DltConfigFile, entry_max_len, keys_max,
  sections_max, set_section, add_entry, set_section_data, line_has_section, strtok, get_key_value,
  Line, new_section, new_data, invalid, read_line, Reading, store_line, one_line, ignore_line,
  trim_line,
}
use lr.Config.Sections.{
  Distinct, Distinct-append, Distinct-set_section_data, set_section-SetSection, length-take_le,
  Fresh-take, length-set_section_data,
}

-- A text that leaves room for a terminating zero in 100 chars, or a null pointer.
abbrev pub ShortText : Option (List ℕ) → Type 0
ShortText none = Unit {0}
ShortText (some t) = length t < entry_max_len

strdup-ShortText :
    (given : Bool) (t : List ℕ) → length t < entry_max_len → ShortText (strdup given t)
strdup-ShortText true t h = h
strdup-ShortText false t h = tt

-- Keys and values leave room for a terminating zero in 100 chars.
abbrev pub AllShort : List DltConfigKeyData → Type 0
AllShort [] = Unit {0}
AllShort (e ∷ es) = ShortText e.key × ShortText e.value × AllShort es

-- The count of entries is right, and below the limit.
pub record IsSection (s : DltConfigFileSection) : Type 0 where
  pub counted : s.num_entries ≡ length s.list
  pub within : s.num_entries < keys_max
  pub name_len : length s.name ≤ entry_max_len
  pub short : AllShort s.list

abbrev pub AllSections : List DltConfigFileSection → Type 0
AllSections [] = Unit {0}
AllSections (s ∷ ss) = IsSection s × AllSections ss

pub record IsValid (f : DltConfigFile) : Type 0 where
  pub within : length f.sections ≤ sections_max
  pub distinct : Distinct f.sections
  pub sections : AllSections f.sections

-- An entry is stored only where there is a section.
abbrev pub Ready : Reading → Type 0
Ready (valid, f) = IsValid f × (valid ≡ true → 0 < length f.sections)

AllSections-append :
    (ss : List DltConfigFileSection) (s : DltConfigFileSection)
    → AllSections ss
    → IsSection s
    → AllSections (ss ++ s ∷ [])
AllSections-append [] s h k = (k, tt)
AllSections-append (t ∷ ss) s h k = (h.0, AllSections-append ss s h.1 k)

AllShort-append :
    (es : List DltConfigKeyData) (e : DltConfigKeyData)
    → AllShort es
    → ShortText e.key
    → ShortText e.value
    → AllShort (es ++ e ∷ [])
AllShort-append [] e h k v = (k, v, tt)
AllShort-append (d ∷ es) e h k v = (h.0, h.1, AllShort-append es e h.2 k v)

add_entry-IsSection :
    (grant : Grant) (s : DltConfigFileSection) (key value : List ℕ)
    → IsSection s
    → length key < entry_max_len
    → length value < entry_max_len
    → IsSection (add_entry grant s key value).1
unfolding add_entry
add_entry-IsSection grant s key value h k v = elim (Bool-cases (leb keys_max (s.num_entries + 1))) [
  | inl full ↦ rw full h
  | inr room ↦ elim (Bool-cases grant.first) [
    | inr g ↦ rw (room, g) h
    | inl g ↦
        rw (room, g)
          (record {
            counted = omega (arith, h.counted, length-append s.list (entry ∷ []));
            within = ground arith;
            name_len = h.name_len;
            short =
                AllShort-append s.list entry h.short (strdup-ShortText grant.second key k)
                  (strdup-ShortText grant.third value v);
          })
  ]
]
  where
    entry : DltConfigKeyData
    entry = record { key = strdup grant.second key; value = strdup grant.third value }

set_section_data-AllSections :
    (grant : Grant) (ss : List DltConfigFileSection) (key value : List ℕ)
    → AllSections ss
    → length key < entry_max_len
    → length value < entry_max_len
    → AllSections (set_section_data grant ss key value).1
unfolding set_section_data
set_section_data-AllSections grant [] key value h k v = tt
set_section_data-AllSections grant (s ∷ []) key value h k v =
    (add_entry-IsSection grant s key value h.0 k v, tt)
set_section_data-AllSections grant (s ∷ (t ∷ ss)) key value h k v =
    (h.0, set_section_data-AllSections grant (t ∷ ss) key value h.1 k v)

pub set_section-Ready :
    (grant : Bool) (f : DltConfigFile) (name : List ℕ)
    → IsValid f
    → Ready (set_section grant f name)
set_section-Ready grant f name v = elim (set_section-SetSection grant f name) [
  | inl (e, _) ↦ rw e (v, λ h. absurd (cc))
  | inr (room, fresh, _, e) ↦ rw e (
    record {
      within = omega (
        arith,
        length-append f.sections
            ((record { num_entries = 0; name = take entry_max_len name; list = [] }) ∷ []),
      );
      distinct = Distinct-append f.sections _ v.distinct (Fresh-take f.sections name fresh);
      sections = AllSections-append f.sections _ v.sections (record {
        counted = refl;
        within = omega arith;
        name_len = length-take_le entry_max_len name;
        short = tt;
      });
    },
    λ h. omega (
      arith,
      length-append f.sections
          ((record { num_entries = 0; name = take entry_max_len name; list = [] }) ∷ []),
    ),
  )
]

abbrev ShortLine : Line → Type 0
ShortLine (new_section name) = Unit {0}
ShortLine (new_data key value) = (length key < entry_max_len) × (length value < entry_max_len)
ShortLine invalid = Unit {0}

abbrev data_line : Option (List ℕ × List ℕ) → Line
data_line none = invalid
data_line (some (key, value)) = new_data key value

data_line-ShortLine : (line : List ℕ) → ShortLine (data_line (get_key_value line))
unfolding get_key_value
data_line-ShortLine line = elim (Option-cases (strtok b'=' line)) [
  | inl e ↦ rw e tt
  | inr ((key, rest), e) ↦ elim (Option-cases (strtok b'=' rest)) [
    | inl e' ↦ rw e (rw e' tt)
    | inr ((value, rest'), e') ↦ rw e (
        rw e' (
          omega (arith, length-take_le (entry_max_len - 1) key),
          omega (arith, length-take_le (entry_max_len - 1) value),
        ))
  ]
]

read_line-ShortLine : (line : List ℕ) → ShortLine (read_line line)
unfolding read_line
read_line-ShortLine line = elim (Bool-cases (line_has_section line)) [
  | inl e ↦ rw e tt
  | inr e ↦ elim (Option-cases (get_key_value line)) [
    | inl k ↦ rw e (rw k tt)
    | inr ((key, value), k) ↦ rw e (rw k (rw k at (data_line-ShortLine line)))
  ]
]

store_line-Ready :
    (grant : Grant) (r : Reading) (l : Line) → Ready r → ShortLine l → Ready (store_line grant r l)
unfolding store_line
store_line-Ready grant (valid, f) (new_section name) h k =
    set_section-Ready (grant.first && grant.second) f name h.0
store_line-Ready grant (false, f) (new_data key value) h k = h
store_line-Ready grant (true, f) (new_data key value) h k = (
  record {
    within = omega (arith, length-set_section_data grant f.sections key value, h.0.within);
    distinct = Distinct-set_section_data grant f.sections key value h.0.distinct;
    sections = set_section_data-AllSections grant f.sections key value h.0.sections k.0 k.1;
  },
  λ e. omega (arith, length-set_section_data grant f.sections key value, h.1 refl),
)
store_line-Ready grant (valid, f) invalid h k = h

-- A round on a sound file leaves it sound.
pub one_line-Ready :
    (grant : Grant) (r : Reading) (line : List ℕ) → Ready r → Ready (one_line grant r line)
unfolding one_line
one_line-Ready grant r line h = elim (Bool-cases (ignore_line line)) [
  | inl e ↦ rw e h
  | inr e ↦ rw e (
      store_line-Ready grant r (read_line (trim_line line)) h
        (read_line-ShortLine (trim_line line)))
]
