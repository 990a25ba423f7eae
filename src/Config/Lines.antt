-- ===== src/Config/Lines.antt =====
-- Printed lines of a configuration file, and what the parser of shared/dlt_config_file_parser.c makes of
-- them.
use lr.Base.{
  ◌&&◌, ℕ, zero, suc, ◌-◌, ◌≤◌, ◌<◌, ◌≡◌, ◌≢◌, refl, ap, ◌∙◌, Bool, true, false, some, List, [],
  ◌∷◌, ◌++◌, arith, length, take, ne→==, lt→leb,
}
use lr.Config.{
  Grant, DltConfigFile, entry_max_len, line_max_len, isspace, trim_line, ignore_line, section_name,
  get_section_name_from_string, line_has_section, split_token, strtok, get_key_value, new_section,
  new_data, read_line, store_line, one_line, set_section, set_section_data, fgets_all, onto_first,
  text_of,
}

-- No blank and no control char.
abbrev pub AllInk : List ℕ → Type 0
AllInk [] = Unit {0}
AllInk (c ∷ cs) = (33 ≤ c) × AllInk cs

-- Ink other than `=` and the brackets.
abbrev pub AllPlain : List ℕ → Type 0
AllPlain [] = Unit {0}
AllPlain (c ∷ cs) = (33 ≤ c) × (c ≢ b'=') × (c ≢ b'[') × (c ≢ b']') × AllPlain cs

pub AllPlain-AllInk : (cs : List ℕ) → AllPlain cs → AllInk cs
AllPlain-AllInk [] h = tt
AllPlain-AllInk (c ∷ cs) h = (h.0, AllPlain-AllInk cs h.4)

pub AllInk-append : (xs ys : List ℕ) → AllInk xs → AllInk ys → AllInk (xs ++ ys)
AllInk-append [] ys h k = k
AllInk-append (x ∷ xs) ys h k = (h.0, AllInk-append xs ys h.1 k)

-- A line that fits the buffer is read whole.
pub fgets_all-line :
    (l rest : List ℕ) (left : ℕ)
    → AllInk l
    → length l < left
    → fgets_all left (l ++ (b'\n' ∷ rest)) ≡ (l ++ (b'\n' ∷ [])) ∷ fgets_all (line_max_len - 1) rest
unfolding fgets_all
fgets_all-line [] rest left h k = refl
fgets_all-line (c ∷ l) rest left h k =
    rw (ne→== c b'\n' (λ e. absurd (omega arith)), lt→leb left 1 (omega arith))
      (ap (onto_first c) (fgets_all-line l rest (left - 1) h.1 (omega arith)))

pub text_of-line : (l : List ℕ) → AllInk l → text_of (l ++ (b'\n' ∷ [])) ≡ l ++ (b'\n' ∷ [])
unfolding text_of
text_of-line [] h = refl
text_of-line (c ∷ l) h =
    rw (ne→== c 0 (λ e. absurd (omega arith))) (ap (◌∷◌ c) (text_of-line l h.1))

isspace-ink : (c : ℕ) → 33 ≤ c → isspace c ≡ false
isspace-ink c h = ground arith

pub trim_line-line : (l : List ℕ) → AllInk l → trim_line (l ++ (b'\n' ∷ [])) ≡ l
unfolding trim_line
trim_line-line [] h = refl
trim_line-line (c ∷ l) h = rw (isspace-ink c h.0) (ap (◌∷◌ c) (trim_line-line l h.1))

section_name-plain :
    (n : ℕ) (name rest : List ℕ)
    → AllPlain name
    → length name ≤ n
    → section_name n (name ++ (b']' ∷ rest)) ≡ name
unfolding section_name
section_name-plain zero [] rest h k = refl
section_name-plain zero (c ∷ name) rest h k = absurd (omega arith)
section_name-plain (suc n) [] rest h k = refl
section_name-plain (suc n) (c ∷ name) rest h k =
    rw
      (
        ne→== c b'[' h.2,
        ne→== c b']' h.3,
        ne→== c b'\n' (λ e. absurd (omega arith)),
        isspace-ink c h.0,
      )
      (ap (◌∷◌ c) (section_name-plain n name rest h.4 (omega arith)))

split_token-plain :
    (key rest : List ℕ) → AllPlain key → split_token b'=' (key ++ (b'=' ∷ rest)) ≡ (key, rest)
unfolding split_token
split_token-plain [] rest h = refl
split_token-plain (c ∷ key) rest h =
    rw (ne→== c b'=' h.1) (rw (split_token-plain key rest h.4) refl)

split_token_last : (value : List ℕ) → AllPlain value → split_token b'=' value ≡ (value, [])
unfolding split_token
split_token_last [] h = refl
split_token_last (c ∷ value) h = rw (ne→== c b'=' h.1) (rw (split_token_last value h.4) refl)

strtok-plain :
    (key rest : List ℕ)
    → AllPlain key
    → 0 < length key
    → strtok b'=' (key ++ (b'=' ∷ rest)) ≡ some (key, rest)
unfolding strtok
strtok-plain [] rest h k = absurd (omega arith)
strtok-plain (c ∷ key) rest h k = rw (ne→== c b'=' h.1) (rw (split_token-plain key rest h.4) refl)

strtok_last :
    (value : List ℕ) → AllPlain value → 0 < length value → strtok b'=' value ≡ some (value, [])
unfolding strtok
strtok_last [] h k = absurd (omega arith)
strtok_last (c ∷ value) h k = rw (ne→== c b'=' h.1) (rw (split_token_last value h.4) refl)

pub take_short : (n : ℕ) (xs : List ℕ) → length xs ≤ n → take n xs ≡ xs
take_short zero [] h = refl
take_short zero (x ∷ xs) h = absurd (omega arith)
take_short (suc n) [] h = refl
take_short (suc n) (x ∷ xs) h = ap (◌∷◌ x) (take_short n xs (omega arith))

-- `[name]` and `key=value`, without the newline.
abbrev pub header_text : List ℕ → List ℕ
header_text name = b'[' ∷ (name ++ (b']' ∷ []))

abbrev pub entry_text : List ℕ → List ℕ → List ℕ
entry_text key value = key ++ (b'=' ∷ value)

read_line-data :
    (line key value : List ℕ)
    → line_has_section line ≡ false
    → get_key_value line ≡ some (key, value)
    → read_line line ≡ new_data key value
unfolding read_line
read_line-data line key value h k = rw (h, k) refl

-- Not the first char of a comment.
abbrev pub NoComment : List ℕ → Type 0
NoComment [] = Unit {0}
NoComment (c ∷ cs) = (c ≢ b'#') × (c ≢ b';')

pub one_line-header :
    (grant : Grant) (valid : Bool) (f : DltConfigFile) (name : List ℕ)
    → AllPlain name
    → length name < entry_max_len
    → one_line grant (valid, f) (header_text name ++ (b'\n' ∷ []))
      ≡ set_section (grant.first && grant.second) f name
unfolding one_line ignore_line read_line line_has_section get_section_name_from_string section_name
    store_line
one_line-header grant valid f name h k =
    ap (store_line grant (valid, f)) (ap read_line trimmed ∙ ap new_section named)
  where
    ink : AllInk (header_text name)
    ink = (omega arith, AllInk-append name (b']' ∷ []) (AllPlain-AllInk name h) (omega arith, tt))

    trimmed : trim_line (header_text name ++ (b'\n' ∷ [])) ≡ header_text name
    trimmed = trim_line-line (header_text name) ink

    named : section_name entry_max_len (header_text name) ≡ name
    named = section_name-plain 99 name [] h (omega arith)

pub one_line-entry :
    (grant : Grant) (f : DltConfigFile) (key value : List ℕ)
    → AllPlain key
    → AllPlain value
    → NoComment key
    → 0 < length key
    → 0 < length value
    → length key < entry_max_len
    → length value < entry_max_len
    → one_line grant (true, f) (entry_text key value ++ (b'\n' ∷ []))
      ≡ (true, record { sections = (set_section_data grant f.sections key value).1 })
unfolding one_line ignore_line read_line line_has_section get_key_value store_line
one_line-entry grant f [] value hk hv nc pk pv lk lv = absurd (omega arith)
one_line-entry grant f (c ∷ key) value hk hv nc pk pv lk lv =
    rw (ne→== c b'#' nc.0, ne→== c b';' nc.1, ne→== c b'\n' (λ e. absurd (omega arith)))
      (ap (store_line grant (true, f)) (ap read_line trimmed ∙ parsed))
  where
    ink : AllInk (entry_text (c ∷ key) value)
    ink =
        AllInk-append (c ∷ key) (b'=' ∷ value) (AllPlain-AllInk (c ∷ key) hk)
          (omega arith, AllPlain-AllInk value hv)

    trimmed : trim_line (entry_text (c ∷ key) value ++ (b'\n' ∷ [])) ≡ entry_text (c ∷ key) value
    trimmed = trim_line-line (entry_text (c ∷ key) value) ink

    split : get_key_value (entry_text (c ∷ key) value) ≡ some (c ∷ key, value)
    split = rw (strtok-plain (c ∷ key) value hk pk) (
        rw (strtok_last value hv pv) (
          rw
            (
              take_short (entry_max_len - 1) (c ∷ key) (omega arith),
              take_short (entry_max_len - 1) value (omega arith),
            )
            refl))

    parsed : read_line (entry_text (c ∷ key) value) ≡ new_data (c ∷ key) value
    parsed = read_line-data (entry_text (c ∷ key) value) (c ∷ key) value (ne→== c b'[' hk.2) split
