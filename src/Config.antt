-- ===== src/Config.antt =====
-- Configuration files of shared/dlt_config_file_parser.c: reading a file line by line into sections of keys
-- and values, and looking values up.
-- A C text is the list of its chars before the terminating zero. The sections in use and the linked
-- list of a section are lists; the char array `keys`, which is written and never read, is left out.
-- `grants n` says which of the blocks asked for at line `n`, or on opening the file for `n` = 0, are given.
pub mod Sections
pub mod Invariant
pub mod Lines
pub mod RoundTrip
pub mod Values
pub mod Lookup
mod Tests
use lr.Base.{
  ℕ, zero, suc, ◌+◌, ◌-◌, Bool, true, false, not, ◌&&◌, ◌||◌, Option, none, some, List, [], ◌∷◌,
  ◌++◌, length, take, leb, ltb, ◌==◌, if◌then◌else◌, ◌>>=◌, bytes_eq, get_elem?,
}

-- Which of the blocks asked for in one round are given, in the order in which the code asks.
pub record Grant : Type 0 where
  pub first : Bool
  pub second : Bool
  pub third : Bool

abbrev pub entry_max_len : ℕ
entry_max_len = 100

abbrev pub line_max_len : ℕ
line_max_len = 210

abbrev pub sections_max : ℕ
sections_max = 125

abbrev pub keys_max : ℕ
keys_max = 25

-- A null pointer is `none`.
pub record DltConfigKeyData : Type 0 where
  pub key : Option (List ℕ)
  pub value : Option (List ℕ)

pub record DltConfigFileSection : Type 0 where
  pub num_entries : ℕ
  pub name : List ℕ
  pub list : List DltConfigKeyData

pub record DltConfigFile : Type 0 where
  pub sections : List DltConfigFileSection

abbrev pub num_sections : DltConfigFile → ℕ
num_sections f = length f.sections

-- isspace in the C locale
abbrev pub isspace : ℕ → Bool
isspace c = c == 32 || (leb 9 c && leb c 13)

-- strncmp(a, b, DLT_CONFIG_FILE_ENTRY_MAX_LEN) == 0
abbrev pub same_text : List ℕ → List ℕ → Bool
same_text a b = bytes_eq (take entry_max_len a) (take entry_max_len b)

-- Trims all whitespace.
unfoldable pub trim_line : List ℕ → List ℕ
trim_line [] = []
trim_line (c ∷ line) = if isspace c then trim_line line else c ∷ trim_line line

unfoldable pub ignore_line : List ℕ → Bool
ignore_line [] = true
ignore_line (c ∷ line) = c == b'#' || c == b';' || c == b'\n'

unfoldable pub find_name : List DltConfigFileSection → List ℕ → Option ℕ
find_name [] name = none
find_name (s ∷ ss) name =
    let rest : Option ℕ = find_name ss name >>= λ i. some (suc i) in
    if same_text s.name name then some 0 else rest

-- True where the name is not used yet.
unfoldable pub is_section_name : DltConfigFile → List ℕ → Bool
is_section_name f name = elim (find_name f.sections name) [ none ↦ true | some i ↦ false ]

-- The flag says whether the section was stored.
unfoldable pub set_section : Bool → DltConfigFile → List ℕ → Bool × DltConfigFile
set_section grant f name =
    if leb sections_max (num_sections f)
    then (false, f)
    else if not (is_section_name f name)
    then (false, f)
    else if grant
    then (
      true,
      record f {
        sections =
            f.sections
            ++ (record { num_entries = 0; name = take entry_max_len name; list = [] }) ∷ [];
      },
    )
    else (false, f)

-- strdup, which gives a null pointer where it gets no memory.
abbrev pub strdup : Bool → List ℕ → Option (List ℕ)
strdup given text = if given then some text else none

-- One section gets the entry behind those it has.
unfoldable pub add_entry :
    Grant → DltConfigFileSection → List ℕ → List ℕ → Bool × DltConfigFileSection
add_entry grant s key value =
    if leb keys_max (s.num_entries + 1)
    then (false, s)
    else if grant.first
    then (
      true,
      record s {
        list =
            s.list
            ++ (record { key = strdup grant.second key; value = strdup grant.third value }) ∷ [];
        num_entries = s.num_entries + 1;
      },
    )
    else (false, s)

-- The last section gets the entry. Without a section this is not called.
unfoldable pub set_section_data :
    Grant → List DltConfigFileSection → List ℕ → List ℕ → Bool × List DltConfigFileSection
set_section_data grant [] key value = (false, [])
set_section_data grant (s ∷ []) key value =
    let (stored, s') = add_entry grant s key value in (stored, s' ∷ [])
set_section_data grant (s ∷ (t ∷ ss)) key value =
    let (stored, ss') = set_section_data grant (t ∷ ss) key value in (stored, s ∷ ss')

unfoldable pub line_has_section : List ℕ → Bool
line_has_section [] = false
line_has_section (c ∷ line) = c == b'['

-- The loop over the first `n` chars of the line.
unfoldable pub section_name : ℕ → List ℕ → List ℕ
section_name zero line = []
section_name (suc n) [] = []
section_name (suc n) (c ∷ line) =
    let rest : List ℕ = section_name n line in
    if c == b'[' || isspace c then rest else if c == b']' || c == b'\n' then [] else c ∷ rest

unfoldable pub get_section_name_from_string : List ℕ → List ℕ
unfolding section_name
get_section_name_from_string line = section_name entry_max_len line

-- The chars before the first delimiter `d`, and those behind it.
unfoldable pub split_token : ℕ → List ℕ → List ℕ × List ℕ
split_token d [] = ([], [])
split_token d (c ∷ text) =
    let rest : List ℕ × List ℕ = split_token d text in
    if c == d then ([], text) else (c ∷ rest.0, rest.1)

-- strtok_r with one delimiter: the next token and the text behind it.
unfoldable pub strtok : ℕ → List ℕ → Option (List ℕ × List ℕ)
unfolding split_token
strtok d [] = none
strtok d (c ∷ text) =
    let rest : Option (List ℕ × List ℕ) = strtok d text in
    if c == d then rest else some (split_token d (c ∷ text))

unfoldable pub get_key_value : List ℕ → Option (List ℕ × List ℕ)
unfolding strtok
get_key_value line = do
  (key, rest) ← strtok b'=' line
  (value, rest') ← strtok b'=' rest
  some (take (entry_max_len - 1) key, take (entry_max_len - 1) value)

-- What a line is: `new_section` is DLT_CONFIG_FILE_NEW_SECTION, `new_data` DLT_CONFIG_FILE_NEW_DATA.
pub data Line : Type 0 where
  new_section : List ℕ → Line
  new_data : List ℕ → List ℕ → Line
  invalid : Line

unfoldable pub read_line : List ℕ → Line
unfolding line_has_section get_section_name_from_string get_key_value
read_line line =
    if line_has_section line
    then new_section (get_section_name_from_string line)
    else elim (get_key_value line) [ none ↦ invalid | some (key, value) ↦ new_data key value ]

-- The state of the reading loop: is_section_valid == 0, and the file.
abbrev pub Reading : Type 0
Reading = Bool × DltConfigFile

-- The switch on what a line is.
unfoldable pub store_line : Grant → Reading → Line → Reading
store_line grant (valid, f) (new_section name) = set_section (grant.first && grant.second) f name
store_line grant (valid, f) (new_data key value) =
    if valid
    then (valid, record f { sections = (set_section_data grant f.sections key value).1 })
    else (valid, f)
store_line grant (valid, f) invalid = (valid, f)

-- One round of the loop, on the text in the line buffer.
unfoldable pub one_line : Grant → Reading → List ℕ → Reading
unfolding ignore_line trim_line read_line store_line
one_line grant r line =
    if ignore_line line then r else store_line grant r (read_line (trim_line line))

unfoldable pub read_lines : (ℕ → Grant) → ℕ → Reading → List (List ℕ) → DltConfigFile
read_lines grants n (valid, f) [] = f
read_lines grants n r (line ∷ lines) =
    read_lines grants (n + 1) (one_line (grants (n + 1)) r line) lines

-- The chars before the first zero.
unfoldable pub text_of : List ℕ → List ℕ
text_of [] = []
text_of (c ∷ cs) = if c == 0 then [] else c ∷ text_of cs

abbrev pub onto_first : ℕ → List (List ℕ) → List (List ℕ)
onto_first c [] = (c ∷ []) ∷ []
onto_first c (l ∷ ls) = (c ∷ l) ∷ ls

-- The pieces that fgets reads in turn, each up to a newline or the room of the buffer; `left` chars of
-- the current piece are left.
unfoldable pub fgets_all : ℕ → List ℕ → List (List ℕ)
fgets_all left [] = []
fgets_all left (c ∷ cs) =
    let ends : Bool = c == b'\n' || leb left 1 in
    let rest : List (List ℕ) = fgets_all (if ends then line_max_len - 1 else left - 1) cs in
    if ends then (c ∷ []) ∷ rest else onto_first c rest

abbrev pub texts : List (List ℕ) → List (List ℕ)
texts [] = []
texts (l ∷ ls) = text_of l ∷ texts ls

unfoldable pub read_file : (ℕ → Grant) → DltConfigFile → List ℕ → DltConfigFile
unfolding read_lines fgets_all text_of
read_file grants f bytes =
    read_lines grants 0 (false, f) (texts (fgets_all (line_max_len - 1) bytes))

-- Some line is a section header, for which `dlt_config_file_set_section` writes to the sections.
unfoldable pub any_section : List (List ℕ) → Bool
unfolding ignore_line trim_line line_has_section
any_section [] = false
any_section (line ∷ lines) =
    (not (ignore_line line) && line_has_section (trim_line line)) || any_section lines

-- The name of the file as a text, and its bytes, `none` if it cannot be opened. The result is `none`
-- for a write through the null pointer that stands for the sections where their block is not given,
-- and `some none` for the null pointer that the code returns.
unfoldable pub dlt_config_file_init :
    (ℕ → Grant) → List ℕ → Option (List ℕ) → Option (Option DltConfigFile)
unfolding read_file any_section fgets_all text_of
dlt_config_file_init grants file_name bytes =
    if leb 100 (length file_name)
    then some none
    else if (grants 0).first
    then elim bytes [
      | none ↦ some none
      | some b ↦
          if (grants 0).second
          then some (some (read_file grants (record { sections = [] }) b))
          else if any_section (texts (fgets_all (line_max_len - 1) b))
          then none
          else some (some (record { sections = [] }))
    ]
    else some none
