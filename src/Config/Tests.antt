-- ===== src/Config/Tests.antt =====
-- Configuration files of shared/dlt_config_file_parser.c on concrete bytes.
use lr.Base.{ℕ, ◌≡◌, refl, some, List, [], ◌∷◌, arith}
use lr.Config.{
  DltConfigFile, read_file, read_lines, fgets_all, text_of, one_line, ignore_line, trim_line,
  read_line, store_line, set_section, is_section_name, set_section_data, add_entry, find_name,
  line_has_section, section_name, get_section_name_from_string, get_key_value, strtok, split_token,
}
use lr.Config.Values.{dlt_config_file_get_value}
use lr.Config.Sections.{all_given}
use lr.Config.RoundTrip.{print_sections, Prints, read_file-print_sections}
use lr.Config.Lookup.{Gives, dlt_config_file_get_value_lem}

abbrev filter_one : List ℕ
filter_one = b'F' ∷ b'1' ∷ []

abbrev log : List ℕ
log = b'L' ∷ b'o' ∷ b'g' ∷ []

abbrev info : List ℕ
info = b'I' ∷ b'N' ∷ []

-- [F1] with Log=IN
abbrev one_section : DltConfigFile
one_section = record {
  sections =
      (record {
        num_entries = 1;
        name = filter_one;
        list = (record { key = some log; value = some info }) ∷ [];
      })
      ∷ [];
}

abbrev empty : DltConfigFile
empty = record { sections = [] }

-- Blanks go, a second section of the same name is dropped with its entries, and of `a=b=c` the value is
-- `b`.
abbrev sample : List ℕ
sample =
    b'#' ∷ b'x' ∷ b'\n' ∷ b'[' ∷ b'F' ∷ b' ' ∷ b'1' ∷ b']' ∷ b'\n' ∷ b'L' ∷ b'o' ∷ b'g' ∷ b' '
    ∷ b'=' ∷ b' ' ∷ b'I' ∷ b'N' ∷ b'=' ∷ b'Z' ∷ b'\n' ∷ b'[' ∷ b'F' ∷ b'1' ∷ b']' ∷ b'\n' ∷ b'k'
    ∷ b'=' ∷ b'v' ∷ []

read_sample : read_file (λ n. all_given) empty sample ≡ one_section
unfolding read_file read_lines fgets_all text_of one_line ignore_line trim_line read_line store_line
    set_section is_section_name set_section_data add_entry find_name line_has_section section_name
    get_section_name_from_string get_key_value strtok split_token
read_sample = refl

always : (n : ℕ) → (λ (m : ℕ). all_given) n ≡ all_given
always n = refl

one_section-Prints : Prints [] one_section.sections
one_section-Prints = ground arith

read_file-print_sections_example :
    read_file (λ n. all_given) empty (print_sections one_section.sections) ≡ one_section
read_file-print_sections_example =
    read_file-print_sections (λ n. all_given) one_section always one_section-Prints (omega arith)

dlt_config_file_get_value_lem_example :
    Gives one_section.sections filter_one log (dlt_config_file_get_value one_section filter_one log)
dlt_config_file_get_value_lem_example = dlt_config_file_get_value_lem one_section filter_one log
