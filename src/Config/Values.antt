-- ===== src/Config/Values.antt =====
-- Looking up sections and values in a configuration file of shared/dlt_config_file_parser.c.
use lr.Base.{
  ℕ, Bool, true, false, Option, none, some, List, [], ◌∷◌, take, ◌==◌, if◌then◌else◌, ◌>>=◌,
  get_elem?,
}
use lr.Config.{entry_max_len, DltConfigKeyData, DltConfigFile, num_sections, same_text, find_name}

-- `none` is the error, also on a file without sections.
unfoldable pub find_section : DltConfigFile → List ℕ → Option ℕ
unfolding find_name
find_section f section = if num_sections f == 0 then none else find_name f.sections section

unfoldable pub dlt_config_file_get_section_name : DltConfigFile → ℕ → Option (List ℕ)
dlt_config_file_get_section_name f num =
    get_elem? f.sections num >>= λ s. some (take entry_max_len s.name)

unfoldable pub dlt_config_file_get_num_sections : DltConfigFile → ℕ
dlt_config_file_get_num_sections f = num_sections f

-- `none` is a read through a null key or value, and `some none` the error.
unfoldable pub find_key : List DltConfigKeyData → List ℕ → Option (Option (List ℕ))
find_key [] key = some none
find_key (e ∷ es) key =
    let rest : Option (Option (List ℕ)) = find_key es key in
    e.key >>= λ k.
    if same_text k key then (e.value >>= λ v. some (some (take entry_max_len v))) else rest

unfoldable pub dlt_config_file_get_value :
    DltConfigFile → List ℕ → List ℕ → Option (Option (List ℕ))
unfolding find_section find_key
dlt_config_file_get_value f section key =
    elim (find_section f section >>= λ i. get_elem? f.sections i) [
      | none ↦ some none
      | some s ↦ find_key s.list key
    ]

unfoldable pub dlt_config_file_check_section_name_exists : DltConfigFile → List ℕ → Bool
unfolding find_section
dlt_config_file_check_section_name_exists f name = elim (find_section f name) [
  | none ↦ false
  | some i ↦ true
]
