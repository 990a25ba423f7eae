-- ===== src/Config/Sections.antt =====
-- What storing a section or an entry does to the sections of a configuration file
-- (shared/dlt_config_file_parser.c).
use lr.Base.{
  ℕ, zero, suc, ◌+◌, ◌≤◌, ◌<◌, ◌≡◌, refl, sym, ap, ◌∙◌, ◌⊎◌, inl, inr, Bool, true, false, none,
  some, List, [], ◌∷◌, ◌++◌, arith, length, take, Bool-cases, Option-cases, bytes_eq, leb, lt→leb,
}
use lr.Config.{
  Grant, DltConfigFileSection, DltConfigFile, keys_max, sections_max, entry_max_len, same_text,
  find_name, is_section_name, set_section, add_entry, set_section_data,
}

pub take-take_self : (n : ℕ) (xs : List ℕ) → take n (take n xs) ≡ take n xs
take-take_self zero xs = refl
take-take_self (suc n) [] = refl
take-take_self (suc n) (x ∷ xs) = ap (◌∷◌ x) (take-take_self n xs)

pub length-take_le : (n : ℕ) (xs : List ℕ) → length (take n xs) ≤ n
length-take_le zero xs = omega arith
length-take_le (suc n) [] = omega arith
length-take_le (suc n) (x ∷ xs) = omega (arith, length-take_le n xs)

bytes_eq_comm : (xs ys : List ℕ) → bytes_eq xs ys ≡ bytes_eq ys xs
bytes_eq_comm [] [] = refl
bytes_eq_comm [] (y ∷ ys) = refl
bytes_eq_comm (x ∷ xs) [] = refl
bytes_eq_comm (x ∷ xs) (y ∷ ys) = ground (arith, bytes_eq_comm xs ys)

-- The name is that of no section.
abbrev pub Fresh : List DltConfigFileSection → List ℕ → Type 0
Fresh [] name = Unit {0}
Fresh (s ∷ ss) name = (same_text s.name name ≡ false) × Fresh ss name

abbrev pub Distinct : List DltConfigFileSection → Type 0
Distinct [] = Unit {0}
Distinct (s ∷ ss) = Fresh ss s.name × Distinct ss

pub find_name-Fresh :
    (ss : List DltConfigFileSection) (name : List ℕ) → find_name ss name ≡ none → Fresh ss name
unfolding find_name
find_name-Fresh [] name h = tt
find_name-Fresh (s ∷ ss) name h = elim (Bool-cases (same_text s.name name)) [
  | inl e ↦ absurd (ground arith)
  | inr e ↦ (e, find_name-Fresh ss name (ground arith))
]

pub Fresh-find_name :
    (ss : List DltConfigFileSection) (name : List ℕ) → Fresh ss name → find_name ss name ≡ none
unfolding find_name
Fresh-find_name [] name h = refl
Fresh-find_name (s ∷ ss) name h = rw (h.0, Fresh-find_name ss name h.1) refl

pub Fresh-take :
    (ss : List DltConfigFileSection) (name : List ℕ)
    → Fresh ss name
    → Fresh ss (take entry_max_len name)
Fresh-take [] name h = tt
Fresh-take (s ∷ ss) name h = (
  ap (bytes_eq (take entry_max_len s.name)) (take-take_self entry_max_len name) ∙ h.0,
  Fresh-take ss name h.1,
)

Fresh-append :
    (ss : List DltConfigFileSection) (s : DltConfigFileSection) (name : List ℕ)
    → Fresh ss name
    → same_text s.name name ≡ false
    → Fresh (ss ++ s ∷ []) name
Fresh-append [] s name h e = (e, tt)
Fresh-append (t ∷ ss) s name h e = (h.0, Fresh-append ss s name h.1 e)

pub Distinct-append :
    (ss : List DltConfigFileSection) (s : DltConfigFileSection)
    → Distinct ss
    → Fresh ss s.name
    → Distinct (ss ++ s ∷ [])
Distinct-append [] s h k = (tt, tt)
Distinct-append (t ∷ ss) s h k = (
  Fresh-append ss s t.name h.0
      (bytes_eq_comm (take entry_max_len s.name) (take entry_max_len t.name) ∙ k.0),
  Distinct-append ss s h.1 k.1,
)

-- The ways in which storing a section ends.
abbrev pub SetSection : Bool → DltConfigFile → List ℕ → Bool × DltConfigFile → Type 0
SetSection grant f name r =
    ((r ≡ (false, f))
      × ((sections_max ≤ length f.sections)
          ⊎ ((find_name f.sections name ≡ none → ⊥) ⊎ (grant ≡ false))))
    ⊎ ((length f.sections < sections_max)
        × Fresh f.sections name
        × (grant ≡ true)
        × (r ≡ (
          true,
          record {
            sections =
                f.sections
                ++ (record { num_entries = 0; name = take entry_max_len name; list = [] }) ∷ [];
          },
        )))

pub set_section-SetSection :
    (grant : Bool) (f : DltConfigFile) (name : List ℕ)
    → SetSection grant f name (set_section grant f name)
unfolding set_section is_section_name
set_section-SetSection grant f name = elim (Bool-cases (leb sections_max (length f.sections))) [
  | inl full ↦ inl (rw full refl, inl (ground arith))
  | inr room ↦ elim (Option-cases (find_name f.sections name)) [
    | inr (i, e) ↦ inl (
      rw room (rw (e, is_section_name) refl),
      inr (inl (λ n. let w : none ≡ some i = sym n ∙ e in cc)),
    )
    | inl e ↦ elim (Bool-cases grant) [
      | inl g ↦ inr (
        ground arith,
        find_name-Fresh f.sections name e,
        g,
        rw room (rw (e, is_section_name) (rw g refl)),
      )
      | inr g ↦ inl (rw room (rw (e, is_section_name) (rw g refl)), inr (inr g))
    ]
  ]
]

-- All memory is given.
abbrev pub all_given : Grant
all_given = record { first = true; second = true; third = true }

-- An entry that is stored stands in the last section.
pub set_section_data-append :
    (grant : Grant) (ss : List DltConfigFileSection) (s : DltConfigFileSection) (key value : List ℕ)
    → (set_section_data grant (ss ++ s ∷ []) key value).1
      ≡ ss ++ (add_entry grant s key value).1 ∷ []
unfolding set_section_data
set_section_data-append grant [] s key value = refl
set_section_data-append grant (t ∷ []) s key value = refl
set_section_data-append grant (t ∷ (u ∷ ss)) s key value =
    ap (◌∷◌ t) (set_section_data-append grant (u ∷ ss) s key value)

pub add_entry-name :
    (grant : Grant) (s : DltConfigFileSection) (key value : List ℕ)
    → (add_entry grant s key value).1.name ≡ s.name
unfolding add_entry
add_entry-name grant s key value = ground arith

pub add_entry_stored :
    (s : DltConfigFileSection) (key value : List ℕ)
    → s.num_entries + 1 < keys_max
    → (add_entry all_given s key value).1 ≡ record s {
      list = s.list ++ (record { key = some key; value = some value }) ∷ [];
      num_entries = s.num_entries + 1;
    }
unfolding add_entry
add_entry_stored s key value h = ground arith

Fresh-set_section_data :
    (grant : Grant) (ss : List DltConfigFileSection) (key value name : List ℕ)
    → Fresh ss name
    → Fresh (set_section_data grant ss key value).1 name
unfolding set_section_data
Fresh-set_section_data grant [] key value name h = tt
Fresh-set_section_data grant (s ∷ []) key value name h =
    (ap (λ n. same_text n name) (add_entry-name grant s key value) ∙ h.0, tt)
Fresh-set_section_data grant (s ∷ (t ∷ ss)) key value name h =
    (h.0, Fresh-set_section_data grant (t ∷ ss) key value name h.1)

pub Distinct-set_section_data :
    (grant : Grant) (ss : List DltConfigFileSection) (key value : List ℕ)
    → Distinct ss
    → Distinct (set_section_data grant ss key value).1
unfolding set_section_data
Distinct-set_section_data grant [] key value h = tt
Distinct-set_section_data grant (s ∷ []) key value h = (tt, tt)
Distinct-set_section_data grant (s ∷ (t ∷ ss)) key value h = (
  Fresh-set_section_data grant (t ∷ ss) key value s.name h.0,
  Distinct-set_section_data grant (t ∷ ss) key value h.1,
)

pub length-set_section_data :
    (grant : Grant) (ss : List DltConfigFileSection) (key value : List ℕ)
    → length (set_section_data grant ss key value).1 ≡ length ss
unfolding set_section_data
length-set_section_data grant [] key value = refl
length-set_section_data grant (s ∷ []) key value = refl
length-set_section_data grant (s ∷ (t ∷ ss)) key value =
    ap suc (length-set_section_data grant (t ∷ ss) key value)

pub set_section_stored :
    (f : DltConfigFile) (name : List ℕ)
    → length f.sections < sections_max
    → Fresh f.sections name
    → set_section true f name ≡ (
      true,
      record {
        sections =
            f.sections
            ++ (record { num_entries = 0; name = take entry_max_len name; list = [] }) ∷ [];
      },
    )
unfolding set_section is_section_name
set_section_stored f name h k =
    rw (lt→leb sections_max (length f.sections) h)
      (rw (Fresh-find_name f.sections name k, is_section_name) refl)
