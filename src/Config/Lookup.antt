-- ===== src/Config/Lookup.antt =====
-- What `dlt_config_file_get_value` of shared/dlt_config_file_parser.c finds.
use mathlib.Core.Path.{subst}
use lr.Base.{
  Option-cases, sym, ap, true, false, take, ◌++◌, ◌⊎◌, bytes_eq, bytes_eq_sound, bytes_eq_refl, ℕ,
  suc, ◌≡◌, refl, ◌∙◌, inl, inr, Option, none, some, List, [], ◌∷◌, arith, length, Bool-cases,
  get_elem?, ◌>>=◌, ne→==,
}
use lr.Config.{DltConfigKeyData, DltConfigFileSection, DltConfigFile, same_text, find_name}
use lr.Config.Values.{find_section, find_key, dlt_config_file_get_value}

-- Two texts have the same first 100 chars.
abbrev pub SameText : List ℕ → List ℕ → Type 0
SameText text other = take 100 text ≡ take 100 other

-- `P` holds of every element.
abbrev pub All : {A : Type 0} → (A → Type 0) → List A → Type 0
All P [] = Unit {0}
All P (x ∷ xs) = P x × All P xs

-- `x` stands in the list, and `P` holds of every element in front of it.
abbrev pub After : {A : Type 0} → (A → Type 0) → List A → A → Type 0
After {A} P xs x = (before : List A) × (after : List A) × (xs ≡ before ++ x ∷ after) × All P before

-- The entry has the key, or another one.
abbrev pub HasKey : List ℕ → DltConfigKeyData → Type 0
HasKey key e = (k : List ℕ) × (e.key ≡ some k) × SameText k key

abbrev pub OtherKey : List ℕ → DltConfigKeyData → Type 0
OtherKey key e = (k : List ℕ) × (e.key ≡ some k) × (SameText k key → ⊥)

-- What the entries give: an error where each has another key; the value, cut to 100 chars, of the
-- first entry with the key; and a read through a null pointer where that value is null or a null key
-- stands before.
abbrev pub GivesValue : List DltConfigKeyData → List ℕ → Option (Option (List ℕ)) → Type 0
GivesValue es key r =
    (All (OtherKey key) es × (r ≡ some none))
    ⊎ ((e : DltConfigKeyData) × After (OtherKey key) es e
        × ((HasKey key e × ((v : List ℕ) × (e.value ≡ some v) × (r ≡ some (some (take 100 v)))))
            ⊎ (((e.key ≡ none) ⊎ (HasKey key e × (e.value ≡ none))) × (r ≡ none))))

-- What the sections give: an error where none has the name, and otherwise what the entries of the first
-- one with the name give.
abbrev pub Gives : List DltConfigFileSection → List ℕ → List ℕ → Option (Option (List ℕ)) → Type 0
Gives ss section key r =
    (All (λ s. SameText s.name section → ⊥) ss × (r ≡ some none))
    ⊎ ((s : DltConfigFileSection) × After (λ t. SameText t.name section → ⊥) ss s
        × SameText s.name section
        × GivesValue s.list key r)

same_text_sound : (a b : List ℕ) → same_text a b ≡ true → SameText a b
same_text_sound a b h = bytes_eq_sound (take 100 a) (take 100 b) h

not_same : (a b : List ℕ) → same_text a b ≡ false → SameText a b → ⊥
not_same a b h k =
    let w : true ≡ false =
      sym (subst (λ l. bytes_eq (take 100 a) l ≡ true) k (bytes_eq_refl (take 100 a))) ∙ h in
    absurd (cc)

-- One entry more, of another key, in front.
GivesValue-next :
    (e : DltConfigKeyData) (es : List DltConfigKeyData) (key : List ℕ)
    (r : Option (Option (List ℕ)))
    → OtherKey key e
    → GivesValue es key r
    → GivesValue (e ∷ es) key r
GivesValue-next e es key r other (inl (no_key, g)) = inl ((other, no_key), g)
GivesValue-next e es key r other (inr (d, (before, after, split, no_key), g)) =
    inr (d, (e ∷ before, after, ap (◌∷◌ e) split, (other, no_key)), g)

find_key-GivesValue :
    (es : List DltConfigKeyData) (key : List ℕ) → GivesValue es key (find_key es key)
unfolding find_key
find_key-GivesValue [] key = inl (tt, refl)
find_key-GivesValue (e ∷ es) key = elim (Option-cases e.key) [
  | inl null ↦ inr (e, ([], es, refl, tt), inr (inl null, rw null refl))
  | inr (k, there) ↦ elim (Bool-cases (same_text k key)) [
    | inl same ↦
        let has : HasKey key e = (k, there, same_text_sound k key same) in
        inr (
          e,
          ([], es, refl, tt),
          elim (Option-cases e.value) [
            | inl null ↦ inr (inr (has, null), rw there (rw same (rw null refl)))
            | inr (v, given) ↦ inl (has, (v, given, rw there (rw same (rw given refl))))
          ],
        )
    | inr other ↦
        let found : find_key (e ∷ es) key ≡ find_key es key = rw there (rw other refl) in
        subst (GivesValue (e ∷ es) key) (sym found) (
          GivesValue-next e es key (find_key es key) (k, there, not_same k key other)
            (find_key-GivesValue es key))
  ]
]

-- The section that a search by its name finds.
abbrev section_of : List DltConfigFileSection → List ℕ → Option DltConfigFileSection
section_of ss section = find_name ss section >>= λ i. get_elem? ss i

abbrev in_section : List ℕ → Option DltConfigFileSection → Option (Option (List ℕ))
in_section key none = some none
in_section key (some s) = find_key s.list key

bind_shift :
    (o : Option ℕ) (s : DltConfigFileSection) (ss : List DltConfigFileSection)
    → (o >>= λ i. some (suc i)) >>= (λ i. get_elem? (s ∷ ss) i) ≡ (o >>= λ i. get_elem? ss i)
bind_shift none s ss = refl
bind_shift (some i) s ss = refl

section_of-Gives :
    (ss : List DltConfigFileSection) (section key : List ℕ)
    → Gives ss section key (in_section key (section_of ss section))
unfolding find_name
section_of-Gives [] section key = inl (tt, refl)
section_of-Gives (s ∷ ss) section key = elim (Bool-cases (same_text s.name section)) [
  | inl same ↦ inr (
    s,
    ([], ss, refl, tt),
    same_text_sound s.name section same,
    rw same (find_key-GivesValue s.list key),
  )
  | inr other ↦
      let not_here = not_same s.name section other in
      let found : section_of (s ∷ ss) section ≡ section_of ss section =
        rw other (bind_shift (find_name ss section) s ss) in
      subst (λ o. Gives (s ∷ ss) section key (in_section key o)) (sym found)
        (elim (section_of-Gives ss section key) [
          | inl (no_name, r) ↦ inl ((not_here, no_name), r)
          | inr (t, (before, after, split, no_name), same, gives) ↦
              inr (t, (s ∷ before, after, ap (◌∷◌ s) split, (not_here, no_name)), same, gives)
        ])
]

find_section_lem :
    (ss : List DltConfigFileSection) (section : List ℕ)
    → find_section (record { sections = ss }) section ≡ find_name ss section
unfolding find_section find_name
find_section_lem [] section = refl
find_section_lem (s ∷ ss) section = rw (ne→== (suc (length ss)) 0 (λ e. absurd (omega arith))) refl

in_section_lem :
    (o : Option DltConfigFileSection) (key : List ℕ)
    → ◌≡◌ {A = Option (Option (List ℕ))}
        (elim o [ none ↦ some none | some t ↦ find_key t.list key ])
        (in_section key o)
in_section_lem none key = refl
in_section_lem (some t) key = refl

at_sections :
    (f : DltConfigFile) (section key : List ℕ)
    → dlt_config_file_get_value f section key ≡ in_section key (section_of f.sections section)
unfolding dlt_config_file_get_value
at_sections f section key =
    in_section_lem (find_section f section >>= λ i. get_elem? f.sections i) key
    ∙ ap (λ o. in_section key (o >>= λ i. get_elem? f.sections i))
        (find_section_lem f.sections section)

-- Looking a value up gives the value, cut to 100 chars, of the first entry with the key in the first
-- section with the name, names and keys compared by their first 100 chars; it is an error where no
-- section has the name or that section no entry with the key, and a read through a null pointer where
-- a null key stands before or the value is null.
pub dlt_config_file_get_value_lem :
    (f : DltConfigFile) (section key : List ℕ)
    → Gives f.sections section key (dlt_config_file_get_value f section key)
dlt_config_file_get_value_lem f section key =
    subst (Gives f.sections section key) (sym (at_sections f section key))
      (section_of-Gives f.sections section key)
