-- ===== src/Config/RoundTrip.antt =====
-- A configuration file that is printed and read by shared/dlt_config_file_parser.c.
use lr.Base.{
  Option, none, some, ℕ, ◌+◌, ◌-◌, ◌≤◌, ◌<◌, ◌≡◌, refl, sym, ap, ap₂, ◌∙◌, Bool, true, false, List,
  [], ◌∷◌, ◌++◌, arith, length, length-append, take, append_assoc, append-nil,
}
use lr.Config.{
  Grant, DltConfigKeyData, DltConfigFileSection, DltConfigFile, entry_max_len, line_max_len,
  keys_max, sections_max, read_lines, fgets_all, texts, one_line, Reading, read_file,
}
use lr.Config.Sections.{
  all_given, Fresh, set_section_stored, set_section_data-append, add_entry_stored,
}
use lr.Config.Lines.{
  AllInk, AllPlain, AllPlain-AllInk, AllInk-append, NoComment, header_text, entry_text,
  fgets_all-line, text_of-line, one_line-header, one_line-entry, take_short,
}

-- The text at a pointer, empty for a null pointer.
abbrev pub text_at : Option (List ℕ) → List ℕ
text_at none = []
text_at (some t) = t

abbrev pub key_of : DltConfigKeyData → List ℕ
key_of e = text_at e.key

abbrev pub value_of : DltConfigKeyData → List ℕ
value_of e = text_at e.value

some-text_at : (o : Option (List ℕ)) → 0 < length (text_at o) → some (text_at o) ≡ o
some-text_at none h = absurd (omega arith)
some-text_at (some t) h = refl

abbrev pub print_entries : List DltConfigKeyData → List ℕ
print_entries [] = []
print_entries (e ∷ es) = entry_text (key_of e) (value_of e) ++ (b'\n' ∷ print_entries es)

abbrev pub print_sections : List DltConfigFileSection → List ℕ
print_sections [] = []
print_sections (s ∷ ss) =
    header_text s.name ++ (b'\n' ∷ (print_entries s.list ++ print_sections ss))

-- Keys and values are plain, short and not empty; no key starts a comment.
pub record IsEntry (e : DltConfigKeyData) : Type 0 where
  pub key_plain : AllPlain (key_of e)
  pub value_plain : AllPlain (value_of e)
  pub key_first : NoComment (key_of e)
  pub key_some : 0 < length (key_of e)
  pub value_some : 0 < length (value_of e)
  pub key_short : length (key_of e) < entry_max_len
  pub value_short : length (value_of e) < entry_max_len

abbrev pub AllEntries : List DltConfigKeyData → Type 0
AllEntries [] = Unit {0}
AllEntries (e ∷ es) = IsEntry e × AllEntries es

pub record IsPrintable (s : DltConfigFileSection) : Type 0 where
  pub name_plain : AllPlain s.name
  pub name_short : length s.name < entry_max_len
  pub entries : AllEntries s.list
  pub counted : s.num_entries ≡ length s.list
  pub within : s.num_entries < keys_max

-- The sections are printable, and no name stands in `before` or further up.
abbrev pub Prints : List DltConfigFileSection → List DltConfigFileSection → Type 0
Prints before [] = Unit {0}
Prints before (s ∷ ss) = IsPrintable s × Fresh before s.name × Prints (before ++ s ∷ []) ss

module _ (grants : ℕ → Grant) (granted : (n : ℕ) → grants n ≡ all_given) where
  abbrev run : ℕ → Reading → List ℕ → DltConfigFile
  run n r bytes = read_lines grants n r (texts (fgets_all (line_max_len - 1) bytes))

  run-line :
      (n : ℕ) (r : Reading) (l rest : List ℕ)
      → AllInk l
      → length l < line_max_len - 1
      → run n r (l ++ (b'\n' ∷ rest)) ≡ run (n + 1) (one_line all_given r (l ++ (b'\n' ∷ []))) rest
  unfolding read_lines
  run-line n r l rest h k =
      ap (λ ls. read_lines grants n r (texts ls)) (fgets_all-line l rest (line_max_len - 1) h k)
      ∙ ap₂
          (λ g t.
            read_lines grants (n + 1) (one_line g r t) (texts (fgets_all (line_max_len - 1) rest)))
          (granted (n + 1)) (text_of-line l h)

  -- A section with more entries.
  abbrev with_entries : DltConfigFileSection → List DltConfigKeyData → DltConfigFileSection
  with_entries s es = record s { list = s.list ++ es; num_entries = s.num_entries + length es }

  abbrev at_section : List DltConfigFileSection → DltConfigFileSection → Reading
  at_section before s = (true, record { sections = before ++ s ∷ [] })

  run-entry :
      (n : ℕ) (before : List DltConfigFileSection) (s : DltConfigFileSection) (e : DltConfigKeyData)
      (rest : List ℕ)
      → IsEntry e
      → s.num_entries + 1 < keys_max
      → run n (at_section before s) (entry_text (key_of e) (value_of e) ++ (b'\n' ∷ rest))
        ≡ run
            (n + 1)
            (at_section before
              (record s { list = s.list ++ e ∷ []; num_entries = s.num_entries + 1 }))
            rest
  run-entry n before s e rest v k =
      run-line n (at_section before s) (entry_text (key_of e) (value_of e)) rest
        (AllInk-append (key_of e) (b'=' ∷ (value_of e)) (AllPlain-AllInk (key_of e) v.key_plain)
          (omega arith, AllPlain-AllInk (value_of e) v.value_plain))
        (omega (arith, length-append (key_of e) (b'=' ∷ (value_of e)), v.key_short, v.value_short))
      ∙ ap (λ r. run (n + 1) r rest)
          (one_line-entry all_given (record { sections = before ++ s ∷ [] }) (key_of e) (value_of e)
              v.key_plain v.value_plain v.key_first v.key_some v.value_some v.key_short
              v.value_short
            ∙ ap (λ ss. (true, record { sections = ss }))
                (set_section_data-append all_given before s (key_of e) (value_of e)
                  ∙ ap (λ t. before ++ t ∷ [])
                      (add_entry_stored s (key_of e) (value_of e) k
                        ∙ ap₂
                            (λ x y. record s {
                              list = s.list ++ (record { key = x; value = y }) ∷ [];
                              num_entries = s.num_entries + 1;
                            })
                            (some-text_at e.key v.key_some) (some-text_at e.value v.value_some))))

  run-entries :
      (n : ℕ) (before : List DltConfigFileSection) (s : DltConfigFileSection)
      (es : List DltConfigKeyData) (rest : List ℕ)
      → AllEntries es
      → s.num_entries + length es < keys_max
      → (m : ℕ) × (run n (at_section before s) (print_entries es ++ rest)
          ≡ run m (at_section before (with_entries s es)) rest)
  run-entries n before s [] rest v k = (
    n,
    ap₂ (λ l c. run n (at_section before (record s { list = l; num_entries = c })) rest)
        (sym (append-nil s.list)) more_none,
  )
    where
      more_none : s.num_entries ≡ s.num_entries + 0
      more_none = omega arith
  run-entries n before s (e ∷ es) rest v k =
      let s1 : DltConfigFileSection = record s {
        list = s.list ++ e ∷ [];
        num_entries = s.num_entries + 1;
      } in
      let (m, p) = run-entries (n + 1) before s1 es rest v.1 (omega arith) in
      (
        m,
        ap (run n (at_section before s))
              (append_assoc (entry_text (key_of e) (value_of e)) (b'\n' ∷ print_entries es) rest)
            ∙ run-entry n before s e (print_entries es ++ rest) v.0 (omega arith)
            ∙ p
            ∙ ap₂ (λ l c. run m (at_section before (record s { list = l; num_entries = c })) rest)
                (append_assoc s.list (e ∷ []) es) (omega arith),
      )

  run-nil : (n : ℕ) (r : Reading) → run n r [] ≡ r.1
  unfolding read_lines fgets_all
  run-nil n r = refl

  run-sections :
      (n : ℕ) (valid : Bool) (before ss : List DltConfigFileSection)
      → Prints before ss
      → length before + length ss ≤ sections_max
      → run n (valid, record { sections = before }) (print_sections ss)
        ≡ record { sections = before ++ ss }
  run-sections n valid before [] v k =
      run-nil n (valid, record { sections = before })
      ∙ ap (λ l. record { sections = l }) (sym (append-nil before))
  run-sections n valid before (s ∷ ss) v k =
      let (m, p) =
        run-entries (n + 1) before s0 s.list (print_sections ss) v.0.entries
          (omega (arith, v.0.counted, v.0.within)) in
      run-line n (valid, file) (header_text s.name) (print_entries s.list ++ print_sections ss)
        (
          omega arith,
          AllInk-append s.name (b']' ∷ []) (AllPlain-AllInk s.name v.0.name_plain)
              (omega arith, tt),
        )
        (omega (arith, length-append s.name (b']' ∷ []), v.0.name_short))
      ∙ ap (λ r. run (n + 1) r (print_entries s.list ++ print_sections ss))
          (one_line-header all_given valid file s.name v.0.name_plain v.0.name_short
            ∙ set_section_stored file s.name (omega arith) v.1)
      ∙ p
      ∙ ap (λ t. run m (at_section before t) (print_sections ss)) same
      ∙ run-sections m true (before ++ s ∷ []) ss v.2 (omega (arith, length-append before (s ∷ [])))
      ∙ ap (λ l. record { sections = l }) (append_assoc before (s ∷ []) ss)
    where
      file : DltConfigFile
      file = record { sections = before }

      s0 : DltConfigFileSection
      s0 = record { num_entries = 0; name = take entry_max_len s.name; list = [] }

      same : with_entries s0 s.list ≡ s
      same =
          ap₂ (λ c t. record s { num_entries = c; name = t }) {x = 0 + length s.list}
            (omega (arith, v.0.counted))
            (take_short entry_max_len s.name (omega (arith, v.0.name_short)))

-- A file whose sections are printable, no two with the same name, 125 at most, comes back when its
-- printed form is read into an empty file and all memory is given: the same sections in order, each
-- with its entries in order and their count.
pub read_file-print_sections :
    (grants : ℕ → Grant) (f : DltConfigFile)
    → ((n : ℕ) → grants n ≡ all_given)
    → Prints [] f.sections
    → length f.sections ≤ sections_max
    → read_file grants (record { sections = [] }) (print_sections f.sections) ≡ f
unfolding read_file
read_file-print_sections grants f granted v k =
    run-sections grants granted 0 false [] f.sections v (omega arith)
