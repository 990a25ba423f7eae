-- ===== src/Filter/File.antt =====
-- A filter written by `dlt_filter_save` and read by `dlt_filter_load` of shared/dlt_common.c.
use mathlib.Core.Path.{subst}
use lr.Base.{
  ℕ, suc, ◌+◌, ◌≤◌, ◌<◌, ◌≡◌, refl, sym, ap, ap₂, ◌∙◌, ◌⊎◌, inl, inr, Bool, false, ◌&&◌, some, none,
  List, [], ◌∷◌, ◌++◌, arith, length, append_assoc, append-nil, length-append, length-take,
  bytes_eq, ne→==, lt→ltb, return_ok,
}
use lr.Filter.{
  dlt_set_id, dlt_strnlen_s, dlt_print_id, Slot, DltFilter, used, covers, int32_max, find_slot,
  same_id, dlt_filter_find, dlt_filter_add, no_id, id_of_word, word_of_id, load_words,
  dlt_filter_load, save_slots, dlt_filter_save,
}
use lr.Filter.Changes.{IsValid, slot_of, filter_add-Found}
use lr.Filter.Slots.{AllFail}

-- An id that a filter file keeps: the empty one, or four chars with no blank or control char among
-- them, other than `----`.
abbrev pub Savable : List ℕ → Type 0
Savable id =
    (id ≡ 0 ∷ 0 ∷ 0 ∷ 0 ∷ [])
    ⊎ ((a : ℕ) × (b : ℕ) × (c : ℕ) × (d : ℕ) × (id ≡ a ∷ b ∷ c ∷ d ∷ [])
        × (33 ≤ a)
        × (33 ≤ b)
        × (33 ≤ c)
        × (33 ≤ d)
        × (bytes_eq id no_id ≡ false))

id_of_word-word_of_id : (id : List ℕ) → Savable id → id_of_word (word_of_id id) ≡ id
unfolding dlt_set_id dlt_print_id dlt_strnlen_s
id_of_word-word_of_id id (inl e) = rw e refl
id_of_word-word_of_id id (inr (a, b, c, d, e, ha, hb, hc, hd, n)) = rw e (
    rw
      (
        ne→== a 0 (omega arith),
        ne→== b 0 (omega arith),
        ne→== c 0 (omega arith),
        ne→== d 0 (omega arith),
      )
      (rw (sym (ap (λ l. bytes_eq l no_id) e) ∙ n) (
        rw
          (
            ne→== a 0 (omega arith),
            ne→== b 0 (omega arith),
            ne→== c 0 (omega arith),
            ne→== d 0 (omega arith),
          )
          refl)))

dlt_set_id-Savable : (id : List ℕ) → Savable id → dlt_set_id id ≡ id
unfolding dlt_set_id
dlt_set_id-Savable id (inl e) = rw e refl
dlt_set_id-Savable id (inr (a, b, c, d, e, ha, hb, hc, hd, n)) = rw e (
    rw
      (
        ne→== a 0 (omega arith),
        ne→== b 0 (omega arith),
        ne→== c 0 (omega arith),
        ne→== d 0 (omega arith),
      )
      refl)

-- What a file keeps of a slot: its ids.
abbrev pub plain : Slot → Slot
plain s = record s { log_level = 0; payload_min = 0; payload_max = int32_max }

abbrev pub plains : List Slot → List Slot
plains [] = []
plains (s ∷ ss) = plain s ∷ plains ss

abbrev pub same_ids : Slot → Slot → Bool
same_ids s t = same_id t.apid s.apid && same_id t.ctid s.ctid

-- The ids of every slot can be saved, and no two slots have the same.
abbrev pub Saves : List Slot → List Slot → Type 0
Saves before [] = Unit {0}
Saves before (s ∷ ss) =
    Savable s.apid × Savable s.ctid × AllFail (same_ids s) before × Saves (before ++ s ∷ []) ss

plains-append : (xs ys : List Slot) → plains (xs ++ ys) ≡ plains xs ++ plains ys
plains-append [] ys = refl
plains-append (x ∷ xs) ys = ap (◌∷◌ (plain x)) (plains-append xs ys)

find-plains :
    (s : Slot) (ss : List Slot)
    → AllFail (same_ids s) ss
    → find_slot (λ t. covers t s.apid (some s.ctid) 0 0 int32_max) (plains ss) ≡ none
unfolding find_slot
find-plains s [] h = refl
find-plains s (t ∷ ss) h = rw (h.0, find-plains s ss h.1) refl

-- One round of the reading loop adds the ids of the slot that was written.
add_round :
    (f : DltFilter) (before : List Slot) (s : Slot)
    → IsValid f
    → f.counter < 30
    → used f ≡ plains before
    → AllFail (same_ids s) before
    → Savable s.apid
    → Savable s.ctid
    → (g : DltFilter) × ((dlt_filter_add f s.apid (some s.ctid) 0 0 int32_max).1 ≡ g)
      × IsValid g
      × (used g ≡ plains (before ++ s ∷ []))
unfolding dlt_filter_find
add_round f before s v room same fresh sa sc =
    elim (filter_add-Found f s.apid (some s.ctid) 0 0 int32_max v) [
      | inl (full, e) ↦ absurd (omega (arith, full))
      | inr (inl (h, (i, k), e)) ↦ let w : none ≡ some i = sym not_found ∙ k in cc
      | inr (inr (h, k, (g, e, vg, grown))) ↦ (
        g,
        ap (λ r. r.1) e,
        vg,
        grown ∙ ap₂ (λ x y. x ++ y ∷ []) same slot_same ∙ sym (plains-append before (s ∷ [])),
      )
    ]
  where
    not_found : dlt_filter_find f s.apid (some s.ctid) 0 0 int32_max ≡ none
    not_found =
        ap (find_slot (λ t. covers t s.apid (some s.ctid) 0 0 int32_max)) same
        ∙ find-plains s before fresh

    slot_same : slot_of s.apid (some s.ctid) 0 0 int32_max ≡ plain s
    slot_same =
        ap₂ (λ x y. record (plain s) { apid = x; ctid = y }) (dlt_set_id-Savable s.apid sa)
          (dlt_set_id-Savable s.ctid sc)

length-plains : (ss : List Slot) → length (plains ss) ≡ length ss
length-plains [] = refl
length-plains (s ∷ ss) = ap suc (length-plains ss)

counter-plains :
    (f : DltFilter) (before : List Slot)
    → IsValid f
    → used f ≡ plains before
    → f.counter ≡ length before
counter-plains f before v same = omega (
  arith,
  ap length same,
  length-plains before,
  length-take f.counter f.slots,
  v.slots_len,
  v.in_use,
)

load_words-save_slots :
    (f : DltFilter) (before ss : List Slot)
    → IsValid f
    → length before + length ss ≤ 30
    → used f ≡ plains before
    → Saves before ss
    → IsValid (load_words f (save_slots ss))
      × (used (load_words f (save_slots ss)) ≡ plains (before ++ ss))
unfolding load_words save_slots
load_words-save_slots f before [] v l same h = (v, same ∙ ap plains (sym (append-nil before)))
load_words-save_slots f before (s ∷ ss) v l same (sa, sc, fresh, h) =
    let (g, e, vg, same_g) = add_round f before s v room same fresh sa sc in
    let step : load_words f (save_slots (s ∷ ss)) ≡ load_words g (save_slots ss) =
      rw
        (lt→ltb f.counter 30 room, id_of_word-word_of_id s.apid sa, id_of_word-word_of_id s.ctid sc)
        (ap (λ k. load_words k (save_slots ss)) e) in
    let (valid, all) =
      load_words-save_slots g (before ++ s ∷ []) ss vg
        (omega (arith, length-append before (s ∷ []))) same_g h in
    (
      subst IsValid (sym step) valid,
      ap used step ∙ all ∙ ap plains (append_assoc before (s ∷ []) ss),
    )
  where
    room : f.counter < 30
    room = omega (arith, counter-plains f before v same)

-- A filter whose ids a file keeps, no two slots with the same pair, comes back from the words that
-- `dlt_filter_save` writes: whatever the filter read into, the slots in use are then those that were
-- saved, in order, with any level and any payload size.
pub dlt_filter_load-dlt_filter_save :
    (f g : DltFilter)
    → IsValid f
    → IsValid g
    → Saves [] (used f)
    → (h : DltFilter) × (dlt_filter_load g (some (dlt_filter_save f)) ≡ (return_ok, h))
      × IsValid h
      × (used h ≡ plains (used f))
unfolding dlt_filter_load dlt_filter_save
dlt_filter_load-dlt_filter_save f g vf vg h =
    let empty : DltFilter = record g { counter = 0 } in
    let (valid, all) =
      load_words-save_slots empty [] (used f)
        (record { slots_len = vg.slots_len; in_use = omega arith; normal = tt })
        (omega (arith, length-take f.counter f.slots, vf.in_use)) refl h in
    (load_words empty (save_slots (used f)), refl, valid, all)
