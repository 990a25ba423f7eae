-- ===== src/Filter/Changes.antt =====
-- What `dlt_filter_add` and `dlt_filter_delete` of shared/dlt_common.c do to the slots in use.
use lr.Base.{
  ℕ, suc, ◌+◌, ◌-◌, ◌≤◌, ◌<◌, ◌≡◌, refl, sym, ap, ap₂, ◌∙◌, ◌⊎◌, inl, inr, Option, some, none, List,
  [], ◌∷◌, ◌++◌, arith, length, get_or, set, take, drop, length-set, length-take, Bool-cases,
  Option-cases, leb, DltReturnValue, return_ok, return_error,
}
use mathlib.Core.Path.{subst}
use lr.Filter.{
  dlt_set_id, Slot, DltFilter, used, dlt_filter_find, dlt_filter_add, text_or_empty, is_entry,
  or_empty, covers, find_slot, cleared_slot, shift_down, dlt_filter_delete,
}
use lr.Filter.Matches.{
  Covers, Entry, NoneIs, AllFail-NoneIs, covers_sound, covers_complete, is_entry_sound,
  is_entry_complete,
}
use lr.Filter.Slots.{
  Finds, AllFail, find_slot-Finds, Normal, AllNormal, take-set_next, take-set_before,
  drop-set_after, drop-take, take-take, AllNormal-append, AllNormal-take, AllNormal-drop,
  length-shift_down, take-shift_down, dlt_set_id_idem,
}

pub record IsValid (f : DltFilter) : Type 0 where
  pub slots_len : length f.slots ≡ 30
  pub in_use : f.counter ≤ 30
  pub normal : AllNormal (used f)

-- The slot that `dlt_filter_add` writes.
abbrev pub slot_of : List ℕ → Option (List ℕ) → ℕ → ℕ → ℕ → Slot
slot_of apid ctid log_level payload_min payload_max = record {
  apid = dlt_set_id apid;
  ctid = dlt_set_id (text_or_empty ctid);
  log_level = log_level;
  payload_min = payload_min;
  payload_max = payload_max;
}

-- The ways in which an addition ends: with no room, refused as covered by a slot in use, or with
-- the slot behind the others.
abbrev pub Adds : DltFilter → (Slot → Type 0) → Slot → DltReturnValue × DltFilter → Type 0
Adds f P s r =
    ((f.counter ≡ 30) × (r ≡ (return_error, f)))
    ⊎ (((f.counter < 30)
          × ((i : ℕ) × (i < f.counter) × P (get_or (used f) i cleared_slot))
          × (r ≡ (return_error, f)))
        ⊎ ((f.counter < 30)
            × NoneIs P (used f)
            × ((g : DltFilter) × (r ≡ (return_ok, g)) × IsValid g × (used g ≡ used f ++ s ∷ []))))

-- The same by what `dlt_filter_find` answers.
abbrev pub Found : DltFilter → Option ℕ → Slot → DltReturnValue × DltFilter → Type 0
Found f found s r =
    ((f.counter ≡ 30) × (r ≡ (return_error, f)))
    ⊎ (((f.counter < 30) × ((i : ℕ) × (found ≡ some i)) × (r ≡ (return_error, f)))
        ⊎ ((f.counter < 30)
            × (found ≡ none)
            × ((g : DltFilter) × (r ≡ (return_ok, g)) × IsValid g × (used g ≡ used f ++ s ∷ []))))

pub filter_add-Found :
    (f : DltFilter) (apid : List ℕ) (ctid : Option (List ℕ)) (log_level payload_min payload_max : ℕ)
    → IsValid f
    → Found f
        (dlt_filter_find f apid ctid log_level payload_min payload_max)
        (slot_of apid ctid log_level payload_min payload_max)
        (dlt_filter_add f apid ctid log_level payload_min payload_max)
unfolding dlt_filter_add
filter_add-Found f apid ctid log_level payload_min payload_max v =
    elim (Bool-cases (leb 30 f.counter)) [
      | inl e ↦ inl (ground (arith, v.in_use), rw e refl)
      | inr e ↦
          elim (Option-cases (dlt_filter_find f apid ctid log_level payload_min payload_max)) [
            | inr (i, h) ↦ inr (inl (ground arith, (i, h), rw (e, h) refl))
            | inl h ↦ inr (
                inr (
                  ground arith,
                  h,
                  (
                    record { slots = set f.slots f.counter s; counter = f.counter + 1 },
                    rw (e, h) refl,
                    record {
                      slots_len = length-set f.slots f.counter s ∙ v.slots_len;
                      in_use = ground arith;
                      normal =
                          subst AllNormal (sym (grown (ground arith)))
                            (AllNormal-append (used f) (s ∷ []) v.normal (s_normal, tt));
                    },
                    grown (ground arith),
                  ),
                ))
          ]
    ]
  where
    s : Slot
    s = slot_of apid ctid log_level payload_min payload_max

    s_normal : Normal s
    s_normal = (dlt_set_id_idem apid, dlt_set_id_idem (text_or_empty ctid))

    grown : f.counter < 30 → take (f.counter + 1) (set f.slots f.counter s) ≡ used f ++ s ∷ []
    grown h =
        ap (λ m. take m (set f.slots f.counter s)) {x = f.counter + 1} {y = suc f.counter}
          (omega arith)
        ∙ take-set_next f.slots f.counter s (omega (arith, v.slots_len))

-- An addition to a sound filter is refused and changes nothing exactly where 30 slots are in use or one
-- of them covers the ids, the level and the sizes given. Else the new slot stands behind those in use,
-- and the filter is sound again. The ids given are of 4 bytes at least.
pub dlt_filter_add-Adds :
    (f : DltFilter) (apid : List ℕ) (ctid : Option (List ℕ)) (log_level payload_min payload_max : ℕ)
    → IsValid f
    → 4 ≤ length apid
    → 4 ≤ length (or_empty ctid)
    → Adds f
        (Covers apid ctid log_level payload_min payload_max)
        (slot_of apid ctid log_level payload_min payload_max)
        (dlt_filter_add f apid ctid log_level payload_min payload_max)
unfolding dlt_filter_find
dlt_filter_add-Adds f apid ctid log_level payload_min payload_max v ha hc =
    elim (filter_add-Found f apid ctid log_level payload_min payload_max v) [
      | inl full ↦ inl full
      | inr (inl (room, (i, found), e)) ↦ elim covered [
        | inl (none_found, _) ↦ let w : none ≡ some i = sym none_found ∙ found in absurd (cc)
        | inr (j, _, inside, test, _) ↦ inr (
            inl (
              room,
              (
                j,
                omega (arith, inside, length-take f.counter f.slots),
                covers_sound (get_or (used f) j cleared_slot) apid log_level payload_min payload_max
                    ctid test,
              ),
              e,
            ))
      ]
      | inr (inr (room, not_found, how)) ↦ elim covered [
        | inl (_, fail) ↦ inr (
            inr (
              room,
              AllFail-NoneIs (Covers apid ctid log_level payload_min payload_max)
                  (λ s. covers s apid ctid log_level payload_min payload_max)
                  (λ s. covers_complete s apid log_level payload_min payload_max ctid) (used f)
                  fail,
              how,
            ))
        | inr (j, there, _, _, _) ↦ let w : none ≡ some j = sym not_found ∙ there in absurd (cc)
      ]
    ]
  where
    covered :
        Finds
          (λ s. covers s apid ctid log_level payload_min payload_max)
          (used f)
          (find_slot (λ s. covers s apid ctid log_level payload_min payload_max) (used f))
    covered = find_slot-Finds (λ s. covers s apid ctid log_level payload_min payload_max) (used f)

-- The ways in which a deletion ends: no slot in use is the entry, or the first one is taken out and
-- the others keep their order.
abbrev pub Deletes : DltFilter → (Slot → Type 0) → DltReturnValue × DltFilter → Type 0
Deletes f P r =
    (NoneIs P (used f) × (r ≡ (return_error, f)))
    ⊎ ((j : ℕ) × (j < f.counter)
        × P (get_or (used f) j cleared_slot)
        × NoneIs P (take j (used f))
        × ((g : DltFilter) × (r ≡ (return_ok, g))
            × IsValid g
            × (used g ≡ take j (used f) ++ drop (suc j) (used f))
            × (f.counter ≡ g.counter + 1)))

-- A deletion in a sound filter fails and changes nothing exactly where no slot in use is the entry with
-- the ids, the level and the sizes given. Else the first slot that is goes, the others keep their order,
-- and the filter is sound again. The ids given are of 4 bytes at least.
pub dlt_filter_delete-Deletes :
    (f : DltFilter) (apid ctid : List ℕ) (log_level payload_min payload_max : ℕ)
    → IsValid f
    → 4 ≤ length apid
    → 4 ≤ length ctid
    → Deletes f
        (Entry apid ctid log_level payload_min payload_max)
        (dlt_filter_delete f apid ctid log_level payload_min payload_max)
unfolding dlt_filter_delete
dlt_filter_delete-Deletes f apid ctid log_level payload_min payload_max v ha hc =
    elim (find_slot-Finds (λ s. is_entry s apid ctid log_level payload_min payload_max) (used f)) [
      | inl (e, fail) ↦ inl (none_is (used f) fail, rw (e, dlt_filter_delete) refl)
      | inr (j, e, h, t, fail) ↦
          let l : j < f.counter = omega (arith, length-take f.counter f.slots) in
          inr (
            j,
            l,
            is_entry_sound (get_or (used f) j cleared_slot) apid log_level payload_min payload_max
                ctid t,
            none_is (take j (used f)) fail,
            (
              record {
                slots = shift_down (f.counter - 1 - j) j (set f.slots j cleared_slot);
                counter = f.counter - 1;
              },
              rw (e, dlt_filter_delete) refl,
              record {
                slots_len =
                    length-shift_down (f.counter - 1 - j) j (set f.slots j cleared_slot)
                    ∙ length-set f.slots j cleared_slot
                    ∙ v.slots_len;
                in_use = omega (arith, v.in_use);
                normal = subst AllNormal (sym (closed j l)) (
                    AllNormal-append (take j (used f)) (drop (suc j) (used f))
                      (AllNormal-take j (used f) v.normal)
                      (AllNormal-drop (suc j) (used f) v.normal));
              },
              closed j l,
              omega arith,
            ),
          )
    ]
  where
    none_is :
        (ss : List Slot)
        → AllFail (λ s. is_entry s apid ctid log_level payload_min payload_max) ss
        → NoneIs (Entry apid ctid log_level payload_min payload_max) ss
    none_is =
        AllFail-NoneIs (Entry apid ctid log_level payload_min payload_max)
          (λ s. is_entry s apid ctid log_level payload_min payload_max)
          (λ s. is_entry_complete s apid log_level payload_min payload_max ctid)

    rest :
        (j : ℕ)
        → j < f.counter
        → take (f.counter - 1 - j) (drop (suc j) (set f.slots j cleared_slot))
          ≡ drop (suc j) (used f)
    rest j h =
        ap (take (f.counter - 1 - j)) (drop-set_after f.slots (suc j) j cleared_slot (omega arith))
        ∙ ap (λ m. take m (drop (suc j) f.slots)) {x = f.counter - 1 - j} {y = f.counter - suc j}
            (omega arith)
        ∙ sym (drop-take f.slots (suc j) f.counter (omega arith))

    closed :
        (j : ℕ)
        → j < f.counter
        → take (f.counter - 1) (shift_down (f.counter - 1 - j) j (set f.slots j cleared_slot))
          ≡ take j (used f) ++ drop (suc j) (used f)
    closed j h =
        ap (λ m. take m (shift_down (f.counter - 1 - j) j (set f.slots j cleared_slot)))
          {x = f.counter - 1} {y = j + (f.counter - 1 - j)} (omega arith)
        ∙ take-shift_down (f.counter - 1 - j) j (set f.slots j cleared_slot)
            (omega (arith, length-set f.slots j cleared_slot, v.slots_len, v.in_use))
            (subst AllNormal (sym (rest j h)) (AllNormal-drop (suc j) (used f) v.normal))
        ∙ ap₂ ◌++◌
            (take-set_before f.slots j j cleared_slot (omega arith)
              ∙ sym (take-take f.slots j f.counter (omega arith)))
            (rest j h)
