-- ===== src/Filter/Check.antt =====
-- What `dlt_message_filter_check` of shared/dlt_common.c says of a message before and after a
-- `dlt_filter_add`.
use lr.Base.{
  ◌≤◌, ℕ, suc, ◌≡◌, ◌≢◌, refl, sym, ap, ◌∙◌, ◌⊎◌, inl, inr, Bool, true, false, Option, some, none,
  List, [], ◌∷◌, ◌++◌, arith, length, take, length-append, length-take, Bool-cases, ◌==◌, ne→==,
  ==→ne, DltReturnValue, return_ok, return_error, return_true,
}
use lr.Message.{DltMessage, htyp_of, is_htyp_ueh}
use lr.Filter.{
  Slot, DltFilter, used, find_slot, or_empty, dlt_filter_add, accepts, dlt_message_filter_check,
}
use lr.Filter.Changes.{IsValid, slot_of, filter_add-Found}
use lr.Filter.Matches.{Passes, accepts_sound, accepts_complete, refuted}

find_slot-append_pass :
    (test : Slot → Bool) (s : Slot) (ss : List Slot)
    → test s ≡ true
    → (j : ℕ) × (find_slot test (ss ++ s ∷ []) ≡ some j)
unfolding find_slot
find_slot-append_pass test s [] h = (0, rw h refl)
find_slot-append_pass test s (t ∷ ss) h = elim (Bool-cases (test t)) [
  | inl e ↦ (0, rw e refl)
  | inr e ↦ let (j, k) = find_slot-append_pass test s ss h in (suc j, rw (e, k) refl)
]

find_slot-nil : (test : Slot → Bool) → find_slot test [] ≡ none
unfolding find_slot
find_slot-nil test = refl

find_slot-append_fail :
    (test : Slot → Bool) (s : Slot) (ss : List Slot)
    → test s ≡ false
    → find_slot test (ss ++ s ∷ []) ≡ find_slot test ss
unfolding find_slot
find_slot-append_fail test s [] h = rw h refl
find_slot-append_fail test s (t ∷ ss) h = rw (find_slot-append_fail test s ss h) refl

-- The answer for a message with an extended header at `i`, by the slot found.
abbrev pub verdict : Option ℕ → DltReturnValue
verdict none = return_ok
verdict (some j) = return_true

answer_lem :
    (o : Option ℕ)
    → ◌≡◌ {A = Option DltReturnValue}
        (elim o [ none ↦ some return_ok | some j ↦ some return_true ])
        (some (verdict o))
answer_lem none = refl
answer_lem (some j) = refl

module _ (msg : DltMessage) (htyp i : ℕ) (type : htyp_of msg ≡ some htyp)
    (ueh : is_htyp_ueh htyp ≡ true) (extended : msg.extendedheader ≡ some i) where
  abbrev test : Slot → Bool
  test = accepts msg.headerbuffer i msg.datasize

  check_lem :
      (f : DltFilter)
      → f.counter ≢ 0
      → dlt_message_filter_check msg f ≡ some (verdict (find_slot test (used f)))
  unfolding dlt_message_filter_check
  check_lem f h =
      rw (ne→== f.counter 0 h, type) (rw (ueh, extended) (answer_lem (find_slot test (used f))))

check_add :
    (msg : DltMessage) (htyp i : ℕ) (f g : DltFilter) (apid : List ℕ) (ctid : Option (List ℕ))
    (log_level payload_min payload_max : ℕ)
    → IsValid f
    → htyp_of msg ≡ some htyp
    → is_htyp_ueh htyp ≡ true
    → msg.extendedheader ≡ some i
    → dlt_filter_add f apid ctid log_level payload_min payload_max ≡ (return_ok, g)
    → ((accepts msg.headerbuffer i msg.datasize
            (slot_of apid ctid log_level payload_min payload_max)
          ≡ true)
        × (dlt_message_filter_check msg g ≡ some return_true))
      ⊎ (((accepts msg.headerbuffer i msg.datasize
                (slot_of apid ctid log_level payload_min payload_max)
              ≡ false)
            × (f.counter ≡ 0)
            × (dlt_message_filter_check msg g ≡ some return_ok))
          ⊎ ((accepts msg.headerbuffer i msg.datasize
                  (slot_of apid ctid log_level payload_min payload_max)
                ≡ false)
              × (f.counter ≢ 0)
              × (dlt_message_filter_check msg g ≡ dlt_message_filter_check msg f)))
check_add msg htyp i f g apid ctid log_level payload_min payload_max v type ueh extended added =
    elim (filter_add-Found f apid ctid log_level payload_min payload_max v) [
      | inl (full, e) ↦ absurd (refused e)
      | inr (inl (room, covered, e)) ↦ absurd (refused e)
      | inr (inr (room, fresh, (h, e, valid, grown))) ↦
          let same : h ≡ g = ap (λ r. r.1) (sym e ∙ added) in
          let some_used : g.counter ≢ 0 =
            λ z. filter_not_empty h (ap (λ k. k.counter) same ∙ z) grown in
          let used_g : used g ≡ used f ++ s ∷ [] = ap (λ k. used k) (sym same) ∙ grown in
          by_slot some_used used_g
    ]
  where
    s : Slot
    s = slot_of apid ctid log_level payload_min payload_max

    refused : dlt_filter_add f apid ctid log_level payload_min payload_max ≡ (return_error, f) → ⊥
    refused e = let w : return_error ≡ return_ok = ap (λ r. r.0) (sym e ∙ added) in cc

    filter_not_empty : (h : DltFilter) → h.counter ≡ 0 → used h ≡ used f ++ s ∷ [] → ⊥
    filter_not_empty h z e = absurd (
        omega
          (arith, z, ap length e, length-take h.counter h.slots, length-append (used f) (s ∷ [])))

    passes : Bool
    passes = accepts msg.headerbuffer i msg.datasize s

    by_slot :
        g.counter ≢ 0
        → used g ≡ used f ++ s ∷ []
        → ((passes ≡ true) × (dlt_message_filter_check msg g ≡ some return_true))
          ⊎ (((passes ≡ false)
                × (f.counter ≡ 0)
                × (dlt_message_filter_check msg g ≡ some return_ok))
              ⊎ ((passes ≡ false)
                  × (f.counter ≢ 0)
                  × (dlt_message_filter_check msg g ≡ dlt_message_filter_check msg f)))
    by_slot some_used used_g = elim (Bool-cases passes) [
      | inl p ↦
          inl (p, found ∙ ap (λ o. some (verdict o)) (find_slot-append_pass tested s (used f) p).1)
      | inr p ↦ elim (Bool-cases (f.counter == 0)) [
        | inl z ↦
            let empty : f.counter ≡ 0 = ground arith in
            inr (
              inl (
                p,
                empty,
                found
                    ∙ ap (λ o. some (verdict o))
                        (find_slot-append_fail tested s (used f) p
                          ∙ ap (λ n. find_slot tested (take n f.slots)) empty
                          ∙ find_slot-nil tested),
              ))
        | inr z ↦ inr (
            inr (
              p,
              ==→ne f.counter 0 z,
              found
                  ∙ ap (λ o. some (verdict o)) (find_slot-append_fail tested s (used f) p)
                  ∙ sym (check_lem msg htyp i type ueh extended f (==→ne f.counter 0 z)),
            ))
      ]
    ]
      where
        tested : Slot → Bool
        tested = accepts msg.headerbuffer i msg.datasize

        found :
            dlt_message_filter_check msg g ≡ some (verdict (find_slot tested (used f ++ s ∷ [])))
        found =
            check_lem msg htyp i type ueh extended g some_used
            ∙ ap (λ l. some (verdict (find_slot tested l))) used_g

-- A message with an extended header, after an addition that succeeds: the message passes where the ids,
-- the level and the sizes that were added let it pass; where they do not, the answer is the one given
-- before, save that a filter that was empty, which passes every message, now rejects it. The ids given
-- are of 4 bytes at least.
pub filter_check-add :
    (msg : DltMessage) (htyp i : ℕ) (f g : DltFilter) (apid : List ℕ) (ctid : Option (List ℕ))
    (log_level payload_min payload_max : ℕ)
    → IsValid f
    → 4 ≤ length apid
    → 4 ≤ length (or_empty ctid)
    → htyp_of msg ≡ some htyp
    → is_htyp_ueh htyp ≡ true
    → msg.extendedheader ≡ some i
    → dlt_filter_add f apid ctid log_level payload_min payload_max ≡ (return_ok, g)
    → (Passes msg.headerbuffer i msg.datasize (slot_of apid ctid log_level payload_min payload_max)
        × (dlt_message_filter_check msg g ≡ some return_true))
      ⊎ ((Passes msg.headerbuffer i msg.datasize
              (slot_of apid ctid log_level payload_min payload_max)
            → ⊥)
          × (((f.counter ≡ 0) × (dlt_message_filter_check msg g ≡ some return_ok))
              ⊎ ((f.counter ≢ 0)
                  × (dlt_message_filter_check msg g ≡ dlt_message_filter_check msg f))))
filter_check-add msg htyp i f g apid ctid log_level payload_min payload_max v ha hc type ueh
      extended added =
    elim (check_add msg htyp i f g apid ctid log_level payload_min payload_max v type ueh extended
      added) [
        | inl (p, e) ↦ inl (accepts_sound msg.headerbuffer i msg.datasize s p, e)
        | inr (inl (p, z, e)) ↦ inr (fails p, inl (z, e))
        | inr (inr (p, z, e)) ↦ inr (fails p, inr (z, e))
      ]
  where
    s : Slot
    s = slot_of apid ctid log_level payload_min payload_max

    fails :
        accepts msg.headerbuffer i msg.datasize s ≡ false
        → Passes msg.headerbuffer i msg.datasize s
        → ⊥
    fails =
        refuted (accepts msg.headerbuffer i msg.datasize s)
          (accepts_complete msg.headerbuffer i msg.datasize s)
