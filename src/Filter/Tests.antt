-- ===== src/Filter/Tests.antt =====
-- Filters of shared/dlt_common.c on concrete slots and messages.
use lr.Base.{
  ℕ, ◌≡◌, ◌≢◌, refl, ◌⊎◌, inr, true, some, none, List, [], ◌∷◌, ◌++◌, arith, replicate, return_ok,
  return_true, return_error,
}
use lr.Message.{DltMessage, htyp_of}
use lr.Filter.{
  dlt_set_id, dlt_print_id, dlt_strnlen_s, Slot, DltFilter, used, int32_max, cleared_slot,
  find_slot, dlt_filter_find, dlt_filter_add, dlt_filter_delete, dlt_filter_load, dlt_filter_save,
  dlt_message_filter_check,
}
use lr.Filter.Matches.{Covers, Entry, Passes}
use lr.Filter.Changes.{
  IsValid, Adds, Deletes, slot_of, dlt_filter_add-Adds, dlt_filter_delete-Deletes,
}
use lr.Filter.Check.{filter_check-add}
use lr.Filter.File.{plains, dlt_filter_load-dlt_filter_save}

abbrev app : List ℕ
app = b'A' ∷ b'P' ∷ b'P' ∷ b'1' ∷ []

abbrev ctx : List ℕ
ctx = b'C' ∷ b'T' ∷ b'X' ∷ b'1' ∷ []

abbrev app_slot : Slot
app_slot = record {
  apid = app;
  ctid = ctx;
  log_level = 0;
  payload_min = 0;
  payload_max = int32_max;
}

abbrev empty : DltFilter
empty = record { slots = replicate 30 cleared_slot; counter = 0 }

abbrev one : DltFilter
one = record { slots = app_slot ∷ replicate 29 cleared_slot; counter = 1 }

empty-IsValid : IsValid empty
empty-IsValid = record { slots_len = refl; in_use = omega arith; normal = tt }

one-IsValid : IsValid one
unfolding dlt_set_id
one-IsValid = record { slots_len = refl; in_use = omega arith; normal = ((refl, refl), tt) }

-- A text is cut or filled up to four chars, and `-` is printed for a missing one.
set_two : dlt_set_id (b'A' ∷ b'B' ∷ []) ≡ b'A' ∷ b'B' ∷ 0 ∷ 0 ∷ []
unfolding dlt_set_id
set_two = refl

print_two : dlt_print_id (b'A' ∷ b'B' ∷ 0 ∷ 0 ∷ []) ≡ b'A' ∷ b'B' ∷ b'-' ∷ b'-' ∷ []
unfolding dlt_print_id dlt_strnlen_s
print_two = refl

add_to_empty : dlt_filter_add empty app (some ctx) 0 0 int32_max ≡ (return_ok, one)
unfolding dlt_filter_add dlt_filter_find find_slot dlt_set_id
add_to_empty = refl

dlt_filter_add-Adds_example :
    Adds one
      (Covers ctx (some app) 3 0 100)
      (slot_of ctx (some app) 3 0 100)
      (dlt_filter_add one ctx (some app) 3 0 100)
dlt_filter_add-Adds_example =
    dlt_filter_add-Adds one ctx (some app) 3 0 100 one-IsValid (omega arith) (omega arith)

dlt_filter_delete-Deletes_example :
    Deletes one (Entry app ctx 0 0 int32_max) (dlt_filter_delete one app ctx 0 0 int32_max)
dlt_filter_delete-Deletes_example =
    dlt_filter_delete-Deletes one app ctx 0 0 int32_max one-IsValid (omega arith) (omega arith)

-- Four bytes of an id are compared: a longer one with the same start is covered.
longer_is_covered :
    dlt_filter_add one (b'A' ∷ b'P' ∷ b'P' ∷ b'1' ∷ b'2' ∷ []) (some ctx) 0 0 int32_max
    ≡ (return_error, one)
unfolding dlt_filter_add dlt_filter_find find_slot dlt_set_id
longer_is_covered = refl

-- A message of another application, with an extended header.
abbrev other : DltMessage
other = record {
  found_serialheader = true;
  resync_offset = 0;
  headersize = 30;
  datasize = 2;
  headerbuffer = replicate 16 0 ++ 1 ∷ 0 ∷ 0 ∷ 16 ∷ 48 ∷ 0 ∷ ctx ++ ctx ++ replicate 12 0;
  databuffer = none;
  databuffersize = 0;
  storageheader = some 0;
  standardheader = some 16;
  headerextra = record { ecu = replicate 4 0; seid = 0; tmsp = 0 };
  extendedheader = some 20;
}

other_type : htyp_of other ≡ some 1
unfolding htyp_of
other_type = refl

filter_check-add_example :
    (Passes other.headerbuffer 20 2 (slot_of app (some ctx) 0 0 int32_max)
      × (dlt_message_filter_check other one ≡ some return_true))
    ⊎ ((Passes other.headerbuffer 20 2 (slot_of app (some ctx) 0 0 int32_max) → ⊥)
        × (((empty.counter ≡ 0) × (dlt_message_filter_check other one ≡ some return_ok))
            ⊎ ((empty.counter ≢ 0)
                × (dlt_message_filter_check other one ≡ dlt_message_filter_check other empty))))
filter_check-add_example =
    filter_check-add other 1 20 empty one app (some ctx) 0 0 int32_max empty-IsValid (omega arith)
      (omega arith) other_type refl refl add_to_empty

dlt_filter_load-dlt_filter_save_example :
    (h : DltFilter) × (dlt_filter_load empty (some (dlt_filter_save one)) ≡ (return_ok, h))
    × IsValid h
    × (used h ≡ plains (used one))
dlt_filter_load-dlt_filter_save_example =
    dlt_filter_load-dlt_filter_save one empty one-IsValid empty-IsValid (
      inr (b'A', b'P', b'P', b'1', refl, omega arith, omega arith, omega arith, omega arith, refl),
      inr (b'C', b'T', b'X', b'1', refl, omega arith, omega arith, omega arith, omega arith, refl),
      tt,
      tt,
    )
