-- ===== src/Filter.antt =====
-- Identifiers and message filters of shared/dlt_common.c: `dlt_set_id`, `dlt_print_id` and `dlt_filter_*`.
-- The parallel arrays of `DltFilter` are one list of slots; `counter` of them are in use. The functions
-- get their `DltFilter` by a pointer that is not null. Payload sizes and levels are 32-bit patterns.
pub mod Slots
pub mod Matches
pub mod Changes
pub mod Check
mod Tests
pub mod File
use lr.Base.{
  ℕ, zero, suc, ◌+◌, ◌-◌, ◌*◌, ◌/◌, ◌%◌, Bool, true, false, ◌&&◌, ◌||◌, not, Option, none, some,
  List, [], ◌∷◌, ◌++◌, length, get_or, set, take, replicate, leb, ltb, ◌==◌, if◌then◌else◌, ◌>>=◌,
  bytes_eq, slt32, half_word, DltReturnValue, return_error, return_ok, return_true,
}
use lr.Memory.{slice}
use lr.Message.{DltMessage, htyp_of, is_htyp_ueh}

-- `n` chars of an id taken from a text, with zeros from the end of the text on. A text is the list of
-- its chars; its end stands for the terminating zero.
abbrev pub id_chars : ℕ → List ℕ → List ℕ
id_chars zero text = []
id_chars (suc n) [] = 0 ∷ id_chars n []
id_chars (suc n) (c ∷ text) = if c == 0 then 0 ∷ replicate n 0 else c ∷ id_chars n text

unfoldable pub dlt_set_id : List ℕ → List ℕ
dlt_set_id text = id_chars 4 text

abbrev pub strnlen : ℕ → List ℕ → ℕ
strnlen zero str = 0
strnlen (suc n) [] = 0
strnlen (suc n) (c ∷ str) = if c == 0 then 0 else suc (strnlen n str)

unfoldable pub dlt_strnlen_s : List ℕ → ℕ → ℕ
dlt_strnlen_s str maxsize = strnlen maxsize str

-- The chars before the terminating zero at `text[4]`.
unfoldable pub dlt_print_id : List ℕ → List ℕ
unfolding dlt_strnlen_s
dlt_print_id id = let len : ℕ = dlt_strnlen_s id 4 in take len id ++ replicate (4 - len) b'-'

abbrev pub dlt_filter_max : ℕ
dlt_filter_max = 30

abbrev pub int32_max : ℕ
int32_max = half_word - 1

pub record Slot : Type 0 where
  pub apid : List ℕ
  pub ctid : List ℕ
  pub log_level : ℕ
  pub payload_min : ℕ
  pub payload_max : ℕ

pub record DltFilter : Type 0 where
  pub slots : List Slot
  pub counter : ℕ

-- The slots that a loop over `num < filter->counter` visits; `counter` is at most the array's size.
abbrev pub used : DltFilter → List Slot
used f = take f.counter f.slots

-- `memcmp` of DLT_ID_SIZE bytes; an id that is compared has at least as many.
abbrev pub same_id : List ℕ → List ℕ → Bool
same_id id other = bytes_eq (take 4 id) (take 4 other)

abbrev pub sle32 : ℕ → ℕ → Bool
sle32 a b = not (slt32 b a)

unfoldable pub dlt_filter_init : DltFilter → DltReturnValue × DltFilter
dlt_filter_init f = (return_ok, record f { counter = 0 })

-- A null `ctid` is looked for as the empty one.
abbrev pub or_empty : Option (List ℕ) → List ℕ
or_empty none = 0 ∷ 0 ∷ 0 ∷ 0 ∷ []
or_empty (some ctid) = ctid

abbrev pub covers : Slot → List ℕ → Option (List ℕ) → ℕ → ℕ → ℕ → Bool
covers s apid ctid log_level payload_min payload_max =
    same_id s.apid apid
    && same_id s.ctid (or_empty ctid)
    && (s.log_level == log_level || s.log_level == 0)
    && sle32 s.payload_min payload_min
    && sle32 payload_max s.payload_max

-- The first index whose slot passes the test.
unfoldable pub find_slot : (Slot → Bool) → List Slot → Option ℕ
find_slot test [] = none
find_slot test (s ∷ ss) =
    let rest : Option ℕ = find_slot test ss >>= λ i. some (suc i) in if test s then some 0 else rest

unfoldable pub dlt_filter_find : DltFilter → List ℕ → Option (List ℕ) → ℕ → ℕ → ℕ → Option ℕ
dlt_filter_find f apid ctid log_level payload_min payload_max =
    find_slot (λ s. covers s apid ctid log_level payload_min payload_max) (used f)

abbrev pub text_or_empty : Option (List ℕ) → List ℕ
text_or_empty none = []
text_or_empty (some ctid) = ctid

unfoldable pub dlt_filter_add :
    DltFilter → List ℕ → Option (List ℕ) → ℕ → ℕ → ℕ → DltReturnValue × DltFilter
dlt_filter_add f apid ctid log_level payload_min payload_max =
    if leb dlt_filter_max f.counter
    then (return_error, f)
    else elim (dlt_filter_find f apid ctid log_level payload_min payload_max) [
      | some i ↦ (return_error, f)
      | none ↦ (
        return_ok,
        record {
          slots = set f.slots f.counter (record {
            apid = dlt_set_id apid;
            ctid = dlt_set_id (text_or_empty ctid);
            log_level = log_level;
            payload_min = payload_min;
            payload_max = payload_max;
          });
          counter = f.counter + 1;
        },
      )
    ]

abbrev pub is_entry : Slot → List ℕ → List ℕ → ℕ → ℕ → ℕ → Bool
is_entry s apid ctid log_level payload_min payload_max =
    same_id s.apid apid
    && same_id s.ctid ctid
    && (s.log_level == log_level || s.log_level == 0)
    && s.payload_min == payload_min
    && s.payload_max == payload_max

abbrev pub cleared_slot : Slot
cleared_slot = record {
  apid = 0 ∷ 0 ∷ 0 ∷ 0 ∷ [];
  ctid = 0 ∷ 0 ∷ 0 ∷ 0 ∷ [];
  log_level = 0;
  payload_min = 0;
  payload_max = int32_max;
}

-- A slot is copied with its ids set anew.
abbrev pub moved : Slot → Slot
moved s = record s { apid = dlt_set_id s.apid; ctid = dlt_set_id s.ctid }

-- The loop that moves the `n` slots behind `k` one place down.
unfoldable pub shift_down : ℕ → ℕ → List Slot → List Slot
shift_down zero k slots = slots
shift_down (suc n) k slots =
    shift_down n (k + 1) (set slots k (moved (get_or slots (k + 1) cleared_slot)))

unfoldable pub dlt_filter_delete :
    DltFilter → List ℕ → List ℕ → ℕ → ℕ → ℕ → DltReturnValue × DltFilter
dlt_filter_delete f apid ctid log_level payload_min payload_max =
    elim (find_slot (λ s. is_entry s apid ctid log_level payload_min payload_max) (used f)) [
      | none ↦ (return_error, f)
      | some j ↦ (
        return_ok,
        record {
          slots = shift_down (f.counter - 1 - j) j (set f.slots j cleared_slot);
          counter = f.counter - 1;
        },
      )
    ]

-- DLT_GET_MSIN_MTIN
abbrev pub msin_mtin : ℕ → ℕ
msin_mtin msin = msin / 16 % 16

-- The condition on a message whose extended header stands at `i` in the header buffer.
abbrev pub accepts : List ℕ → ℕ → ℕ → Slot → Bool
accepts hb i datasize s =
    (get_or s.apid 0 0 == 0 || same_id s.apid (slice hb (i + 2) 4))
    && (get_or s.ctid 0 0 == 0 || same_id s.ctid (slice hb (i + 6) 4))
    && (s.log_level == 0 || s.log_level == msin_mtin (get_or hb i 0))
    && (s.payload_min == 0 || sle32 s.payload_min datasize)
    && (s.payload_max == 0 || sle32 datasize s.payload_max)

-- `none` is a read through a null header pointer.
unfoldable pub dlt_message_filter_check : DltMessage → DltFilter → Option DltReturnValue
dlt_message_filter_check msg f =
    if f.counter == 0
    then some return_true
    else htyp_of msg >>= λ htyp.
        if is_htyp_ueh htyp
        then (msg.extendedheader >>= λ i.
            elim (find_slot (accepts msg.headerbuffer i msg.datasize) (used f)) [
              | none ↦ some return_ok
              | some j ↦ some return_true
            ])
        else some return_true

-- A filter file is the list of the words that fscanf finds in it.
abbrev pub no_id : List ℕ
no_id = b'-' ∷ b'-' ∷ b'-' ∷ b'-' ∷ []

abbrev pub id_of_word : List ℕ → List ℕ
id_of_word word = if bytes_eq word no_id then dlt_set_id [] else dlt_set_id word

unfoldable pub load_words : DltFilter → List (List ℕ) → DltFilter
load_words f [] = f
load_words f (a ∷ []) = f
load_words f (a ∷ c ∷ words) =
    load_words
      (if ltb f.counter dlt_filter_max
        then (dlt_filter_add f (id_of_word a) (some (id_of_word c)) 0 0 int32_max).1
        else f)
      words

-- `none` for a file that cannot be opened.
unfoldable pub dlt_filter_load : DltFilter → Option (List (List ℕ)) → DltReturnValue × DltFilter
unfolding load_words
dlt_filter_load f none = (return_error, f)
dlt_filter_load f (some words) = (return_ok, load_words (record f { counter = 0 }) words)

abbrev pub word_of_id : List ℕ → List ℕ
word_of_id id = if get_or id 0 0 == 0 then no_id else dlt_print_id id

-- The words that are written, each with a space behind it.
unfoldable pub save_slots : List Slot → List (List ℕ)
save_slots [] = []
save_slots (s ∷ ss) = word_of_id s.apid ∷ word_of_id s.ctid ∷ save_slots ss

unfoldable pub dlt_filter_save : DltFilter → List (List ℕ)
unfolding save_slots
dlt_filter_save f = save_slots (used f)
