-- ===== src/Filter/Matches.antt =====
-- What the tests on a slot in shared/dlt_common.c tell: the conditions of `dlt_filter_find`,
-- `dlt_filter_delete` and `dlt_message_filter_check` as statements on ids, levels and sizes.
use lr.Base.{
  ℕ, ◌+◌, ◌/◌, ◌%◌, ◌≤◌, ◌≡◌, refl, sym, ◌∙◌, ◌⊎◌, inl, inr, Bool, true, false, ◌&&◌, ◌||◌, Option,
  List, [], ◌∷◌, arith, get_or, take, bytes_eq, bytes_eq_refl, bytes_eq_sound, word, half_word,
  ◌==◌, ==_iff,
}
use mathlib.Core.Path.{subst}
use lr.Memory.{slice}
use lr.Filter.{Slot, or_empty, same_id, sle32, covers, is_entry, accepts}
use lr.Filter.Slots.{AllFail}

-- A payload size is a 32-bit pattern, read as an int: the patterns from 2 ^ 31 on are negative, and the
-- order is that of the patterns moved up by 2 ^ 31.
abbrev pub AtMost : ℕ → ℕ → Type 0
AtMost m n = (m + half_word) % word ≤ (n + half_word) % word

-- The first four bytes of two ids are the same.
abbrev pub SameId : List ℕ → List ℕ → Type 0
SameId id other = take 4 id ≡ take 4 other

-- A slot covers an addition with the ids, the level and the sizes.
pub record Covers (apid : List ℕ) (ctid : Option (List ℕ)) (log_level payload_min payload_max : ℕ)
    (s : Slot) : Type 0 where
  pub apid_same : SameId s.apid apid
  pub ctid_same : SameId s.ctid (or_empty ctid)
  pub level : (s.log_level ≡ log_level) ⊎ (s.log_level ≡ 0)
  pub from : AtMost s.payload_min payload_min
  pub to : AtMost payload_max s.payload_max

-- A slot is the entry with the ids, the level and the sizes; one with the level 0 is that of any level.
pub record Entry (apid ctid : List ℕ) (log_level payload_min payload_max : ℕ) (s : Slot)
    : Type 0 where
  pub apid_same : SameId s.apid apid
  pub ctid_same : SameId s.ctid ctid
  pub level : (s.log_level ≡ log_level) ⊎ (s.log_level ≡ 0)
  pub from : s.payload_min ≡ payload_min
  pub to : s.payload_max ≡ payload_max

-- A slot lets a message pass whose extended header stands at `i` of the header buffer: each of its
-- conditions is empty or holds.
pub record Passes (hb : List ℕ) (i datasize : ℕ) (s : Slot) : Type 0 where
  pub apid_same : (get_or s.apid 0 0 ≡ 0) ⊎ SameId s.apid (slice hb (i + 2) 4)
  pub ctid_same : (get_or s.ctid 0 0 ≡ 0) ⊎ SameId s.ctid (slice hb (i + 6) 4)
  pub level : (s.log_level ≡ 0) ⊎ (s.log_level ≡ get_or hb i 0 / 16 % 16)
  pub from : (s.payload_min ≡ 0) ⊎ AtMost s.payload_min datasize
  pub to : (s.payload_max ≡ 0) ⊎ AtMost datasize s.payload_max

same_id_sound : (id other : List ℕ) → same_id id other ≡ true → SameId id other
same_id_sound id other h = bytes_eq_sound (take 4 id) (take 4 other) h

same_id_complete : (id other : List ℕ) → SameId id other → same_id id other ≡ true
same_id_complete id other h =
    subst (λ l. bytes_eq (take 4 id) l ≡ true) h (bytes_eq_refl (take 4 id))

sle32_sound : (m n : ℕ) → sle32 m n ≡ true → AtMost m n
sle32_sound m n h = ground arith

sle32_complete : (m n : ℕ) → AtMost m n → sle32 m n ≡ true
sle32_complete m n h = ground arith

and_true : (p q : Bool) → p && q ≡ true → (p ≡ true) × (q ≡ true)
and_true true q h = (refl, h)
and_true false q h = absurd (cc)

true_and : (p q : Bool) → p ≡ true → q ≡ true → p && q ≡ true
true_and p q h k = rw (h, k) refl

or_true : (p q : Bool) → p || q ≡ true → (p ≡ true) ⊎ (q ≡ true)
or_true true q h = inl refl
or_true false q h = inr h

true_or : (p q : Bool) → (p ≡ true) ⊎ (q ≡ true) → p || q ≡ true
true_or true q h = refl
true_or false q (inl h) = absurd (cc)
true_or false q (inr h) = h

-- Five conditions, taken apart and put together.
and_true5 :
    (p q r t u : Bool)
    → p && q && r && t && u ≡ true
    → (p ≡ true) × (q ≡ true) × (r ≡ true) × (t ≡ true) × (u ≡ true)
and_true5 p q r t u h =
    let (h1, hu) = and_true (p && q && r && t) u h in
    let (h2, ht) = and_true (p && q && r) t h1 in
    let (h3, hr) = and_true (p && q) r h2 in let (hp, hq) = and_true p q h3 in (hp, hq, hr, ht, hu)

true_and5 :
    (p q r t u : Bool)
    → p ≡ true
    → q ≡ true
    → r ≡ true
    → t ≡ true
    → u ≡ true
    → p && q && r && t && u ≡ true
true_and5 p q r t u hp hq hr ht hu = rw (hp, hq, hr, ht, hu) refl

either_sound : {P Q : Type 0} (p q : Bool) → (p ≡ true → P) → (q ≡ true → Q) → p || q ≡ true → P ⊎ Q
either_sound p q f g h = elim (or_true p q h) [ inl e ↦ inl (f e) | inr e ↦ inr (g e) ]

either_complete :
    {P Q : Type 0} (p q : Bool) → (P → p ≡ true) → (Q → q ≡ true) → P ⊎ Q → p || q ≡ true
either_complete p q f g (inl e) = true_or p q (inl (f e))
either_complete p q f g (inr e) = true_or p q (inr (g e))

equal_sound : (m n : ℕ) → (m == n) ≡ true → m ≡ n
equal_sound m n h = (==_iff m n).0 h

equal_complete : (m n : ℕ) → m ≡ n → (m == n) ≡ true
equal_complete m n h = (==_iff m n).1 h

module _ (s : Slot) (apid : List ℕ) (log_level payload_min payload_max : ℕ) where
  level : Bool
  level = s.log_level == log_level || s.log_level == 0

  level_sound : level ≡ true → (s.log_level ≡ log_level) ⊎ (s.log_level ≡ 0)
  unfolding level
  level_sound h =
      either_sound (s.log_level == log_level) (s.log_level == 0) (equal_sound s.log_level log_level)
        (equal_sound s.log_level 0) h

  level_complete : (s.log_level ≡ log_level) ⊎ (s.log_level ≡ 0) → level ≡ true
  unfolding level
  level_complete h =
      either_complete (s.log_level == log_level) (s.log_level == 0)
        (equal_complete s.log_level log_level) (equal_complete s.log_level 0) h

  pub covers_sound :
      (ctid : Option (List ℕ))
      → covers s apid ctid log_level payload_min payload_max ≡ true
      → Covers apid ctid log_level payload_min payload_max s
  unfolding level
  covers_sound ctid h =
      let (a, c, l, m, n) =
        and_true5 (same_id s.apid apid) (same_id s.ctid (or_empty ctid)) level
          (sle32 s.payload_min payload_min) (sle32 payload_max s.payload_max) h in
      record {
        apid_same = same_id_sound s.apid apid a;
        ctid_same = same_id_sound s.ctid (or_empty ctid) c;
        level = level_sound l;
        from = sle32_sound s.payload_min payload_min m;
        to = sle32_sound payload_max s.payload_max n;
      }

  pub covers_complete :
      (ctid : Option (List ℕ))
      → Covers apid ctid log_level payload_min payload_max s
      → covers s apid ctid log_level payload_min payload_max ≡ true
  unfolding level
  covers_complete ctid h =
      true_and5 (same_id s.apid apid) (same_id s.ctid (or_empty ctid)) level
        (sle32 s.payload_min payload_min) (sle32 payload_max s.payload_max)
        (same_id_complete s.apid apid h.apid_same)
        (same_id_complete s.ctid (or_empty ctid) h.ctid_same) (level_complete h.level)
        (sle32_complete s.payload_min payload_min h.from)
        (sle32_complete payload_max s.payload_max h.to)

  pub is_entry_sound :
      (ctid : List ℕ)
      → is_entry s apid ctid log_level payload_min payload_max ≡ true
      → Entry apid ctid log_level payload_min payload_max s
  unfolding level
  is_entry_sound ctid h =
      let (a, c, l, m, n) =
        and_true5 (same_id s.apid apid) (same_id s.ctid ctid) level (s.payload_min == payload_min)
          (s.payload_max == payload_max) h in
      record {
        apid_same = same_id_sound s.apid apid a;
        ctid_same = same_id_sound s.ctid ctid c;
        level = level_sound l;
        from = equal_sound s.payload_min payload_min m;
        to = equal_sound s.payload_max payload_max n;
      }

  pub is_entry_complete :
      (ctid : List ℕ)
      → Entry apid ctid log_level payload_min payload_max s
      → is_entry s apid ctid log_level payload_min payload_max ≡ true
  unfolding level
  is_entry_complete ctid h =
      true_and5 (same_id s.apid apid) (same_id s.ctid ctid) level (s.payload_min == payload_min)
        (s.payload_max == payload_max) (same_id_complete s.apid apid h.apid_same)
        (same_id_complete s.ctid ctid h.ctid_same) (level_complete h.level)
        (equal_complete s.payload_min payload_min h.from)
        (equal_complete s.payload_max payload_max h.to)

module _ (hb : List ℕ) (i datasize : ℕ) (s : Slot) where
  abbrev apid_in : List ℕ
  apid_in = slice hb (i + 2) 4

  abbrev ctid_in : List ℕ
  ctid_in = slice hb (i + 6) 4

  abbrev msin : ℕ
  msin = get_or hb i 0 / 16 % 16

  pub accepts_sound : accepts hb i datasize s ≡ true → Passes hb i datasize s
  accepts_sound h =
      let (a, c, l, m, n) =
        and_true5 (get_or s.apid 0 0 == 0 || same_id s.apid apid_in)
          (get_or s.ctid 0 0 == 0 || same_id s.ctid ctid_in)
          (s.log_level == 0 || s.log_level == msin)
          (s.payload_min == 0 || sle32 s.payload_min datasize)
          (s.payload_max == 0 || sle32 datasize s.payload_max) h in
      record {
        apid_same =
            either_sound (get_or s.apid 0 0 == 0) (same_id s.apid apid_in)
              (equal_sound (get_or s.apid 0 0) 0) (same_id_sound s.apid apid_in) a;
        ctid_same =
            either_sound (get_or s.ctid 0 0 == 0) (same_id s.ctid ctid_in)
              (equal_sound (get_or s.ctid 0 0) 0) (same_id_sound s.ctid ctid_in) c;
        level =
            either_sound (s.log_level == 0) (s.log_level == msin) (equal_sound s.log_level 0)
              (equal_sound s.log_level msin) l;
        from =
            either_sound (s.payload_min == 0) (sle32 s.payload_min datasize)
              (equal_sound s.payload_min 0) (sle32_sound s.payload_min datasize) m;
        to =
            either_sound (s.payload_max == 0) (sle32 datasize s.payload_max)
              (equal_sound s.payload_max 0) (sle32_sound datasize s.payload_max) n;
      }

  pub accepts_complete : Passes hb i datasize s → accepts hb i datasize s ≡ true
  accepts_complete h =
      true_and5 (get_or s.apid 0 0 == 0 || same_id s.apid apid_in)
        (get_or s.ctid 0 0 == 0 || same_id s.ctid ctid_in) (s.log_level == 0 || s.log_level == msin)
        (s.payload_min == 0 || sle32 s.payload_min datasize)
        (s.payload_max == 0 || sle32 datasize s.payload_max)
        (either_complete (get_or s.apid 0 0 == 0) (same_id s.apid apid_in)
          (equal_complete (get_or s.apid 0 0) 0) (same_id_complete s.apid apid_in) h.apid_same)
        (either_complete (get_or s.ctid 0 0 == 0) (same_id s.ctid ctid_in)
          (equal_complete (get_or s.ctid 0 0) 0) (same_id_complete s.ctid ctid_in) h.ctid_same)
        (either_complete (s.log_level == 0) (s.log_level == msin) (equal_complete s.log_level 0)
          (equal_complete s.log_level msin) h.level)
        (either_complete (s.payload_min == 0) (sle32 s.payload_min datasize)
          (equal_complete s.payload_min 0) (sle32_complete s.payload_min datasize) h.from)
        (either_complete (s.payload_max == 0) (sle32 datasize s.payload_max)
          (equal_complete s.payload_max 0) (sle32_complete datasize s.payload_max) h.to)

-- A test that fails where a statement holds of it tells that the statement is false.
pub refuted : {P : Type 0} (p : Bool) → (P → p ≡ true) → p ≡ false → P → ⊥
refuted p f h k = let w : true ≡ false = sym (f k) ∙ h in absurd (cc)

-- The statement holds of no slot.
abbrev pub NoneIs : (Slot → Type 0) → List Slot → Type 0
NoneIs P [] = Unit {0}
NoneIs P (s ∷ ss) = (P s → ⊥) × NoneIs P ss

pub AllFail-NoneIs :
    (P : Slot → Type 0) (test : Slot → Bool)
    → ((s : Slot) → P s → test s ≡ true)
    → (ss : List Slot) → AllFail test ss
    → NoneIs P ss
AllFail-NoneIs P test f [] h = tt
AllFail-NoneIs P test f (s ∷ ss) (e, h) = (refuted (test s) (f s) e, AllFail-NoneIs P test f ss h)
