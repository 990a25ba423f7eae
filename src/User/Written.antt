-- ===== src/User/Written.antt =====
-- What the writes of lib/dlt_user.c into the buffer of a message leave there.
use mathlib.Core.Path.{subst}
use lr.Base.{
  ℕ, zero, suc, ◌+◌, ◌/◌, ◌≤◌, ◌≡◌, refl, sym, ap, ap₂, ◌∙◌, inl, inr, Option, none, some, List, [],
  ◌∷◌, ◌++◌, arith, length, length-append, append_assoc, append-nil, ◌==◌, ==_iff, Bool-cases,
  get_or,
}
use lr.Memory.{slice, overwrite, store-in, length-slice, length-overwrite}
use lr.Memory.Bytes.{slice_ext, slice-append, slice-overwrite, slice-overwrite_before}
use lr.User.{DltContextData, le_bytes, put, text_size, text_bytes, put_text}

-- The bytes of the message so far.
abbrev pub payload : DltContextData → List ℕ
payload log = slice log.buffer 0 log.size

-- The bytes `d` written behind those of `log`; the rest is as before.
pub record Wrote (log e : DltContextData) (d : List ℕ) : Type 0 where
  pub payload_after : payload e ≡ payload log ++ d
  pub size_after : e.size ≡ log.size + length d
  pub same_block : length e.buffer ≡ length log.buffer
  pub same_args : e.args_num ≡ log.args_num
  pub same_mode : e.verbose_mode ≡ log.verbose_mode

pub Wrote-nil : (log : DltContextData) → Wrote log log []
Wrote-nil log = record {
  payload_after = sym (append-nil (payload log));
  size_after = omega arith;
  same_block = refl;
  same_args = refl;
  same_mode = refl;
}

pub Wrote-append :
    (a b c : DltContextData) (d d' : List ℕ) → Wrote a b d → Wrote b c d' → Wrote a c (d ++ d')
Wrote-append a b c d d' h k = record {
  payload_after =
      k.payload_after ∙ ap (λ p. p ++ d') h.payload_after ∙ append_assoc (payload a) d d';
  size_after = omega (arith, h.size_after, k.size_after, length-append d d');
  same_block = k.same_block ∙ h.same_block;
  same_args = k.same_args ∙ h.same_args;
  same_mode = k.same_mode ∙ h.same_mode;
}

pub slice_all : (d : List ℕ) → slice d 0 (length d) ≡ d
unfolding slice
slice_all [] = refl
slice_all (x ∷ d) = ap (◌∷◌ x) (
    slice_ext (x ∷ d) d (0 + 1) 0 (length d) (λ k l.
      ap (λ j. get_or (x ∷ d) j 0) {x = 0 + 1 + k} {y = suc k} (omega arith)
      ∙ ap (λ j. get_or d j 0) {x = k} {y = 0 + k} (omega arith))
    ∙ slice_all d)

-- The bytes `d` behind those of the message.
pub overwrite-Wrote :
    (log : DltContextData) (d : List ℕ)
    → log.size + length d ≤ length log.buffer
    → Wrote log
        (record log { buffer = overwrite log.buffer log.size d; size = log.size + length d })
        d
overwrite-Wrote log d h = record {
  payload_after =
      slice-append (overwrite log.buffer log.size d) 0 log.size (length d)
      ∙ ap₂ ◌++◌ (slice-overwrite_before d log.buffer log.size 0 log.size (omega arith)) (
          ap (λ i. slice (overwrite log.buffer log.size d) i (length d)) {x = 0 + log.size}
            {y = log.size + 0} (omega arith)
          ∙ slice-overwrite d log.buffer log.size 0 (length d) (omega arith) h
          ∙ slice_all d);
  size_after = refl;
  same_block = length-overwrite log.buffer log.size d;
  same_args = refl;
  same_mode = refl;
}

-- What fits is written.
pub put-Wrote :
    (log : DltContextData) (d : List ℕ)
    → log.size + length d ≤ length log.buffer
    → (e : DltContextData) × (put log d ≡ some e) × Wrote log e d
unfolding put
put-Wrote log d h = (
  record log { buffer = overwrite log.buffer log.size d; size = log.size + length d },
  rw (store-in log.buffer log.size d h) refl,
  overwrite-Wrote log d h,
)

pub length-le_bytes : (n v : ℕ) → length (le_bytes n v) ≡ n
length-le_bytes zero v = refl
length-le_bytes (suc n) v = ap suc (length-le_bytes n (v / 256))

pub length-text_bytes : (t : Option (List ℕ)) → length (text_bytes t) ≡ text_size t
unfolding text_bytes text_size
length-text_bytes none = refl
length-text_bytes (some t) = length-slice (t ++ 0 ∷ []) 0 (text_size (some t))

nil_of : (d : List ℕ) → length d ≡ 0 → d ≡ []
nil_of [] h = refl
nil_of (x ∷ d) h = absurd (omega (arith, h))

pub put_text-Wrote :
    (t : Option (List ℕ)) (log : DltContextData)
    → log.size + text_size t ≤ length log.buffer
    → (e : DltContextData) × (put_text t log ≡ some e) × Wrote log e (text_bytes t)
unfolding put_text
put_text-Wrote t log h = elim (Bool-cases (text_size t == 0)) [
  | inl z ↦
      let empty : text_bytes t ≡ [] =
        nil_of (text_bytes t) (length-text_bytes t ∙ (==_iff (text_size t) 0).0 z) in
      (log, rw z refl, subst (Wrote log log) (sym empty) (Wrote-nil log))
  | inr z ↦
      let (e, eq, w) = put-Wrote log (text_bytes t) (omega (arith, h, length-text_bytes t)) in
      (e, rw z eq, w)
]
