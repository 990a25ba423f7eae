-- ===== src/Receiver/Stream.antt =====
-- Receivers of shared/dlt_common.c as a stream: no received byte is lost or repeated from one call to
-- the next.
use lr.Base.{
  ℕ, suc, ◌+◌, ◌-◌, ◌≤◌, ◌<◌, ◌≡◌, refl, sym, ap, ap₂, ◌∙◌, ◌⊎◌, inl, inr, true, false, Option,
  none, some, List, [], ◌∷◌, ◌++◌, arith, length, get_or, length-append, ◌==◌, ne→==, half_word,
  sub32_small, add32_small, slt32_small, slt32, le→ltb, lt→ltb, sub32, add32, Bool-cases, ==_iff,
  append_inj, return_ok,
}
use lr.Memory.{slice, overwrite, store, load-in, store-in, length-slice, length-overwrite}
use lr.Memory.Bytes.{slice_ext, slice-append, slice-overwrite, slice-overwrite_before}
use lr.Receiver.{
  DltReceiver, Source, restore_backup, count_received, dlt_receiver_receive, dlt_receiver_remove,
}

slice_self : (d : List ℕ) → slice d 0 (length d) ≡ d
unfolding slice
slice_self [] = refl
slice_self (x ∷ d) = ap (◌∷◌ x) (
    slice_ext (x ∷ d) d 1 0 (length d) (λ k l.
      ap (λ j. get_or (x ∷ d) j 0) {x = 1 + k} {y = suc k} (omega arith)
      ∙ ap (λ j. get_or d j 0) {x = k} {y = 0 + k} (omega arith))
    ∙ slice_self d)

pub length-nil : (d : List ℕ) → length d ≡ 0 → d ≡ []
length-nil [] h = refl
length-nil (x ∷ d) h = absurd (omega arith)

-- What was written at `i` stands there.
pub slice-overwrite_self :
    (d mem : List ℕ) (i : ℕ)
    → i + length d ≤ length mem
    → slice (overwrite mem i d) i (length d) ≡ d
slice-overwrite_self d mem i h =
    ap (λ j. slice (overwrite mem i d) j (length d)) {x = i} {y = i + 0} (omega arith)
    ∙ slice-overwrite d mem i 0 (length d) (omega arith) h
    ∙ slice_self d

pub slice-nil : (mem : List ℕ) → slice mem 0 0 ≡ []
unfolding slice
slice-nil mem = refl

-- The receiver offers the bytes `q` at the offset `p` of its block.
pub record Carries (r : DltReceiver) (mem : List ℕ) (p : ℕ) (q : List ℕ) : Type 0 where
  pub buffer_eq : r.buffer ≡ some mem
  pub buf_eq : r.buf ≡ some p
  pub backup_eq : r.backup_buf ≡ none
  pub size_eq : length mem ≡ r.buffersize
  pub small : r.buffersize < half_word
  pub fits : p + length q ≤ length mem
  pub count_eq : r.bytes_rcvd ≡ length q
  pub bytes : slice mem p (length q) ≡ q

-- Where the bytes left over wait for the next receive: in the backup, or at the front of the block.
abbrev pub Kept : Option (List ℕ) → List ℕ → List ℕ → Type 0
Kept none mem q = slice mem 0 (length q) ≡ q
Kept (some b) mem q = (0 < length q) × (length q ≤ length b) × (slice b 0 (length q) ≡ q)

-- The receiver keeps the bytes `q` for the next receive.
pub record Parked (r : DltReceiver) (mem q : List ℕ) : Type 0 where
  pub buffer_eq : r.buffer ≡ some mem
  pub size_eq : length mem ≡ r.buffersize
  pub small : r.buffersize < half_word
  pub fits : length q ≤ length mem
  pub count_eq : r.bytes_rcvd ≡ length q
  pub kept : Kept r.backup_buf mem q

-- The bytes kept stand at the front, and nothing is left in the backup.
restore_backup_lem :
    (backup : Option (List ℕ)) (mem q : List ℕ)
    → Kept backup mem q
    → length q ≤ length mem
    → (m : List ℕ) × (restore_backup mem (length q) backup ≡ some (m, none))
      × (length m ≡ length mem)
      × (slice m 0 (length q) ≡ q)
unfolding restore_backup
restore_backup_lem none mem q k h = (mem, refl, refl, k)
restore_backup_lem (some b) mem q (some_kept, l, e) h = (
  overwrite mem 0 q,
  rw (ne→== (length q) 0 (omega arith), load-in b 0 (length q) (omega arith), e)
      (rw (store-in mem 0 q (omega arith)) refl),
  length-overwrite mem 0 q,
  slice-overwrite_self q mem 0 (omega arith),
)

-- The bytes that a receive takes in.
abbrev pub received : Source → DltReceiver → List ℕ → List ℕ
received src r q = src.recv r.type r.fd (r.buffersize - length q)

-- What a receive does: no byte came, the answer is 0 and the bytes kept are dropped; or the bytes
-- that came stand behind those kept.
abbrev pub Receives : Source → DltReceiver → List ℕ → Type 0
Receives src r q =
    (r1 : DltReceiver) × (m : List ℕ) × (((received src r q ≡ [])
        × (dlt_receiver_receive src r ≡ some (0, r1))
        × Carries r1 m 0 [])
      ⊎ ((dlt_receiver_receive src r ≡ some (length (q ++ received src r q), r1))
          × Carries r1 m 0 (q ++ received src r q)))

pub dlt_receiver_receive-Receives :
    (src : Source) (r : DltReceiver) (mem q : List ℕ) → Parked r mem q → Receives src r q
unfolding dlt_receiver_receive count_received
dlt_receiver_receive-Receives src r mem q v =
    let (m, e, l, front) = restore_backup_lem r.backup_buf mem q v.kept v.fits in
    let len : length got ≤ r.buffersize - length q =
      src.length-recv r.type r.fd (r.buffersize - length q) in
    let counted : sub32 r.buffersize (length q) ≡ r.buffersize - length q =
      sub32_small r.buffersize (length q) (omega (arith, v.fits, v.size_eq))
        (omega (arith, v.small)) in
    let m1 : List ℕ = overwrite m (length q) got in
    let fit : length q + length got ≤ length m = omega (arith, v.size_eq, v.fits) in
    let stored : store m (length q) got ≡ some m1 = store-in m (length q) got fit in
    let size1 : length m1 ≡ r.buffersize = length-overwrite m (length q) got ∙ l ∙ v.size_eq in
    let r1 : DltReceiver = record r {
      buf = some 0;
      last_bytes_rcvd = length q;
      backup_buf = none;
      buffer = some m1;
    } in
    let steps : dlt_receiver_receive src r ≡ some (count_received r1 (length q) (length got)) =
      rw (v.buffer_eq, v.count_eq) (rw (e, counted) (rw stored refl)) in
    elim (Bool-cases (length got == 0)) [
      | inl z ↦ (
        record r1 { bytes_rcvd = 0 },
        m1,
        inl (
          length-nil got ((==_iff (length got) 0).0 z),
          steps ∙ rw z refl,
          record {
            buffer_eq = refl;
            buf_eq = refl;
            backup_eq = refl;
            size_eq = size1;
            small = v.small;
            fits = omega arith;
            count_eq = refl;
            bytes = slice-nil m1;
          },
        ),
      )
      | inr z ↦
          let total : add32 (length got) (length q) ≡ length (q ++ got) =
            add32_small (length got) (length q) (omega (arith, v.small, v.size_eq, v.fits))
            ∙ omega (arith, length-append q got) in
          (
            record r1 {
              total_bytes_rcvd = add32 r.total_bytes_rcvd (length got);
              bytes_rcvd = add32 (length got) (length q);
            },
            m1,
            inr (
              steps ∙ rw z (ap₂ (λ n k. some (n, k)) total refl),
              record {
                buffer_eq = refl;
                buf_eq = refl;
                backup_eq = refl;
                size_eq = size1;
                small = v.small;
                fits = omega (arith, length-append q got, size1, l, v.size_eq);
                count_eq = total;
                bytes =
                    ap (slice m1 0) (length-append q got)
                    ∙ slice-append m1 0 (length q) (length got)
                    ∙ ap₂ ◌++◌
                        (slice-overwrite_before got m (length q) 0 (length q) (omega arith) ∙ front)
                        (ap (λ j. slice m1 j (length got)) {x = 0 + length q} {y = length q}
                            (omega arith)
                          ∙ slice-overwrite_self got m (length q) fit);
              },
            ),
          )
    ]
  where
    got : List ℕ
    got = received src r q

-- Taking a first part of the bytes offered, not empty, off leaves the others offered.
pub dlt_receiver_remove-Carries :
    (r : DltReceiver) (mem : List ℕ) (p : ℕ) (d q : List ℕ)
    → Carries r mem p (d ++ q)
    → 0 < length d
    → (r1 : DltReceiver) × (dlt_receiver_remove r (length d) ≡ (return_ok, r1))
      × Carries r1 mem (p + length d) q
unfolding dlt_receiver_remove
dlt_receiver_remove-Carries r mem p d q v some_d =
    let total : length (d ++ q) ≡ length d + length q = length-append d q in
    let high : r.bytes_rcvd < half_word = omega (arith, v.count_eq, v.small, v.size_eq, v.fits) in
    let left : sub32 r.bytes_rcvd (length d) ≡ length q =
      sub32_small r.bytes_rcvd (length d) (omega (arith, v.count_eq)) (omega arith)
      ∙ omega (arith, v.count_eq) in
    let enough : slt32 r.bytes_rcvd (length d) ≡ false =
      slt32_small r.bytes_rcvd (length d) high (omega (arith, v.count_eq))
      ∙ le→ltb r.bytes_rcvd (length d) (omega (arith, v.count_eq)) in
    let positive : slt32 0 (length d) ≡ true =
      slt32_small 0 (length d) (omega arith) (omega (arith, v.count_eq))
      ∙ lt→ltb 0 (length d) some_d in
    (
      record r { bytes_rcvd = sub32 r.bytes_rcvd (length d); buf = some (p + length d) },
      rw v.buf_eq (rw (enough, positive) refl),
      record {
        buffer_eq = v.buffer_eq;
        buf_eq = refl;
        backup_eq = v.backup_eq;
        size_eq = v.size_eq;
        small = v.small;
        fits = omega (arith, v.fits);
        count_eq = left;
        bytes =
            (append_inj (slice mem p (length d)) (slice mem (p + length d) (length q)) d q
              (length-slice mem p (length d))
              (sym (slice-append mem p (length d) (length q))
                ∙ ap (slice mem p) (sym total)
                ∙ v.bytes)).1;
      },
    )
