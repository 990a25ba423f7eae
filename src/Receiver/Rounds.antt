-- ===== src/Receiver/Rounds.antt =====
-- What receivers of shared/dlt_common.c keep for the next call (`dlt_receiver_move_to_begin`), and a round of
-- receive, remove and move.
use mathlib.Core.Path.{subst}
use lr.Base.{
  append_inj, length-append, ℕ, ◌+◌, ◌≤◌, ◌<◌, ◌≡◌, ◌≢◌, refl, sym, ap, ap₂, ◌∙◌, ◌⊎◌, inl, inr,
  Option, none, some, List, [], ◌++◌, arith, length, replicate, length-replicate, ◌==◌, Bool-cases,
  ==_iff, Option-cases, return_ok, ◌>>=◌,
}
use lr.Memory.Bytes.{slice-append}
use lr.Memory.{length-slice, Allocator, slice, overwrite, load-in, store-in, length-overwrite}
use lr.Receiver.{
  DltReceiver, Source, dlt_receiver_receive, dlt_receiver_remove, make_backup,
  dlt_receiver_move_to_begin, move_bytes,
}
use lr.Receiver.Stream.{
  Carries, Parked, Kept, received, length-nil, slice-nil, slice-overwrite_self,
  dlt_receiver_receive-Receives, dlt_receiver_remove-Carries,
}

make_backup_lem :
    (a : Allocator) (mem : List ℕ) (p : ℕ) (q : List ℕ)
    → p + length q ≤ length mem
    → slice mem p (length q) ≡ q
    → 0 < length q
    → (o : Option (List ℕ)) × (make_backup a mem p (length q) ≡ some o)
      × (((o ≡ none) × (a.malloc (length q + 1) ≡ none))
          ⊎ ((b : List ℕ) × (o ≡ some b) × Kept o mem q))
unfolding make_backup
make_backup_lem a mem p q h e some_q = elim (Option-cases (a.malloc (length q + 1))) [
  | inl none_given ↦ (none, rw (none_given, make_backup) refl, inl (refl, none_given))
  | inr (block, given) ↦
      let blank : List ℕ = replicate (length q + 1) 0 in
      let size : length blank ≡ length q + 1 =
        length-replicate (length q + 1) (let z : ℕ = 0 in z) in
      let b : List ℕ = overwrite blank 0 q in
      (
        some b,
        rw (given, make_backup)
            (rw (load-in mem p (length q) h, e) (rw (store-in blank 0 q (omega arith)) refl)),
        inr (
          b,
          refl,
          (
            some_q,
            omega (arith, length-overwrite blank 0 q),
            slice-overwrite_self q blank 0 (omega arith),
          ),
        ),
      )
]

-- How a move ends: with the bytes kept for the next receive, or, where they do not stand at the
-- front and no memory is given for their copy, without them.
abbrev pub Moves : Allocator → DltReceiver → List ℕ → ℕ → List ℕ → Type 0
Moves a r mem p q =
    (r1 : DltReceiver) × (dlt_receiver_move_to_begin a r ≡ some (return_ok, r1))
    × (Parked r1 mem q ⊎ ((0 < p) × (0 < length q) × (a.malloc (length q + 1) ≡ none)))

-- A move never leaves the block and answers OK. It keeps the bytes offered for the next receive,
-- unless they do not stand at the front and no memory is given for their copy.
pub dlt_receiver_move_to_begin-Moves :
    (a : Allocator) (r : DltReceiver) (mem : List ℕ) (p : ℕ) (q : List ℕ)
    → Carries r mem p q
    → Moves a r mem p q
unfolding dlt_receiver_move_to_begin move_bytes
dlt_receiver_move_to_begin-Moves a r mem p q v = elim (Bool-cases (p == 0)) [
  | inl z ↦
      let front : slice mem 0 (length q) ≡ q =
        ap (λ j. slice mem j (length q)) (sym ((==_iff p 0).0 z)) ∙ v.bytes in
      (r, at_bytes ∙ rw z refl, inl (stay front))
  | inr moved ↦ elim (Bool-cases (length q == 0)) [
    | inl z ↦
        let empty : q ≡ [] = length-nil q ((==_iff (length q) 0).0 z) in
        (
          r,
          at_bytes ∙ rw (moved, ap (λ n. n == 0) v.count_eq ∙ z) refl,
          inl (stay (ap (λ l. slice mem 0 (length l)) empty ∙ slice-nil mem ∙ sym empty)),
        )
    | inr left ↦
        let some_q : 0 < length q = ground arith in
        let (o, e, done) = make_backup_lem a mem p q v.fits v.bytes some_q in
        (
          record r { backup_buf = o },
          at_bytes
              ∙ rw (moved, ap (λ n. n == 0) v.count_eq ∙ left)
                  (ap
                      (λ n. make_backup a mem p n >>= λ o.
                        some (return_ok, record r { backup_buf = o }))
                      v.count_eq
                    ∙ rw e refl),
          elim done [
            | inl (_, none_given) ↦ inr (ground arith, some_q, none_given)
            | inr (b, _, kept) ↦ inl (record {
              buffer_eq = v.buffer_eq;
              size_eq = v.size_eq;
              small = v.small;
              fits = omega (arith, v.fits);
              count_eq = v.count_eq;
              kept = kept;
            })
          ],
        )
  ]
]
  where
    at_bytes : dlt_receiver_move_to_begin a r ≡ move_bytes a r (some mem) (some p)
    at_bytes = ap₂ (move_bytes a r) v.buffer_eq v.buf_eq

    stay : slice mem 0 (length q) ≡ q → Parked r mem q
    stay front = record {
      buffer_eq = v.buffer_eq;
      size_eq = v.size_eq;
      small = v.small;
      fits = omega (arith, v.fits);
      count_eq = v.count_eq;
      kept = subst (λ o. Kept o mem q) (sym v.backup_eq) front;
    }

-- The bytes at the front are those of the first part.
front_part :
    (m d rest : List ℕ) → slice m 0 (length (d ++ rest)) ≡ d ++ rest → slice m 0 (length d) ≡ d
front_part m d rest e =
    (append_inj (slice m 0 (length d)) (slice m (0 + length d) (length rest)) d rest
      (length-slice m 0 (length d))
      (sym (slice-append m 0 (length d) (length rest))
        ∙ ap (slice m 0) (sym (length-append d rest))
        ∙ e)).0

-- A round of the daemon: receive, take the first part `d` of what is offered, keep the rest. Where
-- bytes come, `d` is not empty and memory is given for the copy of the rest, the block carries just
-- the bytes kept before and those received, so that the bytes taken at its front are `d`, and the
-- rest is kept for the next receive.
pub dlt_receiver_receive-dlt_receiver_move_to_begin :
    (a : Allocator) (src : Source) (r : DltReceiver) (mem q d rest : List ℕ)
    → Parked r mem q
    → received src r q ≢ []
    → q ++ received src r q ≡ d ++ rest
    → 0 < length d
    → a.malloc (length rest + 1) ≢ none
    → (r1 : DltReceiver) × (r2 : DltReceiver) × (r3 : DltReceiver) × (m : List ℕ)
      × (dlt_receiver_receive src r ≡ some (length (d ++ rest), r1))
      × Carries r1 m 0 (d ++ rest)
      × (slice m 0 (length d) ≡ d)
      × (dlt_receiver_remove r1 (length d) ≡ (return_ok, r2))
      × (dlt_receiver_move_to_begin a r2 ≡ some (return_ok, r3))
      × Parked r3 m rest
dlt_receiver_receive-dlt_receiver_move_to_begin a src r mem q d rest v came split some_d given =
    let (r1, m, how) = dlt_receiver_receive-Receives src r mem q v in
    elim how [
      | inl (nothing, _, _) ↦ absurd (came nothing)
      | inr (e, carried) ↦
          let carries : Carries r1 m 0 (d ++ rest) = subst (Carries r1 m 0) split carried in
          let (r2, e2, carried2) = dlt_receiver_remove-Carries r1 m 0 d rest carries some_d in
          let (r3, e3, end) =
            dlt_receiver_move_to_begin-Moves a r2 m (0 + length d) rest carried2 in
          elim end [
            | inl parked ↦ (
              r1,
              r2,
              r3,
              m,
              e ∙ ap (λ l. some (length l, r1)) split,
              carries,
              front_part m d rest carries.bytes,
              e2,
              e3,
              parked,
            )
            | inr (_, _, refused) ↦ absurd (given refused)
          ]
    ]
