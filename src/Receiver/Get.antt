-- ===== src/Receiver/Get.antt =====
-- `dlt_receiver_init` and `dlt_receiver_check_and_get` of shared/dlt_common.c: where a receiver starts, and how
-- a structure is taken off its bytes.
use mathlib.Core.Path.{subst}
use lr.Base.{
  ℕ, ◌+◌, ◌%◌, ◌<◌, ◌≡◌, refl, sym, ap, ap₂, ◌∙◌, ◌⊎◌, inl, inr, Bool, true, false, Option, none,
  some, List, [], ◌++◌, arith, length, length-append, length-replicate, replicate, append_assoc,
  append_inj, half_word, word, slt32, slt32_small, le→ltb, lt→ltb, return_ok, return_error,
  wrong_parameter, Option-cases, ◌>>=◌,
}
use lr.Memory.{Allocator, slice, load, load-in, length-slice}
use lr.Memory.Bytes.{slice-append}
use lr.Receiver.{
  DltReceiver, DltReceiverType, dlt_receiver_init, kept_buffer, check_bytes, dlt_receiver_remove,
  refused, copied, skipped, dlt_receiver_check_and_get,
}
use lr.Receiver.Stream.{Carries, Parked, slice-nil, dlt_receiver_remove-Carries}

-- A receiver without a buffer, or with one of another size, starts with a block of zeros of the size
-- asked for, below 2 ^ 31, and no bytes; where no memory is given it gets no buffer and the answer is
-- an error.
pub dlt_receiver_init-Parked :
    (a : Allocator) (r : DltReceiver) (fd : ℕ) (type : DltReceiverType) (buffersize : ℕ)
    → kept_buffer r buffersize ≡ none
    → buffersize < half_word
    → ((a.malloc buffersize ≡ none)
        × ((r1 : DltReceiver) × (dlt_receiver_init a r fd type buffersize ≡ (return_error, r1))
            × (r1.buffer ≡ none)
            × (r1.buf ≡ none)))
      ⊎ ((r1 : DltReceiver) × (dlt_receiver_init a r fd type buffersize ≡ (return_ok, r1))
          × Carries r1 (replicate buffersize 0) 0 []
          × Parked r1 (replicate buffersize 0) [])
unfolding dlt_receiver_init
dlt_receiver_init-Parked a r fd type buffersize h small =
    elim (Option-cases (a.malloc buffersize)) [
      | inl e ↦ inl (
        e,
        (
          start none none,
          rw (h, dlt_receiver_init)
              (rw e (
                ap (λ o. (return_error, start o none)) {y = none}
                  (ap (λ m. m >>= λ x. some zeros) e))),
          refl,
          refl,
        ),
      )
      | inr (m, e) ↦ inr (
        start (some zeros) (some 0),
        rw (h, dlt_receiver_init)
            (rw e (
              ap (λ o. (return_ok, start o (some 0))) {y = some zeros}
                (ap (λ m. m >>= λ x. some zeros) e))),
        record {
          buffer_eq = refl;
          buf_eq = refl;
          backup_eq = refl;
          size_eq = size;
          small = small;
          fits = omega arith;
          count_eq = refl;
          bytes = slice-nil zeros;
        },
        record {
          buffer_eq = refl;
          size_eq = size;
          small = small;
          fits = omega arith;
          count_eq = refl;
          kept = slice-nil zeros;
        },
      )
    ]
  where
    zeros : List ℕ
    zeros = replicate buffersize 0

    size : length zeros ≡ buffersize
    size = length-replicate buffersize (let z : ℕ = 0 in z)

    start : Option (List ℕ) → Option ℕ → DltReceiver
    start block at = record {
      fd = fd;
      type = type;
      last_bytes_rcvd = 0;
      bytes_rcvd = 0;
      total_bytes_rcvd = 0;
      buf = at;
      backup_buf = none;
      buffer = block;
      buffersize = buffersize;
    }

-- The bytes of a structure `d` that is not empty, behind a header `h` where one is skipped, are copied, and with the
-- flag to remove they are taken off with the header; the others stay offered.
pub check_and_get-Carries :
    (r : DltReceiver) (mem : List ℕ) (p : ℕ) (h d q : List ℕ) (skip_header : Bool)
    → Carries r mem p (h ++ (d ++ q))
    → length h ≡ skipped skip_header
    → 0 < length d
    → (dlt_receiver_check_and_get r (length d) skip_header false ≡ some (copied d, r))
      × ((r1 : DltReceiver) × (dlt_receiver_check_and_get r (length d) skip_header true
            ≡ some (copied d, r1))
          × Carries r1 mem (p + length (h ++ d)) q)
unfolding dlt_receiver_check_and_get check_bytes
check_and_get-Carries r mem p h d q skip_header v skip some_d =
    let whole : (h ++ d) ++ q ≡ h ++ (d ++ q) = append_assoc h d q in
    let (r1, e, end) =
      dlt_receiver_remove-Carries r mem p (h ++ d) q (subst (Carries r mem p) (sym whole) v)
        (omega (arith, length-append h d)) in
    let total : length (h ++ (d ++ q)) ≡ length h + (length d + length q) =
      length-append h (d ++ q) ∙ ap (λ n. length h + n) (length-append d q) in
    let size : (length d + skipped skip_header) % word ≡ length (h ++ d) =
      omega (arith, length-append h d, skip, total, v.fits, v.small, v.size_eq) in
    let enough : slt32 r.bytes_rcvd ((length d + skipped skip_header) % word) ≡ false =
      ap₂ slt32 v.count_eq size
      ∙ slt32_small (length (h ++ (d ++ q))) (length (h ++ d))
          (omega (arith, v.fits, v.small, v.size_eq))
          (omega (arith, length-append h d, total, v.fits, v.small, v.size_eq))
      ∙ le→ltb _ _ (omega (arith, length-append h d, total)) in
    let loaded : load mem (p + skipped skip_header) (length d) ≡ some d =
      load-in mem (p + skipped skip_header) (length d) (omega (arith, skip, total, v.fits))
      ∙ ap some (ap (λ n. slice mem (p + n) (length d)) (sym skip) ∙ second) in
    let removed : dlt_receiver_remove r ((length d + skipped skip_header) % word)
        ≡ (return_ok, r1) =
      ap (dlt_receiver_remove r) size ∙ e in
    (
      ap₂ (check_bytes r (length d) skip_header false) v.buf_eq v.buffer_eq
          ∙ rw enough (rw loaded refl),
      (
        r1,
        ap₂ (check_bytes r (length d) skip_header true) v.buf_eq v.buffer_eq
            ∙ rw enough (rw loaded (rw removed (ap (λ k. some (copied d, k.1)) removed))),
        end,
      ),
    )
  where
    rest : slice mem (p + length h) (length (d ++ q)) ≡ d ++ q
    rest =
        (append_inj (slice mem p (length h)) (slice mem (p + length h) (length (d ++ q))) h (d ++ q)
          (length-slice mem p (length h))
          (sym (slice-append mem p (length h) (length (d ++ q)))
            ∙ ap (slice mem p) (sym (length-append h (d ++ q)))
            ∙ v.bytes)).1

    second : slice mem (p + length h) (length d) ≡ d
    second =
        (append_inj (slice mem (p + length h) (length d))
          (slice mem (p + length h + length d) (length q)) d q
          (length-slice mem (p + length h) (length d))
          (sym (slice-append mem (p + length h) (length d) (length q))
            ∙ ap (slice mem (p + length h)) (sym (length-append d q))
            ∙ rest)).0

-- With fewer bytes than the structure and the header need, nothing is copied and nothing changes.
pub check_and_get-short :
    (r : DltReceiver) (mem : List ℕ) (p to_get : ℕ) (q : List ℕ) (skip_header remove : Bool)
    → Carries r mem p q
    → length q < to_get + skipped skip_header
    → to_get + skipped skip_header < half_word
    → dlt_receiver_check_and_get r to_get skip_header remove ≡ some (refused wrong_parameter, r)
unfolding dlt_receiver_check_and_get check_bytes
check_and_get-short r mem p to_get q skip_header remove v h small =
    ap₂ (check_bytes r to_get skip_header remove) v.buf_eq v.buffer_eq ∙ rw short refl
  where
    size : (to_get + skipped skip_header) % word ≡ to_get + skipped skip_header
    size = omega arith

    short : slt32 r.bytes_rcvd ((to_get + skipped skip_header) % word) ≡ true
    short =
        ap₂ slt32 v.count_eq size
        ∙ slt32_small (length q) (to_get + skipped skip_header) (omega arith) small
        ∙ lt→ltb (length q) (to_get + skipped skip_header) h
