-- ===== src/Buffer/Refine.antt =====
-- A push on a buffer that holds a queue: it appends the message, or refuses and keeps the queue.
use lr.Base.{
  ℕ, zero, suc, ◌+◌, ◌-◌, ◌≤◌, ◌<◌, ◌≡◌, refl, sym, ap, ◌∙◌, ◌⊎◌, inl, inr, Bool, true, false,
  Option, some, List, [], ◌∷◌, ◌++◌, arith, length, half_word, slt32, return_ok, return_error,
  DltReturnValue, slt32_small, Bool-cases, ltb,
}
use lr.Memory.{Allocator}
use lr.Buffer.{Shm, DltBuffer}
use lr.Buffer.Messages.{Padding, free_size, make_room, dlt_buffer_push3}
use lr.Buffer.Frames.{Frame, total, Holds, free_size-total}
use lr.Buffer.Push.{frame, frame_size, pushed, pushed_shm, push_message_lem, push_message-Holds}
use lr.Buffer.Grow.{AtLimit, increase_cases}

module _ (a : Allocator) where
  -- How the search for room ends: with room for the message, or at the limit; the queue is kept.
  pub record Room (min : ℕ) (q : List Frame) (needed : ℕ) (found : Bool) (b : DltBuffer) (s : Shm)
      : Type 0 where
    pub holds : Holds b s q
    pub roomy : found ≡ true → total q + needed ≤ b.size
    pub same_min : b.min_size ≡ min
    pub full : found ≡ false → (b.size < total q + needed) × AtLimit a b

  abbrev Rooms : ℕ → List Frame → ℕ → Option (Bool × DltBuffer) → Type 0
  Rooms min q needed r =
      (found : Bool) × (b : DltBuffer) × (s : Shm) × (r ≡ some (found, b))
      × Room min q needed found b s

  test_room :
      (b : DltBuffer) (s : Shm) (q : List Frame) (needed : ℕ)
      → Holds b s q
      → needed < half_word
      → slt32 (free_size b.size s (length q)) needed ≡ ltb (b.size - total q) needed
  test_room b s q needed v n =
      let e : free_size b.size s (length q) ≡ b.size - total q =
        ap (free_size b.size s) (sym v.count_eq) ∙ free_size-total q v in
      rw e (slt32_small (b.size - total q) needed (omega arith) n)

  make_room-Rooms :
      (fuel : ℕ) (b : DltBuffer) (s : Shm) (q : List Frame) (needed : ℕ)
      → Holds b s q
      → needed < half_word
      → (0 < total q) ⊎ (total q + needed ≤ b.size)
      → b.max_size - b.size < fuel
      → Rooms b.min_size q needed (make_room a fuel b needed (length q))
  unfolding make_room
  make_room-Rooms zero b s q needed v n h m = absurd (omega arith)
  make_room-Rooms (suc fuel) b s q needed v n h m =
      elim (Bool-cases (ltb (b.size - total q) needed)) [
        | inl more ↦
            let held : 0 < total q = ground arith in
            elim (increase_cases a b s q v held) [
              | inl (e, limit) ↦ (
                false,
                b,
                s,
                ground (arith, v.shm_eq, test_room b s q needed v n, e),
                record {
                  holds = v;
                  same_min = refl;
                  roomy = λ f. absurd (cc);
                  full = λ _. (ground arith, limit);
                },
              )
              | inr (b', s', e, g) ↦
                  let (found, b'', s'', f, r) =
                    make_room-Rooms fuel b' s' q needed g.holds n (inl held)
                      (omega (arith, g.larger, g.step_pos, g.same_max)) in
                  (
                    found,
                    b'',
                    s'',
                    ground (arith, v.shm_eq, test_room b s q needed v n, e, f),
                    record {
                      holds = r.holds;
                      roomy = r.roomy;
                      same_min = r.same_min ∙ g.same_min;
                      full = r.full;
                    },
                  )
            ]
        | inr enough ↦ (
          true,
          b,
          s,
          ground (arith, v.shm_eq, test_room b s q needed v n),
          record { holds = v; same_min = refl; roomy = λ _. ground arith; full = λ e. absurd (cc) },
        )
      ]

  -- What a push does to a buffer that holds the queue `q`.
  abbrev pub Pushed : ℕ → List Frame → Frame → ℕ → Option (DltReturnValue × DltBuffer) → Type 0
  Pushed min q f n r =
      ((b : DltBuffer) × (s : Shm) × (r ≡ some (return_ok, b))
        × Holds b s (q ++ f ∷ [])
        × (b.min_size ≡ min))
      ⊎ ((b : DltBuffer) × (s : Shm) × (r ≡ some (return_error, b))
          × Holds b s q
          × (b.size < total q + n)
          × AtLimit a b
          × (b.min_size ≡ min))

  -- Pushing three parts, whose size with the header of the message is below 2 ^ 31, onto a buffer
  -- that holds a queue never leaves the memory and ends. If the queue is not empty, or the message fits without growing, either the frame of the message is
  -- appended and the code returns OK, or the queue is kept, the code returns an error, the message
  -- does not fit and the buffer cannot grow.
  pub dlt_buffer_push3-Pushed :
      (b : DltBuffer) (s : Shm) (q : List Frame) (p : Padding) (d1 d2 d3 : List ℕ)
      → Holds b s q
      → frame_size d1 d2 d3 < half_word
      → (0 < total q) ⊎ (total q + frame_size d1 d2 d3 ≤ b.size)
      → Pushed b.min_size q
          (frame p d1 d2 d3)
          (frame_size d1 d2 d3)
          (dlt_buffer_push3 a b p d1 d2 d3)
  unfolding dlt_buffer_push3
  dlt_buffer_push3-Pushed b s q p d1 d2 d3 v n h =
      let (found, b', s', e, r) =
        make_room-Rooms (suc b.max_size) b s q (frame_size d1 d2 d3) v n h (omega arith) in
      elim (Bool-cases found) [
        | inl yes_room ↦
            let fit : total q + frame_size d1 d2 d3 ≤ b'.size = r.roomy yes_room in
            inl (
              pushed b' s' q p d1 d2 d3,
              pushed_shm b' s' q p d1 d2 d3,
              ground
                  (arith, v.shm_eq, v.count_eq, e, push_message_lem b' s' q p d1 d2 d3 r.holds fit),
              push_message-Holds b' s' q p d1 d2 d3 r.holds fit,
              r.same_min,
            )
        | inr no_room ↦ inr (
          b',
          s',
          ground (arith, v.shm_eq, v.count_eq, e),
          r.holds,
          (r.full no_room).0,
          (r.full no_room).1,
          r.same_min,
        )
      ]
