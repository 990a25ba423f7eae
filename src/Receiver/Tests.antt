-- ===== src/Receiver/Tests.antt =====
-- Receivers of shared/dlt_common.c on concrete blocks.
use lr.Base.{
  ℕ, ◌≤◌, ◌≡◌, ◌⊎◌, refl, none, some, true, false, List, [], ◌∷◌, ◌++◌, arith, length, take,
  length-take, replicate, return_ok, return_error,
}
use lr.Memory.{slice}
use lr.Memory.Samples.{zeros}
use lr.Receiver.{
  DltReceiver, Source, receive_fd, DltReceiverType, dlt_receiver_init, dlt_receiver_receive,
  dlt_receiver_remove, dlt_receiver_move_to_begin, dlt_receiver_check_and_get, copied,
}
use lr.Receiver.Stream.{Carries, Parked}
use lr.Receiver.Rounds.{
  Moves, dlt_receiver_move_to_begin-Moves, dlt_receiver_receive-dlt_receiver_move_to_begin,
}
use lr.Receiver.Shared.{after_other, receive_shared_front}
use lr.Receiver.Get.{dlt_receiver_init-Parked, check_and_get-Carries}

-- A source that always gives the bytes 5, 6, as far as asked for.
abbrev five_and_six : List ℕ
five_and_six = 5 ∷ 6 ∷ []

five_six_fits : (t : DltReceiverType) (fd n : ℕ) → length (take n five_and_six) ≤ n
five_six_fits t fd n = omega (arith, length-take n five_and_six)

abbrev five_six : Source
five_six = record { recv = λ t fd n. take n five_and_six; length-recv = five_six_fits }

abbrev idle : DltReceiver
idle = record {
  last_bytes_rcvd = 0;
  bytes_rcvd = 0;
  total_bytes_rcvd = 0;
  buffer = some (replicate 8 0);
  buf = some 0;
  backup_buf = none;
  fd = 3;
  type = receive_fd;
  buffersize = 8;
}

idle-Parked : Parked idle (replicate 8 0) []
unfolding slice
idle-Parked = record {
  buffer_eq = refl;
  size_eq = refl;
  small = omega arith;
  fits = omega arith;
  count_eq = refl;
  kept = refl;
}

-- Three bytes are offered from the offset 1 on.
abbrev offering : DltReceiver
offering = record idle {
  bytes_rcvd = 3;
  buffer = some (0 ∷ 1 ∷ 2 ∷ 3 ∷ []);
  buf = some 1;
  buffersize = 4;
}

offering-Carries : Carries offering (0 ∷ 1 ∷ 2 ∷ 3 ∷ []) 1 (1 ∷ 2 ∷ 3 ∷ [])
unfolding slice
offering-Carries = record {
  buffer_eq = refl;
  buf_eq = refl;
  backup_eq = refl;
  size_eq = refl;
  small = omega arith;
  fits = omega arith;
  count_eq = refl;
  bytes = refl;
}

-- One byte is left over, in the backup.
abbrev backed : DltReceiver
backed = record idle { bytes_rcvd = 1; backup_buf = some (9 ∷ 0 ∷ []) }

-- One byte is offered at the front of the block.
abbrev front : DltReceiver
front = record idle { bytes_rcvd = 1; buffer = some (9 ∷ replicate 7 0) }

front-Carries : Carries front (9 ∷ replicate 7 0) 0 (9 ∷ [])
unfolding slice
front-Carries = record {
  buffer_eq = refl;
  buf_eq = refl;
  backup_eq = refl;
  size_eq = refl;
  small = omega arith;
  fits = omega arith;
  count_eq = refl;
  bytes = refl;
}

dlt_receiver_receive-dlt_receiver_move_to_begin_example :
    (r1 : DltReceiver) × (r2 : DltReceiver) × (r3 : DltReceiver) × (m : List ℕ)
    × (dlt_receiver_receive five_six idle ≡ some (2, r1))
    × Carries r1 m 0 (5 ∷ 6 ∷ [])
    × (slice m 0 1 ≡ 5 ∷ [])
    × (dlt_receiver_remove r1 1 ≡ (return_ok, r2))
    × (dlt_receiver_move_to_begin zeros r2 ≡ some (return_ok, r3))
    × Parked r3 m (6 ∷ [])
dlt_receiver_receive-dlt_receiver_move_to_begin_example =
    dlt_receiver_receive-dlt_receiver_move_to_begin zeros five_six idle (replicate 8 0) [] (5 ∷ [])
      (6 ∷ []) idle-Parked (λ e. absurd (cc)) refl (omega arith) (λ e. absurd (cc))

dlt_receiver_move_to_begin-Moves_example :
    Moves zeros offering (0 ∷ 1 ∷ 2 ∷ 3 ∷ []) 1 (1 ∷ 2 ∷ 3 ∷ [])
dlt_receiver_move_to_begin-Moves_example =
    dlt_receiver_move_to_begin-Moves zeros offering (0 ∷ 1 ∷ 2 ∷ 3 ∷ []) 1 (1 ∷ 2 ∷ 3 ∷ [])
      offering-Carries

receive_shared_front_example :
    (dlt_receiver_move_to_begin zeros front ≡ some (return_ok, front))
    × ((r1 : DltReceiver) × (m : List ℕ) × (dlt_receiver_receive five_six
            (after_other front (replicate 8 7))
          ≡ some (3, r1))
        × Carries r1 m 0 (slice (replicate 8 7) 0 1 ++ (5 ∷ 6 ∷ [])))
receive_shared_front_example =
    receive_shared_front zeros five_six front (9 ∷ replicate 7 0) (replicate 8 7) (9 ∷ [])
      front-Carries refl (λ e. absurd (cc))

dlt_receiver_init-Parked_example :
    ((zeros.malloc 16 ≡ none)
      × ((r1 : DltReceiver) × (dlt_receiver_init zeros idle 4 receive_fd 16 ≡ (return_error, r1))
          × (r1.buffer ≡ none)
          × (r1.buf ≡ none)))
    ⊎ ((r1 : DltReceiver) × (dlt_receiver_init zeros idle 4 receive_fd 16 ≡ (return_ok, r1))
        × Carries r1 (replicate 16 0) 0 []
        × Parked r1 (replicate 16 0) [])
dlt_receiver_init-Parked_example =
    dlt_receiver_init-Parked zeros idle 4 receive_fd 16 refl (omega arith)

check_and_get-Carries_example :
    (dlt_receiver_check_and_get offering 2 false false ≡ some (copied (1 ∷ 2 ∷ []), offering))
    × ((r1 : DltReceiver) × (dlt_receiver_check_and_get offering 2 false true
          ≡ some (copied (1 ∷ 2 ∷ []), r1))
        × Carries r1 (0 ∷ 1 ∷ 2 ∷ 3 ∷ []) 3 (3 ∷ []))
check_and_get-Carries_example =
    check_and_get-Carries offering (0 ∷ 1 ∷ 2 ∷ 3 ∷ []) 1 [] (1 ∷ 2 ∷ []) (3 ∷ []) false
      offering-Carries refl (omega arith)
