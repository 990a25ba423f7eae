-- ===== src/Buffer/Tests.antt =====
-- Runs of the ring buffer of shared/dlt_common.c, and its theorems at concrete buffers.
use lr.Base.{
  ◌+◌, ◌≡◌, refl, ◌⊎◌, inl, inr, some, none, List, [], ◌∷◌, arith, replicate, return_ok,
  return_error, DltReturnValue,
}
use lr.Memory.Samples.{zeros}
use lr.Memory.{load, store, slice, overwrite}
use lr.Memory.Ring.{window}
use lr.Buffer.{
  Shm, DltBuffer, dlt_buffer_init_dynamic, dlt_buffer_increase_size, dlt_buffer_minimize_size,
  dlt_buffer_write_block, dlt_buffer_read_block, dlt_buffer_reset, empty_shm,
}
use lr.Buffer.Messages.{
  taken, block_head, dlt_buffer_push3, dlt_buffer_push, dlt_buffer_pull, dlt_buffer_copy,
  dlt_buffer_get, make_room, push_message, write_message, write_chunk, free_size, read_head,
  check_head, get_message, finish,
}
use lr.Buffer.Frames.{Frame, encode, Holds}
use lr.Buffer.Push.{frame}
use lr.Buffer.Grow.{AtLimit, Grows, increase_cases}
use lr.Buffer.Refine.{Pushed, dlt_buffer_push3-Pushed}
use lr.Buffer.Read.{HasRoom, Overruns}
use lr.Buffer.Take.{dlt_buffer_pull_lem, dlt_buffer_copy_lem, minimize_cases}
use lr.Buffer.Init.{dlt_buffer_init_dynamic-Holds, init_dynamic_overrun, dlt_buffer_reset-Holds}
use lr.Buffer.History.{push, pull, Reply, run, Served, run-Served}

abbrev blank : DltBuffer
blank = record { shm = none; size = 0; min_size = 0; max_size = 0; step_size = 0 }

abbrev fresh_shm : Shm
fresh_shm = empty_shm (replicate 28 0)

abbrev fresh : DltBuffer
fresh = record { shm = some fresh_shm; size = 28; min_size = 40; max_size = 120; step_size = 30 }

-- The message 7, 8 with its header.
abbrev one_shm : Shm
one_shm = record {
  write = 14;
  read = 0;
  count = 1;
  mem = b'S' ∷ b'H' ∷ b'M' ∷ 0 ∷ 2 ∷ 0 ∷ 0 ∷ 0 ∷ 2 ∷ 0 ∷ 0 ∷ 0 ∷ 7 ∷ 8 ∷ replicate 14 0;
}

abbrev one : DltBuffer
one = record fresh { shm = some one_shm }

abbrev seven_eight : Frame
seven_eight = record { pad = (0, 0, 0); payload = 7 ∷ 8 ∷ [] }

fresh-Holds : Holds fresh fresh_shm []
unfolding window encode
fresh-Holds = record {
  shm_eq = refl;
  limits = omega arith;
  mem_len = refl;
  read_in = omega arith;
  write_in = omega arith;
  room = omega arith;
  ends = inl (refl, refl);
  count_eq = refl;
  bytes = refl;
}

one-Holds : Holds one one_shm (seven_eight ∷ [])
unfolding window encode block_head
one-Holds = record {
  shm_eq = refl;
  limits = omega arith;
  mem_len = refl;
  read_in = omega arith;
  write_in = omega arith;
  room = omega arith;
  ends = inr (omega arith, omega arith, inl refl);
  count_eq = refl;
  bytes = refl;
}

-- The push of the message into the fresh buffer.
push_fresh : dlt_buffer_push zeros fresh (0, 0, 0) (7 ∷ 8 ∷ []) ≡ some (return_ok, one)
unfolding dlt_buffer_push dlt_buffer_push3 make_room push_message write_message write_chunk
    dlt_buffer_write_block store overwrite block_head free_size
push_fresh = refl

-- The pull of it, which finds the buffer at its least size.
pull_one :
    dlt_buffer_pull zeros one (some 100) 100
    ≡ some
        (taken 2 (7 ∷ 8 ∷ []), record one { shm = some (record one_shm { read = 14; count = 0 }) })
unfolding dlt_buffer_pull dlt_buffer_get read_head check_head get_message finish
    dlt_buffer_read_block load slice dlt_buffer_minimize_size
pull_one = refl

dlt_buffer_push3-Pushed_example :
    Pushed zeros 40
      (seven_eight ∷ [])
      (frame (0, 0, 0) (1 ∷ []) (2 ∷ []) (3 ∷ []))
      15
      (dlt_buffer_push3 zeros one (0, 0, 0) (1 ∷ []) (2 ∷ []) (3 ∷ []))
dlt_buffer_push3-Pushed_example =
    dlt_buffer_push3-Pushed zeros one one_shm (seven_eight ∷ []) (0, 0, 0) (1 ∷ []) (2 ∷ [])
      (3 ∷ []) one-Holds (omega arith) (inl (omega arith))

dlt_buffer_pull_lem_example :
    (HasRoom (some 2) 1 2
      × ((b' : DltBuffer) × (s' : Shm) × (dlt_buffer_pull zeros one (some 2) 1
            ≡ some (taken 2 (7 ∷ 8 ∷ []), b'))
          × Holds b' s' []
          × (b'.min_size ≡ 40)))
    ⊎ (Overruns (some 2) 1 2 × (dlt_buffer_pull zeros one (some 2) 1 ≡ none))
dlt_buffer_pull_lem_example =
    dlt_buffer_pull_lem zeros one one_shm seven_eight [] one-Holds (some 2) 1

dlt_buffer_copy_lem_example :
    (HasRoom (some 2) 1 2
      × (dlt_buffer_copy zeros one (some 2) 1 ≡ some (taken 2 (7 ∷ 8 ∷ []), one)))
    ⊎ (Overruns (some 2) 1 2 × (dlt_buffer_copy zeros one (some 2) 1 ≡ none))
dlt_buffer_copy_lem_example =
    dlt_buffer_copy_lem zeros one one_shm seven_eight [] one-Holds (some 2) 1

-- A block of one byte is too small for the message, whatever the maximal size.
copy_overruns : dlt_buffer_copy zeros one (some 1) 1 ≡ none
unfolding dlt_buffer_copy dlt_buffer_get read_head check_head get_message finish
    dlt_buffer_read_block load slice
copy_overruns = refl

run-Served_example :
    (rs : List Reply) × (b' : DltBuffer) × (s' : Shm) × (q' : List Frame) × (run zeros one
        (push (1, 2, 3) (5 ∷ []) [] [] ∷ pull (some 40) 9 ∷ [])
      ≡ some (rs, b'))
    × Holds b' s' q'
    × Served (seven_eight ∷ []) (push (1, 2, 3) (5 ∷ []) [] [] ∷ pull (some 40) 9 ∷ []) rs q'
run-Served_example =
    run-Served zeros (push (1, 2, 3) (5 ∷ []) [] [] ∷ pull (some 40) 9 ∷ []) one one_shm
      (seven_eight ∷ []) one-Holds (omega arith, tt) (omega arith, (omega arith, tt))

dlt_buffer_init_dynamic-Holds_example :
    (b' : DltBuffer) × (s : Shm) × (dlt_buffer_init_dynamic zeros blank 40 120 30
      ≡ some (return_ok, b'))
    × Holds b' s []
    × (b'.min_size ≡ 40)
    × (b'.max_size ≡ 120)
    × (b'.step_size ≡ 30)
dlt_buffer_init_dynamic-Holds_example =
    dlt_buffer_init_dynamic-Holds zeros blank 40 120 30 (replicate 40 0) refl (omega arith)
      (omega arith) (omega arith) (omega arith) (omega arith)

init_dynamic_overrun_example : dlt_buffer_init_dynamic zeros blank 8 120 30 ≡ none
init_dynamic_overrun_example =
    init_dynamic_overrun zeros blank 8 120 30 (replicate 8 0) refl (omega arith) (omega arith)
      (omega arith) (omega arith) (omega arith)

dlt_buffer_reset-Holds_example :
    (b' : DltBuffer) × (s' : Shm) × (dlt_buffer_reset one ≡ some (return_ok, b')) × Holds b' s' []
dlt_buffer_reset-Holds_example = dlt_buffer_reset-Holds one one_shm refl (omega arith) refl

minimize_cases_example :
    (r : DltReturnValue) × (b' : DltBuffer) × (s' : Shm) × (dlt_buffer_minimize_size zeros fresh
      ≡ some (r, b'))
    × Holds b' s' []
    × (((r ≡ return_ok) × (b'.size + 12 ≡ 40)) ⊎ ((r ≡ return_error) × (b' ≡ fresh)))
    × (b'.min_size ≡ 40)
minimize_cases_example = minimize_cases zeros fresh fresh_shm [] fresh-Holds refl

increase_cases_example :
    ((dlt_buffer_increase_size zeros one ≡ some (return_error, one)) × AtLimit zeros one)
    ⊎ ((b' : DltBuffer) × (s' : Shm) × (dlt_buffer_increase_size zeros one ≡ some (return_ok, b'))
        × Grows zeros one b' s' (seven_eight ∷ []))
increase_cases_example = increase_cases zeros one one_shm (seven_eight ∷ []) one-Holds (omega arith)
