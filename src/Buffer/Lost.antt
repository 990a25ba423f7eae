-- ===== src/Buffer/Lost.antt =====
-- The one case in which growing the ring buffer does not keep it sound: the queue is empty. The copy
-- takes an empty ring for a full one, so the message is written behind stale bytes, and the next pull
-- reads those as its header.
use lr.Base.{
  ℕ, ◌+◌, ◌%◌, ◌≤◌, ◌<◌, ◌≡◌, false, some, List, [], arith, length, word, drop, take, length-drop,
  bytes_eq,
}
use lr.Memory.{Allocator, slice, overwrite}
use lr.Memory.Ring.{window, put_ring}
use lr.Buffer.{Shm, DltBuffer}
use lr.Buffer.Messages.{Padding, block_head, dlt_buffer_head}
use lr.Buffer.Blocks.{advance}
use lr.Buffer.Frames.{Holds}
use lr.Buffer.Push.{frame_size, message}

module _ (b : DltBuffer) (s : Shm) (v : Holds b s []) (at_start : s.read ≡ 0) (fresh : List ℕ)
    (fits : b.size + 12 + b.step_size ≤ b.max_size)
    (fresh_len : length fresh ≡ b.size + b.step_size) where
  abbrev stale : List ℕ
  stale = overwrite fresh 0 (slice s.mem 0 b.size)

  -- The larger block: its write position lies behind the old data area, with a count of 0.
  abbrev swollen_shm : Shm
  swollen_shm = record { write = b.size; read = 0; count = 0; mem = stale }

  abbrev swollen : DltBuffer
  swollen = record b { shm = some swollen_shm; size = b.size + b.step_size }

module _ (a : Allocator) (b : DltBuffer) (s : Shm) (p : Padding) (d1 d2 d3 block : List ℕ)
    (v : Holds b s []) (at_start : s.read ≡ 0) (too_big : b.size < frame_size d1 d2 d3)
    (one_step : frame_size d1 d2 d3 ≤ b.step_size) (fits : b.size + 12 + b.step_size ≤ b.max_size)
    (given : a.malloc (b.size + 12 + b.step_size) ≡ some block) (head_fits : 12 ≤ b.size)
    (no_head : bytes_eq (take 4 (window s.mem b.size 0 12)) dlt_buffer_head ≡ false) where
  fresh_len : length (drop 12 block) ≡ b.size + b.step_size
  fresh_len =
      omega (arith, length-drop 12 block, a.length-malloc (b.size + 12 + b.step_size) block given)

  abbrev b1 : DltBuffer
  b1 = swollen b s v at_start (drop 12 block) fits fresh_len

  abbrev s1 : Shm
  s1 = swollen_shm b s v at_start (drop 12 block) fits fresh_len

  abbrev head : List ℕ
  head = block_head p ((length d1 + length d2 + length d3) % word)

  abbrev written : List ℕ
  written = put_ring s1.mem b1.size b.size (message head d1 d2 d3)

  abbrev s2 : Shm
  s2 = record s1 {
    write = advance b1.size s1.write (frame_size d1 d2 d3);
    count = 1;
    mem = written;
  }

  abbrev b2 : DltBuffer
  b2 = record b1 { shm = some s2 }
