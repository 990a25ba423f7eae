-- ===== src/Buffer/Push.antt =====
-- Pushing a message appends its frame to the queue that the ring buffer holds.
use lr.Base.{
  ℕ, ◌+◌, ◌-◌, ◌%◌, ◌≤◌, ◌<◌, ◌≡◌, refl, sym, ap, ap₂, ◌∙◌, inl, inr, some, List, [], ◌∷◌, ◌++◌,
  arith, length, return_ok, length-append, append_assoc, append-nil, half_word, word,
}
use lr.Memory.Ring.{window, put_ring, length-put_ring, window-put_ring, put_ring-mod}
use lr.Buffer.{Shm, DltBuffer}
use lr.Buffer.Messages.{Padding, block_head, write_chunk, write_message, push_message}
use lr.Buffer.Blocks.{
  mod-sub_size, advance, advance_in, advance-advance, put_ring-advance, dlt_buffer_write_block_lem,
}
use lr.Buffer.Frames.{
  Frame, encode, total, length-le-total, length-block_head, encode-append, total-append, Ends,
  Holds,
}

abbrev pub message : List ℕ → List ℕ → List ℕ → List ℕ → List ℕ
message h d1 d2 d3 = ((h ++ d1) ++ d2) ++ d3

pub length-message :
    (h d1 d2 d3 : List ℕ)
    → length (message h d1 d2 d3) ≡ length h + (length d1 + length d2 + length d3)
length-message h d1 d2 d3 =
    omega
      (arith, length-append ((h ++ d1) ++ d2) d3, length-append (h ++ d1) d2, length-append h d1)

module _ (size : ℕ) (small : size < half_word) where
  write_chunk_lem :
      (mem : List ℕ) (w : ℕ) (d : List ℕ)
      → length mem ≡ size
      → w ≤ size
      → length d ≤ size
      → write_chunk size (w, mem) d ≡ some (advance size w (length d), put_ring mem size w d)
  unfolding write_chunk put_ring
  write_chunk_lem mem w [] full hw hd = ground arith
  write_chunk_lem mem w (x ∷ d) full hw hd =
      dlt_buffer_write_block_lem size mem small full w (x ∷ d) hw hd

  -- A block of bytes, then a chunk behind it.
  chunk_after :
      (mem : List ℕ) (w : ℕ) (c d : List ℕ)
      → length mem ≡ size
      → w ≤ size
      → length c + length d ≤ size
      → write_chunk size (advance size w (length c), put_ring mem size w c) d
        ≡ some (advance size w (length (c ++ d)), put_ring mem size w (c ++ d))
  chunk_after mem w c d full hw h =
      write_chunk_lem (put_ring mem size w c) (advance size w (length c)) d
        (length-put_ring mem size w c ∙ full) (advance_in size w hw (length c) (omega arith))
        (omega arith)
      ∙ ap₂ (λ p m. some (p, m))
          (advance-advance size w hw (length c) (length d) h
            ∙ ap (λ n. advance size w n) (sym (length-append c d)))
          (put_ring-advance size w hw mem c d (omega arith))

  pub write_message_lem :
      (s : Shm) (h d1 d2 d3 : List ℕ)
      → length s.mem ≡ size
      → s.write ≤ size
      → length (message h d1 d2 d3) ≤ size
      → write_message size s h d1 d2 d3
        ≡ some (
          advance size s.write (length (message h d1 d2 d3)),
          put_ring s.mem size s.write (message h d1 d2 d3),
        )
  unfolding write_message
  write_message_lem s h d1 d2 d3 full hw fit =
      let e1 : length (h ++ d1) ≡ length h + length d1 = length-append h d1 in
      let e2 : length ((h ++ d1) ++ d2) ≡ length (h ++ d1) + length d2 =
        length-append (h ++ d1) d2 in
      let e3 : length (message h d1 d2 d3) ≡ length ((h ++ d1) ++ d2) + length d3 =
        length-append ((h ++ d1) ++ d2) d3 in
      rw (dlt_buffer_write_block_lem size s.mem small full s.write h hw (omega arith)) (
        rw (chunk_after s.mem s.write h d1 full hw (omega arith)) (
          rw (chunk_after s.mem s.write (h ++ d1) d2 full hw (omega arith))
            (chunk_after s.mem s.write ((h ++ d1) ++ d2) d3 full hw (omega arith))))

-- The write position lies behind the bytes that are held.
pub Ends-mod :
    (size read write used : ℕ) → Ends size read write used → write % size ≡ (read + used) % size
Ends-mod size read write used (inl (e, f)) = ap (λ k. k % size) (omega arith)
Ends-mod size read write used (inr (_, _, inl e)) = ap (λ k. k % size) (sym e)
Ends-mod size read write used (inr (_, _, inr e)) =
    let f : write ≡ read + used - size = omega arith in
    sym (mod-sub_size size (read + used) (omega arith) ∙ ap (λ k. k % size) (sym f))

pub Ends-push :
    (size read write used n : ℕ)
    → Ends size read write used
    → read ≤ size
    → write ≤ size
    → 0 < n
    → used + n ≤ size
    → Ends size read (advance size write n) (used + n)
Ends-push size read write used n e hr hw hn h = ground arith

-- The frame of a message pushed in three parts, and the space that it takes.
abbrev pub frame : Padding → List ℕ → List ℕ → List ℕ → Frame
frame p d1 d2 d3 = record { pad = p; payload = (d1 ++ d2) ++ d3 }

abbrev pub frame_size : List ℕ → List ℕ → List ℕ → ℕ
frame_size d1 d2 d3 = 12 + (length d1 + length d2 + length d3)

module _ (b : DltBuffer) (s : Shm) (q : List Frame) (p : Padding) (d1 d2 d3 : List ℕ) where
  abbrev head : List ℕ
  head = block_head p ((length d1 + length d2 + length d3) % word)

  abbrev pub pushed_shm : Shm
  pushed_shm = record s {
    write = advance b.size s.write (frame_size d1 d2 d3);
    count = s.count + 1;
    mem = put_ring s.mem b.size s.write (message head d1 d2 d3);
  }

  abbrev pub pushed : DltBuffer
  pushed = record b { shm = some pushed_shm }

  message_size : length (message head d1 d2 d3) ≡ frame_size d1 d2 d3
  message_size = omega (
    arith,
    length-message head d1 d2 d3,
    length-block_head p ((length d1 + length d2 + length d3) % word),
  )

  length-payload : length ((d1 ++ d2) ++ d3) ≡ length d1 + length d2 + length d3
  length-payload = omega (arith, length-append (d1 ++ d2) d3, length-append d1 d2)

  encode-frame :
      (frame_size d1 d2 d3) < word → message head d1 d2 d3 ≡ encode (frame p d1 d2 d3 ∷ [])
  unfolding encode
  encode-frame h =
      let n : ℕ = length d1 + length d2 + length d3 in
      let e : n % word ≡ length ((d1 ++ d2) ++ d3) = omega (arith, length-payload) in
      append_assoc (head ++ d1) d2 d3
      ∙ append_assoc head d1 (d2 ++ d3)
      ∙ ap₂ (λ k l. block_head p k ++ l) e
          (sym (append_assoc d1 d2 d3) ∙ sym (append-nil ((d1 ++ d2) ++ d3)))

  module _ (v : Holds b s q) (fit : total q + (frame_size d1 d2 d3) ≤ b.size) where
    small : b.size < half_word
    small = omega arith

    pub push_message_lem : push_message b p d1 d2 d3 ≡ some (return_ok, pushed)
    unfolding push_message
    push_message_lem = ground (
      arith,
      v.shm_eq,
      write_message_lem b.size small s head d1 d2 d3 v.mem_len v.write_in
          (omega (arith, message_size)),
      message_size,
      length-le-total q,
      v.count_eq,
    )

    pub push_message-Holds : Holds pushed pushed_shm (q ++ frame p d1 d2 d3 ∷ [])
    push_message-Holds = record {
      shm_eq = refl;
      limits = omega arith;
      mem_len = length-put_ring s.mem b.size s.write (message head d1 d2 d3) ∙ v.mem_len;
      read_in = v.read_in;
      write_in = advance_in b.size s.write v.write_in (frame_size d1 d2 d3) (omega arith);
      room = omega (arith, total-append q (frame p d1 d2 d3 ∷ []), length-payload);
      ends =
          rw (total-append q (frame p d1 d2 d3 ∷ []), length-payload)
            (let e : 12 + (length d1 + length d2 + length d3 + 0) ≡ frame_size d1 d2 d3 =
                omega arith in
              rw e (
                Ends-push b.size s.read s.write (total q) (frame_size d1 d2 d3) v.ends v.read_in
                  v.write_in (omega arith) fit));
      count_eq = omega (arith, length-append q (frame p d1 d2 d3 ∷ []), v.count_eq);
      bytes =
          ap₂ (λ m n. window m b.size s.read n)
            (put_ring-mod s.mem b.size s.write (s.read + total q) (message head d1 d2 d3)
              (Ends-mod b.size s.read s.write (total q) v.ends))
            (omega (arith, total-append q (frame p d1 d2 d3 ∷ []), length-payload, message_size))
          ∙ window-put_ring (message head d1 d2 d3) s.mem b.size s.read (total q) v.mem_len
              (omega (arith, message_size))
          ∙ ap₂ ◌++◌ v.bytes (encode-frame (omega arith))
          ∙ sym (encode-append q (frame p d1 d2 d3 ∷ []));
    }
