-- ===== src/Buffer/History.antt =====
-- A client's calls against the queue: over any history the ring buffer answers as a bounded queue of
-- messages.
use lr.Base.{
  none, length-append, ℕ, ◌+◌, ◌≤◌, ◌<◌, ◌≡◌, refl, ◌⊎◌, inl, inr, true, false, Option, some, List,
  [], ◌∷◌, ◌++◌, arith, length, return_ok, return_error, DltReturnValue, ◌>>=◌,
}
use lr.Memory.{Allocator}
use lr.Buffer.{Shm, DltBuffer}
use lr.Buffer.Messages.{
  Padding, Got, failed, taken, dlt_buffer_push3, dlt_buffer_pull, dlt_buffer_copy,
  dlt_buffer_remove,
}
use lr.Buffer.Frames.{Frame, total, Holds}
use lr.Buffer.Push.{frame, frame_size}
use lr.Buffer.Refine.{dlt_buffer_push3-Pushed}
use lr.Buffer.Read.{delivered, HasRoom}
use lr.Buffer.Take.{pull_room, copy_room, dlt_buffer_remove_lem, get_empty}

-- The calls of a client, with the padding that a push happens to write and the room of the block that
-- a pull or a copy stores to, if any.
pub data Op : Type 0 where
  push : Padding → List ℕ → List ℕ → List ℕ → Op
  pull copy : Option ℕ → ℕ → Op
  remove : Op

pub data Reply : Type 0 where
  status : DltReturnValue → Reply
  got : Got → Reply

abbrev got_reply : Got × DltBuffer → Reply × DltBuffer
got_reply (g, b) = (got g, b)

abbrev status_reply : DltReturnValue × DltBuffer → Reply × DltBuffer
status_reply (r, b) = (status r, b)

module _ (a : Allocator) where
  pub run_op : DltBuffer → Op → Option (Reply × DltBuffer)
  run_op b (push p d1 d2 d3) = dlt_buffer_push3 a b p d1 d2 d3 >>= λ r. some (status_reply r)
  run_op b (pull dest max_size) = dlt_buffer_pull a b dest max_size >>= λ r. some (got_reply r)
  run_op b (copy dest max_size) = dlt_buffer_copy a b dest max_size >>= λ r. some (got_reply r)
  run_op b remove = dlt_buffer_remove a b >>= λ r. some (got_reply r)

  pub run : DltBuffer → List Op → Option (List Reply × DltBuffer)
  run b [] = some ([], b)
  run b (op ∷ ops) = run_op b op >>= λ (r, b'). run b' ops >>= λ (rs, b''). some (r ∷ rs, b'')

-- The queue's side of one call: what it may answer, and the queue after it.
pub data Serves : List Frame → Op → Reply → List Frame → Type 0 where
  accepts :
      (q : List Frame) (p : Padding) (d1 d2 d3 : List ℕ)
      → Serves q (push p d1 d2 d3) (status return_ok) (q ++ frame p d1 d2 d3 ∷ [])
  refuses :
      (q : List Frame) (p : Padding) (d1 d2 d3 : List ℕ)
      → Serves q (push p d1 d2 d3) (status return_error) q
  pulls :
      (f : Frame) (q : List Frame) (dest : Option ℕ) (max_size : ℕ)
      → Serves
          (f ∷ q)
          (pull dest max_size)
          (got (taken (length f.payload) (delivered dest max_size f)))
          q
  copies :
      (f : Frame) (q : List Frame) (dest : Option ℕ) (max_size : ℕ)
      → Serves
          (f ∷ q)
          (copy dest max_size)
          (got (taken (length f.payload) (delivered dest max_size f)))
          (f ∷ q)
  removes :
      (f : Frame) (q : List Frame) → Serves (f ∷ q) remove (got (taken (length f.payload) [])) q
  pulls_none :
      (dest : Option ℕ) (max_size : ℕ)
      → Serves [] (pull dest max_size) (got (failed return_error)) []
  copies_none :
      (dest : Option ℕ) (max_size : ℕ)
      → Serves [] (copy dest max_size) (got (failed return_error)) []
  removes_none : Serves [] remove (got (failed return_error)) []

pub data Served : List Frame → List Op → List Reply → List Frame → Type 0 where
  done : (q : List Frame) → Served q [] [] q
  next :
      (q q' q'' : List Frame) (op : Op) (r : Reply) (ops : List Op) (rs : List Reply)
      → Serves q op r q'
      → Served q' ops rs q''
      → Served q (op ∷ ops) (r ∷ rs) q''

abbrev pub Wide : ℕ → Option ℕ → Type 0
Wide min none = Unit {0}
Wide min (some room) = min ≤ room

-- The messages have at most `min` bytes.
abbrev pub Within : ℕ → List Frame → Type 0
Within min [] = Unit {0}
Within min (f ∷ q) = (length f.payload ≤ min) × Within min q

Within-append :
    (min : ℕ) (q : List Frame) (f : Frame)
    → Within min q
    → length f.payload ≤ min
    → Within min (q ++ f ∷ [])
Within-append min [] f h l = (l, tt)
Within-append min (g ∷ q) f h l = (h.0, Within-append min q f h.1 l)

Wide-HasRoom :
    (min : ℕ) (dest : Option ℕ) (max_size n : ℕ) → Wide min dest → n ≤ min → HasRoom dest max_size n
Wide-HasRoom min none max_size n h l = tt
Wide-HasRoom min (some room) max_size n h l = inr (omega arith)

-- The message of a push fits a buffer of the size `min`, and the block of a pull or a copy has `min`
-- bytes at least.
abbrev pub Fits : ℕ → Op → Type 0
Fits min (push p d1 d2 d3) = frame_size d1 d2 d3 + 12 ≤ min
Fits min (pull dest max_size) = Wide min dest
Fits min (copy dest max_size) = Wide min dest
Fits min remove = Unit {0}

abbrev pub AllFit : ℕ → List Op → Type 0
AllFit min [] = Unit {0}
AllFit min (op ∷ ops) = Fits min op × AllFit min ops

module _ (a : Allocator) where
  abbrev Answers : ℕ → List Frame → Op → Option (Reply × DltBuffer) → Type 0
  Answers min q op r =
      (reply : Reply) × (b : DltBuffer) × (s : Shm) × (q' : List Frame) × (r ≡ some (reply, b))
      × Holds b s q'
      × Serves q op reply q'
      × (b.min_size ≡ min)
      × Within min q'

  run_op-Serves :
      (b : DltBuffer) (s : Shm) (q : List Frame) (op : Op)
      → Holds b s q
      → Within b.min_size q
      → Fits b.min_size op
      → Answers b.min_size q op (run_op a b op)
  unfolding run_op dlt_buffer_pull dlt_buffer_copy dlt_buffer_remove
  run_op-Serves b s q (push p d1 d2 d3) v w fit =
      elim (dlt_buffer_push3-Pushed a b s q p d1 d2 d3 v (omega arith) (room q)) [
        | inl (b', s', e, h, m) ↦ (
          status return_ok,
          b',
          s',
          q ++ frame p d1 d2 d3 ∷ [],
          rw e,
          h,
          accepts q p d1 d2 d3,
          m,
          Within-append b.min_size q (frame p d1 d2 d3) w small,
        )
        | inr (b', s', e, h, _, _, m) ↦
            (status return_error, b', s', q, rw e, h, refuses q p d1 d2 d3, m, w)
      ]
    where
      small : length ((d1 ++ d2) ++ d3) ≤ b.min_size
      small = omega (arith, length-append (d1 ++ d2) d3, length-append d1 d2)

      room : (r : List Frame) → (0 < total r) ⊎ (total r + frame_size d1 d2 d3 ≤ b.size)
      room [] = inr (omega arith)
      room (f ∷ r) = inl (omega arith)
  run_op-Serves b s [] (pull t m) v w fit = (
    got (failed return_error),
    b,
    s,
    [],
    rw (get_empty a b s t m true v),
    v,
    pulls_none t m,
    refl,
    w,
  )
  run_op-Serves b s (f ∷ q) (pull t m) v w fit =
      let (b', s', e, h, k) =
        pull_room a b s f q v t m (Wide-HasRoom b.min_size t m (length f.payload) fit w.0) in
      (got (taken (length f.payload) (delivered t m f)), b', s', q, rw e, h, pulls f q t m, k, w.1)
  run_op-Serves b s [] (copy t m) v w fit = (
    got (failed return_error),
    b,
    s,
    [],
    rw (get_empty a b s t m false v),
    v,
    copies_none t m,
    refl,
    w,
  )
  run_op-Serves b s (f ∷ q) (copy t m) v w fit = (
    got (taken (length f.payload) (delivered t m f)),
    b,
    s,
    f ∷ q,
    rw (copy_room a b s f q v t m (Wide-HasRoom b.min_size t m (length f.payload) fit w.0)),
    v,
    copies f q t m,
    refl,
    w,
  )
  run_op-Serves b s [] remove v w fit = (
    got (failed return_error),
    b,
    s,
    [],
    rw (get_empty a b s none 0 true v),
    v,
    removes_none,
    refl,
    w,
  )
  run_op-Serves b s (f ∷ q) remove v w fit =
      let (b', s', e, h, k) = dlt_buffer_remove_lem a b s f q v in
      (got (taken (length f.payload) []), b', s', q, rw e, h, removes f q, k, w.1)

  -- Over any history of calls whose messages fit the minimal size and whose blocks for the bytes taken,
  -- where given, are of the minimal size at least, with no longer messages in the queue at first, the
  -- code never leaves the memory, each call ends, and the answers are those of a queue that a push may
  -- find full and that answers an error where it is empty.
  pub run-Served :
      (ops : List Op) (b : DltBuffer) (s : Shm) (q : List Frame)
      → Holds b s q
      → Within b.min_size q
      → AllFit b.min_size ops
      → (rs : List Reply) × (b' : DltBuffer) × (s' : Shm) × (q' : List Frame) × (run a b ops
          ≡ some (rs, b'))
        × Holds b' s' q'
        × Served q ops rs q'
  unfolding run
  run-Served [] b s q v w fit = ([], b, s, q, refl, v, done q)
  run-Served (op ∷ ops) b s q v w fit =
      let (r, b', s', q', e, h, sv, m, w') = run_op-Serves b s q op v w fit.0 in
      let (rs, b'', s'', q'', e', h', sv') = run-Served ops b' s' q' h (rw m w') (rw m fit.1) in
      (r ∷ rs, b'', s'', q'', rw e (rw e'), h', next q q' q'' op r ops rs sv sv')
