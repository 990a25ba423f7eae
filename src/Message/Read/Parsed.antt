-- ===== src/Message/Read/Parsed.antt =====
-- Reading a message from its standard header on: every branch, and what a message read holds.
use lr.Base.{
  ℕ, ◌+◌, ◌-◌, ◌≤◌, ◌<◌, ◌≡◌, ◌≢◌, sym, ap, ◌∙◌, ◌⊎◌, inl, inr, true, false, Option, some, none,
  List, arith, length, get_or, if◌then◌else◌, ltb, ◌==◌, Bool-cases, Option-cases, ne→==, le→ltb,
  lt→ltb, ==_iff, return_ok,
}
use mathlib.Core.Path.{subst}
use lr.Memory.{slice, overwrite, load-in, store-in, length-overwrite, length-slice, Allocator}
use lr.Memory.Bytes.{get_or-overwrite_before, slice-overwrite, slice-slice}
use lr.Message.{
  DltMessage, DltStandardHeaderExtra, is_htyp_ueh, if_size, standard_header_extra_size,
  dlt_message_get_extraparameters,
}
use lr.Message.Extra.{extra_in, extra_in_copy, get_extra_lem}
use lr.Message.Read.{
  MessageError, message_ok, message_unknown, read_payload, provide_databuffer, read_extra,
}

-- The sizes that a standard header of the type `htyp` asks for, without the storage header.
abbrev pub extra_size : ℕ → ℕ
extra_size htyp = standard_header_extra_size htyp + if_size (is_htyp_ueh htyp) 10

abbrev pub head_size : ℕ → ℕ
head_size htyp = 4 + extra_size htyp

pub extra_size_le : (htyp : ℕ) → extra_size htyp ≤ 22
unfolding standard_header_extra_size
extra_size_le htyp = ground arith

extra_size_zero : (htyp : ℕ) → extra_size htyp ≡ 0 → is_htyp_ueh htyp ≡ false
extra_size_zero htyp h = ground arith

pub no_extra :
    (htyp : ℕ) (bytes : List ℕ) (old : DltStandardHeaderExtra)
    → extra_size htyp ≡ 0
    → extra_in 4 htyp bytes old ≡ old
unfolding standard_header_extra_size
no_extra htyp bytes old h = ground arith

-- The data buffer holds at least what its size says.
abbrev pub DataFits : Option (List ℕ) → ℕ → Type 0
DataFits none n = Unit {0}
DataFits (some d) n = n ≤ length d

pub record IsValid (msg : DltMessage) : Type 0 where
  pub header_len : length msg.headerbuffer ≡ 42
  pub data_fits : DataFits msg.databuffer msg.databuffersize

-- The message after its extra parameters and its extended header were read.
abbrev pub with_extra : DltMessage → ℕ → List ℕ → DltMessage
with_extra msg htyp rest = record msg {
  headerbuffer = overwrite msg.headerbuffer 20 (slice rest 4 (extra_size htyp));
  extendedheader = if is_htyp_ueh htyp then some (20 + standard_header_extra_size htyp) else none;
  headerextra = extra_in 4 htyp rest msg.headerextra;
}

module _ (msg : DltMessage) (htyp : ℕ) (rest : List ℕ) (len42 : length msg.headerbuffer ≡ 42)
    (std : msg.standardheader ≡ some 16) (typed : get_or msg.headerbuffer 16 0 ≡ htyp)
    (sized : msg.headersize ≡ 20 + extra_size htyp) where
  abbrev hb : List ℕ
  hb = overwrite msg.headerbuffer 20 (slice rest 4 (extra_size htyp))

  abbrev copied : DltMessage
  copied = record msg {
    headerbuffer = hb;
    extendedheader = if is_htyp_ueh htyp then some (20 + standard_header_extra_size htyp) else none;
  }

  got : dlt_message_get_extraparameters copied ≡ some (return_ok, with_extra msg htyp rest)
  got =
      get_extra_lem copied
        (length-overwrite msg.headerbuffer 20 (slice rest 4 (extra_size htyp)) ∙ len42) std
      ∙ ap (λ e. some (return_ok, record copied { headerextra = e }))
          (ap (λ t. extra_in 20 t hb msg.headerextra)
              (get_or-overwrite_before (slice rest 4 (extra_size htyp)) msg.headerbuffer 20 16
                  (omega arith)
                ∙ typed)
            ∙ extra_in_copy msg.headerbuffer rest htyp (extra_size htyp) msg.headerextra len42
                (extra_size_le htyp) (omega arith))

  -- With extra parameters that fit.
  pub read_extra-some :
      extra_size htyp ≢ 0
      → head_size htyp ≤ length rest
      → read_extra msg htyp (extra_size htyp) rest ≡ some (true, with_extra msg htyp rest)
  unfolding read_extra
  read_extra-some h fit =
      let e0 : (extra_size htyp == 0) ≡ false = ne→== (extra_size htyp) 0 h in
      let e1 : ltb (length rest) (msg.headersize - 16) ≡ false =
        le→ltb (length rest) (msg.headersize - 16) (omega arith) in
      rw e0 (
        rw e1 (
          rw (load-in rest 4 (extra_size htyp) fit) (
            rw
              (store-in msg.headerbuffer 20 (slice rest 4 (extra_size htyp))
                (omega (arith, length-slice rest 4 (extra_size htyp), extra_size_le htyp)))
              (rw got))))

  -- With extra parameters that the buffer cuts off.
  pub read_extra_cut :
      extra_size htyp ≢ 0
      → length rest < head_size htyp
      → read_extra msg htyp (extra_size htyp) rest ≡ some (false, msg)
  unfolding read_extra
  read_extra_cut h short =
      let e0 : (extra_size htyp == 0) ≡ false = ne→== (extra_size htyp) 0 h in
      let e1 : ltb (length rest) (msg.headersize - 16) ≡ true =
        lt→ltb (length rest) (msg.headersize - 16) (omega arith) in
      rw e0 (rw e1)

  -- With none.
  pub read_extra-none :
      extra_size htyp ≡ 0 → read_extra msg htyp (extra_size htyp) rest ≡ some (true, msg)
  unfolding read_extra
  read_extra-none h =
      let e0 : (extra_size htyp == 0) ≡ true = (==_iff (extra_size htyp) 0).1 h in rw e0

-- The payload of the size `n` behind a header of `h` bytes, with the data buffer that is at hand or a
-- new one.
module _ (a : Allocator) (msg : DltMessage) (rest : List ℕ) (h n : ℕ)
    (sized : msg.headersize ≡ 16 + h) (datasized : msg.datasize ≡ n) (fits : h + n ≤ length rest)
    (data_fits : DataFits msg.databuffer msg.databuffersize) where
  abbrev pub Payload : Option (MessageError × DltMessage) → Type 0
  Payload r =
      ((r ≡ some (message_unknown, record msg { databuffer = none; databuffersize = n }))
        × (a.malloc n ≡ none))
      ⊎ ((d : List ℕ) × (size : ℕ) × (r
            ≡ some (message_ok, record msg { databuffer = some d; databuffersize = size }))
          × (slice d 0 n ≡ slice rest h n)
          × (n ≤ size)
          × (size ≤ length d))

  read_into :
      (m : DltMessage) (d : List ℕ)
      → m.headersize ≡ 16 + h
      → m.datasize ≡ n
      → m.databuffer ≡ some d
      → n ≤ length d
      → read_payload m rest
        ≡ some (message_ok, record m { databuffer = some (overwrite d 0 (slice rest h n)) })
  unfolding read_payload
  read_into m d e1 e2 e3 l =
      let e4 : m.headersize - 16 ≡ h = omega arith in
      rw e3 (
        rw (e4, e2)
          (rw (load-in rest h n fits)
            (rw (store-in d 0 (slice rest h n) (omega (arith, length-slice rest h n))))))

  -- What ends up at the front of a block that the payload was copied into.
  front : (d : List ℕ) → n ≤ length d → slice (overwrite d 0 (slice rest h n)) 0 n ≡ slice rest h n
  front d l =
      slice-overwrite (slice rest h n) d 0 0 n (omega (arith, length-slice rest h n))
        (omega (arith, length-slice rest h n))
      ∙ slice-slice rest h n 0 n (omega arith)
      ∙ ap (λ k. slice rest k n) (omega arith)

  abbrev renewed : DltMessage
  renewed = record msg { databuffer = a.malloc msg.datasize; databuffersize = msg.datasize }

  read_renewed : Payload (read_payload renewed rest)
  unfolding read_payload
  read_renewed = elim (Option-cases (a.malloc msg.datasize)) [
    | inl e ↦ inl (ground (arith, e, datasized), ap a.malloc (sym datasized) ∙ e)
    | inr (d, e) ↦
        let l : length d ≡ n = a.length-malloc msg.datasize d e ∙ datasized in
        let d' : List ℕ = overwrite d 0 (slice rest h n) in
        inr (
          d',
          n,
          read_into renewed d sized datasized e (omega arith)
              ∙ ap (λ k. some (message_ok, record msg { databuffer = some d'; databuffersize = k }))
                  datasized,
          front d (omega arith),
          omega arith,
          omega (arith, length-overwrite d 0 (slice rest h n)),
        )
  ]

  pub read_payload_cases : Payload (read_payload (provide_databuffer a msg) rest)
  unfolding provide_databuffer
  read_payload_cases = elim (Option-cases msg.databuffer) [
    | inl e ↦ rw (e, provide_databuffer) read_renewed
    | inr (d, e) ↦ elim (Bool-cases (ltb msg.databuffersize msg.datasize)) [
      | inl small ↦ rw (e, provide_databuffer) (rw small read_renewed)
      | inr large ↦
          let l : msg.databuffersize ≤ length d =
            subst (λ o. DataFits o msg.databuffersize) e data_fits in
          let d' : List ℕ = overwrite d 0 (slice rest h n) in
          let large' : n ≤ msg.databuffersize = ground arith in
          rw (e, provide_databuffer)
            (rw large (
              inr (
                d',
                msg.databuffersize,
                read_into msg d sized datasized e (omega arith),
                front d (omega arith),
                large',
                omega (arith, length-overwrite d 0 (slice rest h n)),
              )))
    ]
  ]
