-- ===== src/Message/Read/Branches.antt =====
-- Every branch of a read from the standard header on, told apart by the length field, by the bytes
-- that are there and by the memory that is given.
use lr.Base.{
  ℕ, ◌+◌, ◌-◌, ◌≤◌, ◌<◌, ◌≡◌, ◌≢◌, refl, sym, ap, ap₂, ◌∙◌, ◌⊎◌, inl, inr, true, Option, some, none,
  List, ◌++◌, arith, length, get_or, if◌then◌else◌, ltb, ◌==◌, Bool-cases, sub32, ltb→ge, ltb→lt,
  ==→ne, le→ltb, lt→ltb, ==_iff,
}
use lr.Memory.{slice, length-overwrite, length-slice, Allocator}
use lr.Memory.Bytes.{slice-overwrite, slice-slice, slice-append, slice-overwrite_before}
use lr.Message.{DltMessage, DltStandardHeaderExtra, is_htyp_ueh, standard_header_extra_size}
use lr.Message.Extra.{extra_in}
use lr.Message.Read.{
  MessageError, message_ok, message_unknown, message_size, message_content, read_payload,
  provide_databuffer, read_extra, read_body,
}
use lr.Message.Read.Parsed.{
  extra_size, head_size, extra_size_le, no_extra, IsValid, with_extra, read_extra-some,
  read_extra_cut, read_extra-none, read_payload_cases,
}

-- What a message read from `rest` holds: the sizes, the whole header, the extra parameters, the place
-- of the extended header, and the payload.
pub record IsRead (old_extra : DltStandardHeaderExtra) (old_extended : Option ℕ) (rest : List ℕ)
    (htyp len : ℕ) (m : DltMessage) : Type 0 where
  pub header_size : m.headersize ≡ 16 + head_size htyp
  pub data_size : m.datasize ≡ len - head_size htyp
  pub header : slice m.headerbuffer 16 (head_size htyp) ≡ slice rest 0 (head_size htyp)
  pub extra : m.headerextra ≡ extra_in 4 htyp rest old_extra
  pub extended : m.extendedheader ≡ (
      if extra_size htyp == 0
      then old_extended
      else if is_htyp_ueh htyp
      then some (20 + standard_header_extra_size htyp)
      else none)
  pub payload :
      (d : List ℕ) × (m.databuffer ≡ some d)
      × (slice d 0 (len - head_size htyp) ≡ slice rest (head_size htyp) (len - head_size htyp))
  pub valid : IsValid m

-- How a read from the standard header on ends.
abbrev pub Parsed :
    Allocator → DltMessage → List ℕ → ℕ → ℕ → Option (MessageError × DltMessage) → Type 0
Parsed a old rest htyp len r =
    (m : DltMessage) × (((r ≡ some (message_content, m)) × (len < head_size htyp) × IsValid m)
      ⊎ (((r ≡ some (message_size, m)) × (head_size htyp ≤ len) × (length rest < len) × IsValid m)
          ⊎ (((r ≡ some (message_unknown, m))
                × (head_size htyp ≤ len)
                × (len ≤ length rest)
                × (a.malloc (len - head_size htyp) ≡ none)
                × IsValid m)
              ⊎ ((r ≡ some (message_ok, m))
                  × (head_size htyp ≤ len)
                  × (len ≤ length rest)
                  × IsRead old.headerextra old.extendedheader rest htyp len m))))

module _ (a : Allocator) (msg : DltMessage) (htyp len : ℕ) (rest : List ℕ) (v : IsValid msg)
    (std : msg.standardheader ≡ some 16) (typed : get_or msg.headerbuffer 16 0 ≡ htyp)
    (copied : slice msg.headerbuffer 16 4 ≡ slice rest 0 4) (has_head : 4 ≤ length rest)
    (len16 : len < 65536) where
  -- With the sizes stored.
  abbrev m1 : DltMessage
  m1 = record msg {
    headersize = 20 + extra_size htyp;
    datasize = sub32 (len + 16) (20 + extra_size htyp);
  }

  -- What the message is once the header is complete.
  abbrev m2 : DltMessage
  m2 = with_extra m1 htyp rest

  m2_header : slice m2.headerbuffer 16 (head_size htyp) ≡ slice rest 0 (head_size htyp)
  m2_header =
      let x : ℕ = extra_size htyp in
      let e : List ℕ = slice rest 4 x in
      slice-append m2.headerbuffer 16 4 x
      ∙ ap₂ ◌++◌ (slice-overwrite_before e msg.headerbuffer 20 16 4 (omega arith) ∙ copied) (
          ap (λ k. slice m2.headerbuffer k x) (omega arith)
          ∙ slice-overwrite e msg.headerbuffer 20 0 x (omega (arith, length-slice rest 4 x))
              (omega (arith, length-slice rest 4 x, extra_size_le htyp, v.header_len))
          ∙ slice-slice rest 4 x 0 x (omega arith)
          ∙ ap (λ k. slice rest k x) (omega arith))
      ∙ sym (slice-append rest 0 4 x)

  read_content : len < head_size htyp → read_body a msg htyp len rest ≡ some (message_content, m1)
  unfolding read_body
  read_content h = rw (lt→ltb (len + 16) (20 + extra_size htyp) (omega arith))

  -- The sum of the sizes is the length field.
  datasize_eq :
      head_size htyp ≤ len → sub32 (len + 16) (20 + extra_size htyp) ≡ len - head_size htyp
  datasize_eq h = omega (arith, extra_size_le htyp)

  abbrev payload_of : DltMessage → Option (MessageError × DltMessage)
  payload_of m = read_payload (provide_databuffer a m) rest

  -- The last part of a read, for the message `m` with a complete header.
  read_rest :
      (m : DltMessage)
      → head_size htyp ≤ len
      → read_extra m1 htyp (extra_size htyp) rest ≡ some (true, m)
      → m.headersize ≡ 20 + extra_size htyp
      → m.datasize ≡ len - head_size htyp
      → read_body a msg htyp len rest
        ≡ (if ltb (length rest) len then some (message_size, m) else payload_of m)
  unfolding read_body
  read_rest m h e e1 e2 =
      let e3 : m.headersize - 16 + m.datasize ≡ len = omega arith in
      rw (le→ltb (len + 16) (20 + extra_size htyp) (omega arith)) (rw e (rw e3))

  read_cut :
      head_size htyp ≤ len
      → extra_size htyp ≢ 0
      → length rest < head_size htyp
      → read_body a msg htyp len rest ≡ some (message_size, m1)
  unfolding read_body
  read_cut h x short =
      rw (le→ltb (len + 16) (20 + extra_size htyp) (omega arith))
        (rw (read_extra_cut m1 htyp rest v.header_len std typed refl x short))

  -- The last branches, for a message `m` with a complete header.
  read_complete :
      (m : DltMessage)
      → head_size htyp ≤ len
      → read_body a msg htyp len rest
        ≡ (if ltb (length rest) len then some (message_size, m) else payload_of m)
      → IsValid m
      → m.headersize ≡ 16 + head_size htyp
      → m.datasize ≡ len - head_size htyp
      → slice m.headerbuffer 16 (head_size htyp) ≡ slice rest 0 (head_size htyp)
      → m.headerextra ≡ extra_in 4 htyp rest msg.headerextra
      → m.extendedheader ≡ (
          if extra_size htyp == 0
          then msg.extendedheader
          else if is_htyp_ueh htyp
          then some (20 + standard_header_extra_size htyp)
          else none)
      → Parsed a msg rest htyp len (read_body a msg htyp len rest)
  read_complete m h e vm e1 e2 e3 e4 e5 = elim (Bool-cases (ltb (length rest) len)) [
    | inl short ↦ (m, inr (inl (e ∙ rw short, h, ground arith, vm)))
    | inr long ↦
        let fit : len ≤ length rest = ground arith in
        let e' : read_body a msg htyp len rest ≡ payload_of m = e ∙ rw long in
        elim (read_payload_cases a m rest (head_size htyp) (len - head_size htyp) e1 e2
          (omega arith) vm.data_fits) [
            | inl (r, none_given) ↦ (
              record m { databuffer = none; databuffersize = len - head_size htyp },
              inr (
                  inr (
                    inl (
                      e' ∙ r,
                      h,
                      fit,
                      none_given,
                      record { header_len = vm.header_len; data_fits = tt },
                    ))),
            )
            | inr (d, size, r, front, l1, l2) ↦ (
              record m { databuffer = some d; databuffersize = size },
              inr (
                  inr (
                    inr (
                      e' ∙ r,
                      h,
                      fit,
                      record {
                        header_size = e1;
                        data_size = e2;
                        header = e3;
                        extra = e4;
                        extended = e5;
                        payload = (d, refl, front);
                        valid = record { header_len = vm.header_len; data_fits = l2 };
                      },
                    ))),
            )
          ]
  ]

  pub read_body-Parsed : Parsed a msg rest htyp len (read_body a msg htyp len rest)
  read_body-Parsed = elim (Bool-cases (ltb len (head_size htyp))) [
    | inl short ↦
        let s : len < head_size htyp = ground arith in
        (m1, inl (read_content s, s, record { header_len = v.header_len; data_fits = v.data_fits }))
    | inr long ↦
        let h : head_size htyp ≤ len = ltb→ge len (head_size htyp) long in
        elim (Bool-cases (extra_size htyp == 0)) [
          | inl zero_extra ↦
              let x : extra_size htyp ≡ 0 = (==_iff (extra_size htyp) 0).0 zero_extra in
              read_complete m1 h
                (read_rest m1 h (read_extra-none m1 htyp rest v.header_len std typed refl x) refl
                  (datasize_eq h))
                (record { header_len = v.header_len; data_fits = v.data_fits }) (omega arith)
                (datasize_eq h)
                (ap (slice msg.headerbuffer 16) (omega arith)
                  ∙ copied
                  ∙ ap (slice rest 0) (omega arith))
                (sym (no_extra htyp rest msg.headerextra x)) (rw zero_extra)
          | inr some_extra ↦
              let x : extra_size htyp ≢ 0 = ==→ne (extra_size htyp) 0 some_extra in
              elim (Bool-cases (ltb (length rest) (head_size htyp))) [
                | inl cut ↦
                    let c : length rest < head_size htyp =
                      ltb→lt (length rest) (head_size htyp) cut in
                    (
                      m1,
                      inr (
                          inl (
                            read_cut h x c,
                            h,
                            omega arith,
                            record { header_len = v.header_len; data_fits = v.data_fits },
                          )),
                    )
                | inr whole ↦
                    let w : head_size htyp ≤ length rest =
                      ltb→ge (length rest) (head_size htyp) whole in
                    read_complete m2 h
                      (read_rest m2 h (read_extra-some m1 htyp rest v.header_len std typed refl x w)
                        refl (datasize_eq h))
                      (record {
                        header_len =
                            length-overwrite msg.headerbuffer 20 (slice rest 4 (extra_size htyp))
                            ∙ v.header_len;
                        data_fits = v.data_fits;
                      })
                      (omega arith) (datasize_eq h) m2_header refl (rw some_extra)
              ]
        ]
  ]
