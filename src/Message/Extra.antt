-- ===== src/Message/Extra.antt =====
-- The extra parameters of the standard header: where they stand by the flags of `htyp`, and that what
-- is set is what is got.
use lr.Base.{
  ℕ, ◌+◌, ◌≤◌, ◌≡◌, ◌∙◌, some, List, arith, length, get_or, if◌then◌else◌, return_ok, int_of_bytes,
  swap32,
}
use lr.Memory.{slice, overwrite, load-in, length-slice}
use lr.Memory.Bytes.{slice-overwrite, slice-slice}
use lr.Message.{
  DltMessage, DltStandardHeaderExtra, is_htyp_weid, is_htyp_wsid, is_htyp_wtms, if_size, seid_at,
  tmsp_at, htyp_of, standard_header_extra_size, dlt_message_get_extraparameters,
}

-- The parameters that stand from `base` on; one whose flag is not set stays as it was.
abbrev pub extra_in : ℕ → ℕ → List ℕ → DltStandardHeaderExtra → DltStandardHeaderExtra
extra_in base htyp bytes old = record {
  ecu = if is_htyp_weid htyp then slice bytes base 4 else old.ecu;
  seid =
      if is_htyp_wsid htyp
      then swap32 (int_of_bytes (slice bytes (base + if_size (is_htyp_weid htyp) 4) 4) 0)
      else old.seid;
  tmsp =
      if is_htyp_wtms htyp
      then swap32 (
          int_of_bytes
            (slice bytes (base + (if_size (is_htyp_weid htyp) 4 + if_size (is_htyp_wsid htyp) 4)) 4)
            0)
      else old.tmsp;
}

-- The parameters end within the header buffer.
pub tmsp_at-le : (htyp : ℕ) → tmsp_at htyp + if_size (is_htyp_wtms htyp) 4 ≤ 32
tmsp_at-le htyp = ground arith

pub get_extra_lem :
    (msg : DltMessage)
    → length msg.headerbuffer ≡ 42
    → msg.standardheader ≡ some 16
    → let htyp = get_or msg.headerbuffer 16 0 in
      dlt_message_get_extraparameters msg
      ≡ some (
        return_ok,
        record msg { headerextra = extra_in 20 htyp msg.headerbuffer msg.headerextra },
      )
unfolding dlt_message_get_extraparameters htyp_of
get_extra_lem msg len std =
    let htyp : ℕ = get_or msg.headerbuffer 16 0 in
    ground (
      arith,
      len,
      std,
      load-in msg.headerbuffer 20 4,
      load-in msg.headerbuffer (seid_at htyp) 4,
      load-in msg.headerbuffer (tmsp_at htyp) 4,
    )

-- Copied from a buffer into the header buffer, the parameters stand 16 bytes further on.
pub extra_in_copy :
    (hb rest : List ℕ) (htyp extra : ℕ) (old : DltStandardHeaderExtra)
    → length hb ≡ 42
    → extra ≤ 22
    → standard_header_extra_size htyp ≤ extra
    → extra_in 20 htyp (overwrite hb 20 (slice rest 4 extra)) old ≡ extra_in 4 htyp rest old
unfolding standard_header_extra_size
extra_in_copy hb rest htyp extra old len fit flags = ground (
  arith,
  copied 0,
  copied (if_size (is_htyp_weid htyp) 4),
  copied (if_size (is_htyp_weid htyp) 4 + if_size (is_htyp_wsid htyp) 4),
)
  where
    copied :
        (k : ℕ)
        → k + 4 ≤ extra
        → slice (overwrite hb 20 (slice rest 4 extra)) (20 + k) 4 ≡ slice rest (4 + k) 4
    copied k h =
        slice-overwrite (slice rest 4 extra) hb 20 k 4 (omega (arith, length-slice rest 4 extra))
          (omega (arith, length-slice rest 4 extra))
        ∙ slice-slice rest 4 extra k 4 h
