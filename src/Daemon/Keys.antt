-- ===== src/Daemon/Keys.antt =====
-- The keys of the daemon's tables (daemon/dlt_daemon_common.c): ids of four bytes, and the numbers by which the
-- comparisons order them.
use Prim.Native.Nat.{Ordering, compare}
use lr.Base.{
  ℕ, zero, suc, ◌+◌, ◌*◌, ◌<◌, ◌≡◌, refl, ap, ap₂, ◌∙◌, inl, inr, List, [], ◌∷◌, arith, length,
  replicate, length-replicate, ◌==◌, Bool-cases,
}
use lr.Memory.Bytes.{AllBytes}
use lr.Filter.{id_chars, dlt_set_id}
use lr.Filter.Slots.{dlt_set_id_idem}
use lr.Search.Order.{rank, IsFour, memcmp-rank, rank-lt}
use lr.Daemon.{DltDaemonApplication, DltDaemonContext, cmp_apid, cmp_apid_ctid}

-- An id as `dlt_set_id` leaves it.
abbrev pub IsId : List ℕ → Type 0
IsId id = IsFour id × (dlt_set_id id ≡ id)

IsFour-bytes : (xs : List ℕ) → length xs ≡ 4 → AllBytes xs → IsFour xs
IsFour-bytes [] e h = absurd (omega arith)
IsFour-bytes (a ∷ []) e h = absurd (omega arith)
IsFour-bytes (a ∷ (b ∷ [])) e h = absurd (omega arith)
IsFour-bytes (a ∷ (b ∷ (c ∷ []))) e h = absurd (omega arith)
IsFour-bytes (a ∷ (b ∷ (c ∷ (d ∷ [])))) e h = (a, b, c, d, refl, h.0, h.1.0, h.1.1.0, h.1.1.1.0)
IsFour-bytes (a ∷ (b ∷ (c ∷ (d ∷ (f ∷ r))))) e h = absurd (omega arith)

length-id_chars : (n : ℕ) (text : List ℕ) → length (id_chars n text) ≡ n
length-id_chars zero text = refl
length-id_chars (suc n) [] = ap suc (length-id_chars n [])
length-id_chars (suc n) (c ∷ text) = elim (Bool-cases (c == 0)) [
  | inl e ↦ rw e (ap suc (length-replicate n (let z : ℕ = 0 in z)))
  | inr e ↦ rw e (ap suc (length-id_chars n text))
]

zeros-AllBytes : (n : ℕ) → AllBytes (replicate n 0)
zeros-AllBytes zero = tt
zeros-AllBytes (suc n) = (omega arith, zeros-AllBytes n)

id_chars-AllBytes : (n : ℕ) (text : List ℕ) → AllBytes text → AllBytes (id_chars n text)
id_chars-AllBytes zero text h = tt
id_chars-AllBytes (suc n) [] h = (omega arith, id_chars-AllBytes n [] tt)
id_chars-AllBytes (suc n) (c ∷ text) h = elim (Bool-cases (c == 0)) [
  | inl e ↦ rw e (omega arith, zeros-AllBytes n)
  | inr e ↦ rw e (h.0, id_chars-AllBytes n text h.1)
]

-- `dlt_set_id` makes an id of any bytes.
pub dlt_set_id-IsId : (text : List ℕ) → AllBytes text → IsId (dlt_set_id text)
unfolding dlt_set_id
dlt_set_id-IsId text h = (
  IsFour-bytes (id_chars 4 text) (length-id_chars 4 text) (id_chars-AllBytes 4 text h),
  dlt_set_id_idem text,
)

abbrev pub application_rank : DltDaemonApplication → ℕ
application_rank a = rank a.apid

abbrev pub context_rank : DltDaemonContext → ℕ
context_rank c = 4294967296 * rank c.apid + rank c.ctid

abbrev pub IsApplication : DltDaemonApplication → Type 0
IsApplication a = IsId a.apid

abbrev pub IsContext : DltDaemonContext → Type 0
IsContext c = IsId c.apid × IsId c.ctid

pub cmp_apid-rank :
    (x y : DltDaemonApplication)
    → IsApplication x
    → IsApplication y
    → cmp_apid x y ≡ compare (application_rank x) (application_rank y)
unfolding cmp_apid
cmp_apid-rank x y hx hy = memcmp-rank x.apid y.apid hx.0 hy.0

cmp_pair :
    (a b c d : ℕ)
    → b < 4294967296
    → d < 4294967296
    → elim (compare a c) as (λ o. Ordering) [
      | Ordering.lt ↦ Ordering.lt
      | Ordering.eq ↦ compare b d
      | Ordering.gt ↦ Ordering.gt
    ]
      ≡ compare (4294967296 * a + b) (4294967296 * c + d)
cmp_pair a b c d hb hd = ground arith

pub cmp_apid_ctid-rank :
    (x y : DltDaemonContext)
    → IsContext x
    → IsContext y
    → cmp_apid_ctid x y ≡ compare (context_rank x) (context_rank y)
unfolding cmp_apid_ctid
cmp_apid_ctid-rank x y hx hy =
    ap₂
      (λ o p. elim o as (λ q. Ordering) [
        | Ordering.lt ↦ Ordering.lt
        | Ordering.eq ↦ p
        | Ordering.gt ↦ Ordering.gt
      ])
      (memcmp-rank x.apid y.apid hx.0.0 hy.0.0) (memcmp-rank x.ctid y.ctid hx.1.0 hy.1.0)
    ∙ cmp_pair (rank x.apid) (rank x.ctid) (rank y.apid) (rank y.ctid) (rank-lt x.ctid hx.1.0)
        (rank-lt y.ctid hy.1.0)
