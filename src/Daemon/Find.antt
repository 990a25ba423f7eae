-- ===== src/Daemon/Find.antt =====
-- The searches of daemon/dlt_daemon_common.c (`dlt_daemon_application_find`, `dlt_daemon_context_find`) on tables in
-- order: they find what a search from the front finds.
use Prim.Native.Nat.{compare}
use mathlib.Core.Path.{subst}
use lr.Base.{
  ℕ, suc, ◌+◌, ◌*◌, ◌<◌, ◌≡◌, refl, sym, ap, ap₂, ◌∙◌, inl, inr, true, none, List, [], ◌∷◌, arith,
  length, get_or, Bool-cases,
}
use lr.Search.{index_of}
use lr.Search.Order.{memcmp, rank, memcmp-rank, rank-lt}
use lr.Search.Sorted.{Every, nums, length-nums, Ascending}
use lr.Search.Binary.{bsearch-index_of, index_of-none, Ascending-le, at_index}
use lr.Daemon.{DltDaemonApplication, DltDaemonContext, cmp_apid, cmp_apid_ctid}
use lr.Daemon.Applications.{is_lt, is_gt, find_application, blank_application}
use lr.Daemon.Contexts.{find_context, blank_context}
use lr.Daemon.Keys.{
  IsId, IsApplication, IsContext, application_rank, context_rank, cmp_apid-rank, cmp_apid_ctid-rank,
}

-- Before the first entry, or behind the last one, there is nothing.
none_before : (r : ℕ) (rs : List ℕ) → Ascending rs → r < get_or rs 0 0 → index_of r rs ≡ none
none_before r rs asc h =
    index_of-none r rs (λ i l e. omega (arith, e, h, Ascending-le rs 0 i asc (omega arith) l))

none_behind :
    (r m : ℕ) (rs : List ℕ)
    → Ascending rs
    → length rs ≡ suc m
    → get_or rs m 0 < r
    → index_of r rs ≡ none
none_behind r m rs asc len h =
    index_of-none r rs
      (λ i l e. omega (arith, e, h, Ascending-le rs i m asc (omega arith) (omega arith)))

lt_of : (r s : ℕ) → is_lt (compare r s) ≡ true → r < s
lt_of r s h = ground arith

gt_of : (r s : ℕ) → is_gt (compare r s) ≡ true → s < r
gt_of r s h = ground arith

index_of-nil : (r : ℕ) → index_of r [] ≡ none
unfolding index_of
index_of-nil r = refl

-- On a table in order, the search for an id gives the index of its number, as a search from the front
-- does.
pub find_application-index_of :
    (xs : List DltDaemonApplication) (apid : List ℕ)
    → Every IsApplication xs
    → Ascending (nums application_rank xs)
    → IsId apid
    → find_application xs apid ≡ index_of (rank apid) (nums application_rank xs)
unfolding find_application
find_application-index_of [] apid g asc k = sym (index_of-nil (rank apid))
find_application-index_of (a ∷ xs) apid g asc k = elim (Bool-cases (is_lt (memcmp apid a.apid))) [
  | inl low ↦
      let below : rank apid < application_rank a =
        lt_of (rank apid) (application_rank a)
          (ap is_lt (sym (memcmp-rank apid a.apid k.0 g.0.0)) ∙ low) in
      rw low (sym (none_before (rank apid) (nums application_rank (a ∷ xs)) asc below))
  | inr first ↦
      let (last, e, kl, n) =
        at_index cmp_apid application_rank IsApplication cmp_apid-rank (a ∷ xs) (length xs) g
          (omega arith) in
      rw first (
        rw e (elim (Bool-cases (is_gt (memcmp apid last.apid))) [
          | inl high ↦
              let above : application_rank last < rank apid =
                gt_of (rank apid) (application_rank last)
                  (ap is_gt (sym (memcmp-rank apid last.apid k.0 kl.0)) ∙ high) in
              rw high (
                sym (
                  none_behind (rank apid) (length xs) (nums application_rank (a ∷ xs)) asc
                    (length-nums application_rank (a ∷ xs)) (omega (arith, n, above))))
          | inr inside ↦ rw inside (
              bsearch-index_of cmp_apid application_rank IsApplication cmp_apid-rank
                (blank_application apid) (a ∷ xs) g key asc
              ∙ ap (λ t. index_of (rank t) (nums application_rank (a ∷ xs))) k.1)
        ]))
]
  where
    key : IsApplication (blank_application apid)
    key = subst IsId (sym k.1) k

-- On a table in order, the search for a pair of ids gives the index of its number, as a search from
-- the front does.
pub find_context-index_of :
    (xs : List DltDaemonContext) (apid ctid : List ℕ)
    → Every IsContext xs
    → Ascending (nums context_rank xs)
    → IsId apid
    → IsId ctid
    → find_context xs apid ctid
      ≡ index_of (4294967296 * rank apid + rank ctid) (nums context_rank xs)
unfolding find_context
find_context-index_of [] apid ctid g asc k l =
    sym (index_of-nil (4294967296 * rank apid + rank ctid))
find_context-index_of (c ∷ xs) apid ctid g asc k l =
    elim (Bool-cases (is_lt (memcmp apid c.apid))) [
      | inl low ↦
          let below : rank apid < rank c.apid =
            lt_of (rank apid) (rank c.apid)
              (ap is_lt (sym (memcmp-rank apid c.apid k.0 g.0.0.0)) ∙ low) in
          rw low (
            sym (
              none_before r (nums context_rank (c ∷ xs)) asc
                (omega (arith, below, rank-lt ctid l.0))))
      | inr first ↦
          let (last, e, kl, n) =
            at_index cmp_apid_ctid context_rank IsContext cmp_apid_ctid-rank (c ∷ xs) (length xs) g
              (omega arith) in
          rw first (
            rw e (elim (Bool-cases (is_gt (memcmp apid last.apid))) [
              | inl high ↦
                  let above : rank last.apid < rank apid =
                    gt_of (rank apid) (rank last.apid)
                      (ap is_gt (sym (memcmp-rank apid last.apid k.0 kl.0.0)) ∙ high) in
                  rw high (
                    sym (
                      none_behind r (length xs) (nums context_rank (c ∷ xs)) asc
                        (length-nums context_rank (c ∷ xs))
                        (omega (arith, n, above, rank-lt last.ctid kl.1.0))))
              | inr inside ↦ rw inside (
                  bsearch-index_of cmp_apid_ctid context_rank IsContext cmp_apid_ctid-rank
                    (blank_context c apid ctid) (c ∷ xs) g key asc
                  ∙ ap₂
                      (λ t u. index_of (4294967296 * rank t + rank u) (nums context_rank (c ∷ xs)))
                      k.1 l.1)
            ]))
    ]
  where
    r : ℕ
    r = 4294967296 * rank apid + rank ctid

    key : IsContext (blank_context c apid ctid)
    key = (subst IsId (sym k.1) k, subst IsId (sym l.1) l)
