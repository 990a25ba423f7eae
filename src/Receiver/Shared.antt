-- ===== src/Receiver/Shared.antt =====
-- Receivers of shared/dlt_common.c that share one block (`dlt_receiver_init_global_buffer`): what
-- becomes of the bytes one keeps while another receives.
use mathlib.Core.Path.{subst}
use lr.Base.{
  ℕ, ◌+◌, ◌≡◌, ◌≢◌, refl, sym, ap, ap₂, ◌∙◌, inl, inr, some, List, [], ◌++◌, ◌-◌, arith, length,
  length-append, return_ok,
}
use lr.Memory.{Allocator, slice, length-slice}
use lr.Receiver.{DltReceiver, Source, dlt_receiver_receive, dlt_receiver_move_to_begin, move_bytes}
use lr.Receiver.Stream.{Carries, Parked, Kept, received, dlt_receiver_receive-Receives}

-- The receiver with the block as another receiver left it.
abbrev pub after_other : DltReceiver → List ℕ → DltReceiver
after_other r other = record r { buffer = some other }

-- Bytes at the front of the shared block get no backup: the move leaves the receiver as it is. Where
-- bytes come, what the next receive offers in place of those at the front is what another receiver
-- has put there.
pub receive_shared_front :
    (a : Allocator) (src : Source) (r : DltReceiver) (mem other q : List ℕ)
    → Carries r mem 0 q
    → length other ≡ length mem
    → received src r q ≢ []
    → (dlt_receiver_move_to_begin a r ≡ some (return_ok, r))
      × ((r1 : DltReceiver) × (m : List ℕ) × (dlt_receiver_receive src (after_other r other)
            ≡ some (length q + length (received src r q), r1))
          × Carries r1 m 0 (slice other 0 (length q) ++ received src r q))
unfolding dlt_receiver_move_to_begin move_bytes
receive_shared_front a src r mem other q v same came =
    let (r1, m, how) =
      dlt_receiver_receive-Receives src (after_other r other) other stale waiting in
    (
      no_backup,
      elim how [
        | inl (nothing, _, _) ↦ absurd (came (same_received ∙ nothing))
        | inr (e, carried) ↦ (
          r1,
          m,
          e
              ∙ ap (λ n. some (n, r1))
                  (omega (
                    arith,
                    length-append stale (received src r stale),
                    stale_len,
                    ap length same_received,
                  )),
          subst (λ g. Carries r1 m 0 (stale ++ g)) (sym same_received) carried,
        )
      ],
    )
  where
    stale : List ℕ
    stale = slice other 0 (length q)

    stale_len : length stale ≡ length q
    stale_len = length-slice other 0 (length q)

    same_received : received src r q ≡ received src r stale
    same_received = ap (λ n. src.recv r.type r.fd (r.buffersize - n)) (sym stale_len)

    no_backup : dlt_receiver_move_to_begin a r ≡ some (return_ok, r)
    no_backup = ap₂ (move_bytes a r) v.buffer_eq v.buf_eq

    waiting : Parked (after_other r other) other stale
    waiting = record {
      buffer_eq = refl;
      size_eq = same ∙ v.size_eq;
      small = v.small;
      fits = omega (arith, stale_len, v.fits);
      count_eq = v.count_eq ∙ sym stale_len;
      kept = subst (λ o. Kept o other stale) (sym v.backup_eq) (ap (slice other 0) stale_len);
    }
