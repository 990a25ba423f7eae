-- ===== src/Daemon/History.antt =====
-- Any sequence of calls on the tables of the daemon (daemon/dlt_daemon_common.c).
use lr.Base.{ℕ, ◌≡◌, refl, inl, inr, ◌>>=◌, true, Option, some, List, [], ◌∷◌}
use lr.Search.Sorted.{Every}
use lr.Daemon.{
  DltDaemon, DltDaemonContext, DltDaemonRegisteredUsers, Memory,
  dlt_daemon_applications_invalidate_fd, dlt_daemon_contexts_invalidate_fd,
  dlt_daemon_applications_clear, dlt_daemon_contexts_clear,
}
use lr.Daemon.Applications.{Ipc, dlt_daemon_application_add, dlt_daemon_application_del}
use lr.Daemon.Contexts.{dlt_daemon_context_add, dlt_daemon_context_del}
use lr.Daemon.Keys.{IsId, IsApplication, IsContext, application_rank, context_rank}
use lr.Daemon.Same.{applications_invalidate_fd-Same, contexts_invalidate_fd-Same}
use lr.Daemon.Sound.{
  IsUsers, IsDaemon, IsDaemon-Same, applications_clear-IsDaemon, contexts_clear-IsDaemon,
  application_del-IsDaemon, context_del-IsDaemon,
}
use lr.Daemon.ApplicationAdded.{dlt_daemon_application_add_lem}
use lr.Daemon.ContextAdded.{dlt_daemon_context_add_lem}
use lr.Daemon.Tables.{IsTable-nil}

-- A call that the daemon makes, with the answers of the memory.
pub data Call : Type 0 where
  application_add : Memory → Ipc → List ℕ → ℕ → Option (List ℕ) → ℕ → List ℕ → Call
  application_del : ℕ → List ℕ → Call
  context_add :
      Memory → DltDaemonContext → List ℕ → List ℕ → ℕ → ℕ → ℕ → ℕ → Option (List ℕ) → List ℕ → Call
  context_del : ℕ → List ℕ → Call
  invalidate_applications : List ℕ → ℕ → Call
  invalidate_contexts : List ℕ → ℕ → Call
  clear_applications : List ℕ → Call
  clear_contexts : List ℕ → Call

unfoldable pub call : Call → DltDaemon → Option DltDaemon
call (application_add mem ipc apid pid text fd ecu) d = do
  out ← dlt_daemon_application_add mem ipc d apid pid text fd ecu
  some out.1
call (application_del j ecu) d = some (dlt_daemon_application_del d j ecu).1
call (context_add mem stale apid ctid level status pos handle text ecu) d = do
  out ← dlt_daemon_context_add mem stale d apid ctid level status pos handle text ecu
  some out.1
call (context_del j ecu) d = some (dlt_daemon_context_del d j ecu).1
call (invalidate_applications ecu fd) d = some (dlt_daemon_applications_invalidate_fd d ecu fd).1
call (invalidate_contexts ecu fd) d = some (dlt_daemon_contexts_invalidate_fd d ecu fd).1
call (clear_applications ecu) d = some (dlt_daemon_applications_clear d ecu).1
call (clear_contexts ecu) d = some (dlt_daemon_contexts_clear d ecu).1

-- Calls one after the other.
unfoldable pub run_calls : List Call → DltDaemon → Option DltDaemon
run_calls [] d = some d
run_calls (c ∷ cs) d = call c d >>= run_calls cs

-- The ids of an addition are as `dlt_set_id` leaves them, and that of an application gets the memory for
-- the description.
abbrev pub IsProper : Call → Type 0
IsProper (application_add mem ipc apid pid text fd ecu) = (mem.description ≡ true) × IsId apid
IsProper (application_del j ecu) = Unit {0}
IsProper (context_add mem stale apid ctid level status pos handle text ecu) = IsId apid × IsId ctid
IsProper (context_del j ecu) = Unit {0}
IsProper (invalidate_applications ecu fd) = Unit {0}
IsProper (invalidate_contexts ecu fd) = Unit {0}
IsProper (clear_applications ecu) = Unit {0}
IsProper (clear_contexts ecu) = Unit {0}

-- The lists as the daemon starts with them: one per ECU, without tables.
abbrev pub no_tables : List (List ℕ) → List DltDaemonRegisteredUsers
no_tables [] = []
no_tables (ecu ∷ ecus) =
    record { applications = []; application_room = 0; contexts = []; context_room = 0; ecu = ecu }
    ∷ no_tables ecus

call-IsDaemon :
    (c : Call) (d : DltDaemon)
    → IsProper c
    → IsDaemon d
    → (e : DltDaemon) × (call c d ≡ some e) × IsDaemon e
unfolding call
call-IsDaemon (application_add mem ipc apid pid text fd ecu) d given t =
    let (r, e, eq, te, out) =
      dlt_daemon_application_add_lem mem ipc d apid pid text fd ecu given.0 given.1 t in
    (e, rw eq refl, te)
call-IsDaemon (application_del j ecu) d given t =
    ((dlt_daemon_application_del d j ecu).1, refl, application_del-IsDaemon d j ecu t)
call-IsDaemon (context_add mem stale apid ctid level status pos handle text ecu) d given t =
    let (r, e, eq, te, out) =
      dlt_daemon_context_add_lem mem stale d apid ctid level status pos handle text ecu given.0
        given.1 t in
    (e, rw eq refl, te)
call-IsDaemon (context_del j ecu) d given t =
    ((dlt_daemon_context_del d j ecu).1, refl, context_del-IsDaemon d j ecu t)
call-IsDaemon (invalidate_applications ecu fd) d given t =
    let e : DltDaemon = (dlt_daemon_applications_invalidate_fd d ecu fd).1 in
    (e, refl, IsDaemon-Same d e (applications_invalidate_fd-Same d ecu fd) t)
call-IsDaemon (invalidate_contexts ecu fd) d given t =
    let e : DltDaemon = (dlt_daemon_contexts_invalidate_fd d ecu fd).1 in
    (e, refl, IsDaemon-Same d e (contexts_invalidate_fd-Same d ecu fd) t)
call-IsDaemon (clear_applications ecu) d given t =
    ((dlt_daemon_applications_clear d ecu).1, refl, applications_clear-IsDaemon d ecu t)
call-IsDaemon (clear_contexts ecu) d given t =
    ((dlt_daemon_contexts_clear d ecu).1, refl, contexts_clear-IsDaemon d ecu t)

pub no_tables-IsUsers : (ecus : List (List ℕ)) → Every IsUsers (no_tables ecus)
no_tables-IsUsers [] = tt
no_tables-IsUsers (ecu ∷ ecus) = (
  record {
    applications = IsTable-nil application_rank IsApplication 500 (inl refl);
    contexts = IsTable-nil context_rank IsContext 1000 (inr refl);
  },
  no_tables-IsUsers ecus,
)

-- From tables in order, any sequence of calls with proper ids that get the memory for their
-- descriptions runs without an
-- access outside a block, and leaves in every list ascending tables without doubles in blocks of whole
-- steps that are larger than the entries, or no block and no entry.
pub run_calls-IsDaemon :
    (cs : List Call) (d : DltDaemon)
    → Every IsProper cs
    → IsDaemon d
    → (e : DltDaemon) × (run_calls cs d ≡ some e) × IsDaemon e
unfolding run_calls
run_calls-IsDaemon [] d given t = (d, refl, t)
run_calls-IsDaemon (c ∷ cs) d given t =
    let (d1, e1, t1) = call-IsDaemon c d given.0 t in
    let (e, eq, te) = run_calls-IsDaemon cs d1 given.1 t1 in (e, rw e1 eq, te)
