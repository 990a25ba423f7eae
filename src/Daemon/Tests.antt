-- ===== src/Daemon/Tests.antt =====
-- The daemon's tables on two applications and three contexts.
use lr.Base.{
  ℕ, ◌+◌, ◌*◌, ◌≡◌, refl, true, false, Option, none, some, List, [], ◌∷◌, arith, take, inl,
  get_elem?, ◌≢◌, return_ok, ◌>>=◌,
}
use lr.Filter.{dlt_set_id}
use lr.Search.{index_of, qsort, bsearch, bsearch_from}
use lr.Search.Order.{memcmp, rank}
use lr.Search.Sorted.{Every, nums}
use lr.Daemon.{
  DltDaemonApplication, DltDaemonContext, DltDaemonRegisteredUsers, DltDaemon, Memory, fd_init,
  find_ecu, dlt_daemon_find_users_list, cmp_apid, cmp_apid_ctid,
  dlt_daemon_applications_invalidate_fd, dlt_daemon_contexts_invalidate_fd,
}
use lr.Daemon.Applications.{
  Ipc, unix_socket, blank_application, find_application, dlt_daemon_application_find,
  dlt_daemon_application_add, dlt_daemon_application_del,
}
use lr.Daemon.Contexts.{
  blank_context, find_context, dlt_daemon_context_find, dlt_daemon_context_add,
  dlt_daemon_context_del,
}
use lr.Daemon.Keys.{IsId, application_rank, context_rank, dlt_set_id-IsId}
use lr.Daemon.Sound.{IsDaemon}
use lr.Daemon.Find.{find_application-index_of, find_context-index_of}
use lr.Daemon.ApplicationAdded.{Added, dlt_daemon_application_add_lem}
use lr.Daemon.ContextAdded.{ContextAdded, dlt_daemon_context_add_lem}
use lr.Daemon.Same.{Same}
use lr.Daemon.Deleted.{application_del-gone, context_del-gone}
use lr.Daemon.Released.{invalidate_fd-released}
use lr.Daemon.History.{
  Call, application_add, context_add, application_del, context_del, clear_contexts, run_calls,
  no_tables, no_tables-IsUsers, run_calls-IsDaemon,
}

abbrev ecu : List ℕ
ecu = 69 ∷ (67 ∷ (85 ∷ (49 ∷ [])))

abbrev log : List ℕ
log = 76 ∷ (79 ∷ (71 ∷ (0 ∷ [])))

abbrev sys : List ℕ
sys = 83 ∷ (89 ∷ (83 ∷ (0 ∷ [])))

log-IsId : IsId log
unfolding dlt_set_id
log-IsId = dlt_set_id-IsId log (omega arith, (omega arith, (omega arith, (omega arith, tt))))

sys-IsId : IsId sys
unfolding dlt_set_id
sys-IsId = dlt_set_id-IsId sys (omega arith, (omega arith, (omega arith, (omega arith, tt))))

abbrev memory : Memory
memory = record { first_block = true; larger_block = true; description = true }

abbrev start : DltDaemon
start = record {
  user_list = no_tables (ecu ∷ []);
  default_log_level = 4;
  default_trace_status = 0;
  force_ll_ts = true;
  runtime_context_cfg_loaded = false;
  ecuid = ecu;
}

abbrev stale : DltDaemonContext
stale = record {
  apid = [];
  ctid = [];
  log_level = 0;
  trace_status = 0;
  log_level_pos = 0;
  user_handle = 0;
  context_description = none;
  storage_log_level = 0;
  predefined = false;
}

abbrev calls : List Call
calls =
    application_add memory unix_socket sys 10 none 5 ecu
    ∷ (application_add memory unix_socket log 11 (some (77 ∷ [])) 6 ecu
        ∷ (context_add memory stale sys log 6 1 0 5 none ecu
            ∷ (context_add memory stale log sys 3 1 0 6 none ecu
                ∷ (application_del 1 ecu ∷ (context_del 0 ecu ∷ (clear_contexts ecu ∷ []))))))

run_calls-IsDaemon_example : (e : DltDaemon) × (run_calls calls start ≡ some e) × IsDaemon e
run_calls-IsDaemon_example =
    run_calls-IsDaemon calls start
      (
        (refl, sys-IsId),
        ((refl, log-IsId), ((sys-IsId, log-IsId), ((log-IsId, sys-IsId), (tt, (tt, (tt, tt)))))),
      )
      (no_tables-IsUsers (ecu ∷ []))

dlt_daemon_application_add_lem_example :
    (r : Option (ℕ × ℕ)) × (e : DltDaemon) × (dlt_daemon_application_add memory unix_socket start
        log 11
        (some (77 ∷ []))
        6
        ecu
      ≡ some (r, e))
    × IsDaemon e
    × Added memory start log ecu e r
dlt_daemon_application_add_lem_example =
    dlt_daemon_application_add_lem memory unix_socket start log 11 (some (77 ∷ [])) 6 ecu refl
      log-IsId (no_tables-IsUsers (ecu ∷ []))

dlt_daemon_context_add_lem_example :
    (r : Option (ℕ × ℕ)) × (e : DltDaemon) × (dlt_daemon_context_add memory stale start log sys 3 1
        0 6 none ecu
      ≡ some (r, e))
    × IsDaemon e
    × ContextAdded memory start log sys ecu 3 1 e r
dlt_daemon_context_add_lem_example =
    dlt_daemon_context_add_lem memory stale start log sys 3 1 0 6 none ecu log-IsId sys-IsId
      (no_tables-IsUsers (ecu ∷ []))

abbrev two_applications : List DltDaemonApplication
two_applications = blank_application log ∷ (blank_application sys ∷ [])

find_application-index_of_example :
    find_application two_applications sys
    ≡ index_of (rank sys) (nums application_rank two_applications)
unfolding dlt_set_id
find_application-index_of_example =
    find_application-index_of two_applications sys (log-IsId, (sys-IsId, tt))
      ((omega arith, tt), (tt, tt)) sys-IsId

abbrev two_contexts : List DltDaemonContext
two_contexts = blank_context stale log sys ∷ (blank_context stale sys log ∷ [])

find_context-index_of_example :
    find_context two_contexts sys log
    ≡ index_of (4294967296 * rank sys + rank log) (nums context_rank two_contexts)
unfolding dlt_set_id
find_context-index_of_example =
    find_context-index_of two_contexts sys log ((log-IsId, sys-IsId), ((sys-IsId, log-IsId), tt))
      ((omega arith, tt), (tt, tt)) sys-IsId log-IsId

abbrev filled : DltDaemon
filled = record start {
  user_list =
      record {
        applications = two_applications;
        application_room = 500;
        contexts = two_contexts;
        context_room = 1000;
        ecu = ecu;
      }
      ∷ [];
}

filled-IsDaemon : IsDaemon filled
unfolding dlt_set_id
filled-IsDaemon = (
  record {
    applications = record {
      keys = (log-IsId, (sys-IsId, tt));
      ascending = ((omega arith, tt), (tt, tt));
      in_block = record { in_steps = refl; within = inl (omega arith) };
    };
    contexts = record {
      keys = ((log-IsId, sys-IsId), ((sys-IsId, log-IsId), tt));
      ascending = ((omega arith, tt), (tt, tt));
      in_block = record { in_steps = refl; within = inl (omega arith) };
    };
  },
  tt,
)

-- Both second entries are found.
found_application : dlt_daemon_application_find filled sys ecu ≡ some (0, 1)
unfolding dlt_set_id dlt_daemon_application_find dlt_daemon_find_users_list find_ecu
    find_application bsearch bsearch_from cmp_apid memcmp
found_application = refl

found_context : dlt_daemon_context_find filled sys log ecu ≡ some (0, 1)
unfolding dlt_set_id dlt_daemon_context_find dlt_daemon_find_users_list find_ecu find_context
    bsearch bsearch_from cmp_apid_ctid memcmp
found_context = refl

listed : dlt_daemon_find_users_list filled ecu ≡ some 0
unfolding dlt_set_id dlt_daemon_find_users_list find_ecu
listed = refl

application_del-gone_example :
    dlt_daemon_application_find (dlt_daemon_application_del filled 1 ecu).1 sys ecu ≡ none
application_del-gone_example =
    application_del-gone filled sys ecu 0 1 sys-IsId filled-IsDaemon found_application

context_del-gone_example :
    dlt_daemon_context_find (dlt_daemon_context_del filled 1 ecu).1 sys log ecu ≡ none
context_del-gone_example =
    context_del-gone filled sys log ecu 0 1 sys-IsId log-IsId filled-IsDaemon found_context

invalidate_fd-released_example :
    (e : DltDaemon) × (v : DltDaemonRegisteredUsers) × (dlt_daemon_contexts_invalidate_fd
        (dlt_daemon_applications_invalidate_fd filled ecu 5).1
        ecu
        5
      ≡ (return_ok, e))
    × (get_elem? e.user_list 0 ≡ some v)
    × Every (λ a. a.user_handle ≢ 5) v.applications
    × Every (λ c. c.user_handle ≢ 5) v.contexts
    × Same filled e
invalidate_fd-released_example =
    invalidate_fd-released filled ecu 5 0 (λ e. absurd (omega (arith, e))) listed

abbrev found : DltDaemon → Option (ℕ × ℕ) × Option (ℕ × ℕ)
found d = (dlt_daemon_application_find d sys ecu, dlt_daemon_application_find d log ecu)

-- The second of two applications is put in front.
two_added :
    (run_calls (take 2 calls) start >>= λ d. some (found d)) ≡ some (some (0, 1), some (0, 0))
unfolding run_calls lr.Daemon.History.call dlt_daemon_application_add dlt_daemon_find_users_list
    find_ecu dlt_set_id lr.Daemon.Applications.add_application lr.Daemon.make_table find_application
    lr.Daemon.Applications.append_application lr.Daemon.grow_table lr.Daemon.Applications.register
    lr.Daemon.Applications.set_description lr.Daemon.Applications.set_process
    lr.Daemon.Applications.connect lr.Daemon.Applications.reset_user_handle
    lr.Daemon.Applications.sort_applications dlt_daemon_application_find
    dlt_daemon_applications_invalidate_fd dlt_daemon_contexts_invalidate_fd
    lr.Daemon.Applications.open_handle cmp_apid lr.Daemon.release_applications
    lr.Daemon.release_contexts qsort lr.Search.insert_sorted bsearch bsearch_from memcmp
two_added = refl
