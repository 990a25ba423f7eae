-- ===== src/Daemon/Contexts.antt =====
-- Contexts of daemon/dlt_daemon_common.c: finding, adding and deleting one.
use lr.Base.{
  ℕ, ◌+◌, ◌-◌, Bool, true, false, not, ◌&&◌, ◌||◌, Option, none, some, List, [], ◌∷◌, ◌++◌, length,
  get_elem?, get_or, take, drop, slt32, add32, sub32, word, ◌==◌, if◌then◌else◌, ◌>>=◌, ◌>>◌,
}
use lr.Filter.{dlt_set_id}
use lr.Search.Order.{memcmp}
use lr.Search.{qsort, bsearch}
use lr.Daemon.{
  DltDaemonApplication, DltDaemonContext, DltDaemonRegisteredUsers, DltDaemon, Memory,
  cmp_apid_ctid, dlt_daemon_find_users_list, same_ecu, modify, on_users, make_table, grow_table,
  in_blocks,
}
use lr.Daemon.Applications.{is_lt, is_gt, find_application}

abbrev pub alloc_size : ℕ
alloc_size = 1000

-- DLT_LOG_DEFAULT and DLT_TRACE_STATUS_DEFAULT, DLT_LOG_VERBOSE, DLT_TRACE_STATUS_ON
abbrev pub level_default : ℕ
level_default = word - 1

abbrev pub log_verbose : ℕ
log_verbose = 6

abbrev pub trace_status_on : ℕ
trace_status_on = 1

-- A new entry; what the allocated memory held stands in the fields that are set later or not at all.
abbrev pub blank_context : DltDaemonContext → List ℕ → List ℕ → DltDaemonContext
blank_context stale apid ctid = record stale {
  apid = dlt_set_id apid;
  ctid = dlt_set_id ctid;
  context_description = none;
}

-- The search in one table. The value of the other fields of the key does not matter.
unfoldable pub find_context : List DltDaemonContext → List ℕ → List ℕ → Option ℕ
find_context [] apid ctid = none
find_context (c ∷ rest) apid ctid =
    if is_lt (memcmp apid c.apid)
    then none
    else (get_elem? (c ∷ rest) (length rest) >>= λ last.
        if is_gt (memcmp apid last.apid)
        then none
        else bsearch cmp_apid_ctid (blank_context c apid ctid) (c ∷ rest))

unfoldable pub dlt_daemon_context_find : DltDaemon → List ℕ → List ℕ → List ℕ → Option (ℕ × ℕ)
dlt_daemon_context_find d apid ctid ecu =
    if get_or apid 0 0 == 0 || get_or ctid 0 0 == 0 then none else (do
      i ← dlt_daemon_find_users_list d ecu
      u ← get_elem? d.user_list i
      j ← find_context u.contexts apid ctid
      some (i, j))

-- The smaller of two ints.
abbrev pub at_most : ℕ → ℕ → ℕ
at_most level limit = if slt32 limit level then limit else level

-- The level and the status, cut to the daemon's defaults where it forces them on its own ECU.
unfoldable pub forced : DltDaemon → List ℕ → ℕ → ℕ → ℕ × ℕ
forced d ecu log_level trace_status =
    if same_ecu d.ecuid ecu && d.force_ll_ts
    then (at_most log_level d.default_log_level, at_most trace_status d.default_trace_status)
    else (log_level, trace_status)

-- The description; where no memory is given for it there is none.
abbrev pub description_of : Memory → Option (List ℕ) → Option (List ℕ)
description_of mem none = none
description_of mem (some text) = if mem.description then some text else none

-- The fields of an entry, new or old.
unfoldable pub fill_context :
    Memory
    → DltDaemon
    → List ℕ
    → ℕ
    → ℕ
    → ℕ
    → ℕ
    → Option (List ℕ)
    → Bool
    → DltDaemonContext
    → DltDaemonContext
unfolding forced
fill_context mem d ecu log_level trace_status pos handle description is_new c =
    let (level, status) = forced d ecu log_level trace_status in
    let c1 = record c { context_description = description_of mem description } in
    let c2 =
      (if is_new || not d.runtime_context_cfg_loaded
        then record c1 { log_level = level; trace_status = status }
        else c1) in
    record c2 { log_level_pos = pos; user_handle = handle; predefined = handle == 0 }

unfoldable pub sort_contexts : DltDaemon → ℕ → DltDaemon
sort_contexts d i = on_users d i (λ u. record u { contexts = qsort cmp_apid_ctid u.contexts })

abbrev pub on_context : DltDaemon → ℕ → ℕ → (DltDaemonContext → DltDaemonContext) → DltDaemon
on_context d i j f = on_users d i (λ u. record u { contexts = modify j f u.contexts })

abbrev pub count_up : DltDaemonApplication → DltDaemonApplication
count_up a = record a { num_contexts = add32 a.num_contexts 1 }

abbrev pub count_down : DltDaemonApplication → DltDaemonApplication
count_down a = record a { num_contexts = sub32 a.num_contexts 1 }

unfoldable pub append_context :
    Memory
    → DltDaemonContext
    → List ℕ
    → List ℕ
    → DltDaemonRegisteredUsers
    → Option (Option DltDaemonRegisteredUsers)
append_context mem stale apid ctid u =
    let num : ℕ = length u.contexts + 1 in
    elim (grow_table mem.larger_block alloc_size num u.context_room) [
      | none ↦ some none
      | some room ↦
          in_blocks num u.context_room room
          >> some (
              some (record u {
                contexts = u.contexts ++ blank_context stale apid ctid ∷ [];
                context_room = room;
              }))
    ]

-- The checks of the level and the status.
unfoldable pub levels_ok : ℕ → ℕ → Bool
levels_ok log_level trace_status =
    not (slt32 log_level level_default)
    && not (slt32 log_verbose log_level)
    && not (slt32 trace_status level_default)
    && not (slt32 trace_status_on trace_status)

module _ (mem : Memory) (stale : DltDaemonContext) where
  -- With a block for the table: the entry of the application `k`, found or new.
  unfoldable pub add_to :
      DltDaemon
      → ℕ
      → DltDaemonRegisteredUsers
      → ℕ
      → List ℕ
      → List ℕ
      → ℕ
      → ℕ
      → ℕ
      → ℕ
      → Option (List ℕ)
      → List ℕ
      → Option (Option (ℕ × ℕ) × DltDaemon)
  add_to d i v k apid ctid log_level trace_status pos handle description ecu =
      elim (find_context v.contexts apid ctid) [
        | some j ↦ some (
          some (i, j),
          on_context d i j
              (fill_context mem d ecu log_level trace_status pos handle description false),
        )
        | none ↦ do
          w ← append_context mem stale apid ctid v
          elim w [
            | none ↦ some (none, d)
            | some w ↦
                let d1 =
                  on_users d i
                    (λ x. record w { applications = modify k count_up w.applications }) in
                let d2 =
                  on_context d1 i (length v.contexts)
                    (fill_context mem d ecu log_level trace_status pos handle description true) in
                let d3 = sort_contexts d2 i in some (dlt_daemon_context_find d3 apid ctid ecu, d3)
          ]
      ]

  -- The part behind the choice of the list `u`, the one at `i`.
  unfoldable pub add_context :
      DltDaemon
      → ℕ
      → DltDaemonRegisteredUsers
      → List ℕ
      → List ℕ
      → ℕ
      → ℕ
      → ℕ
      → ℕ
      → Option (List ℕ)
      → List ℕ
      → Option (Option (ℕ × ℕ) × DltDaemon)
  add_context d i u apid ctid log_level trace_status pos handle description ecu =
      elim (make_table mem.first_block alloc_size u.context_room) [
        | none ↦ some (none, d)
        | some room ↦
            let v : DltDaemonRegisteredUsers = record u { context_room = room } in
            let d0 : DltDaemon = on_users d i (λ w. v) in
            elim (find_application v.applications apid) [
              | none ↦ some (none, d0)
              | some k ↦ add_to d0 i v k apid ctid log_level trace_status pos handle description ecu
            ]
      ]

  unfoldable pub dlt_daemon_context_add :
      DltDaemon
      → List ℕ
      → List ℕ
      → ℕ
      → ℕ
      → ℕ
      → ℕ
      → Option (List ℕ)
      → List ℕ
      → Option (Option (ℕ × ℕ) × DltDaemon)
  dlt_daemon_context_add d apid ctid log_level trace_status pos handle description ecu =
      if get_or apid 0 0 == 0 || get_or ctid 0 0 == 0
      then some (none, d)
      else if not (levels_ok log_level trace_status)
      then some (none, d)
      else elim (dlt_daemon_find_users_list d ecu) [
        | none ↦ some (none, d)
        | some i ↦ do
          u ← get_elem? d.user_list i
          add_context d i u apid ctid log_level trace_status pos handle description ecu
      ]

abbrev pub on_found : Option ℕ → DltDaemonRegisteredUsers → DltDaemonRegisteredUsers
on_found none u = u
on_found (some k) u = record u { applications = modify k count_down u.applications }

-- The context at `j` of the list that it is found in.
unfoldable pub dlt_daemon_context_del : DltDaemon → ℕ → List ℕ → Bool × DltDaemon
dlt_daemon_context_del d j ecu = elim (dlt_daemon_find_users_list d ecu) [
  | none ↦ (false, d)
  | some i ↦ elim (get_elem? d.user_list i >>= λ u. get_elem? u.contexts j) [
    | none ↦ (true, d)
    | some c ↦ (
      true,
      on_users d i (λ u.
          on_found (if get_or c.apid 0 0 == 0 then none else find_application u.applications c.apid)
            (record u { contexts = take j u.contexts ++ drop (j + 1) u.contexts })),
    )
  ]
]
