-- ===== src/Daemon/Applications.antt =====
-- Applications of daemon/dlt_daemon_common.c: finding, adding and deleting one.
use Prim.Native.Nat.{Ordering}
use lr.Base.{
  ℕ, ◌+◌, Bool, true, false, not, ◌&&◌, Option, none, some, List, [], ◌∷◌, ◌++◌, length, get_elem?,
  get_or, take, drop, slt32, ◌==◌, if◌then◌else◌, ◌>>=◌, ◌>>◌,
}
use lr.Filter.{dlt_set_id}
use lr.Search.Order.{memcmp}
use lr.Search.{qsort, bsearch}
use lr.Daemon.{
  DltDaemonApplication, DltDaemonRegisteredUsers, DltDaemon, Memory, cmp_apid,
  dlt_daemon_find_users_list, modify, on_users, fd_init, dlt_daemon_applications_invalidate_fd,
  dlt_daemon_contexts_invalidate_fd, make_table, grow_table, in_blocks,
}

abbrev pub alloc_size : ℕ
alloc_size = 500

-- The application that is compared in a search, and the one that a new entry starts as.
abbrev pub blank_application : List ℕ → DltDaemonApplication
blank_application apid = record {
  apid = dlt_set_id apid;
  pid = 0;
  user_handle = fd_init;
  owns_user_handle = false;
  application_description = none;
  num_contexts = 0;
}

abbrev pub is_lt : Ordering → Bool
is_lt Ordering.lt = true
is_lt Ordering.eq = false
is_lt Ordering.gt = false

abbrev pub is_gt : Ordering → Bool
is_gt Ordering.lt = false
is_gt Ordering.eq = false
is_gt Ordering.gt = true

-- The search in one table.
unfoldable pub find_application : List DltDaemonApplication → List ℕ → Option ℕ
find_application [] apid = none
find_application (a ∷ rest) apid =
    if is_lt (memcmp apid a.apid)
    then none
    else (get_elem? (a ∷ rest) (length rest) >>= λ last.
        if is_gt (memcmp apid last.apid)
        then none
        else bsearch cmp_apid (blank_application apid) (a ∷ rest))

-- The list of the ECU and the index in its table; the id begins with a char that is not zero.
unfoldable pub dlt_daemon_application_find : DltDaemon → List ℕ → List ℕ → Option (ℕ × ℕ)
dlt_daemon_application_find d apid ecu = if get_or apid 0 0 == 0 then none else (do
  i ← dlt_daemon_find_users_list d ecu
  u ← get_elem? d.user_list i
  j ← find_application u.applications apid
  some (i, j))

abbrev pub on_application :
    DltDaemon → ℕ → ℕ → (DltDaemonApplication → DltDaemonApplication) → DltDaemon
on_application d i j f = on_users d i (λ u. record u { applications = modify j f u.applications })

-- The handles of the contexts of the daemon's own ECU that use the same handle are reset with it.
unfoldable pub reset_user_handle : DltDaemon → ℕ → ℕ → DltDaemonApplication → DltDaemon
reset_user_handle d i j a =
    if a.user_handle == fd_init
    then d
    else on_application (dlt_daemon_contexts_invalidate_fd d d.ecuid a.user_handle).1 i j
        (λ b. record b { user_handle = fd_init; owns_user_handle = false })

-- How the daemon talks to applications, fixed when it is built: by a socket, or by a pipe that is opened
-- for the process, with the answer of open.
pub data Ipc : Type 0 where
  unix_socket : Ipc
  fifo : (ℕ → ℕ) → Ipc

-- The handle for a process, and whether the daemon owns it.
unfoldable pub open_handle : Ipc → ℕ → ℕ → ℕ × Bool
open_handle unix_socket pid fd = if slt32 fd 3 then (fd_init, false) else (fd, false)
open_handle (fifo opened) pid fd = (opened pid, not (slt32 (opened pid) 0))

-- Where no memory is given for the text, the code frees the entry in the table.
unfoldable pub set_description : Memory → Option (List ℕ) → DltDaemon → ℕ → ℕ → Option DltDaemon
set_description mem none d i j =
    some (on_application d i j (λ a. record a { application_description = none }))
set_description mem (some text) d i j =
    if mem.description
    then some (on_application d i j (λ a. record a { application_description = some text }))
    else none

-- Another process: the handle of the old one is given up.
unfoldable pub set_process : DltDaemon → ℕ → ℕ → ℕ → Option DltDaemon
set_process d i j pid = do
  u ← get_elem? d.user_list i
  a ← get_elem? u.applications j
  if a.pid == pid
      then some d
      else some (on_application (reset_user_handle d i j a) i j (λ b. record b { pid = 0 }))

unfoldable pub connect : Ipc → List ℕ → DltDaemon → ℕ → ℕ → ℕ → ℕ → Option DltDaemon
connect ipc ecu d i j pid fd = do
  u ← get_elem? d.user_list i
  a ← get_elem? u.applications j
  if a.user_handle == fd_init && not (pid == 0)
      then (let (handle, owns) = open_handle ipc pid fd in
          let d1 = (dlt_daemon_applications_invalidate_fd d ecu handle).1 in
          let d2 = (dlt_daemon_contexts_invalidate_fd d1 ecu handle).1 in
          some (
            on_application d2 i j
              (λ b. record b { user_handle = handle; owns_user_handle = owns; pid = pid })))
      else some d

unfoldable pub sort_applications : DltDaemon → ℕ → DltDaemon
sort_applications d i =
    on_users d i (λ u. record u { applications = qsort cmp_apid u.applications })

-- The part of an addition behind the choice of the entry `j`.
unfoldable pub register :
    Memory
    → Ipc
    → List ℕ
    → List ℕ
    → ℕ
    → Option (List ℕ)
    → ℕ
    → Bool
    → DltDaemon
    → ℕ
    → ℕ
    → Option (Option (ℕ × ℕ) × DltDaemon)
register mem ipc ecu apid pid description fd is_new d i j = do
  d1 ← set_description mem description d i j
  d2 ← set_process d1 i j pid
  d3 ← connect ipc ecu d2 i j pid fd
  if is_new
      then (let d4 = sort_applications d3 i in some (dlt_daemon_application_find d4 apid ecu, d4))
      else some (some (i, j), d3)

-- A new entry at the end of the table, the count raised first.
unfoldable pub append_application :
    Memory → List ℕ → DltDaemonRegisteredUsers → Option (Option DltDaemonRegisteredUsers)
append_application mem apid u =
    let num : ℕ = length u.applications + 1 in
    elim (grow_table mem.larger_block alloc_size num u.application_room) [
      | none ↦ some none
      | some room ↦
          in_blocks num u.application_room room
          >> some (
              some (record u {
                applications = u.applications ++ blank_application apid ∷ [];
                application_room = room;
              }))
    ]

-- The part behind the choice of the list `u`, the one at `i`.
unfoldable pub add_application :
    Memory
    → Ipc
    → DltDaemon
    → ℕ
    → DltDaemonRegisteredUsers
    → List ℕ
    → ℕ
    → Option (List ℕ)
    → ℕ
    → List ℕ
    → Option (Option (ℕ × ℕ) × DltDaemon)
add_application mem ipc d i u apid pid description fd ecu =
    elim (make_table mem.first_block alloc_size u.application_room) [
      | none ↦ some (none, d)
      | some room ↦
          let v : DltDaemonRegisteredUsers = record u { application_room = room } in
          let d0 : DltDaemon = on_users d i (λ w. v) in
          elim (find_application v.applications apid) [
            | some j ↦ register mem ipc ecu apid pid description fd false d0 i j
            | none ↦ do
              w ← append_application mem apid v
              elim w [
                | none ↦ some (none, d0)
                | some w ↦
                    register mem ipc ecu apid pid description fd true (on_users d i (λ x. w)) i
                      (length u.applications)
              ]
          ]
    ]

unfoldable pub dlt_daemon_application_add :
    Memory
    → Ipc
    → DltDaemon
    → List ℕ
    → ℕ
    → Option (List ℕ)
    → ℕ
    → List ℕ
    → Option (Option (ℕ × ℕ) × DltDaemon)
dlt_daemon_application_add mem ipc d apid pid description fd ecu =
    if get_or apid 0 0 == 0 then some (none, d) else elim (dlt_daemon_find_users_list d ecu) [
      | none ↦ some (none, d)
      | some i ↦ do
        u ← get_elem? d.user_list i
        add_application mem ipc d i u apid pid description fd ecu
    ]

-- The application at `j` of the list that it is found in; a list without applications is left alone.
unfoldable pub dlt_daemon_application_del : DltDaemon → ℕ → List ℕ → Bool × DltDaemon
dlt_daemon_application_del d j ecu = elim (dlt_daemon_find_users_list d ecu) [
  | none ↦ (false, d)
  | some i ↦ elim (get_elem? d.user_list i >>= λ u. get_elem? u.applications j) [
    | none ↦ (true, d)
    | some a ↦ (
      true,
      on_users (reset_user_handle d i j a) i
          (λ u. record u { applications = take j u.applications ++ drop (j + 1) u.applications }),
    )
  ]
]
