-- ===== src/Daemon.antt =====
-- The tables of applications and contexts of daemon/dlt_daemon_common.c: per ECU one table of
-- applications, in the order of their ids, and one of contexts, in the order of both ids.
-- Pointers into a table are the index of the list and the index in the table. A room is the number of
-- entries of the allocated block, 0 for a null pointer; the entries in use are the list. Ints are 32-bit
-- patterns. Ids come as their four bytes. Closing a file leaves no trace. `none` is undefined behaviour.
pub mod Applications
pub mod Contexts
pub mod Tables
pub mod Keys
pub mod Find
pub mod Same
pub mod Sound
pub mod Register
pub mod Pending
pub mod ApplicationAdd
pub mod ApplicationAdded
pub mod ContextAdd
pub mod ContextAdded
pub mod History
pub mod Deleted
pub mod Released
mod Tests
use Prim.Native.Nat.{Ordering}
use lr.Base.{
  ℕ, zero, suc, ◌+◌, ◌-◌, ◌*◌, ◌/◌, ◌%◌, Bool, true, false, not, ◌&&◌, ◌||◌, Option, none, some,
  List, [], ◌∷◌, ◌++◌, length, get_elem?, get_or, leb, ltb, ◌==◌, if◌then◌else◌, ◌>>=◌, ◌>>◌, guard,
  bytes_eq, word, DltReturnValue, return_ok, return_error, wrong_parameter,
}
use lr.Filter.{dlt_set_id}
use lr.Search.Order.{memcmp}
use lr.Search.{qsort, bsearch}

abbrev pub fd_init : ℕ
fd_init = word - 1

pub record DltDaemonApplication : Type 0 where
  pub apid : List ℕ
  pub pid : ℕ
  pub user_handle : ℕ
  pub owns_user_handle : Bool
  pub application_description : Option (List ℕ)
  pub num_contexts : ℕ

pub record DltDaemonContext : Type 0 where
  pub apid : List ℕ
  pub ctid : List ℕ
  pub log_level : ℕ
  pub trace_status : ℕ
  pub log_level_pos : ℕ
  pub user_handle : ℕ
  pub context_description : Option (List ℕ)
  pub storage_log_level : ℕ
  pub predefined : Bool

pub record DltDaemonRegisteredUsers : Type 0 where
  pub applications : List DltDaemonApplication
  pub application_room : ℕ
  pub contexts : List DltDaemonContext
  pub context_room : ℕ
  pub ecu : List ℕ

pub record DltDaemon : Type 0 where
  pub user_list : List DltDaemonRegisteredUsers
  pub default_log_level : ℕ
  pub default_trace_status : ℕ
  pub force_ll_ts : Bool
  pub runtime_context_cfg_loaded : Bool
  pub ecuid : List ℕ

-- Whether the memory asked for is given: for the first block of a table, for a larger one, for the
-- description.
pub record Memory : Type 0 where
  pub first_block : Bool
  pub larger_block : Bool
  pub description : Bool

-- dlt_daemon_cmp_apid
unfoldable pub cmp_apid : DltDaemonApplication → DltDaemonApplication → Ordering
cmp_apid m1 m2 = memcmp m1.apid m2.apid

-- dlt_daemon_cmp_apid_ctid
unfoldable pub cmp_apid_ctid : DltDaemonContext → DltDaemonContext → Ordering
cmp_apid_ctid m1 m2 = elim (memcmp m1.apid m2.apid) [
  | Ordering.lt ↦ Ordering.lt
  | Ordering.eq ↦ memcmp m1.ctid m2.ctid
  | Ordering.gt ↦ Ordering.gt
]

-- strncmp(a, b, DLT_ID_SIZE) == 0
abbrev pub same_ecu : List ℕ → List ℕ → Bool
same_ecu a b = bytes_eq (dlt_set_id a) (dlt_set_id b)

unfoldable pub find_ecu : List ℕ → List DltDaemonRegisteredUsers → Option ℕ
find_ecu ecu [] = none
find_ecu ecu (u ∷ us) =
    let rest : Option ℕ = find_ecu ecu us >>= λ i. some (suc i) in
    if same_ecu ecu u.ecu then some 0 else rest

unfoldable pub dlt_daemon_find_users_list : DltDaemon → List ℕ → Option ℕ
unfolding find_ecu
dlt_daemon_find_users_list d ecu = find_ecu ecu d.user_list

-- The entry at an index changed; out of range nothing changes.
abbrev pub modify {ℓ} : {A : Type ℓ} → ℕ → (A → A) → List A → List A
modify i f [] = []
modify zero f (x ∷ xs) = f x ∷ xs
modify (suc i) f (x ∷ xs) = x ∷ modify i f xs

abbrev pub on_users :
    DltDaemon → ℕ → (DltDaemonRegisteredUsers → DltDaemonRegisteredUsers) → DltDaemon
on_users d i f = record d { user_list = modify i f d.user_list }

unfoldable pub release_applications : ℕ → List DltDaemonApplication → List DltDaemonApplication
release_applications fd [] = []
release_applications fd (a ∷ rest) =
    (if a.user_handle == fd then record a { user_handle = fd_init } else a)
    ∷ release_applications fd rest

unfoldable pub release_contexts : ℕ → List DltDaemonContext → List DltDaemonContext
release_contexts fd [] = []
release_contexts fd (c ∷ cs) =
    (if c.user_handle == fd then record c { user_handle = fd_init } else c) ∷ release_contexts fd cs

unfoldable pub dlt_daemon_applications_invalidate_fd :
    DltDaemon → List ℕ → ℕ → DltReturnValue × DltDaemon
dlt_daemon_applications_invalidate_fd d ecu fd = elim (dlt_daemon_find_users_list d ecu) [
  | none ↦ (return_error, d)
  | some i ↦ (
    return_ok,
    on_users d i (λ u. record u { applications = release_applications fd u.applications }),
  )
]

unfoldable pub dlt_daemon_contexts_invalidate_fd :
    DltDaemon → List ℕ → ℕ → DltReturnValue × DltDaemon
dlt_daemon_contexts_invalidate_fd d ecu fd = elim (dlt_daemon_find_users_list d ecu) [
  | none ↦ (return_error, d)
  | some i ↦ (return_ok, on_users d i (λ u. record u { contexts = release_contexts fd u.contexts }))
]

unfoldable pub dlt_daemon_applications_clear : DltDaemon → List ℕ → DltReturnValue × DltDaemon
dlt_daemon_applications_clear d ecu = elim (dlt_daemon_find_users_list d ecu) [
  | none ↦ (return_error, d)
  | some i ↦ (return_ok, on_users d i (λ u. record u { applications = []; application_room = 0 }))
]

unfoldable pub reset_counts : List DltDaemonApplication → List DltDaemonApplication
reset_counts [] = []
reset_counts (a ∷ rest) = record a { num_contexts = 0 } ∷ reset_counts rest

unfoldable pub dlt_daemon_contexts_clear : DltDaemon → List ℕ → DltReturnValue × DltDaemon
dlt_daemon_contexts_clear d ecu = elim (dlt_daemon_find_users_list d ecu) [
  | none ↦ (return_error, d)
  | some i ↦ (
    return_ok,
    on_users d i (λ u. record u {
      contexts = [];
      context_room = 0;
      applications = reset_counts u.applications;
    }),
  )
]

-- The block of a table, made where there is none.
unfoldable pub make_table : Bool → ℕ → ℕ → Option ℕ
make_table grant alloc_size room =
    if room == 0 then (if grant then some alloc_size else none) else some room

-- The block of a table that is to have `num` entries, made larger in steps.
unfoldable pub grow_table : Bool → ℕ → ℕ → ℕ → Option ℕ
grow_table grant alloc_size num room =
    if num % alloc_size == 0
    then (if grant then some ((num / alloc_size + 1) * alloc_size) else none)
    else some room

-- The copy of `num` entries into a larger block, and the write of the last one, stay in the blocks.
abbrev pub in_blocks : ℕ → ℕ → ℕ → Option (Unit {0})
in_blocks num room larger = guard (leb num room && leb num larger)
