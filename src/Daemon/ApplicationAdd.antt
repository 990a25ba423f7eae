-- ===== src/Daemon/ApplicationAdd.antt =====
-- `dlt_daemon_application_add` of daemon/dlt_daemon_common.c on tables in order: what it returns, and what it
-- leaves.
use mathlib.Core.Path.{subst}
use lr.Base.{
  ℕ, zero, suc, ◌<◌, ◌≡◌, ◌≢◌, refl, sym, ap, ◌∙◌, ◌⊎◌, inl, inr, true, false, Option, none, some,
  List, [], ◌∷◌, ◌++◌, arith, length, get_elem?, get_or, ◌>>=◌, ◌==◌, Bool-cases, Option-cases,
}
use lr.Search.{qsort, index_of}
use lr.Search.Order.{rank}
use lr.Search.Sorted.{nums, nums-append}
use lr.Search.Found.{none_some, some_inj, index_of-last, index_of-NotIn, index_of-qsort}
use lr.Daemon.{
  DltDaemonRegisteredUsers, DltDaemon, Memory, cmp_apid, find_ecu, dlt_daemon_find_users_list,
  same_ecu,
}
use lr.Daemon.Applications.{
  Ipc, dlt_daemon_application_find, blank_application, sort_applications, register,
  append_application,
}
use lr.Daemon.Tables.{IsTable, IsUnsorted, IsTable-IsUnsorted, IsUnsorted-qsort, grow_table-IsRoom}
use lr.Daemon.Keys.{IsId, IsApplication, IsContext, application_rank, context_rank, cmp_apid-rank}
use lr.Daemon.Same.{apid_of, SameUsers, find_ecu-SameLists}
use lr.Daemon.Sound.{
  IsUsers, IsDaemon, nums-same, IsUnsorted-same, contexts-same, IsDaemon-Same, Every-at,
}
use lr.Daemon.Register.{HasApplication, get_elem?-SameLists, register-Same}
use lr.Daemon.Pending.{
  AllBut, get_elem?-modify, find_ecu-modify, AllBut-same, AllBut-modify, AllBut-at,
}
use lr.Daemon.Find.{find_application-index_of}

-- A list with the new application `apid`, not yet in order.
pub record IsNew (apid : List ℕ) (u : DltDaemonRegisteredUsers) : Type 0 where
  pub applications : IsUnsorted application_rank IsApplication 500 u.applications u.application_room
  pub contexts : IsTable context_rank IsContext 1000 u.contexts u.context_room
  pub there : index_of (rank apid) (nums application_rank u.applications) ≢ none

IsNew-same :
    (apid : List ℕ) (u v : DltDaemonRegisteredUsers) → SameUsers u v → IsNew apid u → IsNew apid v
IsNew-same apid u v h t = record {
  applications =
      subst (IsUnsorted application_rank IsApplication 500 v.applications) (sym h.application_room)
        (IsUnsorted-same apid_of rank IsId 500 u.applications v.applications h.apids
          u.application_room t.applications);
  contexts = contexts-same u v h t.contexts;
  there =
      subst (λ rs. index_of (rank apid) rs ≢ none)
        (nums-same apid_of rank IsId 500 u.applications v.applications h.apids) t.there;
}

sorted : DltDaemonRegisteredUsers → DltDaemonRegisteredUsers
sorted u = record u { applications = qsort cmp_apid u.applications }

IsNew-sorted : (apid : List ℕ) (u : DltDaemonRegisteredUsers) → IsNew apid u → IsUsers (sorted u)
unfolding sorted
IsNew-sorted apid u t = record {
  applications =
      IsUnsorted-qsort application_rank IsApplication 500 cmp_apid cmp_apid-rank u.applications
        u.application_room t.applications;
  contexts = t.contexts;
}

-- The list that is found is there.
pub find_ecu-element :
    (ecu : List ℕ) (us : List DltDaemonRegisteredUsers) (i : ℕ)
    → find_ecu ecu us ≡ some i
    → (u : DltDaemonRegisteredUsers) × (get_elem? us i ≡ some u)
unfolding find_ecu
find_ecu-element ecu [] i e = none_some i e
find_ecu-element ecu (u ∷ us) zero e = (u, refl)
find_ecu-element ecu (u ∷ us) (suc i) e = elim (Bool-cases (same_ecu ecu u.ecu)) [
  | inl s ↦ absurd (omega (arith, some_inj (rw s at e)))
  | inr s ↦ elim (Option-cases (find_ecu ecu us)) [
    | inl n ↦ none_some (suc i) (rw (s, n) at e)
    | inr (k, n) ↦
        let same : k ≡ i = omega (arith, some_inj (rw (s, n) at e)) in
        find_ecu-element ecu us i (n ∙ ap some same)
  ]
]

-- The search for an application, by the numbers of the table of its ECU.
pub application_find-index_of :
    (d : DltDaemon) (apid ecu : List ℕ) (i : ℕ) (u : DltDaemonRegisteredUsers)
    → (get_or apid 0 0 == 0) ≡ false
    → IsId apid
    → dlt_daemon_find_users_list d ecu ≡ some i
    → get_elem? d.user_list i ≡ some u
    → IsUsers u
    → dlt_daemon_application_find d apid ecu
      ≡ (index_of (rank apid) (nums application_rank u.applications) >>= λ j. some (i, j))
unfolding dlt_daemon_application_find
application_find-index_of d apid ecu i u first id e f t =
    rw
      (
        first,
        e,
        f,
        find_application-index_of u.applications apid t.applications.keys t.applications.ascending
            id,
      )
      refl

pub append_application-IsNew :
    (mem : Memory) (apid : List ℕ) (u : DltDaemonRegisteredUsers)
    → IsId apid
    → IsUsers u
    → length u.applications < u.application_room
    → index_of (rank apid) (nums application_rank u.applications) ≡ none
    → ((append_application mem apid u ≡ some none) × (mem.larger_block ≡ false))
      ⊎ ((w : DltDaemonRegisteredUsers) × (append_application mem apid u ≡ some (some w))
          × IsNew apid w
          × (w.ecu ≡ u.ecu)
          × (w.applications ≡ u.applications ++ blank_application apid ∷ []))
unfolding append_application
append_application-IsNew mem apid u id t l e =
    elim (grow_table-IsRoom mem.larger_block 500 (length u.applications) u.application_room
      (inl refl) t.applications.in_block l) [
        | inl (g, b) ↦ inl (rw (g, append_application) refl, b)
        | inr (room, g, v, inside) ↦
            let key : IsApplication (blank_application apid) = subst IsId (sym id.1) id in
            let same : rank apid ≡ application_rank (blank_application apid) = ap rank (sym id.1) in
            inr (
              record u {
                applications = u.applications ++ blank_application apid ∷ [];
                application_room = room;
              },
              rw (g, inside, append_application) refl,
              record {
                applications =
                    IsTable-IsUnsorted application_rank IsApplication 500 u.applications
                      (blank_application apid) u.application_room room t.applications key
                      (index_of-NotIn _ (nums application_rank u.applications) (
                        subst (λ r. index_of r (nums application_rank u.applications) ≡ none) same
                          e))
                      v;
                contexts = t.contexts;
                there =
                    subst (λ rs. index_of (rank apid) rs ≢ none)
                      (ap (λ r. nums application_rank u.applications ++ r ∷ []) same
                        ∙ sym (
                            nums-append application_rank u.applications
                              (blank_application apid ∷ [])))
                      (index_of-last (rank apid) (nums application_rank u.applications));
              },
              refl,
              refl,
            )
      ]

-- Where the sorted table has the application, it is found.
sorted-found :
    (apid : List ℕ) (u : DltDaemonRegisteredUsers)
    → IsNew apid u
    → (j : ℕ) × (index_of (rank apid) (nums application_rank (sorted u).applications) ≡ some j)
unfolding sorted
sorted-found apid u t =
    elim (Option-cases
      (index_of (rank apid) (nums application_rank (qsort cmp_apid u.applications)))) [
        | inl n ↦ absurd (
            t.there (
              index_of-qsort application_rank cmp_apid IsApplication cmp_apid-rank (rank apid)
                u.applications t.applications.distinct n))
        | inr s ↦ s
      ]

module _ (mem : Memory) (ipc : Ipc) (ecu apid : List ℕ) (pid : ℕ) (text : Option (List ℕ)) (fd : ℕ)
    (given : mem.description ≡ true) (first : (get_or apid 0 0 == 0) ≡ false) (id : IsId apid) where
  pub register_new :
      (d : DltDaemon) (i j : ℕ)
      → AllBut (IsNew apid) i d.user_list
      → dlt_daemon_find_users_list d ecu ≡ some i
      → HasApplication d i j
      → (p : ℕ × ℕ) × (e : DltDaemon) × (register mem ipc ecu apid pid text fd true d i j
          ≡ some (some p, e))
        × IsDaemon e
        × (dlt_daemon_application_find e apid ecu ≡ some p)
  unfolding sort_applications sorted dlt_daemon_find_users_list
  register_new d i j t listed has =
      let (d3, same, old, eq) = register-Same mem ipc ecu apid pid text fd d i j given has in
      let t3 : AllBut (IsNew apid) i d3.user_list =
        AllBut-same (IsNew apid) d.user_list d3.user_list i (IsNew-same apid) same t in
      let (u, f, new) = AllBut-at (IsNew apid) d3.user_list i t3 in
      let (k, found) = sorted-found apid u new in
      let e : DltDaemon = sort_applications d3 i in
      let all : IsDaemon e =
        AllBut-modify (IsNew apid) sorted d3.user_list i (IsNew-sorted apid) t3 in
      let listed_e : dlt_daemon_find_users_list e ecu ≡ some i =
        find_ecu-modify ecu sorted d3.user_list i u f refl
        ∙ find_ecu-SameLists ecu d.user_list d3.user_list same
        ∙ listed in
      let at_e : get_elem? e.user_list i ≡ some (sorted u) =
        get_elem?-modify sorted d3.user_list i u f in
      let found_e : dlt_daemon_application_find e apid ecu ≡ some (i, k) =
        application_find-index_of e apid ecu i (sorted u) first id listed_e at_e
          (IsNew-sorted apid u new)
        ∙ ap (λ o. o >>= λ m. some (i, m)) found in
      ((i, k), e, eq ∙ ap (λ o. some (o, e)) found_e, all, found_e)

  pub register_old :
      (d : DltDaemon) (i j : ℕ) (u : DltDaemonRegisteredUsers)
      → IsDaemon d
      → dlt_daemon_find_users_list d ecu ≡ some i
      → get_elem? d.user_list i ≡ some u
      → j < length u.applications
      → index_of (rank apid) (nums application_rank u.applications) ≡ some j
      → (p : ℕ × ℕ) × (e : DltDaemon) × (register mem ipc ecu apid pid text fd false d i j
          ≡ some (some p, e))
        × IsDaemon e
        × (dlt_daemon_application_find e apid ecu ≡ some p)
  unfolding dlt_daemon_find_users_list
  register_old d i j u t listed f l found =
      let (e, same, eq, new) = register-Same mem ipc ecu apid pid text fd d i j given (u, f, l) in
      let all : IsDaemon e = IsDaemon-Same d e same t in
      let (v, g, s) = get_elem?-SameLists d.user_list e.user_list i u same f in
      let listed_e : dlt_daemon_find_users_list e ecu ≡ some i =
        find_ecu-SameLists ecu d.user_list e.user_list same ∙ listed in
      (
        (i, j),
        e,
        eq,
        all,
        application_find-index_of e apid ecu i v first id listed_e g
              (Every-at e.user_list i v g all)
            ∙ ap (λ rs. index_of (rank apid) rs >>= λ m. some (i, m))
                (sym (nums-same apid_of rank IsId 500 u.applications v.applications s.apids))
            ∙ ap (λ o. o >>= λ m. some (i, m)) found,
      )
