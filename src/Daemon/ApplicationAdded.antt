-- ===== src/Daemon/ApplicationAdded.antt =====
-- `dlt_daemon_application_add` of daemon/dlt_daemon_common.c: the whole call on tables in order.
use mathlib.Core.Path.{subst}
use lr.Base.{
  ℕ, ◌<◌, ◌≡◌, refl, sym, ◌∙◌, ◌⊎◌, inl, inr, true, false, Option, none, some, List, [], ◌∷◌, arith,
  length, length-append, get_elem?, get_or, ◌==◌, ==_iff, Bool-cases, Option-cases,
}
use lr.Search.Order.{rank}
use lr.Search.Found.{index_of-length}
use lr.Daemon.{
  DltDaemonRegisteredUsers, DltDaemon, Memory, on_users, dlt_daemon_find_users_list, make_table,
}
use lr.Daemon.Applications.{
  Ipc, find_application, dlt_daemon_application_find, blank_application, add_application,
  dlt_daemon_application_add,
}
use lr.Daemon.Tables.{make_table-IsRoom}
use lr.Daemon.Keys.{IsId, application_rank}
use lr.Daemon.Sound.{IsUsers, IsDaemon, Every-at}
use lr.Daemon.Pending.{get_elem?-modify, find_ecu-modify, AllBut-put, Every-put}
use lr.Daemon.ApplicationAdd.{
  IsNew, find_ecu-element, append_application-IsNew, register_new, register_old,
}
use lr.Daemon.Find.{find_application-index_of}

-- What an addition returns, and which tables it leaves: the application is found where the result says,
-- and there is no result only for an empty id, an ECU without a list, or no memory.
pub data Added (mem : Memory) (d : DltDaemon) (apid ecu : List ℕ) (e : DltDaemon)
    : Option (ℕ × ℕ) → Type 0 where
  added :
      (i j : ℕ)
      → dlt_daemon_application_find e apid ecu ≡ some (i, j)
      → Added mem d apid ecu e (some (i, j))
  empty_id : get_or apid 0 0 ≡ 0 → Added mem d apid ecu e none
  no_list : dlt_daemon_find_users_list d ecu ≡ none → Added mem d apid ecu e none
  no_first_block : mem.first_block ≡ false → Added mem d apid ecu e none
  no_larger_block : mem.larger_block ≡ false → Added mem d apid ecu e none

-- The block of a list, made where there is none.
pub make_table-IsUsers :
    (mem : Memory) (u : DltDaemonRegisteredUsers)
    → IsUsers u
    → ((make_table mem.first_block 500 u.application_room ≡ none) × (mem.first_block ≡ false))
      ⊎ ((room : ℕ) × (make_table mem.first_block 500 u.application_room ≡ some room)
          × IsUsers (record u { application_room = room })
          × (length u.applications < room))
make_table-IsUsers mem u t =
    elim (make_table-IsRoom mem.first_block 500 (length u.applications) u.application_room
      (inl refl) t.applications.in_block) [
        | inl (e, b) ↦ inl (e, b)
        | inr (room, e, v, l) ↦ inr (
          room,
          e,
          record {
            applications = record {
              keys = t.applications.keys;
              ascending = t.applications.ascending;
              in_block = v;
            };
            contexts = t.contexts;
          },
          l,
        )
      ]

-- With the list `u` of the ECU, the one at `i`.
add_application_lem :
    (mem : Memory) (ipc : Ipc) (d : DltDaemon) (i : ℕ) (u : DltDaemonRegisteredUsers)
    (apid : List ℕ) (pid : ℕ) (text : Option (List ℕ)) (fd : ℕ) (ecu : List ℕ)
    → mem.description ≡ true
    → IsId apid
    → IsDaemon d
    → (get_or apid 0 0 == 0) ≡ false
    → dlt_daemon_find_users_list d ecu ≡ some i
    → get_elem? d.user_list i ≡ some u
    → (r : Option (ℕ × ℕ)) × (e : DltDaemon) × (add_application mem ipc d i u apid pid text fd ecu
        ≡ some (r, e))
      × IsDaemon e
      × Added mem d apid ecu e r
unfolding add_application dlt_daemon_find_users_list
add_application_lem mem ipc d i u apid pid text fd ecu given id t first listed f =
    elim (make_table-IsUsers mem u (Every-at d.user_list i u f t)) [
      | inl (m, b) ↦ (none, d, rw (m, add_application) refl, t, no_first_block b)
      | inr (room, m, tv, l) ↦
          let v : DltDaemonRegisteredUsers = record u { application_room = room } in
          let d0 : DltDaemon = on_users d i (λ x. v) in
          let t0 : IsDaemon d0 = Every-put d.user_list i v t tv in
          let at0 : get_elem? d0.user_list i ≡ some v =
            get_elem?-modify (λ x. v) d.user_list i u f in
          let listed0 : dlt_daemon_find_users_list d0 ecu ≡ some i =
            find_ecu-modify ecu (λ x. v) d.user_list i u f refl ∙ listed in
          let by_number =
            find_application-index_of v.applications apid tv.applications.keys
              tv.applications.ascending id in
          elim (Option-cases (find_application v.applications apid)) [
            | inr (j, found) ↦
                let there = sym by_number ∙ found in
                let (p, e, eq, te, fe) =
                  register_old mem ipc ecu apid pid text fd given first id d0 i j v t0 listed0 at0
                    (index_of-length application_rank v.applications (rank apid) j there) there in
                (some p, e, rw (m, found, add_application) eq, te, added p.0 p.1 fe)
            | inl n ↦ elim (append_application-IsNew mem apid v id tv l (sym by_number ∙ n)) [
              | inl (a, b) ↦ (none, d0, rw (m, n, a, add_application) refl, t0, no_larger_block b)
              | inr (w, a, new, ecu_w, apps) ↦
                  let d1 : DltDaemon = on_users d i (λ x. w) in
                  let (p, e, eq, te, fe) =
                    register_new mem ipc ecu apid pid text fd given first id d1 i
                      (length u.applications) (AllBut-put (IsNew apid) d.user_list i u w f t new)
                      (find_ecu-modify ecu (λ x. w) d.user_list i u f ecu_w ∙ listed)
                      (
                        w,
                        get_elem?-modify (λ x. w) d.user_list i u f,
                        subst (λ xs. length u.applications < length xs) (sym apps)
                            (omega
                              (arith, length-append u.applications (blank_application apid ∷ []))),
                      ) in
                  (some p, e, rw (m, n, a, add_application) eq, te, added p.0 p.1 fe)
            ]
          ]
    ]

-- On tables in order, with a proper id and the memory for a description, no access is outside a block;
-- all tables are in order after it, and the result is as it should be.
pub dlt_daemon_application_add_lem :
    (mem : Memory) (ipc : Ipc) (d : DltDaemon) (apid : List ℕ) (pid : ℕ) (text : Option (List ℕ))
    (fd : ℕ) (ecu : List ℕ)
    → mem.description ≡ true
    → IsId apid
    → IsDaemon d
    → (r : Option (ℕ × ℕ)) × (e : DltDaemon) × (dlt_daemon_application_add mem ipc d apid pid text
          fd ecu
        ≡ some (r, e))
      × IsDaemon e
      × Added mem d apid ecu e r
unfolding dlt_daemon_application_add dlt_daemon_find_users_list
dlt_daemon_application_add_lem mem ipc d apid pid text fd ecu given id t =
    elim (Bool-cases (get_or apid 0 0 == 0)) [
      | inl z ↦ (none, d, rw z refl, t, empty_id ((==_iff (get_or apid 0 0) 0).0 z))
      | inr first ↦ elim (Option-cases (dlt_daemon_find_users_list d ecu)) [
        | inl n ↦ (none, d, rw (first, n) refl, t, no_list n)
        | inr (i, listed) ↦
            let (u, f) = find_ecu-element ecu d.user_list i listed in
            let (r, e, eq, te, out) =
              add_application_lem mem ipc d i u apid pid text fd ecu given id t first listed f in
            (r, e, rw (first, listed, f) eq, te, out)
      ]
    ]
