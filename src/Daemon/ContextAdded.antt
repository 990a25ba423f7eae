-- ===== src/Daemon/ContextAdded.antt =====
-- `dlt_daemon_context_add` of daemon/dlt_daemon_common.c: the whole call on tables in order.
use mathlib.Core.Path.{subst}
use lr.Base.{
  ℕ, ◌<◌, ◌≡◌, refl, sym, ap, ◌∙◌, ◌||◌, ◌⊎◌, inl, inr, true, false, Option, none, some, List,
  arith, length, get_elem?, get_or, ◌==◌, Bool-cases, Option-cases,
}
use lr.Search.Order.{rank}
use lr.Daemon.{
  DltDaemonRegisteredUsers, DltDaemon, Memory, modify, on_users, dlt_daemon_find_users_list,
  make_table,
}
use lr.Daemon.Applications.{find_application, dlt_daemon_application_find}
use lr.Daemon.Tables.{make_table-IsRoom}
use lr.Daemon.Keys.{IsId}
use lr.Daemon.Same.{apid_of}
use lr.Daemon.Sound.{IsUsers, IsDaemon, Every-at}
use lr.Daemon.Pending.{get_elem?-modify, find_ecu-modify, AllBut-put}
use lr.Daemon.{DltDaemonContext}
use lr.Daemon.Same.{keys_of-modify}
use lr.Daemon.Find.{find_context-index_of}
use lr.Daemon.Contexts.{
  find_context, dlt_daemon_context_find, levels_ok, add_context, dlt_daemon_context_add,
  fill_context, on_context, sort_contexts, count_up, add_to,
}
use lr.Daemon.ApplicationAdd.{find_ecu-element}
use lr.Daemon.Pending.{Every-put}
use lr.Daemon.Sound.{IsTable-same}
use lr.Daemon.ContextAdd.{IsNewContext, append_context-IsNewContext, fill_old, fill_new}

-- What an addition returns, and which tables it leaves: the context is found where the result says, and
-- there is no result only for an empty id, a level or a status out of range, an ECU without a list, an
-- application that is not there, or no memory.
pub data ContextAdded (mem : Memory) (d : DltDaemon) (apid ctid ecu : List ℕ) (level status : ℕ)
    (e : DltDaemon) : Option (ℕ × ℕ) → Type 0 where
  added :
      (i j : ℕ)
      → dlt_daemon_context_find e apid ctid ecu ≡ some (i, j)
      → ContextAdded mem d apid ctid ecu level status e (some (i, j))
  empty_id :
      (get_or apid 0 0 == 0 || get_or ctid 0 0 == 0) ≡ true
      → ContextAdded mem d apid ctid ecu level status e none
  no_level : levels_ok level status ≡ false → ContextAdded mem d apid ctid ecu level status e none
  no_list :
      dlt_daemon_find_users_list d ecu ≡ none → ContextAdded mem d apid ctid ecu level status e none
  no_application :
      dlt_daemon_application_find d apid ecu ≡ none
      → ContextAdded mem d apid ctid ecu level status e none
  no_first_block : mem.first_block ≡ false → ContextAdded mem d apid ctid ecu level status e none
  no_larger_block : mem.larger_block ≡ false → ContextAdded mem d apid ctid ecu level status e none

make_table-IsUsers :
    (mem : Memory) (u : DltDaemonRegisteredUsers)
    → IsUsers u
    → ((make_table mem.first_block 1000 u.context_room ≡ none) × (mem.first_block ≡ false))
      ⊎ ((room : ℕ) × (make_table mem.first_block 1000 u.context_room ≡ some room)
          × IsUsers (record u { context_room = room })
          × (length u.contexts < room))
make_table-IsUsers mem u t =
    elim (make_table-IsRoom mem.first_block 1000 (length u.contexts) u.context_room (inr refl)
      t.contexts.in_block) [
        | inl (e, b) ↦ inl (e, b)
        | inr (room, e, v, l) ↦ inr (
          room,
          e,
          record {
            applications = t.applications;
            contexts = record {
              keys = t.contexts.keys;
              ascending = t.contexts.ascending;
              in_block = v;
            };
          },
          l,
        )
      ]

counted-IsNewContext :
    (apid ctid : List ℕ) (k : ℕ) (w : DltDaemonRegisteredUsers)
    → IsNewContext apid ctid w
    → IsNewContext apid ctid (record w { applications = modify k count_up w.applications })
counted-IsNewContext apid ctid k w t = record {
  applications =
      IsTable-same apid_of rank IsId 500 w.applications (modify k count_up w.applications)
        (keys_of-modify apid_of count_up k w.applications (λ a. refl)) w.application_room
        t.applications;
  contexts = t.contexts;
  there = t.there;
}

module _ (mem : Memory) (stale : DltDaemonContext) (apid ctid ecu : List ℕ)
    (level status pos handle : ℕ) (text : Option (List ℕ)) (id : IsId apid) (id2 : IsId ctid) where
  -- With the list `v` of the ECU, the one at `i`, that has a block for its contexts.
  add_to_lem :
      (d : DltDaemon) (i : ℕ) (v : DltDaemonRegisteredUsers) (k : ℕ)
      → IsDaemon d
      → (get_or apid 0 0 == 0 || get_or ctid 0 0 == 0) ≡ false
      → dlt_daemon_find_users_list d ecu ≡ some i
      → get_elem? d.user_list i ≡ some v
      → length v.contexts < v.context_room
      → (r : Option (ℕ × ℕ)) × (e : DltDaemon) × (add_to mem stale d i v k apid ctid level status
            pos handle text ecu
          ≡ some (r, e))
        × IsDaemon e
        × (((r ≡ none) × (mem.larger_block ≡ false))
            ⊎ ((p : ℕ × ℕ) × (r ≡ some p) × (dlt_daemon_context_find e apid ctid ecu ≡ some p)))
  unfolding add_to dlt_daemon_find_users_list
  add_to_lem d i v k t first listed f l =
      let tv : IsUsers v = Every-at d.user_list i v f t in
      let by_number =
        find_context-index_of v.contexts apid ctid tv.contexts.keys tv.contexts.ascending id id2 in
      elim (Option-cases (find_context v.contexts apid ctid)) [
        | inr (j, found) ↦
            let (te, fe) =
              fill_old mem stale apid ctid ecu level status pos handle text first id id2 d i j v t
                listed f (sym by_number ∙ found) in
            (
              some (i, j),
              on_context d i j (fill_context mem d ecu level status pos handle text false),
              rw (found, add_to) refl,
              te,
              inr ((i, j), refl, fe),
            )
        | inl n ↦
            elim (append_context-IsNewContext mem stale apid ctid v id id2 tv l
              (sym by_number ∙ n)) [
                | inl (a, b) ↦ (none, d, rw (n, a, add_to) refl, t, inl (refl, b))
                | inr (w, a, new, ecu_w) ↦
                    let w1 : DltDaemonRegisteredUsers = record w {
                      applications = modify k count_up w.applications;
                    } in
                    let d1 : DltDaemon = on_users d i (λ x. w1) in
                    let (p, te, fe) =
                      fill_new mem stale apid ctid ecu level status pos handle text first id id2 d
                        d1 i (length v.contexts)
                        (AllBut-put (IsNewContext apid ctid) d.user_list i v w1 f t
                          (counted-IsNewContext apid ctid k w new))
                        (find_ecu-modify ecu (λ x. w1) d.user_list i v f ecu_w ∙ listed) in
                    let e : DltDaemon =
                      sort_contexts
                        (on_context d1 i (length v.contexts)
                          (fill_context mem d ecu level status pos handle text true))
                        i in
                    (some p, e, rw (n, a, add_to) (ap (λ o. some (o, e)) fe), te, inr (p, refl, fe))
              ]
      ]

  -- With the list `u` of the ECU, the one at `i`.
  add_context_lem :
      (d : DltDaemon) (i : ℕ) (u : DltDaemonRegisteredUsers)
      → IsDaemon d
      → (get_or apid 0 0 == 0 || get_or ctid 0 0 == 0) ≡ false
      → dlt_daemon_find_users_list d ecu ≡ some i
      → get_elem? d.user_list i ≡ some u
      → (r : Option (ℕ × ℕ)) × (e : DltDaemon) × (add_context mem stale d i u apid ctid level status
            pos handle text ecu
          ≡ some (r, e))
        × IsDaemon e
        × ContextAdded mem d apid ctid ecu level status e r
  unfolding add_context dlt_daemon_find_users_list dlt_daemon_application_find
  add_context_lem d i u t first listed f =
      elim (make_table-IsUsers mem u (Every-at d.user_list i u f t)) [
        | inl (m, b) ↦ (none, d, rw (m, add_context) refl, t, no_first_block b)
        | inr (room, m, tv, l) ↦
            let v : DltDaemonRegisteredUsers = record u { context_room = room } in
            let d0 : DltDaemon = on_users d i (λ x. v) in
            let t0 : IsDaemon d0 = Every-put d.user_list i v t tv in
            elim (Option-cases (find_application u.applications apid)) [
              | inl n ↦
                  let first_apid : (get_or apid 0 0 == 0) ≡ false = ground arith in
                  let missing : dlt_daemon_application_find d apid ecu ≡ none =
                    rw (first_apid, listed, f, n) refl in
                  (none, d0, rw (m, n, add_context) refl, t0, no_application missing)
              | inr (k, found) ↦
                  let (r, e, eq, te, out) =
                    add_to_lem d0 i v k t0 first
                      (find_ecu-modify ecu (λ x. v) d.user_list i u f refl ∙ listed)
                      (get_elem?-modify (λ x. v) d.user_list i u f) l in
                  (
                    r,
                    e,
                    rw (m, found, add_context) eq,
                    te,
                    elim out [
                      | inl (z, b) ↦
                          subst (ContextAdded mem d apid ctid ecu level status e) (sym z)
                            (no_larger_block b)
                      | inr (p, z, fe) ↦
                          subst (ContextAdded mem d apid ctid ecu level status e) (sym z)
                            (added p.0 p.1 fe)
                    ],
                  )
            ]
      ]

-- On tables in order and with proper ids, no access is outside a block; all tables are in order after it,
-- and the result is as it should be.
pub dlt_daemon_context_add_lem :
    (mem : Memory) (stale : DltDaemonContext) (d : DltDaemon) (apid ctid : List ℕ)
    (level status pos handle : ℕ) (text : Option (List ℕ)) (ecu : List ℕ)
    → IsId apid
    → IsId ctid
    → IsDaemon d
    → (r : Option (ℕ × ℕ)) × (e : DltDaemon) × (dlt_daemon_context_add mem stale d apid ctid level
          status pos handle text ecu
        ≡ some (r, e))
      × IsDaemon e
      × ContextAdded mem d apid ctid ecu level status e r
unfolding dlt_daemon_context_add dlt_daemon_find_users_list
dlt_daemon_context_add_lem mem stale d apid ctid level status pos handle text ecu id id2 t =
    elim (Bool-cases (get_or apid 0 0 == 0 || get_or ctid 0 0 == 0)) [
      | inl z ↦ (none, d, rw z refl, t, empty_id z)
      | inr first ↦ elim (Bool-cases (levels_ok level status)) [
        | inr b ↦ (none, d, rw (first, b) refl, t, no_level b)
        | inl ok ↦ elim (Option-cases (dlt_daemon_find_users_list d ecu)) [
          | inl n ↦ (none, d, rw (first, ok, n) refl, t, no_list n)
          | inr (i, listed) ↦
              let (u, f) = find_ecu-element ecu d.user_list i listed in
              let (r, e, eq, te, out) =
                add_context_lem mem stale apid ctid ecu level status pos handle text id id2 d i u t
                  first listed f in
              (r, e, rw (first, ok, listed, f) eq, te, out)
        ]
      ]
    ]
