-- ===== src/Daemon/Deleted.antt =====
-- `dlt_daemon_application_del` and `dlt_daemon_context_del` of daemon/dlt_daemon_common.c: what is deleted is not found.
use mathlib.Core.Path.{subst}
use lr.Base.{
  ℕ, zero, suc, ◌+◌, ◌≡◌, refl, sym, ap, ◌∙◌, ◌||◌, inl, inr, Option, none, some, List, [], ◌∷◌,
  ◌++◌, arith, get_elem?, get_or, take, drop, ==_iff, if◌then◌else◌, ◌>>=◌, ◌==◌, Bool-cases,
  Option-cases,
}
use lr.Search.{index_of}
use lr.Search.Order.{rank}
use lr.Search.Sorted.{AllAbove, Ascending, AllAbove-NotIn, nums}
use lr.Search.Found.{none_some, some_inj, NotIn-index_of, index_of-length, some_inj}
use lr.Daemon.{DltDaemonRegisteredUsers, DltDaemon, on_users, find_ecu, dlt_daemon_find_users_list}
use lr.Daemon.Applications.{
  find_application, dlt_daemon_application_find, reset_user_handle, dlt_daemon_application_del,
}
use lr.Daemon.Keys.{IsId, application_rank, context_rank}
use lr.Daemon.Same.{apid_of, Same, find_ecu-SameLists, reset_user_handle-Same}
use lr.Daemon.Sound.{IsUsers, IsDaemon, nums-same, IsDaemon-Same, Every-at}
use lr.Daemon.Register.{get_elem?-SameLists, element}
use lr.Daemon.Pending.{get_elem?-modify, find_ecu-modify}
use lr.Daemon.Contexts.{dlt_daemon_context_find, on_found, dlt_daemon_context_del}
use lr.Daemon.ApplicationAdd.{find_ecu-element, application_find-index_of}
use lr.Daemon.ContextAdd.{pair_rank, context_find-index_of}
use lr.Daemon.Sound.{application_del-IsDaemon, context_del-IsDaemon}

-- The number at the index that is taken away is not there any more.
index_of-without :
    {A : Type 0} (num : A → ℕ) (r j : ℕ) (xs : List A)
    → Ascending (nums num xs)
    → index_of r (nums num xs) ≡ some j
    → index_of r (nums num (take j xs ++ drop (suc j) xs)) ≡ none
unfolding index_of
index_of-without num r j [] asc e = none_some j e
index_of-without num r zero (x ∷ xs) asc e = elim (Bool-cases (r == num x)) [
  | inl s ↦
      let same : num x ≡ r = sym ((==_iff r (num x)).0 s) in
      NotIn-index_of r (nums num xs)
        (AllAbove-NotIn r (nums num xs) (subst (λ n. AllAbove n (nums num xs)) same asc.0))
  | inr s ↦ elim (Option-cases (index_of r (nums num xs))) [
    | inl n ↦ none_some 0 (rw (s, n) at e)
    | inr (k, n) ↦ absurd (omega (arith, some_inj (rw (s, n) at e)))
  ]
]
index_of-without num r (suc j) (x ∷ xs) asc e = elim (Bool-cases (r == num x)) [
  | inl s ↦ absurd (omega (arith, some_inj (rw s at e)))
  | inr s ↦ elim (Option-cases (index_of r (nums num xs))) [
    | inl n ↦ none_some (suc j) (rw (s, n) at e)
    | inr (k, n) ↦
        let same : k ≡ j = omega (arith, some_inj (rw (s, n) at e)) in
        rw (s, index_of-without num r j xs asc.1 (n ∙ ap some same)) refl
  ]
]

pair_index :
    (o : Option ℕ) (i k j : ℕ) → ◌>>=◌ {B = ℕ × ℕ} o (λ m. some (i, m)) ≡ some (k, j) → o ≡ some j
pair_index none i k j e = none_some (k, j) e
pair_index (some m) i k j e =
    ap (λ (p : Option (ℕ × ℕ)). elim p [ none ↦ none | some q ↦ some q.1 ]) e

-- An application that is deleted is not found any more.
pub application_del-gone :
    (d : DltDaemon) (apid ecu : List ℕ) (i j : ℕ)
    → IsId apid
    → IsDaemon d
    → dlt_daemon_application_find d apid ecu ≡ some (i, j)
    → dlt_daemon_application_find (dlt_daemon_application_del d j ecu).1 apid ecu ≡ none
unfolding dlt_daemon_application_find dlt_daemon_application_del dlt_daemon_find_users_list
application_del-gone d apid ecu i j id t found = elim (Bool-cases (get_or apid 0 0 == 0)) [
  | inl z ↦ rw z refl
  | inr first ↦ elim (Option-cases (find_ecu ecu d.user_list)) [
    | inl n ↦ none_some (i, j) (rw (first, n) at found)
    | inr (k, listed) ↦
        let (u, f) = find_ecu-element ecu d.user_list k listed in
        let tu : IsUsers u = Every-at d.user_list k u f t in
        let at_j : index_of (rank apid) (nums application_rank u.applications) ≡ some j =
          pair_index (index_of (rank apid) (nums application_rank u.applications)) k i j
            (sym (application_find-index_of d apid ecu k u first id listed f tu) ∙ found) in
        let (a, there) =
          element u.applications j
            (index_of-length application_rank u.applications (rank apid) j at_j) in
        let d1 : DltDaemon = reset_user_handle d k j a in
        let same : Same d d1 = reset_user_handle-Same d k j a in
        let (v, g, s) = get_elem?-SameLists d.user_list d1.user_list k u same f in
        let cut = λ (w : DltDaemonRegisteredUsers). record w {
          applications = take j w.applications ++ drop (j + 1) w.applications;
        } in
        let e : DltDaemon = on_users d1 k cut in
        let del_e : (dlt_daemon_application_del d j ecu).1 ≡ e =
          rw (listed, f, there, dlt_daemon_application_del) refl in
        let listed_e : dlt_daemon_find_users_list e ecu ≡ some k =
          find_ecu-modify ecu cut d1.user_list k v g refl
          ∙ find_ecu-SameLists ecu d.user_list d1.user_list same
          ∙ listed in
        let at_e : get_elem? e.user_list k ≡ some (cut v) =
          get_elem?-modify cut d1.user_list k v g in
        let te : IsDaemon e = subst IsDaemon del_e (application_del-IsDaemon d j ecu t) in
        let tv : IsUsers v = Every-at d1.user_list k v g (IsDaemon-Same d d1 same t) in
        let at_v : index_of (rank apid) (nums application_rank v.applications) ≡ some j =
          ap (index_of (rank apid))
            (sym (nums-same apid_of rank IsId 500 u.applications v.applications s.apids))
          ∙ at_j in
        let gone : index_of (rank apid)
              (nums application_rank (take j v.applications ++ drop (j + 1) v.applications))
            ≡ none =
          subst
            (λ n.
              index_of (rank apid)
                (nums application_rank (take j v.applications ++ drop n v.applications))
              ≡ none)
            {x = suc j} {y = j + 1} (omega arith)
            (index_of-without application_rank (rank apid) j v.applications
              tv.applications.ascending at_v) in
        ap (λ x. dlt_daemon_application_find x apid ecu) del_e
        ∙ application_find-index_of e apid ecu k (cut v) first id listed_e at_e
            (Every-at e.user_list k (cut v) at_e te)
        ∙ ap (λ o. o >>= λ m. some (k, m)) gone
  ]
]

-- A context that is deleted is not found any more.
pub context_del-gone :
    (d : DltDaemon) (apid ctid ecu : List ℕ) (i j : ℕ)
    → IsId apid
    → IsId ctid
    → IsDaemon d
    → dlt_daemon_context_find d apid ctid ecu ≡ some (i, j)
    → dlt_daemon_context_find (dlt_daemon_context_del d j ecu).1 apid ctid ecu ≡ none
unfolding dlt_daemon_context_find dlt_daemon_context_del dlt_daemon_find_users_list
context_del-gone d apid ctid ecu i j id id2 t found =
    elim (Bool-cases (get_or apid 0 0 == 0 || get_or ctid 0 0 == 0)) [
      | inl z ↦ rw z refl
      | inr first ↦ elim (Option-cases (find_ecu ecu d.user_list)) [
        | inl n ↦ none_some (i, j) (rw (first, n) at found)
        | inr (k, listed) ↦
            let (u, f) = find_ecu-element ecu d.user_list k listed in
            let tu : IsUsers u = Every-at d.user_list k u f t in
            let r : ℕ = pair_rank apid ctid in
            let at_j : index_of r (nums context_rank u.contexts) ≡ some j =
              pair_index (index_of r (nums context_rank u.contexts)) k i j (
                sym (context_find-index_of d apid ctid ecu k u first id id2 listed f tu) ∙ found) in
            let (c, there) =
              element u.contexts j (index_of-length context_rank u.contexts r j at_j) in
            let cut = λ (w : DltDaemonRegisteredUsers).
              on_found
                (if get_or c.apid 0 0 == 0 then none else find_application w.applications c.apid)
                (record w { contexts = take j w.contexts ++ drop (j + 1) w.contexts }) in
            let e : DltDaemon = on_users d k cut in
            let del_e : (dlt_daemon_context_del d j ecu).1 ≡ e =
              rw (listed, f, there, dlt_daemon_context_del) refl in
            let o : Option ℕ =
              if get_or c.apid 0 0 == 0 then none else find_application u.applications c.apid in
            let w : DltDaemonRegisteredUsers = record u {
              contexts = take j u.contexts ++ drop (j + 1) u.contexts;
            } in
            let listed_e : dlt_daemon_find_users_list e ecu ≡ some k =
              find_ecu-modify ecu cut d.user_list k u f (ecu-on_found o w) ∙ listed in
            let at_e : get_elem? e.user_list k ≡ some (cut u) =
              get_elem?-modify cut d.user_list k u f in
            let te : IsDaemon e = subst IsDaemon del_e (context_del-IsDaemon d j ecu t) in
            let gone : index_of r (nums context_rank (take j u.contexts ++ drop (j + 1) u.contexts))
                ≡ none =
              subst
                (λ n.
                  index_of r (nums context_rank (take j u.contexts ++ drop n u.contexts)) ≡ none)
                {x = suc j} {y = j + 1} (omega arith)
                (index_of-without context_rank r j u.contexts tu.contexts.ascending at_j) in
            ap (λ x. dlt_daemon_context_find x apid ctid ecu) del_e
            ∙ context_find-index_of e apid ctid ecu k (cut u) first id id2 listed_e at_e
                (Every-at e.user_list k (cut u) at_e te)
            ∙ ap (λ xs. index_of r (nums context_rank xs) >>= λ m. some (k, m))
                (contexts-on_found o w)
            ∙ ap (λ p. p >>= λ m. some (k, m)) gone
      ]
    ]
  where
    ecu-on_found : (o : Option ℕ) (w : DltDaemonRegisteredUsers) → (on_found o w).ecu ≡ w.ecu
    ecu-on_found none w = refl
    ecu-on_found (some k) w = refl

    contexts-on_found :
        (o : Option ℕ) (w : DltDaemonRegisteredUsers) → (on_found o w).contexts ≡ w.contexts
    contexts-on_found none w = refl
    contexts-on_found (some k) w = refl
