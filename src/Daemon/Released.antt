-- ===== src/Daemon/Released.antt =====
-- `dlt_daemon_applications_invalidate_fd` and `dlt_daemon_contexts_invalidate_fd` of daemon/dlt_daemon_common.c: a
-- handle that is closed is not used any more.
use mathlib.Core.Path.{subst}
use lr.Base.{
  ℕ, ◌≡◌, ◌≢◌, refl, sym, ap, ◌∙◌, inl, inr, some, List, [], ◌∷◌, get_elem?, ◌==◌, ==→ne,
  Bool-cases, return_ok,
}
use lr.Search.Sorted.{Every}
use lr.Daemon.{
  DltDaemonApplication, DltDaemonContext, DltDaemonRegisteredUsers, DltDaemon, on_users,
  release_applications, release_contexts, fd_init, dlt_daemon_find_users_list,
  dlt_daemon_applications_invalidate_fd, dlt_daemon_contexts_invalidate_fd,
}
use lr.Daemon.Same.{
  Same, SameLists-trans, applications_invalidate_fd-Same, contexts_invalidate_fd-Same,
}
use lr.Daemon.Pending.{find_ecu-modify, get_elem?-modify}
use lr.Daemon.ApplicationAdd.{find_ecu-element}

release_applications-released :
    (fd : ℕ) (xs : List DltDaemonApplication)
    → fd ≢ fd_init
    → Every (λ a. a.user_handle ≢ fd) (release_applications fd xs)
unfolding release_applications
release_applications-released fd [] h = tt
release_applications-released fd (a ∷ xs) h = elim (Bool-cases (a.user_handle == fd)) [
  | inl e ↦ rw e ((λ q. h (sym q)), release_applications-released fd xs h)
  | inr e ↦ rw e (==→ne a.user_handle fd e, release_applications-released fd xs h)
]

release_contexts-released :
    (fd : ℕ) (xs : List DltDaemonContext)
    → fd ≢ fd_init
    → Every (λ c. c.user_handle ≢ fd) (release_contexts fd xs)
unfolding release_contexts
release_contexts-released fd [] h = tt
release_contexts-released fd (c ∷ xs) h = elim (Bool-cases (c.user_handle == fd)) [
  | inl e ↦ rw e ((λ q. h (sym q)), release_contexts-released fd xs h)
  | inr e ↦ rw e (==→ne c.user_handle fd e, release_contexts-released fd xs h)
]

-- After both calls for a handle of a listed ECU, neither an application nor a context of it has the
-- handle, and no key in any table has changed.
pub invalidate_fd-released :
    (d : DltDaemon) (ecu : List ℕ) (fd i : ℕ)
    → fd ≢ fd_init
    → dlt_daemon_find_users_list d ecu ≡ some i
    → (e : DltDaemon) × (v : DltDaemonRegisteredUsers) × (dlt_daemon_contexts_invalidate_fd
          (dlt_daemon_applications_invalidate_fd d ecu fd).1
          ecu
          fd
        ≡ (return_ok, e))
      × (get_elem? e.user_list i ≡ some v)
      × Every (λ a. a.user_handle ≢ fd) v.applications
      × Every (λ c. c.user_handle ≢ fd) v.contexts
      × Same d e
unfolding dlt_daemon_contexts_invalidate_fd dlt_daemon_applications_invalidate_fd
    dlt_daemon_find_users_list
invalidate_fd-released d ecu fd i h listed =
    let (u, f) = find_ecu-element ecu d.user_list i listed in
    let release = λ (w : DltDaemonRegisteredUsers). record w {
      applications = release_applications fd w.applications;
    } in
    let release2 =
      λ (w : DltDaemonRegisteredUsers). record w { contexts = release_contexts fd w.contexts } in
    let d1 : DltDaemon = on_users d i release in
    let e : DltDaemon = on_users d1 i release2 in
    let eq1 : (dlt_daemon_applications_invalidate_fd d ecu fd).1 ≡ d1 =
      rw (listed, dlt_daemon_applications_invalidate_fd) refl in
    let listed1 : dlt_daemon_find_users_list d1 ecu ≡ some i =
      find_ecu-modify ecu release d.user_list i u f refl ∙ listed in
    let at1 : get_elem? d1.user_list i ≡ some (release u) =
      get_elem?-modify release d.user_list i u f in
    let eq2 : dlt_daemon_contexts_invalidate_fd d1 ecu fd ≡ (return_ok, e) =
      rw (listed1, dlt_daemon_contexts_invalidate_fd) refl in
    let same1 : Same d d1 = subst (Same d) eq1 (applications_invalidate_fd-Same d ecu fd) in
    let same2 : Same d1 e = subst (λ p. Same d1 p.1) eq2 (contexts_invalidate_fd-Same d1 ecu fd) in
    (
      e,
      release2 (release u),
      ap (λ x. dlt_daemon_contexts_invalidate_fd x ecu fd) eq1 ∙ eq2,
      get_elem?-modify release2 d1.user_list i (release u) at1,
      release_applications-released fd u.applications h,
      release_contexts-released fd u.contexts h,
      SameLists-trans d.user_list d1.user_list e.user_list same1 same2,
    )
