-- ===== src/Daemon/Register.antt =====
-- The steps behind `dlt_daemon_application_add` of daemon/dlt_daemon_common.c that write the entry: none fails where
-- the memory for the description is given, and the keys stay where they are.
use mathlib.Core.Path.{subst}
use lr.Base.{
  ℕ, zero, suc, ◌<◌, ◌≡◌, refl, inl, inr, Bool, true, false, not, Option, none, some, List, [], ◌∷◌,
  arith, length, get_elem?, ◌==◌, ◌&&◌, Bool-cases,
}
use lr.Daemon.{
  DltDaemonApplication, DltDaemonRegisteredUsers, DltDaemon, Memory, fd_init,
  dlt_daemon_applications_invalidate_fd, dlt_daemon_contexts_invalidate_fd,
}
use lr.Daemon.Applications.{
  Ipc, on_application, reset_user_handle, open_handle, set_description, set_process, connect,
  sort_applications, register, dlt_daemon_application_find,
}
use lr.Daemon.Same.{
  apid_of, SameUsers, SameLists, SameLists-refl, SameLists-trans, Same, on_application-Same,
  reset_user_handle-Same, applications_invalidate_fd-Same, contexts_invalidate_fd-Same,
}
use lr.Daemon.Sound.{length-same}
use lr.Daemon.Keys.{IsId}
use lr.Search.Order.{rank}

pub element :
    {A : Type 0} (xs : List A) (i : ℕ) → i < length xs → (x : A) × (get_elem? xs i ≡ some x)
element [] i l = absurd (omega arith)
element (x ∷ xs) zero l = (x, refl)
element (x ∷ xs) (suc i) l = element xs i (omega arith)

-- The list `i` has an application `j`.
abbrev pub HasApplication : DltDaemon → ℕ → ℕ → Type 0
HasApplication d i j =
    (u : DltDaemonRegisteredUsers) × (get_elem? d.user_list i ≡ some u)
    × (j < length u.applications)

pub get_elem?-SameLists :
    (us vs : List DltDaemonRegisteredUsers) (i : ℕ) (u : DltDaemonRegisteredUsers)
    → SameLists us vs
    → get_elem? us i ≡ some u
    → (v : DltDaemonRegisteredUsers) × (get_elem? vs i ≡ some v) × SameUsers u v
get_elem?-SameLists [] [] i u h e =
    absurd (subst (λ o. elim o [ none ↦ Unit {0} | some w ↦ ⊥ ]) e tt)
get_elem?-SameLists [] (v ∷ vs) i u h e = elim h [ ]
get_elem?-SameLists (w ∷ us) [] i u h e = elim h [ ]
get_elem?-SameLists (w ∷ us) (v ∷ vs) zero u h e =
    (v, refl, subst (λ o. elim o [ none ↦ Unit {0} | some x ↦ SameUsers x v ]) e h.0)
get_elem?-SameLists (w ∷ us) (v ∷ vs) (suc i) u h e = get_elem?-SameLists us vs i u h.1 e

pub HasApplication-Same :
    (d e : DltDaemon) (i j : ℕ) → Same d e → HasApplication d i j → HasApplication e i j
HasApplication-Same d e i j h (u, q, l) =
    let (v, r, s) = get_elem?-SameLists d.user_list e.user_list i u h q in
    (
      v,
      r,
      omega (arith, l, length-same apid_of rank IsId 500 u.applications v.applications s.apids),
    )

Same-trans : (a b c : DltDaemon) → Same a b → Same b c → Same a c
Same-trans a b c = SameLists-trans a.user_list b.user_list c.user_list

module _ (mem : Memory) (given : mem.description ≡ true) where
  set_description-Same :
      (text : Option (List ℕ)) (d : DltDaemon) (i j : ℕ)
      → (e : DltDaemon) × (set_description mem text d i j ≡ some e) × Same d e
  unfolding set_description
  set_description-Same none d i j = (
    _,
    refl,
    on_application-Same d i j (λ a. record a { application_description = none }) (λ a. refl),
  )
  set_description-Same (some text) d i j = (
    on_application d i j (λ a. record a { application_description = some text }),
    rw given refl,
    on_application-Same d i j (λ a. record a { application_description = some text }) (λ a. refl),
  )

set_process-Same :
    (d : DltDaemon) (i j pid : ℕ)
    → HasApplication d i j
    → (e : DltDaemon) × (set_process d i j pid ≡ some e) × Same d e
unfolding set_process
set_process-Same d i j pid (u, q, l) =
    let (a, r) = element u.applications j l in
    elim (Bool-cases (a.pid == pid)) [
      | inl e ↦ (d, rw (q, r, e) refl, SameLists-refl d.user_list)
      | inr e ↦
          let d1 : DltDaemon = reset_user_handle d i j a in
          let f = λ (b : DltDaemonApplication). record b { pid = 0 } in
          (
            on_application d1 i j f,
            rw (q, r, e) refl,
            Same-trans d d1 (on_application d1 i j f) (reset_user_handle-Same d i j a)
                (on_application-Same d1 i j f (λ b. refl)),
          )
    ]

connect-Same :
    (ipc : Ipc) (ecu : List ℕ) (d : DltDaemon) (i j pid fd : ℕ)
    → HasApplication d i j
    → (e : DltDaemon) × (connect ipc ecu d i j pid fd ≡ some e) × Same d e
unfolding connect
connect-Same ipc ecu d i j pid fd (u, q, l) =
    let (a, r) = element u.applications j l in
    elim (Bool-cases (a.user_handle == fd_init && not (pid == 0))) [
      | inr e ↦ (d, rw (q, r, e) refl, SameLists-refl d.user_list)
      | inl e ↦
          let handle : ℕ = (open_handle ipc pid fd).0 in
          let owns : Bool = (open_handle ipc pid fd).1 in
          let d1 : DltDaemon = (dlt_daemon_applications_invalidate_fd d ecu handle).1 in
          let d2 : DltDaemon = (dlt_daemon_contexts_invalidate_fd d1 ecu handle).1 in
          let f = λ (b : DltDaemonApplication). record b {
            user_handle = handle;
            owns_user_handle = owns;
            pid = pid;
          } in
          (
            on_application d2 i j f,
            rw (q, r, e) refl,
            Same-trans d d1 (on_application d2 i j f) (applications_invalidate_fd-Same d ecu handle)
                (Same-trans d1 d2 (on_application d2 i j f)
                  (contexts_invalidate_fd-Same d1 ecu handle)
                  (on_application-Same d2 i j f (λ b. refl))),
          )
    ]

-- With the memory for the description, an entry that is there is written, the keys unchanged; the result
-- is the entry, or for a new one what the search finds in the table that is put in order.
pub register-Same :
    (mem : Memory) (ipc : Ipc) (ecu apid : List ℕ) (pid : ℕ) (text : Option (List ℕ)) (fd : ℕ)
    (d : DltDaemon) (i j : ℕ)
    → mem.description ≡ true
    → HasApplication d i j
    → (e : DltDaemon) × Same d e
      × (register mem ipc ecu apid pid text fd false d i j ≡ some (some (i, j), e))
      × (register mem ipc ecu apid pid text fd true d i j
          ≡ some
              (dlt_daemon_application_find (sort_applications e i) apid ecu, sort_applications e i))
unfolding register
register-Same mem ipc ecu apid pid text fd d i j given has =
    let (d1, e1, s1) = set_description-Same mem given text d i j in
    let has1 : HasApplication d1 i j = HasApplication-Same d d1 i j s1 has in
    let (d2, e2, s2) = set_process-Same d1 i j pid has1 in
    let (d3, e3, s3) = connect-Same ipc ecu d2 i j pid fd (HasApplication-Same d1 d2 i j s2 has1) in
    (
      d3,
      Same-trans d d1 d3 s1 (Same-trans d1 d2 d3 s2 s3),
      rw (e1, e2, e3) refl,
      rw (e1, e2, e3) refl,
    )
