-- ===== src/Daemon/Same.antt =====
-- Changes of the daemon's tables (daemon/dlt_daemon_common.c) that leave every key where it is: handles, process
-- numbers, descriptions, levels and counts.
use lr.Base.{
  ℕ, zero, suc, ◌≡◌, refl, ap, ap₂, ◌∙◌, inl, inr, false, Option, some, List, [], ◌∷◌, length, ◌==◌,
  if◌then◌else◌, ◌>>=◌, Bool-cases, Option-cases,
}
use lr.Daemon.{
  DltDaemonApplication, DltDaemonContext, DltDaemonRegisteredUsers, DltDaemon, modify,
  release_applications, release_contexts, reset_counts, find_ecu, dlt_daemon_find_users_list,
  dlt_daemon_applications_invalidate_fd, dlt_daemon_contexts_invalidate_fd, same_ecu, fd_init,
}
use lr.Daemon.Applications.{on_application, reset_user_handle}

abbrev pub keys_of : {A K : Type 0} → (A → K) → List A → List K
keys_of key [] = []
keys_of key (x ∷ xs) = key x ∷ keys_of key xs

abbrev pub apid_of : DltDaemonApplication → List ℕ
apid_of a = a.apid

abbrev pub ids_of : DltDaemonContext → List ℕ × List ℕ
ids_of c = (c.apid, c.ctid)

pub length-keys_of :
    {A K : Type 0} (key : A → K) (xs : List A) → length (keys_of key xs) ≡ length xs
length-keys_of key [] = refl
length-keys_of key (x ∷ xs) = ap suc (length-keys_of key xs)

pub keys_of-modify :
    {A K : Type 0} (key : A → K) (f : A → A) (j : ℕ) (xs : List A)
    → ((x : A) → key (f x) ≡ key x)
    → keys_of key (modify j f xs) ≡ keys_of key xs
keys_of-modify key f j [] h = refl
keys_of-modify key f zero (x ∷ xs) h = ap (λ k. k ∷ keys_of key xs) (h x)
keys_of-modify key f (suc j) (x ∷ xs) h = ap (◌∷◌ (key x)) (keys_of-modify key f j xs h)

-- The same keys in the same blocks.
pub record SameUsers (u v : DltDaemonRegisteredUsers) : Type 0 where
  pub apids : keys_of apid_of v.applications ≡ keys_of apid_of u.applications
  pub application_room : v.application_room ≡ u.application_room
  pub ids : keys_of ids_of v.contexts ≡ keys_of ids_of u.contexts
  pub context_room : v.context_room ≡ u.context_room
  pub ecu : v.ecu ≡ u.ecu

abbrev pub SameLists : List DltDaemonRegisteredUsers → List DltDaemonRegisteredUsers → Type 0
SameLists [] [] = Unit {0}
SameLists [] (v ∷ vs) = ⊥
SameLists (u ∷ us) [] = ⊥
SameLists (u ∷ us) (v ∷ vs) = SameUsers u v × SameLists us vs

abbrev pub Same : DltDaemon → DltDaemon → Type 0
Same d e = SameLists d.user_list e.user_list

pub SameUsers-refl : (u : DltDaemonRegisteredUsers) → SameUsers u u
SameUsers-refl u = record {
  apids = refl;
  application_room = refl;
  ids = refl;
  context_room = refl;
  ecu = refl;
}

pub SameLists-refl : (us : List DltDaemonRegisteredUsers) → SameLists us us
SameLists-refl [] = tt
SameLists-refl (u ∷ us) = (SameUsers-refl u, SameLists-refl us)

SameUsers-trans : (u v w : DltDaemonRegisteredUsers) → SameUsers u v → SameUsers v w → SameUsers u w
SameUsers-trans u v w h k = record {
  apids = k.apids ∙ h.apids;
  application_room = k.application_room ∙ h.application_room;
  ids = k.ids ∙ h.ids;
  context_room = k.context_room ∙ h.context_room;
  ecu = k.ecu ∙ h.ecu;
}

pub SameLists-trans :
    (us vs ws : List DltDaemonRegisteredUsers) → SameLists us vs → SameLists vs ws → SameLists us ws
SameLists-trans [] [] [] h k = tt
SameLists-trans [] [] (w ∷ ws) h k = elim k [ ]
SameLists-trans [] (v ∷ vs) ws h k = elim h [ ]
SameLists-trans (u ∷ us) [] ws h k = elim h [ ]
SameLists-trans (u ∷ us) (v ∷ vs) [] h k = elim k [ ]
SameLists-trans (u ∷ us) (v ∷ vs) (w ∷ ws) h k =
    (SameUsers-trans u v w h.0 k.0, SameLists-trans us vs ws h.1 k.1)

pub SameLists-modify :
    (f : DltDaemonRegisteredUsers → DltDaemonRegisteredUsers) (i : ℕ)
    (us : List DltDaemonRegisteredUsers)
    → ((u : DltDaemonRegisteredUsers) → SameUsers u (f u))
    → SameLists us (modify i f us)
SameLists-modify f i [] h = tt
SameLists-modify f zero (u ∷ us) h = (h u, SameLists-refl us)
SameLists-modify f (suc i) (u ∷ us) h = (SameUsers-refl u, SameLists-modify f i us h)

-- The lists are found under the same ECUs.
pub find_ecu-SameLists :
    (ecu : List ℕ) (us vs : List DltDaemonRegisteredUsers)
    → SameLists us vs
    → find_ecu ecu vs ≡ find_ecu ecu us
unfolding find_ecu
find_ecu-SameLists ecu [] [] h = refl
find_ecu-SameLists ecu [] (v ∷ vs) h = elim h [ ]
find_ecu-SameLists ecu (u ∷ us) [] h = elim h [ ]
find_ecu-SameLists ecu (u ∷ us) (v ∷ vs) h =
    ap₂
      (λ (e : List ℕ) (o : Option ℕ). if same_ecu ecu e then some 0 else (o >>= λ i. some (suc i)))
      h.0.ecu (find_ecu-SameLists ecu us vs h.1)

apids-release :
    (fd : ℕ) (xs : List DltDaemonApplication)
    → keys_of apid_of (release_applications fd xs) ≡ keys_of apid_of xs
unfolding release_applications
apids-release fd [] = refl
apids-release fd (a ∷ xs) = elim (Bool-cases (a.user_handle == fd)) [
  | inl e ↦ rw e (ap (◌∷◌ a.apid) (apids-release fd xs))
  | inr e ↦ rw e (ap (◌∷◌ a.apid) (apids-release fd xs))
]

ids-release :
    (fd : ℕ) (xs : List DltDaemonContext)
    → keys_of ids_of (release_contexts fd xs) ≡ keys_of ids_of xs
unfolding release_contexts
ids-release fd [] = refl
ids-release fd (c ∷ xs) = elim (Bool-cases (c.user_handle == fd)) [
  | inl e ↦ rw e (ap (◌∷◌ (c.apid, c.ctid)) (ids-release fd xs))
  | inr e ↦ rw e (ap (◌∷◌ (c.apid, c.ctid)) (ids-release fd xs))
]

pub apids-reset_counts :
    (xs : List DltDaemonApplication) → keys_of apid_of (reset_counts xs) ≡ keys_of apid_of xs
unfolding reset_counts
apids-reset_counts [] = refl
apids-reset_counts (a ∷ xs) = ap (◌∷◌ a.apid) (apids-reset_counts xs)

pub applications_invalidate_fd-Same :
    (d : DltDaemon) (ecu : List ℕ) (fd : ℕ)
    → Same d (dlt_daemon_applications_invalidate_fd d ecu fd).1
unfolding dlt_daemon_applications_invalidate_fd
applications_invalidate_fd-Same d ecu fd = elim (Option-cases (dlt_daemon_find_users_list d ecu)) [
  | inl e ↦ rw (e, dlt_daemon_applications_invalidate_fd) (SameLists-refl d.user_list)
  | inr (i, e) ↦
      rw (e, dlt_daemon_applications_invalidate_fd)
        (SameLists-modify (λ u. record u { applications = release_applications fd u.applications })
          i d.user_list
          (λ u. record {
            apids = apids-release fd u.applications;
            application_room = refl;
            ids = refl;
            context_room = refl;
            ecu = refl;
          }))
]

pub contexts_invalidate_fd-Same :
    (d : DltDaemon) (ecu : List ℕ) (fd : ℕ) → Same d (dlt_daemon_contexts_invalidate_fd d ecu fd).1
unfolding dlt_daemon_contexts_invalidate_fd
contexts_invalidate_fd-Same d ecu fd = elim (Option-cases (dlt_daemon_find_users_list d ecu)) [
  | inl e ↦ rw (e, dlt_daemon_contexts_invalidate_fd) (SameLists-refl d.user_list)
  | inr (i, e) ↦
      rw (e, dlt_daemon_contexts_invalidate_fd)
        (SameLists-modify (λ u. record u { contexts = release_contexts fd u.contexts }) i
          d.user_list
          (λ u. record {
            apids = refl;
            application_room = refl;
            ids = ids-release fd u.contexts;
            context_room = refl;
            ecu = refl;
          }))
]

pub on_application-Same :
    (d : DltDaemon) (i j : ℕ) (f : DltDaemonApplication → DltDaemonApplication)
    → ((a : DltDaemonApplication) → (f a).apid ≡ a.apid)
    → Same d (on_application d i j f)
on_application-Same d i j f h =
    SameLists-modify (λ u. record u { applications = modify j f u.applications }) i d.user_list
      (λ u. record {
        apids = keys_of-modify apid_of f j u.applications h;
        application_room = refl;
        ids = refl;
        context_room = refl;
        ecu = refl;
      })

pub reset_user_handle-Same :
    (d : DltDaemon) (i j : ℕ) (a : DltDaemonApplication) → Same d (reset_user_handle d i j a)
unfolding reset_user_handle
reset_user_handle-Same d i j a = elim (Bool-cases (a.user_handle == fd_init)) [
  | inl e ↦ rw (e, reset_user_handle) (SameLists-refl d.user_list)
  | inr e ↦
      let d1 : DltDaemon = (dlt_daemon_contexts_invalidate_fd d d.ecuid a.user_handle).1 in
      let f = λ (b : DltDaemonApplication). record b {
        user_handle = fd_init;
        owns_user_handle = false;
      } in
      rw (e, reset_user_handle)
        (SameLists-trans d.user_list d1.user_list (on_application d1 i j f).user_list
          (contexts_invalidate_fd-Same d d.ecuid a.user_handle)
          (on_application-Same d1 i j f (λ b. refl)))
]
