-- ===== src/Daemon/Sound.antt =====
-- The invariant of the daemon's tables (daemon/dlt_daemon_common.c): of every ECU both tables are in order, without
-- doubles, and in their blocks. It depends on the keys only, and the calls that take something away keep it.
use mathlib.Core.Path.{subst}
use lr.Base.{
  ℕ, zero, suc, ◌+◌, ◌*◌, ◌≡◌, refl, sym, ap, ◌∙◌, inl, inr, Option, none, some, List, [], ◌∷◌,
  ◌++◌, length, get_elem?, take, drop, if◌then◌else◌, ◌>>=◌, ◌==◌, get_or, Option-cases,
}
use lr.Search.Order.{rank}
use lr.Search.Sorted.{Every, nums, Ascending, Distinct}
use lr.Daemon.{
  DltDaemonRegisteredUsers, DltDaemon, modify, dlt_daemon_find_users_list,
  dlt_daemon_applications_clear, dlt_daemon_contexts_clear, reset_counts,
}
use lr.Daemon.Applications.{reset_user_handle, find_application, dlt_daemon_application_del}
use lr.Daemon.Contexts.{on_found, count_down, dlt_daemon_context_del}
use lr.Daemon.Tables.{IsRoom, IsTable, IsTable-nil, IsTable-without, IsUnsorted}
use lr.Daemon.Keys.{IsId, IsApplication, IsContext, application_rank, context_rank}
use lr.Daemon.Same.{
  keys_of, apid_of, ids_of, length-keys_of, keys_of-modify, SameUsers, SameLists, Same,
  apids-reset_counts, reset_user_handle-Same,
}

-- The two tables of an ECU.
pub record IsUsers (u : DltDaemonRegisteredUsers) : Type 0 where
  pub applications : IsTable application_rank IsApplication 500 u.applications u.application_room
  pub contexts : IsTable context_rank IsContext 1000 u.contexts u.context_room

abbrev pub IsDaemon : DltDaemon → Type 0
IsDaemon d = Every IsUsers d.user_list

-- A table is one by its keys.
module _ {A K : Type 0} (key : A → K) (num : K → ℕ) (IsKey : K → Type 0) (step : ℕ) where
  nums-keys_of : (xs : List A) → nums (λ x. num (key x)) xs ≡ nums num (keys_of key xs)
  nums-keys_of [] = refl
  nums-keys_of (x ∷ xs) = ap (◌∷◌ (num (key x))) (nums-keys_of xs)

  Every-keys_of : (xs : List A) → Every (λ x. IsKey (key x)) xs ≡ Every IsKey (keys_of key xs)
  Every-keys_of [] = refl
  Every-keys_of (x ∷ xs) = ap (λ T. IsKey (key x) × T) (Every-keys_of xs)

  module _ (xs ys : List A) (same : keys_of key ys ≡ keys_of key xs) where
    pub nums-same : nums (λ x. num (key x)) xs ≡ nums (λ x. num (key x)) ys
    nums-same = nums-keys_of xs ∙ ap (nums num) (sym same) ∙ sym (nums-keys_of ys)

    Every-same : Every (λ x. IsKey (key x)) xs → Every (λ x. IsKey (key x)) ys
    Every-same =
        subst (λ T. T) (Every-keys_of xs ∙ ap (Every IsKey) (sym same) ∙ sym (Every-keys_of ys))

    pub length-same : length xs ≡ length ys
    length-same = sym (length-keys_of key xs) ∙ ap length (sym same) ∙ length-keys_of key ys

    pub IsTable-same :
        (room : ℕ)
        → IsTable (λ x. num (key x)) (λ x. IsKey (key x)) step xs room
        → IsTable (λ x. num (key x)) (λ x. IsKey (key x)) step ys room
    IsTable-same room t = record {
      keys = Every-same t.keys;
      ascending = subst Ascending nums-same t.ascending;
      in_block = subst (λ n. IsRoom step n room) length-same t.in_block;
    }

    pub IsUnsorted-same :
        (room : ℕ)
        → IsUnsorted (λ x. num (key x)) (λ x. IsKey (key x)) step xs room
        → IsUnsorted (λ x. num (key x)) (λ x. IsKey (key x)) step ys room
    IsUnsorted-same room t = record {
      keys = Every-same t.keys;
      distinct = subst Distinct nums-same t.distinct;
      in_block = subst (λ n. IsRoom step n room) length-same t.in_block;
    }

abbrev pub ids_rank : List ℕ × List ℕ → ℕ
ids_rank k = 4294967296 * rank k.0 + rank k.1

abbrev pub IsIds : List ℕ × List ℕ → Type 0
IsIds k = IsId k.0 × IsId k.1

pub applications-same :
    (u v : DltDaemonRegisteredUsers)
    → SameUsers u v
    → IsTable application_rank IsApplication 500 u.applications u.application_room
    → IsTable application_rank IsApplication 500 v.applications v.application_room
applications-same u v h t =
    subst (IsTable application_rank IsApplication 500 v.applications) (sym h.application_room) (
      IsTable-same apid_of rank IsId 500 u.applications v.applications h.apids u.application_room t)

pub contexts-same :
    (u v : DltDaemonRegisteredUsers)
    → SameUsers u v
    → IsTable context_rank IsContext 1000 u.contexts u.context_room
    → IsTable context_rank IsContext 1000 v.contexts v.context_room
contexts-same u v h t =
    subst (IsTable context_rank IsContext 1000 v.contexts) (sym h.context_room)
      (IsTable-same ids_of ids_rank IsIds 1000 u.contexts v.contexts h.ids u.context_room t)

pub IsUsers-same : (u v : DltDaemonRegisteredUsers) → SameUsers u v → IsUsers u → IsUsers v
IsUsers-same u v h t = record {
  applications = applications-same u v h t.applications;
  contexts = contexts-same u v h t.contexts;
}

pub Every-SameLists :
    (us vs : List DltDaemonRegisteredUsers) → SameLists us vs → Every IsUsers us → Every IsUsers vs
Every-SameLists [] [] h t = tt
Every-SameLists [] (v ∷ vs) h t = elim h [ ]
Every-SameLists (u ∷ us) [] h t = elim h [ ]
Every-SameLists (u ∷ us) (v ∷ vs) h t = (IsUsers-same u v h.0 t.0, Every-SameLists us vs h.1 t.1)

pub IsDaemon-Same : (d e : DltDaemon) → Same d e → IsDaemon d → IsDaemon e
IsDaemon-Same d e h t = Every-SameLists d.user_list e.user_list h t

-- A change of one list that keeps the invariant of it.
pub Every-modify :
    (f : DltDaemonRegisteredUsers → DltDaemonRegisteredUsers) (i : ℕ)
    (us : List DltDaemonRegisteredUsers)
    → ((u : DltDaemonRegisteredUsers) → IsUsers u → IsUsers (f u))
    → Every IsUsers us
    → Every IsUsers (modify i f us)
Every-modify f i [] h t = tt
Every-modify f zero (u ∷ us) h t = (h u t.0, t.1)
Every-modify f (suc i) (u ∷ us) h t = (t.0, Every-modify f i us h t.1)

pub Every-at :
    (us : List DltDaemonRegisteredUsers) (i : ℕ) (u : DltDaemonRegisteredUsers)
    → get_elem? us i ≡ some u
    → Every IsUsers us
    → IsUsers u
Every-at [] i u e t = subst (λ o. elim o [ none ↦ Unit {0} | some w ↦ IsUsers w ]) e tt
Every-at (v ∷ us) zero u e t = subst (λ o. elim o [ none ↦ Unit {0} | some w ↦ IsUsers w ]) e t.0
Every-at (v ∷ us) (suc i) u e t = Every-at us i u e t.1

pub reset_counts-IsUsers :
    (u : DltDaemonRegisteredUsers)
    → IsUsers u
    → IsUsers
        (record u { contexts = []; context_room = 0; applications = reset_counts u.applications })
reset_counts-IsUsers u t = record {
  applications =
      IsTable-same apid_of rank IsId 500 u.applications (reset_counts u.applications)
        (apids-reset_counts u.applications) u.application_room t.applications;
  contexts = IsTable-nil context_rank IsContext 1000 (inr refl);
}

pub applications_clear-IsDaemon :
    (d : DltDaemon) (ecu : List ℕ) → IsDaemon d → IsDaemon (dlt_daemon_applications_clear d ecu).1
unfolding dlt_daemon_applications_clear
applications_clear-IsDaemon d ecu t = elim (Option-cases (dlt_daemon_find_users_list d ecu)) [
  | inl e ↦ rw (e, dlt_daemon_applications_clear) t
  | inr (i, e) ↦
      rw (e, dlt_daemon_applications_clear)
        (Every-modify (λ u. record u { applications = []; application_room = 0 }) i d.user_list
          (λ u k. record {
            applications = IsTable-nil application_rank IsApplication 500 (inl refl);
            contexts = k.contexts;
          })
          t)
]

pub contexts_clear-IsDaemon :
    (d : DltDaemon) (ecu : List ℕ) → IsDaemon d → IsDaemon (dlt_daemon_contexts_clear d ecu).1
unfolding dlt_daemon_contexts_clear
contexts_clear-IsDaemon d ecu t = elim (Option-cases (dlt_daemon_find_users_list d ecu)) [
  | inl e ↦ rw (e, dlt_daemon_contexts_clear) t
  | inr (i, e) ↦
      rw (e, dlt_daemon_contexts_clear)
        (Every-modify
          (λ u. record u {
            contexts = [];
            context_room = 0;
            applications = reset_counts u.applications;
          })
          i d.user_list reset_counts-IsUsers t)
]

pub application_del-IsDaemon :
    (d : DltDaemon) (j : ℕ) (ecu : List ℕ)
    → IsDaemon d
    → IsDaemon (dlt_daemon_application_del d j ecu).1
unfolding dlt_daemon_application_del
application_del-IsDaemon d j ecu t = elim (Option-cases (dlt_daemon_find_users_list d ecu)) [
  | inl e ↦ rw (e, dlt_daemon_application_del) t
  | inr (i, e) ↦
      rw (e, dlt_daemon_application_del)
        (elim (Option-cases (get_elem? d.user_list i >>= λ u. get_elem? u.applications j)) [
          | inl f ↦ rw f t
          | inr (a, f) ↦ rw f (
              Every-modify
                (λ u. record u {
                  applications = take j u.applications ++ drop (j + 1) u.applications;
                })
                i (reset_user_handle d i j a).user_list
                (λ u k. record {
                  applications =
                      IsTable-without application_rank IsApplication 500 u.applications
                        u.application_room j k.applications;
                  contexts = k.contexts;
                })
                (IsDaemon-Same d (reset_user_handle d i j a) (reset_user_handle-Same d i j a) t))
        ])
]

on_found-IsUsers :
    (o : Option ℕ) (u : DltDaemonRegisteredUsers) → IsUsers u → IsUsers (on_found o u)
on_found-IsUsers none u t = t
on_found-IsUsers (some k) u t = record {
  applications =
      IsTable-same apid_of rank IsId 500 u.applications (modify k count_down u.applications)
        (keys_of-modify apid_of count_down k u.applications (λ a. refl)) u.application_room
        t.applications;
  contexts = t.contexts;
}

pub context_del-IsDaemon :
    (d : DltDaemon) (j : ℕ) (ecu : List ℕ)
    → IsDaemon d
    → IsDaemon (dlt_daemon_context_del d j ecu).1
unfolding dlt_daemon_context_del
context_del-IsDaemon d j ecu t = elim (Option-cases (dlt_daemon_find_users_list d ecu)) [
  | inl e ↦ rw (e, dlt_daemon_context_del) t
  | inr (i, e) ↦
      rw (e, dlt_daemon_context_del)
        (elim (Option-cases (get_elem? d.user_list i >>= λ u. get_elem? u.contexts j)) [
          | inl f ↦ rw f t
          | inr (c, f) ↦ rw f (
              Every-modify _ i d.user_list
                (λ u k.
                  on_found-IsUsers
                    (if get_or c.apid 0 0 == 0
                      then none
                      else find_application u.applications c.apid)
                    (record u { contexts = take j u.contexts ++ drop (j + 1) u.contexts })
                    (record {
                      applications = k.applications;
                      contexts =
                          IsTable-without context_rank IsContext 1000 u.contexts u.context_room j
                            k.contexts;
                    }))
                t)
        ])
]
