-- ===== src/Daemon/Pending.antt =====
-- The tables of the daemon (daemon/dlt_daemon_common.c) in the middle of an addition: one list is not in order yet.
use mathlib.Core.Path.{subst}
use lr.Base.{
  ℕ, zero, suc, ◌≡◌, refl, sym, ap, Option, none, some, List, [], ◌∷◌, get_elem?, if◌then◌else◌,
  ◌>>=◌,
}
use lr.Search.Sorted.{Every}
use lr.Search.Found.{none_some}
use lr.Daemon.{DltDaemonRegisteredUsers, modify, find_ecu, same_ecu}
use lr.Daemon.Same.{SameUsers, SameLists}
use lr.Daemon.Sound.{IsUsers, IsUsers-same, Every-SameLists}

-- All lists are as they should be, only for the list `i` the condition is another one.
abbrev pub AllBut : (DltDaemonRegisteredUsers → Type 0) → ℕ → List DltDaemonRegisteredUsers → Type 0
AllBut Q i [] = ⊥
AllBut Q zero (u ∷ us) = Q u × Every IsUsers us
AllBut Q (suc i) (u ∷ us) = IsUsers u × AllBut Q i us

pub get_elem?-modify :
    (f : DltDaemonRegisteredUsers → DltDaemonRegisteredUsers) (us : List DltDaemonRegisteredUsers)
    (i : ℕ) (u : DltDaemonRegisteredUsers)
    → get_elem? us i ≡ some u
    → get_elem? (modify i f us) i ≡ some (f u)
get_elem?-modify f [] i u e = none_some u e
get_elem?-modify f (v ∷ us) zero u e = ap (λ o. o >>= λ w. some (f w)) e
get_elem?-modify f (v ∷ us) (suc i) u e = get_elem?-modify f us i u e

-- The lists are found as before where the ECU of the changed list is the same.
pub find_ecu-modify :
    (ecu : List ℕ) (f : DltDaemonRegisteredUsers → DltDaemonRegisteredUsers)
    (us : List DltDaemonRegisteredUsers) (i : ℕ) (u : DltDaemonRegisteredUsers)
    → get_elem? us i ≡ some u
    → (f u).ecu ≡ u.ecu
    → find_ecu ecu (modify i f us) ≡ find_ecu ecu us
unfolding find_ecu
find_ecu-modify ecu f [] i u e h = refl
find_ecu-modify ecu f (v ∷ us) zero u e h =
    ap (λ s. if same_ecu ecu s then some 0 else (find_ecu ecu us >>= λ i. some (suc i)))
      (subst (λ o. elim o [ none ↦ Unit {0} | some w ↦ (f w).ecu ≡ w.ecu ]) (sym e) h)
find_ecu-modify ecu f (v ∷ us) (suc i) u e h =
    ap (λ (o : Option ℕ). if same_ecu ecu v.ecu then some 0 else (o >>= λ i. some (suc i)))
      (find_ecu-modify ecu f us i u e h)

module _ (Q : DltDaemonRegisteredUsers → Type 0) where
  -- The list `i` put in the place of another.
  pub AllBut-put :
      (us : List DltDaemonRegisteredUsers) (i : ℕ) (u w : DltDaemonRegisteredUsers)
      → get_elem? us i ≡ some u
      → Every IsUsers us
      → Q w
      → AllBut Q i (modify i (λ x. w) us)
  AllBut-put [] i u w e t q = none_some u e
  AllBut-put (v ∷ us) zero u w e t q = (q, t.1)
  AllBut-put (v ∷ us) (suc i) u w e t q = (t.0, AllBut-put us i u w e t.1 q)

  pub AllBut-same :
      (us vs : List DltDaemonRegisteredUsers) (i : ℕ)
      → ((u v : DltDaemonRegisteredUsers) → SameUsers u v → Q u → Q v)
      → SameLists us vs
      → AllBut Q i us
      → AllBut Q i vs
  AllBut-same [] vs i keep h t = elim t [ ]
  AllBut-same (u ∷ us) [] i keep h t = elim h [ ]
  AllBut-same (u ∷ us) (v ∷ vs) zero keep h t = (keep u v h.0 t.0, Every-SameLists us vs h.1 t.1)
  AllBut-same (u ∷ us) (v ∷ vs) (suc i) keep h t =
      (IsUsers-same u v h.0 t.0, AllBut-same us vs i keep h.1 t.1)

  -- The list `i` put in order.
  pub AllBut-modify :
      (f : DltDaemonRegisteredUsers → DltDaemonRegisteredUsers) (us : List DltDaemonRegisteredUsers)
      (i : ℕ)
      → ((u : DltDaemonRegisteredUsers) → Q u → IsUsers (f u))
      → AllBut Q i us
      → Every IsUsers (modify i f us)
  AllBut-modify f [] i h t = elim t [ ]
  AllBut-modify f (u ∷ us) zero h t = (h u t.0, t.1)
  AllBut-modify f (u ∷ us) (suc i) h t = (t.0, AllBut-modify f us i h t.1)

  pub AllBut-at :
      (us : List DltDaemonRegisteredUsers) (i : ℕ)
      → AllBut Q i us
      → (u : DltDaemonRegisteredUsers) × (get_elem? us i ≡ some u) × Q u
  AllBut-at [] i t = elim t [ ]
  AllBut-at (u ∷ us) zero t = (u, refl, t.0)
  AllBut-at (u ∷ us) (suc i) t = AllBut-at us i t.1

pub Every-put :
    (us : List DltDaemonRegisteredUsers) (i : ℕ) (w : DltDaemonRegisteredUsers)
    → Every IsUsers us
    → IsUsers w
    → Every IsUsers (modify i (λ x. w) us)
Every-put [] i w t q = tt
Every-put (v ∷ us) zero w t q = (q, t.1)
Every-put (v ∷ us) (suc i) w t q = (t.0, Every-put us i w t.1 q)
