-- ===== src/Daemon/ContextAdd.antt =====
-- `dlt_daemon_context_add` of daemon/dlt_daemon_common.c behind the choice of the application: the entry that is
-- filled, and the new one that is put in order.
use mathlib.Core.Path.{subst}
use lr.Base.{
  ℕ, ◌+◌, ◌<◌, ◌≡◌, ◌≢◌, refl, sym, ap, ap₂, ◌∙◌, ◌*◌, not, ◌||◌, ◌⊎◌, inl, inr, Bool, true, false,
  Option, none, some, List, [], ◌∷◌, ◌++◌, length, get_elem?, get_or, ◌>>=◌, ◌==◌, Bool-cases,
  Option-cases,
}
use lr.Search.{qsort, index_of}
use lr.Search.Order.{rank}
use lr.Search.Sorted.{nums, nums-append}
use lr.Search.Found.{index_of-last, index_of-NotIn, index_of-qsort}
use lr.Daemon.{DltDaemonRegisteredUsers, DltDaemon, Memory, modify, dlt_daemon_find_users_list}
use lr.Daemon.Tables.{IsTable, IsUnsorted, IsTable-IsUnsorted, IsUnsorted-qsort, grow_table-IsRoom}
use lr.Daemon.Keys.{IsId, IsApplication, IsContext, application_rank, context_rank}
use lr.Daemon.Same.{SameUsers, Same, find_ecu-SameLists}
use lr.Daemon.Sound.{IsUsers, IsDaemon, nums-same, IsUnsorted-same, IsDaemon-Same, Every-at}
use lr.Daemon.Register.{get_elem?-SameLists}
use lr.Daemon.Pending.{
  AllBut, get_elem?-modify, find_ecu-modify, AllBut-same, AllBut-modify, AllBut-at,
}
use lr.Daemon.{DltDaemonContext, cmp_apid_ctid}
use lr.Daemon.Same.{ids_of, keys_of-modify, SameLists-modify}
use lr.Daemon.Sound.{ids_rank, IsIds, applications-same}
use lr.Daemon.Keys.{cmp_apid_ctid-rank}
use lr.Daemon.Find.{find_context-index_of}
use lr.Daemon.Contexts.{
  dlt_daemon_context_find, fill_context, blank_context, on_context, sort_contexts, append_context,
}

abbrev pub pair_rank : List ℕ → List ℕ → ℕ
pair_rank apid ctid = 4294967296 * rank apid + rank ctid

-- A list with the new context, not yet in order.
pub record IsNewContext (apid ctid : List ℕ) (u : DltDaemonRegisteredUsers) : Type 0 where
  pub applications : IsTable application_rank IsApplication 500 u.applications u.application_room
  pub contexts : IsUnsorted context_rank IsContext 1000 u.contexts u.context_room
  pub there : index_of (pair_rank apid ctid) (nums context_rank u.contexts) ≢ none

IsNewContext-same :
    (apid ctid : List ℕ) (u v : DltDaemonRegisteredUsers)
    → SameUsers u v
    → IsNewContext apid ctid u
    → IsNewContext apid ctid v
IsNewContext-same apid ctid u v h t = record {
  applications = applications-same u v h t.applications;
  contexts = subst (IsUnsorted context_rank IsContext 1000 v.contexts) (sym h.context_room) (
      IsUnsorted-same ids_of ids_rank IsIds 1000 u.contexts v.contexts h.ids u.context_room
        t.contexts);
  there =
      subst (λ rs. index_of (pair_rank apid ctid) rs ≢ none)
        (nums-same ids_of ids_rank IsIds 1000 u.contexts v.contexts h.ids) t.there;
}

sorted : DltDaemonRegisteredUsers → DltDaemonRegisteredUsers
sorted u = record u { contexts = qsort cmp_apid_ctid u.contexts }

IsNewContext-sorted :
    (apid ctid : List ℕ) (u : DltDaemonRegisteredUsers)
    → IsNewContext apid ctid u
    → IsUsers (sorted u)
unfolding sorted
IsNewContext-sorted apid ctid u t = record {
  applications = t.applications;
  contexts =
      IsUnsorted-qsort context_rank IsContext 1000 cmp_apid_ctid cmp_apid_ctid-rank u.contexts
        u.context_room t.contexts;
}

sorted-found :
    (apid ctid : List ℕ) (u : DltDaemonRegisteredUsers)
    → IsNewContext apid ctid u
    → (j : ℕ) × (index_of (pair_rank apid ctid) (nums context_rank (sorted u).contexts) ≡ some j)
unfolding sorted
sorted-found apid ctid u t =
    elim (Option-cases
      (index_of (pair_rank apid ctid) (nums context_rank (qsort cmp_apid_ctid u.contexts)))) [
        | inl n ↦ absurd (
            t.there (
              index_of-qsort context_rank cmp_apid_ctid IsContext cmp_apid_ctid-rank
                (pair_rank apid ctid) u.contexts t.contexts.distinct n))
        | inr s ↦ s
      ]

-- The search for a context, by the numbers of the table of its ECU.
pub context_find-index_of :
    (d : DltDaemon) (apid ctid ecu : List ℕ) (i : ℕ) (u : DltDaemonRegisteredUsers)
    → (get_or apid 0 0 == 0 || get_or ctid 0 0 == 0) ≡ false
    → IsId apid
    → IsId ctid
    → dlt_daemon_find_users_list d ecu ≡ some i
    → get_elem? d.user_list i ≡ some u
    → IsUsers u
    → dlt_daemon_context_find d apid ctid ecu
      ≡ (index_of (pair_rank apid ctid) (nums context_rank u.contexts) >>= λ j. some (i, j))
unfolding dlt_daemon_context_find
context_find-index_of d apid ctid ecu i u first id id2 e f t =
    rw
      (
        first,
        e,
        f,
        find_context-index_of u.contexts apid ctid t.contexts.keys t.contexts.ascending id id2,
      )
      refl

pub append_context-IsNewContext :
    (mem : Memory) (stale : DltDaemonContext) (apid ctid : List ℕ) (u : DltDaemonRegisteredUsers)
    → IsId apid
    → IsId ctid
    → IsUsers u
    → length u.contexts < u.context_room
    → index_of (pair_rank apid ctid) (nums context_rank u.contexts) ≡ none
    → ((append_context mem stale apid ctid u ≡ some none) × (mem.larger_block ≡ false))
      ⊎ ((w : DltDaemonRegisteredUsers) × (append_context mem stale apid ctid u ≡ some (some w))
          × IsNewContext apid ctid w
          × (w.ecu ≡ u.ecu))
unfolding append_context
append_context-IsNewContext mem stale apid ctid u id id2 t l e =
    elim (grow_table-IsRoom mem.larger_block 1000 (length u.contexts) u.context_room (inr refl)
      t.contexts.in_block l) [
        | inl (g, b) ↦ inl (rw (g, append_context) refl, b)
        | inr (room, g, v, inside) ↦
            let c : DltDaemonContext = blank_context stale apid ctid in
            let key : IsContext c = (subst IsId (sym id.1) id, subst IsId (sym id2.1) id2) in
            let same : pair_rank apid ctid ≡ context_rank c =
              ap₂ pair_rank (sym id.1) (sym id2.1) in
            inr (
              record u { contexts = u.contexts ++ c ∷ []; context_room = room },
              rw (g, inside, append_context) refl,
              record {
                applications = t.applications;
                contexts =
                    IsTable-IsUnsorted context_rank IsContext 1000 u.contexts c u.context_room room
                      t.contexts key
                      (index_of-NotIn _ (nums context_rank u.contexts)
                        (subst (λ r. index_of r (nums context_rank u.contexts) ≡ none) same e))
                      v;
                there =
                    subst (λ rs. index_of (pair_rank apid ctid) rs ≢ none)
                      (ap (λ r. nums context_rank u.contexts ++ r ∷ []) same
                        ∙ sym (nums-append context_rank u.contexts (c ∷ [])))
                      (index_of-last (pair_rank apid ctid) (nums context_rank u.contexts));
              },
              refl,
            )
      ]

ids-fill_context :
    (mem : Memory) (d : DltDaemon) (ecu : List ℕ) (level status pos handle : ℕ)
    (text : Option (List ℕ)) (is_new : Bool) (c : DltDaemonContext)
    → ids_of (fill_context mem d ecu level status pos handle text is_new c) ≡ ids_of c
unfolding fill_context
ids-fill_context mem d ecu level status pos handle text is_new c =
    elim (Bool-cases (is_new || not d.runtime_context_cfg_loaded)) [
      | inl e ↦ rw (e, fill_context) refl
      | inr e ↦ rw (e, fill_context) refl
    ]

on_context-Same :
    (d : DltDaemon) (i j : ℕ) (f : DltDaemonContext → DltDaemonContext)
    → ((c : DltDaemonContext) → ids_of (f c) ≡ ids_of c)
    → Same d (on_context d i j f)
on_context-Same d i j f h =
    SameLists-modify (λ u. record u { contexts = modify j f u.contexts }) i d.user_list
      (λ u. record {
        apids = refl;
        application_room = refl;
        ids = keys_of-modify ids_of f j u.contexts h;
        context_room = refl;
        ecu = refl;
      })

module _ (mem : Memory) (stale : DltDaemonContext) (apid ctid ecu : List ℕ)
    (level status pos handle : ℕ) (text : Option (List ℕ))
    (first : (get_or apid 0 0 == 0 || get_or ctid 0 0 == 0) ≡ false) (id : IsId apid)
    (id2 : IsId ctid) where
  pub fill_old :
      (d : DltDaemon) (i j : ℕ) (u : DltDaemonRegisteredUsers)
      → IsDaemon d
      → dlt_daemon_find_users_list d ecu ≡ some i
      → get_elem? d.user_list i ≡ some u
      → index_of (pair_rank apid ctid) (nums context_rank u.contexts) ≡ some j
      → IsDaemon (on_context d i j (fill_context mem d ecu level status pos handle text false))
        × (dlt_daemon_context_find
              (on_context d i j (fill_context mem d ecu level status pos handle text false))
              apid
              ctid
              ecu
            ≡ some (i, j))
  unfolding dlt_daemon_find_users_list
  fill_old d i j u t listed f found =
      let fill = fill_context mem d ecu level status pos handle text false in
      let e : DltDaemon = on_context d i j fill in
      let same : Same d e =
        on_context-Same d i j fill
          (ids-fill_context mem d ecu level status pos handle text false) in
      let all : IsDaemon e = IsDaemon-Same d e same t in
      let (v, g, s) = get_elem?-SameLists d.user_list e.user_list i u same f in
      let listed_e : dlt_daemon_find_users_list e ecu ≡ some i =
        find_ecu-SameLists ecu d.user_list e.user_list same ∙ listed in
      (
        all,
        context_find-index_of e apid ctid ecu i v first id id2 listed_e g
              (Every-at e.user_list i v g all)
            ∙ ap (λ rs. index_of (pair_rank apid ctid) rs >>= λ m. some (i, m))
                (sym (nums-same ids_of ids_rank IsIds 1000 u.contexts v.contexts s.ids))
            ∙ ap (λ o. o >>= λ m. some (i, m)) found,
      )

  pub fill_new :
      (d1 d : DltDaemon) (i j : ℕ)
      → AllBut (IsNewContext apid ctid) i d.user_list
      → dlt_daemon_find_users_list d ecu ≡ some i
      → (p : ℕ × ℕ) × IsDaemon (
          sort_contexts
            (on_context d i j (fill_context mem d1 ecu level status pos handle text true))
            i)
        × (dlt_daemon_context_find
              (sort_contexts
                (on_context d i j (fill_context mem d1 ecu level status pos handle text true))
                i)
              apid
              ctid
              ecu
            ≡ some p)
  unfolding sort_contexts sorted dlt_daemon_find_users_list
  fill_new d1 d i j t listed =
      let fill = fill_context mem d1 ecu level status pos handle text true in
      let d2 : DltDaemon = on_context d i j fill in
      let same : Same d d2 =
        on_context-Same d i j fill
          (ids-fill_context mem d1 ecu level status pos handle text true) in
      let t2 : AllBut (IsNewContext apid ctid) i d2.user_list =
        AllBut-same (IsNewContext apid ctid) d.user_list d2.user_list i
          (IsNewContext-same apid ctid) same t in
      let (u, f, new) = AllBut-at (IsNewContext apid ctid) d2.user_list i t2 in
      let (k, found) = sorted-found apid ctid u new in
      let e : DltDaemon = sort_contexts d2 i in
      let all : IsDaemon e =
        AllBut-modify (IsNewContext apid ctid) sorted d2.user_list i (IsNewContext-sorted apid ctid)
          t2 in
      let listed_e : dlt_daemon_find_users_list e ecu ≡ some i =
        find_ecu-modify ecu sorted d2.user_list i u f refl
        ∙ find_ecu-SameLists ecu d.user_list d2.user_list same
        ∙ listed in
      (
        (i, k),
        all,
        context_find-index_of e apid ctid ecu i (sorted u) first id id2 listed_e
              (get_elem?-modify sorted d2.user_list i u f) (IsNewContext-sorted apid ctid u new)
            ∙ ap (λ o. o >>= λ m. some (i, m)) found,
      )
