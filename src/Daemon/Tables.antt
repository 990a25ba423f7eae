-- ===== src/Daemon/Tables.antt =====
-- A table of daemon/dlt_daemon_common.c in its block: entries in ascending order, in a block that is larger
-- than they are and grows in steps.
use Prim.Native.Nat.{Ordering, compare}
use mathlib.Core.Path.{subst}
use lr.Base.{
  ℕ, zero, suc, ◌+◌, ◌*◌, ◌/◌, ◌%◌, ◌≤◌, ◌<◌, ◌≡◌, refl, sym, ◌⊎◌, inl, inr, Bool, false, none,
  some, List, [], ◌∷◌, ◌++◌, arith, length, length-append, take, drop, le→leb, ◌==◌, Bool-cases,
}
use lr.Search.{qsort}
use lr.Search.Sorted.{
  Every, Every-append, nums, nums-append, NotIn, Distinct, Distinct-append, AllAbove, Ascending,
  Ascending-Distinct, length-qsort, Every-qsort, Ascending-qsort,
}
use lr.Daemon.{make_table, grow_table, in_blocks}

-- A block holds a multiple of the step, and more than the entries; or there is no block and no entry.
pub record IsRoom (step n room : ℕ) : Type 0 where
  pub in_steps : room % step ≡ 0
  pub within : (n < room) ⊎ ((n ≡ 0) × (room ≡ 0))

-- An entry less.
pub IsRoom-less : (step n m room : ℕ) → m ≤ n → IsRoom step n room → IsRoom step m room
IsRoom-less step n m room h v = record {
  in_steps = v.in_steps;
  within = elim v.within [ inl l ↦ inl (omega arith) | inr (z, r) ↦ inr (omega arith, r) ];
}

-- The steps of the two tables.
abbrev pub IsStep : ℕ → Type 0
IsStep step = (step ≡ 500) ⊎ (step ≡ 1000)

pub make_table-IsRoom :
    (grant : Bool) (step n room : ℕ)
    → IsStep step
    → IsRoom step n room
    → ((make_table grant step room ≡ none) × (grant ≡ false))
      ⊎ ((r : ℕ) × (make_table grant step room ≡ some r) × IsRoom step n r × (n < r))
unfolding make_table
make_table-IsRoom grant step n room k v = elim (Bool-cases (room == 0)) [
  | inr some_room ↦ inr (room, rw some_room refl, v, ground (arith, v.within))
  | inl no_room ↦ elim (Bool-cases grant) [
    | inr g ↦ inl (rw (no_room, g) refl, g)
    | inl g ↦
        let empty : n ≡ 0 = ground (arith, v.within) in
        elim k [
          | inl e ↦ inr (
            step,
            rw (no_room, g) refl,
            record { in_steps = rw e (omega arith); within = inl (omega arith) },
            omega arith,
          )
          | inr e ↦ inr (
            step,
            rw (no_room, g) refl,
            record { in_steps = rw e (omega arith); within = inl (omega arith) },
            omega arith,
          )
        ]
  ]
]

-- One entry more: the copy and the write stay in the blocks, and the block is again larger than the
-- entries.
abbrev Grown : ℕ → ℕ → ℕ → Bool → Type 0
Grown step n room grant =
    ((grow_table grant step (n + 1) room ≡ none) × (grant ≡ false))
    ⊎ ((r : ℕ) × (grow_table grant step (n + 1) room ≡ some r)
        × IsRoom step (n + 1) r
        × (in_blocks (n + 1) room r ≡ some tt))

grow_500 : (grant : Bool) (n room : ℕ) → IsRoom 500 n room → n < room → Grown 500 n room grant
unfolding grow_table
grow_500 grant n room v l = elim (Bool-cases ((n + 1) % 500 == 0)) [
  | inr e ↦ inr (
    room,
    rw e refl,
    record { in_steps = v.in_steps; within = inl (ground (arith, v.in_steps)) },
    rw (le→leb (n + 1) room (omega arith)) refl,
  )
  | inl e ↦ elim (Bool-cases grant) [
    | inr g ↦ inl (rw (e, g) refl, g)
    | inl g ↦ inr (
      ((n + 1) / 500 + 1) * 500,
      rw (e, g) refl,
      record { in_steps = omega arith; within = inl (omega arith) },
      rw (le→leb (n + 1) room (omega arith))
          (rw (le→leb (n + 1) (((n + 1) / 500 + 1) * 500) (omega arith)) refl),
    )
  ]
]

grow_1000 : (grant : Bool) (n room : ℕ) → IsRoom 1000 n room → n < room → Grown 1000 n room grant
unfolding grow_table
grow_1000 grant n room v l = elim (Bool-cases ((n + 1) % 1000 == 0)) [
  | inr e ↦ inr (
    room,
    rw e refl,
    record { in_steps = v.in_steps; within = inl (ground (arith, v.in_steps)) },
    rw (le→leb (n + 1) room (omega arith)) refl,
  )
  | inl e ↦ elim (Bool-cases grant) [
    | inr g ↦ inl (rw (e, g) refl, g)
    | inl g ↦ inr (
      ((n + 1) / 1000 + 1) * 1000,
      rw (e, g) refl,
      record { in_steps = omega arith; within = inl (omega arith) },
      rw (le→leb (n + 1) room (omega arith))
          (rw (le→leb (n + 1) (((n + 1) / 1000 + 1) * 1000) (omega arith)) refl),
    )
  ]
]

pub grow_table-IsRoom :
    (grant : Bool) (step n room : ℕ)
    → IsStep step
    → IsRoom step n room
    → n < room
    → ((grow_table grant step (n + 1) room ≡ none) × (grant ≡ false))
      ⊎ ((r : ℕ) × (grow_table grant step (n + 1) room ≡ some r)
          × IsRoom step (n + 1) r
          × (in_blocks (n + 1) room r ≡ some tt))
grow_table-IsRoom grant step n room (inl e) v l =
    subst (λ s. Grown s n room grant) (sym e)
      (grow_500 grant n room (subst (λ s. IsRoom s n room) e v) l)
grow_table-IsRoom grant step n room (inr e) v l =
    subst (λ s. Grown s n room grant) (sym e)
      (grow_1000 grant n room (subst (λ s. IsRoom s n room) e v) l)

-- The table without the entry at `j`.
module _ {A : Type 0} (num : A → ℕ) where
  AllAbove-without :
      (r j : ℕ) (xs : List A)
      → AllAbove r (nums num xs)
      → AllAbove r (nums num (take j xs ++ drop (suc j) xs))
  AllAbove-without r zero [] h = tt
  AllAbove-without r zero (x ∷ xs) h = h.1
  AllAbove-without r (suc j) [] h = tt
  AllAbove-without r (suc j) (x ∷ xs) h = (h.0, AllAbove-without r j xs h.1)

  Ascending-without :
      (j : ℕ) (xs : List A)
      → Ascending (nums num xs)
      → Ascending (nums num (take j xs ++ drop (suc j) xs))
  Ascending-without zero [] h = tt
  Ascending-without zero (x ∷ xs) h = h.1
  Ascending-without (suc j) [] h = tt
  Ascending-without (suc j) (x ∷ xs) h =
      (AllAbove-without (num x) j xs h.0, Ascending-without j xs h.1)

  Every-without :
      (P : A → Type 0) (j : ℕ) (xs : List A) → Every P xs → Every P (take j xs ++ drop (suc j) xs)
  Every-without P zero [] h = tt
  Every-without P zero (x ∷ xs) h = h.1
  Every-without P (suc j) [] h = tt
  Every-without P (suc j) (x ∷ xs) h = (h.0, Every-without P j xs h.1)

  length-without : (j : ℕ) (xs : List A) → length (take j xs ++ drop (suc j) xs) ≤ length xs
  length-without zero [] = omega arith
  length-without zero (x ∷ xs) = omega arith
  length-without (suc j) [] = omega arith
  length-without (suc j) (x ∷ xs) = omega (arith, length-without j xs)

-- A table: ordered, and in its block.
pub record IsTable {A : Type 0} (num : A → ℕ) (IsKey : A → Type 0) (step : ℕ) (xs : List A)
    (room : ℕ) : Type 0 where
  pub keys : Every IsKey xs
  pub ascending : Ascending (nums num xs)
  pub in_block : IsRoom step (length xs) room

-- A table with a new entry at its end, not yet in order.
pub record IsUnsorted {A : Type 0} (num : A → ℕ) (IsKey : A → Type 0) (step : ℕ) (xs : List A)
    (room : ℕ) : Type 0 where
  pub keys : Every IsKey xs
  pub distinct : Distinct (nums num xs)
  pub in_block : IsRoom step (length xs) room

module _ {A : Type 0} (num : A → ℕ) (IsKey : A → Type 0) (step : ℕ) where
  pub IsTable-nil : IsStep step → IsTable num IsKey step [] 0
  IsTable-nil k = record {
    keys = tt;
    ascending = tt;
    in_block = record {
      in_steps = elim k [ inl e ↦ rw e (omega arith) | inr e ↦ rw e (omega arith) ];
      within = inr (refl, refl);
    };
  }

  pub IsTable-without :
      (xs : List A) (room j : ℕ)
      → IsTable num IsKey step xs room
      → IsTable num IsKey step (take j xs ++ drop (j + 1) xs) room
  IsTable-without xs room j v =
      subst (λ k. IsTable num IsKey step (take j xs ++ drop k xs) room) {x = suc j} {y = j + 1}
        (omega arith)
        (record {
          keys = Every-without num IsKey j xs v.keys;
          ascending = Ascending-without num j xs v.ascending;
          in_block = IsRoom-less step (length xs) _ room (length-without num j xs) v.in_block;
        })

  pub IsTable-IsUnsorted :
      (xs : List A) (x : A) (old room : ℕ)
      → IsTable num IsKey step xs old
      → IsKey x
      → NotIn (num x) (nums num xs)
      → IsRoom step (length xs + 1) room
      → IsUnsorted num IsKey step (xs ++ x ∷ []) room
  IsTable-IsUnsorted xs x old room t k fresh v = record {
    keys = Every-append IsKey xs (x ∷ []) t.keys (k, tt);
    distinct = subst Distinct (sym (nums-append num xs (x ∷ []))) (
        Distinct-append (nums num xs) (num x) (Ascending-Distinct (nums num xs) t.ascending) fresh);
    in_block = subst (λ n. IsRoom step n room) (sym (length-append xs (x ∷ []))) v;
  }

  pub IsUnsorted-qsort :
      (cmp : A → A → Ordering)
      → ((x y : A) → IsKey x → IsKey y → cmp x y ≡ compare (num x) (num y))
      → (xs : List A) (room : ℕ) → IsUnsorted num IsKey step xs room
      → IsTable num IsKey step (qsort cmp xs) room
  IsUnsorted-qsort cmp agree xs room t = record {
    keys = Every-qsort cmp num IsKey agree IsKey xs t.keys;
    ascending = Ascending-qsort cmp num IsKey agree xs t.keys t.distinct;
    in_block =
        subst (λ n. IsRoom step n room) (sym (length-qsort cmp num IsKey agree xs)) t.in_block;
  }
