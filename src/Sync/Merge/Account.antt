-- ===== src/Sync/Merge/Account.antt =====
-- How the merge of app/api/routers/sync.py reports the changes that it is given.
use task_buddy_backend.Prelude.{
  ℕ, ◌+◌, ◌≡◌, refl, ◌⊎◌, inl, inr, Bool, Option, some, List, [], ◌∷◌, ◌++◌, arith, length,
  length-append, any, Bool-cases, Option-cases, find_first,
}
use mathlib.Core.Path.{subst}
use task_buddy_backend.Json.{Fields}
use task_buddy_backend.Sync.Lww.{SyncEntity, merge_payload, model_whitelist}
use task_buddy_backend.Sync.Tables.{
  Row, Db, table, is_owned, is_stale, delete_row, update_where, with_table,
}
use task_buddy_backend.Sync.Merge.{
  Change, SyncOp, Merge, record_unapplied, record_applied, delete_change, update_change,
  merge_change, merge_loop, merge_changes, fk_target_owned, flip_of,
}

abbrev pub reported : Merge → ℕ
reported m = length m.applied + length m.conflicts + length m.not_found

-- A change that is not applied is a conflict, or its row was not found.
pub unapplied_cases :
    (user : ℕ) (c : Change) (m : Merge)
    → (record_unapplied user c m ≡ record m { not_found = m.not_found ++ c ∷ [] })
      ⊎ ((r : Row) × (record_unapplied user c m
            ≡ record m { conflicts = m.conflicts ++ (c, r) ∷ [] }))
unfolding record_unapplied
unapplied_cases user c m =
    elim (Option-cases (find_first (is_owned c.id user) (table c.entity m.db))) [
      | inl e ↦ inl (rw (e, record_unapplied))
      | inr (r, e) ↦ inr (r, rw (e, record_unapplied))
    ]

-- The completion that a change flips where it is applied.
abbrev pub flips_of : Change → List (ℕ × Bool)
flips_of c = elim c.op [
  | SyncOp.delete ↦ []
  | SyncOp.update ↦ flip_of c (merge_payload (model_whitelist c.entity) c.payload)
]

-- How a change is recorded: as not applied, or as applied with the database that it left.
abbrev pub Recorded : ℕ → Change → Merge → Merge → Type 0
Recorded user c m m' =
    (m' ≡ record_unapplied user c m) ⊎ ((db : Db) × (m' ≡ record_applied c (flips_of c) db m))

pub some_eq {ℓ} : {A : Type ℓ} (a b : A) → some a ≡ some b → a ≡ b
some_eq a b e = cc

update_change-Recorded :
    (user : ℕ) (c : Change) (m : Merge)
    → c.op ≡ SyncOp.update
    → Recorded user c m (update_change user c m)
unfolding update_change
update_change-Recorded user c m op =
    elim (Bool-cases
      (fk_target_owned m.db c.entity (merge_payload (model_whitelist c.entity) c.payload) user)) [
        | inr foreign ↦ inl (rw (foreign, update_change))
        | inl fits ↦
            elim (Bool-cases (any (is_stale c.id user c.client_updated_at) (table c.entity m.db))) [
              | inr late ↦ inl (rw (fits, late, update_change))
              | inl wins ↦
                  let merged = merge_payload (model_whitelist c.entity) c.payload in
                  inr (
                    with_table c.entity
                        (update_where c.id user c.client_updated_at merged (table c.entity m.db))
                        m.db,
                    rw (fits, wins, op, update_change) refl,
                  )
            ]
      ]

delete_change-Recorded :
    (user : ℕ) (c : Change) (m m' : Merge)
    → c.op ≡ SyncOp.delete
    → delete_change user c m ≡ some m'
    → Recorded user c m m'
unfolding delete_change
delete_change-Recorded user c m m' op e =
    elim (Bool-cases (any (is_stale c.id user c.client_updated_at) (table c.entity m.db))) [
      | inr late ↦ inl (ground (arith, e, late))
      | inl wins ↦ elim (Option-cases (delete_row c.entity c.id user c.client_updated_at m.db)) [
        | inl refused ↦ ground (arith, e, wins, refused)
        | inr (db, gone) ↦ inr (db, ground (arith, e, wins, gone, op))
      ]
    ]

pub merge_change-Recorded :
    (refuses : SyncEntity → Fields → Bool) (user : ℕ) (c : Change) (m m' : Merge)
    → merge_change refuses user c m ≡ some m'
    → Recorded user c m m'
unfolding merge_change
merge_change-Recorded refuses user c m m' e = by_op c.op refl
  where
    by_op : (o : SyncOp) → c.op ≡ o → Recorded user c m m'
    by_op SyncOp.delete o = delete_change-Recorded user c m m' o (ground (arith, e, o))
    by_op SyncOp.update o =
        subst (λ x. Recorded user c m x) (ground (arith, e, o)) (update_change-Recorded user c m o)

Recorded-reported :
    (user : ℕ) (c : Change) (m m' : Merge) → Recorded user c m m' → reported m' ≡ reported m + 1
unfolding record_applied
Recorded-reported user c m m' (inr (db, e)) =
    rw (e, record_applied) (omega (arith, length-append m.applied (c ∷ [])))
Recorded-reported user c m m' (inl e) = rw e (by_case (unapplied_cases user c m))
  where
    by_case :
        (record_unapplied user c m ≡ record m { not_found = m.not_found ++ c ∷ [] })
          ⊎ ((r : Row) × (record_unapplied user c m
                ≡ record m { conflicts = m.conflicts ++ (c, r) ∷ [] }))
        → reported (record_unapplied user c m) ≡ reported m + 1
    by_case (inl lost) = rw lost (omega (arith, length-append m.not_found (c ∷ [])))
    by_case (inr (r, met)) = rw met (omega (arith, length-append m.conflicts ((c, r) ∷ [])))

merge_loop-reported :
    (refuses : SyncEntity → Fields → Bool) (user : ℕ) (cs : List Change) (m m' : Merge)
    → merge_loop refuses user cs m ≡ some m'
    → reported m' ≡ reported m + length cs
unfolding merge_loop
merge_loop-reported refuses user [] m m' e = rw (← some_eq m m' e) (omega arith)
merge_loop-reported refuses user (c ∷ cs) m m' e =
    elim (Option-cases (merge_change refuses user c m)) [
      | inl refused ↦ ground (arith, e, refused)
      | inr (m1, went) ↦ omega (
        arith,
        Recorded-reported user c m m1 (merge_change-Recorded refuses user c m m1 went),
        merge_loop-reported refuses user cs m1 m' (ground (arith, e, went)),
      )
    ]

-- If the merge of a list of changes does not fail, the applied changes, the conflicts and the
-- changes not found are together as many as the changes.
pub merge_changes_reports :
    (refuses : SyncEntity → Fields → Bool) (user : ℕ) (since : Option ℕ) (changes : List Change)
    (db : Db) (m : Merge)
    → merge_changes refuses user since changes db ≡ some m
    → length m.applied + length m.conflicts + length m.not_found ≡ length changes
unfolding merge_changes
merge_changes_reports refuses user since changes db m e = omega (
  arith,
  merge_loop-reported refuses user changes
      (record {
        db = db;
        applied = [];
        conflicts = [];
        not_found = [];
        high_water = since;
        completion_flips = [];
      })
      m e,
)
