-- ===== src/Sync/Merge/Isolation.antt =====
-- The rows of other users in the merge of app/api/routers/sync.py.
use task_buddy_backend.Prelude.{
  Bool, ℕ, ◌≡◌, refl, ap, inl, inr, ◌∙◌, Option, some, List, [], ◌∷◌, arith, any, ◌==◌,
  if◌then◌else◌, Bool-cases, Option-cases,
}
use task_buddy_backend.Json.{Fields}
use task_buddy_backend.Sync.Lww.{SyncEntity, merge_payload, model_whitelist}
use task_buddy_backend.Sync.Tables.{
  Row, Db, table, with_table, is_stale, update_where, delete_where, delete_row, unlink,
}
use task_buddy_backend.Sync.Merge.{
  Change, SyncOp, Merge, fk_target_owned, record_unapplied, record_applied, update_change,
  delete_change, merge_change, merge_loop, merge_changes,
}

-- The rows of the other users, by their key, owner and stamp.
abbrev pub foreign : ℕ → List Row → List (ℕ × ℕ × ℕ)
foreign user [] = []
foreign user (r ∷ rows) =
    let rest = foreign user rows in
    if r.user_id == user then rest else (r.id, r.user_id, r.updated_at) ∷ rest

module _ (user : ℕ) where
  foreign-update_where :
      (id ts : ℕ) (merged : Fields) (rows : List Row)
      → foreign user (update_where id user ts merged rows) ≡ foreign user rows
  foreign-update_where id ts merged [] = refl
  foreign-update_where id ts merged (r ∷ rows) =
      ground (arith, foreign-update_where id ts merged rows)

  foreign-delete_where :
      (id ts : ℕ) (rows : List Row)
      → foreign user (delete_where id user ts rows) ≡ foreign user rows
  foreign-delete_where id ts [] = refl
  foreign-delete_where id ts (r ∷ rows) = ground (arith, foreign-delete_where id ts rows)

  foreign-unlink : (id : ℕ) (rows : List Row) → foreign user (unlink id rows) ≡ foreign user rows
  foreign-unlink id [] = refl
  foreign-unlink id (r ∷ rows) = ground (arith, foreign-unlink id rows)

  -- Two databases that hold the same rows of the other users.
  abbrev pub SameForeign : Db → Db → Type 0
  SameForeign a b = (e : SyncEntity) → foreign user (table e a) ≡ foreign user (table e b)

  delete_row-SameForeign :
      (e : SyncEntity) (id ts : ℕ) (db db' : Db)
      → delete_row e id user ts db ≡ some db'
      → SameForeign db' db
  delete_row-SameForeign SyncEntity.task id ts db db' h f =
      ground (arith, foreign-delete_where id ts db.tasks)
  delete_row-SameForeign SyncEntity.subtask id ts db db' h f =
      ground (arith, foreign-delete_where id ts db.subtasks)
  delete_row-SameForeign SyncEntity.project id ts db db' h f =
      ground (arith, foreign-delete_where id ts db.projects, foreign-unlink id db.tasks)

  update-SameForeign :
      (e : SyncEntity) (id ts : ℕ) (merged : Fields) (db : Db)
      → SameForeign (with_table e (update_where id user ts merged (table e db)) db) db
  update-SameForeign SyncEntity.task id ts merged db f =
      ground (arith, foreign-update_where id ts merged db.tasks)
  update-SameForeign SyncEntity.subtask id ts merged db f =
      ground (arith, foreign-update_where id ts merged db.subtasks)
  update-SameForeign SyncEntity.project id ts merged db f =
      ground (arith, foreign-update_where id ts merged db.projects)

  same : (a b : Db) → a ≡ b → SameForeign a b
  same a b e f = ap (λ d. foreign user (table f d)) e

  unapplied-db : (c : Change) (m : Merge) → (record_unapplied user c m).db ≡ m.db
  unfolding record_unapplied
  unapplied-db c m = ground arith

  update_change-SameForeign :
      (c : Change) (m : Merge) → SameForeign (update_change user c m).db m.db
  unfolding update_change record_applied
  update_change-SameForeign c m =
      elim (Bool-cases
        (fk_target_owned m.db c.entity (merge_payload (model_whitelist c.entity) c.payload) user)) [
          | inr unowned ↦ rw (unowned, update_change) (same _ _ (unapplied-db c m))
          | inl fits ↦
              elim (Bool-cases
                (any (is_stale c.id user c.client_updated_at) (table c.entity m.db))) [
                  | inr late ↦ rw (fits, late, update_change) (same _ _ (unapplied-db c m))
                  | inl wins ↦
                      rw (fits, wins, update_change)
                        (update-SameForeign c.entity c.id c.client_updated_at
                          (merge_payload (model_whitelist c.entity) c.payload) m.db)
                ]
        ]

  delete_change-SameForeign :
      (c : Change) (m m1 : Merge) → delete_change user c m ≡ some m1 → SameForeign m1.db m.db
  unfolding delete_change record_applied
  delete_change-SameForeign c m m1 e =
      elim (Bool-cases (any (is_stale c.id user c.client_updated_at) (table c.entity m.db))) [
        | inr late ↦ same m1.db m.db (ground (arith, e, late, unapplied-db c m))
        | inl wins ↦ elim (Option-cases (delete_row c.entity c.id user c.client_updated_at m.db)) [
          | inl refused ↦ absurd (ground (arith, e, wins, refused))
          | inr (db, gone) ↦
              let left : m1.db ≡ db = ground (arith, e, wins, gone) in
              λ f.
                same m1.db db left f
                ∙ delete_row-SameForeign c.entity c.id c.client_updated_at m.db db gone f
        ]
      ]

  merge_change-SameForeign :
      (refuses : SyncEntity → Fields → Bool) (c : Change) (m m1 : Merge)
      → merge_change refuses user c m ≡ some m1
      → SameForeign m1.db m.db
  unfolding merge_change
  merge_change-SameForeign refuses c m m1 e = by_op c.op refl
    where
      by_op : (o : SyncOp) → c.op ≡ o → SameForeign m1.db m.db
      by_op SyncOp.delete o f = delete_change-SameForeign c m m1 (ground (arith, e, o)) f
      by_op SyncOp.update o f =
          same m1.db (update_change user c m).db (ground (arith, e, o)) f
          ∙ update_change-SameForeign c m f

  merge_loop-SameForeign :
      (refuses : SyncEntity → Fields → Bool) (cs : List Change) (m m1 : Merge)
      → merge_loop refuses user cs m ≡ some m1
      → SameForeign m1.db m.db
  unfolding merge_loop
  merge_loop-SameForeign refuses [] m m1 e f = same m1.db m.db (ground (arith, e)) f
  merge_loop-SameForeign refuses (c ∷ cs) m m1 e f =
      elim (Option-cases (merge_change refuses user c m)) [
        | inl refused ↦ absurd (ground (arith, e, refused))
        | inr (n, went) ↦
            merge_loop-SameForeign refuses cs n m1 (ground (arith, e, went)) f
            ∙ merge_change-SameForeign refuses c m n went f
      ]

-- If the merge does not fail, then in each of the three tables the rows of all other users have
-- the keys, owners and stamps that they had before, in the same order.
pub merge_changes-SameForeign :
    (refuses : SyncEntity → Fields → Bool) (user : ℕ) (since : Option ℕ) (changes : List Change)
    (db : Db) (m : Merge)
    → merge_changes refuses user since changes db ≡ some m
    → SameForeign user m.db db
unfolding merge_changes
merge_changes-SameForeign refuses user since changes db m e =
    merge_loop-SameForeign user refuses changes
      (record {
        db = db;
        applied = [];
        conflicts = [];
        not_found = [];
        high_water = since;
        completion_flips = [];
      })
      m e
