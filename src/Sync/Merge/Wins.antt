-- ===== src/Sync/Merge/Wins.antt =====
-- Last write wins: one update of app/api/routers/sync.py and the row that it names.
use task_buddy_backend.Prelude.{
  ℕ, ◌+◌, ◌≡◌, refl, true, false, some, List, [], ◌∷◌, inl, inr, arith, any, ltb, find_first,
  is_some, length, length-append, if◌then◌else◌, Bool-cases, Option-cases,
}
use task_buddy_backend.Json.{Fields}
use task_buddy_backend.Focus.Skip.{merge}
use task_buddy_backend.Sync.Lww.{SyncEntity, merge_payload, model_whitelist}
use task_buddy_backend.Sync.Tables.{Row, Db, table, with_table, is_owned, is_stale, update_where}
use task_buddy_backend.Sync.Merge.{
  Change, Merge, fk_target_owned, record_unapplied, record_applied, update_change,
}

module _ (id user ts : ℕ) (merged : Fields) where
  -- The row that a client asks for, after the conditional write.
  find-update_where :
      (rows : List Row) (r : Row)
      → find_first (is_owned id user) rows ≡ some r
      → find_first (is_owned id user) (update_where id user ts merged rows)
        ≡ some (
            if ltb r.updated_at ts
            then record r { updated_at = ts; columns = merge r.columns merged }
            else r)
  find-update_where [] r e = cc
  find-update_where (q ∷ rows) r e = elim (Bool-cases (is_owned id user q)) [
    | inl own ↦ ground (arith, own, e)
    | inr other ↦ ground (arith, other, find-update_where rows r)
  ]

  -- No row is left that the same write would change again.
  no_stale :
      (rows : List Row) → any (is_stale id user ts) (update_where id user ts merged rows) ≡ false
  no_stale [] = refl
  no_stale (q ∷ rows) = ground (arith, no_stale rows)

  found_if_stale :
      (rows : List Row)
      → any (is_stale id user ts) rows ≡ true
      → is_some (find_first (is_owned id user) rows) ≡ true
  found_if_stale [] e = cc
  found_if_stale (q ∷ rows) e = ground (arith, found_if_stale rows)

  not_stale :
      (rows : List Row) (r : Row)
      → any (is_stale id user ts) rows ≡ false
      → find_first (is_owned id user) rows ≡ some r
      → ltb r.updated_at ts ≡ false
  not_stale [] r e f = cc
  not_stale (q ∷ rows) r e f = ground (arith, not_stale rows r)

table-with_table :
    (e : SyncEntity) (rows : List Row) (db : Db) → table e (with_table e rows db) ≡ rows
table-with_table SyncEntity.task rows db = refl
table-with_table SyncEntity.subtask rows db = refl
table-with_table SyncEntity.project rows db = refl

db-record_unapplied : (user : ℕ) (c : Change) (m : Merge) → (record_unapplied user c m).db ≡ m.db
unfolding record_unapplied
db-record_unapplied user c m = ground arith

-- The fields of a change that may be written.
abbrev pub mergeable : Change → Fields
mergeable c = merge_payload (model_whitelist c.entity) c.payload

module _ (user : ℕ) (c : Change) (m : Merge)
    (fits : fk_target_owned m.db c.entity (mergeable c) user ≡ true) where
  -- If the foreign key of an update is the user's own and the row it names is found, then after
  -- the update that row has the client's whitelisted fields and stamp if its own stamp is earlier
  -- than the client's, and is unchanged otherwise.
  pub update_change_wins :
      (r : Row)
      → find_first (is_owned c.id user) (table c.entity m.db) ≡ some r
      → find_first (is_owned c.id user) (table c.entity (update_change user c m).db)
        ≡ some (
            if ltb r.updated_at c.client_updated_at
            then record r {
              updated_at = c.client_updated_at;
              columns = merge r.columns (mergeable c);
            }
            else r)
  unfolding update_change record_applied
  update_change_wins r found =
      let rows = table c.entity m.db in
      let ts = c.client_updated_at in
      elim (Bool-cases (any (is_stale c.id user ts) rows)) [
        | inl wins ↦
            rw (fits, wins, update_change)
              (rw (table-with_table c.entity (update_where c.id user ts (mergeable c) rows) m.db)
                (find-update_where c.id user ts (mergeable c) rows r found))
        | inr late ↦
            rw (fits, late, update_change)
              (rw (
                db-record_unapplied user c m,
                found,
                not_stale c.id user ts (mergeable c) rows r late found,
              ))
      ]

late_update :
    (user : ℕ) (c : Change) (m : Merge)
    → any (is_stale c.id user c.client_updated_at) (table c.entity m.db) ≡ false
    → update_change user c m ≡ record_unapplied user c m
unfolding update_change
late_update user c m late = elim (Bool-cases (fk_target_owned m.db c.entity (mergeable c) user)) [
  | inl fits ↦ rw (fits, late, update_change)
  | inr foreign ↦ rw (foreign, update_change)
]

unapplied_conflict :
    (user : ℕ) (c : Change) (m : Merge)
    → is_some (find_first (is_owned c.id user) (table c.entity m.db)) ≡ true
    → (length (record_unapplied user c m).conflicts ≡ length m.conflicts + 1)
      × ((record_unapplied user c m).applied ≡ m.applied)
unfolding record_unapplied
unapplied_conflict user c m found =
    elim (Option-cases (find_first (is_owned c.id user) (table c.entity m.db))) [
      | inl e ↦ absurd (ground (arith, e, found))
      | inr (r, e) ↦
          rw (e, record_unapplied) (omega (arith, length-append m.conflicts ((c, r) ∷ [])), refl)
    ]

module _ (user : ℕ) (c : Change) (m : Merge)
    (fits : fk_target_owned m.db c.entity (mergeable c) user ≡ true)
    (wins : any (is_stale c.id user c.client_updated_at) (table c.entity m.db) ≡ true) where
  abbrev written : List Row
  written = update_where c.id user c.client_updated_at (mergeable c) (table c.entity m.db)

  table-written : table c.entity (update_change user c m).db ≡ written
  unfolding update_change record_applied
  table-written = rw (fits, wins, update_change) (table-with_table c.entity written m.db)

  applied_one : length (update_change user c m).applied ≡ length m.applied + 1
  unfolding update_change record_applied
  applied_one = rw (fits, wins, update_change) (omega (arith, length-append m.applied (c ∷ [])))

  still_found :
      is_some (find_first (is_owned c.id user) (table c.entity (update_change user c m).db)) ≡ true
  still_found = elim (Option-cases (find_first (is_owned c.id user) (table c.entity m.db))) [
    | inl e ↦
        ground (
          arith,
          e,
          found_if_stale c.id user c.client_updated_at (mergeable c) (table c.entity m.db),
        )
    | inr (r, e) ↦ rw table-written (
        rw
          (find-update_where c.id user c.client_updated_at (mergeable c) (table c.entity m.db) r e))
  ]

  -- If the foreign key of an update is the user's own and some row of the user's with its id is
  -- older than it, then applying it once adds one applied change, and applying it again at once
  -- leaves the database and the applied changes as they are and adds one conflict.
  pub update_change_replay :
      let once = update_change user c m in
      let twice = update_change user c once in
      (length once.applied ≡ length m.applied + 1)
      × (twice.db ≡ once.db)
      × (twice.applied ≡ once.applied)
      × (length twice.conflicts ≡ length once.conflicts + 1)
  update_change_replay =
      let once = update_change user c m in
      let again = late_update user c once (
        rw table-written
          (no_stale c.id user c.client_updated_at (mergeable c) (table c.entity m.db))) in
      let kept = unapplied_conflict user c once still_found in
      (applied_one, rw again (db-record_unapplied user c once), rw again kept.1, rw again kept.0)
