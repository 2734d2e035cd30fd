-- ===== src/Sync/Merge.antt =====
-- `_merge_changes` of app/api/routers/sync.py. `none` is the `IntegrityError` of a foreign key or the
-- driver's refusal of a value, which no handler catches: the request fails and nothing is committed. The unique names of a user's projects
-- are not modelled: a rename that meets another project's name is taken as written.
pub mod Account
pub mod HighWater
pub mod Wins
pub mod Isolation
pub mod Flips
mod Examples
use task_buddy_backend.Prelude.{
  ℕ, ltb, Bool, true, false, not, ◌&&◌, Option, none, some, List, [], ◌∷◌, ◌++◌, find_first, any,
  is_some, if◌then◌else◌,
}
use task_buddy_backend.Json.{Json, Fields, get, truthy}
use task_buddy_backend.Sync.Lww.{SyncEntity, model_whitelist, merge_payload}
use task_buddy_backend.Sync.Tables.{
  Row, Db, table, with_table, is_owned, is_stale, update_where, delete_row, key_of,
}

pub data SyncOp : Type 0 where
  update delete : SyncOp

pub record Change : Type 0 where
  pub entity : SyncEntity
  pub id : ℕ
  pub op : SyncOp
  pub payload : Fields
  pub client_updated_at : ℕ

-- The lists that the loop fills; an applied change also gives the `server_updated_at` it reports.
pub record Merge : Type 0 where
  pub db : Db
  pub applied : List Change
  pub conflicts : List (Change × Row)
  pub not_found : List Change
  pub high_water : Option ℕ
  pub completion_flips : List (ℕ × Bool)

owned_row : List Row → Json → ℕ → Bool
owned_row rows v user = elim (key_of v) [
  | none ↦ false
  | some id ↦ is_some (find_first (is_owned id user) rows)
]

fk_check : List Row → Option Json → ℕ → Bool
unfolding owned_row
fk_check rows none user = true
fk_check rows (some Json.null) user = true
fk_check rows (some v) user = owned_row rows v user

-- `_fk_target_owned`
pub fk_target_owned : Db → SyncEntity → Fields → ℕ → Bool
unfolding fk_check
fk_target_owned db SyncEntity.task merged user = fk_check db.projects (get "project_id" merged) user
fk_target_owned db SyncEntity.subtask merged user = fk_check db.tasks (get "task_id" merged) user
fk_target_owned db SyncEntity.project merged user = true

-- `_record_unapplied`
pub record_unapplied : ℕ → Change → Merge → Merge
record_unapplied user c m = elim (find_first (is_owned c.id user) (table c.entity m.db)) [
  | none ↦ record m { not_found = m.not_found ++ c ∷ [] }
  | some r ↦ record m { conflicts = m.conflicts ++ (c, r) ∷ [] }
]

abbrev pub raised : Option ℕ → ℕ → Option ℕ
raised none ts = some ts
raised (some h) ts = if ltb h ts then some ts else some h

-- A change that took effect, with the database that it left.
pub record_applied : Change → List (ℕ × Bool) → Db → Merge → Merge
record_applied c flips db m = record m {
  db = db;
  applied = m.applied ++ c ∷ [];
  high_water = raised m.high_water c.client_updated_at;
  completion_flips = m.completion_flips ++ flips;
}

pub flip_of : Change → Fields → List (ℕ × Bool)
flip_of c merged = elim c.entity [
  | SyncEntity.task ↦ elim (get "completed" merged) [ none ↦ [] | some v ↦ (c.id, truthy v) ∷ [] ]
  | _ ↦ []
]

pub delete_change : ℕ → Change → Merge → Option Merge
unfolding record_applied
delete_change user c m =
    if any (is_stale c.id user c.client_updated_at) (table c.entity m.db)
    then elim (delete_row c.entity c.id user c.client_updated_at m.db) [
      | none ↦ none
      | some db ↦ some (record_applied c [] db m)
    ]
    else some (record_unapplied user c m)

pub update_change : ℕ → Change → Merge → Merge
unfolding record_applied flip_of
update_change user c m =
    let merged = merge_payload (model_whitelist c.entity) c.payload in
    if not (fk_target_owned m.db c.entity merged user)
    then record_unapplied user c m
    else if any (is_stale c.id user c.client_updated_at) (table c.entity m.db)
    then record_applied c (flip_of c merged)
        (with_table c.entity
          (update_where c.id user c.client_updated_at merged (table c.entity m.db)) m.db)
        m
    else record_unapplied user c m

-- `refuses` is the database driver's: whether it raises on a value that is bound to a column of a
-- table, as on the text of a `due_date`, whose column is a DateTime. It raises with or without a row
-- that the statement matches.
module _ (refuses : SyncEntity → Fields → Bool) where
  pub merge_change : ℕ → Change → Merge → Option Merge
  unfolding delete_change update_change
  merge_change user c m = elim c.op [
    | SyncOp.delete ↦ delete_change user c m
    | SyncOp.update ↦
        let merged = merge_payload (model_whitelist c.entity) c.payload in
        if fk_target_owned m.db c.entity merged user && refuses c.entity merged
        then none
        else some (update_change user c m)
  ]

  -- The loop of `_merge_changes`.
  pub merge_loop : ℕ → List Change → Merge → Option Merge
  merge_loop user [] m = some m
  merge_loop user (c ∷ cs) m = elim (merge_change user c m) [
    | none ↦ none
    | some m' ↦ merge_loop user cs m'
  ]

  unfoldable pub merge_changes : ℕ → Option ℕ → List Change → Db → Option Merge
  unfolding merge_loop merge_change
  merge_changes user since changes db = merge_loop user changes (record {
    db = db;
    applied = [];
    conflicts = [];
    not_found = [];
    high_water = since;
    completion_flips = [];
  })
