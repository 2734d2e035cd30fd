-- ===== src/Sync/Tables.antt =====
-- The tables that a sync reads and writes, and the statements that app/api/routers/sync.py runs on
-- them. An instant is a number of microseconds from year 1. A row's other columns are JSON values.
use task_buddy_backend.Prelude.{
  ℕ, ltb, ◌==◌, Bool, true, false, ◌&&◌, ◌||◌, Option, none, some, List, [], ◌∷◌, pos, any,
  if◌then◌else◌,
}
use task_buddy_backend.Json.{Json, Fields, get, put}
use task_buddy_backend.Focus.Skip.{merge}
use task_buddy_backend.Sync.Lww.{SyncEntity}

pub record Row : Type 0 where
  pub id : ℕ
  pub user_id : ℕ
  pub updated_at : ℕ
  pub columns : Fields

pub record Db : Type 0 where
  pub tasks : List Row
  pub subtasks : List Row
  pub projects : List Row
  -- the `context_task_id` of each row of tbl_breakdown_answers
  pub breakdown_answers : List (Option ℕ)

abbrev pub table : SyncEntity → Db → List Row
table SyncEntity.task db = db.tasks
table SyncEntity.subtask db = db.subtasks
table SyncEntity.project db = db.projects

abbrev pub with_table : SyncEntity → List Row → Db → Db
with_table SyncEntity.task rows db = record db { tasks = rows }
with_table SyncEntity.subtask rows db = record db { subtasks = rows }
with_table SyncEntity.project rows db = record db { projects = rows }

-- `model.id == row_id, model.user_id == user_id`
abbrev pub is_owned : ℕ → ℕ → Row → Bool
is_owned id user r = r.id == id && r.user_id == user

-- The same, and `model.updated_at < ts`.
abbrev pub is_stale : ℕ → ℕ → ℕ → Row → Bool
is_stale id user ts r = is_owned id user r && ltb r.updated_at ts

-- `UPDATE … SET **merged, updated_at = ts WHERE …`, of values that the driver takes
abbrev pub update_where : ℕ → ℕ → ℕ → Fields → List Row → List Row
update_where id user ts merged [] = []
update_where id user ts merged (r ∷ rows) =
    (if is_stale id user ts r
      then record r { updated_at = ts; columns = merge r.columns merged }
      else r)
    ∷ update_where id user ts merged rows

-- `DELETE … WHERE …`
abbrev pub delete_where : ℕ → ℕ → ℕ → List Row → List Row
delete_where id user ts [] = []
delete_where id user ts (r ∷ rows) =
    let rest = delete_where id user ts rows in if is_stale id user ts r then rest else r ∷ rest

-- The row that a foreign key names: a JSON `true` is compared as 1.
abbrev pub key_of : Json → Option ℕ
key_of (Json.int (pos n)) = some n
key_of (Json.bool true) = some 1
key_of (Json.bool false) = some 0
key_of _ = none

abbrev pub names : ℕ → Option Json → Bool
names id none = false
names id (some v) = elim (key_of v) [ none ↦ false | some n ↦ n == id ]

abbrev pub is_child : ℕ → Row → Bool
is_child id r = names id (get "task_id" r.columns)

-- `ON DELETE SET NULL` on the tasks of a project.
abbrev pub unlink : ℕ → List Row → List Row
unlink id [] = []
unlink id (r ∷ rows) =
    (if names id (get "project_id" r.columns)
      then record r { columns = put "project_id" Json.null r.columns }
      else r)
    ∷ unlink id rows

abbrev pub is_context : ℕ → Option ℕ → Bool
is_context id none = false
is_context id (some task) = task == id

-- What the deletion of a row does through the foreign keys: a task that has subtasks or a breakdown
-- answer cannot be deleted (the statement raises `IntegrityError`, here `none`), and a project's tasks
-- are unlinked.
abbrev pub delete_row : SyncEntity → ℕ → ℕ → ℕ → Db → Option Db
delete_row SyncEntity.task id user ts db =
    if any (is_child id) db.subtasks || any (is_context id) db.breakdown_answers
    then none
    else some (record db { tasks = delete_where id user ts db.tasks })
delete_row SyncEntity.subtask id user ts db =
    some (record db { subtasks = delete_where id user ts db.subtasks })
delete_row SyncEntity.project id user ts db =
    some (record db { projects = delete_where id user ts db.projects; tasks = unlink id db.tasks })
