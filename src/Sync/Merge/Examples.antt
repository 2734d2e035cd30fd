-- ===== src/Sync/Merge/Examples.antt =====
-- Concrete syncs of one user, and the theorems on them.
use task_buddy_backend.Prelude.{
  ℕ, ◌+◌, ◌≡◌, refl, Bool, true, false, Option, none, some, List, [], ◌∷◌, ltb, length, find_first,
  if◌then◌else◌, pos,
}
use task_buddy_backend.Json.{Json, Fields, get}
use task_buddy_backend.Focus.Skip.{merge}
use task_buddy_backend.Sync.Lww.{SyncEntity, merge_payload}
use task_buddy_backend.Sync.Tables.{Row, Db, table, is_owned}
use task_buddy_backend.Sync.Merge.{
  Change, SyncOp, Merge, fk_target_owned, fk_check, owned_row, record_unapplied, record_applied,
  flip_of, delete_change, update_change, merge_change, merge_loop, merge_changes,
}
use task_buddy_backend.Sync.Merge.HighWater.{AllCovered, NotBelow, merge_changes-AllCovered}
use task_buddy_backend.Sync.Merge.Wins.{mergeable, update_change_wins, update_change_replay}
use task_buddy_backend.Sync.Merge.Isolation.{SameForeign, merge_changes-SameForeign}

abbrev pub stored : ℕ → ℕ → ℕ → Row
stored id user at = record {
  id = id;
  user_id = user;
  updated_at = at;
  columns = Fields.field "title" (Json.str "old") Fields.end;
}

-- User 1 has two tasks, user 2 has one.
abbrev pub before : Db
before = record {
  tasks = stored 1 1 10 ∷ stored 2 2 10 ∷ stored 3 1 90 ∷ [];
  subtasks = [];
  projects = stored 7 1 20 ∷ [];
  breakdown_answers = some 1 ∷ [];
}

-- A new title for a task, at an instant.
abbrev rename : ℕ → ℕ → Change
rename id at = record {
  entity = SyncEntity.task;
  id = id;
  op = SyncOp.update;
  payload =
      Fields.field "title" (Json.str "new") (Fields.field "user_id" (Json.int (pos 9)) Fields.end);
  client_updated_at = at;
}

-- One that wins, one that comes late, one of another user's task, and a deletion.
abbrev batch : List Change
batch =
    rename 1 50
    ∷ rename 3 50
    ∷ rename 2 50
    ∷ record {
      entity = SyncEntity.project;
      id = 7;
      op = SyncOp.delete;
      payload = Fields.end;
      client_updated_at = 60;
    }
    ∷ []

-- A driver that refuses a text for a date.
abbrev is_text : Option Json → Bool
is_text (some (Json.str s)) = true
is_text _ = false

abbrev refuses_dates : SyncEntity → Fields → Bool
refuses_dates entity merged = is_text (get "due_date" merged)

abbrev empty : Merge
empty = record {
  db = before;
  applied = [];
  conflicts = [];
  not_found = [];
  high_water = some 5;
  completion_flips = [];
}

abbrev got : Option Merge → Merge
got none = empty
got (some m) = m

abbrev after : Merge
after = got (merge_changes refuses_dates 1 (some 5) batch before)

merged : merge_changes refuses_dates 1 (some 5) batch before ≡ some after
unfolding merge_changes merge_loop merge_change delete_change update_change fk_target_owned fk_check
    owned_row record_unapplied record_applied flip_of merge_payload
merged = refl

-- A due date is refused, and so is the deletion of the task that a breakdown answer names.
abbrev with_date : Change
with_date = record (rename 1 50) {
  payload = Fields.field "due_date" (Json.str "2026-01-01T00:00:00Z") Fields.end;
}

test-date : merge_changes refuses_dates 1 none (with_date ∷ []) before ≡ none
unfolding merge_changes merge_loop merge_change update_change fk_target_owned fk_check owned_row
    merge_payload
test-date = refl

abbrev drop_task : ℕ → Change
drop_task id = record (rename id 95) { op = SyncOp.delete }

test-breakdown : merge_changes refuses_dates 1 none (drop_task 1 ∷ []) before ≡ none
unfolding merge_changes merge_loop merge_change delete_change
test-breakdown = refl

merge_changes-AllCovered_example :
    AllCovered after.high_water after.applied × NotBelow after.high_water (some 5)
merge_changes-AllCovered_example =
    merge_changes-AllCovered refuses_dates 1 (some 5) batch before after merged

merge_changes-SameForeign_example : SameForeign 1 after.db before
merge_changes-SameForeign_example =
    merge_changes-SameForeign refuses_dates 1 (some 5) batch before after merged

fits : fk_target_owned before SyncEntity.task (mergeable (rename 1 50)) 1 ≡ true
unfolding fk_target_owned fk_check owned_row merge_payload
fits = refl

update_change_wins_example :
    find_first (is_owned 1 1) (table SyncEntity.task (update_change 1 (rename 1 50) empty).db)
    ≡ some (
        if ltb (stored 1 1 10).updated_at 50
        then record (stored 1 1 10) {
          updated_at = 50;
          columns = merge (stored 1 1 10).columns (mergeable (rename 1 50));
        }
        else stored 1 1 10)
update_change_wins_example = update_change_wins 1 (rename 1 50) empty fits (stored 1 1 10) refl

update_change_replay_example :
    let once = update_change 1 (rename 1 50) empty in
    let twice = update_change 1 (rename 1 50) once in
    (length once.applied ≡ length empty.applied + 1)
    × (twice.db ≡ once.db)
    × (twice.applied ≡ once.applied)
    × (length twice.conflicts ≡ length once.conflicts + 1)
update_change_replay_example = update_change_replay 1 (rename 1 50) empty fits refl
