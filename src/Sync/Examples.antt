-- ===== src/Sync/Examples.antt =====
-- Concrete payloads, deltas and requests of a sync, and the theorems on them.
use task_buddy_backend.Prelude.{
  ℕ, ◌<◌, ◌≡◌, refl, Bool, true, false, none, some, List, [], ◌∷◌, arith, count, pos,
}
use task_buddy_backend.Json.{Json, Fields}
use task_buddy_backend.Sync.Lww.{
  SyncEntity, DateTime, validate_payload, field_fault, typed_fault, text_fault, merge_payload,
  model_whitelist,
}
use task_buddy_backend.Sync.Lww.Valid.{AllFit, validate_payload-AllFit}
use task_buddy_backend.Sync.Tables.{Row, Db}
use task_buddy_backend.Sync.Delta.{fetch_delta, select_rows}
use task_buddy_backend.Sync.Delta.Exact.{at_or_after, at_or_before, fetch_delta_skips}
use task_buddy_backend.Sync.Merge.{Change, SyncOp}
use task_buddy_backend.Sync.Endpoint.{sync}
use task_buddy_backend.Sync.Endpoint.Answer.{IsAnswer, sync-IsAnswer}

abbrev row_at : ℕ → Row
row_at at = record { id = at; user_id = 1; updated_at = at; columns = Fields.end }

abbrev db : Db
db = record {
  tasks = row_at 9 ∷ row_at 8 ∷ [];
  subtasks = row_at 6 ∷ [];
  projects = row_at 7 ∷ [];
  breakdown_answers = [];
}

abbrev stamp : ℕ → DateTime
stamp at = record { instant = at; is_aware = true }

-- A payload with a field that is not listed.
abbrev payload : Fields
payload =
    Fields.field "completed" (Json.bool true)
      (Fields.field "project_id" Json.null (Fields.field "user_id" (Json.int (pos 2)) Fields.end))

-- A `fromisoformat` that accepts every text.
abbrev accepts : List ℕ → Bool
accepts codes = true

valid : validate_payload accepts payload SyncEntity.task ≡ none
unfolding validate_payload field_fault typed_fault text_fault
valid = refl

validate_payload-AllFit_example :
    AllFit SyncEntity.task (merge_payload (model_whitelist SyncEntity.task) payload)
validate_payload-AllFit_example = validate_payload-AllFit accepts SyncEntity.task payload valid

has_late_task : 0 < count (at_or_after 8) (fetch_delta 1 (some 5) db).tasks
unfolding fetch_delta select_rows
has_late_task = omega arith

fetch_delta_skips_example :
    (count (at_or_before 8) (fetch_delta 1 (some 5) db).subtasks ≡ 0)
    × (count (at_or_before 8) (fetch_delta 1 (some 5) db).projects ≡ 0)
fetch_delta_skips_example = fetch_delta_skips 1 8 (some 5) db has_late_task

-- A driver that takes every value.
abbrev takes : SyncEntity → Fields → Bool
takes entity merged = false

-- Task 9 is finished on the client.
abbrev finish : Change
finish = record {
  entity = SyncEntity.task;
  id = 9;
  op = SyncOp.update;
  payload = payload;
  client_updated_at = 12;
}

sync-IsAnswer_example :
    IsAnswer accepts takes 100 1
      (some 5)
      (finish ∷ [])
      db
      (sync accepts takes 100 1 (some 5) (finish ∷ []) db)
sync-IsAnswer_example = sync-IsAnswer accepts takes 100 1 (some 5) (finish ∷ []) db
