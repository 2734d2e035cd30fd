-- ===== src/Sync/Delta.antt =====
-- `_fetch_delta` of app/api/routers/sync.py.
pub mod Exact
use task_buddy_backend.Prelude.{
  ℕ, ltb, leb, ◌==◌, Bool, true, ◌&&◌, Option, none, some, List, [], ◌∷◌, keep, if◌then◌else◌,
}
use task_buddy_backend.Sync.Tables.{Row, Db}
use task_buddy_backend.Sync.Merge.{raised}

pub record SyncDelta : Type 0 where
  pub tasks : List Row
  pub subtasks : List Row
  pub projects : List Row

abbrev pub is_newer : Option ℕ → Row → Bool
is_newer none r = true
is_newer (some h) r = ltb h r.updated_at

-- `model.user_id == user_id` and, past a mark, `model.updated_at > high_water`.
abbrev pub is_wanted : ℕ → Option ℕ → Row → Bool
is_wanted user mark r = r.user_id == user && is_newer mark r

-- `ORDER BY updated_at`; SQL leaves the order of ties open, and here they keep the table's.
abbrev pub insert_row : Row → List Row → List Row
insert_row r [] = r ∷ []
insert_row r (q ∷ qs) = if leb r.updated_at q.updated_at then r ∷ q ∷ qs else q ∷ insert_row r qs

abbrev pub order_by_time : List Row → List Row
order_by_time [] = []
order_by_time (r ∷ rs) = insert_row r (order_by_time rs)

unfoldable pub select_rows : ℕ → Option ℕ → List Row → List Row
select_rows user mark rows = order_by_time (keep (is_wanted user mark) rows)

-- The mark after the rows of one entity: each row raises it for the entities that follow.
unfoldable pub raise_mark : Option ℕ → List Row → Option ℕ
raise_mark mark [] = mark
raise_mark mark (r ∷ rs) = raise_mark (raised mark r.updated_at) rs

unfoldable pub fetch_delta : ℕ → Option ℕ → Db → SyncDelta
fetch_delta user mark db =
    let tasks = select_rows user mark db.tasks in
    let mark' = raise_mark mark tasks in
    let subtasks = select_rows user mark' db.subtasks in
    let mark'' = raise_mark mark' subtasks in
    record { tasks = tasks; subtasks = subtasks; projects = select_rows user mark'' db.projects }
