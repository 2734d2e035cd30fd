-- ===== src/Sync/Endpoint.antt =====
-- The `sync` handler of app/api/routers/sync.py: validation, merge, delta and commit.
pub mod Answer
use task_buddy_backend.Prelude.{
  ℕ, ◌≡◌, refl, Bool, true, false, Option, none, some, List, [], ◌∷◌, String, arith, get_or, inl,
  inr, Option-cases, length,
}
use task_buddy_backend.Json.{Fields}
use task_buddy_backend.Sync.Lww.{SyncEntity, Fault, validate_payload}
use task_buddy_backend.Sync.Tables.{Row, Db}
use task_buddy_backend.Sync.Merge.{Change, Merge, merge_changes}
use task_buddy_backend.Sync.Delta.{SyncDelta, fetch_delta}

-- A job for the background: put a finished task into the history, or take one out of it.
pub data Job : Type 0 where
  ingest_history delete_history : ℕ → Job

pub record SyncResponse : Type 0 where
  pub applied : List Change
  pub conflicts : List (Change × Row)
  pub not_found : List Change
  pub delta : SyncDelta
  pub since : ℕ

pub data Reply : Type 0 where
  -- 422, with the field and what is wrong with it
  unprocessable : String → Fault → Reply
  -- an error of the database that nothing catches
  server_error : Reply
  synced : SyncResponse → Reply

pub jobs : List (ℕ × Bool) → List Job
jobs [] = []
jobs ((id, true) ∷ flips) = ingest_history id ∷ jobs flips
jobs ((id, false) ∷ flips) = delete_history id ∷ jobs flips

module _ (fromisoformat : List ℕ → Bool) (refuses : SyncEntity → Fields → Bool) where
  -- The first fault of the first change that has one.
  pub first_fault : List Change → Option (String × Fault)
  first_fault [] = none
  first_fault (c ∷ cs) =
      let rest = first_fault cs in
      elim (validate_payload fromisoformat c.payload c.entity) [ none ↦ rest | some f ↦ some f ]

  pub respond : ℕ → ℕ → Merge → Reply × Db × List Job
  unfolding jobs
  respond now user m = (
    synced (record {
      applied = m.applied;
      conflicts = m.conflicts;
      not_found = m.not_found;
      delta = fetch_delta user m.high_water m.db;
      since = get_or m.high_water now;
    }),
    m.db,
    jobs m.completion_flips,
  )

  -- The reply, the database after it, and the jobs that it schedules.
  unfoldable pub sync : ℕ → ℕ → Option ℕ → List Change → Db → Reply × Db × List Job
  unfolding first_fault respond
  sync now user since changes db = elim (first_fault changes) [
    | some (k, f) ↦ (unprocessable k f, db, [])
    | none ↦ elim (merge_changes refuses user since changes db) [
      | none ↦ (server_error, db, [])
      | some m ↦ respond now user m
    ]
  ]
