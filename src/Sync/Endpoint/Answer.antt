-- ===== src/Sync/Endpoint/Answer.antt =====
-- What the three replies of the `sync` handler of app/api/routers/sync.py say.
use task_buddy_backend.Prelude.{
  ℕ, ◌+◌, ◌≡◌, refl, ◌⊎◌, inl, inr, Bool, true, false, Option, none, some, List, [], ◌∷◌, String,
  arith, get_or, length, if◌then◌else◌, Option-cases,
}
use task_buddy_backend.Json.{Fields}
use task_buddy_backend.Sync.Lww.{SyncEntity, Fault, validate_payload}
use task_buddy_backend.Sync.Tables.{Db}
use task_buddy_backend.Sync.Merge.{Change, Merge, merge_changes}
use task_buddy_backend.Sync.Merge.Account.{merge_changes_reports}
use task_buddy_backend.Sync.Merge.Flips.{completions, merge_changes-flips}
use task_buddy_backend.Sync.Merge.HighWater.{AllCovered, NotBelow, merge_changes-AllCovered}
use task_buddy_backend.Sync.Merge.Isolation.{SameForeign, merge_changes-SameForeign}
use task_buddy_backend.Sync.Delta.Exact.{IsDelta, fetch_delta_tasks}
use task_buddy_backend.Sync.Endpoint.{
  Job, ingest_history, delete_history, SyncResponse, Reply, unprocessable, server_error, synced,
  jobs, first_fault, respond, sync,
}

-- The job of each completion, in order.
abbrev pub job_of : ℕ × Bool → Job
job_of (id, done) = if done then ingest_history id else delete_history id

abbrev pub IsJobs : List (ℕ × Bool) → List Job → Type 0
IsJobs [] [] = Unit
IsJobs (flip ∷ flips) (job ∷ rest) = (job ≡ job_of flip) × IsJobs flips rest
IsJobs _ _ = ⊥

jobs-IsJobs : (flips : List (ℕ × Bool)) → IsJobs flips (jobs flips)
unfolding jobs
jobs-IsJobs [] = tt
jobs-IsJobs ((id, true) ∷ flips) = (refl, jobs-IsJobs flips)
jobs-IsJobs ((id, false) ∷ flips) = (refl, jobs-IsJobs flips)

-- The mark that a reply's delta starts from: the one that it sends, or none where the client sent
-- none and nothing was applied, and then it sends the time.
abbrev pub IsMark : ℕ → Option ℕ → List Change → ℕ → Option ℕ → Type 0
IsMark now since applied sent mark =
    (mark ≡ some sent) ⊎ ((mark ≡ none) × (since ≡ none) × (applied ≡ []) × (sent ≡ now))

get_or-IsMark :
    (now : ℕ) (since : Option ℕ) (applied : List Change) (mark : Option ℕ)
    → AllCovered mark applied
    → NotBelow mark since
    → IsMark now since applied (get_or mark now) mark
get_or-IsMark now since applied (some h) covered above = inl refl
get_or-IsMark now none [] none covered above = inr (refl, refl, refl, refl)
get_or-IsMark now none (c ∷ cs) none covered above = absurd (covered.0)
get_or-IsMark now (some k) applied none covered above = absurd above

module _ (fromisoformat : List ℕ → Bool) (refuses : SyncEntity → Fields → Bool) where
  abbrev pub AllValid : List Change → Type 0
  AllValid [] = Unit
  AllValid (c ∷ cs) = (validate_payload fromisoformat c.payload c.entity ≡ none) × AllValid cs

  -- The first change with a fault has this one.
  abbrev pub FirstFault : List Change → String × Fault → Type 0
  FirstFault [] f = ⊥
  FirstFault (c ∷ cs) f =
      (validate_payload fromisoformat c.payload c.entity ≡ some f)
      ⊎ ((validate_payload fromisoformat c.payload c.entity ≡ none) × FirstFault cs f)

  first_fault-AllValid :
      (cs : List Change) → first_fault fromisoformat refuses cs ≡ none → AllValid cs
  unfolding first_fault
  first_fault-AllValid [] e = tt
  first_fault-AllValid (c ∷ cs) e =
      elim (Option-cases (validate_payload fromisoformat c.payload c.entity)) [
        | inl fine ↦ (fine, first_fault-AllValid cs (ground (arith, e, fine)))
        | inr (f, fault) ↦ absurd (ground (arith, e, fault))
      ]

  first_fault-FirstFault :
      (cs : List Change) (f : String × Fault)
      → first_fault fromisoformat refuses cs ≡ some f
      → FirstFault cs f
  unfolding first_fault
  first_fault-FirstFault [] f e = absurd (cc)
  first_fault-FirstFault (c ∷ cs) f e =
      elim (Option-cases (validate_payload fromisoformat c.payload c.entity)) [
        | inl fine ↦ inr (fine, first_fault-FirstFault cs f (ground (arith, e, fine)))
        | inr (g, fault) ↦ inl (ground (arith, e, fault))
      ]

  -- What a reply with the changes says.
  pub record IsSynced (now user : ℕ) (since : Option ℕ) (changes : List Change) (before : Db)
      (r : SyncResponse) (after : Db) (scheduled : List Job) : Type 0 where
    pub valid : AllValid changes
    pub all_reported : length r.applied + length r.conflicts + length r.not_found ≡ length changes
    pub others_kept : SameForeign user after before
    pub mark : Option ℕ
    pub mark_sent : IsMark now since r.applied r.since mark
    pub covers : AllCovered mark r.applied × NotBelow mark since
    pub delta : IsDelta user mark after r.delta
    pub scheduled_jobs : IsJobs (completions r.applied) scheduled

  abbrev pub IsAnswer : ℕ → ℕ → Option ℕ → List Change → Db → Reply × Db × List Job → Type 0
  IsAnswer now user since changes db (synced r, after, scheduled) =
      IsSynced now user since changes db r after scheduled
  IsAnswer now user since changes db (server_error, after, scheduled) =
      AllValid changes
      × (merge_changes refuses user since changes db ≡ none)
      × (after ≡ db)
      × (scheduled ≡ [])
  IsAnswer now user since changes db (unprocessable k f, after, scheduled) =
      FirstFault changes (k, f) × (after ≡ db) × (scheduled ≡ [])

  respond-IsSynced :
      (now user : ℕ) (since : Option ℕ) (changes : List Change) (db : Db) (m : Merge)
      → AllValid changes
      → merge_changes refuses user since changes db ≡ some m
      → IsAnswer now user since changes db (respond fromisoformat refuses now user m)
  unfolding respond
  respond-IsSynced now user since changes db m valid went =
      let covered = merge_changes-AllCovered refuses user since changes db m went in
      record {
        valid = valid;
        all_reported = merge_changes_reports refuses user since changes db m went;
        others_kept = merge_changes-SameForeign refuses user since changes db m went;
        mark = m.high_water;
        mark_sent = get_or-IsMark now since m.applied m.high_water (covered.0) (covered.1);
        covers = covered;
        delta = fetch_delta_tasks user m.high_water m.db;
        scheduled_jobs =
            rw (← merge_changes-flips refuses user since changes db m went)
              (jobs-IsJobs m.completion_flips);
      }

  -- For every request: `sync` answers 422 only with the fault of the first invalid change and 500
  -- only if all changes are valid and the merge is refused, both with the database unchanged and
  -- no job. Otherwise all changes are valid; applied changes, conflicts and not found ones are as
  -- many as the changes; other users' rows keep keys, owners and stamps; the mark sent is at least
  -- every applied stamp and the client's mark, or the time if there is neither; the delta has
  -- exactly the user's tasks past that mark and no subtask or project that is not; and the jobs
  -- are, in order, an ingestion or a removal for each applied task update that sets its
  -- completion.
  pub sync-IsAnswer :
      (now user : ℕ) (since : Option ℕ) (changes : List Change) (db : Db)
      → IsAnswer now user since changes db (sync fromisoformat refuses now user since changes db)
  unfolding sync
  sync-IsAnswer now user since changes db =
      elim (Option-cases (first_fault fromisoformat refuses changes)) [
        | inr ((k, f), e) ↦ rw (e, sync) (first_fault-FirstFault changes (k, f) e, refl, refl)
        | inl e ↦
            let valid = first_fault-AllValid changes e in
            elim (Option-cases (merge_changes refuses user since changes db)) [
              | inl refused ↦ rw (e, refused, sync) (valid, refused, refl, refl)
              | inr (m, went) ↦
                  rw (e, went, sync) (respond-IsSynced now user since changes db m valid went)
            ]
      ]
