-- ===== src/Sync/Delta/Exact.antt =====
-- Which rows `_fetch_delta` of app/api/routers/sync.py selects for each entity.
use task_buddy_backend.Prelude.{
  ℕ, ◌+◌, ◌≤◌, ◌<◌, ◌≡◌, refl, ◌∙◌, inl, inr, Bool-cases, Bool, not, ◌&&◌, ◌==◌, ltb, Option, none,
  some, List, [], ◌∷◌, arith, count, keep, bit, leb,
}
use task_buddy_backend.Sync.Tables.{Row, Db}
use task_buddy_backend.Sync.Merge.{raised}
use task_buddy_backend.Sync.Delta.{
  SyncDelta, is_wanted, insert_row, order_by_time, select_rows, raise_mark, fetch_delta,
}

module _ (p : Row → Bool) where
  count-insert_row :
      (r : Row) (rows : List Row) → count p (insert_row r rows) ≡ bit (p r) + count p rows
  count-insert_row r [] = refl
  count-insert_row r (q ∷ qs) = ground (arith, count-insert_row r qs)

  count-order_by_time : (rows : List Row) → count p (order_by_time rows) ≡ count p rows
  count-order_by_time [] = refl
  count-order_by_time (r ∷ rows) =
      omega (arith, count-insert_row r (order_by_time rows), count-order_by_time rows)

  count-keep :
      (q : Row → Bool) (rows : List Row) → count p (keep q rows) ≡ count (λ r. q r && p r) rows
  count-keep q [] = refl
  count-keep q (r ∷ rows) = ground (arith, count-keep q rows)

  -- A selection holds each wanted row as often as the table does, and no other row.
  count-select_rows :
      (user : ℕ) (mark : Option ℕ) (rows : List Row)
      → count p (select_rows user mark rows) ≡ count (λ r. is_wanted user mark r && p r) rows
  unfolding select_rows
  count-select_rows user mark rows = omega (
    arith,
    count-order_by_time (keep (is_wanted user mark) rows),
    count-keep (is_wanted user mark) rows,
  )

-- In ascending order of their stamps.
abbrev pub IsOrdered : List Row → Type 0
IsOrdered [] = Unit
IsOrdered (r ∷ []) = Unit
IsOrdered (r ∷ q ∷ rows) = (r.updated_at ≤ q.updated_at) × IsOrdered (q ∷ rows)

insert_row-IsOrdered : (r : Row) (rows : List Row) → IsOrdered rows → IsOrdered (insert_row r rows)
insert_row-IsOrdered r [] h = tt
insert_row-IsOrdered r (q ∷ []) h = ground arith
insert_row-IsOrdered r (q ∷ s ∷ rows) h = ground (arith, insert_row-IsOrdered r (s ∷ rows) h.1)

order_by_time-IsOrdered : (rows : List Row) → IsOrdered (order_by_time rows)
order_by_time-IsOrdered [] = tt
order_by_time-IsOrdered (r ∷ rows) =
    insert_row-IsOrdered r (order_by_time rows) (order_by_time-IsOrdered rows)

-- A row of the user's, stamped after the client's mark where there is one.
abbrev pub is_due : ℕ → Option ℕ → Row → Bool
is_due user none r = r.user_id == user
is_due user (some mark) r = r.user_id == user && ltb mark r.updated_at

is_wanted-is_due :
    (p : Row → Bool) (user : ℕ) (mark : Option ℕ) (rows : List Row)
    → count (λ r. is_wanted user mark r && p r) rows ≡ count (λ r. is_due user mark r && p r) rows
is_wanted-is_due p user mark [] = refl
is_wanted-is_due p user none (r ∷ rows) = ground (arith, is_wanted-is_due p user none rows)
is_wanted-is_due p user (some m) (r ∷ rows) = ground (arith, is_wanted-is_due p user (some m) rows)

-- A mark that is no lower, so that what is past it is past the other one.
abbrev pub NoLower : Option ℕ → Option ℕ → Type 0
NoLower none mark = Unit
NoLower (some m) none = ⊥
NoLower (some m) (some n) = m ≤ n

NoLower-refl : (mark : Option ℕ) → NoLower mark mark
NoLower-refl none = tt
NoLower-refl (some m) = omega arith

raise_mark-NoLower :
    (low mark : Option ℕ) (rows : List Row) → NoLower low mark → NoLower low (raise_mark mark rows)
unfolding raise_mark
raise_mark-NoLower low mark [] h = h
raise_mark-NoLower none mark (r ∷ rows) h =
    raise_mark-NoLower none (raised mark r.updated_at) rows tt
raise_mark-NoLower (some m) none (r ∷ rows) h = absurd h
raise_mark-NoLower (some m) (some n) (r ∷ rows) h =
    raise_mark-NoLower (some m) (raised (some n) r.updated_at) rows (ground arith)

none_undue :
    (user : ℕ) (low mark : Option ℕ) (rows : List Row)
    → NoLower low mark
    → count (λ r. is_wanted user mark r && not (is_due user low r)) rows ≡ 0
none_undue user low mark [] h = refl
none_undue user none none (r ∷ rows) h = ground (arith, none_undue user none none rows h)
none_undue user none (some n) (r ∷ rows) h = ground (arith, none_undue user none (some n) rows h)
none_undue user (some m) none (r ∷ rows) h = absurd h
none_undue user (some m) (some n) (r ∷ rows) h =
    ground (arith, none_undue user (some m) (some n) rows h)

-- A delta: the tasks that are due, each as often as the table has it, and no subtask or project that
-- is not due, all in ascending order of their stamps.
abbrev pub IsDelta : ℕ → Option ℕ → Db → SyncDelta → Type 0
IsDelta user mark db delta =
    ((p : Row → Bool) → count p delta.tasks ≡ count (λ r. is_due user mark r && p r) db.tasks)
    × IsOrdered delta.tasks
    × (count (λ r. not (is_due user mark r)) delta.subtasks ≡ 0)
    × (count (λ r. not (is_due user mark r)) delta.projects ≡ 0)
    × IsOrdered delta.subtasks
    × IsOrdered delta.projects

pub fetch_delta_tasks :
    (user : ℕ) (mark : Option ℕ) (db : Db) → IsDelta user mark db (fetch_delta user mark db)
unfolding fetch_delta select_rows
fetch_delta_tasks user mark db =
    let mark1 = raise_mark mark (select_rows user mark db.tasks) in
    let rows = select_rows user mark1 db.subtasks in
    let mark2 = raise_mark mark1 rows in
    let risen = raise_mark-NoLower mark mark (select_rows user mark db.tasks) (NoLower-refl mark) in
    (
      λ p. count-select_rows p user mark db.tasks ∙ is_wanted-is_due p user mark db.tasks,
      order_by_time-IsOrdered (keep (is_wanted user mark) db.tasks),
      count-select_rows (λ r. not (is_due user mark r)) user mark1 db.subtasks
          ∙ none_undue user mark mark1 db.subtasks risen,
      count-select_rows (λ r. not (is_due user mark r)) user mark2 db.projects
          ∙ none_undue user mark mark2 db.projects (raise_mark-NoLower mark mark1 rows risen),
      order_by_time-IsOrdered (keep (is_wanted user mark1) db.subtasks),
      order_by_time-IsOrdered (keep (is_wanted user mark2) db.projects),
    )

-- A mark that is at least `n`.
abbrev pub IsPast : ℕ → Option ℕ → Type 0
IsPast n none = ⊥
IsPast n (some h) = n ≤ h

raised-IsPast : (n ts : ℕ) (mark : Option ℕ) → IsPast n mark → IsPast n (raised mark ts)
raised-IsPast n ts none h = absurd h
raised-IsPast n ts (some m) h = ground arith

raise_mark-IsPast :
    (n : ℕ) (mark : Option ℕ) (rows : List Row) → IsPast n mark → IsPast n (raise_mark mark rows)
unfolding raise_mark
raise_mark-IsPast n mark [] h = h
raise_mark-IsPast n mark (r ∷ rows) h =
    raise_mark-IsPast n (raised mark r.updated_at) rows (raised-IsPast n r.updated_at mark h)

raised-IsPast_row : (n ts : ℕ) (mark : Option ℕ) → n ≤ ts → IsPast n (raised mark ts)
raised-IsPast_row n ts none h = h
raised-IsPast_row n ts (some m) h = ground arith

abbrev pub at_or_after : ℕ → Row → Bool
at_or_after n r = leb n r.updated_at

abbrev pub at_or_before : ℕ → Row → Bool
at_or_before n r = leb r.updated_at n

raise_mark-IsPast_row :
    (n : ℕ) (mark : Option ℕ) (rows : List Row)
    → 0 < count (at_or_after n) rows
    → IsPast n (raise_mark mark rows)
unfolding raise_mark
raise_mark-IsPast_row n mark [] h = absurd (omega arith)
raise_mark-IsPast_row n mark (r ∷ rows) h = elim (Bool-cases (at_or_after n r)) [
  | inl late ↦
      raise_mark-IsPast n (raised mark r.updated_at) rows
        (raised-IsPast_row n r.updated_at mark (ground (arith, late)))
  | inr early ↦ raise_mark-IsPast_row n (raised mark r.updated_at) rows (ground (arith, early, h))
]

none_wanted :
    (user n : ℕ) (mark : Option ℕ) (rows : List Row)
    → IsPast n mark
    → count (λ r. is_wanted user mark r && at_or_before n r) rows ≡ 0
none_wanted user n none rows h = absurd h
none_wanted user n (some m) [] h = refl
none_wanted user n (some m) (r ∷ rows) h = ground (arith, none_wanted user n (some m) rows h)

-- If a delta holds a task stamped n or later, it holds no subtask and no project stamped n or
-- earlier.
pub fetch_delta_skips :
    (user n : ℕ) (mark : Option ℕ) (db : Db)
    → 0 < count (at_or_after n) (fetch_delta user mark db).tasks
    → (count (at_or_before n) (fetch_delta user mark db).subtasks ≡ 0)
      × (count (at_or_before n) (fetch_delta user mark db).projects ≡ 0)
unfolding fetch_delta
fetch_delta_skips user n mark db h =
    let tasks = select_rows user mark db.tasks in
    let mark1 = raise_mark mark tasks in
    let past = raise_mark-IsPast_row n mark tasks h in
    let mark2 = raise_mark mark1 (select_rows user mark1 db.subtasks) in
    (
      count-select_rows (at_or_before n) user mark1 db.subtasks
          ∙ none_wanted user n mark1 db.subtasks past,
      count-select_rows (at_or_before n) user mark2 db.projects
          ∙ none_wanted user n mark2 db.projects
              (raise_mark-IsPast n mark1 (select_rows user mark1 db.subtasks) past),
    )
