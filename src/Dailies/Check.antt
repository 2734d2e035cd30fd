-- ===== src/Dailies/Check.antt =====
-- Checking a daily on one day: `_transition_marks`, `_apply_share` and `score_check` of
-- app/game/daily_service.py. A share is counted in parts of the day, `whole n` of them for `n` items.
pub mod Once
use task_buddy_backend.Prelude.{
  ℕ, ◌+◌, ◌-◌, Bool, true, false, not, ◌&&◌, ◌||◌, Option, none, some, List, [], ◌∷◌, String, ltb,
  leb, ◌==◌, bit, any, count, find_first, update_first, length, is_some, if◌then◌else◌, Result, ok,
  value_error, ◌>>=◌, ◌>>◌, raise_if,
}
use task_buddy_backend.Json.{Json}
use task_buddy_backend.Dailies.Recurrence.{
  Recurrence, Schedule, times_per_week, parse_recurrence, is_schedulable, week_end,
}

-- The check rows of the day: of the daily as a whole, and of its items with whether each is done.
pub record Marks : Type 0 where
  pub master : Option Bool
  pub items : List (ℕ × Bool)

pub record Transition : Type 0 where
  pub marks : Marks
  pub share : ℕ
  pub first_completion : Bool
  pub uncheck : Bool
  pub reason : Option String

abbrev pub whole : ℕ → ℕ
whole n_items = if n_items == 0 then 1 else n_items

abbrev pub is_item : ℕ → ℕ × Bool → Bool
is_item id (k, d) = k == id

abbrev pub is_done : ℕ × Bool → Bool
is_done (k, d) = d

abbrev pub holds : Option Bool → Bool
holds none = false
holds (some b) = b

abbrev pub item_mark : ℕ → List (ℕ × Bool) → Option Bool
item_mark id marks = elim (find_first (is_item id) marks) [ none ↦ none | some m ↦ some (m.1) ]

abbrev pub set_item : ℕ → Bool → List (ℕ × Bool) → List (ℕ × Bool)
set_item id d = update_first (is_item id) (λ m. (m.0, d))

-- A mark of the whole day that exists is set to `d`.
abbrev pub set_master : Bool → Option Bool → Option Bool
set_master d none = none
set_master d (some b) = some d

abbrev pub rejected : Marks → String → Transition
rejected m why = record {
  marks = m;
  share = 0;
  first_completion = false;
  uncheck = false;
  reason = some why;
}

abbrev pub moved : Marks → ℕ → Bool → Bool → Transition
moved m share first off = record {
  marks = m;
  share = share;
  first_completion = first;
  uncheck = off;
  reason = none;
}

-- The branch of an uncheck; an open item un-completes the day.
unfoldable pub uncheck_mark : Marks → Option ℕ → Transition
uncheck_mark m none =
    if holds m.master
    then moved (record { master = some false; items = m.items }) 0 false true
    else rejected m "nothing_to_uncheck"
uncheck_mark m (some id) =
    if holds (item_mark id m.items)
    then moved (record { master = set_master false m.master; items = set_item id false m.items }) 0
        false true
    else rejected m "nothing_to_uncheck"

-- The item's own row: inserted for its share, or restored for none.
unfoldable pub mark_item : ℕ → List (ℕ × Bool) → List (ℕ × Bool) × ℕ
mark_item id items = elim (item_mark id items) [
  | none ↦ ((id, true) ∷ items, 1)
  | some b ↦ (set_item id true items, 0)
]

-- The last open item completes the day.
unfoldable pub check_item : Marks → ℕ → ℕ → Transition
unfolding mark_item
check_item m n_items id =
    let (items, share) = mark_item id m.items in
    if ltb (count is_done m.items + 1) n_items
    then moved (record { master = m.master; items = items }) share false false
    else moved (record { master = some true; items = items }) share (not (is_some m.master)) false

unfoldable pub check_master : Marks → ℕ → Transition
check_master m n_items = elim m.master [
  | none ↦
      moved (record { master = some true; items = m.items })
        (if n_items == 0 then 1 else n_items - count is_done m.items) true false
  | some b ↦ moved (record { master = some true; items = m.items }) 0 false false
]

unfoldable pub transition_marks : Marks → ℕ → Option ℕ → Bool → Transition
unfolding uncheck_mark check_item check_master
transition_marks m n_items target false = uncheck_mark m target
transition_marks m n_items none true =
    if holds m.master then rejected m "already_checked" else check_master m n_items
transition_marks m n_items (some id) true =
    if holds m.master || holds (item_mark id m.items)
    then rejected m "already_checked"
    else check_item m n_items id

-- A daily, and what the day's rows say of it: its marks and the share its ledger rows paid.
pub record Day : Type 0 where
  pub marks : Marks
  pub paid : ℕ
  pub streak : ℕ

pub record Daily : Type 0 where
  pub active : Bool
  pub created : ℕ
  pub recurrence : Json
  pub items : List ℕ

-- The outcome of a check: not scored, an uncheck, or a share that is paid.
pub data Outcome : Type 0 where
  unscored : String → Outcome
  unchecked : Outcome
  paid_share : ℕ → Outcome

-- The clamp of `_apply_share` to what the day has left.
unfoldable pub clamp_share : ℕ → ℕ → ℕ → ℕ
clamp_share n_items paid share =
    let left = whole n_items - paid in if ltb left share then left else share

-- `done` of the event: absent means done.
abbrev pub read_done : Option Json → Result Bool
read_done none = ok true
read_done (some (Json.bool b)) = ok b
read_done (some _) = value_error "done_malformed"

abbrev pub miss_day : Schedule → ℕ → ℕ
miss_day (times_per_week wanted) day = week_end day
miss_day _ day = day

-- Whether a first completion raises the streak; `is_missed` is the miss row of a unit.
unfoldable pub raises_streak : Option Recurrence → (ℕ → Bool) → ℕ → ℕ → Bool
raises_streak none is_missed day anchor = false
raises_streak (some rec) is_missed day anchor =
    is_schedulable rec day anchor && not (is_missed (miss_day rec.schedule day))

unfoldable pub outcome_of : ℕ → ℕ → Transition → Outcome
unfolding clamp_share
outcome_of n_items paid t = elim t.reason [
  | some why ↦ unscored why
  | none ↦ if t.uncheck then unchecked else paid_share (clamp_share n_items paid t.share)
]

abbrev pub share_of : Outcome → ℕ
share_of (unscored why) = 0
share_of unchecked = 0
share_of (paid_share n) = n

module _ (fromisoformat : String → Option ℕ) (is_missed : ℕ → Bool) (daily : Daily)
    (today : ℕ) where
  -- The day after a transition of its marks.
  unfoldable pub settle : Day → ℕ → Transition → Outcome × Day
  unfolding outcome_of raises_streak
  settle day check_date t =
      let outcome = outcome_of (length daily.items) day.paid t in
      let rec = parse_recurrence fromisoformat daily.recurrence in
      (
        outcome,
        record {
          marks = t.marks;
          paid = day.paid + share_of outcome;
          streak =
              day.streak
              + bit (t.first_completion && raises_streak rec is_missed check_date daily.created);
        },
      )

  unfoldable pub score_check : Day → Option ℕ → ℕ → Option Json → Result (Outcome × Day)
  unfolding transition_marks settle
  score_check day item_id check_date done = read_done done >>= λ d.
      raise_if (not daily.active) "daily_inactive"
      >> (raise_if (ltb today check_date || ltb check_date daily.created) "check_date_out_of_range"
          >> (raise_if
                (elim item_id [ none ↦ false | some id ↦ not (any (λ i. i == id) daily.items) ])
                "item_unresolvable"
              >> ok (
                  settle day check_date
                    (transition_marks day.marks (length daily.items) item_id d))))
