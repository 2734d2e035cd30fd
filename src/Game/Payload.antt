-- ===== src/Game/Payload.antt =====
-- The guards of app/game/engine.py on the payload of an event, and what an event reports.
use task_buddy_backend.Prelude.{
  ℕ, String, Bool, false, not, ◌||◌, none, some, pos, negsuc, ltb, get_or, if◌then◌else◌,
}
use task_buddy_backend.Json.{Json, Fields, get}
use task_buddy_backend.Game.Number.{
  Numbers, Raises, returns, value_error, ◌>>=◌, number, is_finite, nought,
}
use task_buddy_backend.Game.Award.{XpAward}
use task_buddy_backend.Game.Damage.{HpLoss}

-- `payload.get("difficulty", "easy")`
abbrev pub difficulty_of : Fields → Json
difficulty_of payload = get_or (get "difficulty" payload) (Json.str "easy")

-- `payload.get(key)`
abbrev pub lookup : String → Fields → Json
lookup key payload = get_or (get key payload) Json.null

abbrev pub is_true : Json → Bool
is_true (Json.bool b) = b
is_true _ = false

-- The guard of `_apply_stopwatch_milestone`
abbrev pub read_milestones : Json → Raises ℕ
read_milestones (Json.int (pos n)) =
    if ltb n 1 || ltb 100 n
    then value_error "stopwatch_milestone requires integer milestones in [1, 100]"
    else returns n
read_milestones _ = value_error "stopwatch_milestone requires integer milestones in [1, 100]"

-- `_streak_days`
abbrev pub streak_days : Json → Raises ℕ
streak_days (Json.int (pos n)) = returns (if ltb 10_000 n then 10_000 else n)
streak_days _ = value_error "daily_check streak must be an integer >= 0"

-- What an event reports, by the handler that scored it.
pub data Outcome (F : Type 0) : Type 0 where
  -- `{"scored": b}`
  stored : Bool → Outcome F
  reward : Bool → XpAward → F → Outcome F
  click : Bool → F → F → XpAward → F → Outcome F
  bad_click : HpLoss F → F → F → Outcome F
  hurt : HpLoss F → Outcome F
  milestone : Bool → XpAward → Outcome F
  check : Bool → F → ℕ → XpAward → F → Outcome F

module _ {F : Type 0} (f : Numbers F) where
  -- `_finite_positive` with its bound of 1e6, for the field of that name
  unfoldable pub finite_positive : Json → String → Raises F
  finite_positive value name = elim (number f value) [
    | none ↦ value_error name
    | some x ↦
        if f.le x (nought f) || f.lt (f.of_int (pos 1_000_000)) x
        then value_error name
        else (is_finite f value >>= λ finite.
            if finite then returns (f.to_float x) else value_error name)
  ]

  -- `_fraction`
  unfoldable pub fraction : Json → Raises F
  fraction value = elim (number f value) [
    | none ↦ value_error "daily_check share must be a finite number in (0, 1]"
    | some x ↦ is_finite f value >>= λ finite.
        if not finite || f.le x (nought f) || f.lt (f.of_int (pos 1)) x
        then value_error "daily_check share must be a finite number in (0, 1]"
        else returns (f.to_float x)
  ]

  -- `_nonnegative` for the field of that name
  unfoldable pub nonnegative : Json → String → Raises F
  nonnegative value name = elim (number f value) [
    | none ↦ value_error name
    | some x ↦ is_finite f value >>= λ finite.
        if not finite || f.lt x (nought f) then value_error name else returns (f.to_float x)
  ]

  -- The guard of `_apply_habit_click` on `value`: `abs(value) > 1e6` in two tests.
  unfoldable pub click_value : Json → Raises F
  click_value value = elim (number f value) [
    | none ↦ value_error "habit_click value must be a finite number"
    | some x ↦
        if f.lt x (f.of_int (negsuc 999_999)) || f.lt (f.of_int (pos 1_000_000)) x
        then value_error "habit_click value must be a finite number"
        else (is_finite f value >>= λ finite.
            if finite
            then returns (f.to_float x)
            else value_error "habit_click value must be a finite number")
  ]
