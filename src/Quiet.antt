-- ===== src/Quiet.antt =====
-- Quiet hours: `_parse_hhmm` and `in_quiet_window` of app/game/notifications.py. `str.split(":")`,
-- `int` of a text and the wall clock of a time zone are parameters.
pub mod Window
mod Examples
use task_buddy_backend.Prelude.{
  ℕ, ◌+◌, ◌*◌, String, Bool, true, false, not, ◌&&◌, ◌||◌, Option, none, some, List, [], ◌∷◌, ℤ,
  pos, ltb, leb, ◌==◌, get_or, if◌then◌else◌,
}
use task_buddy_backend.Json.{Json, Fields, get, as_dict}

-- What Python reads of a text and of a clock: the parts between colons, `int`, and the minutes since
-- the local midnight in the zone of a blob, or in UTC where it names none.
pub record Clock : Type 0 where
  pub split_colon : String → List String
  pub int_of : String → Option ℤ
  pub local_minute : Option Json → ℕ → ℕ

-- `hour * 60 + minute` of a wall time
abbrev pub minutes_of : Option ℤ → Option ℤ → Option ℕ
minutes_of (some (pos hour)) (some (pos minute)) =
    if leb hour 23 && leb minute 59 then some (hour * 60 + minute) else none
minutes_of _ _ = none

-- The gate on a local minute: an interval of the day, which may run over midnight.
unfoldable pub gates : Option ℕ → Option ℕ → ℕ → Bool
gates (some start) (some stop) minute =
    if start == stop
    then false
    else if ltb start stop
    then leb start minute && ltb minute stop
    else leb start minute || ltb minute stop
gates _ _ minute = false

-- `{**DEFAULT_QUIET, **quiet_hours}[key]`
abbrev pub quiet_field : String → String → Json → Json
quiet_field key default blob = get_or (get key (as_dict blob)) (Json.str default)

-- The zone's name that `pref_tz` is asked for.
abbrev pub pref_zone : Json → Option Json
pref_zone blob = get "timezone" (as_dict blob)

module _ (clock : Clock) where
  abbrev pub two_parts : List String → Option ℕ
  two_parts (hour ∷ minute ∷ []) = minutes_of (clock.int_of hour) (clock.int_of minute)
  two_parts _ = none

  -- `_parse_hhmm`
  unfoldable pub parse_hhmm : Json → Option ℕ
  parse_hhmm (Json.str s) = two_parts (clock.split_colon s)
  parse_hhmm _ = none

  unfoldable pub in_quiet_window : Json → ℕ → Bool
  unfolding parse_hhmm gates
  in_quiet_window blob now =
      gates (parse_hhmm (quiet_field "start" "22:00" blob))
        (parse_hhmm (quiet_field "end" "08:00" blob)) (clock.local_minute (pref_zone blob) now)
