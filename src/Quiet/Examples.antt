-- ===== src/Quiet/Examples.antt =====
-- Quiet hours on concrete clocks and blobs.
use task_buddy_backend.Prelude.{
  ◌%◌, ◌/◌, ◌*◌, ◌≡◌, refl, true, false, Option, none, some, String, List, [], ◌∷◌, ℤ, pos, str_eq,
  get_or, if◌then◌else◌, arith,
}
use task_buddy_backend.Json.{Json, Fields}
use task_buddy_backend.Quiet.{Clock, parse_hhmm, gates, in_quiet_window}
use task_buddy_backend.Quiet.Window.{within, in_quiet_window-within}

-- A clock that splits and reads the times it is asked for here.
abbrev look_up {ℓ} : {A : Type ℓ} → List (String × A) → String → Option A
look_up [] key = none
look_up ((known, a) ∷ entries) key = if str_eq key known then some a else look_up entries key

abbrev known_times : List (String × List String)
known_times =
    ("22:00", "22" ∷ "00" ∷ []) ∷ ("06:30", "06" ∷ "30" ∷ []) ∷ ("08:00", "08" ∷ "00" ∷ []) ∷ []

abbrev known_numbers : List (String × ℤ)
known_numbers = ("22", pos 22) ∷ ("00", pos 0) ∷ ("06", pos 6) ∷ ("30", pos 30) ∷ ("08", pos 8) ∷ []

abbrev utc : Clock
utc = record {
  split_colon = λ s. get_or (look_up known_times s) (s ∷ []);
  int_of = look_up known_numbers;
  local_minute = λ zone now. (now / 60) % 1440;
}

-- Quiet until half past six, from the default start on.
abbrev early : Json
early = Json.obj (Fields.field "end" (Json.str "06:30") Fields.end)

test-night : in_quiet_window utc early (5 * 60 * 60) ≡ true
unfolding in_quiet_window parse_hhmm gates
test-night = refl

test-morning : in_quiet_window utc early (7 * 60 * 60) ≡ false
unfolding in_quiet_window parse_hhmm gates
test-morning = refl

test-default : in_quiet_window utc (Json.bool true) (7 * 60 * 60) ≡ true
unfolding in_quiet_window parse_hhmm gates
test-default = refl

test-garbage :
    in_quiet_window utc (Json.obj (Fields.field "start" (Json.str "late") Fields.end)) 0 ≡ false
unfolding in_quiet_window parse_hhmm gates
test-garbage = refl

in_quiet_window-within_example :
    in_quiet_window utc early (5 * 60 * 60) ≡ within (some 1320) (some 390) 300
unfolding parse_hhmm
in_quiet_window-within_example = in_quiet_window-within utc early (5 * 60 * 60) (omega arith)
