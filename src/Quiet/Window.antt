-- ===== src/Quiet/Window.antt =====
-- The quiet interval of app/game/notifications.py as a distance around the clock.
use task_buddy_backend.Prelude.{
  ℕ, ◌+◌, ◌-◌, ◌%◌, ◌<◌, ◌≡◌, refl, Bool, false, Option, none, some, String, List, [], ◌∷◌, ℤ, pos,
  negsuc, ltb, arith,
}
use task_buddy_backend.Json.{Json}
use task_buddy_backend.Quiet.{
  Clock, minutes_of, gates, two_parts, parse_hhmm, quiet_field, pref_zone, in_quiet_window,
}

-- The minutes from `start` to `minute`, going forward around the day.
abbrev pub minutes_past : ℕ → ℕ → ℕ
minutes_past start minute = (minute + 1440 - start) % 1440

-- The specification: fewer minutes have passed since the start than the interval has.
abbrev pub within : Option ℕ → Option ℕ → ℕ → Bool
within (some start) (some stop) minute = ltb (minutes_past start minute) (minutes_past start stop)
within _ _ minute = false

-- Each time that is read is a minute of the day.
pub minutes_of-bounds :
    (hour minute : Option ℤ) {n : ℕ} → minutes_of hour minute ≡ some n → n < 1440
minutes_of-bounds (some (pos hour)) (some (pos minute)) e = ground arith
minutes_of-bounds none _ e = ground arith
minutes_of-bounds (some (negsuc _)) _ e = ground arith
minutes_of-bounds (some (pos _)) none e = ground arith
minutes_of-bounds (some (pos _)) (some (negsuc _)) e = ground arith

pub gates-past :
    (start stop minute : ℕ)
    → start < 1440
    → stop < 1440
    → minute < 1440
    → gates (some start) (some stop) minute ≡ within (some start) (some stop) minute
unfolding gates
gates-past start stop minute s e m = ground arith

module _ (clock : Clock) where
  two_parts-bounds : (parts : List String) {n : ℕ} → two_parts clock parts ≡ some n → n < 1440
  two_parts-bounds (hour ∷ minute ∷ []) e =
      minutes_of-bounds (clock.int_of hour) (clock.int_of minute) e
  two_parts-bounds [] e = ground arith
  two_parts-bounds (_ ∷ []) e = ground arith
  two_parts-bounds (_ ∷ _ ∷ _ ∷ _) e = ground arith

  pub parse_hhmm-bounds : (value : Json) {n : ℕ} → parse_hhmm clock value ≡ some n → n < 1440
  unfolding parse_hhmm
  parse_hhmm-bounds (Json.str s) e = two_parts-bounds (clock.split_colon s) e
  parse_hhmm-bounds Json.null e = ground arith
  parse_hhmm-bounds (Json.bool _) e = ground arith
  parse_hhmm-bounds (Json.int _) e = ground arith
  parse_hhmm-bounds (Json.float _ _) e = ground arith
  parse_hhmm-bounds (Json.arr _) e = ground arith
  parse_hhmm-bounds (Json.obj _) e = ground arith

  gates-within :
      (start stop : Option ℕ) (minute : ℕ)
      → ((n : ℕ) → start ≡ some n → n < 1440)
      → ((n : ℕ) → stop ≡ some n → n < 1440)
      → minute < 1440
      → gates start stop minute ≡ within start stop minute
  unfolding gates
  gates-within (some start) (some stop) minute s e m =
      gates-past start stop minute (s start refl) (e stop refl) m
  gates-within none _ _ s e m = refl
  gates-within (some _) none _ s e m = refl

  -- If the clock's local minute is one of the day, `in_quiet_window` answers true exactly when
  -- both ends of the interval are read and fewer minutes have passed since its start, going
  -- forward around the day, than from its start to its end: over midnight too, and never where the
  -- two ends agree.
  pub in_quiet_window-within :
      (blob : Json) (now : ℕ)
      → clock.local_minute (pref_zone blob) now < 1440
      → in_quiet_window clock blob now
        ≡ within
            (parse_hhmm clock (quiet_field "start" "22:00" blob))
            (parse_hhmm clock (quiet_field "end" "08:00" blob))
            (clock.local_minute (pref_zone blob) now)
  unfolding in_quiet_window
  in_quiet_window-within blob now h =
      gates-within (parse_hhmm clock (quiet_field "start" "22:00" blob))
        (parse_hhmm clock (quiet_field "end" "08:00" blob))
        (clock.local_minute (pref_zone blob) now)
        (λ n p. parse_hhmm-bounds (quiet_field "start" "22:00" blob) p)
        (λ n p. parse_hhmm-bounds (quiet_field "end" "08:00" blob) p) h
