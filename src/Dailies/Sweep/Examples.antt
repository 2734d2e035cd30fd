-- ===== src/Dailies/Sweep/Examples.antt =====
-- The sweep of missed dailies on a daily that was created on day 95, seen on day 100.
use task_buddy_backend.Prelude.{
  ℕ, ◌+◌, ◌-◌, ◌*◌, ◌≡◌, ◌≢◌, refl, Bool, true, false, none, some, [], ◌∷◌, String, ℤ, pos, negsuc,
  ◌+ℤ◌, ◌-ℤ◌, Option, arith, count,
}
use task_buddy_backend.Json.{Json, Fields}
use task_buddy_backend.Game.Number.{computed, ◌>>=◌}
use task_buddy_backend.Game.Number.Leaves.{Returns, >>=-Returns}
use task_buddy_backend.Game.Decimal.{Decimal, decimals}
use task_buddy_backend.Game.Rates.{GameRates, con_shield_divisor, defaults}
use task_buddy_backend.Game.Profile.{Stat, GameProfile, difficulty_mult, effective_stat}
use task_buddy_backend.Game.Damage.{apply_hp_loss, take_loss}
use task_buddy_backend.Game.Event.{apply_event, apply_daily_missed, base_loss}
use task_buddy_backend.Dailies.Recurrence.{
  Recurrence, daily, parse_recurrence, parse_schedule, scheduled_units, max, is_schedulable,
  prior_units, eval_due,
}
use task_buddy_backend.Dailies.Sweep.{
  Miss, DailyRow, Db, evaluate_daily, evaluate_unit, score_miss, is_frozen, unit_satisfied,
  miss_since, due, lookback_days,
}
use task_buddy_backend.Dailies.Sweep.Freeze.{Spaced, open-Spaced}
use task_buddy_backend.Dailies.Sweep.Races.{
  OnePerDay, evaluate_daily-Spaced, evaluate_daily-OnePerDay,
}
use task_buddy_backend.Dailies.Sweep.Settled.{IsReady, IsSwept, evaluate_daily-IsSwept}

abbrev rates : GameRates Decimal
rates = defaults decimals

abbrev no_dates : String → Option ℕ
no_dates s = none

abbrev roll : ℕ → Decimal
roll unit = pos 9_999

abbrev draw : ℕ → ℕ
draw unit = 0

abbrev no_gear : Stat → ℤ
no_gear s = pos 0

abbrev every_day : Json
every_day = Json.obj (Fields.field "kind" (Json.str "daily") Fields.end)

abbrev rec : Recurrence
rec = record { schedule = daily; since = none }

abbrev row : DailyRow
row = record { active = true; recurrence = every_day; difficulty = "easy"; streak = 12 }

abbrev owner : GameProfile Decimal
owner = record {
  level = 1;
  xp = 0;
  hp = pos 500_000;
  max_hp = pos 500_000;
  gold = pos 0;
  stats = λ s. 0;
  unspent_stat_points = 0;
  xp_today = 0;
  gold_today = pos 0;
  totals_day = none;
}

abbrev start : Db Decimal
start = record {
  daily = some row;
  misses = [];
  done = λ d. false;
  events = λ d. false;
  profile = some owner;
}

-- 04:00 on day 100
abbrev now : ℕ
now = (100 * 24 + 4) * 3600000000

abbrev rival_miss : Miss Decimal
rival_miss = record { scheduled_day = 90; frozen = false; hp_lost = pos 0 }

-- Another sweep that records an unfrozen miss of day 90 before each claim.
abbrev rival : ℕ → Db Decimal → Db Decimal
rival tick db = record {
  daily = db.daily;
  misses = rival_miss ∷ db.misses;
  done = db.done;
  events = db.events;
  profile = db.profile;
}

abbrev alone : ℕ → Db Decimal → Db Decimal
alone tick db = db

abbrev locked : ℕ → ℕ → Db Decimal → Db Decimal
locked tick unit db = db

parsed : parse_recurrence no_dates every_day ≡ some rec
unfolding parse_recurrence parse_schedule
parsed = refl

abbrev swept : (ℕ → Db Decimal → Db Decimal) → Bool × ℕ × Db Decimal
swept between =
    evaluate_daily decimals rates no_dates roll draw no_gear 100 between locked now 95 every_day
      start

-- Five missed days: the first is frozen, and the streak is lost on the second.
five : let out = swept alone in (out.1 ≡ 5) × (count (λ m. m.frozen) out.2.misses ≡ 1)
unfolding evaluate_daily parse_recurrence parse_schedule scheduled_units is_schedulable prior_units
    eval_due miss_since unit_satisfied is_frozen evaluate_unit apply_event apply_daily_missed
    base_loss difficulty_mult apply_hp_loss take_loss effective_stat defaults ◌>>=◌ ◌+ℤ◌ ◌-ℤ◌
five = (refl, refl)

none_found : false ≢ true
none_found = cc

nothing_frozen : Spaced rec 95 start.misses
nothing_frozen x y date hx hy = absurd (none_found hx)

rival-Spaced :
    (tick : ℕ) (db : Db Decimal) → Spaced rec 95 db.misses → Spaced rec 95 (rival tick db).misses
rival-Spaced tick db = open-Spaced rec 95 (omega arith) rival_miss db.misses refl

evaluate_daily-Spaced_example : Spaced rec 95 (swept rival).2.misses
evaluate_daily-Spaced_example =
    evaluate_daily-Spaced decimals rates no_dates roll draw no_gear 100 rec 95 (omega arith) rival
      locked now every_day parsed rival-Spaced (λ tick unit db h. h) start nothing_frozen

evaluate_daily-OnePerDay_example : OnePerDay (swept alone).2
evaluate_daily-OnePerDay_example =
    evaluate_daily-OnePerDay decimals rates no_dates roll draw no_gear 100 rec 95 (omega arith)
      alone locked now every_day parsed (λ tick db h. h) (λ tick unit db h. h) (λ tick unit db h. h)
      start (λ x. omega arith)

divided : (a : ℤ) → Returns (computed (decimals.div a (rates.rate con_shield_divisor)))
unfolding defaults
divided (pos n) = (_, refl)
divided (negsuc n) = (_, refl)

hurts :
    (p : GameProfile Decimal) (amount : Decimal) (unit : ℕ)
    → Returns (apply_hp_loss decimals p amount rates (draw unit) no_gear)
unfolding apply_hp_loss
hurts p amount unit =
    >>=-Returns _ _ (>>=-Returns _ _ (divided _) λ part. (_, refl))
      λ part. >>=-Returns _ _ (_, refl) λ n. (_, refl)

scores :
    (unit : ℕ) (p : Option (GameProfile Decimal))
    → Returns (score_miss decimals rates no_dates roll draw no_gear 100 unit "easy" p)
unfolding score_miss apply_event apply_daily_missed base_loss difficulty_mult defaults
scores unit none = (_, refl)
scores unit (some p) =
    >>=-Returns _ _
      (>>=-Returns _ _ (>>=-Returns _ _ (_, refl) λ d. (_, refl))
        λ base. >>=-Returns _ _ (hurts p base unit) λ a. (_, refl))
      λ a. (_, refl)

start-IsReady : IsReady decimals rates no_dates roll draw no_gear 100 rec 95 "easy" scores start
start-IsReady = record {
  row = row;
  found = refl;
  active = refl;
  scored = refl;
  parsed = parsed;
  events = λ d k. k;
}

evaluate_daily-IsSwept_example :
    IsSwept decimals rates no_dates roll draw no_gear 100 rec 95 "easy" scores
      (due decimals rates no_dates roll draw no_gear 100 now
        (scheduled_units rec 95 (max 95 (100 - lookback_days)) 100))
      start
      (swept alone)
evaluate_daily-IsSwept_example =
    evaluate_daily-IsSwept decimals rates no_dates roll draw no_gear 100 rec 95 "easy" scores now
      every_day start parsed start-IsReady
