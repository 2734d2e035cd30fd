-- ===== src/Game/Examples.antt =====
-- The scoring engine on concrete profiles and payloads, with decimals for numbers.
use task_buddy_backend.Prelude.{
  ℕ, ◌+◌, ◌-◌, ◌<◌, ◌≡◌, refl, sym, ◌∙◌, true, some, ℤ, pos, negsuc, ◌+ℤ◌, ◌-ℤ◌, ◌≤ℤ◌, arith,
  if◌then◌else◌, Bool-cases, inl, inr, ltb, ◌==◌,
}
use task_buddy_backend.Json.{Json, Fields}
use task_buddy_backend.Game.Number.{returns, computed, ◌>>=◌, round_half_up, returns-injective}
use task_buddy_backend.Game.Number.Leaves.{Returns, >>=-Returns}
use task_buddy_backend.Game.Decimal.{Decimal, decimals, decimals-IsExact, decimals-IsSigned}
use task_buddy_backend.Game.Rates.{
  GameRates, lvl_curve_round, defaults, from_dict, override_all, override, override_rate,
  override_cap, refuses,
}
use task_buddy_backend.Game.Rates.Usable.{IsUsable, from_dict-IsUsable}
use task_buddy_backend.Game.Profile.{
  Stat, con_stat, same_stat, GameProfile, xp_to_next_level, effective_stat,
}
use task_buddy_backend.Game.Award.{XpAward, award_xp}
use task_buddy_backend.Game.Award.Climb.{stay, rise, IsBelow}
use task_buddy_backend.Game.Award.Account.{Represents, award_xp-refines}
use task_buddy_backend.Game.Award.Split.{award_xp-add}
use task_buddy_backend.Game.Award.Returns.{award_xp-Returns}
use task_buddy_backend.Game.Damage.{take_loss, death, stat_lost_by, apply_hp_loss}
use task_buddy_backend.Game.Payload.{finite_positive, hurt}
use task_buddy_backend.Game.Event.{apply_event, apply_damage, check_xp}
use task_buddy_backend.Game.Event.Valid.{IsValid}
use task_buddy_backend.Game.Event.Handlers.{apply_event-IsValid}
use task_buddy_backend.Game.Event.Check.{check_xp-within}

abbrev rates : GameRates Decimal
rates = defaults decimals

-- Level 4 with 90 XP, 3 HP and 480 XP counted on day 7.
abbrev hero : GameProfile Decimal
hero = record {
  level = 4;
  xp = 90;
  hp = pos 30_000;
  max_hp = pos 500_000;
  gold = pos 120_000;
  stats = λ s. 2;
  unspent_stat_points = 1;
  xp_today = 480;
  gold_today = pos 0;
  totals_day = some 7;
}

abbrev no_gear : Stat → ℤ
no_gear s = pos 0

abbrev grown : ℕ → ℕ → ℕ → GameProfile Decimal
grown level xp today = record {
  level = level;
  xp = xp;
  hp = pos 500_000;
  max_hp = pos 500_000;
  gold = pos 120_000;
  stats = λ s. 2;
  unspent_stat_points = 2;
  xp_today = today;
  gold_today = pos 0;
  totals_day = some 7;
}

thresholds :
    (xp_to_next_level decimals rates 4 ≡ returns 100)
    × (xp_to_next_level decimals rates 5 ≡ returns 150)
    × (xp_to_next_level decimals rates 10 ≡ returns 260)
unfolding xp_to_next_level defaults ◌>>=◌ ◌+ℤ◌
thresholds = (refl, refl, refl)

-- 15 XP take the hero to level 5 with 5 XP, and refill the HP.
award :
    award_xp decimals hero (pos 15) rates 7
    ≡ returns (record { xp = 15; levels_gained = 1 }, grown 5 5 495)
unfolding award_xp xp_to_next_level defaults ◌>>=◌ ◌+ℤ◌ ◌-ℤ◌
award = refl

below :
    (level s xp : ℕ)
    → xp_to_next_level decimals rates level ≡ returns s
    → xp < s
    → IsBelow (xp_to_next_level decimals rates) level xp
below level s xp e h t k = let same = returns-injective s t (sym e ∙ k) in omega (arith, same, h)

hero-Represents : Represents decimals rates 240 4 90
unfolding xp_to_next_level defaults ◌>>=◌ ◌+ℤ◌
hero-Represents = record {
  spent = 150;
  climb = rise {t = 25} refl (rise {t = 50} refl (rise {t = 75} refl stay));
  sum = refl;
  below = below 4 100 90 refl (omega arith);
}

award_xp-refines_example : Represents decimals rates (240 + 15) 5 5
award_xp-refines_example =
    award_xp-refines decimals rates hero (pos 15) 7 240 (record { xp = 15; levels_gained = 1 })
      (grown 5 5 495) hero-Represents award

-- 15 XP, then 30 of which the cap leaves 5; and 45 at once of which it leaves 20.
second :
    award_xp decimals (grown 5 5 495) (pos 30) rates 7
    ≡ returns (record { xp = 5; levels_gained = 0 }, grown 5 10 500)
unfolding award_xp xp_to_next_level defaults ◌>>=◌ ◌+ℤ◌ ◌-ℤ◌
second = refl

at_once :
    award_xp decimals hero (pos 45) rates 7
    ≡ returns (record { xp = 20; levels_gained = 1 }, grown 5 10 500)
unfolding award_xp xp_to_next_level defaults ◌>>=◌ ◌+ℤ◌ ◌-ℤ◌
at_once = refl

award_xp-add_example :
    let q = grown 5 10 500 in
    (15 + 5 ≡ 20) × (q.level ≡ q.level) × (q.xp ≡ q.xp) × (q.xp_today ≡ q.xp_today)
award_xp-add_example =
    award_xp-add decimals rates hero 15 30 7 (record { xp = 15; levels_gained = 1 })
      (record { xp = 5; levels_gained = 0 }) (record { xp = 20; levels_gained = 1 }) (grown 5 5 495)
      (grown 5 10 500) (grown 5 10 500) award second at_once

hero-IsValid : IsValid decimals rates hero
unfolding xp_to_next_level defaults ◌>>=◌ ◌+ℤ◌
hero-IsValid = record {
  level = omega arith;
  below = below 4 100 90 refl (omega arith);
  counted = omega arith;
  alive = refl;
  healthy = refl;
}

-- The hero dies of an abandoned session of 25 minutes' damage: 50 HP at most.
abbrev fallen : GameProfile Decimal
fallen = record {
  level = 3;
  xp = 0;
  hp = pos 500_000;
  max_hp = pos 500_000;
  gold = pos 0;
  stats = λ s. if same_stat con_stat s then 1 else 2;
  unspent_stat_points = 1;
  xp_today = 480;
  gold_today = pos 0;
  totals_day = some 7;
}

abbrev blow : Fields
blow = Fields.field "amount" (Json.int (pos 50)) Fields.end

killed :
    apply_event decimals hero blow rates (pos 9_999) no_gear "damage" 2 7
    ≡ returns
        (hurt (record { hp_lost = pos 490_000; died = true; stat_lost = some con_stat }), fallen)
unfolding apply_event apply_damage finite_positive apply_hp_loss take_loss death stat_lost_by
    effective_stat defaults ◌>>=◌ ◌+ℤ◌ ◌-ℤ◌
killed = refl

apply_event-IsValid_example : IsValid decimals rates fallen
apply_event-IsValid_example =
    apply_event-IsValid decimals hero blow rates (pos 9_999) no_gear hero-IsValid "damage" 2 7
      (hurt (record { hp_lost = pos 490_000; died = true; stat_lost = some con_stat })) fallen
      killed

divided : (a : ℤ) → Returns (computed (decimals.div a (rates.rate lvl_curve_round)))
unfolding defaults
divided (pos n) = (_, refl)
divided (negsuc n) = (_, refl)

curve : (level : ℕ) → Returns (xp_to_next_level decimals rates level)
unfolding xp_to_next_level defaults
curve level = elim (Bool-cases (ltb level 5)) [
  | inl low ↦ rw (xp_to_next_level, low) (>>=-Returns _ _ (_, refl) λ t. (_, refl))
  | inr high ↦ elim (Bool-cases (level == 5)) [
    | inl five ↦ rw (xp_to_next_level, high, five) (>>=-Returns _ _ (_, refl) λ t. (_, refl))
    | inr above ↦
        rw (xp_to_next_level, high, above)
          (>>=-Returns _ _ (divided _)
            λ q. >>=-Returns _ _ (_, refl) λ n. >>=-Returns _ _ (_, refl) λ size. (_, refl))
  ]
]

award_xp-Returns_example :
    (a : XpAward) × (q : GameProfile Decimal) × (award_xp decimals hero (pos 15) rates 7
      ≡ returns (a, q))
    × IsBelow (xp_to_next_level decimals rates) q.level q.xp
award_xp-Returns_example = award_xp-Returns decimals rates curve hero (pos 15) 7

-- A checklist that is half done earned 3 of 6 XP; the other half earns 3.
check_xp-within_example : pos 3 ≤ℤ pos (6 - 3)
unfolding check_xp round_half_up ◌>>=◌ ◌+ℤ◌ ◌-ℤ◌
check_xp-within_example =
    check_xp-within decimals decimals-IsExact hero Fields.end rates (pos 9_999) no_gear (pos 60_000)
      (pos 5_000) 6 3 (pos 3) refl (omega arith) (omega arith) refl

-- An override that is refused, and one of the cap that is taken.
abbrev blob : Json
blob = Json.obj (
    Fields.field "lvl_curve_round" (Json.int (pos 0))
      (Fields.field "daily_xp_cap" (Json.int (pos 300)) Fields.end))

abbrev capped : GameRates Decimal
capped = record { rate = rates.rate; daily_xp_cap = pos 300; difficulty = rates.difficulty }

overridden : from_dict decimals blob ≡ returns capped
unfolding from_dict override_all override override_rate override_cap refuses defaults ◌>>=◌
overridden = refl

from_dict-IsUsable_example : IsUsable decimals capped
from_dict-IsUsable_example = from_dict-IsUsable decimals decimals-IsSigned blob capped overridden
