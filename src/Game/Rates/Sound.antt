-- ===== src/Game/Rates/Sound.antt =====
-- What the guards of GameRates.from_dict in app/game/engine.py let through.
use mathlib.Core.Path.{subst}
use task_buddy_backend.Prelude.{
  String, true, false, not, ◌&&◌, ◌||◌, ◌≡◌, sym, ◌∙◌, Bool-cases, Option-cases, inl, inr, List, [],
  ◌∷◌, ◌++◌, arith, str_eq, find_first,
}
use task_buddy_backend.Json.{Json, Fields}
use task_buddy_backend.Game.Number.{Numbers, returns, nought, number}
use task_buddy_backend.Game.Number.Laws.{IsSigned}
use task_buddy_backend.Game.Number.Leaves.{Leaves, after, leaf, branch, computed-returns}
use task_buddy_backend.Game.Rates.Keys.{key_of-injective}
use task_buddy_backend.Game.Rates.{
  xp_per_minute, gold_per_minute, int_xp_pct, per_gold_pct, con_shield_divisor, con_shield_floor,
  crit_base_chance, crit_str_chance_scale, crit_mult_base, crit_mult_span, crit_mult_soft,
  hp_loss_base, habit_drift_base, habit_value_min, habit_value_max, habit_xp_factor, daily_gold_cap,
  stopwatch_milestone_xp, speedrun_win_xp_bonus, respec_gold_cost, lvl_curve_early, lvl_curve_lvl5,
  lvl_curve_quad_a, lvl_curve_quad_b, lvl_curve_quad_c, lvl_curve_round, crit_mult_max, Rate,
  GameRates, must_be_positive, must_be_nonnegative, must_be_integral, key_of, refuses, defaults,
  default_rate, default_difficulty, clean_one, clean, merge_difficulty, put_rate, stored_value,
  override_rate, override_cap, override_difficulty, override, override_all, from_dict, all_rates,
}

module _ {F : Type 0} (f : Numbers F) where
  abbrev pub Sound : Rate → F → Type 0
  Sound k x =
      (must_be_positive k ≡ true → f.le x (nought f) ≡ false)
      × (must_be_nonnegative k ≡ true → f.lt x (nought f) ≡ false)

  abbrev pub AllPositive : List (String × F) → Type 0
  AllPositive [] = Unit
  AllPositive (d ∷ rest) = (f.lt (nought f) (d.1) ≡ true) × AllPositive rest

  -- What the guards of a rate promise, and that the difficulties are positive.
  pub record IsSound (r : GameRates F) : Type 0 where
    pub rates : (k : Rate) → Sound k (r.rate k)
    pub difficulties : AllPositive r.difficulty

module _ {F : Type 0} (f : Numbers F) (laws : IsSigned f) where
  default_rate-Sound : (k : Rate) → (Sound f) k (default_rate f k)
  default_rate-Sound xp_per_minute = (λ e. cc, λ e. cc)
  default_rate-Sound gold_per_minute = (λ e. cc, λ e. cc)
  default_rate-Sound int_xp_pct = (λ e. cc, λ e. cc)
  default_rate-Sound per_gold_pct = (λ e. cc, λ e. cc)
  default_rate-Sound con_shield_divisor =
      (λ _. laws.literal_positive 2499 1 (omega arith) (omega arith), λ e. cc)
  default_rate-Sound con_shield_floor = (λ e. cc, λ e. cc)
  default_rate-Sound crit_base_chance = (λ e. cc, λ e. cc)
  default_rate-Sound crit_str_chance_scale =
      (λ _. laws.literal_positive 999 1 (omega arith) (omega arith), λ e. cc)
  default_rate-Sound crit_mult_base = (λ e. cc, λ e. cc)
  default_rate-Sound crit_mult_span = (λ e. cc, λ e. cc)
  default_rate-Sound crit_mult_soft =
      (λ _. laws.literal_positive 1999 1 (omega arith) (omega arith), λ e. cc)
  default_rate-Sound hp_loss_base = (λ e. cc, λ e. cc)
  default_rate-Sound habit_drift_base =
      (λ _. laws.literal_positive 9746 4 (omega arith) (omega arith), λ e. cc)
  default_rate-Sound habit_value_min = (λ e. cc, λ e. cc)
  default_rate-Sound habit_value_max = (λ e. cc, λ e. cc)
  default_rate-Sound habit_xp_factor = (λ e. cc, λ e. cc)
  default_rate-Sound daily_gold_cap = (λ e. cc, λ e. cc)
  default_rate-Sound stopwatch_milestone_xp =
      (λ e. cc, λ _. laws.literal_nonnegative 250 1 (omega arith) (omega arith))
  default_rate-Sound speedrun_win_xp_bonus =
      (λ e. cc, λ _. laws.literal_nonnegative 250 1 (omega arith) (omega arith))
  default_rate-Sound respec_gold_cost =
      (λ e. cc, λ _. laws.literal_nonnegative 1000 1 (omega arith) (omega arith))
  default_rate-Sound lvl_curve_early =
      (λ _. laws.literal_positive 249 1 (omega arith) (omega arith), λ e. cc)
  default_rate-Sound lvl_curve_lvl5 =
      (λ _. laws.literal_positive 1499 1 (omega arith) (omega arith), λ e. cc)
  default_rate-Sound lvl_curve_quad_a = (λ e. cc, λ e. cc)
  default_rate-Sound lvl_curve_quad_b = (λ e. cc, λ e. cc)
  default_rate-Sound lvl_curve_quad_c = (λ e. cc, λ e. cc)
  default_rate-Sound lvl_curve_round =
      (λ _. laws.literal_positive 99 1 (omega arith) (omega arith), λ e. cc)
  default_rate-Sound crit_mult_max = (λ e. cc, λ e. cc)

  default_difficulty-AllPositive : (AllPositive f) (default_difficulty f)
  default_difficulty-AllPositive = (
    laws.positive_literal 0 1 (omega arith) (omega arith),
    (
      laws.positive_literal 9 1 (omega arith) (omega arith),
      (
        laws.positive_literal 14 1 (omega arith) (omega arith),
        (laws.positive_literal 19 1 (omega arith) (omega arith), tt),
      ),
    ),
  )

  defaults-IsSound : (IsSound f) (defaults f)
  unfolding defaults
  defaults-IsSound = record {
    rates = default_rate-Sound;
    difficulties = default_difficulty-AllPositive;
  }

  append-AllPositive :
      (xs ys : List (String × F))
      → (AllPositive f) xs
      → (AllPositive f) ys
      → (AllPositive f) (xs ++ ys)
  append-AllPositive [] ys h k = k
  append-AllPositive (x ∷ xs) ys h k = (h.0, append-AllPositive xs ys (h.1) k)

  clean_one-AllPositive :
      (name : String) (mult : Json) → Leaves (AllPositive f) (clean_one f name mult)
  unfolding clean_one
  clean_one-AllPositive name mult = elim (Option-cases (number f mult)) [
    | inl e ↦ rw (clean_one, e) (leaf _ _ tt)
    | inr found ↦
        let (x, e) = found in
        rw (clean_one, e)
          (after _ _ _ λ finite _. elim (Bool-cases (finite && f.lt (nought f) x)) [
            | inl kept ↦
                let more = laws.to_float_positive x (ground (arith, kept)) in
                rw kept (leaf _ _ (more, tt))
            | inr dropped ↦ rw dropped (leaf _ _ tt)
          ])
  ]

  clean-AllPositive : (names : Fields) → Leaves (AllPositive f) (clean f names)
  unfolding clean
  clean-AllPositive Fields.end = leaf _ _ tt
  clean-AllPositive (Fields.field name mult rest) = after _ _ _ λ one e. after _ _ _ λ others g.
      leaf _ _ (
        append-AllPositive one others (clean_one-AllPositive name mult one e)
          (clean-AllPositive rest others g))

  refuses-Sound : (k : Rate) (x : F) → refuses f k x ≡ false → (Sound f) k x
  unfolding refuses
  refuses-Sound k x h = (λ e. ground (arith, e, h), λ e. ground (arith, e, h))

  stored_value-Sound :
      (k : Rate) (x : F) → refuses f k x ≡ false → Leaves ((Sound f) k) (stored_value f k x)
  unfolding refuses
  stored_value-Sound k x h = elim (Bool-cases (must_be_integral k)) [
    | inl whole ↦ rw whole (
        after _ _ _ λ n e. leaf _ _ (
          let is_whole : f.is_integer (f.to_float x) ≡ true = ground (arith, whole, h) in
          let (same_le, same_lt) = laws.trunc_whole x n is_whole (computed-returns _ n e) in
          let sound = refuses-Sound k x h in (λ e. same_le ∙ sound.0 e, λ e. same_lt ∙ sound.1 e)))
    | inr any ↦ rw any (leaf _ _ (refuses-Sound k x h))
  ]

  put_rate-IsSound :
      (k : Rate) (x : F) (r : GameRates F)
      → (Sound f) k x
      → (IsSound f) r
      → (IsSound f) (put_rate f k x r)
  put_rate-IsSound k x r h u = record {
    rates = λ q. elim (Bool-cases (str_eq (key_of q) (key_of k))) [
      | inl same ↦ rw same (subst (λ j. (Sound f) j x) (sym (key_of-injective q k same)) h)
      | inr other ↦ rw other (u.rates q)
    ];
    difficulties = u.difficulties;
  }

  override_rate-IsSound :
      (k : Rate) (v : Json) (r : GameRates F)
      → (IsSound f) r
      → Leaves (IsSound f) (override_rate f k v r)
  unfolding override_rate
  override_rate-IsSound k v r u = elim (Option-cases (number f v)) [
    | inl e ↦ rw (override_rate, e) (leaf _ _ u)
    | inr found ↦
        let (x, e) = found in
        rw (override_rate, e)
          (after _ _ _ λ finite _. elim (Bool-cases (not finite || refuses f k x)) [
            | inl skipped ↦ rw skipped (leaf _ _ u)
            | inr taken ↦
                let fine : refuses f k x ≡ false = ground (arith, taken) in
                rw taken (
                  after _ _ _ λ y stored.
                    leaf _ _ (put_rate-IsSound k y r (stored_value-Sound k x fine y stored) u))
          ])
  ]

  override_cap-IsSound :
      (v : Json) (r : GameRates F) → (IsSound f) r → Leaves (IsSound f) (override_cap f v r)
  unfolding override_cap
  override_cap-IsSound v r u = elim (Option-cases (number f v)) [
    | inl e ↦ rw (override_cap, e) (leaf _ _ u)
    | inr found ↦
        let (x, e) = found in
        rw (override_cap, e)
          (after _ _ _ λ finite _.
            branch _ (not finite || not (f.is_integer (f.to_float x))) _ _ (leaf _ _ u) (
              after _ _ _
                λ n _. leaf _ _ (record { rates = u.rates; difficulties = u.difficulties })))
  ]

  merge-IsSound :
      (xs : List (String × F)) (r : GameRates F)
      → (AllPositive f) xs
      → (IsSound f) r
      → (IsSound f) (merge_difficulty f xs r)
  merge-IsSound [] r h u = u
  merge-IsSound (x ∷ xs) r h u = record {
    rates = u.rates;
    difficulties = append-AllPositive (x ∷ xs) _ h default_difficulty-AllPositive;
  }

  override_difficulty-IsSound :
      (v : Json) (r : GameRates F) → (IsSound f) r → Leaves (IsSound f) (override_difficulty f v r)
  override_difficulty-IsSound (Json.obj names) r u =
      after _ _ _ λ xs e. leaf _ _ (merge-IsSound xs r (clean-AllPositive names xs e) u)
  override_difficulty-IsSound Json.null r u = leaf _ _ u
  override_difficulty-IsSound (Json.bool b) r u = leaf _ _ u
  override_difficulty-IsSound (Json.int n) r u = leaf _ _ u
  override_difficulty-IsSound (Json.float m e) r u = leaf _ _ u
  override_difficulty-IsSound (Json.str s) r u = leaf _ _ u
  override_difficulty-IsSound (Json.arr xs) r u = leaf _ _ u

  override-IsSound :
      (key : String) (v : Json) (r : GameRates F)
      → (IsSound f) r
      → Leaves (IsSound f) (override f key v r)
  unfolding override
  override-IsSound key v r u =
      branch _ (str_eq key "difficulty") _ _ (override_difficulty-IsSound v r u) (
        branch _ (str_eq key "daily_xp_cap") _ _ (override_cap-IsSound v r u)
          (elim (Option-cases (find_first (λ k. str_eq (key_of k) key) all_rates)) [
            | inl e ↦ rw (override, e) (leaf _ _ u)
            | inr found ↦ rw (override, found.1) (override_rate-IsSound (found.0) v r u)
          ]))

  override_all-IsSound :
      (blob : Fields) (r : GameRates F) → (IsSound f) r → Leaves (IsSound f) (override_all f blob r)
  unfolding override_all
  override_all-IsSound Fields.end r u = leaf _ _ u
  override_all-IsSound (Fields.field key v rest) r u =
      after _ _ _ λ q e. override_all-IsSound rest q (override-IsSound key v r u q e)

  pub from_dict-IsSound : (v : Json) (r : GameRates F) → from_dict f v ≡ returns r → (IsSound f) r
  unfolding from_dict
  from_dict-IsSound (Json.obj blob) r = override_all-IsSound blob (defaults f) defaults-IsSound r
  from_dict-IsSound Json.null r = leaf (IsSound f) _ defaults-IsSound r
  from_dict-IsSound (Json.bool b) r = leaf (IsSound f) _ defaults-IsSound r
  from_dict-IsSound (Json.int n) r = leaf (IsSound f) _ defaults-IsSound r
  from_dict-IsSound (Json.float m e) r = leaf (IsSound f) _ defaults-IsSound r
  from_dict-IsSound (Json.str s) r = leaf (IsSound f) _ defaults-IsSound r
  from_dict-IsSound (Json.arr xs) r = leaf (IsSound f) _ defaults-IsSound r
