-- ===== src/Rollout/Validation/Percents.antt =====
-- internal/rollout/validation.go: the percentages of an accepted strategy, on numbers and with NaN.
use deploy_sentry.Base.{
  nat_eq, string_eq, All, ◌≡◌, refl, true, false, none, some, List, [], ◌∷◌, ◌++◌,
}
use deploy_sentry.Rollout.Floats.{Floats, IsIeee, IsNumber}
use deploy_sentry.Rollout.Strategy.{Step, Strategy}
use deploy_sentry.Rollout.Validation.Sound.{validate_strategy_iff, IsValidStep, Climbs, EndsFull}
use deploy_sentry.Rollout.Validation.{last_percent, validate_strategy}

abbrev pub AreNumbers : (fl : Floats) → List (Step fl.F) → Type 0
AreNumbers fl = All (λ st. IsNumber fl st.percent)

-- Every step is at most every later one.
abbrev pub IsSorted : (fl : Floats) → List (Step fl.F) → Type 0
IsSorted fl [] = Unit
IsSorted fl (st ∷ sts) = All (λ u. fl.le st.percent u.percent ≡ true) sts × IsSorted fl sts

module _ (fl : Floats) (law : IsIeee fl) where
  open law use {not_lt, le_trans, lt_nan, hundred_number}

  above-All :
      (low p : fl.F) (sts : List (Step fl.F))
      → fl.le low p ≡ true
      → All (λ u. fl.le p u.percent ≡ true) sts
      → All (λ u. fl.le low u.percent ≡ true) sts
  above-All low p [] h a = tt
  above-All low p (st ∷ sts) h a = (le_trans low p st.percent h a.0, above-All low p sts h a.1)

  Climbs-above :
      (prev : fl.F) (sts : List (Step fl.F))
      → IsNumber fl prev
      → AreNumbers fl sts
      → Climbs fl prev sts
      → All (λ u. fl.le prev u.percent ≡ true) sts × IsSorted fl sts
  Climbs-above prev [] n ns c = (tt, tt)
  Climbs-above prev (st ∷ sts) n ns c =
      let rest : All (λ u. fl.le st.percent u.percent ≡ true) sts × IsSorted fl sts =
        Climbs-above st.percent sts ns.0 ns.1 c.1 in
      let up : fl.le prev st.percent ≡ true = not_lt st.percent prev ns.0 n c.0 in
      ((up, above-All prev st.percent sts up rest.0), rest)

  -- The percentages of an accepted strategy that are numbers never fall, from any step to any later
  -- one.
  pub accepted-IsSorted :
      (s : Strategy fl.F)
      → AreNumbers fl s.steps
      → validate_strategy fl (some s) ≡ none
      → IsSorted fl s.steps
  accepted-IsSorted s ns ok = by_steps s.steps ns ((validate_strategy_iff fl s).0 ok).climbs
    where
      by_steps :
          (sts : List (Step fl.F))
          → AreNumbers fl sts
          → Climbs fl fl.minus_one sts
          → IsSorted fl sts
      by_steps [] ns c = tt
      by_steps (st ∷ sts) ns c = Climbs-above st.percent sts ns.0 ns.1 c.1

  nan-Climbs :
      (x prev : fl.F) (sts ts : List (Step fl.F)) (st : Step fl.F)
      → fl.eq x x ≡ false
      → Climbs fl prev sts
      → Climbs fl fl.minus_one ts
      → Climbs fl prev (sts ++ record st { percent = x } ∷ ts)
  nan-Climbs x prev [] [] st n c d = ((lt_nan x prev n).0, tt)
  nan-Climbs x prev [] (t ∷ ts) st n c d = ((lt_nan x prev n).0, ((lt_nan x t.percent n).1, d.1))
  nan-Climbs x prev (u ∷ sts) ts st n c d = (c.0, nan-Climbs x u.percent sts ts st n c.1 d)

  last-append :
      (st t : Step fl.F) (sts ts : List (Step fl.F))
      → last_percent fl st (sts ++ t ∷ ts) ≡ last_percent fl t ts
  unfolding last_percent
  last-append st t [] ts = refl
  last-append st t (u ∷ sts) ts = last-append u t sts ts

  ends-append :
      (sts ts : List (Step fl.F)) (t : Step fl.F) → EndsFull fl ts → EndsFull fl (sts ++ t ∷ ts)
  unfolding last_percent
  ends-append sts [] t e = absurd e
  ends-append [] (u ∷ ts) t e = e
  ends-append (v ∷ sts) (u ∷ ts) t e = rw (last-append v t sts (u ∷ ts)) e

  All-insert :
      (P : Step fl.F → Type 0) (sts ts : List (Step fl.F)) (t : Step fl.F)
      → All P sts
      → P t
      → All P ts
      → All P (sts ++ t ∷ ts)
  All-insert P [] ts t a p b = (p, b)
  All-insert P (s ∷ sts) ts t a p b = (a.0, All-insert P sts ts t a.1 p b)

  nan_step_valid :
      (x : fl.F) (st : Step fl.F)
      → fl.eq x x ≡ false
      → IsValidStep fl st
      → IsValidStep fl (record st { percent = x })
  nan_step_valid x st n v = record {
    percent_within = ((lt_nan x fl.zero_f n).0, (lt_nan x fl.hundred n).1);
    min_nonneg = v.min_nonneg;
    bake_nonneg = v.bake_nonneg;
    ordered = v.ordered;
    bakes = v.bakes;
    threshold_valid = v.threshold_valid;
    timeout_valid = v.timeout_valid;
    conditions_valid = v.conditions_valid;
  }

  -- A step whose percentage is NaN passes every test, and hides any fall between the steps before
  -- it and those behind it: between the steps of two accepted strategies, the whole is accepted.
  pub nan_step_accepted :
      (s t : Strategy fl.F) (st : Step fl.F) (x : fl.F)
      → fl.eq x x ≡ false
      → IsValidStep fl st
      → validate_strategy fl (some s) ≡ none
      → validate_strategy fl (some t) ≡ none
      → validate_strategy fl
          (some (record s { steps = s.steps ++ record st { percent = x } ∷ t.steps }))
        ≡ none
  nan_step_accepted s t st x n valid ok_s ok_t =
      let v = (validate_strategy_iff fl s).0 ok_s in
      let w = (validate_strategy_iff fl t).0 ok_t in
      let nan : Step fl.F = record st { percent = x } in
      (validate_strategy_iff fl (record s { steps = s.steps ++ nan ∷ t.steps })).1 (record {
        named = v.named;
        targeted = v.targeted;
        default_within = v.default_within;
        steps_valid =
            All-insert (IsValidStep fl) s.steps t.steps nan v.steps_valid
              (nan_step_valid x st n valid) w.steps_valid;
        climbs = nan-Climbs x fl.minus_one s.steps t.steps st n v.climbs w.climbs;
        ends_full = ends-append s.steps t.steps nan w.ends_full;
      })
