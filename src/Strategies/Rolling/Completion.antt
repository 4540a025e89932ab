-- ===== src/Strategies/Rolling/Completion.antt =====
-- internal/deploy/strategies/rolling.go: an update that nothing interrupts.
use native.Mathlib.Nat.{mul-div_cancel_left}
use deploy_sentry.Base.{
  ltb, nat_eq, string_eq, ℕ, zero, suc, ◌+◌, ◌-◌, ◌*◌, ◌/◌, ◌≤◌, ◌<◌, ◌≡◌, refl, ap, ◌∙◌, Bool,
  true, false, ◌&&◌, none, List, [], ◌∷◌, arith,
}
use deploy_sentry.Base.Int.{ℤ, pos, pos_part, ◌<ℤ◌, ltb_ℤ}
use deploy_sentry.Deployment.{Deployment}
use deploy_sentry.Strategies.Rolling.{
  RollingConfig, Batch, int_max, effective_batch, Pace, set_traffic, batch_of, loop, execute,
  one_round, Run,
}
use deploy_sentry.Strategies.Rolling.Batches.{
  Steps, last_percent, execute_batches, execute_lem, effective_batch-Allowed,
}

abbrev pub sizes : List Batch → ℕ
sizes [] = 0
sizes (b ∷ bs) = b.size + sizes bs

-- The context is never done.
abbrev pub IsQuiet : (ℕ → Pace) → Type 0
IsQuiet pace = (i : ℕ) → ((pace i).done_at_start ≡ false) × ((pace i).done_in_delay ≡ false)

abbrev Whole : ℕ → ℕ → Run → Type 0
Whole total updated r = (r.0 ≡ none) × (updated + sizes r.1.0 ≡ total)

module _ (total : ℕ) (size : ℕ) (delay max_surge : ℤ) (pace : ℕ → Pace) (some_size : 0 < size)
    (quiet : IsQuiet pace) where
  one_round-Whole :
      (going done_at_start interrupted : Bool) (updated : ℕ) (b : Batch) (d written : Deployment)
      (next : Run)
      → done_at_start ≡ false
      → interrupted ≡ false
      → (going ≡ false → updated ≡ total)
      → (going ≡ true → Whole total (updated + b.size) next)
      → Whole total updated (one_round going done_at_start interrupted b d written next)
  unfolding one_round
  one_round-Whole false start wait updated b d written next s w e h = (refl, ground (arith, e refl))
  one_round-Whole true true wait updated b d written next s w e h = absurd (ground arith)
  one_round-Whole true false true updated b d written next s w e h = absurd (ground arith)
  one_round-Whole true false false updated b d written next s w e h =
      ((h refl).0, ground (arith, (h refl).1))

  loop-Whole :
      (fuel updated batch_num : ℕ) (d : Deployment)
      → updated ≤ total
      → total - updated < fuel
      → Whole total updated (loop total size delay max_surge pace fuel updated batch_num d)
  unfolding loop batch_of
  loop-Whole zero updated batch_num d u f = absurd (ground arith)
  loop-Whole (suc fuel) updated batch_num d u f =
      let b = batch_of total size delay max_surge pace updated batch_num in
      let written = set_traffic b.percent (pace batch_num).written_at d in
      one_round-Whole (ltb updated total) (pace batch_num).done_at_start
        (ltb (updated + b.size) total && ltb_ℤ (pos 0) delay && (pace batch_num).done_in_delay)
        updated b d written
        (loop total size delay max_surge pace fuel (updated + b.size) (suc batch_num) written)
        (quiet batch_num).0 (ground (arith, (quiet batch_num).1)) (λ e. ground (arith, u))
        (λ going.
          loop-Whole fuel (updated + b.size) (suc batch_num) written (ground arith) (ground arith))

last_percent_lem :
    (total size : ℕ) (max_surge : ℤ) (updated : ℕ) (p : ℤ) (b : Batch) (bs : List Batch)
    → Steps total size max_surge updated (b ∷ bs)
    → last_percent p (b ∷ bs) ≡ pos ((updated + sizes (b ∷ bs)) * 100 / total)
last_percent_lem total size max_surge updated p b [] (sized, surged, shared, rest) =
    rw (shared) (ap (λ n. pos (n * 100 / total)) (omega arith))
last_percent_lem total size max_surge updated p b (c ∷ bs) (sized, surged, shared, rest) =
    last_percent_lem total size max_surge (updated + b.size) b.percent c bs rest
    ∙ ap (λ n. pos (n * 100 / total)) (omega arith)

-- Batches that add up to the total end with all of the traffic.
full_traffic :
    (total size : ℕ) (max_surge p : ℤ) (bs : List Batch)
    → 0 < total
    → Steps total size max_surge 0 bs
    → sizes bs ≡ total
    → last_percent p bs ≡ pos 100
full_traffic total size max_surge p [] l steps e = absurd (omega (arith, e))
full_traffic total size max_surge p (b ∷ bs) l steps e =
    last_percent_lem total size max_surge 0 p b bs steps
    ∙ ap (λ n. pos (n * 100 / total)) (omega (arith, e))
    ∙ ap pos (mul-div_cancel_left 100 l)

-- A rolling update that nothing interrupts succeeds: its batches add up to all the instances, and
-- all of the traffic is on the deployment.
pub execute_completes :
    {F : Type 0} (config : RollingConfig F) (pace : ℕ → Pace) (d : Deployment)
    → pos 0 <ℤ config.total_instances
    → pos 0 <ℤ config.batch_size
    → pos_part config.total_instances * 100 ≤ int_max
    → IsQuiet pace
    → ((execute config pace d).0 ≡ none)
      × (sizes (execute config pace d).1.0 ≡ pos_part config.total_instances)
      × ((execute config pace d).1.1.traffic_percent ≡ pos 100)
execute_completes config pace d p q fits quiet =
    let n = pos_part config.total_instances in
    let k = pos_part config.batch_size in
    let (stops, steps, last) = execute_batches config pace d p q fits in
    let (succeeds, covers) : Whole n 0 (execute config pace d) =
      rw (execute_lem config pace d p q) (
        loop-Whole n (effective_batch k config.max_surge) config.batch_delay config.max_surge pace
          (effective_batch-Allowed k config.max_surge (omega arith)).0 quiet (suc n) 0 0 d
          (omega arith) (omega arith)) in
    let whole : sizes (execute config pace d).1.0 ≡ n = omega (arith, covers) in
    (
      succeeds,
      whole,
      last ∙ full_traffic n k config.max_surge d.traffic_percent _ (omega arith) steps whole,
    )
