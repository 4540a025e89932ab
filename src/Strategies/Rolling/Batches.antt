-- ===== src/Strategies/Rolling/Batches.antt =====
-- internal/deploy/strategies/rolling.go: the batches of a rolling update.
use deploy_sentry.Base.{
  ltb, if◌then◌else◌, nat_eq, string_eq, ℕ, zero, suc, ◌+◌, ◌-◌, ◌*◌, ◌/◌, ◌%◌, ◌≤◌, ◌<◌, ◌≡◌, refl,
  ap, ◌∙◌, ◌≢◌, Bool, true, false, ◌&&◌, some, List, [], ◌∷◌, arith,
}
use deploy_sentry.Base.Int.{pos_part, ◌<ℤ◌, ℤ, pos, negsuc, ltb_ℤ}
use deploy_sentry.Deployment.{Deployment}
use deploy_sentry.Strategies.Rolling.{
  RollingConfig, execute, one_round, Run, out_of_fuel, Batch, int_max, wrap_int, quot,
  effective_batch, surge_count, batch_percent, Pace, set_traffic, batch_of, loop,
}

wrap_int_lem : (n : ℕ) → n ≤ int_max → wrap_int n ≡ pos n
unfolding wrap_int
wrap_int_lem n l = let small : n % 18446744073709551616 ≡ n = omega arith in ground arith

batch_percent_lem :
    (total updated : ℕ)
    → updated ≤ total
    → total * 100 ≤ int_max
    → batch_percent total updated ≡ pos (updated * 100 / total)
unfolding batch_percent quot
batch_percent_lem total updated l m =
    ap (λ x. quot x total) (wrap_int_lem (updated * 100) (omega arith))

-- `surge` instances more than the total, of a batch of `size`.
abbrev pub SurgeValid : ℤ → ℕ → ℕ → Type 0
SurgeValid (pos zero) size surge = surge ≡ 0
SurgeValid (pos (suc m)) size surge = (surge ≡ size) × (size ≤ suc m)
SurgeValid (negsuc m) size surge = surge ≡ 0

-- Batches that go on from `updated` instances: none is empty, larger than `size` or beyond the
-- total, the surge is kept within its maximum, and the traffic is the share of the updated instances.
abbrev pub Steps : ℕ → ℕ → ℤ → ℕ → List Batch → Type 0
Steps total size max_surge updated [] = Unit
Steps total size max_surge updated (b ∷ bs) =
    ((0 < b.size) × (b.size ≤ size) × (updated + b.size ≤ total))
    × SurgeValid max_surge b.size b.surge
    × (b.percent ≡ pos ((updated + b.size) * 100 / total))
    × Steps total size max_surge (updated + b.size) bs

abbrev pub last_percent : ℤ → List Batch → ℤ
last_percent p [] = p
last_percent p (b ∷ bs) = last_percent b.percent bs

-- A batch size that the surge allows.
abbrev Allowed : ℤ → ℕ → Type 0
Allowed (pos zero) size = Unit
Allowed (pos (suc m)) size = size ≤ suc m
Allowed (negsuc m) size = Unit

pub effective_batch-Allowed :
    (size : ℕ) (max_surge : ℤ)
    → 0 < size
    → (0 < effective_batch size max_surge)
      × (effective_batch size max_surge ≤ size)
      × Allowed max_surge (effective_batch size max_surge)
unfolding effective_batch
effective_batch-Allowed size (pos zero) l = ground arith
effective_batch-Allowed size (pos (suc m)) l = ground arith
effective_batch-Allowed size (negsuc m) l = ground arith

surge_count-SurgeValid :
    (max_surge : ℤ) (size current : ℕ)
    → Allowed max_surge size
    → current ≤ size
    → SurgeValid max_surge current (surge_count max_surge current)
unfolding surge_count
surge_count-SurgeValid (pos zero) size current a l = ground arith
surge_count-SurgeValid (pos (suc m)) size current a l = ground arith
surge_count-SurgeValid (negsuc m) size current a l = ground arith

module _ (total : ℕ) (fits : total * 100 ≤ int_max) (size : ℕ) (delay max_surge : ℤ)
    (pace : ℕ → Pace) (some_size : 0 < size) (allowed : Allowed max_surge size) where
  abbrev Fine : ℕ → Deployment → Run → Type 0
  Fine updated d r =
      (r.0 ≢ some out_of_fuel)
      × Steps total size max_surge updated r.1.0
      × (r.1.1.traffic_percent ≡ last_percent d.traffic_percent r.1.0)

  one_round-Fine :
      (going done_at_start interrupted : Bool) (updated : ℕ) (b : Batch) (d written : Deployment)
      (next : Run)
      → written.traffic_percent ≡ b.percent
      → (going ≡ true
          → ((0 < b.size) × (b.size ≤ size) × (updated + b.size ≤ total))
            × SurgeValid max_surge b.size b.surge
            × (b.percent ≡ pos ((updated + b.size) * 100 / total))
            × Fine (updated + b.size) written next)
      → Fine updated d (one_round going done_at_start interrupted b d written next)
  unfolding one_round
  one_round-Fine false start wait updated b d written next e h = (ground arith, tt, refl)
  one_round-Fine true true wait updated b d written next e h = (ground arith, tt, refl)
  one_round-Fine true false true updated b d written next e h =
      let (sized, surged, shared, rest) = h refl in (ground arith, (sized, surged, shared, tt), e)
  one_round-Fine true false false updated b d written next e h =
      let (sized, surged, shared, (ends, steps, last)) = h refl in
      (ends, (sized, surged, shared, steps), last ∙ ap (λ p. last_percent p next.1.0) e)

  -- The size, the surge and the traffic of one batch.
  batch_of_lem :
      (updated batch_num : ℕ)
      → updated < total
      → (let b = batch_of total size delay max_surge pace updated batch_num in
          ((0 < b.size) × (b.size ≤ size) × (updated + b.size ≤ total))
          × SurgeValid max_surge b.size b.surge
          × (b.percent ≡ pos ((updated + b.size) * 100 / total)))
  unfolding batch_of
  batch_of_lem updated batch_num l =
      let current = if ltb (total - updated) size then total - updated else size in
      let sized : (0 < current) × (current ≤ size) × (updated + current ≤ total) = ground arith in
      (
        sized,
        surge_count-SurgeValid max_surge size current allowed sized.1,
        batch_percent_lem total (updated + current) sized.2 fits,
      )

  loop_lem :
      (fuel updated batch_num : ℕ) (d : Deployment)
      → updated ≤ total
      → total - updated < fuel
      → Fine updated d (loop total size delay max_surge pace fuel updated batch_num d)
  unfolding loop
  loop_lem zero updated batch_num d u f = absurd (ground arith)
  loop_lem (suc fuel) updated batch_num d u f =
      let b = batch_of total size delay max_surge pace updated batch_num in
      let written = set_traffic b.percent (pace batch_num).written_at d in
      one_round-Fine (ltb updated total) (pace batch_num).done_at_start
        (ltb (updated + b.size) total && ltb_ℤ (pos 0) delay && (pace batch_num).done_in_delay)
        updated b d written
        (loop total size delay max_surge pace fuel (updated + b.size) (suc batch_num) written) refl
        (λ going.
          (let (sized, surged, shared) = batch_of_lem updated batch_num (ground arith) in
            (
              sized,
              surged,
              shared,
              loop_lem fuel (updated + b.size) (suc batch_num) written sized.2
                  (omega (arith, sized)),
            )))

-- With a wider bound on the size of a batch, but for the surge.
pub Steps-wider :
    (total size wider : ℕ) (max_surge : ℤ) (updated : ℕ) (bs : List Batch)
    → size ≤ wider
    → Steps total size max_surge updated bs
    → Steps total wider max_surge updated bs
Steps-wider total size wider max_surge updated [] l h = tt
Steps-wider total size wider max_surge updated (b ∷ bs) l (sized, surged, shared, rest) = (
  ground arith,
  surged,
  shared,
  Steps-wider total size wider max_surge (updated + b.size) bs l rest,
)

-- `execute` on positive sizes is its loop, with a batch size that the surge allows.
pub execute_lem :
    {F : Type 0} (config : RollingConfig F) (pace : ℕ → Pace) (d : Deployment)
    → pos 0 <ℤ config.total_instances
    → pos 0 <ℤ config.batch_size
    → execute config pace d
      ≡ loop
          (pos_part config.total_instances)
          (effective_batch (pos_part config.batch_size) config.max_surge)
          config.batch_delay
          config.max_surge
          pace
          (suc (pos_part config.total_instances))
          0
          0
          d
unfolding execute
execute_lem config pace d p q = ground arith

-- A rolling update, interrupted or not, stops: within one more round than there are instances. Its
-- batches follow each other from no instance on: none is empty, larger than the batch size or beyond
-- the total, the surge is at most its maximum, the traffic of a batch is the share of the instances
-- updated with it, and the deployment is left with the traffic of the last batch. The total times a
-- hundred is a 64-bit integer.
pub execute_batches :
    {F : Type 0} (config : RollingConfig F) (pace : ℕ → Pace) (d : Deployment)
    → pos 0 <ℤ config.total_instances
    → pos 0 <ℤ config.batch_size
    → pos_part config.total_instances * 100 ≤ int_max
    → ((execute config pace d).0 ≢ some out_of_fuel)
      × Steps
          (pos_part config.total_instances)
          (pos_part config.batch_size)
          config.max_surge
          0
          (execute config pace d).1.0
      × ((execute config pace d).1.1.traffic_percent
          ≡ last_percent d.traffic_percent (execute config pace d).1.0)
execute_batches config pace d p q fits =
    let n = pos_part config.total_instances in
    let k = pos_part config.batch_size in
    let (positive, smaller, allowed) = effective_batch-Allowed k config.max_surge (omega arith) in
    let eff = effective_batch k config.max_surge in
    let (stops, steps, last) =
      loop_lem n fits eff config.batch_delay config.max_surge pace positive allowed (suc n) 0 0 d
        (omega arith) (omega arith) in
    rw (execute_lem config pace d p q)
      (stops, Steps-wider n eff k config.max_surge 0 _ smaller steps, last)
