-- ===== src/Strategies/Rolling.antt =====
-- internal/deploy/strategies/rolling.go. `int` is 64 bits wide: the product by 100 wraps around.
-- What is computed for the phase records of the batches is kept, though the source discards it.
pub mod Batches
pub mod Completion
use deploy_sentry.Base.{
  ltb, leb, nat_beq, if◌then◌else◌, ltb→lt, lt→ltb, leb→le, nat_beq_iff, tests, Bool-cases,
  Option-cases, Eq, ◌==◌, nat_eq, string_eq, contains, is_some, length, length-append, drop,
  length-drop, all, any, All, ℕ, zero, suc, ◌+◌, ◌-◌, ◌*◌, ◌/◌, ◌%◌, ◌^◌, ◌≤◌, ◌<◌, String, ◌≡◌,
  refl, sym, ap, subst, ◌∙◌, ◌≢◌, ◌↔◌, ◌⊎◌, inl, inr, Bool, true, false, not, ◌&&◌, ◌||◌, Option,
  none, some, List, [], ◌∷◌, ◌++◌, map, arith, eq_iff,
}
use deploy_sentry.Base.Int.{
  ℤ, pos, negsuc, pos_part, neg_part, sub_ℕ, ◌≤ℤ◌, ◌<ℤ◌, ltb_ℤ, leb_ℤ, sub_time,
}
use deploy_sentry.Deployment.{Deployment}

pub record RollingConfig (F : Type 0) : Type 0 where
  pub batch_size : ℤ
  pub batch_delay : ℤ
  pub max_unavailable : ℤ
  pub max_surge : ℤ
  pub health_check_url : String
  pub health_threshold : F
  pub rollback_on_failure : Bool
  pub total_instances : ℤ

pub data ExecuteError : Type 0 where
  total_instances_not_positive batch_size_not_positive cancelled out_of_fuel : ExecuteError

-- A batch: its instances, the extra ones meanwhile, and its phase's traffic and sort order.
pub record Batch : Type 0 where
  pub size : ℕ
  pub surge : ℕ
  pub percent : ℤ
  pub sort_order : ℕ

abbrev pub int_max : ℕ
int_max = 9223372036854775807

-- A 64-bit product as a signed integer.
unfoldable pub wrap_int : ℕ → ℤ
wrap_int n =
    let m = n % 18446744073709551616 in
    if leb m int_max then pos m else negsuc (18446744073709551615 - m)

-- Go's division truncates towards zero; the divisor is positive here.
unfoldable pub quot : ℤ → ℕ → ℤ
quot (pos a) n = pos (a / n)
quot (negsuc a) n = sub_ℕ 0 (suc a / n)

unfoldable pub effective_batch : ℕ → ℤ → ℕ
effective_batch size max_surge =
    if ltb_ℤ (pos 0) max_surge && ltb (pos_part max_surge) size then pos_part max_surge else size

unfoldable pub surge_count : ℤ → ℕ → ℕ
surge_count max_surge size =
    if ltb_ℤ (pos 0) max_surge
    then if ltb (pos_part max_surge) size then pos_part max_surge else size
    else 0

unfoldable pub batch_percent : ℕ → ℕ → ℤ
unfolding wrap_int quot
batch_percent total updated = quot (wrap_int (updated * 100)) total

-- How an execution ends: its error, its batches, and the deployment.
abbrev pub Run : Type 0
Run = Option ExecuteError × (List Batch × Deployment)

-- What a batch meets: whether the context is done when it begins, whether it is done before the
-- delay is over, and the time the deployment is written.
pub record Pace : Type 0 where
  pub done_at_start : Bool
  pub done_in_delay : Bool
  pub written_at : ℕ

unfoldable pub set_traffic : ℤ → ℕ → Deployment → Deployment
set_traffic percent now d = record d { traffic_percent = percent; updated_at = now }

-- A batch is written; the delay after it may be interrupted.
unfoldable pub after_batch : Bool → Batch → Deployment → Run → Run
after_batch true b written next = (some cancelled, (b ∷ [], written))
after_batch false b written (error, (batches, final)) = (error, (b ∷ batches, final))

-- One round: the loop's condition, the test of the context, the batch.
unfoldable pub one_round : Bool → Bool → Bool → Batch → Deployment → Deployment → Run → Run
unfolding after_batch
one_round going done_at_start interrupted b d written next =
    if not going
    then (none, ([], d))
    else if done_at_start
    then (some cancelled, ([], d))
    else after_batch interrupted b written next

module _ (total : ℕ) (size : ℕ) (delay max_surge : ℤ) (pace : ℕ → Pace) where
  unfoldable pub batch_of : ℕ → ℕ → Batch
  unfolding batch_percent surge_count
  batch_of updated batch_num =
      let current = if ltb (total - updated) size then total - updated else size in
      record {
        size = current;
        surge = surge_count max_surge current;
        percent = batch_percent total (updated + current);
        sort_order = batch_num;
      }

  -- The loop: fuel, `updated`, `batchNum`, the deployment.
  unfoldable pub loop : ℕ → ℕ → ℕ → Deployment → Run
  unfolding batch_of set_traffic one_round
  loop zero updated batch_num d = (some out_of_fuel, ([], d))
  loop (suc fuel) updated batch_num d =
      let b = batch_of updated batch_num in
      let written = set_traffic b.percent (pace batch_num).written_at d in
      one_round (ltb updated total) (pace batch_num).done_at_start
        (ltb (updated + b.size) total && ltb_ℤ (pos 0) delay && (pace batch_num).done_in_delay) b d
        written (loop fuel (updated + b.size) (suc batch_num) written)

unfoldable pub execute : {F : Type 0} → RollingConfig F → (ℕ → Pace) → Deployment → Run
unfolding loop effective_batch
execute config pace d =
    if leb_ℤ config.total_instances (pos 0)
    then (some total_instances_not_positive, ([], d))
    else if leb_ℤ config.batch_size (pos 0)
    then (some batch_size_not_positive, ([], d))
    else loop (pos_part config.total_instances)
        (effective_batch (pos_part config.batch_size) config.max_surge) config.batch_delay
        config.max_surge pace (suc (pos_part config.total_instances)) 0 0 d

unfoldable pub rollback : ℕ → Deployment → Deployment
unfolding set_traffic
rollback now d = set_traffic (pos 0) now d
