-- ===== src/Rollback/Streak.antt =====
-- internal/rollback/controller.go: what the controller remembers of a deployment's health.
pub mod Updates
pub mod Starts
pub mod Automatic
use deploy_sentry.Base.{
  if◌then◌else◌, ◌==◌, nat_eq, string_eq, ℕ, ◌≡◌, refl, Bool, true, false, Option, none, some, List,
  ◌∷◌, arith,
}
use deploy_sentry.Base.Dict.{find, put, find-erase}
use deploy_sentry.Rollout.Floats.{Floats}
use deploy_sentry.Rollback.Model.{RollbackState, RollbackContext, RollbackController}
use deploy_sentry.Rollback.Controller.{unwatch, set_context, context_of}
use deploy_sentry.Rollback.Runs.{
  sets_triggers, sets_cooldown, finished, triggers, manual, update, unwatches, watches, Op,
}

module _ (fl : Floats) where
  -- Since when a deployment is under evaluation.
  unfoldable pub evaluating_since : RollbackController fl.F → ℕ → Option ℕ
  evaluating_since rc id = elim (context_of fl rc id) [
    | none ↦ none
    | some ctx ↦ elim ctx.state [
      | RollbackState.healthy ↦ none
      | RollbackState.evaluating ↦ ctx.unhealthy_since
      | RollbackState.rolling_back ↦ none
      | RollbackState.rolled_back ↦ none
    ]
  ]

  unfoldable pub resets : Op fl.F → ℕ → Bool
  resets (watches j) id = j == id
  resets (unwatches j) id = j == id
  resets (update j s u) id = j == id
  resets (manual j reason u) id = false
  resets (triggers j rate p99 u) id = false
  resets (sets_triggers config) id = false
  resets (sets_cooldown period) id = false
  resets (finished j succeeded u) id = false

  -- The operations, the latest first, have an update of the deployment below the threshold at the
  -- instant, and after it neither a health update that is not below nor a new watch.
  pub data Streak (threshold : fl.F) (id t : ℕ) : List (Op fl.F) → Type 0 where
    first :
        {s : fl.F} {ops : List (Op fl.F)}
        → fl.lt s threshold ≡ true
        → Streak threshold id t (Op.update id s t ∷ ops)
    more :
        {s : fl.F} {u : ℕ} {ops : List (Op fl.F)}
        → fl.lt s threshold ≡ true
        → Streak threshold id t ops
        → Streak threshold id t (Op.update id s u ∷ ops)
    beside :
        {op : Op fl.F} {ops : List (Op fl.F)}
        → resets op id ≡ false
        → Streak threshold id t ops
        → Streak threshold id t (op ∷ ops)

  pub context_of-set_context :
      (rc : RollbackController fl.F) (id : ℕ) (ctx : RollbackContext fl.F) (j : ℕ)
      → context_of fl (set_context fl rc id ctx) j
        ≡ (if id == j then some ctx else context_of fl rc j)
  unfolding context_of set_context find put
  context_of-set_context rc id ctx j = refl

  pub context_of-unwatch :
      (rc : RollbackController fl.F) (id j : ℕ)
      → context_of fl (unwatch fl rc id) j ≡ (if id == j then none else context_of fl rc j)
  unfolding context_of unwatch
  context_of-unwatch rc id j = find-erase rc.states id j

  pub evaluating_since-set_context :
      (rc : RollbackController fl.F) (id : ℕ) (ctx : RollbackContext fl.F) (j : ℕ)
      → evaluating_since (set_context fl rc id ctx) j ≡ (
          if id == j
          then elim ctx.state [
            | RollbackState.healthy ↦ none
            | RollbackState.evaluating ↦ ctx.unhealthy_since
            | RollbackState.rolling_back ↦ none
            | RollbackState.rolled_back ↦ none
          ]
          else evaluating_since rc j)
  unfolding evaluating_since
  evaluating_since-set_context rc id ctx j = ground (arith, context_of-set_context rc id ctx j)
