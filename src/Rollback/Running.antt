-- ===== src/Rollback/Running.antt =====
-- internal/rollback/controller.go: the `Execute`s of a deployment that are under way.
pub mod Guards
pub mod Count
use deploy_sentry.Base.{
  ltb, leb, nat_beq, if◌then◌else◌, ltb→lt, lt→ltb, leb→le, nat_beq_iff, tests, Bool-cases,
  Option-cases, Eq, ◌==◌, nat_eq, string_eq, contains, is_some, length, length-append, drop,
  length-drop, all, any, All, ℕ, zero, suc, ◌+◌, ◌-◌, ◌*◌, ◌/◌, ◌%◌, ◌^◌, ◌≤◌, ◌<◌, String, ◌≡◌,
  refl, sym, ap, subst, ◌∙◌, ◌≢◌, ◌↔◌, ◌⊎◌, inl, inr, Bool, true, false, not, ◌&&◌, ◌||◌, Option,
  none, some, List, [], ◌∷◌, ◌++◌, map, arith, eq_iff,
}
use deploy_sentry.Base.Int.{
  ℤ, pos, negsuc, pos_part, neg_part, sub_ℕ, ◌≤ℤ◌, ◌<ℤ◌, ltb_ℤ, leb_ℤ, sub_time,
}
use deploy_sentry.Base.Dict.{find, put, erase}
use deploy_sentry.Rollout.Floats.{Floats}
use deploy_sentry.Rollback.Model.{RollbackState, RollbackContext, Effect, RollbackController, Job}
use deploy_sentry.Rollback.Runs.{after, Op, World}
use deploy_sentry.Rollback.Controller.{start, quiet, set_context, context_of, handle_unhealthy}
use deploy_sentry.Rollback.Streak.{context_of-set_context}

module _ (fl : Floats) where
  unfoldable pub count : List (Job fl.F) → ℕ → ℕ
  count [] id = 0
  count (job ∷ jobs) id =
      let rest : ℕ = count jobs id in if job.deployment_id == id then suc rest else rest

  -- No rollback of the deployment can start.
  unfoldable pub blocked : RollbackController fl.F → ℕ → Bool
  blocked rc id = elim (context_of fl rc id) [
    | none ↦ true
    | some ctx ↦ elim ctx.state [
      | RollbackState.healthy ↦ false
      | RollbackState.evaluating ↦ false
      | RollbackState.rolling_back ↦ true
      | RollbackState.rolled_back ↦ true
    ]
  ]

  -- At most one `Execute` of a deployment is under way, and while one is no other can start.
  pub OneRunning : World fl.F → Type 0
  OneRunning w =
      (id : ℕ)
      → (count w.running id ≡ 0) ⊎ ((count w.running id ≡ 1) × (blocked w.controller id ≡ true))

  -- A deployment is watched, again or for the first time, only when no `Execute` of it is under way.
  unfoldable pub Calm : World fl.F → List (Op fl.F) → Type 0
  Calm w [] = Unit
  Calm w (Op.watches id ∷ ops) = (count (after fl w ops).running id ≡ 0) × Calm w ops
  Calm w (Op.unwatches id ∷ ops) = Calm w ops
  Calm w (Op.update id s now ∷ ops) = Calm w ops
  Calm w (Op.manual id reason now ∷ ops) = Calm w ops
  Calm w (Op.triggers id rate p99 now ∷ ops) = Calm w ops
  Calm w (Op.sets_triggers config ∷ ops) = Calm w ops
  Calm w (Op.sets_cooldown period ∷ ops) = Calm w ops
  Calm w (Op.finished id ok now ∷ ops) = Calm w ops

  -- An operation keeps what is blocked, and starts only what was not and is then.
  pub record Guarded (rc : RollbackController fl.F) (e : Effect fl.F) : Type 0 where
    pub keeps : (j : ℕ) → blocked rc j ≡ true → blocked e.controller j ≡ true
    pub begins :
        (job : Job fl.F)
        → e.started ≡ some job
        → (blocked rc job.deployment_id ≡ false) × (blocked e.controller job.deployment_id ≡ true)

  pub blocked-set_context :
      (rc : RollbackController fl.F) (id : ℕ) (ctx : RollbackContext fl.F) (j : ℕ)
      → blocked (set_context fl rc id ctx) j ≡ (
          if id == j
          then elim ctx.state [
            | RollbackState.healthy ↦ false
            | RollbackState.evaluating ↦ false
            | RollbackState.rolling_back ↦ true
            | RollbackState.rolled_back ↦ true
          ]
          else blocked rc j)
  unfolding blocked
  blocked-set_context rc id ctx j = ground (arith, context_of-set_context fl rc id ctx j)
