-- ===== src/Rollback/Running/Count.antt =====
-- internal/rollback/controller.go: at most one `Execute` of a deployment.
use deploy_sentry.Base.{
  inr, inl, ◌⊎◌, String, if◌then◌else◌, ◌==◌, nat_eq, string_eq, ℕ, suc, ◌≡◌, refl, Bool, true,
  false, Option, none, some, List, [], ◌∷◌, arith,
}
use deploy_sentry.Rollout.Floats.{Floats}
use deploy_sentry.Rollback.Running.{
  Calm, RollbackContext, context_of-set_context, blocked, Guarded, Op, Effect, World, Job, count,
  OneRunning,
}
use deploy_sentry.Rollback.Runs.{after, settle, step, with_effect, without_job, first_job}
use deploy_sentry.Rollback.Controller.{
  set_cooldown_period, set_trigger_config, on_health_update, trigger_manual_rollback, context_of,
  fresh_context, watch, finish,
}
use deploy_sentry.Rollback.Running.Guards.{
  on_health_update-Guarded, trigger_manual_rollback-Guarded, returned_starts, returned_keeps,
}
use deploy_sentry.Rollback.Triggers.{evaluate_context, evaluate_triggers}
use deploy_sentry.Rollback.Streak.{context_of-unwatch}
use deploy_sentry.Rollback.Model.{ManualError}
use deploy_sentry.Rollback.Streak.Starts.{evaluate_context-state}

module _ (fl : Floats) where
  count-without_job :
      (jobs : List (Job fl.F)) (id : ℕ) (job : Job fl.F) (j : ℕ)
      → first_job fl jobs id ≡ some job
      → (job.deployment_id ≡ id)
        × (count fl jobs j ≡ (
            if id == j
            then suc (count fl (without_job fl jobs id) j)
            else count fl (without_job fl jobs id) j))
  unfolding first_job without_job count
  count-without_job [] id job j found = ground arith
  count-without_job (one ∷ jobs) id job j found =
      let rest = count-without_job jobs id job j in by_test (one.deployment_id == id) refl rest
    where
      by_test :
          (b : Bool)
          → (one.deployment_id == id) ≡ b
          → (first_job fl jobs id ≡ some job
              → (job.deployment_id ≡ id)
                × (count fl jobs j ≡ (
                    if id == j
                    then suc (count fl (without_job fl jobs id) j)
                    else count fl (without_job fl jobs id) j)))
          → (job.deployment_id ≡ id)
            × (count fl (one ∷ jobs) j ≡ (
                if id == j
                then suc (count fl (without_job fl (one ∷ jobs) id) j)
                else count fl (without_job fl (one ∷ jobs) id) j))
      by_test true eq rest = ground (arith, nat_eq.equal_iff one.deployment_id id)
      by_test false eq rest = ground (arith, rest)

  with_effect-OneRunning :
      (w : World fl.F) (e : Effect fl.F)
      → OneRunning fl w
      → Guarded fl w.controller e
      → OneRunning fl (with_effect fl w e)
  unfolding OneRunning with_effect count
  with_effect-OneRunning w e one guarded id = by_start e.started refl
    where
      by_start :
          (started : Option (Job fl.F))
          → e.started ≡ started
          → (count fl (with_effect fl w e).running id ≡ 0)
            ⊎ ((count fl (with_effect fl w e).running id ≡ 1)
                × (blocked fl (with_effect fl w e).controller id ≡ true))
      by_start none eq = ground (arith, one id, guarded.keeps id)
      by_start (some job) eq = ground (
        arith,
        one id,
        guarded.keeps id,
        guarded.begins job eq,
        nat_eq.equal_iff job.deployment_id id,
      )

  finished-OneRunning :
      (w : World fl.F) (id : ℕ) (ok : Bool) (now : ℕ)
      → OneRunning fl w
      → OneRunning fl (step fl w (Op.finished id ok now))
  unfolding OneRunning step settle finish with_effect
  finished-OneRunning w id ok now one j = by_job (first_job fl w.running id) refl
    where
      by_job :
          (found : Option (Job fl.F))
          → first_job fl w.running id ≡ found
          → (count fl (step fl w (Op.finished id ok now)).running j ≡ 0)
            ⊎ ((count fl (step fl w (Op.finished id ok now)).running j ≡ 1)
                × (blocked fl (step fl w (Op.finished id ok now)).controller j ≡ true))
      by_job none eq = ground (arith, one j)
      by_job (some job) eq = ground (
        arith,
        one j,
        count-without_job w.running id job j eq,
        returned_keeps fl w.controller job now j,
        returned_starts fl w.controller job now,
      )

  watches-OneRunning :
      (w : World fl.F) (id : ℕ)
      → count fl w.running id ≡ 0
      → OneRunning fl w
      → OneRunning fl (step fl w (Op.watches id))
  unfolding OneRunning step watch blocked
  watches-OneRunning w id calm one j = ground (
    arith,
    one j,
    nat_eq.equal_iff id j,
    context_of-set_context fl w.controller id (fresh_context fl) j,
  )

  unwatches-OneRunning :
      (w : World fl.F) (id : ℕ) → OneRunning fl w → OneRunning fl (step fl w (Op.unwatches id))
  unfolding OneRunning step blocked
  unwatches-OneRunning w id one j = ground (arith, one j, context_of-unwatch fl w.controller id j)

  manual-OneRunning :
      (w : World fl.F) (id : ℕ) (reason : String) (now : ℕ)
      → OneRunning fl w
      → OneRunning fl (step fl w (Op.manual id reason now))
  unfolding step settle
  manual-OneRunning w id reason now one =
      by_answer (trigger_manual_rollback fl w.controller id reason now) refl
    where
      by_answer :
          (answer : ManualError fl.F ⊎ Effect fl.F)
          → trigger_manual_rollback fl w.controller id reason now ≡ answer
          → OneRunning fl (settle fl w answer)
      by_answer (inl error) eq = one
      by_answer (inr e) eq =
          with_effect-OneRunning w e one
            (trigger_manual_rollback-Guarded fl w.controller id reason now e eq)

  triggers-OneRunning :
      (w : World fl.F) (id : ℕ) (rate p99 : fl.F) (now : ℕ)
      → OneRunning fl w
      → OneRunning fl (step fl w (Op.triggers id rate p99 now))
  unfolding OneRunning step evaluate_triggers blocked
  triggers-OneRunning w id rate p99 now one j = by_row (context_of fl w.controller id) refl
    where
      by_row :
          (found : Option (RollbackContext fl.F))
          → context_of fl w.controller id ≡ found
          → (count fl w.running j ≡ 0)
            ⊎ ((count fl w.running j ≡ 1)
                × (blocked fl (step fl w (Op.triggers id rate p99 now)).controller j ≡ true))
      by_row none eq = ground (arith, one j)
      by_row (some ctx) eq = ground (
        arith,
        one j,
        nat_eq.equal_iff id j,
        evaluate_context-state fl w.controller.trigger_config ctx rate p99 now,
        context_of-set_context fl w.controller id
            (evaluate_context fl w.controller.trigger_config ctx rate p99 now).0 j,
      )

  none_running-OneRunning : (w : World fl.F) → w.running ≡ [] → OneRunning fl w
  unfolding OneRunning count
  none_running-OneRunning w idle id = ground arith

  -- After any operations, in any order, from a world without an `Execute` under way, that watch a
  -- deployment only when no `Execute` of it is under way: of each deployment none or one is under way,
  -- and while one is the deployment is rolling back, rolled back, or not watched.
  pub after-OneRunning :
      (w : World fl.F) (ops : List (Op fl.F))
      → w.running ≡ []
      → Calm fl w ops
      → OneRunning fl (after fl w ops)
  unfolding after Calm step with_effect OneRunning set_trigger_config blocked context_of
      set_cooldown_period
  after-OneRunning w [] idle calm = none_running-OneRunning w idle
  after-OneRunning w (Op.watches id ∷ ops) idle (free, calm) =
      watches-OneRunning (after fl w ops) id free (after-OneRunning w ops idle calm)
  after-OneRunning w (Op.unwatches id ∷ ops) idle calm =
      unwatches-OneRunning (after fl w ops) id (after-OneRunning w ops idle calm)
  after-OneRunning w (Op.update id s now ∷ ops) idle calm =
      with_effect-OneRunning (after fl w ops)
        (on_health_update fl (after fl w ops).controller id s now)
        (after-OneRunning w ops idle calm)
        (on_health_update-Guarded fl (after fl w ops).controller id s now)
  after-OneRunning w (Op.manual id reason now ∷ ops) idle calm =
      manual-OneRunning (after fl w ops) id reason now (after-OneRunning w ops idle calm)
  after-OneRunning w (Op.triggers id rate p99 now ∷ ops) idle calm =
      triggers-OneRunning (after fl w ops) id rate p99 now (after-OneRunning w ops idle calm)
  after-OneRunning w (Op.sets_triggers config ∷ ops) idle calm = after-OneRunning w ops idle calm
  after-OneRunning w (Op.sets_cooldown period ∷ ops) idle calm = after-OneRunning w ops idle calm
  after-OneRunning w (Op.finished id ok now ∷ ops) idle calm =
      finished-OneRunning (after fl w ops) id ok now (after-OneRunning w ops idle calm)
