-- ===== src/Rollback/Streak/Starts.antt =====
-- internal/rollback/controller.go: when an automatic rollback starts.
use deploy_sentry.Base.Dict.{find}
use deploy_sentry.Base.{
  ◌==◌, nat_eq, string_eq, ℕ, String, ◌≡◌, refl, sym, subst, ◌∙◌, ◌≢◌, ◌⊎◌, inl, inr, Bool, true,
  false, Option, none, some, List, [], ◌∷◌, arith,
}
use deploy_sentry.Rollout.Floats.{Floats}
use deploy_sentry.Rollback.Runs.{after, first_job, with_effect, settle, Op, World, step}
use deploy_sentry.Rollback.Model.{
  RollbackTriggerConfig, Job, RollbackState, RollbackContext, RollbackController,
}
use deploy_sentry.Rollback.Triggers.{evaluate_context, evaluate_triggers}
use deploy_sentry.Rollback.Controller.{
  set_cooldown_period, set_trigger_config, fresh_context, record_rollback, unwatch, context_of,
  watch, transition_to, start, trigger_manual_rollback, finish,
}
use deploy_sentry.Rollback.Streak.{
  more, first, context_of-unwatch, resets, beside, Streak, context_of-set_context,
  evaluating_since-set_context, evaluating_since,
}
use deploy_sentry.Rollback.Settings.{settings-step, settings}
use deploy_sentry.Rollback.Streak.Updates.{evaluating_since-on_health_update}

module _ (fl : Floats) where
  pub evaluating_since-trigger_manual_rollback :
      (w : World fl.F) (id : ℕ) (reason : String) (now j t : ℕ)
      → evaluating_since fl (step fl w (Op.manual id reason now)).controller j ≡ some t
      → evaluating_since fl w.controller j ≡ some t
  unfolding step settle with_effect trigger_manual_rollback start
  evaluating_since-trigger_manual_rollback w id reason now j t since =
      by_row (context_of fl w.controller id) refl
    where
      by_row :
          (found : Option (RollbackContext fl.F))
          → context_of fl w.controller id ≡ found
          → evaluating_since fl w.controller j ≡ some t
      by_row none eq = ground arith
      by_row (some ctx) eq = ground (
        arith,
        evaluating_since-set_context fl w.controller id
            (record ctx { state = RollbackState.rolling_back }) j,
      )

  pub evaluate_context-state :
      (cfg : RollbackTriggerConfig fl.F) (ctx : RollbackContext fl.F) (rate p99 : fl.F) (now : ℕ)
      → ((evaluate_context fl cfg ctx rate p99 now).0.state ≡ ctx.state)
        × ((evaluate_context fl cfg ctx rate p99 now).0.unhealthy_since ≡ ctx.unhealthy_since)
  unfolding evaluate_context
  evaluate_context-state cfg ctx rate p99 now = ground arith

  pub evaluating_since-evaluate_triggers :
      (w : World fl.F) (id : ℕ) (rate p99 : fl.F) (now j t : ℕ)
      → evaluating_since fl (step fl w (Op.triggers id rate p99 now)).controller j ≡ some t
      → evaluating_since fl w.controller j ≡ some t
  unfolding step evaluate_triggers evaluating_since
  evaluating_since-evaluate_triggers w id rate p99 now j t since =
      by_row (context_of fl w.controller id) refl
    where
      by_row :
          (found : Option (RollbackContext fl.F))
          → context_of fl w.controller id ≡ found
          → evaluating_since fl w.controller j ≡ some t
      by_row none eq = ground arith
      by_row (some ctx) eq = ground (
        arith,
        nat_eq.equal_iff id j,
        evaluate_context-state w.controller.trigger_config ctx rate p99 now,
        evaluating_since-set_context fl w.controller id
            (evaluate_context fl w.controller.trigger_config ctx rate p99 now).0 j,
      )

  pub context_of-record_rollback :
      (rc : RollbackController fl.F) (job : Job fl.F) (now j : ℕ)
      → context_of fl (record_rollback fl rc job now) j ≡ context_of fl rc j
  unfolding context_of record_rollback
  context_of-record_rollback rc job now j = refl

  pub evaluating_since-transition_to :
      (rc : RollbackController fl.F) (job : Job fl.F) (now j t : ℕ)
      → evaluating_since fl
          (transition_to fl
            (record_rollback fl rc job now)
            job.deployment_id
            RollbackState.rolled_back
            job.reason
            job.automatic
            now).controller
          j
        ≡ some t
      → evaluating_since fl rc j ≡ some t
  unfolding transition_to evaluating_since
  evaluating_since-transition_to rc job now j t since =
      by_row (context_of fl (record_rollback fl rc job now) job.deployment_id) refl
    where
      by_row :
          (found : Option (RollbackContext fl.F))
          → context_of fl (record_rollback fl rc job now) job.deployment_id ≡ found
          → evaluating_since fl rc j ≡ some t
      by_row none eq = ground (arith, context_of-record_rollback rc job now j)
      by_row (some ctx) eq = ground (
        arith,
        context_of-record_rollback rc job now j,
        context_of-set_context fl (record_rollback fl rc job now) job.deployment_id
            (record ctx { state = RollbackState.rolled_back }) j,
      )

  pub evaluating_since-finish :
      (w : World fl.F) (id : ℕ) (ok : Bool) (now j t : ℕ)
      → evaluating_since fl (step fl w (Op.finished id ok now)).controller j ≡ some t
      → evaluating_since fl w.controller j ≡ some t
  unfolding step settle with_effect finish
  evaluating_since-finish w id ok now j t since = by_job (first_job fl w.running id) refl
    where
      by_job :
          (found : Option (Job fl.F))
          → first_job fl w.running id ≡ found
          → evaluating_since fl w.controller j ≡ some t
      by_job none eq = ground arith
      by_job (some job) eq = ground (arith, evaluating_since-transition_to w.controller job now j t)

  evaluating_since-watch :
      (rc : RollbackController fl.F) (j id t : ℕ)
      → evaluating_since fl (watch fl rc j) id ≡ some t
      → ((j == id) ≡ false) × (evaluating_since fl rc id ≡ some t)
  unfolding watch fresh_context
  evaluating_since-watch rc j id t since =
      ground (arith, evaluating_since-set_context fl rc j (fresh_context fl) id)

  evaluating_since-unwatch :
      (rc : RollbackController fl.F) (j id t : ℕ)
      → evaluating_since fl (unwatch fl rc j) id ≡ some t
      → ((j == id) ≡ false) × (evaluating_since fl rc id ≡ some t)
  unfolding evaluating_since
  evaluating_since-unwatch rc j id t since = ground (arith, context_of-unwatch fl rc j id)

  evaluating_since-new :
      (rc : RollbackController fl.F) (id t : ℕ)
      → rc.states ≡ []
      → evaluating_since fl rc id ≡ some t
      → ⊥
  unfolding evaluating_since context_of find
  evaluating_since-new rc id t new since = ground arith

  -- An update below the threshold starts or continues a streak, and another deployment's leaves it.
  Streak-update :
      (threshold : fl.F) (ops : List (Op fl.F)) (j id t : ℕ) (s : fl.F) (now : ℕ)
      → ((j ≡ id) × (fl.lt s threshold ≡ true) × ((now ≡ t) ⊎ Streak fl threshold id t ops))
        ⊎ ((j ≢ id) × Streak fl threshold id t ops)
      → Streak fl threshold id t (Op.update j s now ∷ ops)
  unfolding resets
  Streak-update threshold ops j id t s now (inl (same, below, inl at)) =
      subst (λ i. Streak fl threshold id t (Op.update i s now ∷ ops)) (sym same)
        (subst (λ n. Streak fl threshold id t (Op.update id s n ∷ ops)) (sym at) (first below))
  Streak-update threshold ops j id t s now (inl (same, below, inr streak)) =
      subst (λ i. Streak fl threshold id t (Op.update i s now ∷ ops)) (sym same) (more below streak)
  Streak-update threshold ops j id t s now (inr (other, streak)) =
      beside (ground (arith, nat_eq.equal_iff j id)) streak

  settings-after :
      (w : World fl.F) (ops : List (Op fl.F))
      → settings fl (after fl w ops).controller ≡ settings fl w.controller
  unfolding after
  settings-after w [] = refl
  settings-after w (op ∷ ops) = settings-step fl (after fl w ops) op ∙ settings-after w ops

  pub threshold-after :
      (w : World fl.F) (ops : List (Op fl.F))
      → (after fl w ops).controller.health_threshold ≡ w.controller.health_threshold
  unfolding settings
  threshold-after w ops = ground (arith, settings-after w ops)

  pub window-after :
      (w : World fl.F) (ops : List (Op fl.F))
      → (after fl w ops).controller.evaluation_window ≡ w.controller.evaluation_window
  unfolding settings
  window-after w ops = ground (arith, settings-after w ops)

  evaluating_since-update :
      (w : World fl.F) (j id t : ℕ) (s : fl.F) (now : ℕ)
      → evaluating_since fl (step fl w (Op.update j s now)).controller id ≡ some t
      → ((j ≡ id)
          × (fl.lt s w.controller.health_threshold ≡ true)
          × ((now ≡ t) ⊎ (evaluating_since fl w.controller id ≡ some t)))
        ⊎ ((j ≢ id) × (evaluating_since fl w.controller id ≡ some t))
  unfolding step with_effect
  evaluating_since-update w j id t s now since =
      ground (arith, evaluating_since-on_health_update fl w.controller j s now id t)

  deeper :
      {below old : fl.F} {same other now_is streak since : Type 0} {s : fl.F}
      → (since → streak)
      → old ≡ below
      → (same × (fl.lt s old ≡ true) × (now_is ⊎ since)) ⊎ (other × since)
      → (same × (fl.lt s below ≡ true) × (now_is ⊎ streak)) ⊎ (other × streak)
  deeper {s} up eq (inl (a, b, inl c)) = inl (a, subst (λ x. fl.lt s x ≡ true) eq b, inl c)
  deeper {s} up eq (inl (a, b, inr c)) = inl (a, subst (λ x. fl.lt s x ≡ true) eq b, inr (up c))
  deeper up eq (inr (a, c)) = inr (a, up c)

  -- After any operations, in any order, of a controller that watched nothing: a deployment is under
  -- evaluation since an instant only when its updates from that instant on were all below the
  -- threshold, in one streak.
  pub evaluating_since-after :
      (w : World fl.F) (ops : List (Op fl.F)) (id t : ℕ)
      → w.controller.states ≡ []
      → evaluating_since fl (after fl w ops).controller id ≡ some t
      → Streak fl w.controller.health_threshold id t ops
  unfolding after resets step set_trigger_config set_cooldown_period evaluating_since context_of
  evaluating_since-after w [] id t new since =
      elim (evaluating_since-new w.controller id t new since) [ ]
  evaluating_since-after w (Op.watches j ∷ ops) id t new since =
      let (other, before) = evaluating_since-watch (after fl w ops).controller j id t since in
      beside other (evaluating_since-after w ops id t new before)
  evaluating_since-after w (Op.unwatches j ∷ ops) id t new since =
      let (other, before) = evaluating_since-unwatch (after fl w ops).controller j id t since in
      beside other (evaluating_since-after w ops id t new before)
  evaluating_since-after w (Op.update j s now ∷ ops) id t new since =
      Streak-update w.controller.health_threshold ops j id t s now (
        deeper (evaluating_since-after w ops id t new) (threshold-after w ops)
          (evaluating_since-update (after fl w ops) j id t s now since))
  evaluating_since-after w (Op.manual j reason now ∷ ops) id t new since = beside refl (
      evaluating_since-after w ops id t new
        (evaluating_since-trigger_manual_rollback (after fl w ops) j reason now id t since))
  evaluating_since-after w (Op.triggers j rate p99 now ∷ ops) id t new since = beside refl (
      evaluating_since-after w ops id t new
        (evaluating_since-evaluate_triggers (after fl w ops) j rate p99 now id t since))
  evaluating_since-after w (Op.sets_triggers config ∷ ops) id t new since =
      beside refl (evaluating_since-after w ops id t new since)
  evaluating_since-after w (Op.sets_cooldown period ∷ ops) id t new since =
      beside refl (evaluating_since-after w ops id t new since)
  evaluating_since-after w (Op.finished j ok now ∷ ops) id t new since = beside refl (
      evaluating_since-after w ops id t new
        (evaluating_since-finish (after fl w ops) j ok now id t since))
