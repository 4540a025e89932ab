-- ===== src/Deployment/Service.antt =====
-- internal/deploy/service.go over any repository: the operations that change a deployment. An
-- operation reads the clock (`now`), and the repository reads it again (`stored`). The state is the
-- repository's with the messages sent, newest first; sending never fails the operation.
pub mod Repository
pub mod Atomic
pub mod Store
pub mod Operations
pub mod Memory
use Prim.Native.String.{◌++◌ as ◌<>◌}
use deploy_sentry.Base.{
  ltb, leb, nat_beq, if◌then◌else◌, ltb→lt, lt→ltb, leb→le, nat_beq_iff, tests, Bool-cases,
  Option-cases, Eq, ◌==◌, nat_eq, string_eq, contains, is_some, length, length-append, drop,
  length-drop, all, any, All, ℕ, zero, suc, ◌+◌, ◌-◌, ◌*◌, ◌/◌, ◌%◌, ◌^◌, ◌≤◌, ◌<◌, String, ◌≡◌,
  refl, sym, ap, subst, ◌∙◌, ◌≢◌, ◌↔◌, ◌⊎◌, inl, inr, Bool, true, false, not, ◌&&◌, ◌||◌, Option,
  none, some, List, [], ◌∷◌, ◌++◌, map, arith, eq_iff,
}
use deploy_sentry.Base.Int.{
  ℤ, pos, negsuc, pos_part, neg_part, sub_ℕ, ◌≤ℤ◌, ◌<ℤ◌, ltb_ℤ, leb_ℤ, sub_time,
}
use deploy_sentry.Deployment.Status.{
  DeployStatus, pending, running, paused, promoting, completed, rolled_back, cancelled, DeployMode,
  status_beq, status_eq,
}
use deploy_sentry.Deployment.{
  Deployment, DeployError, validate_transition, transition_to, validate, or_now,
}
use Repository.{DeployRepo}

pub data ServiceError : Type 0 where
  get_failed update_failed create_failed only_running only_paused : ServiceError
  refused : DeployError → ServiceError
  validation_failed : DeployError → ServiceError

pub data Request : Type 0 where
  promote rollback pause resume cancel : ℕ → Request
  set_traffic_percent : ℕ → ℤ → Request
  -- The identifier that `uuid.New()` gives, and the deployment of the caller.
  create : ℕ → Deployment → Request

-- The part of `CreateDeployment` before the validation.
unfoldable pub prepare : ℕ → ℕ → Deployment → Deployment
prepare now fresh d =
    let id' = if d.id == 0 then fresh else d.id in
    elim d.mode [
      | DeployMode.record_mode ↦ record d {
        id = id';
        created_at = now;
        updated_at = now;
        status = completed;
        traffic_percent = pos 100;
        started_at = or_now now d.started_at;
        completed_at = or_now now d.completed_at;
      }
      | DeployMode.unset ↦ record d {
        id = id';
        mode = DeployMode.orchestrate;
        created_at = now;
        updated_at = now;
        status = pending;
      }
      | _ ↦ record d { id = id'; created_at = now; updated_at = now; status = pending }
    ]

-- `if err == nil && prev != nil { d.PreviousDeploymentID = &prev.ID }`
unfoldable pub link_previous : Option Deployment → Deployment → Deployment
link_previous none d = d
link_previous (some prev) d = record d { previous_deployment_id = some prev.id }

unfoldable pub created_subject : DeployMode → String
created_subject DeployMode.record_mode = "deployment.recorded"
created_subject _ = "deployment.created"

module _ (R : DeployRepo) where
  pub record World : Type 0 where
    pub db : R.Db
    pub published : List (String × ℕ)

  unfoldable pub publish_event : String → ℕ → R.Db → World → World
  publish_event subject i db' w = record {
    db = db';
    published = ("deployments." <> subject, i) ∷ w.published;
  }

  -- `s.repo.GetDeployment`, and the rest of the operation.
  abbrev pub with_deployment :
      World → ℕ → (Deployment → World × Option ServiceError) → World × Option ServiceError
  with_deployment w i rest = elim (R.get_deployment w.db i) [
    | none ↦ (w, some get_failed)
    | some d ↦ rest d
  ]

  -- `s.repo.UpdateDeployment`, and the message.
  unfoldable pub save : ℕ → String → World → Deployment → World × Option ServiceError
  unfolding publish_event
  save stored subject w d = elim (R.update_deployment stored w.db d) [
    | none ↦ (w, some update_failed)
    | some db' ↦ (publish_event subject d.id db' w, none)
  ]

  -- `d.TransitionTo`, and the rest of the operation.
  abbrev pub move : ℕ → ℕ → DeployStatus → String → World → Deployment → World × Option ServiceError
  move now stored target subject w d =
      let (d', error) = transition_to now d target in
      elim error [ some e ↦ (w, some (refused e)) | none ↦ save stored subject w d' ]

  unfoldable pub promote_deployment : ℕ → ℕ → ℕ → World → World × Option ServiceError
  unfolding save
  promote_deployment now stored i w = with_deployment w i λ d.
      elim (validate_transition d.status promoting) [
        | some e ↦ (w, some (refused e))
        | none ↦
            save stored "deployment.promoted" w
              (record d { status = promoting; traffic_percent = pos 100; updated_at = now })
      ]

  unfoldable pub rollback_deployment : ℕ → ℕ → ℕ → World → World × Option ServiceError
  unfolding save
  rollback_deployment now stored i w =
      with_deployment w i λ d. move now stored rolled_back "deployment.rolled_back" w d

  unfoldable pub pause_deployment : ℕ → ℕ → ℕ → World → World × Option ServiceError
  unfolding save
  pause_deployment now stored i w = with_deployment w i λ d.
      if d.status == running
      then move now stored paused "deployment.paused" w d
      else (w, some only_running)

  unfoldable pub resume_deployment : ℕ → ℕ → ℕ → World → World × Option ServiceError
  unfolding save
  resume_deployment now stored i w = with_deployment w i λ d.
      if d.status == paused
      then move now stored running "deployment.resumed" w d
      else (w, some only_paused)

  unfoldable pub cancel_deployment : ℕ → ℕ → ℕ → World → World × Option ServiceError
  unfolding save
  cancel_deployment now stored i w =
      with_deployment w i λ d. move now stored cancelled "deployment.cancelled" w d

  unfoldable pub set_traffic : ℕ → ℕ → ℕ → ℤ → World → World × Option ServiceError
  set_traffic now stored i percent w = with_deployment w i λ d.
      elim (R.update_deployment stored w.db
        (record d { traffic_percent = percent; updated_at = now })) [
          | none ↦ (w, some update_failed)
          | some db' ↦ (record w { db = db' }, none)
        ]

  unfoldable pub create_deployment : ℕ → ℕ → ℕ → Deployment → World → World × Option ServiceError
  unfolding prepare link_previous created_subject publish_event
  create_deployment now stored fresh given w =
      let d = prepare now fresh given in
      elim (validate d) [
        | some e ↦ (w, some (validation_failed e))
        | none ↦
            let d' = link_previous (R.latest_completed w.db d.application_id d.environment_id) d in
            elim (R.create_deployment stored w.db d') [
              | none ↦ (w, some create_failed)
              | some db' ↦ (publish_event (created_subject d'.mode) d'.id db' w, none)
            ]
      ]

  unfoldable pub serve : ℕ → ℕ → Request → World → World × Option ServiceError
  unfolding promote_deployment rollback_deployment pause_deployment resume_deployment
      cancel_deployment set_traffic create_deployment
  serve now stored (promote i) w = promote_deployment now stored i w
  serve now stored (rollback i) w = rollback_deployment now stored i w
  serve now stored (pause i) w = pause_deployment now stored i w
  serve now stored (resume i) w = resume_deployment now stored i w
  serve now stored (cancel i) w = cancel_deployment now stored i w
  serve now stored (set_traffic_percent i percent) w = set_traffic now stored i percent w
  serve now stored (create fresh d) w = create_deployment now stored fresh d w
