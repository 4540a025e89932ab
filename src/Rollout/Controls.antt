-- ===== src/Rollout/Controls.antt =====
-- internal/rollout/rollout_service.go: attaching a rollout, and the six controls. The repository is
-- an interface; what is inserted in the audit log and published is kept as lists, newest first, and
-- their errors are ignored as in the source.
pub mod Repository
pub mod Moves
pub mod Perform
pub mod Terminal
pub mod Memory
pub mod Unique
use deploy_sentry.Base.{
  ltb, leb, nat_beq, if◌then◌else◌, ltb→lt, lt→ltb, leb→le, nat_beq_iff, tests, Bool-cases,
  Option-cases, Eq, ◌==◌, nat_eq, string_eq, contains, is_some, length, length-append, drop,
  length-drop, all, any, All, ℕ, zero, suc, ◌+◌, ◌-◌, ◌*◌, ◌/◌, ◌%◌, ◌^◌, ◌≤◌, ◌<◌, String, ◌≡◌,
  refl, sym, ap, subst, ◌∙◌, ◌≢◌, ◌↔◌, ◌⊎◌, inl, inr, Bool, true, false, not, ◌&&◌, ◌||◌, Option,
  none, some, List, [], ◌∷◌, ◌++◌, map, arith, eq_iff,
}
use deploy_sentry.Base.Int.{
  ℤ, pos, negsuc, pos_part, neg_part, sub_ℕ, ◌≤ℤ◌, ◌<ℤ◌, ltb_ℤ, leb_ℤ, sub_time,
}
use deploy_sentry.Rollout.Floats.{Floats}
use deploy_sentry.Rollout.Strategy.{Strategy, Step, TargetType}
use deploy_sentry.Rollout.Model.{
  Rollout, RolloutStatus, EventType, RolloutTargetRef, is_active, is_paused, is_awaiting_approval,
}
use deploy_sentry.Rollout.Controls.Repository.{RolloutRepo, Lookup}

pub data ControlError : Type 0 where
  reason_required get_failed update_failed create_failed revert_failed : ControlError
  already_active_on_target strategy_moves_backward : ControlError
  invalid_state_for_op : RolloutStatus → ControlError

-- The arguments of `emit`; the payload is empty in all of its calls here.
pub record RolloutEvent : Type 0 where
  pub rollout_id : ℕ
  pub event_type : EventType
  pub actor_type : String
  pub actor_id : Option ℕ
  pub reason : Option String

pub data Op : Type 0 where
  pause resume promote force_promote approve rollback : Op

-- The `ActorType` of `emit`.
abbrev pub actor_type_of : Option ℕ → String
actor_type_of none = "system"
actor_type_of (some actor) = "user"

-- `fmt.Sprintf("rollouts.rollout.%s", evt)`
abbrev pub event_subject : EventType → String
event_subject EventType.attached = "rollouts.rollout.attached"
event_subject EventType.phase_entered = "rollouts.rollout.phase_entered"
event_subject EventType.phase_exited = "rollouts.rollout.phase_exited"
event_subject EventType.paused = "rollouts.rollout.paused"
event_subject EventType.resumed = "rollouts.rollout.resumed"
event_subject EventType.promoted = "rollouts.rollout.promoted"
event_subject EventType.force_promoted = "rollouts.rollout.force_promoted"
event_subject EventType.approved = "rollouts.rollout.approved"
event_subject EventType.abort_condition_tripped = "rollouts.rollout.abort_condition_tripped"
event_subject EventType.rollback_triggered = "rollouts.rollout.rollback_triggered"
event_subject EventType.completed = "rollouts.rollout.completed"
event_subject EventType.superseded = "rollouts.rollout.superseded"

-- A rollout as it is attached: to a deployment, or to a targeting rule with its percentage.
unfoldable pub pending_rollout :
    {F : Type 0} → TargetType → RolloutTargetRef → Strategy F → Option ℕ → Option ℕ → Rollout F
pending_rollout target ref snapshot release_id created_by = record {
  id = 0;
  release_id = release_id;
  target_type = target;
  target_ref = ref;
  strategy_snapshot = snapshot;
  signal_source = record { kind = "app_env" };
  status = RolloutStatus.pending;
  current_phase_index = 0;
  current_phase_started_at = none;
  last_healthy_since = none;
  rollback_reason = none;
  created_by = created_by;
  created_at = 0;
  completed_at = none;
}

unfoldable pub deploy_ref : String → RolloutTargetRef
deploy_ref ref = record {
  deployment_id = some ref;
  flag_key = none;
  env = none;
  rule_id = none;
  previous_percentage = none;
}

unfoldable pub rule_ref : String → ℤ → RolloutTargetRef
rule_ref ref previous = record {
  deployment_id = none;
  flag_key = none;
  env = none;
  rule_id = some ref;
  previous_percentage = some previous;
}

module _ (fl : Floats) (R : RolloutRepo fl.F) where
  open fl use {F, lt, of_int}

  pub record World : Type 0 where
    pub db : R.Db
    pub events : List RolloutEvent
    pub published : List (String × ℕ)
    pub reverted : List (Rollout F)

  abbrev pub Answer : Type 0
  Answer = Option ControlError × World

  -- `emit` and `publishRolloutSubject`, after a change of the store.
  unfoldable pub announce : R.Db → String → RolloutEvent → World → World
  announce db subject event w = record w {
    db = db;
    events = event ∷ w.events;
    published = (subject, event.rollout_id) ∷ w.published;
  }

  unfoldable pub transition :
      ℕ → ℕ → String → EventType → RolloutStatus → (RolloutStatus → Bool) → Bool → World → Answer
  unfolding announce
  transition id actor reason event target allow with_reason w =
      let kept : Option String = if with_reason || not (reason == "") then some reason else none in
      elim (R.get w.db id) [
        | none ↦ (some get_failed, w)
        | some ro ↦
            if not (allow ro.status)
            then (some (invalid_state_for_op ro.status), w)
            else elim (R.update_status w.db id target kept) [
              | none ↦ (some update_failed, w)
              | some db ↦ (
                none,
                announce db (event_subject event)
                    (record {
                      rollout_id = id;
                      event_type = event;
                      actor_type = actor_type_of (some actor);
                      actor_id = some actor;
                      reason = kept;
                    })
                    w,
              )
            ]
      ]

  -- The revert of the target, after a rollback; without an applicator there is none.
  unfoldable pub revert : Option (Rollout F → Bool) → Rollout F → Answer → Answer
  revert applicator ro (some e, w) = (some e, w)
  revert none ro (none, w) = (none, w)
  revert (some succeeds) ro (none, w) =
      (if succeeds ro then none else some revert_failed, record w { reverted = ro ∷ w.reverted })

  -- The six controls.
  unfoldable pub perform : Option (Rollout F → Bool) → Op → ℕ → ℕ → String → World → Answer
  unfolding transition revert
  perform applicator pause id actor reason w =
      transition id actor reason EventType.paused RolloutStatus.paused is_active false w
  perform applicator resume id actor reason w =
      transition id actor reason EventType.resumed RolloutStatus.active is_paused false w
  perform applicator promote id actor reason w =
      transition id actor reason EventType.promoted RolloutStatus.active
        (λ cur. is_active cur || is_paused cur) false w
  perform applicator force_promote id actor reason w =
      if reason == ""
      then (some reason_required, w)
      else transition id actor reason EventType.force_promoted RolloutStatus.active
          (λ cur. is_active cur || is_paused cur || is_awaiting_approval cur) false w
  perform applicator approve id actor reason w =
      transition id actor reason EventType.approved RolloutStatus.active is_awaiting_approval false
        w
  perform applicator rollback id actor reason w =
      if reason == "" then (some reason_required, w) else elim (R.get w.db id) [
        | none ↦ (some get_failed, w)
        | some ro ↦ revert applicator ro (
            transition id actor reason EventType.rollback_triggered RolloutStatus.rolled_back
              (λ cur. is_active cur || is_paused cur || is_awaiting_approval cur) true w)
      ]

  -- The rollout that is returned, and the store.
  abbrev pub Attached : Type 0
  Attached = Option ControlError × (Option (Rollout F) × World)

  -- `s.rollouts.Create` and the announcement, with the clock that the repository reads.
  unfoldable pub attach : ℕ → Rollout F → World → Attached
  unfolding announce
  attach stored ro w = elim (R.create stored w.db ro) [
    | none ↦ (some create_failed, (none, w))
    | some (created, db) ↦ (
      none,
      (
        some created,
        announce db "rollouts.rollout.created"
            (record {
              rollout_id = created.id;
              event_type = EventType.attached;
              actor_type = actor_type_of ro.created_by;
              actor_id = ro.created_by;
              reason = none;
            })
            w,
      ),
    )
  ]

  -- `existing, _ :=` of a look-up: its error is dropped, so a look-up that fails counts as no rollout.
  unfoldable pub existing_of : Lookup F → Option (Rollout F)
  existing_of Lookup.unanswered = none
  existing_of Lookup.no_row = none
  existing_of (Lookup.found ro) = some ro

  -- `ref` is the text of the deployment's identifier.
  unfoldable pub attach_deploy : ℕ → String → Strategy F → Option ℕ → Option ℕ → World → Attached
  unfolding attach pending_rollout deploy_ref existing_of
  attach_deploy stored ref snapshot release_id created_by w =
      elim (existing_of (R.active_by_deployment w.db ref)) [
        | some existing ↦ (some already_active_on_target, (some existing, w))
        | none ↦
            attach stored
              (pending_rollout TargetType.deploy (deploy_ref ref) snapshot release_id created_by) w
      ]

  unfoldable pub moves_backward : Strategy F → ℤ → Bool
  moves_backward snapshot previous = elim snapshot.steps [
    | [] ↦ false
    | step ∷ steps ↦ lt step.percent (of_int previous)
  ]

  unfoldable pub attach_config :
      ℕ → String → ℤ → Strategy F → Option ℕ → Option ℕ → World → Attached
  unfolding attach pending_rollout rule_ref moves_backward existing_of
  attach_config stored ref previous snapshot release_id created_by w =
      elim (existing_of (R.active_by_rule w.db ref)) [
        | some existing ↦ (some already_active_on_target, (some existing, w))
        | none ↦
            if moves_backward snapshot previous
            then (some strategy_moves_backward, (none, w))
            else attach stored
                (pending_rollout TargetType.config (rule_ref ref previous) snapshot release_id
                  created_by)
                w
      ]
