-- ===== src/Rollout/Controls/Moves.antt =====
-- internal/rollout/rollout_service.go: what a control does to the store.
use deploy_sentry.Base.{
  if◌then◌else◌, Bool-cases, Option-cases, ◌==◌, nat_eq, string_eq, ℕ, String, ◌≡◌, sym, ◌∙◌, ◌≢◌,
  ◌⊎◌, inl, inr, Bool, true, false, not, ◌||◌, Option, none, some, ◌∷◌, arith, eq_iff,
}
use deploy_sentry.Rollout.Floats.{Floats}
use deploy_sentry.Rollout.Model.{Rollout, RolloutStatus, EventType}
use deploy_sentry.Rollout.Controls.Repository.{RolloutRepo}
use deploy_sentry.Rollout.Controls.{
  ControlError, RolloutEvent, World, Answer, transition, announce, Op, pause, resume, promote,
  force_promote, approve, rollback,
}

-- From which statuses a control is allowed, where it leads, and what it records.
abbrev pub allowed : Op → RolloutStatus → Bool
allowed pause RolloutStatus.active = true
allowed resume RolloutStatus.paused = true
allowed promote RolloutStatus.active = true
allowed promote RolloutStatus.paused = true
allowed force_promote RolloutStatus.active = true
allowed force_promote RolloutStatus.paused = true
allowed force_promote RolloutStatus.awaiting_approval = true
allowed approve RolloutStatus.awaiting_approval = true
allowed rollback RolloutStatus.active = true
allowed rollback RolloutStatus.paused = true
allowed rollback RolloutStatus.awaiting_approval = true
allowed _ _ = false

abbrev pub target_of : Op → RolloutStatus
target_of pause = RolloutStatus.paused
target_of rollback = RolloutStatus.rolled_back
target_of _ = RolloutStatus.active

abbrev pub event_of : Op → EventType
event_of pause = EventType.paused
event_of resume = EventType.resumed
event_of promote = EventType.promoted
event_of force_promote = EventType.force_promoted
event_of approve = EventType.approved
event_of rollback = EventType.rollback_triggered

-- A rollback and a forced promotion need a reason.
abbrev pub NeedsReason : Op → String → Type 0
NeedsReason rollback reason = reason ≢ ""
NeedsReason force_promote reason = reason ≢ ""
NeedsReason _ reason = Unit

abbrev pub reason_of : String → Option String
reason_of reason = if not (reason == "") then some reason else none

module _ (fl : Floats) (R : RolloutRepo fl.F) where
  open fl use {F}

  abbrev pub Refuses : World fl R → Answer fl R → Type 0
  Refuses w a = (e : ControlError) × (a ≡ (some e, w))

  abbrev pub event : ℕ → ℕ → EventType → Option String → RolloutEvent
  event id actor kind kept = record {
    rollout_id = id;
    event_type = kind;
    actor_type = "user";
    actor_id = some actor;
    reason = kept;
  }

  -- The row is read and allowed, its status is written, and one event is recorded.
  abbrev pub Shifts :
      (RolloutStatus → Bool)
      → ℕ
      → ℕ
      → EventType
      → RolloutStatus
      → Option String
      → World fl R
      → World fl R
      → Type 0
  Shifts allow id actor kind target kept w w' =
      (ro : Rollout F) × (R.get w.db id ≡ some ro)
      × (allow ro.status ≡ true)
      × (R.update_status w.db id target kept ≡ some w'.db)
      × (w'.events ≡ event id actor kind kept ∷ w.events)

  pub transition_lem :
      (id actor : ℕ) (reason : String) (kind : EventType) (target : RolloutStatus)
      (allow : RolloutStatus → Bool) (with_reason : Bool) (w : World fl R)
      → let kept : Option String =
          if with_reason || not (reason == "") then some reason else none in
        let a = transition fl R id actor reason kind target allow with_reason w in
        Refuses w a ⊎ ((a.0 ≡ none) × Shifts allow id actor kind target kept w a.1)
  unfolding transition announce
  transition_lem id actor reason kind target allow with_reason w =
      let kept : Option String = if with_reason || not (reason == "") then some reason else none in
      elim (Option-cases (R.get w.db id)) [
        | inl e ↦ inl (ControlError.get_failed, ground (arith, e))
        | inr (ro, e) ↦ elim (Bool-cases (allow ro.status)) [
          | inr f ↦ inl (ControlError.invalid_state_for_op ro.status, ground (arith, e, f))
          | inl t ↦ elim (Option-cases (R.update_status w.db id target kept)) [
            | inl n ↦ inl (ControlError.update_failed, ground (arith, e, t, n))
            | inr (db, u) ↦ inr (
              ground (arith, e, t, u),
              (ro, e, t, ground (arith, e, t, u), ground (arith, e, t, u)),
            )
          ]
        ]
      ]

  -- What the event records: the reason, if there is one.
  abbrev pub Moves : Op → ℕ → ℕ → String → World fl R → World fl R → Type 0
  Moves op id actor reason =
      Shifts (allowed op) id actor (event_of op) (target_of op) (reason_of reason)

  pub reason_given : (reason : String) → reason ≢ "" → (reason == "") ≡ false
  reason_given reason n = ground (arith, eq_iff reason "")

  Shifts-allowed :
      (f g : RolloutStatus → Bool) (id actor : ℕ) (kind : EventType) (target : RolloutStatus)
      (kept : Option String) (w w' : World fl R)
      → ((st : RolloutStatus) → f st ≡ g st)
      → Shifts f id actor kind target kept w w'
      → Shifts g id actor kind target kept w w'
  Shifts-allowed f g id actor kind target kept w w' h (ro, got, ok, written, logged) =
      (ro, got, sym (h ro.status) ∙ ok, written, logged)

  pub allowed_lem :
      (op : Op) (f : RolloutStatus → Bool) (actor id : ℕ) (reason : String) (w : World fl R)
      → ((st : RolloutStatus) → f st ≡ allowed op st)
      → let a = transition fl R id actor reason (event_of op) (target_of op) f false w in
        Refuses w a ⊎ ((a.0 ≡ none) × Moves op id actor reason w a.1)
  allowed_lem op f actor id reason w h =
      elim (transition_lem id actor reason (event_of op) (target_of op) f false w) [
        | inl r ↦ inl r
        | inr (e, s) ↦ inr (
          e,
          Shifts-allowed f (allowed op) id actor (event_of op) (target_of op) (reason_of reason) w
              (transition fl R id actor reason (event_of op) (target_of op) f false w).1 h s,
        )
      ]
