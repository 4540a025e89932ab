-- ===== src/Deployment/Graph.antt =====
-- internal/models/deployment.go: the diagram that `validTransitions` draws, as a relation, and
-- `TransitionTo` against it.
use deploy_sentry.Base.{
  is_some, some, not, ◌&&◌, [], ◌∷◌, ◌==◌, if◌then◌else◌, contains, Option, nat_eq, string_eq, ℕ,
  ◌≡◌, refl, ◌≢◌, ◌↔◌, true, none, arith,
}
use deploy_sentry.Deployment.Status.{
  status_eq, status_beq, DeployStatus, pending, running, paused, promoting, completed, failed,
  rolled_back, cancelled,
}
use deploy_sentry.Deployment.{stamp, Deployment, validate_transition, transition_to, is_terminal}

infix 40 ◌⟶◌
pub data ◌⟶◌ : DeployStatus → DeployStatus → Type 0 where
  start : pending ⟶ running
  withdraw : pending ⟶ cancelled
  pause : running ⟶ paused
  promote : running ⟶ promoting
  finish : running ⟶ completed
  crash : running ⟶ failed
  revert : running ⟶ rolled_back
  stop : running ⟶ cancelled
  resume : paused ⟶ running
  revert_paused : paused ⟶ rolled_back
  stop_paused : paused ⟶ cancelled
  finish_promotion : promoting ⟶ completed
  crash_promotion : promoting ⟶ failed
  revert_promotion : promoting ⟶ rolled_back

ruleset edges = (
  start, withdraw, pause, promote, finish, crash, revert, stop, resume, revert_paused, stop_paused,
  finish_promotion, crash_promotion, revert_promotion,
)

pub accepted-⟶ : (s t : DeployStatus) → validate_transition s t ≡ none → s ⟶ t
unfolding validate_transition
accepted-⟶ pending t h = grind (arith, edges)
accepted-⟶ s t h = grind (arith, edges)

pub ⟶-accepted : {s t : DeployStatus} → s ⟶ t → validate_transition s t ≡ none
unfolding validate_transition
⟶-accepted start = refl
⟶-accepted withdraw = refl
⟶-accepted pause = refl
⟶-accepted promote = refl
⟶-accepted finish = refl
⟶-accepted crash = refl
⟶-accepted revert = refl
⟶-accepted stop = refl
⟶-accepted resume = refl
⟶-accepted revert_paused = refl
⟶-accepted stop_paused = refl
⟶-accepted finish_promotion = refl
⟶-accepted crash_promotion = refl
⟶-accepted revert_promotion = refl

-- The start time after a transition to `t`: the first start is kept.
abbrev pub start_after : ℕ → DeployStatus → Option ℕ → Option ℕ
start_after now t started = if (t == running) && not (is_some started) then some now else started

-- The completion time after a transition to `t`.
abbrev pub completion_after : ℕ → DeployStatus → Option ℕ → Option ℕ
completion_after now t completion =
    if contains (completed ∷ failed ∷ rolled_back ∷ cancelled ∷ []) t then some now else completion

-- The deployment that an accepted transition leaves.
abbrev pub moved_to : ℕ → Deployment → DeployStatus → Deployment
moved_to now d t = record d {
  status = t;
  updated_at = now;
  started_at = start_after now t d.started_at;
  completed_at = completion_after now t d.completed_at;
}

transition_to-moved_to :
    (now : ℕ) (d : Deployment) (t : DeployStatus)
    → (transition_to now d t).1 ≡ none
    → (transition_to now d t).0 ≡ moved_to now d t
unfolding transition_to stamp contains status_beq
transition_to-moved_to now d t h = ground arith

-- `TransitionTo` succeeds exactly on an edge of the diagram. Then the deployment is the one it was,
-- but for the status, which is the target, the time of the update, which is now, the start time,
-- which is now if the target is running and it had none, and the completion time, which is now if
-- the target is completed, failed, rolled back or cancelled. Otherwise the deployment is unchanged.
pub transition_to_iff :
    (now : ℕ) (d : Deployment) (t : DeployStatus)
    → (((transition_to now d t).1 ≡ none) ↔ (d.status ⟶ t))
      × ((transition_to now d t).1 ≡ none → (transition_to now d t).0 ≡ moved_to now d t)
      × ((transition_to now d t).1 ≢ none → (transition_to now d t).0 ≡ d)
unfolding transition_to
transition_to_iff now d t = (
  (λ h. accepted-⟶ d.status t (ground arith), λ e. ground (arith, ⟶-accepted e)),
  transition_to-moved_to now d t,
  λ h. ground arith,
)

-- A terminal deployment refuses every transition.
pub terminal_absorbs :
    (now : ℕ) (d : Deployment) (t : DeployStatus)
    → is_terminal d ≡ true
    → (transition_to now d t).0 ≡ d
unfolding transition_to validate_transition is_terminal
terminal_absorbs now d t h = ground arith
