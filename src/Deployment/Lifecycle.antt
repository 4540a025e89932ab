-- ===== src/Deployment/Lifecycle.antt =====
-- internal/models/deployment.go: what holds of a deployment through any number of calls of
-- `TransitionTo`, refused ones included.
use deploy_sentry.Base.{
  nat_eq, string_eq, is_some, ℕ, ◌≤◌, ◌≡◌, refl, Bool, true, false, Option, none, some, List, [],
  ◌∷◌, arith,
}
use deploy_sentry.Deployment.Status.{
  rolled_back, promoting, paused, DeployStatus, pending, cancelled,
}
use deploy_sentry.Deployment.{
  failed, running, completed, is_terminal_status, Deployment, validate_transition, transition_to,
  is_terminal,
}
use deploy_sentry.Deployment.Graph.{terminal_absorbs}

-- The statuses that a deployment can only have once it has run.
abbrev pub begun : DeployStatus → Bool
begun pending = false
begun cancelled = false
begun (DeployStatus.other s) = false
begun _ = true

abbrev pub is_known : DeployStatus → Bool
is_known (DeployStatus.other s) = false
is_known _ = true

abbrev pub Before : Option ℕ → ℕ → Type 0
Before none t = Unit
Before (some s) t = s ≤ t

pub record Inv (d : Deployment) : Type 0 where
  pub known : is_known d.status ≡ true
  pub completed_iff : is_some d.completed_at ≡ is_terminal d
  pub begun_started : begun d.status ≡ true → is_some d.started_at ≡ true
  pub created_first : d.created_at ≤ d.updated_at
  pub started_order : Before d.started_at d.updated_at
  pub completed_order : Before d.completed_at d.updated_at

-- Each attempt is an instant and the status asked for.
unfoldable pub attempt_all : Deployment → List (ℕ × DeployStatus) → Deployment
attempt_all d [] = d
attempt_all d ((now, target) ∷ rest) = attempt_all (transition_to now d target).0 rest

-- The clock does not run backwards.
abbrev pub Later : ℕ → List (ℕ × DeployStatus) → Type 0
Later t [] = Unit
Later t ((now, target) ∷ rest) = (t ≤ now) × Later now rest

pub transition_to-Inv :
    (now : ℕ) (d : Deployment) (t : DeployStatus)
    → Inv d
    → d.updated_at ≤ now
    → Inv (transition_to now d t).0
unfolding transition_to validate_transition is_terminal
transition_to-Inv now d t v h = ground arith

transition_to_updated :
    (now : ℕ) (d : Deployment) (t : DeployStatus)
    → d.updated_at ≤ now
    → (transition_to now d t).0.updated_at ≤ now
unfolding transition_to
transition_to_updated now d t h = ground arith

Later-mono : (t u : ℕ) (rest : List (ℕ × DeployStatus)) → t ≤ u → Later u rest → Later t rest
Later-mono t u [] h l = tt
Later-mono t u ((now, target) ∷ more) h l = (omega arith, l.1)

-- Through any attempts at any times of a clock that does not run backwards: the completion time is
-- set exactly in a terminal status, a deployment that has begun has its start time, and the times
-- are ordered.
pub attempt_all-Inv :
    (d : Deployment) (attempts : List (ℕ × DeployStatus))
    → Inv d
    → Later d.updated_at attempts
    → Inv (attempt_all d attempts)
unfolding attempt_all
attempt_all-Inv d [] v l = v
attempt_all-Inv d ((now, t) ∷ rest) v l =
    attempt_all-Inv (transition_to now d t).0 rest (transition_to-Inv now d t v l.0)
      (Later-mono _ now rest (transition_to_updated now d t l.0) l.1)

started_kept_step :
    (now : ℕ) (d : Deployment) (t : DeployStatus) (u : ℕ)
    → d.started_at ≡ some u
    → (transition_to now d t).0.started_at ≡ some u
unfolding transition_to
started_kept_step now d t u h = ground arith

-- The first start time is never overwritten, whatever is attempted afterwards (a pause and a resume
-- included).
pub attempt_all_keeps_start :
    (d : Deployment) (attempts : List (ℕ × DeployStatus)) (u : ℕ)
    → d.started_at ≡ some u
    → (attempt_all d attempts).started_at ≡ some u
unfolding attempt_all
attempt_all_keeps_start d [] u h = h
attempt_all_keeps_start d ((now, t) ∷ rest) u h =
    attempt_all_keeps_start (transition_to now d t).0 rest u (started_kept_step now d t u h)

-- A deployment in a terminal status is left exactly as it is by every later attempt.
pub attempt_all_terminal :
    (d : Deployment) (attempts : List (ℕ × DeployStatus))
    → is_terminal d ≡ true
    → attempt_all d attempts ≡ d
unfolding attempt_all
attempt_all_terminal d [] h = refl
attempt_all_terminal d ((now, t) ∷ rest) h =
    rw (terminal_absorbs now d t h) (attempt_all_terminal d rest h)

-- Every one of these transitions, one after the other, is accepted.
abbrev pub Accepted : Deployment → List (ℕ × DeployStatus) → Type 0
Accepted d [] = Unit
Accepted d ((now, t) ∷ rest) =
    ((transition_to now d t).1 ≡ none) × Accepted (transition_to now d t).0 rest

ends_now :
    (now : ℕ) (d : Deployment) (s t : DeployStatus)
    → d.status ≡ s
    → validate_transition s t ≡ none
    → is_terminal_status t ≡ true
    → ((transition_to now d t).1 ≡ none) × (is_terminal (transition_to now d t).0 ≡ true)
unfolding transition_to is_terminal
ends_now now d s t e ok last = ground arith

-- From every status that the program declares and that is not terminal, `TransitionTo` accepts a
-- transition to a terminal status, at any time, and accepts transitions that complete the deployment.
pub terminal_reachable :
    (now : ℕ) (d : Deployment)
    → is_known d.status ≡ true
    → is_terminal d ≡ false
    → ((t : DeployStatus) × ((transition_to now d t).1 ≡ none)
        × (is_terminal (transition_to now d t).0 ≡ true))
      × ((attempts : List (ℕ × DeployStatus)) × Accepted d attempts
          × ((attempt_all d attempts).status ≡ completed))
unfolding is_terminal is_terminal_status validate_transition transition_to attempt_all
terminal_reachable now d known open_yet = by_status d.status refl
  where
    by_status :
        (s : DeployStatus)
        → d.status ≡ s
        → ((t : DeployStatus) × ((transition_to now d t).1 ≡ none)
            × (is_terminal (transition_to now d t).0 ≡ true))
          × ((attempts : List (ℕ × DeployStatus)) × Accepted d attempts
              × ((attempt_all d attempts).status ≡ completed))
    by_status pending e = (
      (
        cancelled,
        (ends_now now d pending cancelled e refl refl).0,
        (ends_now now d pending cancelled e refl refl).1,
      ),
      ((now, running) ∷ (now, completed) ∷ [], (ground arith, (ground arith, tt)), ground arith),
    )
    by_status running e = (
      (
        failed,
        (ends_now now d running failed e refl refl).0,
        (ends_now now d running failed e refl refl).1,
      ),
      ((now, completed) ∷ [], (ground arith, tt), ground arith),
    )
    by_status paused e = (
      (
        cancelled,
        (ends_now now d paused cancelled e refl refl).0,
        (ends_now now d paused cancelled e refl refl).1,
      ),
      ((now, running) ∷ (now, completed) ∷ [], (ground arith, (ground arith, tt)), ground arith),
    )
    by_status promoting e = (
      (
        failed,
        (ends_now now d promoting failed e refl refl).0,
        (ends_now now d promoting failed e refl refl).1,
      ),
      ((now, completed) ∷ [], (ground arith, tt), ground arith),
    )
    by_status completed e = ground arith
    by_status failed e = ground arith
    by_status rolled_back e = ground arith
    by_status cancelled e = ground arith
    by_status (DeployStatus.other u) e = ground arith
