-- ===== src/Deployment/Status.antt =====
-- internal/models/deployment.go: the three kinds of string constants and the transition table.
-- A Go string type has values beside its constants: `other` holds any such text.
use deploy_sentry.Base.{
  Eq, ◌==◌, nat_eq, string_eq, String, ◌≡◌, ◌↔◌, Bool, true, false, Option, none, some, List, [],
  ◌∷◌, arith, eq_iff,
}

pub data DeployStatus : Type 0 where
  pending running paused promoting completed failed rolled_back cancelled : DeployStatus
  other : String → DeployStatus

pub data DeployStrategyType : Type 0 where
  canary blue_green rolling : DeployStrategyType
  other : String → DeployStrategyType

-- `unset` is the empty string.
pub data DeployMode : Type 0 where
  unset orchestrate record_mode : DeployMode
  other : String → DeployMode

unfoldable pub status_beq : DeployStatus → DeployStatus → Bool
status_beq pending pending = true
status_beq running running = true
status_beq paused paused = true
status_beq promoting promoting = true
status_beq completed completed = true
status_beq failed failed = true
status_beq rolled_back rolled_back = true
status_beq cancelled cancelled = true
status_beq (DeployStatus.other s) (DeployStatus.other t) = s == t
status_beq _ _ = false

pub status_beq_iff : (a b : DeployStatus) → (status_beq a b ≡ true) ↔ (a ≡ b)
unfolding status_beq
status_beq_iff (DeployStatus.other s) (DeployStatus.other t) = ground (arith, eq_iff s t)
status_beq_iff _ _ = ground arith

instance abbrev pub status_eq : Eq DeployStatus
status_eq = record { equal = status_beq; equal_iff = status_beq_iff }

-- `validTransitions`: `none` is a missing key.
unfoldable pub valid_transitions : DeployStatus → Option (List DeployStatus)
valid_transitions pending = some (running ∷ cancelled ∷ [])
valid_transitions running =
    some (paused ∷ promoting ∷ completed ∷ failed ∷ rolled_back ∷ cancelled ∷ [])
valid_transitions paused = some (running ∷ rolled_back ∷ cancelled ∷ [])
valid_transitions promoting = some (completed ∷ failed ∷ rolled_back ∷ [])
valid_transitions completed = some []
valid_transitions failed = some []
valid_transitions rolled_back = some []
valid_transitions cancelled = some []
valid_transitions (DeployStatus.other s) = none
