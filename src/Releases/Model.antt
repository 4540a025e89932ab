-- ===== src/Releases/Model.antt =====
-- internal/models/release.go and release_flag_change.go.
use deploy_sentry.Base.{
  if◌then◌else◌, ◌==◌, nat_eq, string_eq, ℕ, String, ◌⊎◌, inl, inr, Bool, false, not, ◌&&◌, ◌||◌,
  Option, none, some, List, [], ◌∷◌,
}
use deploy_sentry.Base.Int.{ℤ, pos, ltb_ℤ}

-- A status read from the database may be any text.
pub data ReleaseStatus : Type 0 where
  draft rolling_out paused completed rolled_back : ReleaseStatus
  other : String → ReleaseStatus

unfoldable pub status_text : ReleaseStatus → String
status_text draft = "draft"
status_text rolling_out = "rolling_out"
status_text paused = "paused"
status_text completed = "completed"
status_text rolled_back = "rolled_back"
status_text (other s) = s

-- `releaseTransitions`, with `none` for a status without a row.
unfoldable pub release_transitions : ReleaseStatus → Option (List ReleaseStatus)
release_transitions draft = some (ReleaseStatus.rolling_out ∷ [])
release_transitions rolling_out =
    some (ReleaseStatus.paused ∷ ReleaseStatus.completed ∷ ReleaseStatus.rolled_back ∷ [])
release_transitions paused = some (ReleaseStatus.rolling_out ∷ ReleaseStatus.rolled_back ∷ [])
release_transitions completed = none
release_transitions rolled_back = none
release_transitions (other s) = none

pub record Release : Type 0 where
  pub id : ℕ
  pub application_id : ℕ
  pub name : String
  pub description : String
  pub session_sticky : Bool
  pub sticky_header : String
  pub traffic_percent : ℤ
  pub status : ReleaseStatus
  pub created_by : Option ℕ
  pub started_at : Option ℕ
  pub completed_at : Option ℕ
  pub created_at : ℕ
  pub updated_at : ℕ

-- Values are JSON documents.
pub record ReleaseFlagChange : Type 0 where
  pub id : ℕ
  pub release_id : ℕ
  pub flag_id : ℕ
  pub environment_id : ℕ
  pub previous_value : Option String
  pub new_value : Option String
  pub previous_enabled : Option Bool
  pub new_enabled : Option Bool
  pub applied_at : Option ℕ
  pub created_at : ℕ

pub data ReleaseError : Type 0 where
  application_required name_required sticky_header_required percent_out_of_range : ReleaseError
  release_required flag_required environment_required : ReleaseError
  terminal_status invalid_transition not_promotable not_draft : ReleaseError
  repository : ReleaseError

unfoldable pub percent_in_range : ℤ → Bool
percent_in_range p = not (ltb_ℤ p (pos 0)) && not (ltb_ℤ (pos 100) p)

unfoldable pub validate_release : Release → Option ReleaseError
validate_release r =
    if r.application_id == 0
    then some ReleaseError.application_required
    else if r.name == ""
    then some ReleaseError.name_required
    else if r.session_sticky && r.sticky_header == ""
    then some ReleaseError.sticky_header_required
    else if not (percent_in_range r.traffic_percent)
    then some ReleaseError.percent_out_of_range
    else none

unfoldable pub validate_flag_change : ReleaseFlagChange → Option ReleaseError
validate_flag_change c =
    if c.release_id == 0
    then some ReleaseError.release_required
    else if c.flag_id == 0
    then some ReleaseError.flag_required
    else if c.environment_id == 0
    then some ReleaseError.environment_required
    else none

-- `s == newStatus` compares texts.
unfoldable pub is_listed : List ReleaseStatus → ReleaseStatus → Bool
unfolding status_text
is_listed [] target = false
is_listed (s ∷ allowed) target = status_text s == status_text target || is_listed allowed target

unfoldable pub move_to : Release → ReleaseStatus → ReleaseError ⊎ Release
move_to r target = elim (release_transitions r.status) [
  | none ↦ inl ReleaseError.terminal_status
  | some allowed ↦
      if is_listed allowed target
      then inr (record r { status = target })
      else inl ReleaseError.invalid_transition
]
