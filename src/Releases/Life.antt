-- ===== src/Releases/Life.antt =====
-- internal/releases/service.go: what holds of every stored release.
pub mod Requests
use deploy_sentry.Base.{
  ◌==◌, ◌∙◌, ap, ◌⊎◌, inl, nat_eq, string_eq, is_some, ℕ, String, ◌≡◌, refl, sym, subst, inr, Bool,
  true, false, ◌&&◌, Option, none, some, arith,
}
use deploy_sentry.Releases.Model.{
  rolled_back, completed, paused, rolling_out, draft, other, status_text, ReleaseError, is_listed,
  release_transitions, ReleaseStatus, move_to, percent_in_range, Release, validate_release,
}
use deploy_sentry.Releases.Service.{
  is_draft, prepared, promote, stamp_ended, stamp_only, stamp_started, resumed, change, Store,
  publish_event, save, ReleaseRepository, created_row, updated_row,
}
use deploy_sentry.Base.Int.{ℤ}

-- The percentage is in range; a release that left the draft has a start time, and one that ended also
-- an end time.
unfoldable pub good : Release → Bool
good r = percent_in_range r.traffic_percent && (elim r.status [
  | ReleaseStatus.draft ↦ true
  | ReleaseStatus.rolling_out ↦ is_some r.started_at
  | ReleaseStatus.paused ↦ is_some r.started_at
  | ReleaseStatus.completed ↦ is_some r.started_at && is_some r.completed_at
  | ReleaseStatus.rolled_back ↦ is_some r.started_at && is_some r.completed_at
  | ReleaseStatus.other s ↦ false
])

unfoldable pub ended_status : ReleaseStatus → Bool
ended_status draft = false
ended_status rolling_out = false
ended_status paused = false
ended_status completed = true
ended_status rolled_back = true
ended_status (other s) = false

unfoldable pub ended : Release → Bool
unfolding ended_status
ended r = ended_status r.status

pub good-validate_release :
    (r : Release) → validate_release r ≡ none → percent_in_range r.traffic_percent ≡ true
unfolding validate_release
good-validate_release r valid = ground arith

-- The columns that the repository keeps or sets do not matter.
good-updated_row : (saved_at : ℕ) (r row : Release) → good (updated_row saved_at r row) ≡ good r
unfolding good updated_row
good-updated_row saved_at r row = refl

pub good-created_row : (saved_at id : ℕ) (r : Release) → good (created_row saved_at id r) ≡ good r
unfolding good created_row
good-created_row saved_at id r = refl

module _ {D : Type 0} (repo : ReleaseRepository D) (now saved_at : ℕ) where
  -- Good releases stay good, and those that have ended stay as they are.
  pub record Kept (d after : D) : Type 0 where
    pub stays_good :
        (i : ℕ)
        → ((r : Release) → repo.get_by_id d i ≡ some r → good r ≡ true)
        → (r : Release) → repo.get_by_id after i ≡ some r
        → good r ≡ true
    pub stays_ended :
        (i : ℕ) (r : Release)
        → repo.get_by_id d i ≡ some r
        → ended r ≡ true
        → repo.get_by_id after i ≡ some r

  -- An update that starts from a stored release that has not ended, to a good one.
  pub save-Kept :
      (w : Store D) (subject : String) (r : Release) (old : Release) (after : Store D)
      → repo.get_by_id w.db r.id ≡ some old
      → ended old ≡ false
      → (good old ≡ true → good r ≡ true)
      → save repo now saved_at w subject r ≡ inr after
      → Kept w.db after.db
  unfolding save publish_event
  save-Kept w subject r old after stored still_open better done =
      by_update (repo.update saved_at w.db r) refl
    where
      impossible : repo.update saved_at w.db r ≡ none → ⊥
      impossible eq = ground arith

      by_update : (found : Option D) → repo.update saved_at w.db r ≡ found → Kept w.db after.db
      by_update none eq = elim (impossible eq) [ ]
      by_update (some db) eq =
          let same : after.db ≡ db = ground arith in
          let (row, was, rows) = repo.update_lem saved_at w.db db r eq in
          subst (Kept w.db) (sym same) (record {
            stays_good = λ i all_good x found. ground (
              arith,
              rows i,
              nat_eq.equal_iff r.id i,
              all_good x,
              all_good old,
              good-updated_row saved_at r row,
            );
            stays_ended = λ i x found is_ended. ground (arith, rows i, nat_eq.equal_iff r.id i);
          })

  -- The moves of an open release lead to good ones.
  moved_lem :
      (r : Release) (target : ReleaseStatus) (moved : Release)
      → move_to r target ≡ inr moved
      → (ended r ≡ false) × (moved ≡ record r { status = target })
  unfolding move_to release_transitions ended
  moved_lem r target moved done = ground arith

  pub change-Kept :
      (w : Store D) (id : ℕ) (target : ReleaseStatus) (stamp : ℕ → Release → Release)
      (subject : String) (after : Store D)
      → ((r moved : Release)
          → move_to r target ≡ inr moved
          → ((stamp now moved).id ≡ r.id) × (good r ≡ true → good (stamp now moved) ≡ true))
      → change repo now saved_at w id target stamp subject ≡ inr after
      → Kept w.db after.db
  unfolding change
  change-Kept w id target stamp subject after better done = by_found (repo.get_by_id w.db id) refl
    where
      missing : repo.get_by_id w.db id ≡ none → ⊥
      missing eq = ground arith

      refused :
          (r : Release) (error : ReleaseError)
          → repo.get_by_id w.db id ≡ some r
          → move_to r target ≡ inl error
          → ⊥
      refused r error eq eq' = ground arith

      by_move :
          (r : Release) (answer : ReleaseError ⊎ Release)
          → repo.get_by_id w.db id ≡ some r
          → move_to r target ≡ answer
          → Kept w.db after.db
      by_move r (inl error) eq eq' = elim (refused r error eq eq') [ ]
      by_move r (inr moved) eq eq' =
          let (same_id, still_good) = better r moved eq' in
          save-Kept w subject (stamp now moved) r after
            (ap (λ i. repo.get_by_id w.db i) (same_id ∙ repo.found_id w.db id r eq) ∙ eq)
            (moved_lem r target moved eq').0 still_good (ground arith)

      by_found : (found : Option Release) → repo.get_by_id w.db id ≡ found → Kept w.db after.db
      by_found none eq = elim (missing eq) [ ]
      by_found (some r) eq = by_move r (move_to r target) eq refl

  pub start_better :
      (r moved : Release)
      → move_to r ReleaseStatus.rolling_out ≡ inr moved
      → ((stamp_started now moved).id ≡ r.id)
        × (good r ≡ true → good (stamp_started now moved) ≡ true)
  unfolding move_to release_transitions is_listed status_text stamp_started good
  start_better r moved done = ground arith

  pub pause_better :
      (r moved : Release)
      → move_to r ReleaseStatus.paused ≡ inr moved
      → ((stamp_only now moved).id ≡ r.id) × (good r ≡ true → good (stamp_only now moved) ≡ true)
  unfolding move_to release_transitions is_listed status_text stamp_only good
  pause_better r moved done = ground arith

  pub rollback_better :
      (r moved : Release)
      → move_to r ReleaseStatus.rolled_back ≡ inr moved
      → ((stamp_ended now moved).id ≡ r.id) × (good r ≡ true → good (stamp_ended now moved) ≡ true)
  unfolding move_to release_transitions is_listed status_text stamp_ended good
  rollback_better r moved done = ground arith

  pub complete_better :
      (r moved : Release)
      → move_to r ReleaseStatus.completed ≡ inr moved
      → ((stamp_ended now moved).id ≡ r.id) × (good r ≡ true → good (stamp_ended now moved) ≡ true)
  unfolding move_to release_transitions is_listed status_text stamp_ended good
  complete_better r moved done = ground arith

  resumed_better :
      (r moved : Release) (percent : ℤ)
      → resumed r ≡ inr moved
      → percent_in_range percent ≡ true
      → (moved.id ≡ r.id)
        × (ended r ≡ false)
        × (good r ≡ true
            → good (record moved { traffic_percent = percent; updated_at = now }) ≡ true)
  unfolding resumed move_to release_transitions is_listed status_text good ended
  resumed_better r moved percent done in_range = ground arith

  pub promote-Kept :
      (w : Store D) (id : ℕ) (percent : ℤ) (after : Store D)
      → promote repo now saved_at w id percent ≡ inr after
      → Kept w.db after.db
  unfolding promote
  promote-Kept w id percent after done = by_test (percent_in_range percent) refl
    where
      out_of_range : percent_in_range percent ≡ false → ⊥
      out_of_range eq = ground arith

      missing : percent_in_range percent ≡ true → repo.get_by_id w.db id ≡ none → ⊥
      missing eq eq' = ground arith

      refused :
          (r : Release) (error : ReleaseError)
          → percent_in_range percent ≡ true
          → repo.get_by_id w.db id ≡ some r
          → resumed r ≡ inl error
          → ⊥
      refused r error eq eq' eq2 = ground arith

      by_move :
          (r : Release) (answer : ReleaseError ⊎ Release)
          → percent_in_range percent ≡ true
          → repo.get_by_id w.db id ≡ some r
          → resumed r ≡ answer
          → Kept w.db after.db
      by_move r (inl error) eq eq' eq2 = elim (refused r error eq eq' eq2) [ ]
      by_move r (inr moved) eq eq' eq2 =
          let (same_id, still_open, still_good) = resumed_better r moved percent eq2 eq in
          let put : Release = record moved { traffic_percent = percent; updated_at = now } in
          save-Kept w "releases.release.promoted" put r after
            (ap (λ i. repo.get_by_id w.db i) (same_id ∙ repo.found_id w.db id r eq') ∙ eq')
            still_open still_good (ground arith)

      by_found :
          (found : Option Release)
          → percent_in_range percent ≡ true
          → repo.get_by_id w.db id ≡ found
          → Kept w.db after.db
      by_found none eq eq' = elim (missing eq eq') [ ]
      by_found (some r) eq eq' = by_move r (resumed r) eq eq' refl

      by_test : (b : Bool) → percent_in_range percent ≡ b → Kept w.db after.db
      by_test false eq = elim (out_of_range eq) [ ]
      by_test true eq = by_found (repo.get_by_id w.db id) eq refl

  pub good-prepared :
      (r : Release) (new_id : ℕ)
      → validate_release (prepared repo now saved_at r new_id) ≡ none
      → good (prepared repo now saved_at r new_id) ≡ true
  unfolding prepared good
  good-prepared r new_id valid =
      ground (arith, good-validate_release (prepared repo now saved_at r new_id) valid)

open_status : (s : ReleaseStatus) → (status_text s == "draft") ≡ true → ended_status s ≡ false
unfolding status_text ended_status
open_status draft drafted = refl
open_status rolling_out drafted = refl
open_status paused drafted = refl
open_status completed drafted = ground arith
open_status rolled_back drafted = ground arith
open_status (other s) drafted = refl

pub draft_open : (r : Release) → is_draft r ≡ true → ended r ≡ false
unfolding is_draft ended
draft_open r drafted = open_status r.status drafted
