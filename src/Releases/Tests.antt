-- ===== src/Releases/Tests.antt =====
-- internal/releases on a repository in memory.
use deploy_sentry.Base.{
  if◌then◌else◌, ◌==◌, nat_eq, string_eq, is_some, ℕ, ◌≡◌, refl, ap, ◌∙◌, ◌⊎◌, true, false, Option,
  none, some, List, [], ◌∷◌, arith,
}
use deploy_sentry.Base.Int.{pos}
use deploy_sentry.Releases.Service.{
  stamp_ended, is_draft, delete_release, resumed, promote, stamp_only, stamp_started, save,
  created_row, updated_row, publish_event, prepared, create_release, change, serve, Store,
  ReleaseRepository, Request,
}
use deploy_sentry.Releases.Model.{
  status_text, is_listed, release_transitions, move_to, percent_in_range, validate_release,
  ReleaseStatus, Release,
}
use deploy_sentry.Releases.Life.Requests.{serve_all-good, attempt, serve_all}
use deploy_sentry.Releases.Life.{ended, good}

unfoldable stored : List Release → ℕ → Option Release
stored [] i = none
stored (r ∷ rows) i = if r.id == i then some r else stored rows i

unfoldable without : List Release → ℕ → List Release
without [] i = []
without (r ∷ rows) i = if r.id == i then without rows i else r ∷ without rows i

stored-without :
    (rows : List Release) (i j : ℕ)
    → stored (without rows i) j ≡ (if i == j then none else stored rows j)
unfolding stored without
stored-without [] i j = ground arith
stored-without (r ∷ rows) i j = ground (
  arith,
  stored-without rows i j,
  nat_eq.equal_iff r.id i,
  nat_eq.equal_iff r.id j,
  nat_eq.equal_iff i j,
)

stored_id : (rows : List Release) (i : ℕ) (r : Release) → stored rows i ≡ some r → r.id ≡ i
unfolding stored
stored_id [] i r found = ground arith
stored_id (x ∷ rows) i r found = ground (arith, stored_id rows i r, nat_eq.equal_iff x.id i)

stored-same :
    (d after : List Release) (r : Release) (i : ℕ)
    → some (r ∷ d) ≡ some after
    → stored after i ≡ (if r.id == i then some r else stored d i)
unfolding stored
stored-same d after r i done = let same : after ≡ r ∷ d = ground arith in ap (λ l. stored l i) same

stored-created :
    (saved_at : ℕ) (d after : List Release) (r : Release)
    → (if is_some (stored d r.id) then none else some (created_row saved_at r.id r ∷ d))
      ≡ some after
    → (id : ℕ) × (stored d id ≡ none)
      × ((i : ℕ)
          → stored after i ≡ (if id == i then some (created_row saved_at id r) else stored d i))
unfolding created_row
stored-created saved_at d after r done = (
  r.id,
  by_row (stored d r.id) refl,
  λ i. stored-same d after (created_row saved_at r.id r) i (ground arith),
)
  where
    by_row : (found : Option Release) → stored d r.id ≡ found → stored d r.id ≡ none
    by_row none eq = eq
    by_row (some x) eq = ground arith

unfoldable update : ℕ → List Release → Release → Option (List Release)
update saved_at d r = elim (stored d r.id) [
  | none ↦ none
  | some row ↦ some (updated_row saved_at r row ∷ d)
]

stored-updated :
    (saved_at : ℕ) (d after : List Release) (r : Release)
    → update saved_at d r ≡ some after
    → (row : Release) × (stored d r.id ≡ some row)
      × ((i : ℕ)
          → stored after i ≡ (if r.id == i then some (updated_row saved_at r row) else stored d i))
unfolding update updated_row
stored-updated saved_at d after r done = by_row (stored d r.id) refl
  where
    by_row :
        (found : Option Release)
        → stored d r.id ≡ found
        → (row : Release) × (stored d r.id ≡ some row)
          × ((i : ℕ)
              → stored after i
                ≡ (if r.id == i then some (updated_row saved_at r row) else stored d i))
    by_row none eq = ground arith
    by_row (some row) eq = (
      row,
      eq,
      λ i.
          let same_id : row.id ≡ r.id = stored_id d r.id row eq in
          stored-same d after (updated_row saved_at r row) i (ground arith)
          ∙ ap (λ k. if k == i then some (updated_row saved_at r row) else stored d i) same_id,
    )

stored-deleted :
    (d after : List Release) (id i : ℕ)
    → some (without d id) ≡ some after
    → stored after i ≡ (if id == i then none else stored d i)
stored-deleted d after id i done =
    let same : after ≡ without d id = ground arith in
    ap (λ l. stored l i) same ∙ stored-without d id i

stored-kept : (d after : List Release) (i : ℕ) → some d ≡ some after → stored after i ≡ stored d i
stored-kept d after i done = let same : after ≡ d = ground arith in ap (λ l. stored l i) same

abbrev memory : ReleaseRepository (List Release)
memory = record {
  create = λ t d r. if is_some (stored d r.id) then none else some (created_row t r.id r ∷ d);
  get_by_id = stored;
  update = update;
  delete = λ d id. some (without d id);
  add_flag_change = λ d c. some d;
  create_lem = stored-created;
  update_lem = stored-updated;
  delete_lem = stored-deleted;
  add_lem = λ d after c i done. stored-kept d after i done;
  found_id = stored_id;
}

abbrev spring : Release
spring = record {
  id = 3;
  application_id = 1;
  name = "spring";
  description = "";
  session_sticky = false;
  sticky_header = "";
  traffic_percent = pos 10;
  status = ReleaseStatus.draft;
  created_by = none;
  started_at = none;
  completed_at = none;
  created_at = 0;
  updated_at = 0;
}

abbrev whole_life : List (ℕ × ℕ × Request)
whole_life =
    (1, 2, Request.creates spring 9)
    ∷ (3, 4, Request.starts 3)
    ∷ (5, 6, Request.promotes 3 (pos 50))
    ∷ (7, 8, Request.completes 3)
    ∷ []

abbrev no_releases : Store (List Release)
no_releases = record { db = []; events = [] }

abbrev spring_after : Release
spring_after = record spring {
  traffic_percent = pos 50;
  status = ReleaseStatus.completed;
  started_at = some 3;
  completed_at = some 7;
  created_at = 2;
  updated_at = 8;
}

serve_all-good_example :
    (good spring_after ≡ true)
    × ((ended spring_after ≡ false)
        ⊎ (stored
              (serve_all memory
                (serve_all memory no_releases whole_life)
                ((9, 9, Request.promotes 3 (pos 60)) ∷ (10, 11, Request.deletes 3) ∷ [])).db
              3
            ≡ some spring_after))
unfolding stored update created_row updated_row serve_all attempt serve change promote
    percent_in_range create_release validate_release prepared publish_event move_to
    release_transitions is_listed save stamp_started resumed status_text delete_release is_draft
    stamp_ended stamp_only
serve_all-good_example =
    serve_all-good memory no_releases whole_life
      ((9, 9, Request.promotes 3 (pos 60)) ∷ (10, 11, Request.deletes 3) ∷ []) 3 spring_after
      (λ j. refl) refl

-- A paused release can be started, which overwrites its start time.
restarted :
    stored
      (serve_all memory no_releases (
        (1, 2, Request.creates spring 9)
        ∷ (3, 4, Request.starts 3)
        ∷ (5, 5, Request.pauses 3)
        ∷ (7, 8, Request.starts 3)
        ∷ [])).db
      3
    ≡ some (record spring {
      status = ReleaseStatus.rolling_out;
      started_at = some 7;
      created_at = 2;
      updated_at = 8;
    })
unfolding stored update created_row updated_row serve_all attempt serve change create_release
    validate_release prepared percent_in_range publish_event move_to release_transitions is_listed
    save stamp_started stamp_only
restarted = refl
