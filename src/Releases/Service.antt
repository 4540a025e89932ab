-- ===== src/Releases/Service.antt =====
-- internal/releases/service.go over an interface of its repository. The lists that the service only
-- passes on are left out; the clock and new identifiers are arguments.
use deploy_sentry.Base.{
  if◌then◌else◌, ◌==◌, nat_eq, string_eq, ℕ, String, ◌≡◌, ◌⊎◌, inl, inr, Bool, not, Option, none,
  some, List, [], ◌∷◌, ◌++◌,
}
use deploy_sentry.Base.Int.{ℤ}
use deploy_sentry.Releases.Model.{
  validate_flag_change, status_text, percent_in_range, validate_release, move_to, ReleaseFlagChange,
  ReleaseError, Release, ReleaseStatus,
}

-- What `INSERT` stores of a release: the repository sets the times of the row by its own clock, and
-- an identifier where there is none.
unfoldable pub created_row : ℕ → ℕ → Release → Release
created_row saved_at id r = record r { id = id; created_at = saved_at; updated_at = saved_at }

-- What `UPDATE` leaves of a row: the columns it lists, and the repository's clock.
unfoldable pub updated_row : ℕ → Release → Release → Release
updated_row saved_at r row = record row {
  name = r.name;
  description = r.description;
  session_sticky = r.session_sticky;
  sticky_header = r.sticky_header;
  traffic_percent = r.traffic_percent;
  status = r.status;
  created_by = r.created_by;
  started_at = r.started_at;
  completed_at = r.completed_at;
  updated_at = saved_at;
}

-- `none` for an error; the clock of a call that writes times is its first argument. The laws are
-- those of the statements in internal/platform/database/postgres/releases.go, each on one row by its
-- primary key: an update of a row that is not there is an error.
pub record ReleaseRepository (D : Type 0) : Type 0 where
  pub create : ℕ → D → Release → Option D
  pub get_by_id : D → ℕ → Option Release
  pub update : ℕ → D → Release → Option D
  pub delete : D → ℕ → Option D
  pub add_flag_change : D → ReleaseFlagChange → Option D
  pub create_lem :
      (saved_at : ℕ) (d after : D) (r : Release)
      → create saved_at d r ≡ some after
      → (id : ℕ) × (get_by_id d id ≡ none)
        × ((i : ℕ)
            → get_by_id after i
              ≡ (if id == i then some (created_row saved_at id r) else get_by_id d i))
  pub update_lem :
      (saved_at : ℕ) (d after : D) (r : Release)
      → update saved_at d r ≡ some after
      → (row : Release) × (get_by_id d r.id ≡ some row)
        × ((i : ℕ)
            → get_by_id after i
              ≡ (if r.id == i then some (updated_row saved_at r row) else get_by_id d i))
  pub delete_lem :
      (d after : D) (id i : ℕ)
      → delete d id ≡ some after
      → get_by_id after i ≡ (if id == i then none else get_by_id d i)
  pub add_lem :
      (d after : D) (c : ReleaseFlagChange) (i : ℕ)
      → add_flag_change d c ≡ some after
      → get_by_id after i ≡ get_by_id d i
  pub found_id : (d : D) (i : ℕ) (r : Release) → get_by_id d i ≡ some r → r.id ≡ i

pub record ReleaseEvent : Type 0 where
  pub subject : String
  pub release_id : ℕ
  pub application_id : ℕ
  pub name : String
  pub status : ReleaseStatus
  pub timestamp : ℕ

pub record Store (D : Type 0) : Type 0 where
  pub db : D
  pub events : List ReleaseEvent

pub data Request : Type 0 where
  creates : Release → ℕ → Request
  starts pauses rolls_back completes deletes : ℕ → Request
  promotes : ℕ → ℤ → Request
  adds : ReleaseFlagChange → ℕ → Request

-- What a transition writes besides the status.
unfoldable pub stamp_started : ℕ → Release → Release
stamp_started now r = record r { started_at = some now; updated_at = now }

unfoldable pub stamp_ended : ℕ → Release → Release
stamp_ended now r = record r { completed_at = some now; updated_at = now }

unfoldable pub stamp_only : ℕ → Release → Release
stamp_only now r = record r { updated_at = now }

unfoldable pub resumed : Release → ReleaseError ⊎ Release
resumed r = elim r.status [
  | ReleaseStatus.draft ↦ inl ReleaseError.not_promotable
  | ReleaseStatus.rolling_out ↦ inr r
  | ReleaseStatus.paused ↦ move_to r ReleaseStatus.rolling_out
  | ReleaseStatus.completed ↦ inl ReleaseError.not_promotable
  | ReleaseStatus.rolled_back ↦ inl ReleaseError.not_promotable
  | ReleaseStatus.other s ↦ inl ReleaseError.not_promotable
]

unfoldable pub is_draft : Release → Bool
is_draft r = status_text r.status == "draft"

module _ {D : Type 0} (repo : ReleaseRepository D) (now saved_at : ℕ) where
  -- An event is what a publisher is given, where the service has one; its answer is not looked at.
  unfoldable pub publish_event : Store D → D → String → Release → Store D
  publish_event w db subject r = record {
    db = db;
    events =
        w.events
        ++ (record {
          subject = subject;
          release_id = r.id;
          application_id = r.application_id;
          name = r.name;
          status = r.status;
          timestamp = now;
        }
            ∷ []);
  }

  unfoldable pub save : Store D → String → Release → ReleaseError ⊎ Store D
  save w subject r = elim (repo.update saved_at w.db r) [
    | none ↦ inl ReleaseError.repository
    | some db ↦ inr (publish_event w db subject r)
  ]

  -- `Start`, `Pause`, `Rollback` and `Complete`.
  unfoldable pub change :
      Store D → ℕ → ReleaseStatus → (ℕ → Release → Release) → String → ReleaseError ⊎ Store D
  change w id target stamp subject = elim (repo.get_by_id w.db id) [
    | none ↦ inl ReleaseError.repository
    | some r ↦ elim (move_to r target) [
      | inl error ↦ inl error
      | inr moved ↦ save w subject (stamp now moved)
    ]
  ]

  unfoldable pub prepared : Release → ℕ → Release
  prepared r new_id = record r {
    id = if r.id == 0 then new_id else r.id;
    status = ReleaseStatus.draft;
    created_at = now;
    updated_at = now;
  }

  unfoldable pub create_release : Store D → Release → ℕ → ReleaseError ⊎ Store D
  create_release w r new_id = elim (validate_release (prepared r new_id)) [
    | some error ↦ inl error
    | none ↦ elim (repo.create saved_at w.db (prepared r new_id)) [
      | none ↦ inl ReleaseError.repository
      | some db ↦ inr (publish_event w db "releases.release.created" (prepared r new_id))
    ]
  ]

  unfoldable pub promote : Store D → ℕ → ℤ → ReleaseError ⊎ Store D
  promote w id percent =
      if not (percent_in_range percent)
      then inl ReleaseError.percent_out_of_range
      else elim (repo.get_by_id w.db id) [
        | none ↦ inl ReleaseError.repository
        | some r ↦ elim (resumed r) [
          | inl error ↦ inl error
          | inr moved ↦
              save w "releases.release.promoted"
                (record moved { traffic_percent = percent; updated_at = now })
        ]
      ]

  unfoldable pub delete_release : Store D → ℕ → ReleaseError ⊎ Store D
  delete_release w id = elim (repo.get_by_id w.db id) [
    | none ↦ inl ReleaseError.repository
    | some r ↦ if not (is_draft r) then inl ReleaseError.not_draft else elim (repo.delete w.db id) [
      | none ↦ inl ReleaseError.repository
      | some db ↦ inr (record w { db = db })
    ]
  ]

  unfoldable pub add_flag_change : Store D → ReleaseFlagChange → ℕ → ReleaseError ⊎ Store D
  add_flag_change w c new_id =
      let filled : ReleaseFlagChange = record c {
        id = if c.id == 0 then new_id else c.id;
        created_at = now;
      } in
      elim (validate_flag_change filled) [
        | some error ↦ inl error
        | none ↦ elim (repo.add_flag_change w.db filled) [
          | none ↦ inl ReleaseError.repository
          | some db ↦ inr (record w { db = db })
        ]
      ]

  unfoldable pub serve : Store D → Request → ReleaseError ⊎ Store D
  serve w (creates r new_id) = create_release w r new_id
  serve w (starts id) =
      change w id ReleaseStatus.rolling_out stamp_started "releases.release.started"
  serve w (pauses id) = change w id ReleaseStatus.paused stamp_only "releases.release.paused"
  serve w (rolls_back id) =
      change w id ReleaseStatus.rolled_back stamp_ended "releases.release.rolled_back"
  serve w (completes id) =
      change w id ReleaseStatus.completed stamp_ended "releases.release.completed"
  serve w (deletes id) = delete_release w id
  serve w (promotes id percent) = promote w id percent
  serve w (adds c new_id) = add_flag_change w c new_id
