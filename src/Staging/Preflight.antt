-- ===== src/Staging/Preflight.antt =====
-- internal/staging/preflight.go: the plan of a batch. A Go set is a list.
use deploy_sentry.Base.{
  if◌then◌else◌, ◌==◌, nat_eq, string_eq, contains, is_some, ℕ, String, ◌⊎◌, inl, inr, Bool, false,
  Option, none, some, List, [], ◌∷◌, ◌++◌,
}
use deploy_sentry.Staging.Json.{
  no_field, no_item, null, field, Fields, item, Items, object, array, string, number, bool, Json,
  Texts,
}
use deploy_sentry.Staging.Provisional.{is_provisional}
use deploy_sentry.Staging.Model.{StagedChange}

pub record BatchPlan : Type 0 where
  pub ordered : List StagedChange
  pub known_provs : List ℕ

pub data PlanError : Type 0 where
  unreadable : ℕ → PlanError
  unresolved : ℕ → ℕ → PlanError

module _ (tx : Texts) where
  unfoldable mutual
    pub walk_provisionals : Json → List ℕ
    walk_provisionals null = []
    walk_provisionals (bool b) = []
    walk_provisionals (number n) = []
    walk_provisionals (string t) = elim (tx.parse t) [
      | none ↦ []
      | some u ↦ if is_provisional u then u ∷ [] else []
    ]
    walk_provisionals (array items) = walk_items_provisionals items
    walk_provisionals (object fields) = walk_fields_provisionals fields

    pub walk_items_provisionals : Items → List ℕ
    walk_items_provisionals no_item = []
    walk_items_provisionals (item x items) = walk_provisionals x ++ walk_items_provisionals items

    pub walk_fields_provisionals : Fields → List ℕ
    walk_fields_provisionals no_field = []
    walk_fields_provisionals (field k x fields) =
        walk_provisionals x ++ walk_fields_provisionals fields

  unfoldable pub collect_json : String → Option (List ℕ)
  collect_json raw =
      if raw == ""
      then some []
      else elim (tx.unmarshal raw) [ none ↦ none | some v ↦ some (walk_provisionals v) ]

  unfoldable pub collect_id : Option ℕ → List ℕ
  collect_id none = []
  collect_id (some id) = if is_provisional id then id ∷ [] else []

  -- `none` for an error.
  unfoldable pub collect_provisionals : StagedChange → Option (List ℕ)
  collect_provisionals row = elim (collect_json row.new_value) [
    | none ↦ none
    | some new_ones ↦ elim (collect_json row.old_value) [
      | none ↦ none
      | some old_ones ↦ some (collect_id row.resource_id ++ (new_ones ++ old_ones))
    ]
  ]

  unfoldable pub known_of : List StagedChange → List ℕ
  known_of [] = []
  known_of (r ∷ rows) =
      let rest : List ℕ = known_of rows in elim r.provisional_id [ none ↦ rest | some p ↦ p ∷ rest ]

  unfoldable pub creates_of : List StagedChange → List StagedChange
  creates_of [] = []
  creates_of (r ∷ rows) =
      let rest : List StagedChange = creates_of rows in
      if is_some r.provisional_id then r ∷ rest else rest

  unfoldable pub mutations_of : List StagedChange → List StagedChange
  mutations_of [] = []
  mutations_of (r ∷ rows) =
      let rest : List StagedChange = mutations_of rows in
      if is_some r.provisional_id then rest else r ∷ rest

  unfoldable pub is_own : StagedChange → ℕ → Bool
  is_own r ref = elim r.provisional_id [ none ↦ false | some p ↦ p == ref ]

  -- The loop over the references of a row.
  unfoldable pub check_refs : List ℕ → StagedChange → List ℕ → Option PlanError
  check_refs known r [] = none
  check_refs known r (ref ∷ refs) =
      let rest : Option PlanError = check_refs known r refs in
      if is_own r ref
      then rest
      else if contains known ref
      then rest
      else some (PlanError.unresolved r.id ref)

  unfoldable pub check_rows : List ℕ → List StagedChange → Option PlanError
  check_rows known [] = none
  check_rows known (r ∷ rows) =
      let rest : Option PlanError = check_rows known rows in
      elim (collect_provisionals r) [
        | none ↦ some (PlanError.unreadable r.id)
        | some refs ↦ elim (check_refs known r refs) [ none ↦ rest | some error ↦ some error ]
      ]

  unfoldable pub plan_batch : List StagedChange → PlanError ⊎ BatchPlan
  plan_batch rows =
      let known : List ℕ = known_of rows in
      elim (check_rows known rows) [
        | some error ↦ inl error
        | none ↦
            inr (record { ordered = creates_of rows ++ mutations_of rows; known_provs = known })
      ]
