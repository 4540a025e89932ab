-- ===== src/Staging/Resolver.antt =====
-- internal/staging/resolver.go: provisional identifiers are replaced by real ones.
use deploy_sentry.Base.{
  if◌then◌else◌, ◌==◌, nat_eq, string_eq, ℕ, String, not, Option, none, some, List,
}
use deploy_sentry.Base.Dict.{find, put}
use deploy_sentry.Staging.Json.{
  no_field, no_item, null, field, Fields, item, Items, object, array, string, number, bool, Json,
  Texts,
}
use deploy_sentry.Staging.Provisional.{is_provisional}
use deploy_sentry.Staging.Model.{StagedChange}

abbrev pub Resolver : Type 0
Resolver = List (ℕ × ℕ)

-- `none` for the two panics.
unfoldable pub bind : Resolver → ℕ → ℕ → Option Resolver
bind m provisional real =
    if not (is_provisional provisional)
    then none
    else if is_provisional real
    then none
    else some (put m provisional real)

module _ (tx : Texts) (m : Resolver) where
  unfoldable pub walk_string : String → String
  walk_string t = elim (tx.parse t) [
    | none ↦ t
    | some u ↦ elim (find m u) [ none ↦ t | some real ↦ tx.print real ]
  ]

  unfoldable mutual
    pub walk : Json → Json
    walk null = Json.null
    walk (bool b) = Json.bool b
    walk (number n) = Json.number n
    walk (string t) = Json.string (walk_string t)
    walk (array items) = Json.array (walk_items items)
    walk (object fields) = Json.object (walk_fields fields)

    pub walk_items : Items → Items
    walk_items no_item = Items.no_item
    walk_items (item x items) = Items.item (walk x) (walk_items items)

    pub walk_fields : Fields → Fields
    walk_fields no_field = Fields.no_field
    walk_fields (field k x fields) = Fields.field k (walk x) (walk_fields fields)

  unfoldable pub rewrite_uuids_in_json : String → Option String
  rewrite_uuids_in_json raw =
      if raw == ""
      then some raw
      else elim (tx.unmarshal raw) [ none ↦ none | some v ↦ tx.marshal (walk v) ]

  unfoldable pub rewrite_id : Option ℕ → Option ℕ
  rewrite_id none = none
  rewrite_id (some id) =
      if is_provisional id
      then elim (find m id) [ none ↦ some id | some real ↦ some real ]
      else some id

  -- `none` for an error.
  unfoldable pub rewrite_row : StagedChange → Option StagedChange
  rewrite_row row = elim (rewrite_uuids_in_json row.new_value) [
    | none ↦ none
    | some new_value ↦ elim (rewrite_uuids_in_json row.old_value) [
      | none ↦ none
      | some old_value ↦ some (record row {
        resource_id = rewrite_id row.resource_id;
        new_value = new_value;
        old_value = old_value;
      })
    ]
  ]
