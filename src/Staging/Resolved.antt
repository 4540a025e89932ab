-- ===== src/Staging/Resolved.antt =====
-- internal/staging: what the preflight accepts, the resolver resolves.
use deploy_sentry.Base.{
  ◌==◌, nat_eq, string_eq, is_some, all, ℕ, String, ◌≡◌, refl, sym, ap, subst, ◌∙◌, Bool, true,
  false, ◌&&◌, Option, none, some, List, [], ◌∷◌, ◌++◌, arith,
}
use deploy_sentry.Base.Dict.{find, find-put}
use deploy_sentry.Staging.Resolver.{
  rewrite_row, rewrite_id, rewrite_uuids_in_json, walk_fields, walk_items, walk, walk_string,
  Resolver, bind,
}
use deploy_sentry.Staging.Json.{
  no_field, no_item, null, field, Fields, item, Items, object, array, string, number, bool, Json,
  Texts,
}
use deploy_sentry.Staging.Preflight.{
  collect_provisionals, collect_id, collect_json, walk_fields_provisionals, walk_items_provisionals,
  walk_provisionals,
}
use deploy_sentry.Staging.Provisional.{is_provisional}
use deploy_sentry.Staging.Model.{StagedChange}

all-append :
    {A : Type 0} (p : A → Bool) (xs ys : List A) → all p (xs ++ ys) ≡ (all p xs && all p ys)
all-append p [] ys = refl
all-append p (x ∷ xs) ys = ground (arith, all-append p xs ys)

append-empty : {A : Type 0} (xs ys : List A) → xs ≡ [] → ys ≡ [] → (xs ++ ys) ≡ []
append-empty xs ys left right = ap (λ l. l ++ ys) left ∙ right

-- What the resolver's `Bind` keeps: it binds to real identifiers only.
pub BindsReal : Resolver → Type 0
BindsReal m = (u real : ℕ) → find m u ≡ some real → is_provisional real ≡ false

pub new_resolver-BindsReal : BindsReal []
unfolding BindsReal find
new_resolver-BindsReal u real found = ground arith

pub bind-BindsReal :
    (m : Resolver) (provisional real : ℕ) (after : Resolver)
    → BindsReal m
    → bind m provisional real ≡ some after
    → BindsReal after
unfolding BindsReal bind
bind-BindsReal m provisional real after binds bound u r found =
    ground (arith, find-put m provisional u real, binds u r)

both : {a b : Bool} → (a && b) ≡ true → (a ≡ true) × (b ≡ true)
both h = ground arith

unfoldable pub bound_in : Resolver → ℕ → Bool
bound_in m u = is_some (find m u)

module _ (tx : Texts) (m : Resolver) where
  -- `uuid.Parse` reads what `String` printed.
  abbrev pub Reads : Type 0
  Reads = (u : ℕ) → tx.parse (tx.print u) ≡ some u

  walk_string-resolved :
      (t : String)
      → Reads
      → BindsReal m
      → all (bound_in m) (walk_provisionals tx (Json.string t)) ≡ true
      → walk_provisionals tx (Json.string (walk_string tx m t)) ≡ []
  unfolding walk_provisionals walk_string bound_in BindsReal
  walk_string-resolved t reads binds bound = by_parse (tx.parse t) refl
    where
      by_real :
          (u : ℕ) (found : Option ℕ)
          → tx.parse t ≡ some u
          → find m u ≡ found
          → walk_provisionals tx (Json.string (walk_string tx m t)) ≡ []
      by_real u none eq eq' = ground arith
      by_real u (some real) eq eq' = ground (arith, reads real, binds u real eq')

      by_parse :
          (parsed : Option ℕ)
          → tx.parse t ≡ parsed
          → walk_provisionals tx (Json.string (walk_string tx m t)) ≡ []
      by_parse none eq = ground arith
      by_parse (some u) eq = by_real u (find m u) eq refl

  mutual
    unfolding walk_provisionals walk

    walk-resolved :
        (v : Json)
        → Reads
        → BindsReal m
        → all (bound_in m) (walk_provisionals tx v) ≡ true
        → walk_provisionals tx (walk tx m v) ≡ []
    walk-resolved null reads binds bound = refl
    walk-resolved (bool b) reads binds bound = refl
    walk-resolved (number n) reads binds bound = refl
    walk-resolved (string t) reads binds bound = walk_string-resolved t reads binds bound
    walk-resolved (array items) reads binds bound = walk_items-resolved items reads binds bound
    walk-resolved (object fields) reads binds bound = walk_fields-resolved fields reads binds bound

    walk_items-resolved :
        (items : Items)
        → Reads
        → BindsReal m
        → all (bound_in m) (walk_items_provisionals tx items) ≡ true
        → walk_items_provisionals tx (walk_items tx m items) ≡ []
    walk_items-resolved no_item reads binds bound = refl
    walk_items-resolved (item x items) reads binds bound =
        let parts =
          all-append (bound_in m) (walk_provisionals tx x) (walk_items_provisionals tx items) in
        append-empty (walk_provisionals tx (walk tx m x))
          (walk_items_provisionals tx (walk_items tx m items))
          (walk-resolved x reads binds (both (sym parts ∙ bound)).0)
          (walk_items-resolved items reads binds (both (sym parts ∙ bound)).1)

    walk_fields-resolved :
        (fields : Fields)
        → Reads
        → BindsReal m
        → all (bound_in m) (walk_fields_provisionals tx fields) ≡ true
        → walk_fields_provisionals tx (walk_fields tx m fields) ≡ []
    walk_fields-resolved no_field reads binds bound = refl
    walk_fields-resolved (field k x fields) reads binds bound =
        let parts =
          all-append (bound_in m) (walk_provisionals tx x) (walk_fields_provisionals tx fields) in
        append-empty (walk_provisionals tx (walk tx m x))
          (walk_fields_provisionals tx (walk_fields tx m fields))
          (walk-resolved x reads binds (both (sym parts ∙ bound)).0)
          (walk_fields-resolved fields reads binds (both (sym parts ∙ bound)).1)

  -- `json.Marshal` and `json.Unmarshal` are inverse on what was read, and no document is empty.
  abbrev pub PrintsBack : Type 0
  PrintsBack =
      (v : Json) (raw : String)
      → tx.marshal v ≡ some raw
      → (tx.unmarshal raw ≡ some v) × ((raw == "") ≡ false)

  collect_json-resolved :
      (raw after : String) (refs : List ℕ)
      → Reads
      → PrintsBack
      → BindsReal m
      → collect_json tx raw ≡ some refs
      → all (bound_in m) refs ≡ true
      → rewrite_uuids_in_json tx m raw ≡ some after
      → collect_json tx after ≡ some []
  unfolding collect_json rewrite_uuids_in_json
  collect_json-resolved raw after refs reads prints binds collected bound rewritten =
      by_test (raw == "") refl
    where
      by_value :
          (v : Json)
          → (raw == "") ≡ false
          → tx.unmarshal raw ≡ some v
          → collect_json tx after ≡ some []
      by_value v full eq =
          let same : walk_provisionals tx v ≡ refs = ground arith in
          let printed : tx.marshal (walk tx m v) ≡ some after = ground arith in
          let clean =
            walk-resolved v reads binds (subst (λ l. all (bound_in m) l ≡ true) (sym same) bound) in
          ground (arith, prints (walk tx m v) after printed, clean)

      by_read :
          (read : Option Json)
          → (raw == "") ≡ false
          → tx.unmarshal raw ≡ read
          → collect_json tx after ≡ some []
      by_read none full eq = ground arith
      by_read (some v) full eq = by_value v full eq

      by_test : (b : Bool) → (raw == "") ≡ b → collect_json tx after ≡ some []
      by_test true eq = ground arith
      by_test false eq = by_read (tx.unmarshal raw) eq refl

  rewrite_id-resolved :
      (id : Option ℕ)
      → BindsReal m
      → all (bound_in m) (collect_id tx id) ≡ true
      → collect_id tx (rewrite_id tx m id) ≡ []
  unfolding collect_id rewrite_id bound_in BindsReal
  rewrite_id-resolved none binds bound = refl
  rewrite_id-resolved (some id) binds bound = by_found (find m id) refl
    where
      by_found :
          (found : Option ℕ) → find m id ≡ found → collect_id tx (rewrite_id tx m (some id)) ≡ []
      by_found none eq = ground arith
      by_found (some real) eq = ground (arith, binds id real eq)

  collect_provisionals-parts :
      (row : StagedChange) (refs : List ℕ)
      → collect_provisionals tx row ≡ some refs
      → (new_ones old_ones : List ℕ) × (collect_json tx row.new_value ≡ some new_ones)
        × (collect_json tx row.old_value ≡ some old_ones)
        × ((collect_id tx row.resource_id ++ (new_ones ++ old_ones)) ≡ refs)
  unfolding collect_provisionals
  collect_provisionals-parts row refs collected =
      by_parts (collect_json tx row.new_value) (collect_json tx row.old_value) refl refl
    where
      impossible_new : collect_json tx row.new_value ≡ none → ⊥
      impossible_new eq = ground arith

      impossible_old :
          (ns : List ℕ)
          → collect_json tx row.new_value ≡ some ns
          → collect_json tx row.old_value ≡ none
          → ⊥
      impossible_old ns eq eq' = ground arith

      by_parts :
          (n o : Option (List ℕ))
          → collect_json tx row.new_value ≡ n
          → collect_json tx row.old_value ≡ o
          → (new_ones old_ones : List ℕ) × (collect_json tx row.new_value ≡ some new_ones)
            × (collect_json tx row.old_value ≡ some old_ones)
            × ((collect_id tx row.resource_id ++ (new_ones ++ old_ones)) ≡ refs)
      by_parts none o eq eq' = elim (impossible_new eq) [ ]
      by_parts (some ns) none eq eq' = elim (impossible_old ns eq eq') [ ]
      by_parts (some ns) (some os) eq eq' = (ns, os, eq, eq', ground arith)

  rewrite_row-parts :
      (row after : StagedChange)
      → rewrite_row tx m row ≡ some after
      → (rewrite_uuids_in_json tx m row.new_value ≡ some after.new_value)
        × (rewrite_uuids_in_json tx m row.old_value ≡ some after.old_value)
        × (rewrite_id tx m row.resource_id ≡ after.resource_id)
  unfolding rewrite_row
  rewrite_row-parts row after rewritten = ground arith

  -- A rewritten row has no provisional identifier left when all that it had are bound.
  pub rewrite_row-resolved :
      (row after : StagedChange) (refs : List ℕ)
      → Reads
      → PrintsBack
      → BindsReal m
      → collect_provisionals tx row ≡ some refs
      → all (bound_in m) refs ≡ true
      → rewrite_row tx m row ≡ some after
      → collect_provisionals tx after ≡ some []
  unfolding collect_provisionals rewrite_row
  rewrite_row-resolved row after refs reads prints binds collected bound rewritten =
      let (ns, os, new_is, old_is, parts) = collect_provisionals-parts row refs collected in
      let (new_after, old_after, id_after) = rewrite_row-parts row after rewritten in
      let bound_parts = both (
        sym (all-append (bound_in m) (collect_id tx row.resource_id) (ns ++ os))
        ∙ ap (all (bound_in m)) parts
        ∙ bound) in
      let bound_values = both (sym (all-append (bound_in m) ns os) ∙ bound_parts.1) in
      let clean_id : collect_id tx after.resource_id ≡ [] =
        subst (λ i. collect_id tx i ≡ []) id_after
          (rewrite_id-resolved row.resource_id binds bound_parts.0) in
      let clean_new : collect_json tx after.new_value ≡ some [] =
        collect_json-resolved row.new_value after.new_value ns reads prints binds new_is
          bound_values.0 new_after in
      let clean_old : collect_json tx after.old_value ≡ some [] =
        collect_json-resolved row.old_value after.old_value os reads prints binds old_is
          bound_values.1 old_after in
      ground (arith, clean_id, clean_new, clean_old)
