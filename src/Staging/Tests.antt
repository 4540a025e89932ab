-- ===== src/Staging/Tests.antt =====
-- internal/staging on a concrete batch.
use deploy_sentry.Base.{
  if◌then◌else◌, ◌==◌, nat_eq, string_eq, contains, All, ℕ, ◌<◌, String, ◌≡◌, refl, subst, true,
  false, Option, none, some, List, [], ◌∷◌, ◌++◌, arith,
}
use deploy_sentry.Staging.Model.{StagedChange}
use deploy_sentry.Staging.Provisional.{
  new_provisional_roundtrip, as_rfc, new_provisional, is_provisional, byte_8,
}
use deploy_sentry.Staging.Commit.{
  with_hook, staged_new_value, dispatch_rewritten, dispatch_create, commit_key, build_audit_entry,
  after_mutation, after_create, create_handler, dispatch, dispatch_all, Reason, Created, Outcome,
  World, Applied, Service,
}
use deploy_sentry.Staging.Service.{close, after_commit, run_plan, commit_rows, commit}
use deploy_sentry.Staging.Json.{null, object, array, string, number, bool, Json, Texts}
use deploy_sentry.Staging.Atomic.Whole.{commit-Whole, Whole}
use Prim.Native.String.{len}
use deploy_sentry.Staging.Resolver.{
  walk_string, walk, rewrite_uuids_in_json, rewrite_id, rewrite_row, Resolver, bind,
}
use deploy_sentry.Staging.Preflight.{
  walk_provisionals, is_own, known_of, mutations_of, creates_of, collect_id, check_refs,
  collect_json, collect_provisionals, check_rows, plan_batch,
}
use deploy_sentry.Access.Tests.{some-len-ticks, ticks}
use deploy_sentry.Staging.Resolved.{new_resolver-BindsReal, bind-BindsReal, BindsReal, bound_in}
use deploy_sentry.Staging.Layers.{overlay_list-overlay_detail, creates_are_new}
use deploy_sentry.Base.Dict.{put}
use deploy_sentry.Staging.Overlay.{staged_creates, overlay_detail, kept, overlay_list, is_create}
use deploy_sentry.Staging.Batch.{plan_batch-Rewritten, Rewritten}
use deploy_sentry.Base.Dict.{find, put}
use deploy_sentry.Staging.Service.{empty_run, unwritten, written, after_commit, close, failed_row}

-- 192 in byte 8.
abbrev provisional_flag : ℕ
provisional_flag = 13835058055282163712

-- The identifier 11259375 is of the RFC 4122 variant with 128 in byte 8.
abbrev fresh_id : ℕ
fresh_id = 9223372036854775808

new_provisional_roundtrip_example :
    (is_provisional (new_provisional fresh_id) ≡ true)
    × (new_provisional fresh_id < 340282366920938463463374607431768211456)
    × (as_rfc (new_provisional fresh_id) ≡ fresh_id)
    × (is_provisional fresh_id ≡ false)
unfolding byte_8
new_provisional_roundtrip_example = new_provisional_roundtrip fresh_id (omega arith) refl

-- Documents are the text "P" of the provisional identifier and "R" of the real one, 7.
abbrev texts : Texts
texts = record {
  unmarshal = λ raw. some (Json.string raw);
  marshal = λ v. none;
  parse = λ t. if t == "P" then some provisional_flag else none;
  print = λ u. "R";
}

abbrev new_flag : StagedChange
new_flag = record {
  id = 1;
  user_id = 3;
  org_id = 4;
  resource_type = "flag";
  resource_id = none;
  provisional_id = some provisional_flag;
  action = "create";
  field_path = "";
  old_value = "";
  new_value = "";
  created_at = 10;
  updated_at = 10;
}

abbrev toggled : StagedChange
toggled = record {
  id = 2;
  user_id = 3;
  org_id = 4;
  resource_type = "flag";
  resource_id = some 9;
  provisional_id = none;
  action = "toggle";
  field_path = "enabled";
  old_value = "";
  new_value = "";
  created_at = 11;
  updated_at = 11;
}

-- The database is its staged rows; a change of a flag is applied unless it is a "refuse".
abbrev service : Service (List StagedChange)
service = record {
  handlers = λ key.
      if key == "flag:refuse"
      then some (λ db r. Applied.refused "refused")
      else some (λ db r. Applied.applied db "flag.toggled");
  creates = some (λ key. some (λ db r. Created.created db 7 "flag.created" (some 1)));
  get_by_ids = λ db user org ids. some db;
  begins = true;
  delete_by_ids = λ db user org ids. some [];
  commits = λ db. true;
  write_audit = some (λ e. true);
  quoted = λ at. "\"t\"";
  texts = texts;
}

abbrev shop : List StagedChange → World (List StagedChange)
shop rows = record { db = rows; hooks_run = []; audit_log = [] }

commit-Whole_example :
    Whole service 3 20
      (shop (toggled ∷ new_flag ∷ []))
      3
      4
      (2 ∷ 1 ∷ [])
      (commit service (shop (toggled ∷ new_flag ∷ [])) 3 4 3 20 (2 ∷ 1 ∷ []))
commit-Whole_example = commit-Whole service 3 20 (shop (toggled ∷ new_flag ∷ [])) 3 4 (2 ∷ 1 ∷ [])

commits_creates_first :
    (commit service (shop (toggled ∷ new_flag ∷ [])) 3 4 3 20 (2 ∷ 1 ∷ [])).1
    ≡ Outcome.result
        (record { committed_ids = 1 ∷ 2 ∷ []; failed_id = none; failed_reason = none })
        []
unfolding commit commit_rows plan_batch check_rows collect_provisionals collect_json check_refs
    collect_id is_provisional byte_8 run_plan dispatch_all creates_of mutations_of dispatch
    create_handler rewrite_row find put contains after_create after_mutation build_audit_entry
    commit_key dispatch_create dispatch_rewritten staged_new_value with_hook kept is_own known_of
    walk_provisionals bind rewrite_id rewrite_uuids_in_json walk walk_string after_commit close
    empty_run failed_row unwritten written
commits_creates_first = refl

-- A refused batch reports rows as committed that are rolled back.
abbrev refused_row : StagedChange
refused_row = record toggled { id = 5; action = "refuse" }

refused_batch_reports_committed :
    commit service (shop (toggled ∷ refused_row ∷ [])) 3 4 3 20 (2 ∷ 5 ∷ []) ≡ (
      shop (toggled ∷ refused_row ∷ []),
      Outcome.result
          (record {
            committed_ids = 2 ∷ [];
            failed_id = some 5;
            failed_reason = some (Reason.handler_error "refused");
          })
          [],
    )
unfolding commit commit_rows plan_batch check_rows collect_provisionals collect_json check_refs
    collect_id is_provisional byte_8 run_plan dispatch_all creates_of mutations_of dispatch
    create_handler rewrite_row find put contains after_create after_mutation build_audit_entry
    commit_key dispatch_create dispatch_rewritten staged_new_value with_hook kept is_own known_of
    walk_provisionals bind rewrite_id rewrite_uuids_in_json walk walk_string after_commit close
    empty_run failed_row unwritten written
refused_batch_reports_committed = refl

-- The only document is "null", and identifiers are written in unary.
abbrev print_null : Json → Option String
print_null null = some "null"
print_null (bool b) = none
print_null (number n) = none
print_null (string t) = none
print_null (array items) = none
print_null (object fields) = none

abbrev unary : Texts
unary = record {
  unmarshal = λ raw. if raw == "null" then some Json.null else none;
  marshal = print_null;
  parse = λ t. some (len t);
  print = ticks;
}

reads_null :
    (v : Json) (raw : String)
    → print_null v ≡ some raw
    → ((if raw == "null" then some Json.null else none) ≡ some v) × ((raw == "") ≡ false)
reads_null null raw printed =
    subst
      (λ r. ((if r == "null" then some Json.null else none) ≡ some Json.null) × ((r == "") ≡ false))
      same (refl, refl)
  where
    same : "null" ≡ raw
    same = ground arith
reads_null (bool b) raw printed = ground arith
reads_null (number n) raw printed = ground arith
reads_null (string t) raw printed = ground arith
reads_null (array items) raw printed = ground arith
reads_null (object fields) raw printed = ground arith

abbrev rule_of_new_flag : StagedChange
rule_of_new_flag = record toggled { resource_id = some provisional_flag; new_value = "null" }

abbrev filled : Resolver
filled = (provisional_flag, 7) ∷ []

filled-BindsReal : BindsReal filled
unfolding bind put is_provisional byte_8
filled-BindsReal = bind-BindsReal [] provisional_flag 7 filled new_resolver-BindsReal refl

filled-BindsAll : (u : ℕ) → contains (provisional_flag ∷ []) u ≡ true → bound_in filled u ≡ true
unfolding contains bound_in find
filled-BindsAll u known = ground arith

plan_batch-Rewritten_example : All (Rewritten unary filled) (new_flag ∷ rule_of_new_flag ∷ [])
unfolding plan_batch check_rows collect_provisionals collect_json check_refs collect_id
    is_provisional byte_8 creates_of mutations_of known_of is_own contains walk_provisionals
plan_batch-Rewritten_example =
    plan_batch-Rewritten unary filled (new_flag ∷ rule_of_new_flag ∷ [])
      (record { ordered = new_flag ∷ rule_of_new_flag ∷ []; known_provs = provisional_flag ∷ [] })
      some-len-ticks reads_null filled-BindsReal filled-BindsAll refl

-- A production value is its identifier and its state.
abbrev edit_value : ℕ × String → StagedChange → Option (ℕ × String)
edit_value (i, t) s = if s.action == "delete" then none else some (i, s.action)

abbrev make : StagedChange → Option (ℕ × String)
make s = some (0, s.new_value)

abbrev id_of : ℕ × String → ℕ
id_of (i, t) = i

overlay_list-overlay_detail_example :
    overlay_list id_of edit_value make ((9, "on") ∷ (8, "on") ∷ []) (new_flag ∷ toggled ∷ [])
    ≡ kept
        (λ p. overlay_detail id_of edit_value p (new_flag ∷ toggled ∷ []))
        ((9, "on") ∷ (8, "on") ∷ [])
      ++ kept make (staged_creates (new_flag ∷ toggled ∷ []))
unfolding creates_are_new is_create
overlay_list-overlay_detail_example =
    overlay_list-overlay_detail id_of edit_value make ((9, "on") ∷ (8, "on") ∷ [])
      (new_flag ∷ toggled ∷ []) refl
