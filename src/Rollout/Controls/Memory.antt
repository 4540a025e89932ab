-- ===== src/Rollout/Controls/Memory.antt =====
-- A repository in memory with the statements of internal/platform/database/postgres/rollouts.go: the
-- laws of a repository can be met.
use deploy_sentry.Base.{
  if◌then◌else◌, Bool-cases, ◌==◌, nat_eq, string_eq, ℕ, suc, ◌+◌, ◌≤◌, String, ◌≡◌, refl, sym, ap,
  subst, ◌∙◌, inl, inr, Bool, false, ◌&&◌, Option, none, some, List, [], ◌∷◌, arith,
}
use mathlib.Core.Option
use deploy_sentry.Rollout.Strategy.{TargetType, target_eq}
use deploy_sentry.Rollout.Model.{Rollout, RolloutStatus}
use deploy_sentry.Rollout.Controls.Repository.{
  RolloutRepo, Lookup, IsLawful, status_columns, is_open, OpensDeployment, OpensRule,
}

abbrev option_is : Option String → String → Bool
option_is none s = false
option_is (some t) s = t == s

module _ {F : Type 0} where
  -- `SELECT … WHERE id = $1`
  unfoldable pub select : List (Rollout F) → ℕ → Option (Rollout F)
  select [] i = none
  select (r ∷ rs) i = if r.id == i then some r else select rs i

  unfoldable pub set_status :
      List (Rollout F) → ℕ → RolloutStatus → Option String → List (Rollout F)
  unfolding status_columns
  set_status [] i status why = []
  set_status (r ∷ rs) i status why =
      (if r.id == i then status_columns status why r else r) ∷ set_status rs i status why

  -- An identifier above all others.
  unfoldable pub next_id : List (Rollout F) → ℕ
  next_id [] = 1
  next_id (r ∷ rs) = suc (r.id + next_id rs)

  unfoldable pub insert : ℕ → List (Rollout F) → Rollout F → Option (Rollout F × List (Rollout F))
  unfolding next_id
  insert stored s ro =
      let created = record ro { id = next_id s; created_at = stored } in some (created, created ∷ s)

  unfoldable pub find : (Rollout F → Bool) → List (Rollout F) → Option (Rollout F)
  find p [] = none
  find p (r ∷ rs) = if p r then some r else find p rs

  unfoldable pub look_up : (Rollout F → Bool) → List (Rollout F) → Lookup F
  unfolding find
  look_up p s = elim (find p s) [ none ↦ Lookup.no_row | some ro ↦ Lookup.found ro ]

  unfoldable pub keep : ℕ → List (Rollout F) → List (Rollout F)
  keep g [] = []
  keep g (r ∷ rs) =
      let rest = keep g rs in
      elim r.release_id [ none ↦ rest | some h ↦ if h == g then r ∷ rest else rest ]

  abbrev of_deployment : String → Rollout F → Bool
  of_deployment ref r =
      (r.target_type == TargetType.deploy)
      && option_is r.target_ref.deployment_id ref
      && is_open r.status

  abbrev of_rule : String → Rollout F → Bool
  of_rule ref r =
      (r.target_type == TargetType.config) && option_is r.target_ref.rule_id ref && is_open r.status

  abbrev pub memory : RolloutRepo F
  memory = record {
    Db = List (Rollout F);
    get = select;
    update_status = λ s i status why. some (set_status s i status why);
    create = insert;
    active_by_deployment = λ s ref. look_up (of_deployment ref) s;
    active_by_rule = λ s ref. look_up (of_rule ref) s;
    list_by_release = λ s g. some (keep g s);
  }

  select_id : (s : List (Rollout F)) (i : ℕ) (ro : Rollout F) → select s i ≡ some ro → ro.id ≡ i
  unfolding select
  select_id [] i ro e = cc
  select_id (r ∷ rs) i ro e = ground (arith, select_id rs i ro)

  select-set_status :
      (s : List (Rollout F)) (i : ℕ) (status : RolloutStatus) (why : Option String) (j : ℕ)
      → select (set_status s i status why) j
        ≡ (if j == i then Option.map (status_columns status why) (select s j) else select s j)
  unfolding select set_status status_columns
  select-set_status [] i status why j = ground arith
  select-set_status (r ∷ rs) i status why j = ground (arith, select-set_status rs i status why j)

  select_above : (s : List (Rollout F)) (i : ℕ) → next_id s ≤ i → select s i ≡ none
  unfolding select next_id
  select_above [] i l = refl
  select_above (r ∷ rs) i l = ground (arith, select_above rs i)

  inserted :
      (stored : ℕ) (s s' : List (Rollout F)) (ro created : Rollout F) (j : ℕ)
      → insert stored s ro ≡ some (created, s')
      → select s' j ≡ (if j == created.id then some created else select s j)
  unfolding insert select
  inserted stored s s' ro created j e = ground arith

  insert_columns :
      (stored : ℕ) (s s' : List (Rollout F)) (ro created : Rollout F)
      → insert stored s ro ≡ some (created, s')
      → (created ≡ record ro { id = created.id; created_at = stored })
        × (select s created.id ≡ none)
  unfolding insert
  insert_columns stored s s' ro created e =
      let same : record ro { id = next_id s; created_at = stored } ≡ created = ground arith in
      subst (λ c. (c ≡ record ro { id = c.id; created_at = stored }) × (select s c.id ≡ none)) same
        (refl, select_above s (next_id s) (omega arith))

  some_injective : {a b : Rollout F} → some a ≡ some b → a ≡ b
  some_injective e = ground (arith, e)

  find-none :
      (p : Rollout F → Bool) (s : List (Rollout F)) (i : ℕ) (ro : Rollout F)
      → find p s ≡ none
      → select s i ≡ some ro
      → p ro ≡ false
  unfolding find select
  find-none p [] i ro e g = cc
  find-none p (r ∷ rs) i ro e g = elim (Bool-cases (r.id == i)) [
    | inl t ↦
        let same : some r ≡ some ro = rw (t, select) at g in
        subst (λ x. p x ≡ false) (some_injective same) (ground arith)
    | inr f ↦ find-none p rs i ro (ground arith) (ground arith)
  ]

  look_up-no_row :
      (p : Rollout F → Bool) (s : List (Rollout F)) → look_up p s ≡ Lookup.no_row → find p s ≡ none
  unfolding look_up
  look_up-no_row p s e = ground arith

  some_list : {a b : List (Rollout F)} → some a ≡ some b → a ≡ b
  some_list e = ground (arith, e)

  not_found :
      (ref : String) (ro : Rollout F) → of_deployment ref ro ≡ false → ¬ OpensDeployment ref ro
  not_found ref ro f (t, d, o) =
      ground
        (arith, target_eq.equal_iff ro.target_type TargetType.deploy, string_eq.equal_iff ref ref)

  no_rule : (ref : String) (ro : Rollout F) → of_rule ref ro ≡ false → ¬ OpensRule ref ro
  no_rule ref ro f (t, d, o) =
      ground
        (arith, target_eq.equal_iff ro.target_type TargetType.config, string_eq.equal_iff ref ref)

  pub memory-IsLawful : IsLawful F memory
  memory-IsLawful = record {
    get_id = select_id;
    get-update_status = λ s s' i status why j e.
        ap (λ x. select x j) (sym (some_list e)) ∙ select-set_status s i status why j;
    get-create = λ stored s s' ro created j e. inserted stored s s' ro created j e;
    create_columns = λ stored s s' ro created e. insert_columns stored s s' ro created e;
    find_deployment = λ s ref i ro e g o.
        not_found ref ro
          (find-none (of_deployment ref) s i ro (look_up-no_row (of_deployment ref) s e) g) o;
    find_rule = λ s ref i ro e g o.
        no_rule ref ro (find-none (of_rule ref) s i ro (look_up-no_row (of_rule ref) s e) g) o;
  }
