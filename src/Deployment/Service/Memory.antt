-- ===== src/Deployment/Service/Memory.antt =====
-- A repository in memory with the statements of internal/platform/database/postgres/deploy.go: the
-- laws of a repository can be met.
use deploy_sentry.Base.{
  if◌then◌else◌, ◌==◌, nat_eq, string_eq, ℕ, ◌≡◌, refl, false, Option, none, some, List, [], ◌∷◌,
  arith,
}
use deploy_sentry.Deployment.{Deployment}
use deploy_sentry.Deployment.Service.Repository.{DeployRepo, IsLawful, save_columns, insert_columns}

-- `SELECT … WHERE id = $1`
unfoldable pub select : List Deployment → ℕ → Option Deployment
select [] i = none
select (d ∷ ds) i = if d.id == i then some d else select ds i

-- `UPDATE … WHERE id = $1`
unfoldable pub replace : ℕ → List Deployment → Deployment → List Deployment
unfolding save_columns
replace stored [] d = []
replace stored (r ∷ rs) d =
    (if r.id == d.id then save_columns stored r d else r) ∷ replace stored rs d

-- `tag.RowsAffected() == 0` is an error, and so is a second row with one primary key.
unfoldable pub update : ℕ → List Deployment → Deployment → Option (List Deployment)
unfolding select replace
update stored s d = elim (select s d.id) [ none ↦ none | some _ ↦ some (replace stored s d) ]

unfoldable pub insert : ℕ → List Deployment → Deployment → Option (List Deployment)
unfolding select insert_columns
insert stored s d = elim (select s d.id) [
  | none ↦ some (insert_columns stored d ∷ s)
  | some _ ↦ none
]

abbrev pub memory : (List Deployment → ℕ → ℕ → Option Deployment) → DeployRepo
memory latest = record {
  Db = List Deployment;
  get_deployment = select;
  create_deployment = insert;
  update_deployment = update;
  latest_completed = latest;
}

select_id : (s : List Deployment) (i : ℕ) (d : Deployment) → select s i ≡ some d → d.id ≡ i
unfolding select
select_id [] i d e = cc
select_id (r ∷ rs) i d e = ground (arith, select_id rs i d)

select-replace_ne :
    (stored : ℕ) (s : List Deployment) (d : Deployment) (j : ℕ)
    → (j == d.id) ≡ false
    → select (replace stored s d) j ≡ select s j
unfolding select replace
select-replace_ne stored [] d j e = refl
select-replace_ne stored (r ∷ rs) d j e = ground (arith, select-replace_ne stored rs d j)

select-replace :
    (stored : ℕ) (s : List Deployment) (d row : Deployment) (j : ℕ)
    → select s d.id ≡ some row
    → select (replace stored s d) j
      ≡ (if j == d.id then some (save_columns stored row d) else select s j)
unfolding select replace
select-replace stored [] d row j e = cc
select-replace stored (r ∷ rs) d row j e =
    ground (arith, select-replace stored rs d row j, select-replace_ne stored rs d j)

replaced :
    (stored : ℕ) (s s' : List Deployment) (d row : Deployment) (j : ℕ)
    → update stored s d ≡ some s'
    → select s d.id ≡ some row
    → select s' j ≡ (if j == d.id then some (save_columns stored row d) else select s j)
unfolding update
replaced stored s s' d row j e f = ground (arith, select-replace stored s d row j)

inserted :
    (stored : ℕ) (s s' : List Deployment) (d : Deployment) (j : ℕ)
    → insert stored s d ≡ some s'
    → select s' j ≡ (if j == d.id then some (insert_columns stored d) else select s j)
unfolding insert select
inserted stored s s' d j e = ground arith

pub memory-IsLawful :
    (latest : List Deployment → ℕ → ℕ → Option Deployment) → IsLawful (memory latest)
memory-IsLawful latest = record {
  get_id = select_id;
  get-update = λ stored s s' d row j e f. replaced stored s s' d row j e f;
  get-create = λ stored s s' d j e. inserted stored s s' d j e;
}
