-- ===== src/Staging/Order.antt =====
-- internal/staging/service.go, `planBatch`: the order of a batch against its rows.
use mathlib.Core.List.{Perm, perm_middle}
use mathlib.Core.List.Perm
use deploy_sentry.Base.{
  if◌then◌else◌, is_some, All, ◌≡◌, refl, Bool, true, false, List, [], ◌∷◌, ◌++◌,
}
use deploy_sentry.Staging.Json.{Texts}
use deploy_sentry.Staging.Model.{StagedChange}
use deploy_sentry.Staging.Preflight.{mutations_of, creates_of}

-- Every row once and no other, those that create something before all others.
pub record IsPlan (rows ordered : List StagedChange) : Type 0 where
  pub same_rows : Perm ordered rows
  pub first : List StagedChange
  pub second : List StagedChange
  pub split : ordered ≡ first ++ second
  pub first_create : All (λ r. is_some r.provisional_id ≡ true) first
  pub second_change : All (λ r. is_some r.provisional_id ≡ false) second

module _ (tx : Texts) where
  creates_of-All :
      (rows : List StagedChange) → All (λ r. is_some r.provisional_id ≡ true) (creates_of tx rows)
  unfolding creates_of
  creates_of-All [] = tt
  creates_of-All (r ∷ rows) = by_test (is_some r.provisional_id) refl (creates_of-All rows)
    where
      by_test :
          (b : Bool)
          → is_some r.provisional_id ≡ b
          → All (λ r. is_some r.provisional_id ≡ true) (creates_of tx rows)
          → All
              (λ r. is_some r.provisional_id ≡ true)
              (if b then r ∷ creates_of tx rows else creates_of tx rows)
      by_test true e rest = (e, rest)
      by_test false e rest = rest

  mutations_of-All :
      (rows : List StagedChange)
      → All (λ r. is_some r.provisional_id ≡ false) (mutations_of tx rows)
  unfolding mutations_of
  mutations_of-All [] = tt
  mutations_of-All (r ∷ rows) = by_test (is_some r.provisional_id) refl (mutations_of-All rows)
    where
      by_test :
          (b : Bool)
          → is_some r.provisional_id ≡ b
          → All (λ r. is_some r.provisional_id ≡ false) (mutations_of tx rows)
          → All
              (λ r. is_some r.provisional_id ≡ false)
              (if b then mutations_of tx rows else r ∷ mutations_of tx rows)
      by_test true e rest = rest
      by_test false e rest = (e, rest)

  plan-Perm : (rows : List StagedChange) → Perm (creates_of tx rows ++ mutations_of tx rows) rows
  unfolding creates_of mutations_of
  plan-Perm [] = Perm.refl []
  plan-Perm (r ∷ rows) = by_test (is_some r.provisional_id) (plan-Perm rows)
    where
      by_test :
          (b : Bool)
          → Perm (creates_of tx rows ++ mutations_of tx rows) rows
          → Perm
              ((if b then r ∷ creates_of tx rows else creates_of tx rows)
                ++ (if b then mutations_of tx rows else r ∷ mutations_of tx rows))
              (r ∷ rows)
      by_test true rest = Perm.cons r rest
      by_test false rest =
          Perm.trans (perm_middle (creates_of tx rows) (mutations_of tx rows)) (Perm.cons r rest)

  pub IsPlan-order :
      (rows : List StagedChange) → IsPlan rows (creates_of tx rows ++ mutations_of tx rows)
  IsPlan-order rows = record {
    same_rows = plan-Perm rows;
    first = creates_of tx rows;
    second = mutations_of tx rows;
    split = refl;
    first_create = creates_of-All rows;
    second_change = mutations_of-All rows;
  }
