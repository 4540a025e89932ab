-- ===== src/Staging/Batch.antt =====
-- internal/staging: the preflight of a batch against the resolver that the batch's creates fill.
use deploy_sentry.Base.{
  ◌⊎◌, ap, inl, is_some, nat_eq, string_eq, contains, all, All, ℕ, ◌≡◌, refl, inr, true, Option,
  none, some, List, [], ◌∷◌, arith,
}
use deploy_sentry.Staging.Json.{Texts}
use deploy_sentry.Staging.Resolver.{rewrite_row, Resolver}
use deploy_sentry.Staging.Resolved.{rewrite_row-resolved, BindsReal, PrintsBack, Reads, bound_in}
use deploy_sentry.Staging.Preflight.{
  collect_provisionals, BatchPlan, is_own, check_rows, check_refs, plan_batch,
}
use deploy_sentry.Staging.Model.{StagedChange}

module _ (tx : Texts) (m : Resolver) where
  -- Every identifier that the batch mints is bound.
  abbrev pub BindsAll : List ℕ → Type 0
  BindsAll known = (u : ℕ) → contains known u ≡ true → bound_in m u ≡ true

  check_refs-bound :
      (known : List ℕ) (r : StagedChange) (refs : List ℕ)
      → r.provisional_id ≡ none
      → BindsAll known
      → check_refs tx known r refs ≡ none
      → all (bound_in m) refs ≡ true
  unfolding check_refs is_own
  check_refs-bound known r [] mutation binds fine = refl
  check_refs-bound known r (ref ∷ refs) mutation binds fine =
      ground (arith, check_refs-bound known r refs mutation binds, binds ref)

  -- No provisional identifier is left, where the rewriting does not fail.
  pub Clean : Option StagedChange → Type 0
  Clean none = Unit
  Clean (some after) = collect_provisionals tx after ≡ some []

  -- A row mints an identifier, or has no provisional one left when the resolver rewrites it.
  pub Rewritten : StagedChange → Type 0
  Rewritten r = (is_some r.provisional_id ≡ true) ⊎ Clean (rewrite_row tx m r)

  check_rows-Rewritten :
      (known : List ℕ) (rows : List StagedChange)
      → Reads tx m
      → PrintsBack tx m
      → BindsReal m
      → BindsAll known
      → check_rows tx known rows ≡ none
      → All Rewritten rows
  unfolding check_rows Rewritten Clean
  check_rows-Rewritten known [] reads prints real binds fine = tt
  check_rows-Rewritten known (r ∷ rows) reads prints real binds fine = (
    by_row (collect_provisionals tx r) refl,
    check_rows-Rewritten known rows reads prints real binds (rest fine),
  )
    where
      rest : check_rows tx known (r ∷ rows) ≡ none → check_rows tx known rows ≡ none
      rest fine = ground arith

      by_after :
          (refs : List ℕ) (after : Option StagedChange)
          → collect_provisionals tx r ≡ some refs
          → check_refs tx known r refs ≡ none
          → r.provisional_id ≡ none
          → rewrite_row tx m r ≡ after
          → Clean after
      by_after refs none eq checked mutation eq' = tt
      by_after refs (some after) eq checked mutation eq' =
          rewrite_row-resolved tx m r after refs reads prints real eq
            (check_refs-bound known r refs mutation binds checked) eq'

      by_mint :
          (refs : List ℕ) (minted : Option ℕ)
          → collect_provisionals tx r ≡ some refs
          → check_refs tx known r refs ≡ none
          → r.provisional_id ≡ minted
          → Rewritten r
      by_mint refs none eq checked mutation =
          inr (by_after refs (rewrite_row tx m r) eq checked mutation refl)
      by_mint refs (some p) eq checked mints = inl (ap is_some mints)

      by_refs :
          (refs : List ℕ)
          → collect_provisionals tx r ≡ some refs
          → check_refs tx known r refs ≡ none
          → Rewritten r
      by_refs refs eq checked = by_mint refs r.provisional_id eq checked refl

      by_row : (found : Option (List ℕ)) → collect_provisionals tx r ≡ found → Rewritten r
      by_row none eq = elim (impossible eq) [ ]
        where
          impossible : collect_provisionals tx r ≡ none → ⊥
          impossible eq = ground arith
      by_row (some refs) eq = by_refs refs eq (ground arith)

  -- In a batch that the preflight accepts, once the resolver binds every identifier that the batch
  -- mints, to real ones only, the rows that mint none are left without any provisional identifier,
  -- in their resource and in their documents, when they are rewritten; identifiers and documents are
  -- taken to be read back as they were printed.
  pub plan_batch-Rewritten :
      (rows : List StagedChange) (plan : BatchPlan)
      → Reads tx m
      → PrintsBack tx m
      → BindsReal m
      → BindsAll plan.known_provs
      → plan_batch tx rows ≡ inr plan
      → All Rewritten rows
  unfolding plan_batch
  plan_batch-Rewritten rows plan reads prints real binds planned =
      check_rows-Rewritten plan.known_provs rows reads prints real binds (ground arith)
