-- ===== src/Rollout/Resolver/Nearest.antt =====
-- internal/rollout/resolver.go: which row is resolved, described without the order of the search.
use deploy_sentry.Base.{
  if◌then◌else◌, nat_eq, string_eq, ◌≤◌, String, ◌≡◌, refl, sym, ap, ◌∙◌, ◌↔◌, inl, inr, Bool, true,
  false, Option, none, some, List, [], ◌∷◌, ◌++◌, arith,
}
use deploy_sentry.Rollout.Strategy.{TargetType}
use deploy_sentry.Rollout.Resolver.{
  ScopeRef, same_scope, patterns, bucket, scan, resolve, StrategyDefault, resolve_default,
  RolloutPolicy, resolve_policy,
}
use deploy_sentry.Rollout.Resolver.Scan.{Among, applies, rank, Best, scan-Best}

module _ {A : Type 0} (scope_of : A → ScopeRef) (env_of : A → Option String)
    (kind_of : A → Option TargetType) (env : Option String) (target : Option TargetType) where
  true-ne-false : true ≡ false → ⊥
  true-ne-false e = ground (arith, e)

  bucket_iff :
      (rows : List A) (anc : ScopeRef) (x : A)
      → Among x (bucket scope_of env_of kind_of env target rows anc)
        ↔ (Among x rows × (same_scope (scope_of x) anc ≡ true))
  unfolding bucket
  bucket_iff [] anc x = (λ m. absurd m, λ h. absurd h.0)
  bucket_iff (row ∷ rows) anc x =
      by_test (same_scope (scope_of row) anc) refl
        (bucket scope_of env_of kind_of env target rows anc) (bucket_iff rows anc x)
    where
      by_test :
          (b : Bool)
          → same_scope (scope_of row) anc ≡ b
          → (rest : List A) → (Among x rest ↔ (Among x rows × (same_scope (scope_of x) anc ≡ true)))
          → (Among x (if b then row ∷ rest else rest)
              ↔ (Among x (row ∷ rows) × (same_scope (scope_of x) anc ≡ true)))
      by_test true e rest h = (
        λ m. elim m [
          | inl q ↦ (inl q, ap (λ y. same_scope (scope_of y) anc) q ∙ e)
          | inr n ↦ (inr (h.0 n).0, (h.0 n).1)
        ],
        λ k. elim k.0 [ inl q ↦ inl q | inr n ↦ inr (h.1 (n, k.1)) ],
      )
      by_test false e rest h = (
        λ m. (inr (h.0 m).0, (h.0 m).1),
        λ k. elim k.0 [
          | inl q ↦ absurd (true-ne-false (sym k.1 ∙ ap (λ y. same_scope (scope_of y) anc) q ∙ e))
          | inr n ↦ h.1 (n, k.1)
        ],
      )

  -- No row of the scope applies.
  abbrev pub Barren : List A → ScopeRef → Type 0
  Barren rows anc =
      (x : A)
      → Among x rows
      → same_scope (scope_of x) anc ≡ true
      → applies scope_of env_of kind_of env target x ≡ false

  -- Nothing is resolved where no ancestor has a row that applies. Otherwise the row is of the first
  -- ancestor that has one, and of its rows that apply none is more specific.
  abbrev pub Nearest : List A → List ScopeRef → Option A → Type 0
  Nearest rows ancestors none = (anc : ScopeRef) → Among anc ancestors → Barren rows anc
  Nearest rows ancestors (some r) =
      (before : List ScopeRef) × (anc : ScopeRef) × (after : List ScopeRef) × (ancestors
        ≡ before ++ anc ∷ after)
      × ((b : ScopeRef) → Among b before → Barren rows b)
      × ((Among r rows × (same_scope (scope_of r) anc ≡ true))
          × (applies scope_of env_of kind_of env target r ≡ true)
          × ((x : A)
              → Among x rows
              → same_scope (scope_of x) anc ≡ true
              → applies scope_of env_of kind_of env target x ≡ true
              → rank scope_of env_of kind_of env target r
                ≤ rank scope_of env_of kind_of env target x))

  -- A scope whose bucket has no row that applies is barren, like those before it.
  grown :
      (rows : List A) (anc b : ScopeRef) (before : List ScopeRef)
      → Best scope_of env_of kind_of env target
          (bucket scope_of env_of kind_of env target rows anc)
          none
      → (Among b before → Barren rows b)
      → Among b (anc ∷ before)
      → Barren rows b
  grown rows anc b before h k (inl q) =
      λ x n e. h x ((bucket_iff rows anc x).1 (n, ap (same_scope (scope_of x)) (sym q) ∙ e))
  grown rows anc b before h k (inr m) = k m

  pub resolve-Nearest :
      (rows : List A) (ancestors : List ScopeRef)
      → Nearest rows ancestors (resolve scope_of env_of kind_of env target rows ancestors)
  unfolding resolve
  resolve-Nearest rows [] = λ anc m. absurd m
  resolve-Nearest rows (anc ∷ ancs) =
      by_scan
        (scan scope_of env_of kind_of env target patterns
          (bucket scope_of env_of kind_of env target rows anc))
        (scan-Best scope_of env_of kind_of env target patterns 0
          (bucket scope_of env_of kind_of env target rows anc) (refl, (refl, (refl, (refl, refl))))
          (λ x m a. omega arith))
        (resolve scope_of env_of kind_of env target rows ancs) (resolve-Nearest rows ancs)
    where
      by_scan :
          (o : Option A)
          → Best scope_of env_of kind_of env target
              (bucket scope_of env_of kind_of env target rows anc)
              o
          → (rest : Option A) → Nearest rows ancs rest
          → Nearest rows (anc ∷ ancs) (elim o [ none ↦ rest | some row ↦ some row ])
      by_scan none h none k = λ b m. grown rows anc b ancs h (k b) m
      by_scan none h (some r) (before, a, after, split, empty, best) = (
        anc ∷ before,
        a,
        after,
        ap (λ l. anc ∷ l) split,
        λ b m. grown rows anc b before h (empty b) m,
        best,
      )
      by_scan (some r) (m, a, least) rest k = (
        [],
        anc,
        ancs,
        refl,
        (λ b n. absurd n),
        ((bucket_iff rows anc r).0 m, a, λ x n e. least x ((bucket_iff rows anc x).1 (n, e))),
      )

-- `ResolveDefault` gives nothing if no ancestor has a row that applies to the environment and the
-- target. Otherwise its row applies, is of the first ancestor that has such a row, and is as specific
-- as any of that ancestor's: one that names the environment before one that does not, then likewise
-- for the target.
pub resolve_default-Nearest :
    (rows : List StrategyDefault) (ancestors : List ScopeRef) (env : Option String)
    (target : Option TargetType)
    → Nearest
        (λ r. record { scope_type = r.scope_type; scope_id = r.scope_id })
        (λ r. r.environment)
        (λ r. r.target_type)
        env
        target
        rows
        ancestors
        (resolve_default rows ancestors env target)
unfolding resolve_default
resolve_default-Nearest rows ancestors env target =
    resolve-Nearest (λ r. record { scope_type = r.scope_type; scope_id = r.scope_id })
      (λ r. r.environment) (λ r. r.target_type) env target rows ancestors

-- `ResolvePolicy` gives nothing if no ancestor has a policy that applies, and otherwise the most
-- specific one of the first ancestor that has one.
pub resolve_policy-Nearest :
    (rows : List RolloutPolicy) (ancestors : List ScopeRef) (env : Option String)
    (target : Option TargetType)
    → Nearest
        (λ r. record { scope_type = r.scope_type; scope_id = r.scope_id })
        (λ r. r.environment)
        (λ r. r.target_type)
        env
        target
        rows
        ancestors
        (resolve_policy rows ancestors env target)
unfolding resolve_policy
resolve_policy-Nearest rows ancestors env target =
    resolve-Nearest (λ r. record { scope_type = r.scope_type; scope_id = r.scope_id })
      (λ r. r.environment) (λ r. r.target_type) env target rows ancestors
