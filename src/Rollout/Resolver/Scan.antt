-- ===== src/Rollout/Resolver/Scan.antt =====
-- internal/rollout/resolver.go: the search among the rows of one scope.
use deploy_sentry.Base.{
  if◌then◌else◌, Bool-cases, Eq, ◌==◌, nat_eq, string_eq, is_some, ℕ, suc, ◌+◌, ◌≤◌, String, ◌≡◌,
  refl, ap, ◌∙◌, ◌↔◌, ◌⊎◌, inl, inr, Bool, true, false, not, ◌&&◌, Option, none, some, List, [],
  ◌∷◌, arith,
}
use deploy_sentry.Rollout.Strategy.{scope_eq, TargetType, target_eq}
use deploy_sentry.Rollout.Resolver.{ScopeRef, field_ok, matches, first_row, scan}

abbrev pub Among : {A : Type 0} → A → List A → Type 0
Among a [] = ⊥
Among a (x ∷ xs) = (a ≡ x) ⊎ Among a xs

-- A column that is null applies to whatever is asked, another to what it equals.
abbrev pub field_applies : {A : Type 0} ⦃e : Eq A⦄ → Option A → Option A → Bool
field_applies none asked = true
field_applies (some a) none = false
field_applies (some a) (some b) = a == b

field_ok_lem :
    {A : Type 0} ⦃e : Eq A⦄ (m : Bool) (v asked : Option A)
    → field_ok m v asked ≡ (field_applies v asked && (if m then is_some v else not (is_some v)))
unfolding field_ok
field_ok_lem true none asked = refl
field_ok_lem true (some a) none = refl
field_ok_lem true (some a) (some b) = ground arith
field_ok_lem false none asked = refl
field_ok_lem false (some a) none = refl
field_ok_lem false (some a) (some b) = ground arith

abbrev pattern_rank : Bool × Bool → ℕ
pattern_rank (true, true) = 0
pattern_rank (true, false) = 1
pattern_rank (false, true) = 2
pattern_rank (false, false) = 3

-- The ranks from `k` to 3, one by one.
abbrev pub Consecutive : ℕ → List (Bool × Bool) → Type 0
Consecutive k [] = k ≡ 4
Consecutive k (p ∷ ps) = (pattern_rank p ≡ k) × Consecutive (suc k) ps

module _ {A : Type 0} (scope_of : A → ScopeRef) (env_of : A → Option String)
    (kind_of : A → Option TargetType) (env : Option String) (target : Option TargetType) where
  abbrev pub applies : A → Bool
  applies row = field_applies (env_of row) env && field_applies (kind_of row) target

  -- Rows that name an environment come before those that name none, and then a target likewise.
  abbrev pub rank : A → ℕ
  rank row = (if is_some (env_of row) then 0 else 2) + (if is_some (kind_of row) then 0 else 1)

  matches_iff :
      (p : Bool × Bool) (row : A)
      → (matches scope_of env_of kind_of env target p row ≡ true)
        ↔ ((applies row ≡ true) × (rank row ≡ pattern_rank p))
  unfolding matches
  matches_iff (m, n) row =
      ground (arith, field_ok_lem m (env_of row) env, field_ok_lem n (kind_of row) target)

  abbrev First : Bool × Bool → List A → Option A → Type 0
  First p rows none =
      (x : A) → Among x rows → matches scope_of env_of kind_of env target p x ≡ false
  First p rows (some r) = Among r rows × (matches scope_of env_of kind_of env target p r ≡ true)

  first_row-First :
      (p : Bool × Bool) (rows : List A)
      → First p rows (first_row scope_of env_of kind_of env target p rows)
  unfolding first_row
  first_row-First p [] = λ x m. absurd m
  first_row-First p (row ∷ rows) =
      by_test (matches scope_of env_of kind_of env target p row) refl
        (first_row scope_of env_of kind_of env target p rows) (first_row-First p rows)
    where
      by_test :
          (b : Bool)
          → matches scope_of env_of kind_of env target p row ≡ b
          → (o : Option A) → First p rows o
          → First p (row ∷ rows) (if b then some row else o)
      by_test true e o h = (inl refl, e)
      by_test false e none h = λ x m. elim m [
        | inl q ↦ ap (matches scope_of env_of kind_of env target p) q ∙ e
        | inr n ↦ h x n
      ]
      by_test false e (some r) h = (inr h.0, h.1)

  -- No row that applies has a rank below `k`.
  abbrev pub Floor : ℕ → List A → Type 0
  Floor k rows = (x : A) → Among x rows → applies x ≡ true → k ≤ rank x

  -- None of the rows applies, or the row does and none that applies has a lower rank.
  abbrev pub Best : List A → Option A → Type 0
  Best rows none = (x : A) → Among x rows → applies x ≡ false
  Best rows (some r) = Among r rows × (applies r ≡ true) × Floor (rank r) rows

  none_left : (rows : List A) → Floor 4 rows → Best rows none
  none_left rows h x m = elim (Bool-cases (applies x)) [
    | inl t ↦ absurd (ground (arith, h x m t))
    | inr f ↦ f
  ]

  pub scan-Best :
      (pats : List (Bool × Bool)) (k : ℕ) (rows : List A)
      → Consecutive k pats
      → Floor k rows
      → Best rows (scan scope_of env_of kind_of env target pats rows)
  unfolding scan
  scan-Best [] k rows c h = none_left rows (λ x m a. omega (arith, c, h x m a))
  scan-Best (p ∷ pats) k rows c h =
      by_first (first_row scope_of env_of kind_of env target p rows) (first_row-First p rows)
        (λ floor. scan-Best pats (suc k) rows c.1 floor)
    where
      by_first :
          (o : Option A)
          → First p rows o
          → (Floor (suc k) rows → Best rows (scan scope_of env_of kind_of env target pats rows))
          → Best rows (elim o [
            | none ↦ scan scope_of env_of kind_of env target pats rows
            | some row ↦ some row
          ])
      by_first none f rest = rest (λ x m a. ground (arith, f x m, matches_iff p x, h x m a, c.0))
      by_first (some r) (m, e) rest =
          let (a, q) = (matches_iff p r).0 e in (m, a, λ x n b. omega (arith, h x n b, q, c.0))
