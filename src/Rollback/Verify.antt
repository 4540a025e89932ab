-- ===== src/Rollback/Verify.antt =====
-- internal/rollback/strategies.go, `VerifyRollback`.
use deploy_sentry.Base.{
  if◌then◌else◌, ◌==◌, nat_eq, string_eq, is_some, ℕ, zero, suc, ◌+◌, ◌<◌, ◌≡◌, refl, sym, subst,
  ◌↔◌, Bool, true, false, ◌&&◌, Option, none, some, arith,
}
use deploy_sentry.Base.Int.{ℤ, pos, pos_part, leb_ℤ}
use deploy_sentry.Rollout.Floats.{Floats}

module _ (fl : Floats) where
  -- What an attempt meets: whether the context is done before it, the health it reads (`none` for an
  -- error), and whether the context is done while it waits for the next.
  pub record Attempt : Type 0 where
    pub cancelled_before : Bool
    pub health : Option (fl.F × Bool)
    pub cancelled_waiting : Bool

  pub data VerifyError : Type 0 where
    cancelled unreadable unhealthy exhausted : VerifyError

  unfoldable pub verified : fl.F → Attempt → Bool
  verified threshold a = elim a.health [
    | none ↦ false
    | some (overall, is_healthy) ↦ fl.le threshold overall && is_healthy
  ]

  -- The error of the last attempt.
  unfoldable pub gave_up : Attempt → VerifyError
  gave_up a = if is_some a.health then VerifyError.unhealthy else VerifyError.unreadable

  -- The attempts from one on; `left` are those after it.
  unfoldable pub verify_from : fl.F → (ℕ → Attempt) → ℕ → ℕ → Option VerifyError
  unfolding verified gave_up
  verify_from threshold meets i zero = some VerifyError.exhausted
  verify_from threshold meets i (suc left) =
      let rest : Option VerifyError = verify_from threshold meets (suc i) left in
      let a : Attempt = meets i in
      if a.cancelled_before
      then some VerifyError.cancelled
      else if verified threshold a
      then none
      else if left == 0
      then some (gave_up a)
      else if a.cancelled_waiting
      then some VerifyError.cancelled
      else rest

  -- Its intervals are only waited for.
  unfoldable pub verify_rollback : fl.F → (ℕ → Attempt) → ℤ → Option VerifyError
  unfolding verify_from
  verify_rollback threshold meets max_attempts =
      verify_from threshold meets 0
        (if leb_ℤ max_attempts (pos 0) then 3 else pos_part max_attempts)

  -- The attempts before one meet neither a health that is enough nor a context that is done.
  pub Waited : fl.F → (ℕ → Attempt) → ℕ → ℕ → Type 0
  Waited threshold meets i zero = Unit
  Waited threshold meets i (suc n) =
      ((meets i).cancelled_before ≡ false)
      × (verified threshold (meets i) ≡ false)
      × ((meets i).cancelled_waiting ≡ false)
      × Waited threshold meets (suc i) n

  -- One of some attempts meets a health that is enough, before the context is done.
  pub Verifies : fl.F → (ℕ → Attempt) → ℕ → ℕ → Type 0
  Verifies threshold meets i left =
      (n : ℕ) × (n < left)
      × Waited threshold meets i n
      × ((meets (i + n)).cancelled_before ≡ false)
      × (verified threshold (meets (i + n)) ≡ true)

  verify_from-Verifies :
      (threshold : fl.F) (meets : ℕ → Attempt) (i left : ℕ)
      → verify_from threshold meets i left ≡ none
      → Verifies threshold meets i left
  unfolding verify_from Waited Verifies
  verify_from-Verifies threshold meets i zero ok = elim (impossible ok) [ ]
    where
      impossible : some VerifyError.exhausted ≡ none → ⊥
      impossible ok = ground arith
  verify_from-Verifies threshold meets i (suc left) ok =
      let later = verify_from-Verifies threshold meets (suc i) left in
      by_test (verified threshold (meets i)) refl later
    where
      here : i + 0 ≡ i
      here = omega arith

      by_test :
          (b : Bool)
          → verified threshold (meets i) ≡ b
          → (verify_from threshold meets (suc i) left ≡ none
              → Verifies threshold meets (suc i) left)
          → Verifies threshold meets i (suc left)
      by_test true eq later = (
        0,
        omega arith,
        tt,
        subst (λ k. (meets k).cancelled_before ≡ false) (sym here) (ground arith),
        subst (λ k. verified threshold (meets k) ≡ true) (sym here) eq,
      )
      by_test false eq later =
          let (n, less, waited, before, good) = later (ground arith) in
          let there : i + suc n ≡ suc i + n = omega arith in
          (
            suc n,
            omega (arith, less),
            (ground arith, eq, ground arith, waited),
            subst (λ k. (meets k).cancelled_before ≡ false) (sym there) before,
            subst (λ k. verified threshold (meets k) ≡ true) (sym there) good,
          )

  Verifies-verify_from :
      (threshold : fl.F) (meets : ℕ → Attempt) (i left n : ℕ)
      → n < left
      → Waited threshold meets i n
      → (meets (i + n)).cancelled_before ≡ false
      → verified threshold (meets (i + n)) ≡ true
      → verify_from threshold meets i left ≡ none
  unfolding verify_from Waited
  Verifies-verify_from threshold meets i zero n less waited before good = ground arith
  Verifies-verify_from threshold meets i (suc left) zero less waited before good =
      let here : i + 0 ≡ i = omega arith in
      let now_before : (meets i).cancelled_before ≡ false =
        subst (λ k. (meets k).cancelled_before ≡ false) here before in
      let now_good : verified threshold (meets i) ≡ true =
        subst (λ k. verified threshold (meets k) ≡ true) here good in
      ground arith
  Verifies-verify_from threshold meets i (suc left) (suc n) less (a, b, c, waited) before good =
      let there : i + suc n ≡ suc i + n = omega arith in
      let rest : verify_from threshold meets (suc i) left ≡ none =
        Verifies-verify_from threshold meets (suc i) left n (omega arith) waited
          (subst (λ k. (meets k).cancelled_before ≡ false) there before)
          (subst (λ k. verified threshold (meets k) ≡ true) there good) in
      ground arith

  -- A verification succeeds exactly when one of the attempts allowed, three where the number given is
  -- not positive, meets a health that is enough, and the context is not done before.
  pub verify_rollback-Verifies :
      (threshold : fl.F) (meets : ℕ → Attempt) (max_attempts : ℤ)
      → (verify_rollback threshold meets max_attempts ≡ none)
        ↔ Verifies threshold meets 0
            (if leb_ℤ max_attempts (pos 0) then 3 else pos_part max_attempts)
  unfolding verify_rollback Verifies
  verify_rollback-Verifies threshold meets max_attempts =
      let allowed : ℕ = if leb_ℤ max_attempts (pos 0) then 3 else pos_part max_attempts in
      (
        verify_from-Verifies threshold meets 0 allowed,
        λ v. Verifies-verify_from threshold meets 0 allowed v.0 v.1 v.2 v.3 v.4,
      )
