-- ===== src/Rollout/Coordination/Cascade.antt =====
-- internal/rollout/coordination.go: the cascade of a roll-back to the siblings.
use deploy_sentry.Base.{
  Bool-cases, ◌==◌, nat_eq, string_eq, All, ℕ, String, ◌≡◌, refl, sym, ap, subst, ◌∙◌, ◌≢◌, inl,
  inr, Bool, Option, none, some, List, [], ◌∷◌, ◌++◌, arith,
}
use deploy_sentry.Rollout.Floats.{Floats}
use deploy_sentry.Rollout.Model.{Rollout, RolloutStatus}
use deploy_sentry.Rollout.Controls.Repository.{RolloutRepo, IsLawful}
use deploy_sentry.Rollout.Controls.{World, Answer, perform, ControlError, rollback}
use deploy_sentry.Rollout.Controls.Perform.{perform_moves}
use deploy_sentry.Rollout.Coordination.{cascade_abort, coordinate, after_sibling, rollback_failed}

-- None of these rollouts has the identifier.
abbrev pub Without : {F : Type 0} → ℕ → List (Rollout F) → Type 0
Without j = All (λ s. s.id ≢ j)

module _ (fl : Floats) (R : RolloutRepo fl.F) (law : IsLawful fl.F R)
    (applicator : Option (Rollout fl.F → Bool)) (reason : String) where
  open fl use {F}

  -- A roll-back of `id` that succeeds or whose revert fails leaves the other rows, and a pending one.
  abbrev Leaves : ℕ → World fl R → World fl R → Type 0
  Leaves id w w' = (j : ℕ) → id ≢ j → R.get w'.db j ≡ R.get w.db j

  rollback-Leaves :
      (id : ℕ) (w : World fl R) → Leaves id w (perform fl R applicator rollback id 0 reason w).1
  rollback-Leaves id w j n = elim (perform_moves fl R law applicator rollback id 0 reason w) [
    | inl (e, q) ↦ ap (λ a. R.get a.1.db j) q
    | inr (e, g, (ro, got, ok, rows, logged)) ↦ ground (arith, rows j, nat_eq.equal_iff j id)
  ]

  pending_refused :
      (id : ℕ) (w : World fl R) (ro : Rollout F)
      → R.get w.db id ≡ some ro
      → ro.status ≡ RolloutStatus.pending
      → (e : ControlError) × (perform fl R applicator rollback id 0 reason w ≡ (some e, w))
  pending_refused id w ro got p = elim (perform_moves fl R law applicator rollback id 0 reason w) [
    | inl r ↦ r
    | inr (e, g, (row, got', ok, rows, logged)) ↦ absurd (ground (arith, got, got', ok, p))
  ]

  pending_stays :
      (id j : ℕ) (w : World fl R) (ro : Rollout F)
      → R.get w.db j ≡ some ro
      → ro.status ≡ RolloutStatus.pending
      → R.get (perform fl R applicator rollback id 0 reason w).1.db j ≡ some ro
  pending_stays id j w ro got p = elim (Bool-cases (id == j)) [
    | inl t ↦
        subst (λ k. R.get (perform fl R applicator rollback k 0 reason w).1.db j ≡ some ro)
          (sym ((nat_eq.equal_iff id j).0 t))
          (ap (λ a. R.get a.1.db j) (pending_refused j w ro got p).1 ∙ got)
    | inr f ↦ rollback-Leaves id w j (ground (arith, nat_eq.equal_iff id j)) ∙ got
  ]

  -- A cascade that meets a sibling still pending fails there: `Rollback` refuses it. No row is
  -- changed then but those of the siblings listed before it, so that the ones behind it go on.
  pub cascade_stops :
      (before after : List (Rollout F)) (s row : Rollout F) (w : World fl R)
      → R.get w.db s.id ≡ some row
      → row.status ≡ RolloutStatus.pending
      → let r = coordinate fl R applicator cascade_abort reason (before ++ s ∷ after) w in
        (r.0 ≢ none) × ((j : ℕ) → Without j before → R.get r.1.db j ≡ R.get w.db j)
  unfolding coordinate
  cascade_stops [] after s row w got p =
      let (e, q) = pending_refused s.id w row got p in
      rw (q, coordinate) (ground arith, λ j n. refl)
  cascade_stops (b ∷ before) after s row w got p =
      by_answer (λ u g. cascade_stops before after s row u g p)
        (perform fl R applicator rollback b.id 0 reason w) (rollback-Leaves b.id w)
        (pending_stays b.id s.id w row got p)
    where
      by_answer :
          ((u : World fl R)
            → R.get u.db s.id ≡ some row
            → let r = coordinate fl R applicator cascade_abort reason (before ++ s ∷ after) u in
              (r.0 ≢ none) × ((j : ℕ) → Without j before → R.get r.1.db j ≡ R.get u.db j))
          → (a : Answer fl R) → Leaves b.id w a.1
          → R.get a.1.db s.id ≡ some row
          → let r =
              after_sibling fl R
                (rollback_failed b.id)
                a
                (coordinate fl R applicator cascade_abort reason (before ++ s ∷ after)) in
            (r.0 ≢ none) × ((j : ℕ) → Without j (b ∷ before) → R.get r.1.db j ≡ R.get w.db j)
      by_answer ih (some e, w') l g = (ground arith, λ j n. l j n.0)
      by_answer ih (none, w') l g =
          let (fails, kept) = ih w' g in (fails, λ j n. kept j n.1 ∙ l j n.0)
