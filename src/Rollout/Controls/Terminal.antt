-- ===== src/Rollout/Controls/Terminal.antt =====
-- internal/rollout/rollout_service.go: a rollout that has ended, under any sequence of controls.
use deploy_sentry.Base.{
  Bool-cases, ◌==◌, nat_eq, string_eq, ℕ, String, ◌≡◌, sym, ap, ◌∙◌, inl, inr, Bool, true, false,
  Option, some, List, [], ◌∷◌, arith,
}
use deploy_sentry.Rollout.Floats.{Floats}
use deploy_sentry.Rollout.Model.{Rollout, RolloutStatus, is_terminal, is_terminal_status}
use deploy_sentry.Rollout.Controls.Repository.{RolloutRepo, IsLawful}
use deploy_sentry.Rollout.Controls.{World, Op, perform}
use deploy_sentry.Rollout.Controls.Moves.{allowed}
use deploy_sentry.Rollout.Controls.Perform.{perform_moves}

pub record Request : Type 0 where
  pub op : Op
  pub id : ℕ
  pub actor : ℕ
  pub reason : String

terminal_not_allowed :
    (op : Op) (st : RolloutStatus) → is_terminal_status st ≡ true → allowed op st ≡ false
unfolding is_terminal_status
terminal_not_allowed op st t = ground arith

allowed_terminal :
    {F : Type 0} (op : Op) (row ro : Rollout F)
    → allowed op row.status ≡ true
    → row ≡ ro
    → is_terminal ro ≡ true
    → ⊥
unfolding is_terminal
allowed_terminal op row ro ok e t =
    ground (arith, terminal_not_allowed op row.status (ap is_terminal e ∙ t))

some_injective : {F : Type 0} {a b : F} → some a ≡ some b → a ≡ b
some_injective e = ground (arith, e)

module _ (fl : Floats) (R : RolloutRepo fl.F) where
  open fl use {F}

  -- Requests in order, answers dropped.
  unfoldable pub run : Option (Rollout F → Bool) → List Request → World fl R → World fl R
  run applicator [] w = w
  run applicator (r ∷ rs) w =
      run applicator rs (perform fl R applicator r.op r.id r.actor r.reason w).1

  module _ (law : IsLawful F R) where
    perform_keeps :
        (applicator : Option (Rollout F → Bool)) (r : Request) (w : World fl R) (i : ℕ)
        (ro : Rollout F)
        → is_terminal ro ≡ true
        → R.get w.db i ≡ some ro
        → R.get (perform fl R applicator r.op r.id r.actor r.reason w).1.db i ≡ some ro
    unfolding is_terminal
    perform_keeps applicator r w i ro t got =
        elim (perform_moves fl R law applicator r.op r.id r.actor r.reason w) [
          | inl (e, q) ↦ ap (λ a. R.get a.1.db i) q ∙ got
          | inr (e, n, (row, got', ok, rows, logged)) ↦ elim (Bool-cases (i == r.id)) [
            | inl s ↦ absurd (
                allowed_terminal r.op row ro ok
                  (some_injective
                    (sym got' ∙ ap (R.get w.db) (sym ((nat_eq.equal_iff i r.id).0 s)) ∙ got))
                  t)
            | inr f ↦ rows i ∙ rw (f) got
          ]
        ]

    -- No sequence of controls changes a rollout that is succeeded, rolled back, aborted or superseded:
    -- its row stays as it is, whatever is asked for it and for others.
    pub run_keeps_terminal :
        (applicator : Option (Rollout F → Bool)) (rs : List Request) (w : World fl R) (i : ℕ)
        (ro : Rollout F)
        → is_terminal ro ≡ true
        → R.get w.db i ≡ some ro
        → R.get (run applicator rs w).db i ≡ some ro
    unfolding run
    run_keeps_terminal applicator [] w i ro t got = got
    run_keeps_terminal applicator (r ∷ rs) w i ro t got =
        run_keeps_terminal applicator rs (perform fl R applicator r.op r.id r.actor r.reason w).1 i
          ro t (perform_keeps applicator r w i ro t got)
