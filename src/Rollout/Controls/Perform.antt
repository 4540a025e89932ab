-- ===== src/Rollout/Controls/Perform.antt =====
-- internal/rollout/rollout_service.go: the six controls, all branches.
use deploy_sentry.Base.{
  if◌then◌else◌, Bool-cases, ◌==◌, nat_eq, string_eq, ℕ, String, ◌≡◌, refl, sym, ap, subst, ◌∙◌,
  ◌≢◌, ◌⊎◌, inl, inr, Bool, true, false, ◌||◌, Option, none, some, ◌∷◌, arith, eq_iff,
}
use mathlib.Core.Option
use deploy_sentry.Rollout.Floats.{Floats}
use deploy_sentry.Rollout.Model.{
  Rollout, RolloutStatus, EventType, is_active, is_paused, is_awaiting_approval,
}
use deploy_sentry.Rollout.Controls.Repository.{RolloutRepo, IsLawful, status_columns}
use deploy_sentry.Rollout.Controls.{
  ControlError, World, Answer, transition, Op, pause, resume, promote, force_promote, approve,
  rollback, perform, revert,
}
use deploy_sentry.Rollout.Controls.Moves.{
  event, NeedsReason, Refuses, Moves, allowed, event_of, target_of, reason_of, allowed_lem,
  transition_lem, Shifts,
}

by_test :
    {A : Type 0} {x a : A} (b : Bool) (P : A → Type 0)
    → P x
    → (b ≡ false → P a)
    → P (if b then x else a)
by_test true P p q = p
by_test false P p q = q refl

by_row :
    {A B : Type 0} {x : B} {f : A → B} (o : Option A) (P : B → Type 0)
    → P x
    → ((a : A) → P (f a))
    → P (elim o [ none ↦ x | some a ↦ f a ])
by_row none P p q = p
by_row (some a) P p q = q a

module _ (fl : Floats) (R : RolloutRepo fl.F) where
  open fl use {F}

  abbrev pub Performs : Op → ℕ → ℕ → String → World fl R → Answer fl R → Type 0
  Performs op id actor reason w a =
      ((a.0 ≡ none) ⊎ (a.0 ≡ some ControlError.revert_failed))
      × NeedsReason op reason
      × Moves fl R op id actor reason w a.1

  -- A control that is a transition alone.
  plain :
      (op : Op) (f : RolloutStatus → Bool) (id actor : ℕ) (reason : String) (w : World fl R)
      → ((st : RolloutStatus) → f st ≡ allowed op st)
      → NeedsReason op reason
      → let a = transition fl R id actor reason (event_of op) (target_of op) f false w in
        Refuses fl R w a ⊎ Performs op id actor reason w a
  plain op f id actor reason w h n = elim (allowed_lem fl R op f actor id reason w h) [
    | inl r ↦ inl r
    | inr (e, m) ↦ inr (inl e, n, m)
  ]

  pause_iff : (st : RolloutStatus) → is_active st ≡ allowed pause st
  unfolding is_active
  pause_iff st = ground arith

  resume_iff : (st : RolloutStatus) → is_paused st ≡ allowed resume st
  unfolding is_paused
  resume_iff st = ground arith

  promote_iff : (st : RolloutStatus) → is_active st || is_paused st ≡ allowed promote st
  unfolding is_active is_paused
  promote_iff st = ground arith

  open_iff :
      (st : RolloutStatus)
      → is_active st || is_paused st || is_awaiting_approval st ≡ allowed rollback st
  unfolding is_active is_paused is_awaiting_approval
  open_iff st = ground arith

  approve_iff : (st : RolloutStatus) → is_awaiting_approval st ≡ allowed approve st
  unfolding is_awaiting_approval
  approve_iff st = ground arith

  revert-Performs :
      (applicator : Option (Rollout F → Bool)) (ro : Rollout F) (id actor : ℕ) (reason : String)
      (w : World fl R) (a : Answer fl R)
      → reason ≢ ""
      → Refuses fl R w a ⊎ ((a.0 ≡ none) × Moves fl R rollback id actor reason w a.1)
      → Refuses fl R w (revert fl R applicator ro a)
        ⊎ Performs rollback id actor reason w (revert fl R applicator ro a)
  unfolding revert
  revert-Performs applicator ro id actor reason w (some x, w') n (inl (e, q)) = inl (e, q)
  revert-Performs applicator ro id actor reason w (none, w') n (inl (e, q)) = absurd (ground arith)
  revert-Performs applicator ro id actor reason w (some x, w') n (inr (q, m)) =
      absurd (ground arith)
  revert-Performs none ro id actor reason w (none, w') n (inr (q, m)) = inr (inl refl, n, m)
  revert-Performs (some succeeds) ro id actor reason w (none, w') n (inr (q, m)) =
      inr (ground arith, n, m)

  forced :
      (id actor : ℕ) (reason : String) (w : World fl R)
      → reason ≢ ""
      → let a =
          transition fl R id actor reason EventType.rollback_triggered RolloutStatus.rolled_back
            (λ cur. is_active cur || is_paused cur || is_awaiting_approval cur)
            true
            w in
        Refuses fl R w a ⊎ ((a.0 ≡ none) × Moves fl R rollback id actor reason w a.1)
  forced id actor reason w n =
      let open_status : RolloutStatus → Bool =
        λ cur. is_active cur || is_paused cur || is_awaiting_approval cur in
      let a =
        transition fl R id actor reason EventType.rollback_triggered RolloutStatus.rolled_back
          open_status true w in
      let given : some reason ≡ reason_of reason = ground (arith, n, eq_iff reason "") in
      elim (transition_lem fl R id actor reason EventType.rollback_triggered
        RolloutStatus.rolled_back open_status true w) [
          | inl r ↦ inl r
          | inr (e, (ro, got, ok, written, logged)) ↦ inr (
            e,
            subst
                (λ kept.
                  Shifts fl R (allowed rollback) id actor EventType.rollback_triggered
                    RolloutStatus.rolled_back kept w a.1)
                given (ro, got, sym (open_iff ro.status) ∙ ok, written, logged),
          )
        ]

  perform_lem :
      (applicator : Option (Rollout F → Bool)) (op : Op) (id actor : ℕ) (reason : String)
      (w : World fl R)
      → let a = perform fl R applicator op id actor reason w in
        Refuses fl R w a ⊎ Performs op id actor reason w a
  unfolding perform
  perform_lem applicator pause id actor reason w =
      plain pause is_active id actor reason w pause_iff tt
  perform_lem applicator resume id actor reason w =
      plain resume is_paused id actor reason w resume_iff tt
  perform_lem applicator promote id actor reason w =
      plain promote (λ cur. is_active cur || is_paused cur) id actor reason w promote_iff tt
  perform_lem applicator force_promote id actor reason w =
      by_test (reason == "") (λ a. Refuses fl R w a ⊎ Performs force_promote id actor reason w a)
        (inl (ControlError.reason_required, refl))
        (λ f.
          plain force_promote (λ cur. is_active cur || is_paused cur || is_awaiting_approval cur) id
            actor reason w open_iff (ground (arith, f, eq_iff reason "")))
  perform_lem applicator approve id actor reason w =
      plain approve is_awaiting_approval id actor reason w approve_iff tt
  perform_lem applicator rollback id actor reason w =
      by_test (reason == "") (λ a. Refuses fl R w a ⊎ Performs rollback id actor reason w a)
        (inl (ControlError.reason_required, refl))
        (λ f.
          by_row (R.get w.db id) (λ a. Refuses fl R w a ⊎ Performs rollback id actor reason w a)
            (inl (ControlError.get_failed, refl))
            (λ ro.
              revert-Performs applicator ro id actor reason w
                (transition fl R id actor reason EventType.rollback_triggered
                  RolloutStatus.rolled_back
                  (λ cur. is_active cur || is_paused cur || is_awaiting_approval cur) true w)
                (ground (arith, f, eq_iff reason ""))
                (forced id actor reason w (ground (arith, f, eq_iff reason "")))))

  row_lem :
      (s : R.Db) (i j : ℕ) (ro : Rollout F) (f : Rollout F → Rollout F)
      → R.get s i ≡ some ro
      → (if j == i then Option.map f (R.get s j) else R.get s j)
        ≡ (if j == i then some (f ro) else R.get s j)
  row_lem s i j ro f got = elim (Bool-cases (j == i)) [
    | inl t ↦ rw (t) (ap (Option.map f) (ap (R.get s) ((nat_eq.equal_iff j i).0 t) ∙ got))
    | inr n ↦ rw (n)
  ]

  -- The store after a control: the row has the new status, and the reason where there is one; the
  -- other rows are as before.
  abbrev pub RowsAfter : Op → ℕ → String → Rollout F → R.Db → R.Db → Type 0
  RowsAfter op id reason ro s s' =
      (j : ℕ)
      → R.get s' j ≡ (
          if j == id then some (status_columns (target_of op) (reason_of reason) ro) else R.get s j)

  -- A control that is refused, on every branch, leaves everything as it was. One that is not, whose
  -- revert may still fail, is given a reason where it needs one, found the rollout in a status from
  -- which the control is allowed, gave it the status where the control leads, changed no other row,
  -- and recorded one event.
  pub perform_moves :
      (law : IsLawful F R) (applicator : Option (Rollout F → Bool)) (op : Op) (id actor : ℕ)
      (reason : String) (w : World fl R)
      → let a = perform fl R applicator op id actor reason w in
        ((e : ControlError) × (a ≡ (some e, w)))
        ⊎ (((a.0 ≡ none) ⊎ (a.0 ≡ some ControlError.revert_failed))
            × NeedsReason op reason
            × ((ro : Rollout F) × (R.get w.db id ≡ some ro)
                × (allowed op ro.status ≡ true)
                × RowsAfter op id reason ro w.db a.1.db
                × (a.1.events ≡ event fl R id actor (event_of op) (reason_of reason) ∷ w.events)))
  perform_moves law applicator op id actor reason w =
      elim (perform_lem applicator op id actor reason w) [
        | inl r ↦ inl r
        | inr (e, n, (ro, got, ok, written, logged)) ↦ inr (
          e,
          n,
          (
            ro,
            got,
            ok,
            (λ j.
                law.get-update_status w.db _ id (target_of op) (reason_of reason) j written
                ∙ row_lem w.db id j ro (status_columns (target_of op) (reason_of reason)) got),
            logged,
          ),
        )
      ]
