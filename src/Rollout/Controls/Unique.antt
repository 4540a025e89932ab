-- ===== src/Rollout/Controls/Unique.antt =====
-- internal/rollout/rollout_service.go: at most one open rollout of a deployment.
use deploy_sentry.Base.{
  ◌≢◌, inr, inl, Bool-cases, if◌then◌else◌, ◌==◌, nat_eq, string_eq, ℕ, String, ◌≡◌, refl, sym, ap,
  subst, ◌∙◌, Bool, true, false, Option, none, some, arith,
}
use deploy_sentry.Rollout.Floats.{Floats}
use deploy_sentry.Rollout.Strategy.{Strategy, TargetType}
use deploy_sentry.Rollout.Model.{Rollout}
use deploy_sentry.Rollout.Controls.Repository.{RolloutRepo, Lookup, IsLawful, OpensDeployment}
use deploy_sentry.Rollout.Controls.Moves.{allowed, target_of, reason_of}
use deploy_sentry.Rollout.Controls.Perform.{perform_moves, RowsAfter}
use deploy_sentry.Rollout.Controls.Repository.{is_open, status_columns}
use deploy_sentry.Rollout.Controls.{existing_of, RolloutStatus, Op, perform}
use deploy_sentry.Rollout.Controls.{
  World, attach, attach_deploy, pending_rollout, deploy_ref, announce,
}

some_text : {a b : String} → some a ≡ some b → a ≡ b
some_text e = ground (arith, e)

some_row : {F : Type 0} {a b : Rollout F} → some a ≡ some b → a ≡ b
some_row e = ground (arith, e)

allowed_open : (op : Op) (st : RolloutStatus) → allowed op st ≡ true → is_open st ≡ true
unfolding is_open
allowed_open op st h = ground arith

-- A new status does not change the target.
reopened :
    {F : Type 0} (st : RolloutStatus) (why : Option String) (ro x : Rollout F) (ref : String)
    → is_open ro.status ≡ true
    → status_columns st why ro ≡ x
    → OpensDeployment ref x
    → OpensDeployment ref ro
unfolding status_columns
reopened st why ro x ref o e (t, d, p) =
    (ap (λ r. r.target_type) e ∙ t, ap (λ r. r.target_ref.deployment_id) e ∙ d, o)

module _ (fl : Floats) (R : RolloutRepo fl.F) (law : IsLawful fl.F R) where
  open fl use {F}

  -- Two open rollouts of a deployment are one.
  abbrev pub Single : R.Db → Type 0
  Single s =
      (ref : String) (i j : ℕ) (a b : Rollout F)
      → R.get s i ≡ some a
      → R.get s j ≡ some b
      → OpensDeployment ref a
      → OpensDeployment ref b
      → i ≡ j

  -- At most one open rollout for each deployment.
  pub record OneOpen (s : R.Db) : Type 0 where
    pub single : Single s

  -- The store with a new row of the deployment `ref`, of which there was no open one.
  created_keeps :
      (stored : ℕ) (s s' : R.Db) (ro created : Rollout F) (ref : String)
      → R.create stored s ro ≡ some (created, s')
      → ro.target_ref.deployment_id ≡ some ref
      → R.active_by_deployment s ref ≡ Lookup.no_row
      → Single s
      → Single s'
  created_keeps stored s s' ro created ref made of_ref free one ref' i j a b got_i got_j open_a
        open_b =
      by_ids (i == created.id) (j == created.id) refl refl
    where
      row : (k : ℕ) → R.get s' k ≡ (if k == created.id then some created else R.get s k)
      row k = law.get-create stored s s' ro created k made

      -- The new row is of the deployment `ref`.
      same : OpensDeployment ref' created → ref' ≡ ref
      same o =
          let columns = (law.create_columns stored s s' ro created made).0 in
          let kept : created.target_ref.deployment_id ≡ ro.target_ref.deployment_id =
            ap (λ r. r.target_ref.deployment_id) columns in
          some_text (sym o.1 ∙ kept ∙ of_ref)

      old :
          (k : ℕ) (x : Rollout F)
          → (k == created.id) ≡ false
          → R.get s' k ≡ some x
          → R.get s k ≡ some x
      old k x n g = ground (arith, row k, n, g)

      fresh : (k : ℕ) (x : Rollout F) → (k == created.id) ≡ true → R.get s' k ≡ some x → created ≡ x
      fresh k x t g = some_row (sym (row k ∙ rw (t)) ∙ g)

      taken :
          (k : ℕ) (x : Rollout F)
          → R.get s k ≡ some x
          → OpensDeployment ref' x
          → OpensDeployment ref' created
          → ⊥
      taken k x g o c =
          law.find_deployment s ref k x free g (subst (λ r. OpensDeployment r x) (same c) o)

      by_ids : (x y : Bool) → (i == created.id) ≡ x → (j == created.id) ≡ y → i ≡ j
      by_ids true true p q =
          (nat_eq.equal_iff i created.id).0 p ∙ sym ((nat_eq.equal_iff j created.id).0 q)
      by_ids false false p q = one ref' i j a b (old i a p got_i) (old j b q got_j) open_a open_b
      by_ids true false p q = absurd (
          taken j b (old j b q got_j) open_b
            (subst (OpensDeployment ref') (sym (fresh i a p got_i)) open_a))
      by_ids false true p q = absurd (
          taken i a (old i a p got_i) open_a
            (subst (OpensDeployment ref') (sym (fresh j b q got_j)) open_b))

  attach_keeps :
      (stored : ℕ) (ro : Rollout F) (ref : String) (w : World fl R)
      → ro.target_ref.deployment_id ≡ some ref
      → R.active_by_deployment w.db ref ≡ Lookup.no_row
      → Single w.db
      → Single (attach fl R stored ro w).1.1.db
  unfolding attach announce
  attach_keeps stored ro ref w of_ref free one = by_created (R.create stored w.db ro) refl
    where
      by_created :
          (o : Option (Rollout F × R.Db))
          → R.create stored w.db ro ≡ o
          → Single (attach fl R stored ro w).1.1.db
      by_created none e = subst (λ s. Single s) (ground (arith, e)) one
      by_created (some (created, db)) e =
          subst (λ s. Single s) (ground (arith, e))
            (created_keeps stored w.db db ro created ref e of_ref free one)

  attach_deploy-Single :
      (stored : ℕ) (ref : String) (snapshot : Strategy F) (release_id created_by : Option ℕ)
      (w : World fl R)
      → R.active_by_deployment w.db ref ≢ Lookup.unanswered
      → Single w.db
      → Single (attach_deploy fl R stored ref snapshot release_id created_by w).1.1.db
  unfolding attach_deploy pending_rollout deploy_ref existing_of
  attach_deploy-Single stored ref snapshot release_id created_by w answered one =
      by_found (R.active_by_deployment w.db ref) refl
    where
      new : Rollout F
      new = pending_rollout TargetType.deploy (deploy_ref ref) snapshot release_id created_by

      by_found :
          (o : Lookup F)
          → R.active_by_deployment w.db ref ≡ o
          → Single (attach_deploy fl R stored ref snapshot release_id created_by w).1.1.db
      by_found (Lookup.found existing) e = subst (λ s. Single s) (ground (arith, e)) one
      by_found Lookup.unanswered e = absurd (answered e)
      by_found Lookup.no_row e =
          subst (λ s. Single s) (ground (arith, e)) (attach_keeps stored new ref w refl e one)

  perform-Single :
      (applicator : Option (Rollout F → Bool)) (op : Op) (id actor : ℕ) (reason : String)
      (w : World fl R)
      → Single w.db
      → Single (perform fl R applicator op id actor reason w).1.db
  perform-Single applicator op id actor reason w one =
      elim (perform_moves fl R law applicator op id actor reason w) [
        | inl (e, q) ↦ subst (λ a. Single a.1.db) (sym q) one
        | inr (e, n, (ro, got, ok, rows, logged)) ↦ λ ref i j a b got_i got_j open_a open_b.
            let (a', from_i, open_a') = back ro got ok rows ref i a got_i open_a in
            let (b', from_j, open_b') = back ro got ok rows ref j b got_j open_b in
            one ref i j a' b' from_i from_j open_a' open_b'
      ]
    where
      back :
          (ro : Rollout F)
          → R.get w.db id ≡ some ro
          → allowed op ro.status ≡ true
          → RowsAfter fl R op id reason ro w.db (perform fl R applicator op id actor reason w).1.db
          → (ref : String) (k : ℕ) (x : Rollout F)
          → R.get (perform fl R applicator op id actor reason w).1.db k ≡ some x
          → OpensDeployment ref x
          → (y : Rollout F) × (R.get w.db k ≡ some y) × OpensDeployment ref y
      back ro got ok rows ref k x g o = elim (Bool-cases (k == id)) [
        | inl t ↦ (
          ro,
          ap (R.get w.db) ((nat_eq.equal_iff k id).0 t) ∙ got,
          reopened (target_of op) (reason_of reason) ro x ref (allowed_open op ro.status ok)
              (some_row (sym (rows k ∙ rw (t)) ∙ g)) o,
        )
        | inr f ↦ (x, sym (rows k ∙ rw (f)) ∙ g, o)
      ]

  -- `AttachDeploy` whose look-up of the open rollout does not fail keeps it so that a deployment has
  -- at most one open rollout, whether it attaches one, finds one or fails to create one.
  pub attach_deploy-OneOpen :
      (stored : ℕ) (ref : String) (snapshot : Strategy F) (release_id created_by : Option ℕ)
      (w : World fl R)
      → R.active_by_deployment w.db ref ≢ Lookup.unanswered
      → OneOpen w.db
      → OneOpen (attach_deploy fl R stored ref snapshot release_id created_by w).1.1.db
  attach_deploy-OneOpen stored ref snapshot release_id created_by w answered one = record {
    single = attach_deploy-Single stored ref snapshot release_id created_by w answered one.single;
  }

  -- No control gives a deployment a second open rollout.
  pub perform-OneOpen :
      (applicator : Option (Rollout F → Bool)) (op : Op) (id actor : ℕ) (reason : String)
      (w : World fl R)
      → OneOpen w.db
      → OneOpen (perform fl R applicator op id actor reason w).1.db
  perform-OneOpen applicator op id actor reason w one = record {
    single = perform-Single applicator op id actor reason w one.single;
  }
