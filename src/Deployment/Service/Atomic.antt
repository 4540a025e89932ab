-- ===== src/Deployment/Service/Atomic.antt =====
-- internal/deploy/service.go: what an operation does to the store and to the messages, on success
-- and on every error.
use deploy_sentry.Base.{
  ap, sym, ◌∙◌, subst, refl, ◌∷◌, ◌≢◌, inr, inl, Option-cases, ◌==◌, if◌then◌else◌, none, String,
  Option, nat_eq, string_eq, ℕ, ◌≡◌, some, arith,
}
use deploy_sentry.Deployment.Status.{DeployStatus, status_eq}
use deploy_sentry.Deployment.{
  validate_transition, pos, cancelled, running, paused, rolled_back, promoting, Deployment,
  transition_to,
}
use deploy_sentry.Deployment.Service.Repository.{save_columns, IsLawful, DeployRepo}
use deploy_sentry.Deployment.Service.{
  promote_deployment, move, set_traffic_percent, cancel, resume, pause, rollback, promote, save,
  World, Request, create, serve, ServiceError,
}
use Prim.Native.String.{◌++◌ as ◌<>◌}
use deploy_sentry.Deployment.Graph.{accepted-⟶, transition_to_iff, ◌⟶◌}

transition_id : (now : ℕ) (d : Deployment) (t : DeployStatus) → (transition_to now d t).0.id ≡ d.id
unfolding transition_to
transition_id now d t = ground arith

module _ (R : DeployRepo) where
  -- An operation that returns an error has changed nothing and sent nothing.
  pub serve_failed :
      (now stored : ℕ) (q : Request) (w : World R) {e : ServiceError}
      → (serve R now stored q w).1 ≡ some e
      → (serve R now stored q w).0 ≡ w
  unfolding serve transition_to
  serve_failed now stored (create fresh d) w h = ground arith
  serve_failed now stored q w h = ground arith

  -- What the store holds after a `save` that succeeds.
  save_lem :
      IsLawful R
      → (stored : ℕ) (subject : String) (w : World R) (d row : Deployment) (j : ℕ)
      → R.get_deployment w.db d.id ≡ some row
      → (save R stored subject w d).1 ≡ none
      → R.get_deployment (save R stored subject w d).0.db j
        ≡ (if j == d.id then some (save_columns stored row d) else R.get_deployment w.db j)
  unfolding save
  save_lem law stored subject w d row j found ok =
      elim (Option-cases (R.update_deployment stored w.db d)) [
        | inl e ↦ ground arith
        | inr (s', e) ↦ ground (arith, law.get-update stored w.db s' d row j)
      ]

  -- The deployment that a request names, and the status that it asks for.
  abbrev pub named : Request → ℕ
  named (promote i) = i
  named (rollback i) = i
  named (pause i) = i
  named (resume i) = i
  named (cancel i) = i
  named (set_traffic_percent i p) = i
  named (create i d) = i

  abbrev pub asks : Request → Option DeployStatus
  asks (promote i) = some promoting
  asks (rollback i) = some rolled_back
  asks (pause i) = some paused
  asks (resume i) = some running
  asks (cancel i) = some cancelled
  asks (set_traffic_percent i p) = none
  asks (create i d) = none

  -- The deployment `i` has the status `t` afterwards, no other changed, and one message was sent.
  abbrev pub Moves : ℕ → DeployStatus → World R → World R → Type 0
  Moves i t w w' =
      ((row : Deployment) × (R.get_deployment w'.db i ≡ some row) × (row.status ≡ t))
      × ((j : ℕ) → j ≢ i → R.get_deployment w'.db j ≡ R.get_deployment w.db j)
      × ((subject : String) × (w'.published ≡ (subject, i) ∷ w.published))

  save-Moves :
      IsLawful R
      → (stored i : ℕ) (subject : String) (w : World R) (d row : Deployment)
      → R.get_deployment w.db i ≡ some row
      → d.id ≡ i
      → (save R stored subject w d).1 ≡ none
      → Moves i d.status w (save R stored subject w d).0
  unfolding save save_columns
  save-Moves law stored i subject w d row found same ok = (
    (
      save_columns stored row d,
      ground (arith, save_lem law stored subject w d row i (rw same found) ok),
      refl,
    ),
    λ j ne. ground (arith, save_lem law stored subject w d row j (rw same found) ok),
    ("deployments." <> subject, ground arith),
  )

  move-Moves :
      IsLawful R
      → (now stored i : ℕ) (t : DeployStatus) (subject : String) (w : World R) (d : Deployment)
      → R.get_deployment w.db i ≡ some d
      → (move R now stored t subject w d).1 ≡ none
      → (d.status ⟶ t) × Moves i t w (move R now stored t subject w d).0
  move-Moves law now stored i t subject w d found ok =
      elim (Option-cases (transition_to now d t).1) [
        | inl e ↦ ((transition_to_iff now d t).0.0 e, sent e (ground arith))
        | inr (x, e) ↦ absurd (ground arith)
      ]
    where
      sent :
          (transition_to now d t).1 ≡ none
          → move R now stored t subject w d ≡ save R stored subject w (transition_to now d t).0
          → Moves i t w (move R now stored t subject w d).0
      sent e q =
          subst (λ u. Moves i u w (move R now stored t subject w d).0)
            (ap (λ r. r.status) ((transition_to_iff now d t).1 e))
            (subst (λ r. Moves i (transition_to now d t).0.status w r.0) (sym q)
              (save-Moves law stored i subject w (transition_to now d t).0 d found
                (transition_id now d t ∙ law.get_id w.db i d found) (rw q at ok)))

  promote_Moves :
      IsLawful R
      → (now stored i : ℕ) (w : World R) (row : Deployment) → R.get_deployment w.db i ≡ some row
      → (promote_deployment R now stored i w).1 ≡ none
      → (row.status ⟶ promoting) × Moves i promoting w (promote_deployment R now stored i w).0
  unfolding promote_deployment
  promote_Moves law now stored i w row found ok =
      elim (Option-cases (validate_transition row.status promoting)) [
        | inl e ↦ (accepted-⟶ row.status promoting e, sent (ground arith))
        | inr (x, e) ↦ absurd (ground arith)
      ]
    where
      promoted : Deployment
      promoted = record row { status = promoting; traffic_percent = pos 100; updated_at = now }

      sent :
          promote_deployment R now stored i w ≡ save R stored "deployment.promoted" w promoted
          → Moves i promoting w (promote_deployment R now stored i w).0
      sent q =
          subst (λ r. Moves i promoting w r.0) (sym q)
            (save-Moves law stored i "deployment.promoted" w promoted row found
              (law.get_id w.db i row found) (rw q at ok))

  as_move :
      IsLawful R
      → (now stored i : ℕ) (t t' : DeployStatus) (subject : String) (w : World R) (row : Deployment)
        (o : World R × Option ServiceError)
      → t' ≡ t
      → R.get_deployment w.db i ≡ some row
      → o ≡ move R now stored t' subject w row
      → o.1 ≡ none
      → (row.status ⟶ t) × Moves i t w o.0
  as_move law now stored i t t' subject w row o p found q ok =
      subst (λ u. (row.status ⟶ u) × Moves i u w o.0) p
        (subst (λ r. (row.status ⟶ t') × Moves i t' w r.0) (sym q)
          (move-Moves law now stored i t' subject w row found (rw q at ok)))

  -- A request to move a stored deployment succeeds only along an edge of the status diagram; it
  -- leaves the deployment in the status asked for, every other deployment as it was, and sends one
  -- message, about that deployment.
  pub serve-Moves :
      IsLawful R
      → (now stored : ℕ) (t : DeployStatus) (q : Request) (w : World R) (row : Deployment)
      → asks q ≡ some t
      → R.get_deployment w.db (named q) ≡ some row
      → (serve R now stored q w).1 ≡ none
      → (row.status ⟶ t) × Moves (named q) t w (serve R now stored q w).0
  unfolding serve
  serve-Moves law now stored t (promote i) w row asked found ok =
      subst (λ u. (row.status ⟶ u) × Moves i u w (promote_deployment R now stored i w).0)
        (ground arith) (promote_Moves law now stored i w row found ok)
  serve-Moves law now stored t (rollback i) w row asked found ok =
      as_move law now stored i t rolled_back "deployment.rolled_back" w row _ (ground arith) found
        (ground arith) ok
  serve-Moves law now stored t (pause i) w row asked found ok =
      as_move law now stored i t paused "deployment.paused" w row _ (ground arith) found
        (ground arith) ok
  serve-Moves law now stored t (resume i) w row asked found ok =
      as_move law now stored i t running "deployment.resumed" w row _ (ground arith) found
        (ground arith) ok
  serve-Moves law now stored t (cancel i) w row asked found ok =
      as_move law now stored i t cancelled "deployment.cancelled" w row _ (ground arith) found
        (ground arith) ok
  serve-Moves law now stored t (set_traffic_percent i p) w row asked found ok = cc
  serve-Moves law now stored t (create i d) w row asked found ok = cc
