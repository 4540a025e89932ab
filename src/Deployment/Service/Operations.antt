-- ===== src/Deployment/Service/Operations.antt =====
-- internal/deploy/service.go: each operation, and any sequence of them, keeps the invariant of every
-- stored deployment.
use deploy_sentry.Base.{
  Bool-cases, ◌&&◌, ◌⊎◌, ◌∙◌, [], ◌∷◌, List, if◌then◌else◌, Option-cases, ◌==◌, nat_eq, string_eq,
  ℕ, ◌≤◌, ◌≡◌, refl, sym, subst, inl, inr, Bool, true, false, Option, some, arith,
}
use deploy_sentry.Base.Int.{ℤ, pos}
use deploy_sentry.Deployment.Service.Repository.{DeployRepo, IsLawful, insert_columns}
use deploy_sentry.Deployment.Service.Store.{
  created-Inv, created-Sound, create_Good, update_Good, save-Good, Good-mono, Rules, Inv-Rules,
  Sound-Rules, Sound, is_timely, Good, move-Good,
}
use deploy_sentry.Deployment.Service.{
  validate, link_previous, prepare, set_traffic_percent, cancelled, cancel, only_paused, resume,
  paused, only_running, running, pause, rolled_back, rollback, promote, cancel_deployment,
  resume_deployment, promoting, pause_deployment, validate_transition, with_deployment,
  rollback_deployment, create_deployment, set_traffic, promote_deployment, Deployment, World,
  Request, create, serve, ServiceError,
}
use deploy_sentry.Deployment.Status.{status_eq}
use deploy_sentry.Deployment.Lifecycle.{Inv}

-- What a create stores has the property, whatever deployment it is linked to.
abbrev pub Makes : (Deployment → Type 0) → ℕ → ℕ → Request → Type 0
Makes P now stored (create fresh d) =
    (prev : Option Deployment)
    → P (insert_columns stored (link_previous prev (prepare now fresh d)))
Makes P now stored _ = Unit

module _ (P : Deployment → Type 0) (rules : Rules P) (R : DeployRepo) (law : IsLawful R)
    (clock now stored : ℕ) (w : World R) (g : Good P R clock w.db) (h : clock ≤ now)
    (k : now ≤ stored) where
  unchanged : Good P R stored w.db
  unchanged = Good-mono P R clock stored w.db (omega arith) g

  with_Good :
      (i : ℕ) (rest : Deployment → World R × Option ServiceError)
      → ((row : Deployment) → R.get_deployment w.db i ≡ some row → Good P R stored (rest row).0.db)
      → Good P R stored (with_deployment R w i rest).0.db
  with_Good i rest good = elim (Option-cases (R.get_deployment w.db i)) [
    | inl e ↦ rw (e, with_deployment) unchanged
    | inr (row, e) ↦ rw (e, with_deployment) (good row e)
  ]

  guard_Good :
      (ok : Bool) (e : ServiceError) (o : World R × Option ServiceError)
      → Good P R stored o.0.db
      → Good P R stored (if ok then o else (w, some e)).0.db
  guard_Good true e o good = good
  guard_Good false e o good = unchanged

  promote_Good : (i : ℕ) → Good P R stored (promote_deployment R now stored i w).0.db
  unfolding promote_deployment
  promote_Good i = with_Good i _ λ row e.
      elim (Option-cases (validate_transition row.status promoting)) [
        | inl ok ↦ rw ok (
            save-Good P R rules law clock stored i "deployment.promoted" w
              (record row { status = promoting; traffic_percent = pos 100; updated_at = now }) row g
              (omega arith) e (law.get_id w.db i row e) refl
              (rules.promotes now row (g i row e).0 (omega (arith, (g i row e).1)) ok) k)
        | inr (x, bad) ↦ rw bad unchanged
      ]

  traffic_Good : (i : ℕ) (p : ℤ) → Good P R stored (set_traffic R now stored i p w).0.db
  unfolding set_traffic
  traffic_Good i p = with_Good i _ λ row e.
      let scaled : Deployment = record row { traffic_percent = p; updated_at = now } in
      elim (Option-cases (R.update_deployment stored w.db scaled)) [
        | inl f ↦ rw f unchanged
        | inr (s', f) ↦ rw f (
            update_Good P R rules law clock stored w.db s' scaled row g (omega arith)
              (subst (λ j. R.get_deployment w.db j ≡ some row) (sym (law.get_id w.db i row e)) e)
              refl (rules.scales now row p (g i row e).0 (omega (arith, (g i row e).1))) k f)
      ]

  created_Good :
      (fresh : ℕ) (d : Deployment)
      → Makes P now stored (create fresh d)
      → Good P R stored (create_deployment R now stored fresh d w).0.db
  unfolding create_deployment
  created_Good fresh d a = elim (Option-cases (validate (prepare now fresh d))) [
    | inl ok ↦ elim (Option-cases (R.create_deployment stored w.db linked)) [
      | inl f ↦ rw (ok, f, create_deployment) unchanged
      | inr (s', f) ↦
          rw (ok, f, create_deployment)
            (create_Good P R law clock stored w.db s' linked g (omega arith) (a previous) f)
    ]
    | inr (x, bad) ↦ rw (bad, create_deployment) unchanged
  ]
    where
      previous : Option Deployment
      previous =
          R.latest_completed w.db (prepare now fresh d).application_id
            (prepare now fresh d).environment_id

      linked : Deployment
      linked = link_previous previous (prepare now fresh d)

  -- An operation, refused or not, keeps the property of every stored deployment.
  pub serve-Good :
      (q : Request) → Makes P now stored q → Good P R stored (serve R now stored q w).0.db
  unfolding serve rollback_deployment pause_deployment resume_deployment cancel_deployment
  serve-Good (promote i) a = promote_Good i
  serve-Good (rollback i) a = with_Good i _ λ row e.
      move-Good P R rules law clock now stored i rolled_back "deployment.rolled_back" w row g h k e
  serve-Good (pause i) a = with_Good i _ λ row e.
      guard_Good (row.status == running) only_running _
        (move-Good P R rules law clock now stored i paused "deployment.paused" w row g h k e)
  serve-Good (resume i) a = with_Good i _ λ row e.
      guard_Good (row.status == paused) only_paused _
        (move-Good P R rules law clock now stored i running "deployment.resumed" w row g h k e)
  serve-Good (cancel i) a = with_Good i _ λ row e.
      move-Good P R rules law clock now stored i cancelled "deployment.cancelled" w row g h k e
  serve-Good (set_traffic_percent i p) a = traffic_Good i p
  serve-Good (create fresh d) a = created_Good fresh d a

-- No create carries a start time from the future, nor a completion time from the future or, outside
-- the mode that records a deployment, any.
abbrev pub all_timely : List (ℕ × ℕ × Request) → Bool
all_timely [] = true
all_timely ((now, stored, create fresh d) ∷ rest) = is_timely now d && all_timely rest
all_timely ((now, stored, q) ∷ rest) = all_timely rest

-- The clock does not run backwards.
abbrev pub Ordered : ℕ → List (ℕ × ℕ × Request) → Type 0
Ordered clock [] = Unit
Ordered clock ((now, stored, q) ∷ rest) = (clock ≤ now) × (now ≤ stored) × Ordered stored rest

abbrev AllMake : (Deployment → Type 0) → List (ℕ × ℕ × Request) → Type 0
AllMake P [] = Unit
AllMake P ((now, stored, q) ∷ rest) = Makes P now stored q × AllMake P rest

Sound-AllMake : (requests : List (ℕ × ℕ × Request)) → AllMake Sound requests
Sound-AllMake [] = tt
Sound-AllMake ((now, stored, create fresh d) ∷ rest) =
    (λ prev. created-Sound now stored fresh d prev, Sound-AllMake rest)
Sound-AllMake ((now, stored, q) ∷ rest) = (tt, Sound-AllMake rest)

Inv-AllMake :
    (clock : ℕ) (requests : List (ℕ × ℕ × Request))
    → Ordered clock requests
    → all_timely requests ≡ true
    → AllMake Inv requests
Inv-AllMake clock [] o t = tt
Inv-AllMake clock ((now, stored, create fresh d) ∷ rest) o t = (
  λ prev. created-Inv now stored fresh d prev (ground arith) o.1,
  Inv-AllMake stored rest o.2 (ground arith),
)
Inv-AllMake clock ((now, stored, q) ∷ rest) o t = (tt, Inv-AllMake stored rest o.2 (ground arith))

module _ (R : DeployRepo) where
  -- Each request comes with the two clock readings of its operation.
  unfoldable pub run : World R → List (ℕ × ℕ × Request) → World R
  run w [] = w
  run w ((now, stored, q) ∷ rest) = run (serve R now stored q w).0 rest

  run-Good :
      (P : Deployment → Type 0) (rules : Rules P) (law : IsLawful R) (clock : ℕ) (w : World R)
      (requests : List (ℕ × ℕ × Request))
      → Good P R clock w.db
      → Ordered clock requests
      → AllMake P requests
      → (i : ℕ) (d : Deployment) → R.get_deployment (run w requests).db i ≡ some d
      → P d
  unfolding run
  run-Good P rules law clock w [] g o m i d e = (g i d e).0
  run-Good P rules law clock w ((now, stored, q) ∷ rest) g o m i d e =
      run-Good P rules law stored (serve R now stored q w).0 rest
        (serve-Good P rules R law clock now stored w g o.0 o.1 q m.0) o.2 m.1 i d e

  -- After any requests at any times of a clock that does not run backwards, served or refused, from a
  -- store that satisfies the lifecycle invariant and is not newer than the clock: every stored
  -- deployment has a status that the program declares, a completion time in a terminal status, a start
  -- time once begun, and an update not before its creation. And unless a create carries a start time
  -- from the future, or a completion time that is from the future or outside the mode that records a
  -- deployment, it satisfies the lifecycle invariant: a completion time exactly in a terminal status,
  -- and times in order.
  pub run-Inv :
      IsLawful R
      → (clock : ℕ) (w : World R) (requests : List (ℕ × ℕ × Request)) → Good Inv R clock w.db
      → Ordered clock requests
      → (i : ℕ) (d : Deployment) → R.get_deployment (run w requests).db i ≡ some d
      → Sound d × ((all_timely requests ≡ false) ⊎ Inv d)
  run-Inv law clock w requests g o i d e = (
    run-Good Sound Sound-Rules law clock w requests (λ j x f. (weaker x (g j x f).0, (g j x f).1)) o
        (Sound-AllMake requests) i d e,
    elim (Bool-cases (all_timely requests)) [
      | inl t ↦
          inr
            (run-Good Inv Inv-Rules law clock w requests g o (Inv-AllMake clock requests o t) i d e)
      | inr f ↦ inl f
    ],
  )
    where
      weaker : (x : Deployment) → Inv x → Sound x
      weaker x v = record {
        known = v.known;
        terminal_completed = λ t. v.completed_iff ∙ t;
        begun_started = v.begun_started;
        created_first = v.created_first;
      }
