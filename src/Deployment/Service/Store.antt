-- ===== src/Deployment/Service/Store.antt =====
-- internal/deploy/service.go: the invariant of every stored deployment, kept by every operation.
use native.Mathlib.Nat.{le_refl}
use deploy_sentry.Base.{
  refl, leb→le, leb, is_some, Bool, true, not, ◌&&◌, Bool-cases, Option-cases, ◌==◌, nat_eq,
  string_eq, ℕ, ◌≤◌, String, ◌≡◌, sym, subst, ◌∙◌, inl, inr, Option, none, some, arith,
}
use deploy_sentry.Base.Int.{ℤ, pos}
use deploy_sentry.Deployment.Lifecycle.{Before, Inv, transition_to-Inv, is_known, begun}
use deploy_sentry.Deployment.Service.Repository.{DeployRepo, IsLawful, save_columns, insert_columns}
use deploy_sentry.Deployment.Service.{
  prepare, transition_to, link_previous, validate_transition, Deployment, World, save, move,
}
use deploy_sentry.Deployment.{DeployMode, DeployStatus, promoting, is_terminal}

-- What holds of a stored deployment whatever times its caller gave it.
pub record Sound (d : Deployment) : Type 0 where
  pub known : is_known d.status ≡ true
  pub terminal_completed : is_terminal d ≡ true → is_some d.completed_at ≡ true
  pub begun_started : begun d.status ≡ true → is_some d.started_at ≡ true
  pub created_first : d.created_at ≤ d.updated_at

-- What every operation but a create keeps.
pub record Rules (P : Deployment → Type 0) : Type 0 where
  pub saved :
      (stored : ℕ) (row d : Deployment)
      → P d
      → d.created_at ≡ row.created_at
      → d.updated_at ≤ stored
      → P (save_columns stored row d)
  pub promotes :
      (now : ℕ) (d : Deployment)
      → P d
      → d.updated_at ≤ now
      → validate_transition d.status promoting ≡ none
      → P (record d { status = promoting; traffic_percent = pos 100; updated_at = now })
  pub scales :
      (now : ℕ) (d : Deployment) (p : ℤ)
      → P d
      → d.updated_at ≤ now
      → P (record d { traffic_percent = p; updated_at = now })
  pub moves :
      (now : ℕ) (d : Deployment) (t : DeployStatus)
      → P d
      → d.updated_at ≤ now
      → P (transition_to now d t).0

save_columns-Inv :
    (stored : ℕ) (row d : Deployment)
    → Inv d
    → d.created_at ≡ row.created_at
    → d.updated_at ≤ stored
    → Inv (save_columns stored row d)
unfolding save_columns is_terminal
save_columns-Inv stored row d v same h = ground arith

promoted-Inv :
    (now : ℕ) (d : Deployment)
    → Inv d
    → d.updated_at ≤ now
    → validate_transition d.status promoting ≡ none
    → Inv (record d { status = promoting; traffic_percent = pos 100; updated_at = now })
unfolding validate_transition is_terminal
promoted-Inv now d v h ok = ground arith

traffic-Inv :
    (now : ℕ) (d : Deployment) (p : ℤ)
    → Inv d
    → d.updated_at ≤ now
    → Inv (record d { traffic_percent = p; updated_at = now })
unfolding is_terminal
traffic-Inv now d p v h = ground arith

pub Inv-Rules : Rules Inv
Inv-Rules = record {
  saved = save_columns-Inv;
  promotes = promoted-Inv;
  scales = traffic-Inv;
  moves = transition_to-Inv;
}

save_columns-Sound :
    (stored : ℕ) (row d : Deployment)
    → Sound d
    → d.created_at ≡ row.created_at
    → d.updated_at ≤ stored
    → Sound (save_columns stored row d)
unfolding save_columns is_terminal
save_columns-Sound stored row d v same h = ground arith

promoted-Sound :
    (now : ℕ) (d : Deployment)
    → Sound d
    → d.updated_at ≤ now
    → validate_transition d.status promoting ≡ none
    → Sound (record d { status = promoting; traffic_percent = pos 100; updated_at = now })
unfolding validate_transition is_terminal
promoted-Sound now d v h ok = ground arith

traffic-Sound :
    (now : ℕ) (d : Deployment) (p : ℤ)
    → Sound d
    → d.updated_at ≤ now
    → Sound (record d { traffic_percent = p; updated_at = now })
unfolding is_terminal
traffic-Sound now d p v h = ground arith

transition_to-Sound :
    (now : ℕ) (d : Deployment) (t : DeployStatus)
    → Sound d
    → d.updated_at ≤ now
    → Sound (transition_to now d t).0
unfolding transition_to validate_transition is_terminal
transition_to-Sound now d t v h = ground arith

pub Sound-Rules : Rules Sound
Sound-Rules = record {
  saved = save_columns-Sound;
  promotes = promoted-Sound;
  scales = traffic-Sound;
  moves = transition_to-Sound;
}

pub created-Sound :
    (now stored fresh : ℕ) (d : Deployment) (prev : Option Deployment)
    → Sound (insert_columns stored (link_previous prev (prepare now fresh d)))
unfolding insert_columns link_previous prepare is_terminal
created-Sound now stored fresh d prev = ground arith

-- A caller's deployment that carries no time from the future, and no completion time unless it
-- records a deployment that has already been made.
abbrev pub not_after : Option ℕ → ℕ → Bool
not_after none now = true
not_after (some t) now = leb t now

abbrev pub may_complete : DeployMode → Option ℕ → ℕ → Bool
may_complete DeployMode.record_mode completed now = not_after completed now
may_complete _ completed now = not (is_some completed)

abbrev pub is_timely : ℕ → Deployment → Bool
is_timely now d = not_after d.started_at now && may_complete d.mode d.completed_at now

not_after-Before : (o : Option ℕ) (now : ℕ) → not_after o now ≡ true → Before o now
not_after-Before none now e = tt
not_after-Before (some t) now e = leb→le t now e

may_complete-Before :
    (mode : DeployMode) (o : Option ℕ) (now : ℕ)
    → may_complete mode o now ≡ true
    → (Before o now) × (is_some o ≡ true → mode ≡ DeployMode.record_mode)
may_complete-Before DeployMode.record_mode o now e = (not_after-Before o now e, λ s. refl)
may_complete-Before mode none now e = (tt, λ s. ground arith)
may_complete-Before mode (some t) now e = ground arith

pub created-Inv :
    (now stored fresh : ℕ) (d : Deployment) (prev : Option Deployment)
    → is_timely now d ≡ true
    → now ≤ stored
    → Inv (insert_columns stored (link_previous prev (prepare now fresh d)))
unfolding insert_columns link_previous prepare is_terminal
created-Inv now stored fresh d prev a h =
    let begins : Before d.started_at now = not_after-Before d.started_at now (ground arith) in
    let ends = may_complete-Before d.mode d.completed_at now (ground arith) in
    ground (arith, ends.1)

pub transition_frame :
    (now : ℕ) (d : Deployment) (t : DeployStatus)
    → ((transition_to now d t).0.id ≡ d.id)
      × ((transition_to now d t).0.created_at ≡ d.created_at)
      × (d.updated_at ≤ now → (transition_to now d t).0.updated_at ≤ now)
unfolding transition_to
transition_frame now d t = (ground arith, ground arith, λ h. ground arith)

module _ (P : Deployment → Type 0) (R : DeployRepo) where
  -- Every row has the property, and was written before the given time.
  abbrev pub Good : ℕ → R.Db → Type 0
  Good clock s =
      (i : ℕ) (d : Deployment) → R.get_deployment s i ≡ some d → P d × (d.updated_at ≤ clock)

  pub Good-mono : (clock later : ℕ) (s : R.Db) → clock ≤ later → Good clock s → Good later s
  Good-mono clock later s h g i d e = ((g i d e).0, omega (arith, (g i d e).1))

  pub update_Good :
      Rules P
      → IsLawful R
      → (clock stored : ℕ) (s s' : R.Db) (d row : Deployment) → Good clock s
      → clock ≤ stored
      → R.get_deployment s d.id ≡ some row
      → d.created_at ≡ row.created_at
      → P d
      → d.updated_at ≤ stored
      → R.update_deployment stored s d ≡ some s'
      → Good stored s'
  unfolding save_columns
  update_Good rules law clock stored s s' d row g h found same v old e i d' e' =
      elim (Bool-cases (i == d.id)) [
        | inl t ↦
            subst (λ r. P r × (r.updated_at ≤ stored))
              (ground (arith, law.get-update stored s s' d row i e found))
              (rules.saved stored row d v same old, le_refl stored)
        | inr f ↦
            Good-mono clock stored s h g i d'
              (ground (arith, law.get-update stored s s' d row i e found))
      ]

  pub create_Good :
      IsLawful R
      → (clock stored : ℕ) (s s' : R.Db) (d : Deployment) → Good clock s
      → clock ≤ stored
      → P (insert_columns stored d)
      → R.create_deployment stored s d ≡ some s'
      → Good stored s'
  unfolding insert_columns
  create_Good law clock stored s s' d g h v e i d' e' = elim (Bool-cases (i == d.id)) [
    | inl t ↦
        subst (λ r. P r × (r.updated_at ≤ stored))
          (ground (arith, law.get-create stored s s' d i e)) (v, le_refl stored)
    | inr f ↦ Good-mono clock stored s h g i d' (ground (arith, law.get-create stored s s' d i e))
  ]

  pub save-Good :
      Rules P
      → IsLawful R
      → (clock stored i : ℕ) (subject : String) (w : World R) (d row : Deployment) → Good clock w.db
      → clock ≤ stored
      → R.get_deployment w.db i ≡ some row
      → d.id ≡ i
      → d.created_at ≡ row.created_at
      → P d
      → d.updated_at ≤ stored
      → Good stored (save R stored subject w d).0.db
  unfolding save
  save-Good rules law clock stored i subject w d row g h found id same v old =
      elim (Option-cases (R.update_deployment stored w.db d)) [
        | inl e ↦ subst (Good stored) (ground arith) (Good-mono clock stored w.db h g)
        | inr (s', e) ↦
            subst (Good stored) (ground arith)
              (update_Good rules law clock stored w.db s' d row g h (rw id found) same v old e)
      ]

  pub move-Good :
      Rules P
      → IsLawful R
      → (clock now stored i : ℕ) (t : DeployStatus) (subject : String) (w : World R)
        (d : Deployment)
      → Good clock w.db
      → clock ≤ now
      → now ≤ stored
      → R.get_deployment w.db i ≡ some d
      → Good stored (move R now stored t subject w d).0.db
  unfolding save
  move-Good rules law clock now stored i t subject w d g h k found =
      elim (Option-cases (transition_to now d t).1) [
        | inl e ↦
            subst (λ r. Good stored r.0.db) (sym (kept e))
              (save-Good rules law clock stored i subject w (transition_to now d t).0 d g
                (omega arith) found ((transition_frame now d t).0 ∙ law.get_id w.db i d found)
                (transition_frame now d t).1 (rules.moves now d t (g i d found).0 (old))
                (omega (arith, (transition_frame now d t).2 old)))
        | inr (x, e) ↦
            subst (Good stored) (ground arith) (Good-mono clock stored w.db (omega arith) g)
      ]
    where
      old : d.updated_at ≤ now
      old = omega (arith, (g i d found).1)

      kept :
          (transition_to now d t).1 ≡ none
          → move R now stored t subject w d ≡ save R stored subject w (transition_to now d t).0
      kept e = ground arith
