-- ===== src/Rollout/Coordination.antt =====
-- internal/rollout/coordination.go, group_service.go and internal/models/rollout_group.go: what the
-- roll-back of a rollout does to its group. The sibling actor is the service of the controls, and
-- the groups are read through a function, `none` for an error.
pub mod Cascade
use deploy_sentry.Base.{
  ltb, leb, nat_beq, if◌then◌else◌, ltb→lt, lt→ltb, leb→le, nat_beq_iff, tests, Bool-cases,
  Option-cases, Eq, ◌==◌, nat_eq, string_eq, contains, is_some, length, length-append, drop,
  length-drop, all, any, All, ℕ, zero, suc, ◌+◌, ◌-◌, ◌*◌, ◌/◌, ◌%◌, ◌^◌, ◌≤◌, ◌<◌, String, ◌≡◌,
  refl, sym, ap, subst, ◌∙◌, ◌≢◌, ◌↔◌, ◌⊎◌, inl, inr, Bool, true, false, not, ◌&&◌, ◌||◌, Option,
  none, some, List, [], ◌∷◌, ◌++◌, map, arith, eq_iff,
}
use deploy_sentry.Rollout.Floats.{Floats}
use deploy_sentry.Rollout.Strategy.{ScopeType}
use deploy_sentry.Rollout.Model.{Rollout, RolloutStatus, is_active}
use deploy_sentry.Rollout.Controls.Repository.{RolloutRepo, is_open}
use deploy_sentry.Rollout.Controls.{World, Answer, perform, ControlError, pause, rollback}

pub data CoordinationPolicy : Type 0 where
  independent pause_on_sibling_abort cascade_abort : CoordinationPolicy
  other : String → CoordinationPolicy

pub record RolloutGroup : Type 0 where
  pub id : ℕ
  pub scope_type : ScopeType
  pub scope_id : ℕ
  pub name : String
  pub description : String
  pub coordination_policy : CoordinationPolicy
  pub created_by : Option ℕ
  pub created_at : ℕ
  pub updated_at : ℕ

pub data CoordinationError : Type 0 where
  lookup_failed policy_failed list_failed : CoordinationError
  pause_failed rollback_failed : ℕ → ControlError → CoordinationError

module _ (fl : Floats) (R : RolloutRepo fl.F) where
  open fl use {F}

  abbrev pub Coordinated : Type 0
  Coordinated = Option CoordinationError × World fl R

  -- The members of the group that are open, but for the one excluded.
  unfoldable pub open_others : ℕ → List (Rollout F) → List (Rollout F)
  unfolding is_open
  open_others exclude [] = []
  open_others exclude (r ∷ rs) =
      let rest = open_others exclude rs in
      if r.id == exclude then rest else if is_open r.status then r ∷ rest else rest

  unfoldable pub active_siblings : R.Db → ℕ → ℕ → Option (List (Rollout F))
  unfolding open_others
  active_siblings db group exclude = elim (R.list_by_release db group) [
    | none ↦ none
    | some all ↦ some (open_others exclude all)
  ]

  -- `if err := …; err != nil { return … }` before the rest of the loop.
  unfoldable pub after_sibling :
      (ControlError → CoordinationError) → Answer fl R → (World fl R → Coordinated) → Coordinated
  after_sibling wrap (some e, w) rest = (some (wrap e), w)
  after_sibling wrap (none, w) rest = rest w

  unfoldable pub coordinate :
      Option (Rollout F → Bool)
      → CoordinationPolicy
      → String
      → List (Rollout F)
      → World fl R
      → Coordinated
  unfolding after_sibling
  coordinate applicator policy reason [] w = (none, w)
  coordinate applicator pause_on_sibling_abort reason (s ∷ ss) w =
      let rest = coordinate applicator pause_on_sibling_abort reason ss in
      if is_active s.status
      then after_sibling (pause_failed s.id) (perform fl R applicator pause s.id 0 reason w) rest
      else rest w
  coordinate applicator cascade_abort reason (s ∷ ss) w =
      after_sibling (rollback_failed s.id) (perform fl R applicator rollback s.id 0 reason w)
        (coordinate applicator cascade_abort reason ss)
  coordinate applicator policy reason (s ∷ ss) w = coordinate applicator policy reason ss w

  -- `reason` is the text that names the rollout that was rolled back.
  unfoldable pub on_rollback :
      Option (Rollout F → Bool) → (ℕ → Option RolloutGroup) → ℕ → String → World fl R → Coordinated
  unfolding active_siblings coordinate
  on_rollback applicator groups id reason w = elim (R.get w.db id) [
    | none ↦ (some lookup_failed, w)
    | some ro ↦ elim ro.release_id [
      | none ↦ (none, w)
      | some group_id ↦ elim (groups group_id) [
        | none ↦ (some policy_failed, w)
        | some group ↦ elim group.coordination_policy [
          | independent ↦ (none, w)
          | policy ↦ elim (active_siblings w.db group_id id) [
            | none ↦ (some list_failed, w)
            | some siblings ↦ coordinate applicator policy reason siblings w
          ]
        ]
      ]
    ]
  ]
