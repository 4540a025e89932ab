-- ===== src/Health/History.antt =====
-- internal/health/scorer.go: the scores of the deployments over time. The clock is an argument.
use deploy_sentry.Base.{
  ltb, if◌then◌else◌, nat_eq, string_eq, length, drop, ℕ, ◌-◌, Bool, not, none, some, List, [], ◌∷◌,
  ◌++◌,
}
use deploy_sentry.Base.Int.{ℤ, pos, pos_part, leb_ℤ}
use deploy_sentry.Base.Dict.{find, put}

module _ (F : Type 0) where
  pub record HealthHistoryEntry : Type 0 where
    pub deployment_id : ℕ
    pub score : F
    pub healthy : Bool
    pub recorded_at : ℕ

  pub record HealthHistory : Type 0 where
    pub entries : List (ℕ × List HealthHistoryEntry)
    pub max_size : ℕ

  unfoldable pub new_health_history : ℤ → HealthHistory
  new_health_history max_size = record {
    entries = [];
    max_size = if leb_ℤ max_size (pos 0) then 1000 else pos_part max_size;
  }

  -- `h.entries[id]`, with nil for a missing key.
  unfoldable pub entries_of : HealthHistory → ℕ → List HealthHistoryEntry
  entries_of h id = elim (find h.entries id) [ none ↦ [] | some entries ↦ entries ]

  unfoldable pub record_score : HealthHistory → HealthHistoryEntry → HealthHistory
  record_score h entry =
      let entries : List HealthHistoryEntry = entries_of h entry.deployment_id ++ (entry ∷ []) in
      let trimmed : List HealthHistoryEntry =
        if ltb h.max_size (length entries)
        then drop (length entries - h.max_size) entries
        else entries in
      record h { entries = put h.entries entry.deployment_id trimmed }

  unfoldable pub get_history : HealthHistory → ℕ → List HealthHistoryEntry
  get_history h id = entries_of h id

  unfoldable pub since_from : ℕ → List HealthHistoryEntry → List HealthHistoryEntry
  since_from since [] = []
  since_from since (e ∷ entries) =
      let rest : List HealthHistoryEntry = since_from since entries in
      if not (ltb e.recorded_at since) then e ∷ rest else rest

  unfoldable pub get_history_since : HealthHistory → ℕ → ℕ → List HealthHistoryEntry
  get_history_since h id since = since_from since (entries_of h id)

  -- Scores recorded one after the other.
  unfoldable pub record_all : HealthHistory → List HealthHistoryEntry → HealthHistory
  record_all h [] = h
  record_all h (e ∷ es) = record_all (record_score h e) es
