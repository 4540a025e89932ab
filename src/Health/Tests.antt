-- ===== src/Health/Tests.antt =====
-- internal/health/scorer.go on a short history.
use deploy_sentry.Base.{nat_eq, string_eq, length, ℕ, ◌≤◌, ◌≡◌, refl, true, List, [], ◌∷◌}
use deploy_sentry.Base.Int.{pos}
use deploy_sentry.Health.History.{
  record_score, entries_of, since_from, record_score, entries_of, new_health_history, record_all,
  get_history, HealthHistoryEntry, get_history_since,
}
use deploy_sentry.Health.Latest.{get_history-latest, recorded, latest}
use deploy_sentry.Base.Dict.{put, find, put, find}

abbrev entry : ℕ → ℕ → HealthHistoryEntry ℕ
entry id at = record { deployment_id = id; score = 90; healthy = true; recorded_at = at }

abbrev seen : List (HealthHistoryEntry ℕ)
seen = entry 5 1 ∷ entry 6 2 ∷ entry 5 3 ∷ entry 5 4 ∷ []

keeps_the_latest_two :
    get_history ℕ (record_all ℕ (new_health_history ℕ (pos 2)) seen) 5 ≡ entry 5 3 ∷ entry 5 4 ∷ []
unfolding get_history entries_of find record_all record_score put new_health_history
keeps_the_latest_two = refl

since_the_third :
    get_history_since ℕ (record_all ℕ (new_health_history ℕ (pos 9)) seen) 5 3
    ≡ entry 5 3 ∷ entry 5 4 ∷ []
unfolding get_history_since since_from entries_of find record_all record_score put
    new_health_history
since_the_third = refl

get_history-latest_example :
    (get_history ℕ (record_all ℕ (new_health_history ℕ (pos 2)) seen) 5
      ≡ latest (new_health_history ℕ (pos 2)).max_size (recorded ℕ 5 seen))
    × (length (get_history ℕ (record_all ℕ (new_health_history ℕ (pos 2)) seen) 5)
        ≤ (new_health_history ℕ (pos 2)).max_size)
get_history-latest_example = get_history-latest ℕ (pos 2) seen 5
