-- ===== src/Rollout/ControlTests.antt =====
-- internal/rollout/rollout_service.go and coordination.go on concrete rollouts, in memory.
use deploy_sentry.Base.{
  nat_eq, string_eq, ℕ, ◌≡◌, refl, ◌≢◌, ◌⊎◌, true, Option, none, some, List, [], ◌∷◌,
}
use deploy_sentry.Base.Int.{ℤ}
use deploy_sentry.Rollout.Tests.{ints, ongoing}
use deploy_sentry.Rollout.Model.{is_active, Rollout, RolloutStatus, is_terminal}
use deploy_sentry.Rollout.Controls.Memory.{set_status, memory, memory-IsLawful, select}
use deploy_sentry.Rollout.Controls.{World, perform, ControlError, pause, rollback, approve}
use deploy_sentry.Rollout.Controls.Moves.{allowed, event_of, reason_of, NeedsReason, event}
use deploy_sentry.Rollout.Controls.Perform.{perform_moves, RowsAfter}
use deploy_sentry.Rollout.Controls.Terminal.{run, run_keeps_terminal, Request}
use deploy_sentry.Rollout.Coordination.{coordinate, cascade_abort}
use deploy_sentry.Rollout.Coordination.Cascade.{cascade_stops, Without}

abbrev ended : Rollout (Option ℤ)
ended = record ongoing { id = 8; status = RolloutStatus.rolled_back }

abbrev waiting : Rollout (Option ℤ)
waiting = record ongoing { id = 6; status = RolloutStatus.pending }

abbrev live : Rollout (Option ℤ)
live = record ongoing { id = 7; status = RolloutStatus.active }

abbrev shop : World ints memory
shop = record {
  db = live ∷ waiting ∷ ongoing ∷ ended ∷ [];
  events = [];
  published = [];
  reverted = [];
}

perform_moves_example :
    let a = perform ints memory none pause 7 9 "" shop in
    ((e : ControlError) × (a ≡ (some e, shop)))
    ⊎ (((a.0 ≡ none) ⊎ (a.0 ≡ some ControlError.revert_failed))
        × NeedsReason pause ""
        × ((ro : Rollout (Option ℤ)) × (select shop.db 7 ≡ some ro)
            × (allowed pause ro.status ≡ true)
            × RowsAfter ints memory pause 7 "" ro shop.db a.1.db
            × (a.1.events ≡ event ints memory 7 9 (event_of pause) (reason_of "") ∷ [])))
perform_moves_example = perform_moves ints memory memory-IsLawful none pause 7 9 "" shop

pauses :
    (perform ints memory none pause 7 9 "" shop).1.db
    ≡ record live { status = RolloutStatus.paused } ∷ waiting ∷ ongoing ∷ ended ∷ []
unfolding perform set_status select is_active
pauses = refl

abbrev asked : List Request
asked =
    record { op = approve; id = 8; actor = 9; reason = "" }
    ∷ record { op = rollback; id = 7; actor = 9; reason = "errors" }
    ∷ record { op = pause; id = 8; actor = 9; reason = "" }
    ∷ []

ended_found : select shop.db 8 ≡ some ended
unfolding select
ended_found = refl

run_keeps_terminal_example : select (run ints memory none asked shop).db 8 ≡ some ended
unfolding is_terminal
run_keeps_terminal_example =
    run_keeps_terminal ints memory memory-IsLawful none asked shop 8 ended refl ended_found

waiting_found : select shop.db 6 ≡ some waiting
unfolding select
waiting_found = refl

-- The rollout `ongoing` is listed behind one that is pending, and keeps its row.
cascade_stops_example :
    let r =
      coordinate ints memory none cascade_abort "sibling_aborted:8"
        (live ∷ waiting ∷ ongoing ∷ [])
        shop in
    (r.0 ≢ none) × ((j : ℕ) → Without j (live ∷ []) → select r.1.db j ≡ select shop.db j)
cascade_stops_example =
    cascade_stops ints memory memory-IsLawful none "sibling_aborted:8" (live ∷ []) (ongoing ∷ [])
      waiting waiting shop waiting_found refl
