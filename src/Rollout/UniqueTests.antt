-- ===== src/Rollout/UniqueTests.antt =====
-- internal/rollout/rollout_service.go: attaching to a deployment, in memory.
use deploy_sentry.Base.{refl, map, ◌≡◌, Option, nat_eq, string_eq, none, some, [], ◌∷◌, arith}
use deploy_sentry.Rollout.Tests.{ints, ongoing, gradual}
use deploy_sentry.Rollout.Controls.Memory.{
  next_id, insert, find, look_up, memory, memory-IsLawful, select,
}
use deploy_sentry.Rollout.Controls.{
  existing_of, deploy_ref, pending_rollout, announce, attach, World, perform, attach_deploy,
  approve,
}
use deploy_sentry.Rollout.Controls.Unique.{OneOpen, attach_deploy-OneOpen, perform-OneOpen}
use deploy_sentry.Rollout.Controls.Repository.{Lookup, RolloutRepo}
use deploy_sentry.Base.Int.{ℤ}
use deploy_sentry.Rollout.Model.{pending}

-- One rollout, which waits for an approval.
abbrev held : World ints memory
held = record { db = ongoing ∷ []; events = []; published = []; reverted = [] }

held-OneOpen : OneOpen ints memory memory-IsLawful held.db
unfolding select
held-OneOpen = record {
  single = λ ref i j a b got_i got_j open_a open_b.
      ground (arith, nat_eq.equal_iff 5 i, nat_eq.equal_iff 5 j);
}

attach_deploy-OneOpen_example :
    OneOpen ints memory memory-IsLawful
      (attach_deploy ints memory 9 "d2" gradual none (some 3) held).1.1.db
unfolding look_up find
attach_deploy-OneOpen_example =
    attach_deploy-OneOpen ints memory memory-IsLawful 9 "d2" gradual none (some 3) held
      (λ e. ground (arith, e)) held-OneOpen

-- The same rows behind a database that does not answer.
abbrev silent : RolloutRepo (Option ℤ)
silent = record memory {
  active_by_deployment = λ s ref. Lookup.unanswered;
  active_by_rule = λ s ref. Lookup.unanswered;
}

abbrev unheard : World ints silent
unheard = record { db = ongoing ∷ []; events = []; published = []; reverted = [] }

-- A look-up that fails attaches a second open rollout to the deployment.
second_attached :
    let a = attach_deploy ints silent 9 "d1" gradual none (some 3) unheard in
    (a.0 ≡ none)
    × (map (λ ro. ro.status) a.1.1.db ≡ pending ∷ ongoing.status ∷ [])
    × (map (λ ro. ro.target_ref.deployment_id) a.1.1.db
        ≡ some "d1" ∷ ongoing.target_ref.deployment_id ∷ [])
unfolding attach_deploy attach announce pending_rollout deploy_ref existing_of insert next_id
second_attached = (refl, refl, refl)

perform-OneOpen_example :
    OneOpen ints memory memory-IsLawful (perform ints memory none approve 5 3 "" held).1.db
perform-OneOpen_example =
    perform-OneOpen ints memory memory-IsLawful none approve 5 3 "" held held-OneOpen
