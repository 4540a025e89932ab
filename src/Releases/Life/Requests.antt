-- ===== src/Releases/Life/Requests.antt =====
-- internal/releases/service.go: what any sequence of requests keeps.
use deploy_sentry.Base.{
  Bool, [], ◌⊎◌, ◌∷◌, inl, List, if◌then◌else◌, ◌==◌, nat_eq, string_eq, ℕ, ◌≡◌, refl, sym, subst,
  inr, true, false, Option, none, some, arith,
}
use deploy_sentry.Releases.Service.{
  adds, promotes, deletes, completes, stamp_ended, rolls_back, stamp_only, pauses, stamp_started,
  starts, creates, Request, serve, prepared, is_draft, Store, publish_event, add_flag_change,
  delete_release, create_release, ReleaseRepository,
}
use deploy_sentry.Releases.Model.{
  ReleaseStatus, validate_flag_change, validate_release, ReleaseError, ReleaseFlagChange, Release,
}
use deploy_sentry.Releases.Life.{
  promote-Kept, complete_better, rollback_better, pause_better, start_better, change-Kept,
  good-prepared, good-created_row, good, draft_open, ended, Kept,
}

module _ {D : Type 0} (repo : ReleaseRepository D) (now saved_at : ℕ) where
  create_release-Kept :
      (w : Store D) (r : Release) (new_id : ℕ) (after : Store D)
      → create_release repo now saved_at w r new_id ≡ inr after
      → Kept repo now saved_at w.db after.db
  unfolding create_release publish_event
  create_release-Kept w r new_id after done =
      by_valid (validate_release (prepared repo now saved_at r new_id)) refl
    where
      invalid :
          (error : ReleaseError)
          → validate_release (prepared repo now saved_at r new_id) ≡ some error
          → ⊥
      invalid error eq = ground arith

      unsaved :
          validate_release (prepared repo now saved_at r new_id) ≡ none
          → repo.create saved_at w.db (prepared repo now saved_at r new_id) ≡ none
          → ⊥
      unsaved eq eq' = ground arith

      by_create :
          (found : Option D)
          → validate_release (prepared repo now saved_at r new_id) ≡ none
          → repo.create saved_at w.db (prepared repo now saved_at r new_id) ≡ found
          → Kept repo now saved_at w.db after.db
      by_create none eq eq' = elim (unsaved eq eq') [ ]
      by_create (some db) eq eq' =
          let fresh : Release = prepared repo now saved_at r new_id in
          let same : after.db ≡ db = ground arith in
          let fine : good fresh ≡ true = good-prepared repo now saved_at r new_id eq in
          let (id, free, rows) = repo.create_lem saved_at w.db db fresh eq' in
          subst (Kept repo now saved_at w.db) (sym same) (record {
            stays_good = λ i all_good x found. ground (
              arith,
              rows i,
              nat_eq.equal_iff id i,
              all_good x,
              good-created_row saved_at id fresh,
            );
            stays_ended = λ i x found is_ended. ground (arith, rows i, nat_eq.equal_iff id i);
          })

      by_valid :
          (found : Option ReleaseError)
          → validate_release (prepared repo now saved_at r new_id) ≡ found
          → Kept repo now saved_at w.db after.db
      by_valid none eq =
          by_create (repo.create saved_at w.db (prepared repo now saved_at r new_id)) eq refl
      by_valid (some error) eq = elim (invalid error eq) [ ]

  delete_release-Kept :
      (w : Store D) (id : ℕ) (after : Store D)
      → delete_release repo now saved_at w id ≡ inr after
      → Kept repo now saved_at w.db after.db
  unfolding delete_release
  delete_release-Kept w id after done = by_found (repo.get_by_id w.db id) refl
    where
      missing : repo.get_by_id w.db id ≡ none → ⊥
      missing eq = ground arith

      undeleted : (r : Release) → repo.get_by_id w.db id ≡ some r → repo.delete w.db id ≡ none → ⊥
      undeleted r eq eq' = ground arith

      by_delete :
          (r : Release) (found : Option D)
          → repo.get_by_id w.db id ≡ some r
          → repo.delete w.db id ≡ found
          → Kept repo now saved_at w.db after.db
      by_delete r none eq eq' = elim (undeleted r eq eq') [ ]
      by_delete r (some db) eq eq' =
          let drafted : is_draft r ≡ true = ground arith in
          let still_open : ended r ≡ false = draft_open r drafted in
          let same : after.db ≡ db = ground arith in
          subst (Kept repo now saved_at w.db) (sym same) (record {
            stays_good =
                λ i all_good x found. ground (arith, repo.delete_lem w.db db id i eq', all_good x);
            stays_ended = λ i x found is_ended.
                ground (arith, repo.delete_lem w.db db id i eq', nat_eq.equal_iff id i);
          })

      by_found :
          (found : Option Release)
          → repo.get_by_id w.db id ≡ found
          → Kept repo now saved_at w.db after.db
      by_found none eq = elim (missing eq) [ ]
      by_found (some r) eq = by_delete r (repo.delete w.db id) eq refl

  add_flag_change-Kept :
      (w : Store D) (c : ReleaseFlagChange) (new_id : ℕ) (after : Store D)
      → add_flag_change repo now saved_at w c new_id ≡ inr after
      → Kept repo now saved_at w.db after.db
  unfolding add_flag_change
  add_flag_change-Kept w c new_id after done =
      by_valid (validate_flag_change filled) (repo.add_flag_change w.db filled) refl refl
    where
      filled : ReleaseFlagChange
      filled = record c { id = if c.id == 0 then new_id else c.id; created_at = now }

      by_valid :
          (error : Option ReleaseError) (found : Option D)
          → validate_flag_change filled ≡ error
          → repo.add_flag_change w.db filled ≡ found
          → Kept repo now saved_at w.db after.db
      by_valid (some error) found eq eq' = elim (invalid eq) [ ]
        where
          invalid : validate_flag_change filled ≡ some error → ⊥
          invalid eq = ground arith
      by_valid none none eq eq' = elim (unsaved eq eq') [ ]
        where
          unsaved : validate_flag_change filled ≡ none → repo.add_flag_change w.db filled ≡ none → ⊥
          unsaved eq eq' = ground arith
      by_valid none (some db) eq eq' =
          let same : after.db ≡ db = ground arith in
          subst (Kept repo now saved_at w.db) (sym same) (record {
            stays_good =
                λ i all_good x found. ground (arith, repo.add_lem w.db db filled i eq', all_good x);
            stays_ended = λ i x found is_ended. ground (arith, repo.add_lem w.db db filled i eq');
          })

  pub serve-Kept :
      (w : Store D) (request : Request) (after : Store D)
      → serve repo now saved_at w request ≡ inr after
      → Kept repo now saved_at w.db after.db
  unfolding serve
  serve-Kept w (creates r new_id) after done = create_release-Kept w r new_id after done
  serve-Kept w (starts id) after done =
      change-Kept repo now saved_at w id ReleaseStatus.rolling_out stamp_started
        "releases.release.started" after (start_better repo now saved_at) done
  serve-Kept w (pauses id) after done =
      change-Kept repo now saved_at w id ReleaseStatus.paused stamp_only "releases.release.paused"
        after (pause_better repo now saved_at) done
  serve-Kept w (rolls_back id) after done =
      change-Kept repo now saved_at w id ReleaseStatus.rolled_back stamp_ended
        "releases.release.rolled_back" after (rollback_better repo now saved_at) done
  serve-Kept w (completes id) after done =
      change-Kept repo now saved_at w id ReleaseStatus.completed stamp_ended
        "releases.release.completed" after (complete_better repo now saved_at) done
  serve-Kept w (deletes id) after done = delete_release-Kept w id after done
  serve-Kept w (promotes id percent) after done =
      promote-Kept repo now saved_at w id percent after done
  serve-Kept w (adds c new_id) after done = add_flag_change-Kept w c new_id after done

module _ {D : Type 0} (repo : ReleaseRepository D) where
  -- A request with the clock readings of the service and of the repository; one that fails leaves
  -- the store.
  unfoldable pub attempt : Store D → ℕ × ℕ × Request → Store D
  attempt w (now, saved_at, request) = elim (serve repo now saved_at w request) [
    | inl error ↦ w
    | inr after ↦ after
  ]

  unfoldable pub serve_all : Store D → List (ℕ × ℕ × Request) → Store D
  serve_all w [] = w
  serve_all w (r ∷ requests) = serve_all (attempt w r) requests

  -- What a sequence of requests keeps of one release.
  pub Lasting : Store D → Store D → ℕ → Type 0
  Lasting w after i =
      (((r : Release) → repo.get_by_id w.db i ≡ some r → good r ≡ true)
        → (r : Release) → repo.get_by_id after.db i ≡ some r
        → good r ≡ true)
      × ((r : Release)
          → repo.get_by_id w.db i ≡ some r
          → ended r ≡ true
          → repo.get_by_id after.db i ≡ some r)

  attempt-Lasting : (w : Store D) (r : ℕ × ℕ × Request) (i : ℕ) → Lasting w (attempt w r) i
  unfolding Lasting attempt
  attempt-Lasting w (now, saved_at, request) i = by_answer (serve repo now saved_at w request) refl
    where
      by_answer :
          (answer : ReleaseError ⊎ Store D)
          → serve repo now saved_at w request ≡ answer
          → Lasting w (elim answer [ inl error ↦ w | inr after ↦ after ]) i
      by_answer (inl error) eq = (λ all_good. all_good, λ r found is_ended. found)
      by_answer (inr after) eq =
          let kept = serve-Kept repo now saved_at w request after eq in
          (kept.stays_good i, kept.stays_ended i)

  serve_all-Lasting :
      (w : Store D) (requests : List (ℕ × ℕ × Request)) (i : ℕ) → Lasting w (serve_all w requests) i
  unfolding Lasting serve_all
  serve_all-Lasting w [] i = (λ all_good. all_good, λ r found is_ended. found)
  serve_all-Lasting w (r ∷ requests) i =
      let (good_first, ended_first) = attempt-Lasting w r i in
      let (good_rest, ended_rest) = serve_all-Lasting (attempt w r) requests i in
      (
        λ all_good. good_rest (good_first all_good),
        λ x found is_ended. ended_rest x (ended_first x found is_ended) is_ended,
      )

  -- In a store that began without releases, after any requests at any times, the percentage of every
  -- release is in range, it has a start time once it left the draft and an end time once it ended;
  -- and one that has ended is stored unchanged after any further requests.
  pub serve_all-good :
      (w : Store D) (requests later : List (ℕ × ℕ × Request)) (i : ℕ) (r : Release)
      → ((j : ℕ) → repo.get_by_id w.db j ≡ none)
      → repo.get_by_id (serve_all w requests).db i ≡ some r
      → (good r ≡ true)
        × ((ended r ≡ false)
            ⊎ (repo.get_by_id (serve_all (serve_all w requests) later).db i ≡ some r))
  unfolding Lasting
  serve_all-good w requests later i r empty found = (is_good, by_ended (ended r) refl)
    where
      none_stored : (x : Release) → repo.get_by_id w.db i ≡ some x → good x ≡ true
      none_stored x stored = ground (arith, empty i)

      is_good : good r ≡ true
      is_good = (serve_all-Lasting w requests i).0 none_stored r found

      by_ended :
          (b : Bool)
          → ended r ≡ b
          → (ended r ≡ false)
            ⊎ (repo.get_by_id (serve_all (serve_all w requests) later).db i ≡ some r)
      by_ended false eq = inl eq
      by_ended true eq = inr ((serve_all-Lasting (serve_all w requests) later i).1 r found eq)
