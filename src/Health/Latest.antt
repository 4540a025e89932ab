-- ===== src/Health/Latest.antt =====
-- internal/health/scorer.go: a history is the latest part of all that was recorded.
use deploy_sentry.Base.{
  append_nil, append_assoc, ltb, if◌then◌else◌, ◌==◌, nat_eq, string_eq, length, length-append,
  drop, length-drop, ℕ, zero, suc, ◌+◌, ◌-◌, ◌≤◌, ◌≡◌, refl, sym, ap, subst, ◌∙◌, Bool, true, false,
  List, [], ◌∷◌, ◌++◌, arith,
}
use deploy_sentry.Base.Int.{ℤ}
use deploy_sentry.Base.Dict.{find, put}
use deploy_sentry.Health.History.{
  get_history, new_health_history, HealthHistory, entries_of, record_all, record_score,
  HealthHistoryEntry,
}

module _ {A : Type 0} where
  unfoldable pub latest : ℕ → List A → List A
  latest n xs = drop (length xs - n) xs

  drop-append : (n : ℕ) (xs ys : List A) → n ≤ length xs → drop n (xs ++ ys) ≡ drop n xs ++ ys
  drop-append zero xs ys less = refl
  drop-append (suc n) [] ys less = ground arith
  drop-append (suc n) (x ∷ xs) ys less = drop-append n xs ys (omega (arith, less))

  drop-nil : (n : ℕ) → drop {A = A} n [] ≡ []
  drop-nil zero = refl
  drop-nil (suc n) = refl

  drop-drop : (n k : ℕ) (xs : List A) → drop k (drop n xs) ≡ drop (n + k) xs
  drop-drop zero k xs = ap (λ j. drop j xs) (omega arith)
  drop-drop (suc n) k [] = drop-nil k ∙ sym (drop-nil (suc n + k))
  drop-drop (suc n) k (x ∷ xs) =
      let same : suc (n + k) ≡ suc n + k = omega arith in
      drop-drop n k xs ∙ ap (λ j. drop j (x ∷ xs)) same

  latest-latest :
      (n : ℕ) (xs : List A) (x : A) → latest n (latest n xs ++ (x ∷ [])) ≡ latest n (xs ++ (x ∷ []))
  unfolding latest
  latest-latest n xs x =
      let i : ℕ = length xs - n in
      let within : i ≤ length xs = omega arith in
      let whole : List A = xs ++ (x ∷ []) in
      let moved : drop i whole ≡ drop i xs ++ (x ∷ []) = drop-append i xs (x ∷ []) within in
      let size : length whole ≡ length xs + 1 = length-append xs (x ∷ []) in
      let rest : length (drop i whole) ≡ length whole - i = length-drop i whole in
      let same : i + (length (drop i whole) - n) ≡ length whole - n = omega (arith, size, rest) in
      subst (λ l. drop (length l - n) l ≡ drop (length whole - n) whole) moved
        (drop-drop i (length (drop i whole) - n) whole ∙ ap (λ j. drop j whole) same)

  latest-bound : (n : ℕ) (xs : List A) → length (latest n xs) ≤ n
  unfolding latest
  latest-bound n xs = omega (arith, length-drop (length xs - n) xs)

module _ (F : Type 0) where
  -- What was recorded of a deployment, in order.
  unfoldable pub recorded : ℕ → List (HealthHistoryEntry F) → List (HealthHistoryEntry F)
  recorded id [] = []
  recorded id (e ∷ es) =
      let rest : List (HealthHistoryEntry F) = recorded id es in
      if e.deployment_id == id then e ∷ rest else rest

  recorded-append :
      (id : ℕ) (xs ys : List (HealthHistoryEntry F))
      → recorded id (xs ++ ys) ≡ recorded id xs ++ recorded id ys
  unfolding recorded
  recorded-append id [] ys = refl
  recorded-append id (x ∷ xs) ys = ground (arith, recorded-append id xs ys)

  latest_lem :
      (n : ℕ) (xs : List (HealthHistoryEntry F))
      → (if ltb n (length xs) then drop (length xs - n) xs else xs) ≡ latest n xs
  unfolding latest
  latest_lem n xs = by_test (ltb n (length xs)) refl
    where
      by_test :
          (b : Bool)
          → ltb n (length xs) ≡ b
          → (if ltb n (length xs) then drop (length xs - n) xs else xs) ≡ drop (length xs - n) xs
      by_test true eq = ground arith
      by_test false eq =
          let none_over : length xs - n ≡ 0 = ground arith in
          let whole : drop (length xs - n) xs ≡ xs = ap (λ j. drop j xs) none_over in
          ground (arith, whole)

  entries_of-record_score :
      (h : HealthHistory F) (e : HealthHistoryEntry F) (id : ℕ)
      → entries_of F (record_score F h e) id ≡ (
          if e.deployment_id == id
          then latest h.max_size (entries_of F h e.deployment_id ++ (e ∷ []))
          else entries_of F h id)
  unfolding record_score entries_of find put
  entries_of-record_score h e id =
      ground (arith, latest_lem h.max_size (entries_of F h e.deployment_id ++ (e ∷ [])))

  max_size-record_score :
      (h : HealthHistory F) (e : HealthHistoryEntry F) → (record_score F h e).max_size ≡ h.max_size
  unfolding record_score
  max_size-record_score h e = refl

  -- One more score.
  stands-record_score :
      (h : HealthHistory F) (before : List (HealthHistoryEntry F)) (e : HealthHistoryEntry F)
      (id : ℕ)
      → entries_of F h id ≡ latest h.max_size (recorded id before)
      → entries_of F (record_score F h e) id ≡ latest h.max_size (recorded id (before ++ (e ∷ [])))
  unfolding recorded
  stands-record_score h before e id stands = ground (
    arith,
    entries_of-record_score h e id,
    recorded-append id before (e ∷ []),
    latest-latest h.max_size (recorded id before) e,
    append_nil (recorded id before),
    nat_eq.equal_iff e.deployment_id id,
  )

  new_is_empty :
      (max_size : ℤ) (id : ℕ)
      → entries_of F (new_health_history F max_size) id
        ≡ latest (new_health_history F max_size).max_size (recorded id [])
  unfolding entries_of new_health_history find recorded latest
  new_is_empty max_size id = sym (drop-nil (0 - (new_health_history F max_size).max_size))

  record_all-latest :
      (h : HealthHistory F) (before es : List (HealthHistoryEntry F)) (id : ℕ)
      → entries_of F h id ≡ latest h.max_size (recorded id before)
      → entries_of F (record_all F h es) id ≡ latest h.max_size (recorded id (before ++ es))
  unfolding record_all
  record_all-latest h before [] id stands =
      stands ∙ ap (λ l. latest h.max_size (recorded id l)) (sym (append_nil before))
  record_all-latest h before (e ∷ es) id stands =
      record_all-latest (record_score F h e) (before ++ (e ∷ [])) es id (
        stands-record_score h before e id stands
        ∙ ap (λ n. latest n (recorded id (before ++ (e ∷ [])))) (sym (max_size-record_score h e)))
      ∙ ap (λ l. latest (record_score F h e).max_size (recorded id l))
          (append_assoc before (e ∷ []) es)
      ∙ ap (λ n. latest n (recorded id (before ++ (e ∷ es)))) (max_size-record_score h e)

  -- After any scores of any deployments, recorded into a new history, the history of a deployment is
  -- the latest part, in order, of the scores recorded of it, no longer than the size given, or 1000
  -- where that is not positive.
  pub get_history-latest :
      (max_size : ℤ) (es : List (HealthHistoryEntry F)) (id : ℕ)
      → (get_history F (record_all F (new_health_history F max_size) es) id
          ≡ latest (new_health_history F max_size).max_size (recorded id es))
        × (length (get_history F (record_all F (new_health_history F max_size) es) id)
            ≤ (new_health_history F max_size).max_size)
  unfolding get_history
  get_history-latest max_size es id =
      let h : HealthHistory F = new_health_history F max_size in
      let is_latest = record_all-latest h [] es id (new_is_empty max_size id) in
      (
        is_latest,
        subst (λ l. length l ≤ h.max_size) (sym is_latest)
            (latest-bound h.max_size (recorded id es)),
      )
