-- ===== src/Staging/Layers.antt =====
-- internal/staging/overlay.go: the overlays of a list, of one value and of a marked list agree.
use deploy_sentry.Base.{
  nat_eq, string_eq, is_some, all, ℕ, ◌≡◌, refl, sym, ap, Bool, true, not, ◌||◌, Option, none, some,
  List, [], ◌∷◌, ◌++◌, arith,
}
use deploy_sentry.Staging.Overlay.{
  staged_creates, updates_of, overlay_detail, apply_updates, overlay_list, detail_from, is_create,
  kept,
}
use deploy_sentry.Staging.Model.{StagedChange}

-- A staged create names no resource.
unfoldable pub creates_are_new : List StagedChange → Bool
creates_are_new staged = all (λ s. not (is_create s) || not (is_some s.resource_id)) staged

kept-same :
    {A B : Type 0} (f g : A → Option B) (xs : List A)
    → ((x : A) → f x ≡ g x)
    → kept f xs ≡ kept g xs
unfolding kept
kept-same f g [] same = refl
kept-same f g (x ∷ xs) same = ground (arith, kept-same f g xs same, same x)

kept-all :
    {A : Type 0} (f : A → Option A) (xs : List A)
    → ((x : A) → f x ≡ some x)
    → (kept f xs ++ []) ≡ xs
unfolding kept
kept-all f [] all_kept = refl
kept-all f (x ∷ xs) all_kept = ground (arith, kept-all f xs all_kept, all_kept x)

module _ {T : Type 0} (id : T → ℕ) (apply : T → StagedChange → Option T) where
  detail_from-apply_updates :
      (pid : ℕ) (patched : T) (staged : List StagedChange)
      → creates_are_new staged ≡ true
      → detail_from id apply pid patched staged
        ≡ apply_updates id apply patched (updates_of staged pid)
  unfolding creates_are_new detail_from apply_updates updates_of
  detail_from-apply_updates pid patched [] new = refl
  detail_from-apply_updates pid patched (s ∷ staged) new =
      by_apply (apply patched s) refl (λ q. detail_from-apply_updates pid q staged)
    where
      by_apply :
          (applied : Option T)
          → apply patched s ≡ applied
          → ((q : T)
              → creates_are_new staged ≡ true
              → detail_from id apply pid q staged
                ≡ apply_updates id apply q (updates_of staged pid))
          → detail_from id apply pid patched (s ∷ staged)
            ≡ apply_updates id apply patched (updates_of (s ∷ staged) pid)
      by_apply none eq rest = ground (arith, rest patched)
      by_apply (some after) eq rest = ground (arith, rest patched, rest after)

  -- Where no staged create names a resource, the overlay of a list is the overlay of each of its
  -- values alone, in order and without those that a change drops, and then what the creates make.
  pub overlay_list-overlay_detail :
      (synth : StagedChange → Option T) (production : List T) (staged : List StagedChange)
      → creates_are_new staged ≡ true
      → overlay_list id apply synth production staged
        ≡ kept (λ p. overlay_detail id apply p staged) production
          ++ kept synth (staged_creates staged)
  unfolding overlay_list overlay_detail detail_from kept staged_creates
  overlay_list-overlay_detail synth production [] new =
      sym (kept-all (λ p. overlay_detail id apply p []) production (λ p. refl))
  overlay_list-overlay_detail synth production (s ∷ staged) new =
      ap (λ l. l ++ kept synth (staged_creates (s ∷ staged)))
        (kept-same (λ p. apply_updates id apply p (updates_of (s ∷ staged) (id p)))
          (λ p. overlay_detail id apply p (s ∷ staged)) production
          (λ p. sym (detail_from-apply_updates (id p) p (s ∷ staged) new)))
