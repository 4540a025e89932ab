-- ===== src/Staging/Overlay.antt =====
-- internal/staging/overlay.go: a user's staged changes laid over what is in production. `apply` and
-- `synth` are arguments in the source too; `none` stands for a drop and for a row that makes nothing.
use deploy_sentry.Base.{
  if◌then◌else◌, ◌==◌, nat_eq, string_eq, ℕ, String, Bool, not, Option, none, some, List, [], ◌∷◌,
  ◌++◌,
}
use deploy_sentry.Staging.Model.{StagedChange}

pub record Marker : Type 0 where
  pub provisional_id : Option ℕ
  pub action : String
  pub staged_at : ℕ

unfoldable pub is_create : StagedChange → Bool
is_create s = s.action == "create"

-- `updatesByID[pid]`
unfoldable pub updates_of : List StagedChange → ℕ → List StagedChange
updates_of [] pid = []
updates_of (s ∷ staged) pid =
    let rest : List StagedChange = updates_of staged pid in
    if is_create s
    then rest
    else elim s.resource_id [ none ↦ rest | some i ↦ if i == pid then s ∷ rest else rest ]

unfoldable pub staged_creates : List StagedChange → List StagedChange
staged_creates [] = []
staged_creates (s ∷ staged) =
    let rest : List StagedChange = staged_creates staged in if is_create s then s ∷ rest else rest

-- The entries that the function gives, in order.
unfoldable pub kept {ℓ κ} : {A : Type ℓ} {B : Type κ} → (A → Option B) → List A → List B
kept f [] = []
kept f (x ∷ xs) = let rest = kept f xs in elim (f x) [ none ↦ rest | some y ↦ y ∷ rest ]

module _ {T : Type 0} (id : T → ℕ) (apply : T → StagedChange → Option T) where
  unfoldable pub apply_updates : T → List StagedChange → Option T
  apply_updates patched [] = some patched
  apply_updates patched (s ∷ updates) = elim (apply patched s) [
    | none ↦ none
    | some after ↦ apply_updates after updates
  ]

  unfoldable pub overlay_list : (StagedChange → Option T) → List T → List StagedChange → List T
  overlay_list synth production [] = production
  overlay_list synth production (s ∷ staged) =
      kept (λ p. apply_updates p (updates_of (s ∷ staged) (id p))) production
      ++ kept synth (staged_creates (s ∷ staged))

  unfoldable pub detail_from : ℕ → T → List StagedChange → Option T
  detail_from pid patched [] = some patched
  detail_from pid patched (s ∷ staged) =
      let skipped : Option T = detail_from pid patched staged in
      elim s.resource_id [
        | none ↦ skipped
        | some i ↦
            if not (i == pid)
            then skipped
            else elim (apply patched s) [ none ↦ none | some after ↦ detail_from pid after staged ]
      ]

  unfoldable pub overlay_detail : T → List StagedChange → Option T
  overlay_detail production staged = detail_from (id production) production staged

  -- The value with the last row that was applied to it.
  unfoldable pub apply_marked :
      T → Option StagedChange → List StagedChange → Option (T × Option StagedChange)
  apply_marked patched last [] = some (patched, last)
  apply_marked patched last (s ∷ updates) = elim (apply patched s) [
    | none ↦ none
    | some after ↦ apply_marked after (some s) updates
  ]

  unfoldable pub mark : Option (T → Marker → T) → T → Marker → T
  mark none t marker = t
  mark (some set) t marker = set t marker

  unfoldable pub mark_updated :
      Option (T → Marker → T) → Option (T × Option StagedChange) → Option T
  mark_updated set_marker none = none
  mark_updated set_marker (some (t, none)) = some t
  mark_updated set_marker (some (t, some s)) = some (
      mark set_marker t
        (record { provisional_id = none; action = s.action; staged_at = s.created_at }))

  unfoldable pub mark_created : Option (T → Marker → T) → StagedChange → Option T → Option T
  mark_created set_marker s none = none
  mark_created set_marker s (some t) = some (
      mark set_marker t
        (record { provisional_id = s.provisional_id; action = "create"; staged_at = s.created_at }))

  unfoldable pub overlay_list_marked :
      (StagedChange → Option T) → Option (T → Marker → T) → List T → List StagedChange → List T
  overlay_list_marked synth set_marker production [] = production
  overlay_list_marked synth set_marker production (s ∷ staged) =
      kept (λ p. mark_updated set_marker (apply_marked p none (updates_of (s ∷ staged) (id p))))
        production
      ++ kept (λ c. mark_created set_marker c (synth c)) (staged_creates (s ∷ staged))
