-- ===== src/Base/Dict.antt =====
-- Go's maps, as rows of which the first of a key counts.
use mathlib.Core.Path.{◌≡◌, refl}
use mathlib.Core.List.{List, [], ◌∷◌}
use mathlib.Core.Option.{Option, none, some}
use native.Mathlib.Omega.{arith}
use deploy_sentry.Base.Tests.{if◌then◌else◌}
use deploy_sentry.Base.Equality.{Eq, ◌==◌}

module _ {ℓ} {K A : Type ℓ} ⦃e : Eq K⦄ where
  unfoldable pub find : List (K × A) → K → Option A
  find [] k = none
  find ((j, a) ∷ m) k = if j == k then some a else find m k

  unfoldable pub put : List (K × A) → K → A → List (K × A)
  put m k a = (k, a) ∷ m

  -- `delete(m, k)`
  unfoldable pub erase : List (K × A) → K → List (K × A)
  erase [] k = []
  erase ((j, a) ∷ m) k = if j == k then erase m k else (j, a) ∷ erase m k

  pub find-put :
      (m : List (K × A)) (k j : K) (a : A)
      → find (put m k a) j ≡ (if k == j then some a else find m j)
  unfolding find put
  find-put m k j a = refl

  pub find-erase :
      (m : List (K × A)) (k j : K) → find (erase m k) j ≡ (if k == j then none else find m j)
  unfolding find erase
  find-erase [] k j = ground arith
  find-erase ((i, a) ∷ m) k j =
      ground (arith, find-erase m k j, e.equal_iff i k, e.equal_iff i j, e.equal_iff k j)
