-- ===== src/Base/Maps.antt =====
-- `sync.Map` as an association list: `Load`, `Store` and `Delete`, with their laws.
use mathlib.Core.Path.{◌≡◌}
use mathlib.Core.List.{List, [], ◌∷◌}
use mathlib.Core.Option.{Option, none, some}
use native.Mathlib.Omega.{arith}
use broadauth.Base.Tests.{Eq, ◌==◌, if◌then◌else◌}

abbrev pub Map {ℓ κ} : Type ℓ → Type κ → Type (ℓ ⊔ κ)
Map K V = List (K × V)

module _ {ℓ κ} {K : Type ℓ} {V : Type κ} ⦃e : Eq K⦄ where
  unfoldable pub load : K → Map K V → Option V
  load k [] = none
  load k ((j, v) ∷ m) = if j == k then some v else load k m

  unfoldable pub delete : K → Map K V → Map K V
  delete k [] = []
  delete k ((j, v) ∷ m) = if j == k then delete k m else (j, v) ∷ delete k m

  unfoldable pub store : K → V → Map K V → Map K V
  unfolding delete
  store k v m = (k, v) ∷ delete k m

  pub load-delete :
      (k j : K) (m : Map K V) → load j (delete k m) ≡ (if k == j then none else load j m)
  unfolding load delete
  load-delete k j [] = ground arith
  load-delete k j ((i, v) ∷ m) =
      ground (arith, e.equals_iff i k, e.equals_iff i j, e.equals_iff k j, load-delete k j m)

  pub load-store :
      (k j : K) (v : V) (m : Map K V) → load j (store k v m) ≡ (if k == j then some v else load j m)
  unfolding load store
  load-store k j v m = ground (arith, load-delete k j m)
