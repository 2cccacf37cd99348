-- ===== src/Common/Dict.antt =====
-- A map of the program (`HashMap`, `DashMap`) as an association list over keys with equality.
use mathlib.Core.Path.{◌≡◌, refl}
use mathlib.Core.Option.{Option, none, some}
use mathlib.Core.List.{List, [], ◌∷◌}
use native.Mathlib.Omega.{arith}
use curf.Common.Tests.{if◌then◌else◌}
use curf.Common.Equality.{Key, ◌==◌}

abbrev pub Dict {ℓ κ} : Type ℓ → Type κ → Type (ℓ ⊔ κ)
Dict K V = List (K × V)

module _ {ℓ κ} {K : Type ℓ} {V : Type κ} ⦃key : Key K⦄ where
  -- A new entry goes to the end, an old one is replaced where it stands.
  unfoldable pub insert : K → V → Dict K V → Dict K V
  insert new value [] = (new, value) ∷ []
  insert new value ((old, kept) ∷ rest) =
      let after = insert new value rest in
      if old == new then (new, value) ∷ rest else (old, kept) ∷ after

  unfoldable pub lookup : K → Dict K V → Option V
  lookup sought [] = none
  lookup sought ((found, value) ∷ rest) = if found == sought then some value else lookup sought rest

  pub lookup-insert :
      (new sought : K) (value : V) (entries : Dict K V)
      → lookup sought (insert new value entries)
        ≡ (if new == sought then some value else lookup sought entries)
  unfolding insert lookup
  lookup-insert new sought value [] = refl
  lookup-insert new sought value ((found, kept) ∷ rest) = ground (
    arith,
    lookup-insert new sought value rest,
    key.decides found new,
    key.decides found sought,
    key.decides new sought,
  )
