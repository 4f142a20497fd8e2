-- ===== src/Base/Maps.antt =====
-- Finite maps: as functions where the program only looks keys up, and as association lists where
-- it ranges over them.
use Prim.Native.String.{String}
use mathlib.Core.Path.{◌≡◌, fun_ext}
use mathlib.Core.Logic.{◌⊎◌, inl, inr}
use mathlib.Core.Bool.{true, false}
use mathlib.Core.Option.{Option, none, some}
use mathlib.Core.List.{List, [], ◌∷◌}
use native.Mathlib.Omega.{arith}
use text.Mathlib.Text.{◌==◌}
use text.Mathlib.TextEquality.{eq_iff}
use workspace.Base.Tests.{if◌then◌else◌, Bool-cases}

-- A Go map from texts, in some order of its entries.
abbrev pub Dict {ℓ} : Type ℓ → Type ℓ
Dict V = List (String × V)

module _ {ℓ} {V : Type ℓ} where
  abbrev pub update : (String → V) → String → V → String → V
  update m k v j = if k == j then v else m j

  -- Writing back the value that a key had before restores the map.
  pub update-update_back :
      (m : String → V) (k : String) (v w : V) → m k ≡ w → update (update m k v) k w ≡ m
  update-update_back m k v w e = fun_ext λ j. at j (Bool-cases (k == j))
    where
      at : (j : String) → ((k == j) ≡ true) ⊎ ((k == j) ≡ false) → update (update m k v) k w j ≡ m j
      at j (inl same) = ground (arith, eq_iff k j)
      at j (inr other) = ground arith

  unfoldable pub lookup : String → Dict V → Option V
  lookup k [] = none
  lookup k ((j, v) ∷ m) = if j == k then some v else lookup k m
