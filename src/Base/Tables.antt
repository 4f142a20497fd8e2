-- ===== src/Base/Tables.antt =====
-- Go maps that are written: entries in the order of their first insertion, which is one of the orders
-- that a range may take.
pub mod Lookup
use Prim.Native.String.{String, compare}
use Prim.Native.Nat.{ℕ, zero, suc, ◌+◌, ◌≤◌, Ordering}
use mathlib.Core.Path.{◌≡◌, refl, sym, ap, ◌∙◌}
use mathlib.Core.Logic.{◌⊎◌, inl, inr}
use mathlib.Core.Bool.{Bool, true, false, not}
use mathlib.Core.Option.{Option, none, some}
use mathlib.Core.List.{List, [], ◌∷◌}
use native.Mathlib.Omega.{arith}
use text.Mathlib.Text.{◌==◌}
use text.Mathlib.TextEquality.{eq_iff}
use workspace.Base.Tests.{if◌then◌else◌, Bool-cases, eq_self}
use workspace.Base.Maps.{Dict, lookup}
use workspace.Base.Lists.{length}

-- `<` on strings
abbrev pub string_less : String → String → Bool
string_less s t = elim (compare s t) [
  | Ordering.lt ↦ true
  | Ordering.eq ↦ false
  | Ordering.gt ↦ false
]

module _ {ℓ} {V : Type ℓ} where
  -- `m[k] = v`
  unfoldable pub put : String → V → Dict V → Dict V
  put k v [] = (k, v) ∷ []
  put k v ((j, w) ∷ m) = let rest = put k v m in if j == k then (j, v) ∷ m else (j, w) ∷ rest

  -- `delete(m, k)`
  unfoldable pub remove : String → Dict V → Dict V
  remove k [] = []
  remove k ((j, w) ∷ m) = let rest = remove k m in if j == k then rest else (j, w) ∷ rest

  -- the deletion, in a range, of the entries that fail a test
  unfoldable pub retain : (V → Bool) → Dict V → Dict V
  retain p [] = []
  retain p ((j, w) ∷ m) = let rest = retain p m in if p w then (j, w) ∷ rest else rest

  unfoldable pub values : Dict V → List V
  values [] = []
  values ((j, w) ∷ m) = w ∷ values m

  abbrev pub has : String → Dict V → Bool
  unfolding lookup
  has k m = elim (lookup k m) [ none ↦ false | some _ ↦ true ]

module _ {ℓ} {V : Type ℓ} where
  -- `m[sk]`, which is empty if it is nil
  unfoldable pub shard : String → Dict (Dict V) → Dict V
  unfolding lookup
  shard sk m = elim (lookup sk m) [ none ↦ [] | some d ↦ d ]

  -- `m[sk][k] = v`, where `m[sk]` is made if it is nil
  unfoldable pub put_in : String → String → V → Dict (Dict V) → Dict (Dict V)
  unfolding put shard
  put_in sk k v m = put sk (put k v (shard sk m)) m

  -- a change of `m[sk]`, if it is not nil
  unfoldable pub change_in : String → (Dict V → Dict V) → Dict (Dict V) → Dict (Dict V)
  unfolding put lookup
  change_in sk f m = elim (lookup sk m) [ none ↦ m | some d ↦ put sk (f d) m ]

module _ {ℓ} {V : Type ℓ} where
  insert_by : (V → V → Bool) → V → List V → List V
  insert_by less x [] = x ∷ []
  insert_by less x (y ∷ ys) =
      let rest = insert_by less x ys in if less y x then y ∷ rest else x ∷ (y ∷ ys)

  -- `sort.Slice`, for an order that is total on the elements
  unfoldable pub sort_by : (V → V → Bool) → List V → List V
  unfolding insert_by
  sort_by less [] = []
  sort_by less (x ∷ xs) = insert_by less x (sort_by less xs)

  -- `for _, v := range m { if p(v) { return v } }`
  unfoldable pub find_value : (V → Bool) → Dict V → Option V
  find_value p [] = none
  find_value p ((j, w) ∷ m) = if p w then some w else find_value p m

  unfoldable pub filter : (V → Bool) → List V → List V
  filter p [] = []
  filter p (x ∷ xs) = let rest = filter p xs in if p x then x ∷ rest else rest
