-- ===== src/Base/Tables/Lookup.antt =====
-- What the writes of a Go map do to its entries and their number.
use Prim.Native.String.{String}
use Prim.Native.Nat.{suc, ◌≤◌}
use mathlib.Core.Path.{◌≡◌, refl}
use mathlib.Core.Bool.{Bool, true, false, ◌&&◌}
use mathlib.Core.Option.{Option, none, some}
use mathlib.Core.List.{[], ◌∷◌}
use native.Mathlib.Omega.{arith}
use text.Mathlib.Text.{◌==◌}
use text.Mathlib.TextEquality.{eq_iff}
use workspace.Base.Tests.{if◌then◌else◌, eq_self}
use workspace.Base.Maps.{Dict, lookup}
use workspace.Base.Lists.{length}
use workspace.Base.Tables.{values, filter, put, remove, retain, has, shard, put_in, change_in}

module _ {V : Type 0} where
  pub lookup-put :
      (k j : String) (v : V) (m : Dict V)
      → lookup j (put k v m) ≡ (if k == j then some v else lookup j m)
  unfolding lookup put
  lookup-put k j v [] = refl
  lookup-put k j v ((i, w) ∷ m) =
      ground (arith, eq_iff i k, eq_iff i j, eq_iff k j, lookup-put k j v m)

  pub lookup-remove :
      (k j : String) (m : Dict V) → lookup j (remove k m) ≡ (if k == j then none else lookup j m)
  unfolding lookup remove
  lookup-remove k j [] = ground arith
  lookup-remove k j ((i, w) ∷ m) =
      ground (arith, eq_iff i k, eq_iff i j, eq_iff k j, lookup-remove k j m)

  pub has-remove : (k : String) (m : Dict V) → has k (remove k m) ≡ false
  unfolding lookup
  has-remove k m = ground (arith, lookup-remove k k m, eq_self k)

  -- what is left passes the test
  pub lookup-retain_passes :
      (p : V → Bool) (j : String) (w : V) (m : Dict V) → lookup j (retain p m) ≡ some w → p w ≡ true
  unfolding lookup retain
  lookup-retain_passes p j w [] h = absurd (cc)
  lookup-retain_passes p j w ((i, v) ∷ m) h = grind (arith, lookup-retain_passes p j w m)

  -- what passes the test is left
  pub lookup-retain_kept :
      (p : V → Bool) (j : String) (w : V) (m : Dict V)
      → lookup j m ≡ some w
      → p w ≡ true
      → lookup j (retain p m) ≡ some w
  unfolding lookup retain
  lookup-retain_kept p j w [] h e = absurd (cc)
  lookup-retain_kept p j w ((i, v) ∷ m) h e = grind (arith, lookup-retain_kept p j w m)

  pub length-put :
      (k : String) (v : V) (m : Dict V)
      → length (put k v m) ≡ (if has k m then length m else suc (length m))
  unfolding put lookup
  length-put k v [] = refl
  length-put k v ((i, w) ∷ m) = ground (arith, length-put k v m)

  pub length-remove : (k : String) (m : Dict V) → length (remove k m) ≤ length m
  unfolding remove
  length-remove k [] = omega arith
  length-remove k ((i, w) ∷ m) = ground (arith, length-remove k m)

module _ {V : Type 0} where
  pub shard-put :
      (sk j : String) (d : Dict V) (m : Dict (Dict V))
      → shard j (put sk d m) ≡ (if sk == j then d else shard j m)
  unfolding shard
  shard-put sk j d m = ground (arith, lookup-put sk j d m)

  pub shard-change_in :
      (sk j : String) (f : Dict V → Dict V) (m : Dict (Dict V))
      → f [] ≡ []
      → shard j (change_in sk f m) ≡ (if sk == j then f (shard j m) else shard j m)
  unfolding shard change_in
  shard-change_in sk j f m e = by_entry (lookup sk m) refl
    where
      by_entry :
          (o : Option (Dict V))
          → lookup sk m ≡ o
          → shard j (elim o [ none ↦ m | some d ↦ put sk (f d) m ])
            ≡ (if sk == j then f (shard j m) else shard j m)
      by_entry none absent = ground (arith, eq_iff sk j)
      by_entry (some d) present = ground (arith, eq_iff sk j, shard-put sk j (f d) m)

module _ {V : Type 0} where
  pub lookup-put_in :
      (sk k : String) (v : V) (m : Dict (Dict V)) (j i : String)
      → lookup i (shard j (put_in sk k v m))
        ≡ (if sk == j && k == i then some v else lookup i (shard j m))
  unfolding put_in
  lookup-put_in sk k v m j i =
      ground
        (arith, eq_iff sk j, shard-put sk j (put k v (shard sk m)) m, lookup-put k i v (shard sk m))

module _ {V : Type 0} where
  -- what fails a test on all that is left is not found there
  pub filter-retain :
      (p q : V → Bool) (m : Dict V)
      → ((v : V) → q v ≡ true → p v ≡ false)
      → filter p (values (retain q m)) ≡ []
  unfolding filter values retain
  filter-retain p q [] h = refl
  filter-retain p q ((k, v) ∷ m) h = ground (arith, h v, filter-retain p q m h)

-- maps of maps of maps, as a write through two keys leaves them
module _ {V : Type 0} (sk k : String) (m : Dict (Dict (Dict V))) where
  pub shard-put_in :
      (x : String) (v : V) (j i : String)
      → shard i (shard j (put sk (put_in k x v (shard sk m)) m))
        ≡ (if sk == j && k == i then put x v (shard i (shard j m)) else shard i (shard j m))
  unfolding put_in
  shard-put_in x v j i = ground (
    arith,
    eq_iff sk j,
    eq_iff k i,
    shard-put sk j (put k (put x v (shard k (shard sk m))) (shard sk m)) m,
    shard-put k i (put x v (shard k (shard sk m))) (shard sk m),
  )

  pub shard-change_in_twice :
      (f : Dict V → Dict V) (j i : String)
      → f [] ≡ []
      → shard i (shard j (change_in sk (change_in k f) m))
        ≡ (if sk == j && k == i then f (shard i (shard j m)) else shard i (shard j m))
  unfolding change_in
  shard-change_in_twice f j i e = ground (
    arith,
    eq_iff sk j,
    eq_iff k i,
    shard-change_in sk j (change_in k f) m refl,
    shard-change_in k i f (shard j m) e,
  )
