-- ===== src/Service/Seats/Effect.antt =====
-- What a seat operation does to the presence of seats and of seat tuples (internal/service/seats.go).
use workspace.Base.{
  String, ◌≡◌, refl, ap, ◌∙◌, Bool, true, false, not, ◌&&◌, ◌||◌, Option, none, some, [], ◌∷◌, ◌==◌,
  arith, if◌then◌else◌, Dict, lookup,
}
use workspace.Base.Tables.{put, remove, has, shard, change_in}
use workspace.Base.Tables.Lookup.{lookup-put, lookup-remove, shard-put_in, shard-change_in_twice}
use workspace.Authz.Model.{Tuple}
use workspace.Service.Types.{SeatAssignment}
use workspace.Store.Keys.{scope, tuple_key}
use workspace.Store.State.{Store}
use workspace.Store.Tuples.{write_tuples_locked}
use workspace.Store.Tuples.Writes.{is_among, has-written}
use workspace.Service.Access.{user_tuple}
use workspace.Service.Access.Users.{user_tuple-test}
use workspace.Store.Seats.{seats_of, put_seat}
use workspace.Service.Seats.{seat_tuple}

pub seat_key-test :
    (a b c d : String)
    → (tuple_key (seat_tuple a b) == tuple_key (seat_tuple c d)) ≡ (a == c && b == d)
unfolding seat_tuple user_tuple
seat_key-test a b c d =
    user_tuple-test "seat" a "holder" b "seat" c "holder" d ∙ at (a == c) (b == d)
  where
    at : (p q : Bool) → ((("seat" == "seat" && p) && "holder" == "holder") && q) ≡ (p && q)
    at p q = ground arith

module _ {V : Type 0} where
  pub has-put : (k j : String) (v : V) (m : Dict V) → has j (put k v m) ≡ (k == j || has j m)
  unfolding lookup
  has-put k j v m = ground (arith, lookup-put k j v m)

  pub has-remove_key : (k j : String) (m : Dict V) → has j (remove k m) ≡ (not (k == j) && has j m)
  unfolding lookup
  has-remove_key k j m = ground (arith, lookup-remove k j m)

unfoldable pub present : Option Tuple → Bool
present none = false
present (some _) = true

pub has-present : (k : String) (m : Dict Tuple) → has k m ≡ present (lookup k m)
unfolding present lookup
has-present k m = by_entry (lookup k m)
  where
    by_entry : (o : Option Tuple) → (elim o [ none ↦ false | some _ ↦ true ]) ≡ present o
    by_entry none = refl
    by_entry (some _) = refl

module _ (project tenant sk k : String) (t : Tuple) (st : Store) where
  pub has-inserted :
      has k (shard sk (write_tuples_locked project tenant (t ∷ []) [] st).tuples)
      ≡ ((scope project tenant == sk && tuple_key t == k) || has k (shard sk st.tuples))
  unfolding is_among
  has-inserted =
      has-written project tenant sk k (t ∷ []) [] st
      ∙ at (scope project tenant == sk) (tuple_key t == k) (has k (shard sk st.tuples))
    where
      at : (b c o : Bool) → (if b then (c || false) || o else o) ≡ ((b && c) || o)
      at b c o = ground arith

  pub has-deleted :
      has k (shard sk (write_tuples_locked project tenant [] (t ∷ []) st).tuples)
      ≡ (not (scope project tenant == sk && tuple_key t == k) && has k (shard sk st.tuples))
  unfolding is_among
  has-deleted =
      has-written project tenant sk k [] (t ∷ []) st
      ∙ at (scope project tenant == sk) (tuple_key t == k) (has k (shard sk st.tuples))
    where
      at : (b c o : Bool) → (if b then not (c || false) && o else o) ≡ (not (b && c) && o)
      at b c o = ground arith

module _ (at sk sku user : String) where
  pub has-seat_taken :
      (a : SeatAssignment) (st : Store)
      → has user (seats_of sk sku (put_seat at a st))
        ≡ (((at == sk && a.sku == sku) && a.user_id == user) || has user (seats_of sk sku st))
  unfolding put_seat
  has-seat_taken a st =
      ap (has user) (shard-put_in at a.sku st.seat_assigns a.user_id a sk sku)
      ∙ by_place (at == sk && a.sku == sku)
    where
      by_place :
          (b : Bool)
          → has user (if b then put a.user_id a (seats_of sk sku st) else seats_of sk sku st)
            ≡ ((b && a.user_id == user) || has user (seats_of sk sku st))
      by_place true = has-put a.user_id user a (seats_of sk sku st)
      by_place false = refl

  pub has-seat_freed :
      (sku' user' : String) (m : Dict (Dict (Dict SeatAssignment)))
      → has user (shard sku (shard sk (change_in at (change_in sku' (remove user')) m)))
        ≡ (not ((at == sk && sku' == sku) && user' == user) && has user (shard sku (shard sk m)))
  unfolding remove
  has-seat_freed sku' user' m =
      ap (has user) (shard-change_in_twice at sku' m (remove user') sk sku refl)
      ∙ by_place (at == sk && sku' == sku)
    where
      by_place :
          (b : Bool)
          → has user (if b then remove user' (shard sku (shard sk m)) else shard sku (shard sk m))
            ≡ (not (b && user' == user) && has user (shard sku (shard sk m)))
      by_place true = has-remove_key user' user (shard sku (shard sk m))
      by_place false = refl
