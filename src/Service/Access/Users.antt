-- ===== src/Service/Access/Users.antt =====
-- The keys of tuples of single users (`userTuple` in internal/service/service.go).
use workspace.Base.{
  String, ◌≡◌, ap, ◌∙◌, true, false, ◌&&◌, ◌==◌, arith, eq_iff, ◌⊎◌, inl, inr, Bool-cases,
}
use workspace.Store.Keys.{tuple_key, Place, Identity, everyone, userset, tuple_key-place_iff}
use workspace.Service.Access.{user_tuple}

user_of : Identity → String
user_of everyone = ""
user_of (userset u) = ""
user_of (Identity.user id) = id

module _ (n a r u m b s v : String) where
  user_tuple-injective :
      tuple_key (user_tuple n a r u) ≡ tuple_key (user_tuple m b s v)
      → (n ≡ m) × (a ≡ b) × (r ≡ s) × (u ≡ v)
  unfolding user_tuple user_of
  user_tuple-injective e =
      let same = (tuple_key-place_iff (user_tuple n a r u) (user_tuple m b s v)).0 e in
      (
        ap (λ (p : Place). p.namespace) same,
        ap (λ (p : Place). p.object_id) same,
        ap (λ (p : Place). p.relation) same,
        ap (λ (p : Place). user_of p.subject) same,
      )

  -- two tuples of single users have one key exactly when they are the same
  pub user_tuple-test :
      (tuple_key (user_tuple n a r u) == tuple_key (user_tuple m b s v))
      ≡ (((n == m && a == b) && r == s) && u == v)
  user_tuple-test =
      by_test (Bool-cases (tuple_key (user_tuple n a r u) == tuple_key (user_tuple m b s v)))
        (Bool-cases (((n == m && a == b) && r == s) && u == v))
    where
      same_key :
          (((n == m && a == b) && r == s) && u == v) ≡ true
          → tuple_key (user_tuple n a r u) ≡ tuple_key (user_tuple m b s v)
      same_key h = grind (arith, eq_iff n m, eq_iff a b, eq_iff r s, eq_iff u v)

      by_test :
          ((tuple_key (user_tuple n a r u) == tuple_key (user_tuple m b s v)) ≡ true)
            ⊎ ((tuple_key (user_tuple n a r u) == tuple_key (user_tuple m b s v)) ≡ false)
          → ((((n == m && a == b) && r == s) && u == v) ≡ true)
            ⊎ ((((n == m && a == b) && r == s) && u == v) ≡ false)
          → (tuple_key (user_tuple n a r u) == tuple_key (user_tuple m b s v))
            ≡ (((n == m && a == b) && r == s) && u == v)
      by_test (inl same) _ =
          let (e, f, g, h) = user_tuple-injective ((eq_iff _ _).0 same) in
          ground (arith, eq_iff n m, eq_iff a b, eq_iff r s, eq_iff u v)
      by_test (inr other) (inl e) = absurd (
          ground (
            arith,
            eq_iff (tuple_key (user_tuple n a r u)) (tuple_key (user_tuple m b s v)),
            same_key e,
          ))
      by_test (inr other) (inr e) = other ∙ ground arith
