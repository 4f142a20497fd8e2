-- ===== src/Service/Roster/Retain.antt =====
-- What a deletion in a range leaves of the tuples and of the rows (`DeleteWorkspace` in
-- internal/repo/memory/memory.go).
use workspace.Base.{
  String, ◌≡◌, refl, ◌∙◌, Bool, true, false, ◌&&◌, [], ◌∷◌, ◌==◌, arith, eq_iff, if◌then◌else◌,
  Dict, lookup,
}
use workspace.Base.Tables.{retain, has, values}
use workspace.Authz.Model.{Tuple}
use workspace.Service.Roster.{All}
use workspace.Store.Keys.{tuple_key}
use workspace.Store.Tuples.Writes.{WellKeyed}

module _ (p : Tuple → Bool) where
  pub WellKeyed-retain : (m : Dict Tuple) → WellKeyed m → WellKeyed (retain p m)
  unfolding retain
  WellKeyed-retain [] h = tt
  WellKeyed-retain ((k, t) ∷ m) (e, h) = by_test (p t) (WellKeyed-retain m h)
    where
      by_test :
          (b : Bool)
          → WellKeyed (retain p m)
          → WellKeyed (if b then (k, t) ∷ retain p m else retain p m)
      by_test true later = (e, later)
      by_test false later = later

  -- a key whose tuples all fail the test is gone, and one whose tuples all pass it stays
  pub has-retain :
      (k : String) (b : Bool) (m : Dict Tuple)
      → WellKeyed m
      → ((t : Tuple) → tuple_key t ≡ k → p t ≡ b)
      → has k (retain p m) ≡ (b && has k m)
  unfolding retain lookup
  has-retain k true [] h all = refl
  has-retain k false [] h all = refl
  has-retain k b ((j, t) ∷ m) (e, h) all =
      let fits : (j == k) ≡ true → p t ≡ b = λ s. all t (e ∙ (eq_iff j k).0 s) in
      ground (arith, fits, has-retain k b m h all)

-- what is left passes the test
pub All-retain :
    {V : Type 0} (P : V → Type 0) (q : V → Bool) (m : Dict V)
    → All P (values m)
    → All (λ v. P v × (q v ≡ true)) (values (retain q m))
unfolding values retain
All-retain P q [] h = tt
All-retain {V} P q ((k, v) ∷ m) (hv, h) = by_test (q v) refl (All-retain P q m h)
  where
    by_test :
        (b : Bool)
        → q v ≡ b
        → All (λ v. P v × (q v ≡ true)) (values (retain q m))
        → All (λ v. P v × (q v ≡ true)) (values (if b then (k, v) ∷ retain q m else retain q m))
    by_test true e later = ((hv, e), later)
    by_test false e later = later
