-- ===== src/Authz/Expand/Effect.antt =====
-- What every action of `expand` (pkg/authz/expand.go) does to the shared state, and the rules by which
-- the effects of its parts compose.
use workspace.Base.{
  ℕ, suc, ◌+◌, ◌-◌, ◌≤◌, ◌≡◌, refl, ap, ◌∙◌, subst, arith, Result, ok, err, ok-injective,
}
use workspace.Base.Int.{ℤ, pos}
use workspace.Authz.State.{pure, lift, ◌>>=◌, ◌>>◌, charge, call_store}
use workspace.Authz.Expand.{ExpandState, Expand, on_eval, bump}
use workspace.Authz.Spending.{
  Spends, Spends-nothing, Spends-read, Spends-then, Spends-map, Spends-failed,
}

-- An action that began at `st` has ended with `p`: the path is as before, the reads are within the
-- budget, and the node count has grown by the weight of the result at least, within the cap.
pub record Effect {A : Type 0} (max : ℤ) (weight : A → ℕ) (st : ExpandState)
    (p : Result A × ExpandState) : Type 0 where
  pub visited : p.1.visited ≡ st.visited
  pub spends : Spends st.eval p.0 p.1.eval
  pub counted : (a : A) → p.0 ≡ ok a → st.count + weight a ≤ p.1.count
  pub capped :
      (n : ℕ) → max ≡ pos (suc n) → st.count ≤ suc n → (a : A) → p.0 ≡ ok a → p.1.count ≤ suc n

module _ (max : ℤ) where
  pub record Grows {A : Type 0} (weight : A → ℕ) (m : Expand A) : Type 0 where
    pub at : (st : ExpandState) → Effect max weight st (m st)

  pub Grows-lift : {A : Type 0} (res : Result A) → Grows (λ (_ : A). 0) (lift res)
  Grows-lift res = record {
    at = λ st. record {
      visited = refl;
      spends = Spends-nothing st.eval res;
      counted = λ a e. omega arith;
      capped = λ n e h a q. h;
    };
  }

  pub Grows-pure : {A : Type 0} (weight : A → ℕ) (a : A) → weight a ≡ 0 → Grows weight (pure a)
  Grows-pure weight a zero_weight = record {
    at = λ st. record {
      visited = refl;
      spends = Spends-nothing st.eval (ok a);
      counted = λ b e. omega (arith, zero_weight, ap weight (ok-injective e));
      capped = λ n e h b q. h;
    };
  }

  -- a charged read
  pub Grows-read :
      {A : Type 0} (res : Result A) → Grows (λ (_ : A). 0) (on_eval (charge >> call_store res))
  Grows-read res = record {
    at = λ st. record {
      visited = refl;
      spends = Spends-read res st.eval;
      counted = λ a e. omega arith;
      capped = λ n e h a q. h;
    };
  }

  -- A bump counts its nodes, and fails exactly past a positive cap.
  pub Grows-bump : (n : ℕ) → Grows (λ (_ : Unit {0}). n) (bump max n)
  unfolding bump
  Grows-bump n = record {
    at = λ st. record {
      visited = refl;
      spends = Spends-nothing st.eval _;
      counted = λ a e. omega arith;
      capped = λ l e h a q. ground arith;
    };
  }

  pub Grows-weaken : {A : Type 0} (v : A → ℕ) (m : Expand A) → Grows v m → Grows (λ (_ : A). 0) m
  Grows-weaken v m g = record {
    at = λ st.
        let h = g.at st in
        record {
          visited = h.visited;
          spends = h.spends;
          counted = λ a e. omega (arith, h.counted a e);
          capped = h.capped;
        };
  }

  -- a weightless action, and one that depends on what it returns
  pub Grows-bind :
      {A B : Type 0} (weight : B → ℕ) (m : Expand A) (k : A → Expand B)
      → Grows (λ (_ : A). 0) m
      → ((a : A) → Grows weight (k a))
      → Grows weight (m >>= k)
  Grows-bind {A} {B} weight m k first next = record { at = λ st. ended st (m st) (first.at st) }
    where
      ended :
          (st : ExpandState) (p : Result A × ExpandState)
          → Effect max (λ _. 0) st p
          → Effect max weight st (((λ (_ : ExpandState). p) >>= k) st)
      ended st (ok a, st') h =
          let n = (next a).at st' in
          record {
            visited = n.visited ∙ h.visited;
            spends = Spends-then h.spends n.spends;
            counted = λ b e. omega (arith, h.counted a refl, n.counted b e);
            capped = λ l e le. n.capped l e (h.capped l e le a refl);
          }
      ended st (err x, st') h = record {
        visited = h.visited;
        spends = Spends-failed h.spends;
        counted = λ b e. cc;
        capped = λ l e le b q. cc;
      }

  -- the nodes that a bump has counted come on top
  pub Grows-after :
      {B : Type 0} (n : ℕ) (weight : B → ℕ) (k : Expand B)
      → Grows (λ (_ : Unit {0}). n) (bump max n)
      → Grows weight k
      → Grows weight (bump max n >> k)
  Grows-after n weight k first next =
      Grows-bind weight (bump max n) (λ _. k) (Grows-weaken (λ _. n) (bump max n) first) (λ _. next)

  -- a result made of an earlier one, of no greater weight
  pub Grows-map :
      {A B : Type 0} (v : A → ℕ) (weight : B → ℕ) (m : Expand A) (f : A → B)
      → Grows v m
      → ((a : A) → weight (f a) ≤ v a)
      → Grows weight (m >>= λ a. pure (f a))
  Grows-map {A} {B} v weight m f first le = record { at = λ st. ended st (m st) (first.at st) }
    where
      same : (a : A) (b : B) → ◌≡◌ {A = Result B} (ok (f a)) (ok b) → weight b ≤ v a
      same a b e = subst (λ c. weight c ≤ v a) (ok-injective e) (le a)

      ended :
          (st : ExpandState) (p : Result A × ExpandState)
          → Effect max v st p
          → Effect max weight st (((λ (_ : ExpandState). p) >>= λ a. pure (f a)) st)
      ended st (ok a, st') h = record {
        visited = h.visited;
        spends = Spends-map h.spends;
        counted = λ b e. omega (arith, h.counted a refl, same a b e);
        capped = λ l e le' b q. h.capped l e le' a refl;
      }
      ended st (err x, st') h = record {
        visited = h.visited;
        spends = Spends-failed h.spends;
        counted = λ b e. cc;
        capped = λ l e le' b q. cc;
      }

  -- a result made of two, of no greater weight than theirs
  pub Grows-both :
      {A B C : Type 0} (v : A → ℕ) (w : B → ℕ) (weight : C → ℕ) (m : Expand A) (k : Expand B)
      (f : A → B → C)
      → Grows v m
      → Grows w k
      → ((a : A) (b : B) → weight (f a b) ≤ v a + w b)
      → Grows weight (m >>= λ a. k >>= λ b. pure (f a b))
  Grows-both {A} {B} {C} v w weight m k f first second le = record {
    at = λ st. ended st (m st) (first.at st);
  }
    where
      ended :
          (st : ExpandState) (p : Result A × ExpandState)
          → Effect max v st p
          → Effect max weight st (((λ (_ : ExpandState). p) >>= λ a. k >>= λ b. pure (f a b)) st)
      ended st (ok a, st') h =
          let n =
            (Grows-map w (λ c. weight c - v a) k (f a) second (λ b. omega (arith, le a b))).at
              st' in
          record {
            visited = n.visited ∙ h.visited;
            spends = Spends-then h.spends n.spends;
            counted = λ c e. omega (arith, h.counted a refl, n.counted c e);
            capped = λ l e le'. n.capped l e (h.capped l e le' a refl);
          }
      ended st (err x, st') h = record {
        visited = h.visited;
        spends = Spends-failed h.spends;
        counted = λ b e. cc;
        capped = λ l e le' b q. cc;
      }
