-- ===== src/Authz/Check/Answers.antt =====
-- When an action of `check` (pkg/authz/engine.go) answers as a specification says, and the rules
-- for the ways in which the code combines answers.
use workspace.Base.{
  ℕ, ◌≤◌, ◌<◌, ◌≡◌, refl, sym, ◌∙◌, subst, ◌⊎◌, inl, inr, Bool, true, false, not, arith,
  if◌then◌else◌, Result, ok, err, ok-injective,
}
use mathlib.Core.Logic.{⊎_elim}
use workspace.Authz.State.{EvalState, Eval, pure, ◌>>=◌, ◌>>◌, charge, call_store}
use workspace.Authz.Engine.{Request}
use workspace.Authz.Check.{or_else, and_also}
use workspace.Authz.Check.Effect.{
  MemoHolds, Effect, Effect-lift, Effect-charge, Effect-bind, Effect-call_store,
}

-- The answer is right, or it is the polarity's default after a backstop was met on the way.
abbrev pub Answer : Bool → (Bool → Type 0) → ℕ → ℕ → Bool → Type 0
Answer negated S before after b = ((before < after) × (b ≡ negated)) ⊎ S b

abbrev IsAnswer : Bool → Bool → Type 0
IsAnswer b c = c ≡ b

-- what the rest of a loop has to answer, by the answer of its first part
abbrev IfGranted : (Bool → Type 0) → (Bool → Type 0) → Bool → Bool → Type 0
IfGranted S T true = S
IfGranted S T false = T

module _ (r : Request) where
  pub record Outcome (negated : Bool) (S : Bool → Type 0) (st : EvalState)
      (p : Result Bool × EvalState) : Type 0 where
    pub effect : Effect r st p
    pub answer :
        MemoHolds r st → (b : Bool) → p.0 ≡ ok b → Answer negated S st.cycles_seen p.1.cycles_seen b

  abbrev pub Sound : Bool → (Bool → Type 0) → Eval Bool → Type 0
  Sound negated S m = (st : EvalState) → Outcome negated S st (m st)

  pub Sound-pure : (negated : Bool) (S : Bool → Type 0) (b : Bool) → S b → Sound negated S (pure b)
  Sound-pure negated S b s st = record {
    effect = Effect-lift st (ok b);
    answer = λ m c e. inr (subst S (ok-injective e) s);
  }

  pub Sound-map :
      (negated : Bool) (S T : Bool → Type 0) (m : Eval Bool)
      → ((b : Bool) → S b → T b)
      → Sound negated S m
      → Sound negated T m
  Sound-map negated S T m f first st = record {
    effect = (first st).effect;
    answer = λ h b e. ⊎_elim inl (λ s. inr (f b s)) ((first st).answer h b e);
  }

  -- a charged read of the store, and what is done with what it returns
  pub Sound-read :
      {A : Type 0} (negated : Bool) (S : Bool → Type 0) (res : Result A) (k : A → Eval Bool)
      → ((a : A) → res ≡ ok a → Sound negated S (k a))
      → Sound negated S (charge >> call_store res >>= k)
  Sound-read {A} negated S res k next st = charged (charge st) (Effect-charge st) res next
    where
      charged :
          (p : Result (Unit {0}) × EvalState)
          → Effect r st p
          → (res : Result A) → ((a : A) → res ≡ ok a → Sound negated S (k a))
          → Outcome negated S st (((λ (_ : EvalState). p) >> call_store res >>= k) st)
      charged (err x, st') h res next = record {
        effect = Effect-bind (λ _. (err x, st')) _ st h (λ _ st''. Effect-lift st'' (err x));
        answer = λ m b e. cc;
      }
      charged (ok _, st') h (err x) next = record {
        effect =
            Effect-bind (λ _. (ok tt, st')) (λ _. call_store (err x) >>= k) st h
              (λ _ st''. Effect-call_store (err x) k st'' (λ a s e. absurd (cc)));
        answer = λ m b e. cc;
      }
      charged (ok _, st') h (ok a) next = record {
        effect =
            Effect-bind (λ _. (ok tt, st')) (λ _. call_store (ok a) >>= k) st h
              (λ _ st''. Effect-call_store (ok a) k st'' (λ c s e. (next c e s).effect));
        answer = λ m b e.
            ⊎_elim (λ d. inl (omega (arith, h.cycles, d.0), d.1)) inr
              ((next a refl (call_store (ok a) st').1).answer (h.memo m) b e);
      }

  -- The answers of two actions in a row make an answer of the whole.
  abbrev pub Joins :
      Bool → (Bool → Type 0) → Bool → (Bool → Bool → Type 0) → (Bool → Type 0) → Type 0
  Joins neg S neg' T U =
      (b c : Bool) (x y z : ℕ)
      → x ≤ y
      → y ≤ z
      → Answer neg S x y b
      → Answer neg' (T b) y z c
      → Answer neg' U x z c

  pub Sound-bind :
      (neg : Bool) (S : Bool → Type 0) (neg' : Bool) (T : Bool → Bool → Type 0) (U : Bool → Type 0)
      (m : Eval Bool) (k : Bool → Eval Bool)
      → Joins neg S neg' T U
      → Sound neg S m
      → ((b : Bool) → Sound neg' (T b) (k b))
      → Sound neg' U (m >>= k)
  Sound-bind neg S neg' T U m k join first next st = record {
    effect = Effect-bind m k st (first st).effect (λ b st'. (next b st').effect);
    answer = λ h. ended (m st) (first st) h;
  }
    where
      ended :
          (p : Result Bool × EvalState)
          → Outcome neg S st p
          → MemoHolds r st
          → (c : Bool) → (((λ (_ : EvalState). p) >>= k) st).0 ≡ ok c
          → Answer neg' U st.cycles_seen (((λ (_ : EvalState). p) >>= k) st).1.cycles_seen c
      ended (ok b, st') o h c e =
          let n = next b st' in
          join b c _ _ _ o.effect.cycles n.effect.cycles (o.answer h b refl)
            (n.answer (o.effect.memo h) c e)
      ended (err x, st') o h c e = cc

  module _ (negated : Bool) (S T U : Bool → Type 0) (m rest : Eval Bool) where
    -- a union: the first child that grants settles it
    pub Sound-or_else :
        (S true → U true)
        → (T true → U true)
        → (S false → T false → U false)
        → Sound negated S m
        → Sound negated T rest
        → Sound negated U (or_else m rest)
    Sound-or_else left right both first next =
        Sound-bind negated S negated (IfGranted (IsAnswer true) T) U m _ join first continue
      where
        join : Joins negated S negated (IfGranted (IsAnswer true) T) U
        join b c x y z le le' a (inl (dirty, default)) = inl (omega arith, default)
        join true c x y z le le' (inl (dirty, default)) (inr e) = inl (omega arith, e ∙ default)
        join true c x y z le le' (inr s) (inr e) = inr (subst U (sym e) (left s))
        join false true x y z le le' a (inr t) = inr (right t)
        join false false x y z le le' (inl (dirty, default)) (inr t) = inl (omega arith, default)
        join false false x y z le le' (inr s) (inr t) = inr (both s t)

        continue :
            (b : Bool)
            → Sound negated (IfGranted (IsAnswer true) T b) (if b then pure true else rest)
        continue true = Sound-pure negated (IsAnswer true) true refl
        continue false = next

    -- an intersection: the first child that does not grant settles it
    pub Sound-and_also :
        (S true → T true → U true)
        → (S false → U false)
        → (T false → U false)
        → Sound negated S m
        → Sound negated T rest
        → Sound negated U (and_also m rest)
    Sound-and_also both left right first next =
        Sound-bind negated S negated (IfGranted T (IsAnswer false)) U m _ join first continue
      where
        join : Joins negated S negated (IfGranted T (IsAnswer false)) U
        join b c x y z le le' a (inl (dirty, default)) = inl (omega arith, default)
        join false c x y z le le' (inl (dirty, default)) (inr e) = inl (omega arith, e ∙ default)
        join false c x y z le le' (inr s) (inr e) = inr (subst U (sym e) (left s))
        join true false x y z le le' a (inr t) = inr (right t)
        join true true x y z le le' (inl (dirty, default)) (inr t) = inl (omega arith, default)
        join true true x y z le le' (inr s) (inr t) = inr (both s t)

        continue :
            (b : Bool)
            → Sound negated (IfGranted T (IsAnswer false) b) (if b then rest else pure false)
        continue true = next
        continue false = Sound-pure negated (IsAnswer false) false refl

  -- The Exclude branch runs in the other polarity, and its answer is turned round.
  pub Sound-negation :
      (negated : Bool) (S T : Bool → Type 0) (m : Eval Bool)
      → (S true → T false)
      → (S false → T true)
      → Sound (not negated) S m
      → Sound negated T (m >>= λ excluded. pure (not excluded))
  Sound-negation negated S T m yes' no' first =
      Sound-bind (not negated) S negated (λ b. IsAnswer (not b)) T m _ (join negated) first
        (λ b. Sound-pure negated (IsAnswer (not b)) (not b) refl)
    where
      turned : (n b : Bool) → b ≡ not n → not b ≡ n
      turned n b e = ground arith

      right : (b : Bool) → S b → T (not b)
      right true s = yes' s
      right false s = no' s

      join : (n : Bool) → Joins (not n) S n (λ b. IsAnswer (not b)) T
      join n b c x y z le le' a (inl (dirty, default)) = inl (omega arith, default)
      join n b c x y z le le' (inl (dirty, default)) (inr e) =
          inl (omega arith, e ∙ turned n b default)
      join n b c x y z le le' (inr s) (inr e) = inr (subst T (sym e) (right b s))
