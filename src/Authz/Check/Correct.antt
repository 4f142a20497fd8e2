-- ===== src/Authz/Check/Correct.antt =====
-- `check` (pkg/authz/engine.go) against the meaning of the model: what it answers is decided by a
-- derivation, unless it met a cycle or the depth limit and failed closed.
use mathlib.Core.Logic.{⊎_elim}
use workspace.Base.{
  ℕ, zero, suc, String, ◌≡◌, refl, sym, ap, ◌∙◌, subst, inl, inr, Bool, true, false, Option, none,
  some, arith, is_equal, Bool-cases, Result, ok, err, ok-injective, update, update-update_back,
  eq_iff, ◌==◌,
}
use workspace.Authz.Model.{SubjectSet, Rewrite, rewrite_of}
use workspace.Authz.State.{
  EvalState, Eval, backstop, BackstopReason, visit_key, memo_key, set_visited, set_memo,
}
use workspace.Authz.Engine.{Request}
use workspace.Authz.Keys.{IsPlain, visit_key-injective, memo_key-injective}
use workspace.Authz.Check.{eval_rewrite, remember, evaluate, check, or_evaluate, top_check}
use workspace.Authz.Check.Effect.{MemoHolds, Effect-lift, Effect-backstop}
use workspace.Authz.Check.Answers.{Outcome, Sound, Sound-map}
use workspace.Authz.Check.Rules.{PlainStore, CallSound, eval_rewrite-Sound}
use workspace.Authz.Decision.{Decides, Rule, by_rule}

module _ (r : Request) (u : SubjectSet) (negated : Bool) (plain : IsPlain u) where
  -- a clean result may be memoised
  set_memo-MemoHolds :
      (b : Bool) (st : EvalState)
      → Decides r u b
      → MemoHolds r st
      → MemoHolds r (set_memo (memo_key (visit_key u) negated) b st)
  unfolding set_memo
  set_memo-MemoHolds b st d h v n c p e =
      elim (Bool-cases (memo_key (visit_key u) negated == memo_key (visit_key v) n)) [
        | inl same ↦
            let (keys, _) =
              memo_key-injective (visit_key u) (visit_key v) negated n ((eq_iff _ _).0 same) in
            let found : some b ≡ some c = rw same at e in
            let values : b ≡ c = cc found in
            subst (λ w. Decides r w c) (visit_key-injective u v plain p keys)
              (subst (Decides r u) values d)
        | inr other ↦ h v n c p (rw other at e)
      ]

  -- Marking, evaluating and unmarking leaves the marks as they were, and caches only what was
  -- decided without a backstop.
  evaluate-Sound :
      (body : Eval Bool)
      → Sound r negated (Decides r u) body
      → (st : EvalState) → st.visited (visit_key u) ≡ false
      → Outcome r negated (Decides r u) st (evaluate (visit_key u) negated body st)
  unfolding evaluate
  evaluate-Sound body h st fresh =
      ended (body (set_visited (visit_key u) true st)) (h (set_visited (visit_key u) true st))
    where
      key : String
      key = visit_key u

      unmarked :
          (visited' : String → Bool)
          → visited' ≡ update st.visited key true
          → update visited' key false ≡ st.visited
      unmarked visited' e =
          ap (λ v. update v key false) e ∙ update-update_back st.visited key true false fresh

      ended :
          (p : Result Bool × EvalState)
          → Outcome r negated (Decides r u) (set_visited key true st) p
          → Outcome r negated
              (Decides r u)
              st
              (remember key negated st.cycles_seen (p.0, set_visited key false p.1))
      ended (err x, st') o = record {
        effect = record {
          visited = unmarked st'.visited o.effect.visited;
          cycles = o.effect.cycles;
          memo = o.effect.memo;
        };
        answer = λ m c e. cc;
      }
      ended (ok b, st') o = elim (Bool-cases (is_equal st'.cycles_seen st.cycles_seen)) [
        | inl clean ↦ rw clean (record {
          effect = record {
            visited = unmarked st'.visited o.effect.visited;
            cycles = o.effect.cycles;
            memo = λ m.
                set_memo-MemoHolds b (set_visited key false st')
                  (⊎_elim (λ dirty. absurd (ground arith)) (λ d. d) (o.answer m b refl))
                  (o.effect.memo m);
          };
          answer = o.answer;
        })
        | inr dirty ↦ rw dirty (record {
          effect = record {
            visited = unmarked st'.visited o.effect.visited;
            cycles = o.effect.cycles;
            memo = o.effect.memo;
          };
          answer = o.answer;
        })
      ]

-- the default of the polarity, after a backstop
Outcome-backstop :
    (r : Request) (S : Bool → Type 0) (reason : BackstopReason) (negated : Bool) (st : EvalState)
    → Outcome r negated S st (backstop reason negated st)
unfolding backstop
Outcome-backstop r S reason negated st = record {
  effect = Effect-backstop reason negated st;
  answer = λ m b e. inl (omega arith, sym (ok-injective e));
}

-- Every call of `check` on a plain userset, at every remaining depth, from every state.
pub check-Sound : (r : Request) → PlainStore r → (left : ℕ) → CallSound r (check r left)
unfolding check
check-Sound r store zero u negated plain st = elim (Bool-cases (st.visited (visit_key u))) [
  | inl seen ↦ rw seen (Outcome-backstop r (Decides r u) BackstopReason.cycle negated st)
  | inr fresh ↦ rw fresh (Outcome-backstop r (Decides r u) BackstopReason.depth negated st)
]
check-Sound r store (suc left) u negated plain st = elim (Bool-cases (st.visited (visit_key u))) [
  | inl seen ↦ rw seen (Outcome-backstop r (Decides r u) BackstopReason.cycle negated st)
  | inr fresh ↦ rw fresh (
      memoised
        (Sound-map r negated (Rule r u rule) (Decides r u)
          (eval_rewrite r (check r left) u rule negated) (λ b. by_rule)
          (eval_rewrite-Sound r store (check r left) (check-Sound r store left) u plain rule
            negated))
        (st.memo (memo_key (visit_key u) negated)) refl fresh)
]
  where
    rule : Rewrite
    rule = rewrite_of r.model u.namespace u.relation

    memoised :
        Sound r negated (Decides r u) (eval_rewrite r (check r left) u rule negated)
        → (o : Option Bool) → st.memo (memo_key (visit_key u) negated) ≡ o
        → st.visited (visit_key u) ≡ false
        → Outcome r negated (Decides r u) st (
            or_evaluate o
              (evaluate (visit_key u) negated (eval_rewrite r (check r left) u rule negated))
              st)
    memoised body none e fresh = evaluate-Sound r u negated plain _ body st fresh
    memoised body (some b) e fresh = record {
      effect = Effect-lift st (ok b);
      answer = λ m c q. inr (m u negated c plain (e ∙ ap some (ok-injective q)));
    }

-- a Check that grants, from a state whose memo is right
pub top_check-grants :
    (r : Request) (store : PlainStore r) (u : SubjectSet) (plain : IsPlain u) (st : EvalState)
    → MemoHolds r st
    → (top_check r u st).0 ≡ ok true
    → Decides r u true
top_check-grants r store u plain st memo h =
    ⊎_elim (λ dirty. absurd (cc)) (λ d. d)
      ((check-Sound r store (suc r.engine.max_depth) u false plain st).answer memo true h)
