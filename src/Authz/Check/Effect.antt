-- ===== src/Authz/Check/Effect.antt =====
-- What every action of `check` (pkg/authz/engine.go) does to the scratch state, and the rules by
-- which the effects of its parts compose.
use workspace.Base.{
  ◌+◌, ◌≤◌, ◌≡◌, refl, ◌∙◌, Bool, ◌&&◌, some, arith, inl, inr, Bool-cases, Result, ok, err,
}
use workspace.Base.Int.{pos, ltb_ℤ, is_positive}
use workspace.Authz.Model.{SubjectSet}
use workspace.Authz.Keys.{IsPlain}
use workspace.Authz.State.{
  EvalState, Eval, lift, ◌>>=◌, charge, call_store, backstop, BackstopReason, visit_key, memo_key,
}
use workspace.Authz.Engine.{Request}
use workspace.Authz.Decision.{Decides}

-- Each memoised result is the decision of its userset.
abbrev pub MemoHolds : Request → EvalState → Type 0
MemoHolds r st =
    (u : SubjectSet) (negated b : Bool)
    → IsPlain u
    → st.memo (memo_key (visit_key u) negated) ≡ some b
    → Decides r u b

-- An action that began at `st` has ended with `p`: the marks of visited usersets are as before,
-- the backstops have not fallen, and the memo is right.
pub record Effect {A : Type 0} (r : Request) (st : EvalState) (p : Result A × EvalState)
    : Type 0 where
  pub visited : p.1.visited ≡ st.visited
  pub cycles : st.cycles_seen ≤ p.1.cycles_seen
  pub memo : MemoHolds r st → MemoHolds r p.1

module _ {A : Type 0} {r : Request} where
  -- an action that leaves the state alone
  pub Effect-lift : (st : EvalState) (res : Result A) → Effect r st (lift res st)
  Effect-lift st res = record { visited = refl; cycles = omega arith; memo = λ h. h }

module _ {r : Request} where
  pub Effect-backstop :
      (reason : BackstopReason) (negated : Bool) (st : EvalState)
      → Effect r st (backstop reason negated st)
  unfolding backstop
  Effect-backstop reason negated st = record { visited = refl; cycles = omega arith; memo = λ h. h }

  pub Effect-charge : (st : EvalState) → Effect r st (charge st)
  unfolding charge
  Effect-charge st =
      elim (Bool-cases (is_positive st.max_reads && ltb_ℤ st.max_reads (pos (st.reads + 1)))) [
        | inl full ↦ rw full (record { visited = refl; cycles = omega arith; memo = λ h. h })
        | inr free ↦ rw free (record { visited = refl; cycles = omega arith; memo = λ h. h })
      ]

  -- what follows a call of the store
  pub Effect-call_store :
      {A B : Type 0} (res : Result A) (k : A → Eval B) (st : EvalState)
      → ((a : A) (st' : EvalState) → res ≡ ok a → Effect r st' (k a st'))
      → Effect r st ((call_store res >>= k) st)
  Effect-call_store (ok a) k st next =
      let n = next a (call_store (ok a) st).1 refl in
      record { visited = n.visited; cycles = n.cycles; memo = n.memo }
  Effect-call_store (err x) k st next = record {
    visited = refl;
    cycles = omega arith;
    memo = λ h. h;
  }

  pub Effect-bind :
      {A B : Type 0} (m : Eval A) (k : A → Eval B) (st : EvalState)
      → Effect r st (m st)
      → ((a : A) (st' : EvalState) → Effect r st' (k a st'))
      → Effect r st ((m >>= k) st)
  Effect-bind {A} {B} m k st first next = ended (m st) first
    where
      ended : (p : Result A × EvalState) → Effect r st p → Effect r st (((λ _. p) >>= k) st)
      ended (ok a, st') h =
          let n = next a st' in
          record {
            visited = n.visited ∙ h.visited;
            cycles = omega (arith, h.cycles, n.cycles);
            memo = λ v. n.memo (h.memo v);
          }
      ended (err x, st') h = record { visited = h.visited; cycles = h.cycles; memo = h.memo }
