-- ===== src/Authz/Spending.antt =====
-- The read budget of pkg/authz/engine.go across an operation: how often an action on any state that
-- holds the scratch state calls the store, and the rules by which such actions compose.
use workspace.Base.{
  ℕ, suc, ◌+◌, ◌≤◌, ◌≡◌, refl, ◌∙◌, Bool, true, false, ◌&&◌, arith, if◌then◌else◌, Error, Result,
  ok, err,
}
use workspace.Base.Int.{pos, ltb_ℤ, is_positive}
use workspace.Authz.State.{
  EvalState, Action, lift, ◌>>=◌, ◌>>◌, charge, call_store, BackstopReason, record_backstop,
}

-- the charge that exhausts the budget is counted too
abbrev pub overrun : {A : Type 0} → Result A → ℕ
overrun (ok _) = 0
overrun (err _) = 1

-- Within a positive budget and with no more calls than charges, an action keeps both so, but for the
-- charge that fails, after which the store is not called.
pub record Spends {A : Type 0} (st : EvalState) (res : Result A) (st' : EvalState) : Type 0 where
  pub max_reads : st'.max_reads ≡ st.max_reads
  pub bound :
      (n : ℕ)
      → st.max_reads ≡ pos (suc n)
      → st.reads ≤ suc n
      → st.list_calls ≤ st.reads
      → (st'.reads ≤ suc n + overrun res) × (st'.list_calls ≤ st'.reads) × (st'.list_calls ≤ suc n)

pub Spends-nothing : {A : Type 0} (st : EvalState) (res : Result A) → Spends st res st
Spends-nothing st res = record {
  max_reads = refl;
  bound = λ n e h c. (omega arith, c, omega arith);
}

-- a call of the store after a charge that succeeds
pub Spends-read :
    {A : Type 0} (res : Result A) (st : EvalState)
    → Spends st ((charge >> call_store res) st).0 ((charge >> call_store res) st).1
unfolding charge record_backstop
Spends-read {A} res st =
    by_test (is_positive st.max_reads && ltb_ℤ st.max_reads (pos (st.reads + 1))) refl
  where
    charged : EvalState
    charged = record st { reads = st.reads + 1 }

    charge_by : Bool → Action EvalState (Unit {0})
    charge_by b _ =
        if b
        then (err Error.eval_budget_exceeded, record_backstop BackstopReason.budget charged)
        else (ok tt, charged)

    by_test :
        (b : Bool)
        → (is_positive st.max_reads && ltb_ℤ st.max_reads (pos (st.reads + 1))) ≡ b
        → Spends st ((charge_by b >> call_store res) st).0 ((charge_by b >> call_store res) st).1
    by_test true full = record {
      max_reads = refl;
      bound = λ n e h c. (omega arith, omega arith, omega arith);
    }
    by_test false free = record {
      max_reads = refl;
      bound = λ n e h c.
          let fits : st.reads + 1 ≤ suc n = ground arith in (omega arith, omega arith, omega arith);
    }

pub Spends-then :
    {A B : Type 0} {st st' st'' : EvalState} {a : A} {res : Result B}
    → Spends st (ok a) st'
    → Spends st' res st''
    → Spends st res st''
Spends-then h n = record {
  max_reads = n.max_reads ∙ h.max_reads;
  bound = λ l e b c.
      let (reads, calls, _) = h.bound l e b c in
      n.bound l (h.max_reads ∙ e) (omega (arith, reads)) calls;
}

-- the same reads with another value
pub Spends-map :
    {A B : Type 0} {st st' : EvalState} {a : A} {b : B}
    → Spends st (ok a) st'
    → Spends st (ok b) st'
Spends-map h = record { max_reads = h.max_reads; bound = h.bound }

-- an error is passed on at any type
pub Spends-failed :
    {A B : Type 0} {st st' : EvalState} {x : Error}
    → Spends {A = A} st (err x) st'
    → Spends {A = B} st (err x) st'
Spends-failed h = record { max_reads = h.max_reads; bound = h.bound }

-- a backstop that only counts itself
pub Spends-recorded :
    {A : Type 0} {res : Result A} (reason : BackstopReason) (st : EvalState)
    → Spends st res (record_backstop reason st)
unfolding record_backstop
Spends-recorded reason st = record {
  max_reads = refl;
  bound = λ n e h c. (omega arith, c, omega arith);
}

module _ {S : Type 0} (eval : S → EvalState) where
  -- an action spends like this from each state
  abbrev pub Frugal : {A : Type 0} → Action S A → Type 0
  Frugal m = (st : S) → Spends (eval st) (m st).0 (eval (m st).1)

  pub Frugal-lift : {A : Type 0} (res : Result A) → Frugal (lift res)
  Frugal-lift res st = Spends-nothing (eval st) res

  pub Frugal-bind :
      {A B : Type 0} (m : Action S A) (k : A → Action S B)
      → Frugal m
      → ((a : A) → Frugal (k a))
      → Frugal (m >>= k)
  Frugal-bind {A} {B} m k first next st = ended (m st) (first st)
    where
      ended :
          (p : Result A × S)
          → Spends (eval st) p.0 (eval p.1)
          → Spends (eval st) (((λ (_ : S). p) >>= k) st).0 (eval (((λ (_ : S). p) >>= k) st).1)
      ended (ok a, st') h = Spends-then h (next a st')
      ended (err x, st') h = Spends-failed h

  pub Frugal-if :
      {A : Type 0} (b : Bool) (m k : Action S A) → Frugal m → Frugal k → Frugal (if b then m else k)
  Frugal-if true m k h h' = h
  Frugal-if false m k h h' = h'
