-- ===== src/Authz/State.antt =====
-- pkg/authz/engine.go and backstop.go: the scratch state of one operation, its read budget, and
-- the backstop counters. An operation is an action on that state, which an error leaves as it is.
use Prim.Native.String.{◌++◌}
use workspace.Base.{
  ℕ, ◌+◌, String, ◌≡◌, refl, Bool, true, false, ◌&&◌, Option, none, some, if◌then◌else◌, Result, ok,
  err, Error, update,
}
use workspace.Base.Int.{ℤ, pos, ltb_ℤ, is_positive}
use workspace.Authz.Model.{SubjectSet}

pub data BackstopReason : Type 0 where
  depth cycle budget : BackstopReason

pub record Backstops : Type 0 where
  pub depth : ℕ
  pub cycle : ℕ
  pub budget : ℕ

-- Go's `evalState`; `backstops` is the collector that the context carries, if one is installed.
-- `list_calls` is not in the code: it counts the calls of `ListSubjects` as they are made, so that
-- the reads of the store can be told from the `reads` that are charged.
pub record EvalState : Type 0 where
  pub visited : String → Bool
  pub memo : String → Option Bool
  pub cycles_seen : ℕ
  pub reads : ℕ
  pub list_calls : ℕ
  pub max_reads : ℤ
  pub backstops : Option Backstops

unfoldable pub new_eval_state : ℤ → Option Backstops → EvalState
new_eval_state max_reads backstops = record {
  visited = λ _. false;
  memo = λ _. none;
  cycles_seen = 0;
  reads = 0;
  list_calls = 0;
  max_reads = max_reads;
  backstops = backstops;
}

-- An action on a state of type `S`.
abbrev pub Action : Type 0 → Type 0 → Type 0
Action S A = S → Result A × S

abbrev pub Eval : Type 0 → Type 0
Eval A = Action EvalState A

abbrev pub pure : {S A : Type 0} → A → Action S A
pure a st = (ok a, st)

abbrev pub raise : {S A : Type 0} → Error → Action S A
raise e st = (err e, st)

abbrev pub lift : {S A : Type 0} → Result A → Action S A
lift r st = (r, st)

infixl 5 ◌>>=◌ ◌>>◌
abbrev pub ◌>>=◌ : {S A B : Type 0} → Action S A → (A → Action S B) → Action S B
◌>>=◌ m f st = let (r, st') = m st in elim r [ ok a ↦ f a st' | err e ↦ raise e st' ]

abbrev pub ◌>>◌ : {S A B : Type 0} → Action S A → Action S B → Action S B
m >> k = m >>= λ _. k

-- inversion of a bind that succeeds
pub bind-ok :
    {S A B : Type 0} (m : Action S A) (k : A → Action S B) (st : S) {b : B}
    → ((m >>= k) st).0 ≡ ok b
    → (a : A) × ((m st).0 ≡ ok a) × ((k a (m st).1).0 ≡ ok b)
bind-ok {S} {A} {B} m k st {b} h = at (m st) h
  where
    at :
        (p : Result A × S)
        → (((λ (_ : S). p) >>= k) st).0 ≡ ok b
        → (a : A) × (p.0 ≡ ok a) × ((k a p.1).0 ≡ ok b)
    at (ok a, st') h = (a, refl, h)
    at (err x, st') h = absurd (cc)

unfoldable pub bump_backstop : BackstopReason → Backstops → Backstops
bump_backstop BackstopReason.depth b = record b { depth = b.depth + 1 }
bump_backstop BackstopReason.cycle b = record b { cycle = b.cycle + 1 }
bump_backstop BackstopReason.budget b = record b { budget = b.budget + 1 }

-- `recordBackstop`: nothing happens when no collector is installed
unfoldable pub record_backstop : BackstopReason → EvalState → EvalState
record_backstop reason st = record st {
  backstops = elim st.backstops [ none ↦ none | some b ↦ some (bump_backstop reason b) ];
}

-- `st.charge()`, with the `recordBackstop` that each caller makes when it fails
unfoldable pub charge : Eval (Unit {0})
unfolding record_backstop
charge st =
    let st' = record st { reads = st.reads + 1 } in
    if is_positive st.max_reads && ltb_ℤ st.max_reads (pos st'.reads)
    then (err Error.eval_budget_exceeded, record_backstop BackstopReason.budget st')
    else (ok tt, st')

-- a call of `ListSubjects`, and what it returns
abbrev pub call_store : {A : Type 0} → Result A → Eval A
call_store res st = (res, record st { list_calls = st.list_calls + 1 })

-- a cycle, or a chain that is too deep: count it and answer the polarity's default
unfoldable pub backstop : BackstopReason → Bool → Eval Bool
unfolding record_backstop
backstop reason negated st =
    (ok negated, record_backstop reason (record st { cycles_seen = st.cycles_seen + 1 }))

unfoldable pub visit_key : SubjectSet → String
visit_key u = u.namespace ++ (":" ++ (u.object_id ++ ("#" ++ u.relation)))

abbrev format_bool : Bool → String
format_bool true = "true"
format_bool false = "false"

unfoldable pub memo_key : String → Bool → String
memo_key key negated = key ++ ("\u{1f}" ++ format_bool negated)

unfoldable pub set_visited : String → Bool → EvalState → EvalState
set_visited key b st = record st { visited = update st.visited key b }

unfoldable pub set_memo : String → Bool → EvalState → EvalState
set_memo key b st = record st { memo = update st.memo key (some b) }
