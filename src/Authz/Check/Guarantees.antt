-- ===== src/Authz/Check/Guarantees.antt =====
-- What a Check promises its caller (`CheckWithModel` in pkg/authz/engine.go).
use workspace.Base.{suc, String, ◌≡◌, Bool, true, false, Option, arith, ok}
use mathlib.Core.Logic.{⊎_elim}
use workspace.Base.Int.{ℤ}
use workspace.Authz.Condition.{Fields}
use workspace.Authz.Model.{SubjectSet, Model}
use workspace.Authz.State.{Backstops, new_eval_state}
use workspace.Authz.Engine.{Engine, Request, user_query, effective_max_reads}
use workspace.Authz.Keys.{IsPlain}
use workspace.Authz.Check.{check_with_model}
use workspace.Authz.Check.Effect.{MemoHolds}
use workspace.Authz.Check.Answers.{Outcome}
use workspace.Authz.Check.Rules.{PlainStore}
use workspace.Authz.Check.Correct.{check-Sound}
use workspace.Authz.Decision.{Decides}

-- the request that a Check for a user evaluates
abbrev pub user_request : Engine → Model → String → String → String → Fields → Request
user_request e m project tenant user ctx = record {
  engine = e;
  model = m;
  project_id = project;
  tenant_id = tenant;
  query = user_query user;
  context = ctx;
}

module _ (e : Engine) (m : Model) (project tenant : String) (u : SubjectSet) (user : String)
    (ctx : Fields) (override : ℤ) (backstops : Option Backstops)
    (store : PlainStore (user_request e m project tenant user ctx)) (plain : IsPlain u) where
  outcome :
      Outcome
        (user_request e m project tenant user ctx)
        false
        (Decides (user_request e m project tenant user ctx) u)
        (new_eval_state (effective_max_reads e override) backstops)
        (check_with_model e m project tenant u user ctx override backstops)
  unfolding check_with_model
  outcome =
      check-Sound (user_request e m project tenant user ctx) store (suc e.max_depth) u false plain
        (new_eval_state (effective_max_reads e override) backstops)

  fresh :
      MemoHolds
        (user_request e m project tenant user ctx)
        (new_eval_state (effective_max_reads e override) backstops)
  unfolding new_eval_state
  fresh v n b p h = absurd (cc)

  -- If a Check grants, then a finite derivation from the model's rules and the stored tuples shows
  -- that the user is in the userset, in a store whose usersets have unambiguous keys: no cycle, no
  -- depth limit and no cached result makes it grant more.
  pub check_with_model-grants :
      (check_with_model e m project tenant u user ctx override backstops).0 ≡ ok true
      → Decides (user_request e m project tenant user ctx) u true
  check_with_model-grants h = ⊎_elim (λ dirty. cc) (λ d. d) (outcome.answer fresh true h)

  -- If a Check answers and has met neither a cycle nor the depth limit, then its answer, a denial
  -- too, is what the model's rules decide, in a store whose usersets have unambiguous keys.
  pub check_with_model-Decides :
      (b : Bool)
      → (check_with_model e m project tenant u user ctx override backstops).0 ≡ ok b
      → (check_with_model e m project tenant u user ctx override backstops).1.cycles_seen ≡ 0
      → Decides (user_request e m project tenant user ctx) u b
  check_with_model-Decides b h clean =
      ⊎_elim (λ dirty. absurd (omega (arith, dirty.0))) (λ d. d) (outcome.answer fresh b h)
