-- ===== src/Authz/Check/Complete.antt =====
-- A Check answers what the rules decide (`CheckWithModel` in pkg/authz/engine.go).
use workspace.Base.{
  ℕ, zero, suc, ◌<◌, String, ◌≡◌, ◌∙◌, ap, Bool, true, false, arith, ◌⊎◌, inl, inr, ok, Option,
  refl,
}
use workspace.Base.Int.{ℤ, is_positive}
use workspace.Authz.Condition.{Fields}
use workspace.Authz.Model.{SubjectSet, Model}
use workspace.Authz.State.{Backstops}
use workspace.Authz.Engine.{Engine, effective_max_reads}
use workspace.Authz.Keys.{IsPlain}
use workspace.Authz.Decision.{Decides}
use workspace.Authz.Decision.Unique.{Decides-unique}
use workspace.Authz.Check.{check_with_model}
use workspace.Authz.Check.Rules.{PlainStore}
use workspace.Authz.Check.Guarantees.{
  user_request, check_with_model-grants, check_with_model-Decides,
}
use workspace.Authz.Check.Total.{Reads, check_with_model-answers}

-- If the model's rules decide a userset by a finite derivation, either way, then a Check of it with no
-- positive read budget, in a store that answers every read and whose usersets have unambiguous keys,
-- answers what they decide, or else it has met a cycle or the depth limit and denies: a user is never
-- refused for another reason, and an excluded one is never let in.
pub check_with_model_complete :
    (e : Engine) (m : Model) (project tenant : String) (u : SubjectSet) (user : String)
    (ctx : Fields) (override : ℤ) (backstops : Option Backstops) (b : Bool)
    → PlainStore (user_request e m project tenant user ctx)
    → IsPlain u
    → is_positive (effective_max_reads e override) ≡ false
    → Reads (user_request e m project tenant user ctx)
    → Decides (user_request e m project tenant user ctx) u b
    → ((check_with_model e m project tenant u user ctx override backstops).0 ≡ ok b)
      ⊎ (((check_with_model e m project tenant u user ctx override backstops).0 ≡ ok false)
          × (0 < (check_with_model e m project tenant u user ctx override backstops).1.cycles_seen))
check_with_model_complete e m project tenant u user ctx override backstops b store plain free reads
      d =
    let (c, answers) =
      check_with_model-answers e m project tenant u user ctx override backstops free reads in
    by_answer c answers _ refl
  where
    by_answer :
        (c : Bool)
        → (check_with_model e m project tenant u user ctx override backstops).0 ≡ ok c
        → (n : ℕ)
        → (check_with_model e m project tenant u user ctx override backstops).1.cycles_seen ≡ n
        → ((check_with_model e m project tenant u user ctx override backstops).0 ≡ ok b)
          ⊎ (((check_with_model e m project tenant u user ctx override backstops).0 ≡ ok false)
              × (0
                  < (check_with_model e m project tenant u user ctx override
                      backstops).1.cycles_seen))
    by_answer c h zero clean = inl (
        h
        ∙ ap ok (
            Decides-unique _ u c b
              (check_with_model-Decides e m project tenant u user ctx override backstops store plain
                c h clean)
              d))
    by_answer true h (suc n) met = inl (
        h
        ∙ ap ok (
            Decides-unique _ u true b
              (check_with_model-grants e m project tenant u user ctx override backstops store plain
                h)
              d))
    by_answer false h (suc n) met = inr (h, omega arith)
