-- ===== src/Authz/Tests/CheckTests.antt =====
-- Checks on the small store (pkg/authz/engine.go), and the properties of Check at some of them.
use workspace.Base.{
  ◌<◌, ◌⊎◌, String, ◌≡◌, ◌≤◌, refl, subst, Bool, true, false, none, [], ◌∷◌, arith, Result, ok, err,
  Error,
}
use workspace.Base.Int.{ℤ, pos}
use workspace.Authz.Condition.{Fields, text}
use workspace.Authz.Model.{SubjectSet}
use workspace.Authz.State.{EvalState}
use workspace.Authz.Engine.{Request}
use workspace.Authz.Keys.{IsPlain}
use workspace.Base.Texts.{lacks}
use workspace.Authz.Decision.{Decides}
use workspace.Authz.Check.{check_with_model}
use workspace.Authz.Check.Guarantees.{
  user_request, check_with_model-grants, check_with_model-Decides,
}
use workspace.Authz.Check.Rules.{PlainStore, PlainSets}
use workspace.Authz.Check.Reads.{check_with_model-reads}
use workspace.Authz.Check.Complete.{check_with_model_complete}
use workspace.Authz.Check.Total.{Reads, check_with_model-answers}
use workspace.Authz.Tests.Store.{engine, model, rows, find, find-PlainSets, AllRows, userset}

abbrev asks : SubjectSet → String → Fields → ℤ → Result Bool × EvalState
asks u who ctx override = check_with_model engine model "p" "t" u who ctx override none

abbrev request : String → Request
request who = user_request engine model "p" "t" who []

abbrev roadmap : SubjectSet
roadmap = userset "resource" "roadmap" "viewer"

-- ann owns acme, above the folder of the roadmap
ann_views : (asks roadmap "ann" [] (pos 0)).0 ≡ ok true
unfolding check_with_model engine
ann_views = refl

ann_views_clean : (asks roadmap "ann" [] (pos 0)).1.cycles_seen ≡ 0
unfolding check_with_model engine
ann_views_clean = refl

-- a guest of acme does not view its documents
bob_views : (asks roadmap "bob" [] (pos 0)).0 ≡ ok false
unfolding check_with_model engine
bob_views = refl

bob_views_clean : (asks roadmap "bob" [] (pos 0)).1.cycles_seen ≡ 0
unfolding check_with_model engine
bob_views_clean = refl

-- carl edits in the scope "write" alone
carl_edits : (asks roadmap "carl" (("scope", text "write") ∷ []) (pos 0)).0 ≡ ok true
unfolding check_with_model engine
carl_edits = refl

carl_reads : (asks roadmap "carl" (("scope", text "read") ∷ []) (pos 0)).0 ≡ ok false
unfolding check_with_model engine
carl_reads = refl

-- bob is suspended in red and dan is not
suspension :
    ((asks (userset "team" "red" "active") "bob" [] (pos 0)).0 ≡ ok false)
    × ((asks (userset "team" "red" "active") "dan" [] (pos 0)).0 ≡ ok true)
unfolding check_with_model engine
suspension = (refl, refl)

-- two folders under one another: a denial, after a backstop
loop_denied :
    ((asks (userset "resource" "loop_a" "viewer") "ann" [] (pos 0)).0 ≡ ok false)
    × (1 ≤ (asks (userset "resource" "loop_a" "viewer") "ann" [] (pos 0)).1.cycles_seen)
unfolding check_with_model engine
loop_denied = (refl, omega arith)

-- a budget of two reads is too small for the roadmap
two_reads : (asks roadmap "ann" [] (pos 2)).0 ≡ err Error.eval_budget_exceeded
unfolding check_with_model engine
two_reads = refl

pub rows_plain : AllRows rows
unfolding lacks
rows_plain = ground arith

store_plain : (who : String) → PlainStore (request who)
unfolding engine
store_plain who u ss e =
    let same : find rows u ≡ ss = cc in subst PlainSets same (find-PlainSets rows rows_plain u)

pub roadmap-IsPlain : IsPlain roadmap
unfolding lacks
roadmap-IsPlain = record { namespace_plain = refl; object_plain = refl }

check_with_model-grants_example : Decides (request "ann") roadmap true
check_with_model-grants_example =
    check_with_model-grants engine model "p" "t" roadmap "ann" [] (pos 0) none (store_plain "ann")
      roadmap-IsPlain ann_views

check_with_model-Decides_example : Decides (request "bob") roadmap false
check_with_model-Decides_example =
    check_with_model-Decides engine model "p" "t" roadmap "bob" [] (pos 0) none (store_plain "bob")
      roadmap-IsPlain false bob_views bob_views_clean

check_with_model-reads_example : (asks roadmap "ann" [] (pos 2)).1.list_calls ≤ 2
unfolding engine
check_with_model-reads_example =
    check_with_model-reads engine model "p" "t" roadmap "ann" [] (pos 2) none 1 refl

-- the third read is charged and not made
two_calls :
    ((asks roadmap "ann" [] (pos 2)).1.reads ≡ 3)
    × ((asks roadmap "ann" [] (pos 2)).1.list_calls ≡ 2)
unfolding check_with_model engine
two_calls = (refl, refl)

store_answers : (who : String) → Reads (request who)
unfolding engine
store_answers who u = (find rows u, refl)

check_with_model-answers_example : (b : Bool) × ((asks roadmap "ann" [] (pos 0)).0 ≡ ok b)
unfolding engine
check_with_model-answers_example =
    check_with_model-answers engine model "p" "t" roadmap "ann" [] (pos 0) none refl
      (store_answers "ann")

check_with_model_complete_example :
    ((asks roadmap "bob" [] (pos 0)).0 ≡ ok false)
    ⊎ (((asks roadmap "bob" [] (pos 0)).0 ≡ ok false)
        × (0 < (asks roadmap "bob" [] (pos 0)).1.cycles_seen))
unfolding engine
check_with_model_complete_example =
    check_with_model_complete engine model "p" "t" roadmap "bob" [] (pos 0) none false
      (store_plain "bob") roadmap-IsPlain refl (store_answers "bob")
      (check_with_model-Decides engine model "p" "t" roadmap "bob" [] (pos 0) none
        (store_plain "bob") roadmap-IsPlain false bob_views bob_views_clean)
