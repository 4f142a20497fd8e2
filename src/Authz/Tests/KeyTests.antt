-- ===== src/Authz/Tests/KeyTests.antt =====
-- Two usersets with one visit key (`visitKey` in pkg/authz/engine.go): ann is a member of the first
-- and not of the second, and a document wants both.
use workspace.Base.{◌≡◌, refl, true, false, none, [], ◌∷◌, ok}
use workspace.Base.Int.{pos}
use workspace.Authz.Model.{SubjectSet, Model, Rewrites, intersection, computed}
use workspace.Authz.State.{visit_key}
use workspace.Authz.Engine.{Engine, TupleReader}
use workspace.Authz.Check.{check_with_model}
use workspace.Authz.Tests.Store.{engine, Table, find, user, member, userset}

abbrev inner : SubjectSet
inner = userset "team:red" "core" "member"

abbrev outer : SubjectSet
outer = userset "team" "red:core" "member"

one_key : visit_key inner ≡ visit_key outer
unfolding visit_key
one_key = refl

abbrev shared_rows : Table
shared_rows =
    (inner, user "ann" ∷ [])
    ∷ (userset "doc" "plan" "left", member inner ∷ [])
    ∷ (userset "doc" "plan" "right", member outer ∷ [])
    ∷ []

abbrev shared_reader : TupleReader
shared_reader project tenant u = ok (find shared_rows u)

abbrev shared_engine : Engine
shared_engine = record engine { reader = shared_reader }

abbrev both_model : Model
both_model =
    (
      "doc",
      (
        "viewer",
        intersection
            (Rewrites.cons (computed "left") (Rewrites.cons (computed "right") Rewrites.nil)),
      )
          ∷ [],
    )
    ∷ []

not_in_outer :
    (check_with_model shared_engine both_model "p" "t" outer "ann" [] (pos 0) none).0 ≡ ok false
unfolding check_with_model engine
not_in_outer = refl

not_on_the_right :
    (check_with_model shared_engine both_model "p" "t"
      (userset "doc" "plan" "right")
      "ann"
      []
      (pos 0)
      none).0
    ≡ ok false
unfolding check_with_model engine
not_on_the_right = refl

-- the result for the first userset is taken from the memo for the second
granted_by_the_memo :
    (check_with_model shared_engine both_model "p" "t"
      (userset "doc" "plan" "viewer")
      "ann"
      []
      (pos 0)
      none).0
    ≡ ok true
unfolding check_with_model engine
granted_by_the_memo = refl
