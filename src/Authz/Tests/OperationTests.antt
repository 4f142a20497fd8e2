-- ===== src/Authz/Tests/OperationTests.antt =====
-- Expand, CheckSet and ListObjects on the small store (pkg/authz/expand.go, checkset.go, engine.go).
use workspace.Base.{
  ℕ, subst, ◌&&◌, String, ◌≡◌, ◌≤◌, refl, Bool, true, false, none, some, List, [], ◌∷◌, Result, ok,
  err, Error,
}
use workspace.Base.Int.{ℤ, pos, is_positive, ltb_ℤ, wrap64, ◌*ℤ◌}
use workspace.Authz.Model.{SubjectSet}
use workspace.Authz.State.{EvalState}
use workspace.Authz.Engine.{
  Engine, ObjectLister, fan_out_budget, expand_budget, max_list_objects_or_default,
}
use workspace.Base.Texts.{lacks}
use workspace.Authz.Check.Guarantees.{user_request}
use workspace.Authz.Check.Rules.{PlainStore, PlainSets}
use workspace.Authz.Tree.{Tree, bare, add_subject}
use workspace.Authz.Expand.{
  ExpandState, expand_with_model, bump, expand_this, expand_tuple_to_userset,
}
use workspace.Authz.Expand.Bounds.{
  leaf_subjects, expand_with_model-subjects, expand_with_model-reads,
}
use workspace.Authz.CheckSet.{check_set_with_model, members_of_sets}
use workspace.Authz.CheckSet.Reads.{set_request, check_set_with_model-reads}
use workspace.Authz.CheckSet.Sound.{Intersects, check_set_with_model-grants}
use workspace.Authz.ListObjects.{list_objects_with_model}
use workspace.Authz.ListObjects.Grants.{Listed, AllPlain, list_objects_with_model-lists}
use workspace.Authz.Tests.CheckTests.{rows_plain, roadmap-IsPlain}
use workspace.Authz.Tests.Store.{engine, model, rows, find, find-PlainSets, userset}

abbrev roadmap_viewers : SubjectSet
roadmap_viewers = userset "resource" "roadmap" "viewer"

abbrev expands : ℤ → Result Tree × ExpandState
expands cap = expand_with_model engine model "p" "t" roadmap_viewers cap (pos 0) none

abbrev subjects_of : Result Tree → ℕ
subjects_of (ok t) = leaf_subjects t
subjects_of (err e) = 0

abbrev tree_of : Result Tree → Tree
tree_of (ok t) = t
tree_of (err e) = bare roadmap_viewers

-- the tree names ann once for each grade, and carl, whose condition is not asked
four_subjects : subjects_of (expands (pos 100)).0 ≡ 4
unfolding expand_with_model engine leaf_subjects bump expand_this expand_tuple_to_userset
    add_subject
four_subjects = refl

too_small : (expands (pos 3)).0 ≡ err Error.expand_too_large
unfolding expand_with_model engine bump expand_this
too_small = refl

abbrev set_asks : SubjectSet → SubjectSet → Result Bool × EvalState
set_asks target set = check_set_with_model engine model "p" "t" target set [] (pos 0) none

-- the owners of acme view the roadmap, as ann does
owners_view : (set_asks roadmap_viewers (userset "workspace" "acme" "owner")).0 ≡ ok true
unfolding check_set_with_model engine bump expand_this expand_tuple_to_userset members_of_sets
    add_subject
owners_view = refl

suspended_do_not : (set_asks roadmap_viewers (userset "team" "red" "suspended")).0 ≡ ok false
unfolding check_set_with_model engine bump expand_this expand_tuple_to_userset members_of_sets
    add_subject
suspended_do_not = refl

abbrev resources : ObjectLister
resources project tenant namespace = ok ("loop_a" ∷ "roadmap" ∷ "plans" ∷ [])

abbrev listing_engine : Engine
listing_engine = record engine { lister = some resources }

abbrev lists : ℤ → Result (List String)
lists cap =
    list_objects_with_model listing_engine model "p" "t" "resource" "viewer" "ann" cap (pos 0) none

ann_sees : lists (pos 3) ≡ ok ("roadmap" ∷ "plans" ∷ [])
unfolding list_objects_with_model engine
ann_sees = refl

two_at_most : lists (pos 2) ≡ err Error.too_many_objects
unfolding list_objects_with_model engine
two_at_most = refl

set_store_plain : (set : SubjectSet) → PlainStore (set_request engine model "p" "t" set [])
unfolding engine
set_store_plain set u ss e =
    let same : find rows u ≡ ss = cc in subst PlainSets same (find-PlainSets rows rows_plain u)

list_store_plain : PlainStore (user_request listing_engine model "p" "t" "ann" [])
unfolding engine
list_store_plain u ss e =
    let same : find rows u ≡ ss = cc in subst PlainSets same (find-PlainSets rows rows_plain u)

check_set_with_model-grants_example :
    Intersects
      (set_request engine model "p" "t" (userset "workspace" "acme" "owner") [])
      roadmap_viewers
      (userset "workspace" "acme" "owner")
check_set_with_model-grants_example =
    check_set_with_model-grants engine model "p" "t" roadmap_viewers
      (userset "workspace" "acme" "owner") [] (pos 0) none
      (set_store_plain (userset "workspace" "acme" "owner")) roadmap-IsPlain owners_view

check_set_with_model-reads_example :
    (check_set_with_model engine model "p" "t" roadmap_viewers
      (userset "team" "red" "suspended")
      []
      (pos 7)
      none).1.list_calls
    ≤ 64000
unfolding engine fan_out_budget max_list_objects_or_default wrap64 ◌*ℤ◌
check_set_with_model-reads_example =
    check_set_with_model-reads engine model "p" "t" roadmap_viewers
      (userset "team" "red" "suspended") [] (pos 7) none 63999 refl

expand_with_model-subjects_example : leaf_subjects (tree_of (expands (pos 100)).0) ≤ 100
unfolding expand_with_model engine bump expand_this expand_tuple_to_userset add_subject
expand_with_model-subjects_example =
    expand_with_model-subjects engine model "p" "t" roadmap_viewers (pos 0) none 99
      (tree_of (expands (pos 100)).0) refl

expand_with_model-reads_example :
    (expand_with_model engine model "p" "t" roadmap_viewers
      (pos 100)
      (pos 3)
      none).1.eval.list_calls
    ≤ 200
unfolding engine expand_budget wrap64 ◌*ℤ◌
expand_with_model-reads_example =
    expand_with_model-reads engine model "p" "t" roadmap_viewers (pos 3) none (pos 100) 199 refl

listed_plain : AllPlain "resource" "viewer" ("loop_a" ∷ "roadmap" ∷ "plans" ∷ [])
unfolding lacks
listed_plain = (
  record { namespace_plain = refl; object_plain = refl },
  (
    record { namespace_plain = refl; object_plain = refl },
    (record { namespace_plain = refl; object_plain = refl }, tt),
  ),
)

list_objects_with_model-lists_example :
    Listed
      (user_request listing_engine model "p" "t" "ann" [])
      "resource"
      "viewer"
      ("loop_a" ∷ "roadmap" ∷ "plans" ∷ [])
      ("roadmap" ∷ "plans" ∷ [])
    × ((is_positive (pos 3) && ltb_ℤ (pos 3) (pos 3)) ≡ false)
list_objects_with_model-lists_example =
    list_objects_with_model-lists listing_engine model "p" "t" "resource" "viewer" "ann" (pos 3)
      (pos 0) none ("loop_a" ∷ "roadmap" ∷ "plans" ∷ []) ("roadmap" ∷ "plans" ∷ []) resources refl
      refl list_store_plain listed_plain ann_sees
