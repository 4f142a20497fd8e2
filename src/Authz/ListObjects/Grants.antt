-- ===== src/Authz/ListObjects/Grants.antt =====
-- What a ListObjects lists (`ListObjectsWithModel` in pkg/authz/engine.go).
use workspace.Base.{
  String, ◌≡◌, refl, sym, ◌∙◌, Bool, true, false, Option, some, List, [], ◌∷◌, ◌++◌, length,
  if◌then◌else◌, ok, err, Error, subst, ◌&&◌, ok-injective, append_assoc, append-nil,
}
use workspace.Base.Int.{ℤ, pos, is_positive, ltb_ℤ}
use workspace.Authz.Model.{Model}
use workspace.Authz.State.{EvalState, Backstops, bind-ok, new_eval_state}
use workspace.Authz.Engine.{Engine, Request, ObjectLister, effective_max_reads, fan_out_budget}
use workspace.Authz.Keys.{IsPlain}
use workspace.Authz.Check.{top_check}
use workspace.Authz.Check.Rules.{PlainStore}
use workspace.Authz.Check.Correct.{top_check-grants}
use workspace.Authz.Check.Guarantees.{user_request}
use workspace.Authz.Decision.{Decides}
use workspace.Authz.CheckSet.{reset}
use workspace.Authz.ListObjects.{candidate, list_granted, list_candidates, list_objects_with_model}

-- `out` is what remains of `ids`, in order, when some are passed over: the user has the relation on
-- each of the rest.
pub data Listed (r : Request) (namespace relation : String)
    : List String → List String → Type 0 where
  ended : Listed r namespace relation [] []
  listed :
      {id : String} {ids out : List String}
      → Decides r (candidate namespace relation id) true
      → Listed r namespace relation ids out
      → Listed r namespace relation (id ∷ ids) (id ∷ out)
  passed :
      {id : String} {ids out : List String}
      → Listed r namespace relation ids out
      → Listed r namespace relation (id ∷ ids) out

abbrev pub AllPlain : String → String → List String → Type 0
AllPlain namespace relation [] = Unit
AllPlain namespace relation (id ∷ ids) =
    IsPlain (candidate namespace relation id) × AllPlain namespace relation ids

module _ (r : Request) (store : PlainStore r) (namespace relation : String) where
  list_granted-Listed :
      (ids out res : List String) (st : EvalState)
      → AllPlain namespace relation ids
      → (list_granted r namespace relation ids out st).0 ≡ ok res
      → (rest : List String) × (res ≡ out ++ rest) × Listed r namespace relation ids rest
  unfolding list_granted reset
  list_granted-Listed [] out res st plain h =
      ([], sym (ok-injective h) ∙ sym (append-nil out), ended)
  list_granted-Listed (id ∷ ids) out res st plain h =
      let (granted, e, later) =
        bind-ok (λ s. top_check r (candidate namespace relation id) (reset s))
          (λ granted.
            list_granted r namespace relation ids (if granted then out ++ id ∷ [] else out))
          st h in
      by_answer granted e (
        list_granted-Listed ids (if granted then out ++ id ∷ [] else out) res
          (top_check r (candidate namespace relation id) (reset st)).1 plain.1 later)
    where
      by_answer :
          (granted : Bool)
          → (top_check r (candidate namespace relation id) (reset st)).0 ≡ ok granted
          → ((rest : List String) × (res ≡ (if granted then out ++ id ∷ [] else out) ++ rest)
              × Listed r namespace relation ids rest)
          → (rest : List String) × (res ≡ out ++ rest) × Listed r namespace relation (id ∷ ids) rest
      by_answer false e (rest, same, l) = (rest, same, passed l)
      by_answer true e (rest, same, l) = (
        id ∷ rest,
        same ∙ append_assoc out (id ∷ []) rest,
        listed
            (top_check-grants r store (candidate namespace relation id) plain.0 (reset st)
              (λ w n b p q. absurd (cc)) e)
            l,
      )

  list_candidates-Listed :
      (max_objects max_reads : ℤ) (backstops : Option Backstops) (ids res : List String)
      → AllPlain namespace relation ids
      → list_candidates r namespace relation max_objects max_reads backstops ids ≡ ok res
      → Listed r namespace relation ids res
        × ((is_positive max_objects && ltb_ℤ max_objects (pos (length ids))) ≡ false)
  unfolding list_candidates
  list_candidates-Listed max_objects max_reads backstops ids res plain h =
      within (is_positive max_objects && ltb_ℤ max_objects (pos (length ids))) refl h
    where
      start : EvalState
      start =
          new_eval_state
            (fan_out_budget r.engine (effective_max_reads r.engine max_reads)
              (if is_positive max_objects then max_objects else pos (length ids)))
            backstops

      within :
          (large : Bool)
          → (is_positive max_objects && ltb_ℤ max_objects (pos (length ids))) ≡ large
          → (if large
              then err Error.too_many_objects
              else (list_granted r namespace relation ids [] start).0)
            ≡ ok res
          → Listed r namespace relation ids res
            × ((is_positive max_objects && ltb_ℤ max_objects (pos (length ids))) ≡ false)
      within true large h = absurd (cc)
      within false small h =
          let (rest, same, l) = list_granted-Listed ids [] res start plain h in
          (subst (Listed r namespace relation ids) (sym same) l, small)

-- If a ListObjects answers, then its list is the store's candidates in their order, less some of
-- them; on each that it lists, the user has the relation by the rules and the stored tuples; and the
-- candidates are no more than a positive cap: in a store and with candidates whose keys are unambiguous.
pub list_objects_with_model-lists :
    (e : Engine) (m : Model) (project tenant namespace relation user : String)
    (max_objects max_reads : ℤ) (backstops : Option Backstops) (ids res : List String)
    (list_object_ids : ObjectLister)
    → e.lister ≡ some list_object_ids
    → list_object_ids project tenant namespace ≡ ok ids
    → PlainStore (user_request e m project tenant user [])
    → AllPlain namespace relation ids
    → list_objects_with_model e m project tenant namespace relation user max_objects max_reads
        backstops
      ≡ ok res
    → Listed (user_request e m project tenant user []) namespace relation ids res
      × ((is_positive max_objects && ltb_ℤ max_objects (pos (length ids))) ≡ false)
unfolding list_objects_with_model
list_objects_with_model-lists e m project tenant namespace relation user max_objects max_reads
      backstops ids res list_object_ids lister answer store plain h =
    list_candidates-Listed (user_request e m project tenant user []) store namespace relation
      max_objects max_reads backstops ids res plain (cc)
