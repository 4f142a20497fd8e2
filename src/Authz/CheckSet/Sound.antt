-- ===== src/Authz/CheckSet/Sound.antt =====
-- Why a CheckSet grants (pkg/authz/checkset.go).
use workspace.Base.{
  String, ◌≡◌, refl, ap, Bool, true, false, ◌||◌, Option, List, [], ◌∷◌, arith, contains,
  if◌then◌else◌, ok, eq_self, ok-injective,
}
use workspace.Base.Int.{ℤ}
use workspace.Authz.Condition.{Fields}
use workspace.Authz.Model.{SubjectSet, Model}
use workspace.Authz.State.{EvalState, Backstops, Eval, pure, ◌>>=◌, bind-ok, new_eval_state}
use workspace.Authz.Engine.{
  Engine, Request, user_query, effective_max_reads, fan_out_budget, max_list_objects_or_default,
}
use workspace.Authz.Keys.{IsPlain}
use workspace.Authz.Check.{top_check}
use workspace.Authz.Check.Rules.{PlainStore}
use workspace.Authz.Check.Correct.{top_check-grants}
use workspace.Authz.Decision.{Decides}
use workspace.Authz.CheckSet.{
  Members, with_query, reset, check_member, check_members, resolve, is_inhabited, check_by_members,
  check_set_with_model,
}
use workspace.Authz.CheckSet.Reads.{set_request}

-- What makes a queried userset intersect the target: it is in the target itself, or a concrete member
-- of it is, or it holds everyone and the target resolves to somebody.
pub data Intersects (r : Request) (target set : SubjectSet) : Type 0 where
  structural : Decides r target true → Intersects r target set
  by_member :
      (st : EvalState) (m : Members) (v : String)
      → (resolve r set st).0 ≡ ok m
      → contains v m.users ≡ true
      → Decides (with_query r (user_query v)) target true
      → Intersects r target set
  by_everyone :
      (st st' : EvalState) (m t : Members)
      → (resolve r set st).0 ≡ ok m
      → m.everyone ≡ true
      → (resolve r target st').0 ≡ ok t
      → is_inhabited t ≡ true
      → Intersects r target set

-- what follows the Checks of the members
abbrev after_checks : Request → SubjectSet → Members → Bool → Eval Bool
after_checks r target m granted =
    if granted
    then pure true
    else if m.everyone
    then (resolve r target >>= λ t. pure (is_inhabited t))
    else pure false

abbrev after_members : Request → SubjectSet → SubjectSet → Members → Eval Bool
after_members r target set m = check_members r target m.users >>= after_checks r target m

module _ (r : Request) (store : PlainStore r) (target : SubjectSet) (plain : IsPlain target) where
  member-grants :
      (v : String) (st : EvalState)
      → (check_member r target v st).0 ≡ ok true
      → Decides (with_query r (user_query v)) target true
  unfolding reset
  member-grants v st h =
      top_check-grants (with_query r (user_query v)) store target plain (reset st)
        (λ w n b p e. absurd (cc)) h

  members-grants :
      (us : List String) (st : EvalState)
      → (check_members r target us st).0 ≡ ok true
      → (v : String) × (contains v us ≡ true) × Decides (with_query r (user_query v)) target true
  unfolding check_members contains
  members-grants [] st h = absurd (cc)
  members-grants (v ∷ us) st h =
      let (granted, e, rest) =
        bind-ok (check_member r target v)
          (λ granted. if granted then pure true else check_members r target us) st h in
      by_first (members-grants us (check_member r target v st).1) granted e rest
    where
      by_first :
          ((check_members r target us (check_member r target v st).1).0 ≡ ok true
            → (w : String) × (contains w us ≡ true)
              × Decides (with_query r (user_query w)) target true)
          → (granted : Bool) → (check_member r target v st).0 ≡ ok granted
          → ((if granted then pure true else check_members r target us)
              (check_member r target v st).1).0
            ≡ ok true
          → (w : String) × (contains w (v ∷ us) ≡ true)
            × Decides (with_query r (user_query w)) target true
      by_first later true e rest =
          (v, ap (λ b. b || contains v us) (eq_self v), member-grants v st e)
      by_first later false e rest = let (w, c, d) = later rest in (w, ground arith, d)

  everyone-grants :
      (set : SubjectSet) (m : Members) (st st' : EvalState)
      → (resolve r set st).0 ≡ ok m
      → ((if m.everyone then (resolve r target >>= λ t. pure (is_inhabited t)) else pure false)
          st').0
        ≡ ok true
      → Intersects r target set
  everyone-grants set m st st' found h = to_all m.everyone refl h
    where
      to_all :
          (everyone : Bool)
          → m.everyone ≡ everyone
          → ((if everyone then (resolve r target >>= λ t. pure (is_inhabited t)) else pure false)
              st').0
            ≡ ok true
          → Intersects r target set
      to_all false e h = absurd (cc)
      to_all true e h =
          let (t, there, some_one) =
            bind-ok (resolve r target) (λ t. pure (is_inhabited t)) st' h in
          by_everyone st st' m t found e there (ok-injective some_one)

  by_members-grants :
      (set : SubjectSet) (st : EvalState)
      → (check_by_members r target set st).0 ≡ ok true
      → Intersects r target set
  unfolding check_by_members
  by_members-grants set st h =
      let (m, found, after) = bind-ok (resolve r set) (after_members r target set) st h in
      let (granted, e, rest) =
        bind-ok (check_members r target m.users) (after_checks r target m) (resolve r set st).1
          after in
      by_granted m found granted e rest
    where
      by_granted :
          (m : Members)
          → (resolve r set st).0 ≡ ok m
          → (granted : Bool) → (check_members r target m.users (resolve r set st).1).0 ≡ ok granted
          → (after_checks r target m granted
              (check_members r target m.users (resolve r set st).1).1).0
            ≡ ok true
          → Intersects r target set
      by_granted m found true e rest =
          let (v, c, d) = members-grants m.users (resolve r set st).1 e in
          by_member st m v found c d
      by_granted m found false e rest =
          everyone-grants set m st (check_members r target m.users (resolve r set st).1).1 found
            rest

-- If a CheckSet grants, then the queried userset is in the target by a derivation from the rules and
-- the stored tuples, or one of the concrete members it resolves to has such a derivation, or it
-- resolves to everyone and the target to somebody, in a store whose usersets have unambiguous keys.
pub check_set_with_model-grants :
    (e : Engine) (m : Model) (project tenant : String) (target set : SubjectSet) (ctx : Fields)
    (override : ℤ) (backstops : Option Backstops)
    → PlainStore (set_request e m project tenant set ctx)
    → IsPlain target
    → (check_set_with_model e m project tenant target set ctx override backstops).0 ≡ ok true
    → Intersects (set_request e m project tenant set ctx) target set
unfolding check_set_with_model new_eval_state
check_set_with_model-grants e m project tenant target set ctx override backstops store plain h =
    let (granted, e', rest) = bind-ok (top_check r target) walk_members start h in
    by_structure granted e' rest
  where
    r : Request
    r = set_request e m project tenant set ctx

    start : EvalState
    start =
        new_eval_state
          (fan_out_budget e (effective_max_reads e override) (max_list_objects_or_default e))
          backstops

    walk_members : Bool → Eval Bool
    walk_members granted = if granted then pure true else check_by_members r target set

    by_structure :
        (granted : Bool)
        → (top_check r target start).0 ≡ ok granted
        → (walk_members granted (top_check r target start).1).0 ≡ ok true
        → Intersects r target set
    by_structure true e' rest =
        structural (top_check-grants r store target plain start (λ w n b p q. absurd (cc)) e')
    by_structure false e' rest =
        by_members-grants r store target plain set (top_check r target start).1 rest
