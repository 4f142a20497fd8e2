-- ===== src/Authz/CheckSet.antt =====
-- pkg/authz/checkset.go: Check for a userset. A Go set of users is a list without repetitions, and
-- ranges in that order. `left` is `maxDepth + 1 - depth`.
pub mod Reads
pub mod Sound
use workspace.Base.{
  ℕ, zero, suc, String, Bool, true, false, not, ◌&&◌, ◌||◌, Option, none, some, List, [], ◌∷◌, ◌++◌,
  ltb, length, contains, if◌then◌else◌, Result, ok, err, update,
}
use workspace.Base.Int.{ℤ, pos}
use workspace.Authz.Condition.{Fields}
use workspace.Authz.Model.{SubjectSet, Model}
use workspace.Authz.State.{
  EvalState, new_eval_state, Backstops, BackstopReason, Action, Eval, pure, lift, ◌>>=◌, ◌>>◌,
  record_backstop, visit_key,
}
use workspace.Authz.Engine.{
  Engine, Request, SubjectQuery, user_query, set_query, effective_max_reads, fan_out_budget,
  max_list_objects_or_default,
}
use workspace.Authz.Check.{top_check, check}
use workspace.Authz.Tree.{Tree, tree, Trees, nil, cons, ExcludeTree, absent, minus}
use workspace.Authz.Expand.{ExpandState, expand, expand_start}

-- a set of concrete users, and whether it holds everyone
pub record Members : Type 0 where
  pub users : List String
  pub everyone : Bool

abbrev pub no_members : Members
no_members = record { users = []; everyone = false }

-- `out[u] = struct{}{}`
unfoldable pub insert_user : List String → String → List String
unfolding contains
insert_user us u = if contains u us then us else us ++ u ∷ []

unfoldable pub insert_users : List String → List String → List String
unfolding insert_user
insert_users out [] = out
insert_users out (u ∷ us) = insert_users (insert_user out u) us

unfoldable pub keep : (String → Bool) → List String → List String
keep p [] = []
keep p (u ∷ us) = let rest = keep p us in if p u then u ∷ rest else rest

-- `intersectUsers`: it ranges over the smaller set
unfoldable pub intersect_users : List String → List String → List String
unfolding keep contains
intersect_users a b =
    if ltb (length b) (length a) then keep (λ u. contains u a) b else keep (λ u. contains u b) a

-- the path's usersets, and the scratch state of the operation
pub record MemberState : Type 0 where
  pub visited : String → Bool
  pub eval : EvalState

abbrev pub Resolve : Type 0 → Type 0
Resolve A = Action MemberState A

abbrev pub MemberCall : Type 0
MemberCall = SubjectSet → Resolve Members

abbrev pub merge : Members → Members → Members
merge out m = record {
  users = insert_users out.users m.users;
  everyone = out.everyone || m.everyone;
}

-- `acc, bounded`: none before the first child that is not everyone
abbrev pub narrow : Option (List String) → Members → Option (List String)
narrow acc m =
    if m.everyone
    then acc
    else elim acc [ none ↦ some m.users | some us ↦ some (intersect_users us m.users) ]

abbrev pub bounded_members : Option (List String) → Members
bounded_members none = record { users = []; everyone = true }
bounded_members (some us) = record { users = us; everyone = false }

-- the difference: whether everyone is excluded is not looked at
abbrev pub remove_members : Members → Members → Members
remove_members inc exc = record {
  users = keep (λ u. not (contains u exc.users)) inc.users;
  everyone = inc.everyone;
}

-- the loop over the usersets of a leaf
unfoldable pub members_of_sets : MemberCall → List SubjectSet → Members → Resolve Members
unfolding insert_users
members_of_sets call [] out = pure out
members_of_sets call (u ∷ us) out = call u >>= λ m. members_of_sets call us (merge out m)

abbrev is_nil : Trees → Bool
is_nil nil = true
is_nil (cons _ _) = false

abbrev has_exclude : ExcludeTree → Bool
has_exclude absent = false
has_exclude (minus _ _) = true

unfoldable mutual
  pub members_of_tree : MemberCall → Tree → Resolve Members
  members_of_tree call (tree self us is x users sets wildcard) =
      if not (is_nil us)
      then members_of_union call us no_members
      else if not (is_nil is)
      then members_of_intersection call is none
      else if has_exclude x
      then members_of_exclusion call x
      else members_of_sets call sets (record { users = insert_users [] users; everyone = wildcard })

  pub members_of_union : MemberCall → Trees → Members → Resolve Members
  members_of_union call nil out = pure out
  members_of_union call (cons t ts) out =
      members_of_tree call t >>= λ m. members_of_union call ts (merge out m)

  pub members_of_intersection : MemberCall → Trees → Option (List String) → Resolve Members
  members_of_intersection call nil acc = pure (bounded_members acc)
  members_of_intersection call (cons t ts) acc =
      members_of_tree call t >>= λ m. members_of_intersection call ts (narrow acc m)

  pub members_of_exclusion : MemberCall → ExcludeTree → Resolve Members
  members_of_exclusion call absent = pure no_members
  members_of_exclusion call (minus include exclude) = members_of_tree call include >>= λ inc.
      members_of_tree call exclude >>= λ exc. pure (remove_members inc exc)

-- a backstop: no members
unfoldable pub no_members_after : BackstopReason → Resolve Members
unfolding record_backstop
no_members_after reason st = (ok no_members, record st { eval = record_backstop reason st.eval })

unfoldable pub mark_member : String → Bool → MemberState → MemberState
mark_member key b st = record st { visited = update st.visited key b }

-- `expand` with a count and a path of its own, from the current depth, with no node cap
unfoldable pub expand_fresh : Request → ℕ → SubjectSet → Resolve Tree
unfolding expand
expand_fresh r left u st =
    let (res, st') = expand r (pos 0) left u (expand_start st.eval) in
    (res, record st { eval = st'.eval })

-- `Engine.resolveMembers`
unfoldable pub resolve_members : Request → ℕ → MemberCall
unfolding no_members_after visit_key mark_member expand_fresh members_of_tree
resolve_members r zero u st = no_members_after BackstopReason.depth st
resolve_members r (suc left) u st =
    if st.visited (visit_key u)
    then no_members_after BackstopReason.cycle st
    else let (res, st') =
        (expand_fresh r (suc left) u >>= members_of_tree (resolve_members r left))
          (mark_member (visit_key u) true st) in
      (res, mark_member (visit_key u) false st')

abbrev pub with_query : Request → SubjectQuery → Request
with_query r q = record r { query = q }

-- `st.visited = map[string]bool{}; st.memo = map[string]bool{}`
unfoldable pub reset : EvalState → EvalState
reset st = record st { visited = λ _. false; memo = λ _. none }

-- a Check of the target for one member, with the shared budget
abbrev pub check_member : Request → SubjectSet → String → Eval Bool
check_member r target user st = top_check (with_query r (user_query user)) target (reset st)

-- the loop over the members
unfoldable pub check_members : Request → SubjectSet → List String → Eval Bool
unfolding check reset
check_members r target [] = pure false
check_members r target (u ∷ us) =
    check_member r target u >>= λ granted. if granted then pure true else check_members r target us

abbrev pub resolve : Request → SubjectSet → Eval Members
resolve r u st =
    let (res, st') =
      resolve_members r (suc r.engine.max_depth) u (record { visited = λ _. false; eval = st }) in
    (res, st'.eval)

abbrev pub is_inhabited : Members → Bool
is_inhabited m = m.everyone || ltb 0 (length m.users)

-- steps (2) and (3) of `CheckSetWithModel`
unfoldable pub check_by_members : Request → SubjectSet → SubjectSet → Eval Bool
unfolding check_members resolve_members
check_by_members r target set = resolve r set >>= λ m. check_members r target m.users >>= λ granted.
    if granted
    then pure true
    else if m.everyone
    then (resolve r target >>= λ t. pure (is_inhabited t))
    else pure false

-- `Engine.CheckSetWithModel`
unfoldable pub check_set_with_model :
    Engine
    → Model
    → String
    → String
    → SubjectSet
    → SubjectSet
    → Fields
    → ℤ
    → Option Backstops
    → Result Bool × EvalState
unfolding check check_by_members new_eval_state effective_max_reads fan_out_budget
    max_list_objects_or_default
check_set_with_model e m project tenant target set ctx max_reads backstops =
    let r : Request = record {
      engine = e;
      model = m;
      project_id = project;
      tenant_id = tenant;
      query = set_query set;
      context = ctx;
    } in
    (top_check r target >>= λ granted. if granted then pure true else check_by_members r target set)
      (new_eval_state
        (fan_out_budget e (effective_max_reads e max_reads) (max_list_objects_or_default e))
        backstops)

-- `Engine.CheckSet`
unfoldable pub check_set :
    Engine → String → String → SubjectSet → SubjectSet → Fields → Option Backstops → Result Bool
unfolding check_set_with_model
check_set e project tenant target set ctx backstops = elim (e.resolver project) [
  | ok m ↦ (check_set_with_model e m project tenant target set ctx (pos 0) backstops).0
  | err x ↦ err x
]
