-- ===== src/Service/Decisions/Gates.antt =====
-- What the gates of a project do to every decision (internal/service/authz.go).
use workspace.Base.{
  ℕ, String, ◌≡◌, refl, ap, ◌∙◌, Bool, true, false, ◌||◌, Option, List, ◌==◌, if◌then◌else◌, Result,
  ok, err, Error, and_then,
}
use workspace.Authz.Condition.{Fields}
use workspace.Authz.Model.{SubjectSet}
use workspace.Authz.State.{Backstops}
use workspace.Service.Access.{Principal, Resolved, Service, region_servable, ensure_project_active}
use workspace.Service.Tuples.{
  TupleOp, inserts_of, deletes_of, check_inserts, validate_ops, admit_writes, write_relation_tuples,
}
use workspace.Base.Int.{ℤ}
use workspace.Store.Keys.{scope}
use workspace.Store.Tuples.{sequence, write_tuples_locked}
use workspace.Service.Decisions.{
  servable, is_incomplete, check_in, check_permission, check_set_in, check_subject_set,
  expand_relation, list_user_objects,
}
use workspace.Store.State.{Store}

-- what a test of the arguments leaves of two answers
abbrev pub guarded : {A : Type 0} → Bool → Result A → Result A
guarded b r = if b then err Error.invalid_argument else r

module _ (sv : Service) (now : ℕ) (st : Store) (p : Principal) (collector : Option Backstops)
    (res : Resolved) (found : sv.resolve p.project_id ≡ ok res) where
  -- the project that is found, behind the gate of the region
  servable-found :
      (o : Result (Unit {0})) → region_servable sv res ≡ o → servable sv p ≡ and_then o λ _. ok res
  unfolding servable
  servable-found o e =
      ap (λ r. and_then r λ res. and_then (region_servable sv res) λ _. ok res) found
      ∙ ap (λ o. and_then o λ _. ok res) e

  write-closed :
      (e : Error)
      → ensure_project_active sv p ≡ err e
      → (ops : List TupleOp) → (write_relation_tuples sv p ops st).1 ≡ st
  unfolding write_relation_tuples admit_writes
  write-closed e closed ops =
      by_ops (validate_ops sv.library ops) (ensure_project_active sv p) closed
    where
      by_ops :
          (v o : Result (Unit {0}))
          → o ≡ err e
          → (elim (and_then v λ _. and_then o λ _. check_inserts sv p (inserts_of ops))
              as (λ _. Result ℤ × Store) [
                | err x ↦ (err x, st)
                | ok _ ↦
                    let st' =
                      write_tuples_locked p.project_id p.tenant_id
                        (inserts_of ops)
                        (deletes_of ops)
                        st in
                    (ok (sequence (scope p.project_id p.tenant_id) st'), st')
              ]).1
            ≡ st
      by_ops (err x) o h = refl
      by_ops (ok _) (err x) h = refl
      by_ops (ok _) (ok _) h = absurd (cc)

  -- A suspended project is closed: every Check and CheckSet is a denial, Expand and ListObjects fail,
  -- unless the arguments are already invalid, and no write of tuples changes the store; if this
  -- instance serves the project's region.
  pub suspended-closed :
      region_servable sv res ≡ ok tt
      → res.suspended ≡ true
      → (u set : SubjectSet) (namespace relation user : String) (context : Fields)
        (ops : List TupleOp)
      → (check_permission sv now st p collector u user context
          ≡ guarded (is_incomplete u || user == "") (ok false))
        × (check_subject_set sv now st p collector u set context
            ≡ guarded (is_incomplete u) (guarded (is_incomplete set) (ok false)))
        × (expand_relation sv now st p collector u
            ≡ guarded (is_incomplete u) (err Error.failed_precondition))
        × (list_user_objects sv now st p collector namespace relation user
            ≡ guarded
                (namespace == "" || relation == "" || user == "")
                (err Error.failed_precondition))
        × ((write_relation_tuples sv p ops st).1 ≡ st)
  unfolding check_permission check_in check_subject_set check_set_in expand_relation
      list_user_objects ensure_project_active
  suspended-closed here suspended u set namespace relation user context ops = (
    rw (servable-found (ok tt) here, suspended),
    rw (servable-found (ok tt) here, suspended),
    rw (servable-found (ok tt) here, suspended),
    rw (servable-found (ok tt) here, suspended),
    write-closed Error.failed_precondition (rw (found, here, suspended)) ops,
  )

  -- An instance refuses a project that is pinned to a region that it does not serve, whether the
  -- project is suspended or not: Check, CheckSet, Expand and ListObjects answer that the region is
  -- not servable, unless the arguments are already invalid, and no write of tuples changes the store.
  pub unservable-refused :
      (sv.data_region == "") ≡ false
      → (res.data_region == "") ≡ false
      → (res.data_region == sv.data_region) ≡ false
      → (u set : SubjectSet) (namespace relation user : String) (context : Fields)
        (ops : List TupleOp)
      → (check_permission sv now st p collector u user context
          ≡ guarded (is_incomplete u || user == "") (err Error.region_not_servable))
        × (check_subject_set sv now st p collector u set context
            ≡ guarded
                (is_incomplete u)
                (guarded (is_incomplete set) (err Error.region_not_servable)))
        × (expand_relation sv now st p collector u
            ≡ guarded (is_incomplete u) (err Error.region_not_servable))
        × (list_user_objects sv now st p collector namespace relation user
            ≡ guarded
                (namespace == "" || relation == "" || user == "")
                (err Error.region_not_servable))
        × ((write_relation_tuples sv p ops st).1 ≡ st)
  unfolding check_permission check_subject_set expand_relation list_user_objects region_servable
      ensure_project_active
  unservable-refused pinned_here pinned other u set namespace relation user context ops =
      let refused : region_servable sv res ≡ err Error.region_not_servable =
        rw (pinned_here, pinned, other) in
      (
        rw (servable-found (err Error.region_not_servable) refused),
        rw (servable-found (err Error.region_not_servable) refused),
        rw (servable-found (err Error.region_not_servable) refused),
        rw (servable-found (err Error.region_not_servable) refused),
        write-closed Error.region_not_servable (rw (found, pinned_here, pinned, other)) ops,
      )
