-- ===== src/Service/Decisions/Tests.antt =====
-- The decisions at inputs of their own (internal/service/authz.go, batchcheck.go).
use workspace.Base.{
  String, ◌≡◌, refl, true, false, Option, none, some, List, [], ◌∷◌, ok, err, Error, inl, inr, ℕ,
}
use workspace.Base.Int.{pos}
use workspace.Authz.Model.{SubjectSet}
use workspace.Authz.Model.{rewrite_of, operator}
use workspace.Authz.Check.{eval_this, this_step}
use workspace.Authz.State.{charge}
use workspace.Authz.Condition.{eval_condition}
use workspace.Base.Tables.{shard, values}
use workspace.Base.Texts.{lacks}
use workspace.Service.Roster.Steps.{serve}
use workspace.Store.Keys.{scope, tuple_key}
use workspace.Authz.Keys.{IsPlain}
use workspace.Service.Access.{Service, Resolved, region_servable}
use workspace.Service.Tests.{service, caller}
use workspace.Service.Roster.Tests.{handed_over}
use workspace.Service.Decisions.{
  is_isolated, check_permission, check_subject_set, expand_relation, list_user_objects,
  BatchCheckItem, BatchCheckResult,
}
use workspace.Service.Decisions.Batch.{AllSay}
use workspace.Service.Decisions.Gates.{suspended-closed, unservable-refused}
use workspace.Service.Decisions.Grants.{Granted, check_permission-Granted}
use workspace.Service.Tuples.{write_relation_tuples}
use workspace.Store.State.{new_store}

abbrev team : SubjectSet
team = record { namespace = "workspace"; object_id = "w"; relation = "admin" }

-- the new owner is an admin too
bea_administers : check_permission service 10 handed_over caller none team "bea" [] ≡ ok true
unfolding check_permission rewrite_of operator eval_this charge serve new_store scope this_step
    eval_condition tuple_key
bea_administers = refl

stranger_denied : check_permission service 10 handed_over caller none team "eve" [] ≡ ok false
unfolding check_permission rewrite_of operator eval_this charge serve new_store scope this_step
    eval_condition tuple_key
stranger_denied = refl

team-IsPlain : IsPlain team
unfolding lacks
team-IsPlain = record { namespace_plain = refl; object_plain = refl }

check_permission-Granted_example : Granted service 10 handed_over caller team "bea" []
unfolding values shard serve new_store scope rewrite_of operator eval_this charge this_step
    eval_condition tuple_key
check_permission-Granted_example =
    check_permission-Granted service 10 handed_over caller none team "bea" [] (tt, (tt, tt))
      team-IsPlain bea_administers

-- a batch with a decision and a bad item
abbrev item : String → BatchCheckItem
item user = record { on = team; subject_user_id = user }

abbrev answers : List BatchCheckResult
answers =
    record { allowed = true; error = none }
    ∷ record { allowed = false; error = some Error.invalid_argument }
    ∷ []

abbrev in_time : ℕ → Option Error
in_time i = none

says_both : AllSay service 10 handed_over caller none (item "bea" ∷ item "" ∷ []) answers
unfolding check_permission is_isolated
says_both =
    (inl (bea_administers, refl), (inr (Error.invalid_argument, refl, refl, refl, refl), tt))

abbrev pinned : Resolved
pinned = record { model = none; suspended = true; data_region = "us"; max_check_reads = pos 0 }

abbrev closed_service : Service
closed_service = record service { resolve = λ _. ok (record pinned { data_region = "eu" }) }

suspended-closed_example :
    (check_permission closed_service 10 handed_over caller none team "bea" [] ≡ ok false)
    × (check_subject_set closed_service 10 handed_over caller none team team [] ≡ ok false)
    × (expand_relation closed_service 10 handed_over caller none team
        ≡ err Error.failed_precondition)
    × (list_user_objects closed_service 10 handed_over caller none "workspace" "admin" "bea"
        ≡ err Error.failed_precondition)
    × ((write_relation_tuples closed_service caller [] handed_over).1 ≡ handed_over)
unfolding region_servable
suspended-closed_example =
    suspended-closed closed_service 10 handed_over caller none
      (record pinned { data_region = "eu" }) refl refl refl team team "workspace" "admin" "bea" []
      []

abbrev abroad : Service
abroad = record service { resolve = λ _. ok pinned }

unservable-refused_example :
    (check_permission abroad 10 handed_over caller none team "bea" []
      ≡ err Error.region_not_servable)
    × (check_subject_set abroad 10 handed_over caller none team team []
        ≡ err Error.region_not_servable)
    × (expand_relation abroad 10 handed_over caller none team ≡ err Error.region_not_servable)
    × (list_user_objects abroad 10 handed_over caller none "workspace" "admin" "bea"
        ≡ err Error.region_not_servable)
    × ((write_relation_tuples abroad caller [] handed_over).1 ≡ handed_over)
unservable-refused_example =
    unservable-refused abroad 10 handed_over caller none pinned refl refl refl refl team team
      "workspace" "admin" "bea" [] []
