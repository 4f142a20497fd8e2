-- ===== src/Service/Subjects/Tests.antt =====
-- The export and the erasure of grants at inputs of their own (internal/service/authz.go).
use workspace.Authz.Condition.{eval_condition}
use workspace.Authz.State.{charge}
use workspace.Authz.Check.{eval_this, this_step}
use workspace.Authz.Model.{operator, rewrite_of}
use workspace.Store.Keys.{scope, tuple_key}
use workspace.Store.State.{new_store}
use workspace.Service.Roster.Steps.{serve}
use workspace.Base.{◌≡◌, refl, [], ◌∷◌, ok}
use workspace.Service.Tests.{service, caller}
use workspace.Service.Roster.Tests.{handed_over}
use workspace.Service.Subjects.{deprovision_user, export_subject_grants}
use workspace.Service.Subjects.Erased.{export-deprovision_user}

-- before, there is one grant to export
bea_owns :
    (export_subject_grants service 11 caller "bea" handed_over).0
    ≡ ok (
        record {
          tenant_id = "t";
          namespace = "workspace";
          object_id = "w";
          relation = "owner";
          via_group = "";
        }
        ∷ [])
unfolding export_subject_grants serve new_store scope rewrite_of operator eval_this charge this_step
    eval_condition tuple_key
bea_owns = refl

export-deprovision_user_example :
    export_subject_grants service 11
      (record caller { tenant_id = "u" })
      "bea"
      (deprovision_user service caller "bea" handed_over).1
    ≡ (ok [], (deprovision_user service caller "bea" handed_over).1)
unfolding deprovision_user serve new_store scope rewrite_of operator eval_this charge this_step
    eval_condition tuple_key
export-deprovision_user_example =
    export-deprovision_user service caller "bea" handed_over 1 11 "u" refl
