-- ===== src/Service/Groups/Tests.antt =====
-- Groups and enrollments at inputs of their own (internal/service/groups.go).
use workspace.Store.Keys.{scope}
use workspace.Base.{refl}
use workspace.Service.Types.{GroupMember, Enrollment}
use workspace.Service.Tests.{service, caller}
use workspace.Service.Groups.{make_group, set_enrollment_state}
use workspace.Service.Groups.Enrolled.{Tracked, set_enrollment_state-Tracked}
use workspace.Store.State.{Store, new_store}

abbrev cohort : Store
cohort = (make_group service 7 "g" caller "Cohort" "cohort" "" new_store).1

abbrev cara : GroupMember
cara = record { user_id = "cara"; group_id = "" }

abbrev enrolled : Enrollment
enrolled = record {
  project_id = "p";
  tenant_id = "t";
  group_id = "g";
  member = cara;
  state = "enrolled";
  created_at = 8;
  updated_at = 8;
}

set_enrollment_state-Tracked_example :
    Tracked caller "g" cara "enrolled" enrolled
      (set_enrollment_state service 8 caller "g" cara "enrolled" cohort).1
unfolding set_enrollment_state make_group new_store scope
set_enrollment_state-Tracked_example =
    set_enrollment_state-Tracked service 8 caller "g" cara "enrolled" cohort enrolled refl
