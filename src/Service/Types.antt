-- ===== src/Service/Types.antt =====
-- internal/service/types.go and repository.go: the records that the store keeps. Instants are
-- nanoseconds.
use workspace.Base.{ℕ, String, Bool, not, ◌||◌, Option, ◌==◌, if◌then◌else◌}
use workspace.Base.Int.{ℤ}
use workspace.Authz.Model.{Tuple, Model}

pub record Project : Type 0 where
  pub id : String
  pub name : String
  pub status : String
  pub model : Option Model
  pub data_region : String
  pub max_check_reads : ℤ
  pub created_at : ℕ
  pub updated_at : ℕ

abbrev pub role_owner : String
role_owner = "owner"

abbrev pub role_admin : String
role_admin = "admin"

abbrev pub role_member : String
role_member = "member"

abbrev pub role_guest : String
role_guest = "guest"

-- `Role.Valid`
unfoldable pub valid_role : String → Bool
valid_role r = r == role_owner || r == role_admin || r == role_member || r == role_guest

abbrev pub type_personal : String
type_personal = "personal"

abbrev pub type_team : String
type_team = "team"

abbrev pub status_active : String
status_active = "active"

abbrev pub status_suspended : String
status_suspended = "suspended"

abbrev pub invite_pending : String
invite_pending = "pending"

abbrev pub invite_accepted : String
invite_accepted = "accepted"

abbrev pub invite_revoked : String
invite_revoked = "revoked"

abbrev pub invite_expired : String
invite_expired = "expired"

pub record Workspace : Type 0 where
  pub id : String
  pub project_id : String
  pub tenant_id : String
  pub slug : String
  pub display_name : String
  pub kind : String
  pub owner_user_id : String
  pub created_at : ℕ
  pub updated_at : ℕ

pub record Membership : Type 0 where
  pub project_id : String
  pub tenant_id : String
  pub workspace_id : String
  pub user_id : String
  pub role : String
  pub status : String
  pub created_at : ℕ
  pub updated_at : ℕ

pub record Invitation : Type 0 where
  pub id : String
  pub project_id : String
  pub tenant_id : String
  pub workspace_id : String
  pub email : String
  pub role : String
  pub status : String
  pub invited_by : String
  pub token_hash : String
  pub created_at : ℕ
  pub expires_at : ℕ

pub record Group : Type 0 where
  pub id : String
  pub project_id : String
  pub tenant_id : String
  pub workspace_id : String
  pub slug : String
  pub display_name : String
  pub created_by : String
  pub created_at : ℕ
  pub updated_at : ℕ

-- a user, or a group if its id is not empty
pub record GroupMember : Type 0 where
  pub user_id : String
  pub group_id : String

unfoldable pub member_key : GroupMember → String × String
member_key m = if not (m.group_id == "") then ("group", m.group_id) else ("user", m.user_id)

unfoldable pub member_from_key : String → String → GroupMember
member_from_key kind id =
    if kind == "group"
    then record { user_id = ""; group_id = id }
    else record { user_id = id; group_id = "" }

abbrev pub enrollment_enrolled : String
enrollment_enrolled = "enrolled"

abbrev pub enrollment_dropped : String
enrollment_dropped = "dropped"

-- `EnrollmentState.Valid` and `GrantsAccess`
unfoldable pub valid_enrollment : String → Bool
valid_enrollment s =
    s == "waitlisted" || s == "enrolled" || s == "active" || s == "completed" || s == "dropped"

unfoldable pub grants_access : String → Bool
grants_access s = s == "enrolled" || s == "active"

pub record Enrollment : Type 0 where
  pub project_id : String
  pub tenant_id : String
  pub group_id : String
  pub member : GroupMember
  pub state : String
  pub created_at : ℕ
  pub updated_at : ℕ

pub record SeatAssignment : Type 0 where
  pub project_id : String
  pub tenant_id : String
  pub sku : String
  pub user_id : String
  pub assigned_at : ℕ

pub record SeatUsage : Type 0 where
  pub sku : String
  pub used : ℕ
  pub limit : ℤ
  pub limited : Bool

pub record TupleAt : Type 0 where
  pub tenant_id : String
  pub tuple : Tuple

-- an empty field matches every tuple
pub record TupleFilter : Type 0 where
  pub namespace : String
  pub object_id : String
  pub relation : String
  pub subject_user_id : String
