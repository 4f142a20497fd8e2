-- ===== src/Service/Seats.antt =====
-- internal/service/seats.go: the seat operations, over the store. The clock is an argument.
pub mod Effect
pub mod Agree
pub mod Steps
use workspace.Base.{
  ℕ, String, Bool, true, false, ◌||◌, Option, none, some, List, ◌==◌, if◌then◌else◌, ok, err, Error,
}
use workspace.Base.Int.{ℤ, pos, ltb_ℤ}
use workspace.Authz.Model.{Tuple}
use workspace.Service.Types.{SeatAssignment, SeatUsage}
use workspace.Service.Access.{Principal, Service, ensure_project_active}
use workspace.Service.Tuples.{seat_namespace}
use workspace.Store.State.{Op}
use workspace.Store.Seats.{
  set_seat_limit, get_seat_usage, assign_seat_and_tuple, revoke_seat_and_tuple, list_seats,
}

-- `SeatLimit`
pub record SeatLimit : Type 0 where
  pub sku : String
  pub limit : ℤ
  pub limited : Bool

abbrev pub seat_relation : String
seat_relation = "holder"

unfoldable pub seat_tuple : (sku user : String) → Tuple
seat_tuple sku user = record {
  namespace = seat_namespace;
  object_id = sku;
  relation = seat_relation;
  subject = record { user_id = user; set = none; wildcard = false; condition = none };
  expires_at = none;
}

-- An operation that runs only while the project is active.
unfoldable pub when_active : {A : Type 0} → Service → Principal → Op A → Op A
unfolding ensure_project_active
when_active sv p op st = elim (ensure_project_active sv p) [ err x ↦ (err x, st) | ok _ ↦ op st ]

abbrev is_negative : Option ℤ → Bool
is_negative none = false
is_negative (some l) = ltb_ℤ l (pos 0)

unfoldable pub seat_limit_of : String → Option ℤ → SeatLimit
seat_limit_of sku none = record { sku = sku; limit = pos 0; limited = false }
seat_limit_of sku (some l) = record { sku = sku; limit = l; limited = true }

unfoldable pub limit_seats : Service → Principal → String → Option ℤ → Op SeatLimit
unfolding when_active set_seat_limit seat_limit_of
limit_seats sv p sku limit st =
    if sku == ""
    then (err Error.invalid_argument, st)
    else if is_negative limit
    then (err Error.invalid_argument, st)
    else when_active sv p
        (λ st.
          (ok (seat_limit_of sku limit), (set_seat_limit p.project_id p.tenant_id sku limit st).1))
        st

unfoldable pub seat_usage : Principal → String → Op SeatUsage
unfolding get_seat_usage
seat_usage p sku st =
    if sku == ""
    then (err Error.invalid_argument, st)
    else get_seat_usage p.project_id p.tenant_id sku st

unfoldable pub seat_assignment : Principal → (sku user : String) → ℕ → SeatAssignment
seat_assignment p sku user now = record {
  project_id = p.project_id;
  tenant_id = p.tenant_id;
  sku = sku;
  user_id = user;
  assigned_at = now;
}

unfoldable pub assign_seat : Service → ℕ → Principal → (sku user : String) → Op Bool
unfolding when_active assign_seat_and_tuple seat_assignment seat_tuple
assign_seat sv now p sku user st =
    if sku == "" || user == ""
    then (err Error.invalid_argument, st)
    else when_active sv p
        (assign_seat_and_tuple (seat_assignment p sku user now) (seat_tuple sku user)) st

unfoldable pub revoke_seat : Service → Principal → (sku user : String) → Op (Unit {0})
unfolding when_active revoke_seat_and_tuple seat_tuple
revoke_seat sv p sku user st =
    if sku == "" || user == ""
    then (err Error.invalid_argument, st)
    else when_active sv p
        (revoke_seat_and_tuple p.project_id p.tenant_id sku user (seat_tuple sku user)) st

unfoldable pub list_seats_of : Principal → String → Op (List SeatAssignment)
unfolding list_seats
list_seats_of p sku st =
    if sku == ""
    then (err Error.invalid_argument, st)
    else list_seats p.project_id p.tenant_id sku st
