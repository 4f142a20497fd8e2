-- ===== src/Store/Seats.antt =====
-- internal/repo/memory/memory.go: the seats of a product (sku) and their cap.
pub mod Cap
use workspace.Base.{
  ℕ, String, Bool, true, false, not, ◌&&◌, Option, none, some, List, [], ◌∷◌, length, if◌then◌else◌,
  ok, err, Error, Dict, lookup,
}
use workspace.Base.Int.{ℤ, pos, ltb_ℤ}
use workspace.Base.Tables.{put, remove, values, has, shard, put_in, change_in, sort_by, string_less}
use workspace.Authz.Model.{Tuple}
use workspace.Service.Types.{SeatAssignment, SeatUsage}
use workspace.Store.Keys.{scope}
use workspace.Store.State.{Store, Op}
use workspace.Store.Tuples.{write_tuples_locked}
use workspace.Store.Workspaces.{created_before}

-- no limit clears the cap
unfoldable pub set_seat_limit : String → String → String → Option ℤ → Op (Unit {0})
unfolding change_in remove put_in
set_seat_limit project tenant sku none st = (
  ok tt,
  record st { seat_limits = change_in (scope project tenant) (remove sku) st.seat_limits },
)
set_seat_limit project tenant sku (some limit) st =
    (ok tt, record st { seat_limits = put_in (scope project tenant) sku limit st.seat_limits })

abbrev pub seats_of : String → String → Store → Dict SeatAssignment
unfolding shard
seats_of sk sku st = shard sku (shard sk st.seat_assigns)

abbrev pub limit_of : String → String → Store → Option ℤ
unfolding shard lookup
limit_of sk sku st = lookup sku (shard sk st.seat_limits)

-- `seatUsageLocked`: a map's zero value is the limit where none is configured
unfoldable pub seat_usage_locked : String → String → Store → ℕ × ℤ × Bool
unfolding shard lookup
seat_usage_locked sk sku st = (
  length (seats_of sk sku st),
  elim (limit_of sk sku st) [ none ↦ pos 0 | some n ↦ n ],
  has sku (shard sk st.seat_limits),
)

unfoldable pub get_seat_usage : String → String → String → Op SeatUsage
unfolding seat_usage_locked
get_seat_usage project tenant sku st =
    let (used, limit, limited) = seat_usage_locked (scope project tenant) sku st in
    (ok (record { sku = sku; used = used; limit = limit; limited = limited }), st)

-- `limited && used >= limit`
abbrev pub is_exhausted : String → String → Store → Bool
unfolding seat_usage_locked
is_exhausted sk sku st =
    let (used, limit, limited) = seat_usage_locked sk sku st in
    limited && not (ltb_ℤ (pos used) limit)

unfoldable pub put_seat : String → SeatAssignment → Store → Store
unfolding put put_in shard
put_seat sk a st = record st {
  seat_assigns = put sk (put_in a.sku a.user_id a (shard sk st.seat_assigns)) st.seat_assigns;
}

-- The maps that the code makes before its tests hold nothing, so they are left out.
unfoldable pub assign_seat_and_tuple : SeatAssignment → Tuple → Op Bool
unfolding lookup shard seat_usage_locked put_seat write_tuples_locked
assign_seat_and_tuple a tuple st =
    let sk = scope a.project_id a.tenant_id in
    if has a.user_id (seats_of sk a.sku st)
    then (ok true, write_tuples_locked a.project_id a.tenant_id (tuple ∷ []) [] st)
    else if is_exhausted sk a.sku st
    then (err Error.resource_exhausted, st)
    else (ok false, write_tuples_locked a.project_id a.tenant_id (tuple ∷ []) [] (put_seat sk a st))

unfoldable pub revoke_seat_and_tuple : String → String → String → String → Tuple → Op (Unit {0})
unfolding change_in remove write_tuples_locked
revoke_seat_and_tuple project tenant sku user tuple st = (
  ok tt,
  write_tuples_locked project tenant [] (tuple ∷ []) (record st {
    seat_assigns = change_in (scope project tenant) (change_in sku (remove user)) st.seat_assigns;
  }),
)

unfoldable pub list_seats : String → String → String → Op (List SeatAssignment)
unfolding shard sort_by values
list_seats project tenant sku st = (
  ok (
      sort_by
        (λ (a b : SeatAssignment). created_before a.assigned_at a.user_id b.assigned_at b.user_id)
        (values (seats_of (scope project tenant) sku st))),
  st,
)
