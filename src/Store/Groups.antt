-- ===== src/Store/Groups.antt =====
-- internal/repo/memory/memory.go: groups and enrollments.
use Prim.Native.String.{◌++◌}
use workspace.Base.{String, Bool, not, ◌&&◌, List, ◌==◌, if◌then◌else◌, ok, err, Error, lookup}
use workspace.Base.Tables.{
  put, remove, retain, values, has, shard, put_in, change_in, sort_by, filter,
}
use workspace.Authz.Model.{Tuple}
use workspace.Service.Types.{Group, GroupMember, Enrollment, member_key}
use workspace.Store.Keys.{scope}
use workspace.Store.State.{Op}
use workspace.Store.Tuples.{write_tuples_locked, advance}
use workspace.Store.Workspaces.{created_before, found, of_object}

unfoldable pub create_group : Group → Op (Unit {0})
unfolding shard lookup put_in
create_group g st =
    let sk = scope g.project_id g.tenant_id in
    if has g.id (shard sk st.groups)
    then (err Error.already_exists, st)
    else (ok tt, record st { groups = put_in sk g.id g st.groups })

unfoldable pub get_group : String → String → String → Op Group
unfolding shard lookup
get_group project tenant id st = found (lookup id (shard (scope project tenant) st.groups)) st

-- an empty workspace lists the groups of all
unfoldable pub list_groups : String → String → String → Op (List Group)
unfolding shard sort_by values filter
list_groups project tenant workspace st = (
  ok (
      sort_by (λ (a b : Group). created_before a.created_at a.id b.created_at b.id)
        (filter (λ (g : Group). not (not (workspace == "") && not (g.workspace_id == workspace)))
          (values (shard (scope project tenant) st.groups)))),
  st,
)

unfoldable pub delete_group : String → String → String → Op (Unit {0})
unfolding shard lookup change_in remove retain advance
delete_group project tenant id st =
    let sk = scope project tenant in
    if not (has id (shard sk st.groups)) then (err Error.not_found, st) else (
      ok tt,
      advance sk (record st {
        groups = change_in sk (remove id) st.groups;
        enrollments = change_in sk (remove id) st.enrollments;
        tuples = change_in sk (retain (λ t. not (of_object "group" id t))) st.tuples;
      }),
    )

-- `kind+":"+id`
unfoldable pub enrollment_key : GroupMember → String
unfolding member_key
enrollment_key m = let (kind, id) = member_key m in kind ++ (":" ++ id)

unfoldable pub set_enrollment_and_tuples :
    Enrollment → (inserts deletes : List Tuple) → Op (Unit {0})
unfolding put put_in shard enrollment_key write_tuples_locked
set_enrollment_and_tuples e inserts deletes st =
    let sk = scope e.project_id e.tenant_id in
    (
      ok tt,
      write_tuples_locked e.project_id e.tenant_id inserts deletes (record st {
        enrollments =
            put sk (put_in e.group_id (enrollment_key e.member) e (shard sk st.enrollments))
              st.enrollments;
      }),
    )

unfoldable pub get_enrollment : String → String → String → GroupMember → Op Enrollment
unfolding shard lookup enrollment_key
get_enrollment project tenant group member st =
    found
      (lookup (enrollment_key member) (shard group (shard (scope project tenant) st.enrollments)))
      st

abbrev enrolled_before : Enrollment → Enrollment → Bool
unfolding enrollment_key
enrolled_before a b =
    created_before a.created_at (enrollment_key a.member) b.created_at (enrollment_key b.member)

unfoldable pub list_enrollments : String → String → String → Op (List Enrollment)
unfolding shard sort_by values enrollment_key
list_enrollments project tenant group st = (
  ok (sort_by enrolled_before (values (shard group (shard (scope project tenant) st.enrollments)))),
  st,
)
