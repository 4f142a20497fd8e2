-- ===== src/Store/Tests.antt =====
-- A small store (internal/repo/memory/memory.go), and each property of it at an input of its own.
use workspace.Base.{
  ◌≤◌, String, ◌≡◌, ◌↔◌, refl, true, false, none, some, [], ◌∷◌, arith, ok, err, Error, lookup,
  ◌==◌, if◌then◌else◌,
}
use workspace.Base.Int.{pos, increment64}
use workspace.Base.Tables.{has, shard}
use workspace.Base.Decimal.{itoa}
use workspace.Authz.Model.{Subject, Tuple}
use workspace.Service.Types.{Workspace, SeatAssignment}
use workspace.Store.Keys.{scope, tuple_key, place, tuple_key-place_iff}
use workspace.Store.State.{Store, new_store}
use workspace.Store.Tuples.{
  sequence, write_tuples_locked, list_subjects, list_subject_tuples_in_project,
  delete_all_subject_tuples_in_project,
}
use workspace.Store.Tuples.Writes.{after_write, write_tuples_locked-lookup}
use workspace.Store.Tuples.Projects.{delete_all_subject_tuples_in_project-clears}
use workspace.Store.Workspaces.{
  create_workspace, get_workspace, list_members, list_invitations, delete_workspace,
}
use workspace.Store.Workspaces.Cascade.{delete_workspace-cascade}
use workspace.Store.Workspaces.Personal.{personal_workspaces, create_workspace-personal}
use workspace.Store.Seats.{seats_of, set_seat_limit, assign_seat_and_tuple}
use workspace.Store.Seats.Cap.{WithinCap, assigned, done, also, Steps-WithinCap}

abbrev named : String → Subject
named id = record { user_id = id; set = none; wildcard = false; condition = none }

abbrev grant : String → String → String → Tuple
grant object relation user = record {
  namespace = "workspace";
  object_id = object;
  relation = relation;
  subject = named user;
  expires_at = none;
}

abbrev team : Workspace
team = record {
  id = "acme";
  project_id = "p";
  tenant_id = "t";
  slug = "acme";
  display_name = "Acme";
  kind = "team";
  owner_user_id = "ann";
  created_at = 1;
  updated_at = 1;
}

abbrev own : String → Workspace
own id = record team { id = id; kind = "personal" }

abbrev seat : String → SeatAssignment
seat user = record {
  project_id = "p";
  tenant_id = "t";
  sku = "pro";
  user_id = user;
  assigned_at = 1;
}

-- the texts of two fields do not run into one another
shifted : tuple_key (grant "a/b" "c" "ann") ≡ "9:workspace3:a/b1:c6:u3:ann"
unfolding tuple_key itoa
shifted = refl

tuple_key-place_iff_example :
    (tuple_key (grant "a" "bc" "ann") ≡ tuple_key (grant "ab" "c" "ann"))
    ↔ (place (grant "a" "bc" "ann") ≡ place (grant "ab" "c" "ann"))
tuple_key-place_iff_example = tuple_key-place_iff (grant "a" "bc" "ann") (grant "ab" "c" "ann")

write_tuples_locked-lookup_example :
    (lookup (tuple_key (grant "acme" "owner" "ann")) (
        shard
          (scope "p" "t")
          (write_tuples_locked "p" "t" (grant "acme" "owner" "ann" ∷ []) [] new_store).tuples)
      ≡ (if scope "p" "t" == scope "p" "t"
          then after_write
              (tuple_key (grant "acme" "owner" "ann"))
              (grant "acme" "owner" "ann" ∷ [])
              []
              (lookup
                (tuple_key (grant "acme" "owner" "ann"))
                (shard (scope "p" "t") new_store.tuples))
          else lookup
              (tuple_key (grant "acme" "owner" "ann"))
              (shard (scope "p" "t") new_store.tuples)))
    × (sequence
          (scope "p" "t")
          (write_tuples_locked "p" "t" (grant "acme" "owner" "ann" ∷ []) [] new_store)
        ≡ (if scope "p" "t" == scope "p" "t"
            then increment64 (sequence (scope "p" "t") new_store)
            else sequence (scope "p" "t") new_store))
write_tuples_locked-lookup_example =
    write_tuples_locked-lookup "p" "t" (scope "p" "t") (tuple_key (grant "acme" "owner" "ann"))
      (grant "acme" "owner" "ann" ∷ []) [] new_store

abbrev with_team : Store
with_team = (create_workspace team new_store).1

team_there : has "acme" (shard (scope "p" "t") with_team.workspaces) ≡ true
unfolding create_workspace new_store scope
team_there = refl

delete_workspace-cascade_example :
    ((get_workspace "p" "t" "acme" (delete_workspace "p" "t" "acme" with_team).1).0
      ≡ err Error.not_found)
    × ((list_members "p" "t" "acme" (delete_workspace "p" "t" "acme" with_team).1).0 ≡ ok [])
    × ((list_invitations "p" "t" "acme" (delete_workspace "p" "t" "acme" with_team).1).0 ≡ ok [])
    × ((list_subjects 5 "p" "t" "workspace" "acme" "owner"
          (delete_workspace "p" "t" "acme" with_team).1).0
        ≡ ok [])
delete_workspace-cascade_example =
    delete_workspace-cascade "p" "t" "acme" "owner" 5 with_team team_there

abbrev with_own : Store
with_own = (create_workspace (own "mine") new_store).1

one_own : personal_workspaces (scope "p" "t") "ann" with_own ≤ 1
unfolding create_workspace new_store scope personal_workspaces
one_own = omega arith

second_refused : (create_workspace (own "mine too") with_own).0 ≡ err Error.already_exists
unfolding create_workspace new_store scope
second_refused = refl

create_workspace-personal_example :
    personal_workspaces (scope "p" "t") "ann" (create_workspace (own "mine too") with_own).1 ≤ 1
create_workspace-personal_example =
    create_workspace-personal (scope "p" "t") "ann" (own "mine too") with_own one_own

delete_all_subject_tuples_in_project-clears_example :
    ((list_subject_tuples_in_project 5 "p" "ann"
        (delete_all_subject_tuples_in_project "p" "ann" with_team).1).0
      ≡ ok [])
    × (has "ann" (
          seats_of
            (scope "p" "t")
            "pro"
            (delete_all_subject_tuples_in_project "p" "ann" with_team).1)
        ≡ false)
delete_all_subject_tuples_in_project-clears_example =
    delete_all_subject_tuples_in_project-clears "p" "t" "ann" "pro" 5 with_team

-- one seat, which ann takes before bob
abbrev one_seat : Store
one_seat = (set_seat_limit "p" "t" "pro" (some (pos 1)) new_store).1

abbrev ann_seated : Store
ann_seated = (assign_seat_and_tuple (seat "ann") (grant "pro" "holder" "ann") one_seat).1

bob_refused :
    (assign_seat_and_tuple (seat "bob") (grant "pro" "holder" "bob") ann_seated).0
    ≡ err Error.resource_exhausted
unfolding assign_seat_and_tuple set_seat_limit new_store scope
bob_refused = refl

one_seat-WithinCap : WithinCap (scope "p" "t") "pro" one_seat
unfolding set_seat_limit new_store scope
one_seat-WithinCap = omega arith

Steps-WithinCap_example :
    WithinCap
      (scope "p" "t")
      "pro"
      (assign_seat_and_tuple (seat "bob") (grant "pro" "holder" "bob") ann_seated).1
Steps-WithinCap_example =
    Steps-WithinCap (scope "p" "t") "pro" one_seat
      (assign_seat_and_tuple (seat "bob") (grant "pro" "holder" "bob") ann_seated).1
      one_seat-WithinCap
      (also (assigned (seat "ann") (grant "pro" "holder" "ann"))
        (also (assigned (seat "bob") (grant "pro" "holder" "bob")) done))
