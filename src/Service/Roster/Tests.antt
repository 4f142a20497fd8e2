-- ===== src/Service/Roster/Tests.antt =====
-- The workspace services at inputs of their own (internal/service/workspaces.go, members.go,
-- ownership.go).
use workspace.Base.{lookup}
use workspace.Base.{◌≡◌, refl, true, false}
use workspace.Authz.Model.{rewrite_of, operator}
use workspace.Authz.Check.{eval_this, this_step}
use workspace.Authz.State.{charge}
use workspace.Authz.Condition.{eval_condition}
use workspace.Base.Tables.{has, shard}
use workspace.Service.Access.{Principal}
use workspace.Service.Tests.{service, caller}
use workspace.Service.Roster.{role_key, Consistent}
use workspace.Service.Roster.Steps.{
  Request, serve, done, also, Served-AllConsistent, new_store-AllConsistent,
}
use workspace.Base.{ok}
use workspace.Service.Types.{Workspace}
use workspace.Service.Ownership.{transfer_ownership}
use workspace.Service.Roster.Rows.{AllConsistent}
use workspace.Service.Roster.Succession.{HasRole, transfer_ownership-succeeds}
use workspace.Store.Keys.{scope, tuple_key}
use workspace.Store.State.{Store, new_store}

-- a team gets a member, who becomes its owner
abbrev pub bea : Principal
bea = record { user_id = "bea"; project_id = "p"; tenant_id = "t"; caller = "" }

abbrev pub handed_over : Store
handed_over = serve service 9 caller (Request.transfer "w" "bea") (
    serve service 8 caller (Request.add "w" "bea" "member")
      (serve service 7 caller (Request.create "w" "Team" "") new_store))

-- the tuples of the two users, and nobody else, follow
grants_follow :
    (has (role_key "w" "owner" "bea") (shard (scope "p" "t") handed_over.tuples) ≡ true)
    × (has (role_key "w" "member" "bea") (shard (scope "p" "t") handed_over.tuples) ≡ false)
    × (has (role_key "w" "admin" "ann") (shard (scope "p" "t") handed_over.tuples) ≡ true)
    × (has (role_key "w" "owner" "ann") (shard (scope "p" "t") handed_over.tuples) ≡ false)
unfolding serve shard scope tuple_key new_store rewrite_of operator eval_this charge this_step
    eval_condition
grants_follow = (refl, refl, refl, refl)

Served-AllConsistent_example : Consistent (scope "p" "t") handed_over
Served-AllConsistent_example =
    Served-AllConsistent
      (also service 7 caller (Request.create "w" "Team" "") (
        also service 8 caller (Request.add "w" "bea" "member")
          (also service 9 caller (Request.transfer "w" "bea") done)))
      new_store-AllConsistent (scope "p" "t")

-- the store before the transfer, and its workspace
abbrev shared : Store
shared =
    serve service 8 caller (Request.add "w" "bea" "member")
      (serve service 7 caller (Request.create "w" "Team" "") new_store)

abbrev the_team : Workspace
the_team = record {
  id = "w";
  project_id = "p";
  tenant_id = "t";
  slug = "eam";
  display_name = "Team";
  kind = "team";
  owner_user_id = "ann";
  created_at = 7;
  updated_at = 7;
}

shared-AllConsistent : AllConsistent shared
shared-AllConsistent =
    Served-AllConsistent
      (also service 7 caller (Request.create "w" "Team" "")
        (also service 8 caller (Request.add "w" "bea" "member") done))
      new_store-AllConsistent

transfer_ownership-succeeds_example :
    ((transfer_ownership service 9 caller "w" "bea" shared).0
      ≡ ok (record the_team { owner_user_id = "bea"; updated_at = 9 }))
    × HasRole
        (scope "p" "t")
        "w"
        "bea"
        "owner"
        (transfer_ownership service 9 caller "w" "bea" shared).1
    × HasRole
        (scope "p" "t")
        "w"
        "ann"
        "admin"
        (transfer_ownership service 9 caller "w" "bea" shared).1
unfolding lookup shard serve new_store scope rewrite_of operator eval_this charge this_step
    eval_condition tuple_key
transfer_ownership-succeeds_example =
    transfer_ownership-succeeds service 9 caller "w" "bea" the_team shared shared-AllConsistent refl
      refl refl refl refl refl
