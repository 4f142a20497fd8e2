-- ===== src/Service/Roster/Succession.antt =====
-- A transfer that is allowed takes place (`TransferOwnership` in internal/service/ownership.go).
use workspace.Base.{
  ℕ, String, ◌≡◌, ◌≢◌, refl, sym, ap, ap₂, ◌∙◌, subst, Bool, true, false, ◌&&◌, Option, some, ◌==◌,
  arith, eq_iff, if◌then◌else◌, Result, ok, Error,
}
use workspace.Base.Tables.{has, shard}
use workspace.Authz.State.{pure, raise, lift, ◌>>=◌, ◌>>◌}
use workspace.Service.Types.{
  Workspace, Membership, role_owner, role_admin, type_personal, status_active,
}
use workspace.Service.Access.{Principal, Service, ensure_project_active, allowed, require_workspace}
use workspace.Service.Ownership.{hand_over, transfer, transfer_ownership}
use workspace.Service.Rules.{then-ok}
use workspace.Service.Roster.{member_of, workspace_of, role_key, holds, IsOwned}
use workspace.Service.Roster.Rows.{AllConsistent}
use workspace.Service.Roster.Transfer.{own, demoted, demoted_row, was_owned, st3-AllConsistent}
use workspace.Service.Roster.HandOver.{store3, existing, hand_over-ok}
use workspace.Store.Keys.{scope}
use workspace.Store.State.{Store, Op}
use workspace.Store.Workspaces.{found, get_workspace}

-- A user has an active row with a role, and of the roles the tuple of this one alone.
pub record HasRole (sk workspace user role : String) (st : Store) : Type 0 where
  pub member : Membership
  pub has_row : member_of sk workspace user st ≡ some member
  pub role_is : member.role ≡ role
  pub is_active : member.status ≡ status_active
  pub granted : (r : String) → has (role_key workspace r user) (shard sk st.tuples) ≡ (role == r)

has_role :
    (sk workspace user : String) (m : Membership) (st : Store)
    → AllConsistent st
    → member_of sk workspace user st ≡ some m
    → m.status ≡ status_active
    → HasRole sk workspace user m.role st
has_role sk workspace user m st c e active = record {
  member = m;
  has_row = e;
  role_is = refl;
  is_active = active;
  granted = λ r.
      (c sk).settled.backed workspace r user
      ∙ ap (holds r) e
      ∙ ap (λ s. s == status_active && m.role == r) active;
}

module _ (sv : Service) (now : ℕ) (p : Principal) (workspace user : String) (w : Workspace)
    (st : Store) (c : AllConsistent st)
    (row : workspace_of (scope p.project_id p.tenant_id) workspace st ≡ some w) where
  require-ok :
      (allowed sv now p workspace role_owner st).0 ≡ ok true
      → require_workspace sv now p workspace role_owner st ≡ (ok w, st)
  unfolding require_workspace get_workspace allowed
  require-ok h =
      then-ok (get_workspace p.project_id p.tenant_id workspace)
        (λ w.
          (allowed sv now p workspace role_owner >>= λ (granted : Bool).
          if granted then pure w else raise Error.permission_denied))
        (ap (λ o. found o st) row)
        (then-ok (allowed sv now p workspace role_owner)
          (λ (granted : Bool). if granted then pure w else raise Error.permission_denied)
          (λ i. (h i, st)) refl)

  -- A transfer that is allowed takes place: in a consistent store, if the caller is granted the owner
  -- relation on a workspace that is there and is no personal one, the project is active and servable
  -- and the new owner is another user than the recorded one, then TransferOwnership answers the
  -- workspace with its new owner; afterwards the new owner has an active owner row and, of the role
  -- tuples, that of an owner alone, and the former owner those of an admin, whether or not the new
  -- owner was a member before.
  pub transfer_ownership-succeeds :
      (allowed sv now p workspace role_owner st).0 ≡ ok true
      → ensure_project_active sv p ≡ ok tt
      → (w.kind == type_personal) ≡ false
      → (user == "") ≡ false
      → (user == w.owner_user_id) ≡ false
      → ((transfer_ownership sv now p workspace user st).0
          ≡ ok (record w { owner_user_id = user; updated_at = now }))
        × HasRole
            (scope p.project_id p.tenant_id)
            workspace
            user
            role_owner
            (transfer_ownership sv now p workspace user st).1
        × HasRole
            (scope p.project_id p.tenant_id)
            workspace
            w.owner_user_id
            role_admin
            (transfer_ownership sv now p workspace user st).1
  unfolding transfer_ownership transfer
  transfer_ownership-succeeds granted active team named differs = subst Passed (sym answer) (
    refl,
    subst (λ r. HasRole at workspace user r after) heir.is_owner
        (has_role at workspace user heir.owner after consistent heir.has_row heir.is_active),
    has_role at workspace w.owner_user_id (demoted now p workspace user w st c row other o refl)
        after consistent (demoted_row now p workspace user w st c row other o refl) owner.is_active,
  )
    where
      at : String
      at = scope p.project_id p.tenant_id

      other : user ≢ w.owner_user_id
      other same = ground (arith, differs, same, eq_iff user w.owner_user_id)

      o : Option Membership
      o = existing now p workspace user w st c row other

      after : Store
      after = store3 now p workspace user w st c row other

      consistent : AllConsistent after
      consistent = st3-AllConsistent now p workspace user w st c row other o refl

      heir : IsOwned at after workspace (record w { owner_user_id = user; updated_at = now })
      heir = own now p workspace user w st c row other o refl

      owner : IsOwned at st workspace w
      owner = was_owned now p workspace user w st c row other

      Passed : Result Workspace × Store → Type 0
      Passed r =
          (r.0 ≡ ok (record w { owner_user_id = user; updated_at = now }))
          × HasRole at workspace user role_owner r.1
          × HasRole at workspace w.owner_user_id role_admin r.1

      then_transfer : Workspace → Op Workspace
      then_transfer w = lift (ensure_project_active sv p) >> transfer now p workspace user w

      answer :
          transfer_ownership sv now p workspace user st
          ≡ (ok (record w { owner_user_id = user; updated_at = now }), after)
      answer =
          ap
            (λ b.
              if◌then◌else◌ {A = Op Workspace} b (raise Error.invalid_argument)
                (require_workspace sv now p workspace role_owner >>= then_transfer) st)
            named
          ∙ then-ok (require_workspace sv now p workspace role_owner) then_transfer
              (require-ok granted)
              (then-ok (lift (ensure_project_active sv p)) (λ _. transfer now p workspace user w)
                (λ i. (active i, st))
                (ap₂
                    (λ a b.
                      if◌then◌else◌ {A = Op Workspace} a (raise Error.failed_precondition)
                        (if◌then◌else◌ {A = Op Workspace} b (pure w)
                          (hand_over now p workspace user w))
                        st)
                    team differs
                  ∙ hand_over-ok now p workspace user w st c row other))
