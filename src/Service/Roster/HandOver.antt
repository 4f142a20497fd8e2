-- ===== src/Service/Roster/HandOver.antt =====
-- `TransferOwnership` as a request keeps rows and tuples together (internal/service/ownership.go).
use workspace.Base.{
  ℕ, String, ◌≡◌, ◌≢◌, refl, sym, ap, ap₂, ◌∙◌, subst, true, false, not, Option, none, some, ◌==◌,
  arith, eq_iff, if◌then◌else◌, ok, err, Error,
}
use workspace.Authz.State.{pure, raise, lift, ◌>>=◌, ◌>>◌}
use workspace.Service.Types.{Workspace, Membership, role_owner, type_personal}
use workspace.Service.Access.{
  Principal, Service, ensure_project_active, find_row, require_workspace,
}
use workspace.Service.Ownership.{
  promote_as, promote, demote_as, demote, hand_over, transfer, transfer_ownership,
}
use workspace.Service.Rules.{Keeps, if-Keeps, lift-Keeps, require-Keeps, then-ok, find_row-found}
use workspace.Service.Roster.{member_of, workspace_of}
use workspace.Service.Roster.Rows.{AllConsistent}
use workspace.Service.Roster.Create.{with_row}
use workspace.Service.Roster.Transfer.{was_owned, owner_row, st1, st2, st3, st3-AllConsistent}
use workspace.Store.Keys.{scope}
use workspace.Store.State.{Store}
use workspace.Store.Workspaces.{
  put_membership_locked, put_membership_and_tuples, get_membership, update_workspace,
}
use workspace.Store.Tuples.{write_tuples_locked, advance}

module _ (now : ℕ) (p : Principal) (workspace user : String) (w : Workspace) (st : Store)
    (c : AllConsistent st)
    (row : workspace_of (scope p.project_id p.tenant_id) workspace st ≡ some w)
    (other : user ≢ w.owner_user_id) where
  abbrev pub existing : Option Membership
  existing = member_of (scope p.project_id p.tenant_id) workspace user st

  abbrev after : Workspace
  after = record w { owner_user_id = user; updated_at = now }

  -- the store after each step
  abbrev store1 : Store
  store1 = st1 now p workspace user w st c row other existing refl

  abbrev store2 : Store
  store2 = st2 now p workspace user w st c row other existing refl

  abbrev pub store3 : Store
  store3 = st3 now p workspace user w st c row other existing refl

  promote-ok : promote now p workspace user st ≡ (ok tt, store1)
  unfolding promote get_membership promote_as put_membership_and_tuples st1
  promote-ok =
      then-ok (find_row (get_membership p.project_id p.tenant_id workspace user))
        (promote_as now p workspace user) (find_row-found existing st) refl

  update-ok : update_workspace after store1 ≡ (ok tt, store2)
  unfolding update_workspace promote_as put_membership_and_tuples put_membership_locked
      write_tuples_locked advance st1 st2 with_row
  update-ok =
      ap
        (λ (o : Option Workspace).
          if not (elim o [ none ↦ false | some _ ↦ true ])
          then (err Error.not_found, store1)
          else (ok tt, store2))
        (ap₂ (λ s id. workspace_of s id st)
            (was_owned now p workspace user w st c row other).scope_is
            (was_owned now p workspace user w st c row other).id_is
          ∙ row)

  demote-ok : demote now p workspace w.owner_user_id store2 ≡ (ok tt, store3)
  unfolding demote get_membership demote_as put_membership_and_tuples st3
  demote-ok =
      then-ok (find_row (get_membership p.project_id p.tenant_id workspace w.owner_user_id))
        (demote_as now p workspace w.owner_user_id)
        (find_row-found
            (member_of (scope p.project_id p.tenant_id) workspace w.owner_user_id store2) store2
          ∙ ap (λ o. (ok o, store2))
              (owner_row now p workspace user w st c row other existing refl))
        refl

  pub hand_over-ok : hand_over now p workspace user w st ≡ (ok after, store3)
  unfolding hand_over
  hand_over-ok =
      then-ok
        (promote now p workspace user
          >> update_workspace after
          >> demote now p workspace w.owner_user_id)
        (λ _. pure after) {st = st}
        (then-ok (promote now p workspace user >> update_workspace after)
          (λ _. demote now p workspace w.owner_user_id) {st = st}
          (then-ok (promote now p workspace user) (λ _. update_workspace after) promote-ok
            update-ok)
          demote-ok)
        refl

  pub hand_over-Keeps : Keeps AllConsistent (hand_over now p workspace user w st)
  hand_over-Keeps =
      subst (Keeps AllConsistent) (sym hand_over-ok)
        (st3-AllConsistent now p workspace user w st c row other existing refl)

pub transfer_ownership-Keeps :
    (sv : Service) (now : ℕ) (p : Principal) (workspace user : String) (st : Store)
    → AllConsistent st
    → Keeps AllConsistent (transfer_ownership sv now p workspace user st)
unfolding transfer_ownership transfer
transfer_ownership-Keeps sv now p workspace user st c =
    if-Keeps AllConsistent (user == "") (raise Error.invalid_argument)
      (require_workspace sv now p workspace role_owner >>= λ w.
        lift (ensure_project_active sv p) >> transfer now p workspace user w)
      st (λ _. c)
      λ _.
        require-Keeps AllConsistent sv now p workspace role_owner
          (λ w. lift (ensure_project_active sv p) >> transfer now p workspace user w) st c
          λ w row.
            lift-Keeps AllConsistent (ensure_project_active sv p)
              (λ _. transfer now p workspace user w) st c
              λ _ _.
                if-Keeps AllConsistent (w.kind == type_personal) (raise Error.failed_precondition)
                  (if user == w.owner_user_id then pure w else hand_over now p workspace user w) st
                  (λ _. c)
                  λ _.
                    if-Keeps AllConsistent (user == w.owner_user_id) (pure w)
                      (hand_over now p workspace user w) st (λ _. c)
                      λ differs.
                        hand_over-Keeps now p workspace user w st c row
                          (λ same. ground (arith, differs, same, eq_iff user w.owner_user_id))
