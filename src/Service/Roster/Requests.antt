-- ===== src/Service/Roster/Requests.antt =====
-- The requests on members keep rows and tuples together (internal/service/members.go).
use workspace.Base.{
  ℕ, String, ◌≡◌, refl, true, false, not, Option, none, some, [], ◌∷◌, ◌==◌, arith, eq_iff, inl,
  Result, ok, err, Error,
}
use workspace.Authz.State.{raise, lift, ◌>>=◌}
use workspace.Service.Types.{Workspace, Membership, role_owner, role_admin, type_personal}
use workspace.Service.Access.{
  Principal, Service, ensure_project_active, require_workspace, find_row,
}
use workspace.Service.Rules.{
  Keeps, Post, Post-Keeps, if-Keeps, found-Keeps, find_row-Keeps, require-Keeps,
}
use workspace.Service.Members.{
  new_member, put_new, put_member, is_grantable, admit_new, admit, add_member, change_role,
  update_member_role, suspend, suspend_member, reinstate, reinstate_member,
}
use workspace.Service.Roster.{member_of, workspace_of}
use workspace.Service.Roster.Rows.{AllConsistent}
use workspace.Service.Roster.Members.{
  put-beside, moves_in, change_role-Keeps, suspend-Keeps, reinstate-Keeps,
}
use workspace.Store.Keys.{scope}
use workspace.Store.State.{Store, Op}
use workspace.Store.Tuples.{write_tuples_locked, advance}
use workspace.Store.Workspaces.{put_membership_locked, put_membership_and_tuples, get_membership}

pub grantable_humble : (role : String) → is_grantable role ≡ true → (role == role_owner) ≡ false
unfolding is_grantable
grantable_humble role h = ground arith

-- an admin's change of a member who has a row
pub managed-Keeps :
    {B : Type 0} (sv : Service) (now : ℕ) (p : Principal) (workspace user : String)
    (f : Membership → Op B) (st : Store)
    → AllConsistent st
    → ((w : Workspace)
        → workspace_of (scope p.project_id p.tenant_id) workspace st ≡ some w
        → (m : Membership) → member_of (scope p.project_id p.tenant_id) workspace user st ≡ some m
        → Keeps AllConsistent (f m st))
    → Keeps AllConsistent (
        (require_workspace sv now p workspace role_admin >>= λ _.
        (get_membership p.project_id p.tenant_id workspace user >>= f))
          st)
unfolding get_membership
managed-Keeps sv now p workspace user f st c k =
    require-Keeps AllConsistent sv now p workspace role_admin
      (λ _. (get_membership p.project_id p.tenant_id workspace user >>= f)) st c
      λ w row.
        found-Keeps AllConsistent (member_of (scope p.project_id p.tenant_id) workspace user st) f
          st c (k w row)

module _ (sv : Service) (now : ℕ) (p : Principal) (workspace user : String) (st : Store)
    (c : AllConsistent st) where
  -- a new member of a workspace that is there
  module _ (role : String) (w : Workspace)
      (row : workspace_of (scope p.project_id p.tenant_id) workspace st ≡ some w)
      (new : member_of (scope p.project_id p.tenant_id) workspace user st ≡ none)
      (humble : (role == role_owner) ≡ false) where
    put_new-AllConsistent : AllConsistent (put_new now p workspace user role st).1
    unfolding put_new put_membership_and_tuples new_member
    put_new-AllConsistent =
        put-beside (scope p.project_id p.tenant_id) workspace user
          (new_member now p workspace user role) (role ∷ []) [] st none (inl refl)
          (moves_in (new_member now p workspace user role) refl) (refl, refl, refl) new c w row
          (λ e. ground (arith, eq_iff role role_owner)) (λ n e. absurd (cc))

    -- which leaves the workspaces as they are
    pub put_member-Post :
        Post AllConsistent
          (λ _ st'. AllConsistent st' × (st'.workspaces ≡ st.workspaces))
          (put_member sv now p workspace user role st)
    unfolding put_member put_new put_membership_and_tuples put_membership_locked write_tuples_locked
        advance
    put_member-Post = by_gate (ensure_project_active sv p)
      where
        by_gate :
            (r : Result (Unit {0}))
            → Post AllConsistent
                (λ _ st'. AllConsistent st' × (st'.workspaces ≡ st.workspaces))
                ((lift r >>= λ _. put_new now p workspace user role) st)
        by_gate (err e) = c
        by_gate (ok _) = (put_new-AllConsistent, refl)

    pub put_member-Keeps : Keeps AllConsistent (put_member sv now p workspace user role st)
    put_member-Keeps =
        Post-Keeps AllConsistent _ (put_member sv now p workspace user role st) put_member-Post
          (λ _ _ h. h.0)

  admit_new-Keeps :
      (role : String) (w : Workspace)
      → workspace_of (scope p.project_id p.tenant_id) workspace st ≡ some w
      → (role == role_owner) ≡ false
      → (o : Option Membership) → member_of (scope p.project_id p.tenant_id) workspace user st ≡ o
      → Keeps AllConsistent (admit_new sv now p workspace user role o st)
  unfolding admit_new
  admit_new-Keeps role w row humble none new = put_member-Keeps role w row new humble
  admit_new-Keeps role w row humble (some _) old = c

  pub add_member-Keeps :
      (role : String) → Keeps AllConsistent (add_member sv now p workspace user role st)
  unfolding add_member admit get_membership
  add_member-Keeps role =
      if-Keeps AllConsistent (not (is_grantable role)) _ _ st (λ _. c)
        λ grantable.
          if-Keeps AllConsistent (user == "") _ _ st (λ _. c)
            λ _.
              require-Keeps AllConsistent sv now p workspace role_admin
                (admit sv now p workspace user role) st c
                λ w row.
                  if-Keeps AllConsistent (w.kind == type_personal) (raise Error.failed_precondition)
                    (find_row (get_membership p.project_id p.tenant_id workspace user)
                      >>= admit_new sv now p workspace user role)
                    st (λ _. c)
                    λ _.
                      find_row-Keeps AllConsistent
                        (member_of (scope p.project_id p.tenant_id) workspace user st)
                        (admit_new sv now p workspace user role) st
                        (admit_new-Keeps role w row (grantable_humble role (ground arith)))

  pub update_member_role-Keeps :
      (role : String) → Keeps AllConsistent (update_member_role sv now p workspace user role st)
  unfolding update_member_role
  update_member_role-Keeps role =
      if-Keeps AllConsistent (not (is_grantable role)) _ _ st (λ _. c)
        λ grantable.
          managed-Keeps sv now p workspace user (change_role now workspace user role) st c
            λ w row m old.
              change_role-Keeps p workspace user st c w row m old now role
                (grantable_humble role (ground arith))

  pub suspend_member-Keeps : Keeps AllConsistent (suspend_member sv now p workspace user st)
  unfolding suspend_member
  suspend_member-Keeps =
      managed-Keeps sv now p workspace user (suspend now workspace user) st c
        λ w row m old. suspend-Keeps p workspace user st c w row m old now

  pub reinstate_member-Keeps : Keeps AllConsistent (reinstate_member sv now p workspace user st)
  unfolding reinstate_member
  reinstate_member-Keeps =
      managed-Keeps sv now p workspace user (reinstate now workspace user) st c
        λ w row m old. reinstate-Keeps p workspace user st c w row m old now
