-- ===== src/Service/Roster/Leave.antt =====
-- `RemoveMember` keeps rows and tuples together (internal/service/members.go).
use workspace.Base.{
  ℕ, String, ◌≡◌, ◌≢◌, refl, sym, ap, ◌∙◌, subst, Bool, true, false, not, Option, none, some, [],
  ◌∷◌, ◌==◌, arith, eq_iff, if◌then◌else◌, ◌⊎◌, inl, inr, Bool-cases, ok, err, Error,
}
use workspace.Base.Tables.{shard, values}
use workspace.Authz.State.{raise, ◌>>◌}
use workspace.Service.Types.{Workspace, Membership, role_owner}
use workspace.Service.Access.{Principal, Service}
use workspace.Service.Rules.{Keeps, if-Keeps}
use workspace.Service.Members.{drop_member, remove_member}
use workspace.Service.Roster.{member_of, workspace_of, IsOwned, Owned, IsInvited, Consistent}
use workspace.Service.Roster.Put.{grants, All-map}
use workspace.Service.Roster.Rows.{AllConsistent}
use workspace.Service.Roster.Members.{some-injective}
use workspace.Service.Roster.Requests.{managed-Keeps}
use workspace.Service.Roster.Removal.{
  without_row, after_drop, is_dropped, member-after_drop, row-after_drop, backed-after_drop,
}
use workspace.Store.Keys.{scope}
use workspace.Store.State.{Store}
use workspace.Store.Tuples.{write_tuples_locked, write_tuples, advance}
use workspace.Store.Tuples.Writes.{write-WellKeyed}
use workspace.Store.Workspaces.{delete_membership, delete_membership_and_tuples}

module _ (project tenant workspace user : String) (m : Membership) (st : Store)
    (old : member_of (scope project tenant) workspace user st ≡ some m)
    (humble : m.role ≢ role_owner) where
  not-dropped :
      (sk id : String) (w : Workspace)
      → IsOwned sk st id w
      → is_dropped project tenant workspace user m st sk id w.owner_user_id ≡ false
  not-dropped sk id w i =
      by_test (Bool-cases (scope project tenant == sk)) (Bool-cases (workspace == id))
        (Bool-cases (user == w.owner_user_id))
    where
      by_test :
          ((scope project tenant == sk) ≡ true) ⊎ ((scope project tenant == sk) ≡ false)
          → ((workspace == id) ≡ true) ⊎ ((workspace == id) ≡ false)
          → ((user == w.owner_user_id) ≡ true) ⊎ ((user == w.owner_user_id) ≡ false)
          → is_dropped project tenant workspace user m st sk id w.owner_user_id ≡ false
      by_test (inr s) _ _ = rw s refl
      by_test (inl s) (inr e) _ = rw (s, e) refl
      by_test (inl s) (inl e) (inr u) = rw (s, e, u) refl
      by_test (inl s) (inl e) (inl u) =
          let row : member_of sk id w.owner_user_id st ≡ some m =
            subst (λ x. member_of x id w.owner_user_id st ≡ some m)
              ((eq_iff (scope project tenant) sk).0 s)
              (subst (λ x. member_of (scope project tenant) x w.owner_user_id st ≡ some m)
                ((eq_iff workspace id).0 e)
                (subst (λ x. member_of (scope project tenant) workspace x st ≡ some m)
                  ((eq_iff user w.owner_user_id).0 u) old)) in
          absurd (
            humble
              (ap (λ (x : Membership). x.role) (some-injective (sym row ∙ i.has_row)) ∙ i.is_owner))

  Owned-after_drop :
      (sk id : String) (o : Option Workspace)
      → Owned sk st id o
      → Owned sk (after_drop project tenant workspace user m st) id o
  Owned-after_drop sk id none h = λ u.
      member-after_drop project tenant workspace user m st sk id u
      ∙ at (is_dropped project tenant workspace user m st sk id u) (h u)
    where
      at : (b : Bool) {o : Option Membership} → o ≡ none → (if b then none else o) ≡ none
      at true e = refl
      at false e = e
  Owned-after_drop sk id (some w) i = record {
    scope_is = i.scope_is;
    id_is = i.id_is;
    owner = i.owner;
    has_row =
        member-after_drop project tenant workspace user m st sk id w.owner_user_id
        ∙ ap (λ (b : Bool). if b then none else member_of sk id w.owner_user_id st)
            (not-dropped sk id w i)
        ∙ i.has_row;
    is_owner = i.is_owner;
    is_active = i.is_active;
    alone = λ u n e. i.alone u n (row-after_drop project tenant workspace user m st sk id u n e);
  }

  drop-Consistent :
      (sk : String)
      → Consistent sk st
      → Consistent sk (after_drop project tenant workspace user m st)
  unfolding after_drop without_row write_tuples_locked advance
  drop-Consistent sk c = record {
    settled = record {
      keyed =
          write-WellKeyed project tenant sk [] (grants workspace user (m.role ∷ []))
            (without_row project tenant workspace user m st) c.settled.keyed;
      placed = λ ws u n e.
          c.settled.placed ws u n (row-after_drop project tenant workspace user m st sk ws u n e);
      backed = λ ws role u.
          backed-after_drop project tenant workspace user m st sk ws u role old
            (c.settled.backed ws role u);
      invited =
          All-map (IsInvited sk st) (IsInvited sk (after_drop project tenant workspace user m st))
            (λ inv i. record {
              scope_is = i.scope_is;
              role_is = i.role_is;
              workspace = i.workspace;
              has_workspace = i.has_workspace;
            })
            (values (shard sk st.invitations)) c.settled.invited;
    };
    owned = λ ws. Owned-after_drop sk ws (workspace_of sk ws st) (c.owned ws);
  }

pub remove_member-Keeps :
    (sv : Service) (now : ℕ) (p : Principal) (workspace user : String) (st : Store)
    → AllConsistent st
    → Keeps AllConsistent (remove_member sv now p workspace user st)
unfolding remove_member drop_member delete_membership_and_tuples delete_membership write_tuples
    after_drop without_row
remove_member-Keeps sv now p workspace user st c =
    managed-Keeps sv now p workspace user (drop_member p workspace user) st c λ w row m old.
      if-Keeps AllConsistent (m.role == role_owner) (raise Error.failed_precondition)
        (delete_membership_and_tuples p.project_id p.tenant_id workspace user
          (grants workspace user (m.role ∷ [])))
        st (λ _. c)
        λ humble. dropped m old (λ sk.
          drop-Consistent p.project_id p.tenant_id workspace user m st old
            (λ e. ground (arith, eq_iff m.role role_owner)) sk (c sk))
  where
    by_row :
        (o : Option Membership) {m : Membership}
        → o ≡ some m
        → AllConsistent (after_drop p.project_id p.tenant_id workspace user m st)
        → Keeps AllConsistent (
            ((λ (s : Store).
                  if not (elim o [ none ↦ false | some _ ↦ true ])
                  then (err Error.not_found, s)
                  else (ok tt, without_row p.project_id p.tenant_id workspace user m s))
                >> write_tuples p.project_id p.tenant_id [] (grants workspace user (m.role ∷ [])))
              st)
    by_row none e h = absurd (cc)
    by_row (some _) e h = h

    dropped :
        (m : Membership)
        → member_of (scope p.project_id p.tenant_id) workspace user st ≡ some m
        → AllConsistent (after_drop p.project_id p.tenant_id workspace user m st)
        → Keeps AllConsistent (
            delete_membership_and_tuples p.project_id p.tenant_id workspace user
              (grants workspace user (m.role ∷ []))
              st)
    dropped m old h = by_row (member_of (scope p.project_id p.tenant_id) workspace user st) old h
