-- ===== src/Service/Roster/Members.antt =====
-- The operations on members keep rows and tuples together (internal/service/members.go).
use workspace.Base.{
  ℕ, String, ◌≡◌, ◌≢◌, refl, sym, ap, ◌∙◌, subst, false, not, ◌&&◌, ◌||◌, Option, none, some, List,
  [], ◌∷◌, ◌==◌, arith, eq_iff, ◌⊎◌, inl, inr, contains,
}
use workspace.Service.Types.{Workspace, Membership, role_owner, status_active, status_suspended}
use workspace.Service.Access.{Principal}
use workspace.Service.Rules.{Keeps, if-Keeps}
use workspace.Service.Members.{change_role, suspend, reinstate}
use workspace.Service.Roster.{member_of, workspace_of, holds, IsAt, IsOwned, Owned}
use workspace.Service.Roster.Put.{grants}
use workspace.Service.Roster.Rows.{
  IsHere, row-after_put, member-elsewhere, AllConsistent, put_at, put-AllConsistent,
}
use workspace.Store.Keys.{scope}
use workspace.Store.State.{Store}
use workspace.Store.Tuples.{write_tuples_locked, advance}
use workspace.Store.Workspaces.{put_membership_and_tuples}

-- The write of the row of a member who is not and does not become the owner.
module _ (at workspace user : String) (m : Membership) (ins del : List String) (st : Store)
    (o : Option Membership) (known : (m.status ≡ status_active) ⊎ (m.status ≡ status_suspended))
    (moves : (role : String)
      → (contains role ins || (not (contains role del) && holds role o)) ≡ holds role (some m))
    (is_here : IsHere at workspace user m) (old : member_of at workspace user st ≡ o)
    (c : AllConsistent st) (w : Workspace) (row : workspace_of at workspace st ≡ some w)
    (humble : m.role ≢ role_owner) (was : (n : Membership) → o ≡ some n → n.role ≢ role_owner) where
  owned_before : IsOwned at st workspace w
  owned_before = subst (Owned at st workspace) row ((c at).owned workspace)

  owner_elsewhere : ¬ IsHere at workspace w.owner_user_id m
  owner_elsewhere h =
      was owned_before.owner
        (sym old
          ∙ ap (λ u. member_of at workspace u st) (sym is_here.2 ∙ h.2)
          ∙ owned_before.has_row)
        owned_before.is_owner

  pub put-beside : AllConsistent (put_at at workspace user m ins del st o known moves is_here old)
  unfolding put_membership_and_tuples write_tuples_locked advance
  put-beside = put-AllConsistent at workspace user m ins del st o known moves is_here old c (
      subst (Owned at (put_at at workspace user m ins del st o known moves is_here old) workspace)
        (sym row)
        (record {
          scope_is = owned_before.scope_is;
          id_is = owned_before.id_is;
          owner = owned_before.owner;
          has_row =
              member-elsewhere at m ins del st workspace w.owner_user_id owner_elsewhere
              ∙ owned_before.has_row;
          is_owner = owned_before.is_owner;
          is_active = owned_before.is_active;
          alone = λ user' n e is_owner.
              alone user' n is_owner (row-after_put at m ins del st workspace user' n e);
        }))
    where
      alone :
          (user' : String) (n : Membership)
          → n.role ≡ role_owner
          → (IsHere at workspace user' m × (m ≡ n)) ⊎ (member_of at workspace user' st ≡ some n)
          → user' ≡ w.owner_user_id
      alone user' n is_owner (inl (_, same)) =
          absurd (humble (ap (λ (x : Membership). x.role) same ∙ is_owner))
      alone user' n is_owner (inr e) = owned_before.alone user' n e is_owner

-- a status that is known and is not suspended is active
active_status :
    {s : String}
    → (s ≡ status_active) ⊎ (s ≡ status_suspended)
    → (s == status_suspended) ≡ false
    → s ≡ status_active
active_status (inl e) h = e
active_status {s} (inr e) h = ground (arith, eq_iff s status_suspended)

-- how the tuples follow the row: the changes that the operations make
module _ (m : Membership) where
  pub moves_role :
      (role : String) (now : ℕ)
      → m.status ≡ status_active
      → (r : String)
      → (contains r (role ∷ []) || (not (contains r (m.role ∷ [])) && holds r (some m)))
        ≡ holds r (some (record m { role = role; updated_at = now }))
  unfolding contains
  moves_role role now e r =
      ground (arith, eq_iff m.role r, eq_iff role r, eq_iff m.status status_active)

  moves_out :
      (now : ℕ) (r : String)
      → (contains r [] || (not (contains r (m.role ∷ [])) && holds r (some m)))
        ≡ holds r (some (record m { status = status_suspended; updated_at = now }))
  unfolding contains
  moves_out now r = ground (arith, eq_iff m.role r)

  moves_back :
      (now : ℕ)
      → m.status ≡ status_suspended
      → (r : String)
      → (contains r (m.role ∷ []) || (not (contains r []) && holds r (some m)))
        ≡ holds r (some (record m { status = status_active; updated_at = now }))
  unfolding contains
  moves_back now e r = ground (arith, eq_iff m.role r, eq_iff m.status status_active)

  pub moves_in :
      m.status ≡ status_active
      → (r : String)
      → (contains r (m.role ∷ []) || (not (contains r []) && holds r none)) ≡ holds r (some m)
  unfolding contains
  moves_in e r = ground (arith, eq_iff m.role r, eq_iff m.status status_active)

active_not_suspended : status_active ≢ status_suspended
active_not_suspended e = ground (arith, eq_iff status_active status_suspended)

pub some-injective : {A : Type 0} {a b : A} → some a ≡ some b → a ≡ b
some-injective e = cc

module _ (p : Principal) (workspace user : String) (st : Store) (c : AllConsistent st)
    (w : Workspace)
    (row : workspace_of (scope p.project_id p.tenant_id) workspace st ≡ some w) where
  at : String
  at = scope p.project_id p.tenant_id

  -- a member whose row is found
  module _ (m : Membership)
      (old : member_of (scope p.project_id p.tenant_id) workspace user st ≡ some m) where
    is_at : IsAt (scope p.project_id p.tenant_id) workspace user m
    is_at = (c (scope p.project_id p.tenant_id)).settled.placed workspace user m old

    is_not_owner : (m.role == role_owner) ≡ false → m.role ≢ role_owner
    is_not_owner h e = ground (arith, eq_iff m.role role_owner)

    was_humble :
        m.role ≢ role_owner
        → (n : Membership) → ◌≡◌ {A = Option Membership} (some m) (some n)
        → n.role ≢ role_owner
    was_humble h n e f = h (cc)

    -- the row changes to another of the same member
    change-AllConsistent :
        (m' : Membership) (ins del : List String)
        → IsHere (scope p.project_id p.tenant_id) workspace user m'
        → (m'.status ≡ status_active) ⊎ (m'.status ≡ status_suspended)
        → ((r : String)
            → (contains r ins || (not (contains r del) && holds r (some m))) ≡ holds r (some m'))
        → m.role ≢ role_owner
        → m'.role ≢ role_owner
        → AllConsistent
            (put_membership_and_tuples m'
              (grants workspace user ins)
              (grants workspace user del)
              st).1
    change-AllConsistent m' ins del is_here known moves was is =
        put-beside (scope p.project_id p.tenant_id) workspace user m' ins del st (some m) known
          moves is_here old c w row is (was_humble was)

    pub change_role-Keeps :
        (now : ℕ) (role : String)
        → (role == role_owner) ≡ false
        → Keeps AllConsistent (change_role now workspace user role m st)
    unfolding change_role put_membership_and_tuples
    change_role-Keeps now role humble =
        if-Keeps AllConsistent (m.role == role_owner) _ _ st (λ _. c)
          λ was.
            if-Keeps AllConsistent (m.status == status_suspended) _ _ st (λ _. c)
              λ active.
                if-Keeps AllConsistent (m.role == role) _ _ st (λ _. c)
                  λ other.
                    change-AllConsistent (record m { role = role; updated_at = now }) (role ∷ [])
                      (m.role ∷ []) (is_at.scope_is, is_at.workspace_is, is_at.user_is)
                      is_at.status_known
                      (moves_role m role now (active_status is_at.status_known active))
                      (is_not_owner was) (λ e. ground (arith, eq_iff role role_owner))

    pub suspend-Keeps : (now : ℕ) → Keeps AllConsistent (suspend now workspace user m st)
    unfolding suspend put_membership_and_tuples
    suspend-Keeps now =
        if-Keeps AllConsistent (m.role == role_owner) _ _ st (λ _. c)
          λ was.
            if-Keeps AllConsistent (m.status == status_suspended) _ _ st (λ _. c)
              λ active.
                change-AllConsistent (record m { status = status_suspended; updated_at = now }) []
                  (m.role ∷ []) (is_at.scope_is, is_at.workspace_is, is_at.user_is) (inr refl)
                  (moves_out m now) (is_not_owner was) (is_not_owner was)

    -- a member who is suspended is not the owner, who is active
    suspended_not_owner : m.status ≡ status_suspended → m.role ≢ role_owner
    suspended_not_owner suspended is_owner =
        let i : IsOwned (scope p.project_id p.tenant_id) st workspace w =
          subst (Owned (scope p.project_id p.tenant_id) st workspace) row
            ((c (scope p.project_id p.tenant_id)).owned workspace) in
        let same : i.owner ≡ m = some-injective (
          sym i.has_row
          ∙ ap (λ u. member_of (scope p.project_id p.tenant_id) workspace u st)
              (sym (i.alone user m old is_owner))
          ∙ old) in
        active_not_suspended (sym i.is_active ∙ ap (λ (x : Membership). x.status) same ∙ suspended)

    pub reinstate-Keeps : (now : ℕ) → Keeps AllConsistent (reinstate now workspace user m st)
    unfolding reinstate put_membership_and_tuples
    reinstate-Keeps now =
        if-Keeps AllConsistent (not (m.status == status_suspended)) _ _ st (λ _. c)
          λ suspended.
            change-AllConsistent (record m { status = status_active; updated_at = now })
              (m.role ∷ []) [] (is_at.scope_is, is_at.workspace_is, is_at.user_is) (inl refl)
              (moves_back m now (ground (arith, eq_iff m.status status_suspended)))
              (suspended_not_owner (ground (arith, eq_iff m.status status_suspended)))
              (suspended_not_owner (ground (arith, eq_iff m.status status_suspended)))
