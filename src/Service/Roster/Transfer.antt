-- ===== src/Service/Roster/Transfer.antt =====
-- `TransferOwnership` keeps rows and tuples together (internal/service/ownership.go).
use workspace.Base.{
  ℕ, String, ◌≡◌, ◌≢◌, refl, sym, ap, ◌∙◌, subst, Bool, true, false, not, ◌&&◌, ◌||◌, Option, none,
  some, List, [], ◌∷◌, ◌==◌, arith, eq_iff, if◌then◌else◌, ◌⊎◌, inl, inr, Bool-cases, contains,
}
use workspace.Service.Types.{Workspace, Membership, role_owner, role_admin}
use workspace.Service.Access.{Principal}
use workspace.Service.Members.{role_tuples}
use workspace.Service.Ownership.{former_role, new_owner, promote_as}
use workspace.Service.Roster.{member_of, workspace_of, holds, IsAt, IsOwned, Owned}
use workspace.Service.Roster.Put.{grants, Owned-same}
use workspace.Service.Roster.Rows.{
  IsHere, AllSettled, AllConsistent, member-elsewhere, member-written, put-AllSettled,
}
use workspace.Service.Roster.Members.{moves_role, some-injective}
use workspace.Service.Roster.Create.{with_row, workspace-with_row, Settled-with_row}
use workspace.Store.Keys.{scope}
use workspace.Store.State.{Store}
use workspace.Store.Tuples.{write_tuples_locked, advance}
use workspace.Store.Workspaces.{put_membership_locked, put_membership_and_tuples}

module _ (now : ℕ) (p : Principal) (workspace user : String) (w : Workspace) (st : Store)
    (c : AllConsistent st)
    (row : workspace_of (scope p.project_id p.tenant_id) workspace st ≡ some w)
    (other : user ≢ w.owner_user_id) where
  abbrev pub at : String
  at = scope p.project_id p.tenant_id

  pub was_owned : IsOwned at st workspace w
  was_owned = subst (Owned at st workspace) row ((c at).owned workspace)

  -- step 1, for each row that the new owner may have had
  module _ (existing : Option Membership)
      (old : member_of (scope p.project_id p.tenant_id) workspace user st ≡ existing) where
    abbrev pub promoted : Membership
    promoted = new_owner now p workspace user existing

    -- the role that the new owner loses
    unfoldable pub lost : Option Membership → List String
    lost none = []
    lost (some m) = m.role ∷ []

    not_owner : (m : Membership) → existing ≡ some m → m.role ≢ role_owner
    not_owner m e is_owner = other (was_owned.alone user m (old ∙ e) is_owner)

    moves_up :
        (role : String)
        → (contains role (role_owner ∷ [])
            || (not (contains role (lost existing)) && holds role existing))
          ≡ holds role (some promoted)
    unfolding lost new_owner contains
    moves_up role = by_row existing
      where
        by_row :
            (o : Option Membership)
            → (contains role (role_owner ∷ []) || (not (contains role (lost o)) && holds role o))
              ≡ (role_owner == role)
        by_row none = ground (arith, eq_iff role_owner role)
        by_row (some m) = ground (arith, eq_iff role_owner role, eq_iff m.role role)

    unfoldable pub st1 : Store
    unfolding promote_as
    st1 = (promote_as now p workspace user existing st).1

    former : former_role workspace user existing ≡ grants workspace user (lost existing)
    unfolding former_role lost
    former = by_row existing not_owner
      where
        by_row :
            (o : Option Membership)
            → ((m : Membership) → o ≡ some m → m.role ≢ role_owner)
            → former_role workspace user o ≡ grants workspace user (lost o)
        by_row none h = refl
        by_row (some m) h =
            ap (λ (b : Bool). if not b then role_tuples workspace m.role user else [])
              (is_other m.role (h m refl))
          where
            is_other : (r : String) → r ≢ role_owner → (r == role_owner) ≡ false
            is_other r ne = ground (arith, eq_iff r role_owner, ne)

    promoted-AllSettled : AllSettled st1
    unfolding st1 promote_as put_membership_and_tuples new_owner
    promoted-AllSettled =
        subst
          (λ del.
            AllSettled
              (put_membership_and_tuples promoted (role_tuples workspace role_owner user) del st).1)
          (sym former)
          (put-AllSettled at workspace user promoted (role_owner ∷ []) (lost existing) st existing
            (inl refl) moves_up (refl, refl, refl) old (λ s. (c s).settled))

    -- step 2
    abbrev pub w2 : Workspace
    w2 = record w { owner_user_id = user; updated_at = now }

    unfoldable pub st2 : Store
    unfolding with_row st1
    st2 = with_row w2 st1

    -- the rows of members after step 2
    promoted_row : member_of at workspace user st2 ≡ some promoted
    unfolding st2 with_row st1 promote_as put_membership_and_tuples write_tuples_locked advance
        new_owner
    promoted_row = member-written at promoted [] [] st refl

    elsewhere :
        (sk id u : String)
        → ¬ IsHere sk id u promoted
        → member_of sk id u st2 ≡ member_of sk id u st
    unfolding st2 with_row st1 promote_as put_membership_and_tuples write_tuples_locked advance
        new_owner
    elsewhere sk id u = member-elsewhere sk promoted [] [] st id u

    pub owner_row : member_of at workspace w.owner_user_id st2 ≡ some was_owned.owner
    unfolding new_owner
    owner_row = elsewhere at workspace w.owner_user_id (λ h. other h.2) ∙ was_owned.has_row

    -- step 3
    abbrev pub demoted : Membership
    demoted = record (was_owned.owner) { role = role_admin; updated_at = now }

    pub owner_place : IsAt at workspace w.owner_user_id was_owned.owner
    owner_place = (c at).settled.placed workspace w.owner_user_id was_owned.owner was_owned.has_row

    moves_down :
        (role : String)
        → (contains role (role_admin ∷ [])
            || (not (contains role (role_owner ∷ [])) && holds role (some was_owned.owner)))
          ≡ holds role (some demoted)
    moves_down role =
        ap
          (λ r.
            contains role (role_admin ∷ [])
            || (not (contains role (r ∷ [])) && holds role (some was_owned.owner)))
          (sym was_owned.is_owner)
        ∙ moves_role was_owned.owner role_admin now was_owned.is_active role

    unfoldable pub st3 : Store
    unfolding st2 put_membership_and_tuples
    st3 =
        (put_membership_and_tuples demoted (role_tuples workspace role_admin w.owner_user_id)
          (role_tuples workspace role_owner w.owner_user_id) st2).1

    settled : AllSettled st3
    unfolding st3 st2
    settled =
        put-AllSettled at workspace w.owner_user_id demoted (role_admin ∷ []) (role_owner ∷ []) st2
          (some was_owned.owner) owner_place.status_known moves_down
          (owner_place.scope_is, owner_place.workspace_is, owner_place.user_is) owner_row
          (λ sk. Settled-with_row w2 st1 sk (promoted-AllSettled sk))

    -- the rows of members after step 3
    unmoved :
        (sk id u : String)
        → ¬ IsHere sk id u demoted
        → member_of sk id u st3 ≡ member_of sk id u st2
    unfolding st3 put_membership_and_tuples write_tuples_locked advance
    unmoved sk id u = member-elsewhere sk demoted [] [] st2 id u

    pub demoted_row : member_of at workspace w.owner_user_id st3 ≡ some demoted
    unfolding st3 put_membership_and_tuples write_tuples_locked advance
    demoted_row =
        subst (λ x. member_of at x w.owner_user_id st3 ≡ some demoted) owner_place.workspace_is
          (subst (λ u. member_of at was_owned.owner.workspace_id u st3 ≡ some demoted)
            owner_place.user_is (member-written at demoted [] [] st2 owner_place.scope_is))

    not_demoted : (u : String) → u ≢ w.owner_user_id → ¬ IsHere at workspace u demoted
    not_demoted u ne h = ne (sym h.2 ∙ owner_place.user_is)

    admin_is_not : role_admin ≢ role_owner
    admin_is_not h = let e : true ≡ false = ap (λ role. role == role_admin) h in absurd (cc)

    alone :
        (u : String) (n : Membership)
        → member_of at workspace u st3 ≡ some n
        → n.role ≡ role_owner
        → u ≡ user
    unfolding new_owner
    alone u n e is_owner = by_user (Bool-cases (u == w.owner_user_id))
      where
        by_promotion : u ≢ w.owner_user_id → (user == u ≡ true) ⊎ (user == u ≡ false) → u ≡ user
        by_promotion ne (inl same) = ground (arith, eq_iff user u)
        by_promotion ne (inr differs) = absurd (
            ne (
              was_owned.alone u n
                (sym (elsewhere at workspace u (λ h. ground (arith, eq_iff user u, h.2)))
                  ∙ sym (unmoved at workspace u (not_demoted u ne))
                  ∙ e)
                is_owner))

        by_user : ((u == w.owner_user_id) ≡ true) ⊎ ((u == w.owner_user_id) ≡ false) → u ≡ user
        by_user (inl same) =
            let at_owner : u ≡ w.owner_user_id = ground (arith, eq_iff u w.owner_user_id) in
            let admin : demoted ≡ n =
              some-injective
                (sym demoted_row ∙ ap (λ x. member_of at workspace x st3) (sym at_owner) ∙ e) in
            let role : role_admin ≡ n.role = ap (λ (m : Membership). m.role) admin in
            absurd (admin_is_not (role ∙ is_owner))
        by_user (inr differs) =
            by_promotion (λ h. ground (arith, eq_iff u w.owner_user_id)) (Bool-cases (user == u))

    pub own : IsOwned at st3 workspace w2
    unfolding new_owner
    own = record {
      scope_is = was_owned.scope_is;
      id_is = was_owned.id_is;
      owner = promoted;
      has_row = unmoved at workspace user (not_demoted user other) ∙ promoted_row;
      is_owner = refl;
      is_active = refl;
      alone = alone;
    }

    is_w2 : String → String → Bool
    is_w2 sk id = scope w2.project_id w2.tenant_id == sk && w2.id == id

    beside : (sk id u : String) → is_w2 sk id ≡ false → member_of sk id u st3 ≡ member_of sk id u st
    unfolding is_w2 new_owner
    beside sk id u apart =
        unmoved sk id u (λ h. apart_at owner_place.scope_is owner_place.workspace_is h.0 h.1)
        ∙ elsewhere sk id u (λ h. apart_at refl refl h.0 h.1)
      where
        apart_at :
            {s' id' : String}
            → s' ≡ scope p.project_id p.tenant_id
            → id' ≡ workspace
            → s' ≡ sk
            → id' ≡ id
            → ⊥
        apart_at {s'} {id'} a b h k = ground (
          arith,
          was_owned.scope_is,
          was_owned.id_is,
          apart,
          eq_iff (scope w.project_id w.tenant_id) sk,
          eq_iff w.id id,
        )

    owned : (sk id : String) → Owned sk st3 id (workspace_of sk id st3)
    unfolding is_w2 st3 st2 with_row st1 promote_as put_membership_and_tuples put_membership_locked
        write_tuples_locked advance
    owned sk id =
        subst (Owned sk st3 id) (sym (workspace-with_row w2 st1 sk id))
          (by_place (is_w2 sk id) refl)
      where
        by_place :
            (b : Bool)
            → is_w2 sk id ≡ b
            → Owned sk st3 id (if b then some w2 else workspace_of sk id st)
        by_place true e =
            subst (λ s. IsOwned s st3 id w2)
              (sym was_owned.scope_is ∙ ground (arith, eq_iff (scope w.project_id w.tenant_id) sk))
              (subst (λ x. IsOwned at st3 x w2)
                (sym was_owned.id_is ∙ ground (arith, eq_iff w.id id)) own)
        by_place false e =
            Owned-same sk st st3 id (workspace_of sk id st) (λ u. beside sk id u e)
              ((c sk).owned id)

    pub st3-AllConsistent : AllConsistent st3
    st3-AllConsistent sk = record { settled = settled sk; owned = owned sk }
