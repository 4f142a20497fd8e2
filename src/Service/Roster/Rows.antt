-- ===== src/Service/Roster/Rows.antt =====
-- The writes of a member's row keep rows and tuples together (`PutMembershipAndTuples` in
-- internal/repo/memory/memory.go, under internal/service/members.go).
use workspace.Base.{
  String, ◌≡◌, refl, sym, ap, ◌∙◌, subst, Bool, true, false, not, ◌&&◌, ◌||◌, Option, some, List,
  ◌==◌, arith, eq_iff, eq_self, if◌then◌else◌, ◌⊎◌, inl, inr, Bool-cases, contains,
}
use workspace.Base.Tables.{shard, values}
use workspace.Service.Types.{Membership, status_active, status_suspended}
use workspace.Service.Roster.{
  member_of, workspace_of, holds, IsAt, Owned, IsInvited, Settled, Consistent,
}
use workspace.Service.Roster.Put.{
  grants, All-map, Owned-same, after_put, Moves, in_scope, in_place, member-after_put, here,
  put-backed,
}
use workspace.Store.Keys.{scope}
use workspace.Store.State.{Store}
use workspace.Store.Tuples.{write_tuples_locked, advance}
use workspace.Store.Tuples.Writes.{write-WellKeyed}
use workspace.Store.Workspaces.{put_membership_locked, put_membership_and_tuples}

-- where a row stands
abbrev pub IsHere : (sk workspace user : String) → Membership → Type 0
IsHere sk workspace user m =
    (scope m.project_id m.tenant_id ≡ sk) × (m.workspace_id ≡ workspace) × (m.user_id ≡ user)

module _ (sk : String) (m : Membership) (ins del : List String) (st : Store) where
  -- a row after the write is the one that is written, or was there before
  pub row-after_put :
      (workspace user : String) (n : Membership)
      → member_of sk workspace user (after_put sk m ins del st) ≡ some n
      → (IsHere sk workspace user m × (m ≡ n)) ⊎ (member_of sk workspace user st ≡ some n)
  row-after_put workspace user n e =
      by_test (in_scope sk m ins del st workspace user && in_place sk m ins del st workspace user)
        (here sk m ins del st workspace user)
        (sym (member-after_put sk m ins del st workspace user) ∙ e)
    where
      by_test :
          (b : Bool)
          → (b ≡ true → IsHere sk workspace user m)
          → (if b then some m else member_of sk workspace user st) ≡ some n
          → (IsHere sk workspace user m × (m ≡ n)) ⊎ (member_of sk workspace user st ≡ some n)
      by_test true at f = inl (at refl, cc)
      by_test false at f = inr f

  -- and elsewhere the rows are the ones before
  pub member-elsewhere :
      (workspace user : String)
      → ¬ IsHere sk workspace user m
      → member_of sk workspace user (after_put sk m ins del st) ≡ member_of sk workspace user st
  member-elsewhere workspace user apart =
      member-after_put sk m ins del st workspace user
      ∙ by_test (in_scope sk m ins del st workspace user && in_place sk m ins del st workspace user)
          (here sk m ins del st workspace user)
    where
      by_test :
          (b : Bool)
          → (b ≡ true → IsHere sk workspace user m)
          → (if b then some m else member_of sk workspace user st) ≡ member_of sk workspace user st
      by_test true at = absurd (apart (at refl))
      by_test false at = refl

  -- the row that is written stands
  pub member-written :
      scope m.project_id m.tenant_id ≡ sk
      → member_of sk m.workspace_id m.user_id (after_put sk m ins del st) ≡ some m
  member-written at =
      member-after_put sk m ins del st m.workspace_id m.user_id
      ∙ ap (λ (b : Bool). if b then some m else member_of sk m.workspace_id m.user_id st) (same at)
    where
      same :
          scope m.project_id m.tenant_id ≡ sk
          → (in_scope sk m ins del st m.workspace_id m.user_id
              && in_place sk m ins del st m.workspace_id m.user_id)
            ≡ true
      same h = ground (
        arith,
        eq_iff (scope m.project_id m.tenant_id) sk,
        eq_self m.workspace_id,
        eq_self m.user_id,
      )

  pub put-Settled :
      Settled sk st
      → (m.status ≡ status_active) ⊎ (m.status ≡ status_suspended)
      → (scope m.project_id m.tenant_id ≡ sk → Moves sk m ins del st)
      → Settled sk (after_put sk m ins del st)
  unfolding put_membership_and_tuples put_membership_locked write_tuples_locked advance
  put-Settled c known moves = record {
    keyed =
        write-WellKeyed m.project_id m.tenant_id sk (grants m.workspace_id m.user_id ins)
          (grants m.workspace_id m.user_id del) (put_membership_locked m st) c.keyed;
    placed = λ workspace user n e. is_at workspace user n (row-after_put workspace user n e);
    backed = λ workspace role user.
        put-backed sk m ins del st workspace user moves role (c.backed workspace role user);
    invited =
        All-map (IsInvited sk st) (IsInvited sk (after_put sk m ins del st))
          (λ inv i. record {
            scope_is = i.scope_is;
            role_is = i.role_is;
            workspace = i.workspace;
            has_workspace = i.has_workspace;
          })
          (values (shard sk st.invitations)) c.invited;
  }
    where
      is_at :
          (workspace user : String) (n : Membership)
          → (IsHere sk workspace user m × (m ≡ n)) ⊎ (member_of sk workspace user st ≡ some n)
          → IsAt sk workspace user n
      is_at workspace user n (inr old) = c.placed workspace user n old
      is_at workspace user n (inl ((s, w, u), same)) =
          subst (IsAt sk workspace user) same
            (record { scope_is = s; workspace_is = w; user_is = u; status_known = known })

  unfoldable pub is_own : String → Bool
  is_own workspace = scope m.project_id m.tenant_id == sk && m.workspace_id == workspace

  -- the owners after the write, given those of the member's workspace
  pub put-Owned :
      (scope m.project_id m.tenant_id ≡ sk
        → Owned sk (after_put sk m ins del st) m.workspace_id (workspace_of sk m.workspace_id st))
      → (workspace : String)
      → (is_own workspace ≡ false → Owned sk st workspace (workspace_of sk workspace st))
      → Owned sk (after_put sk m ins del st) workspace (workspace_of sk workspace st)
  unfolding is_own
  put-Owned owned workspace others = by_place (Bool-cases (is_own workspace))
    where
      by_place :
          (is_own workspace ≡ true) ⊎ (is_own workspace ≡ false)
          → Owned sk (after_put sk m ins del st) workspace (workspace_of sk workspace st)
      by_place (inl same) =
          let at : scope m.project_id m.tenant_id ≡ sk =
            ground (arith, eq_iff (scope m.project_id m.tenant_id) sk) in
          let w : m.workspace_id ≡ workspace = ground (arith, eq_iff m.workspace_id workspace) in
          subst (λ x. Owned sk (after_put sk m ins del st) x (workspace_of sk x st)) w (owned at)
      by_place (inr other) =
          Owned-same sk st (after_put sk m ins del st) workspace (workspace_of sk workspace st)
            (λ user. member-elsewhere workspace user λ h. ground (
              arith,
              other,
              h.0,
              h.1,
              eq_iff (scope m.project_id m.tenant_id) sk,
              eq_iff m.workspace_id workspace,
            ))
            (others other)

  pub put-Consistent :
      Consistent sk st
      → (m.status ≡ status_active) ⊎ (m.status ≡ status_suspended)
      → (scope m.project_id m.tenant_id ≡ sk → Moves sk m ins del st)
      → (scope m.project_id m.tenant_id ≡ sk
          → Owned sk (after_put sk m ins del st) m.workspace_id (workspace_of sk m.workspace_id st))
      → Consistent sk (after_put sk m ins del st)
  unfolding put_membership_and_tuples put_membership_locked write_tuples_locked advance
  put-Consistent c known moves owned = record {
    settled = put-Settled c.settled known moves;
    owned = λ workspace. put-Owned owned workspace (λ _. c.owned workspace);
  }

-- every scope is consistent
abbrev pub AllConsistent : Store → Type 0
AllConsistent st = (sk : String) → Consistent sk st

abbrev pub AllSettled : Store → Type 0
AllSettled st = (sk : String) → Settled sk st

-- The write of the row of a member of a workspace, with role tuples of that member.
module _ (at workspace user : String) (m : Membership) (ins del : List String) (st : Store)
    (o : Option Membership) (known : (m.status ≡ status_active) ⊎ (m.status ≡ status_suspended))
    (moves : (role : String)
      → (contains role ins || (not (contains role del) && holds role o)) ≡ holds role (some m))
    (is_here : IsHere at workspace user m) (old : member_of at workspace user st ≡ o) where
  abbrev pub put_at : Store
  put_at =
      (put_membership_and_tuples m (grants workspace user ins) (grants workspace user del) st).1

  moves_from :
      (s : String)
      → member_of (scope m.project_id m.tenant_id) m.workspace_id m.user_id st ≡ o
      → scope m.project_id m.tenant_id ≡ s
      → Moves s m ins del st
  moves_from s before e role =
      ap (λ x. contains role ins || (not (contains role del) && holds role x))
        (subst (λ s. member_of s m.workspace_id m.user_id st ≡ o) e before)
      ∙ moves role

  pub put-AllSettled : AllSettled st → AllSettled put_at
  unfolding put_membership_and_tuples
  put-AllSettled c =
      subst (λ u. Holds at workspace u) is_here.2
        (subst (λ w. Holds at w m.user_id) is_here.1
          (subst (λ s. Holds s m.workspace_id m.user_id) is_here.0 at_home))
        old
    where
      Holds : String → String → String → Type 0
      Holds s w u =
          member_of s w u st ≡ o
          → AllSettled (put_membership_and_tuples m (grants w u ins) (grants w u del) st).1

      at_home : Holds (scope m.project_id m.tenant_id) m.workspace_id m.user_id
      at_home before sk = put-Settled sk m ins del st (c sk) known (moves_from sk before)

  pub put-AllConsistent :
      AllConsistent st
      → Owned at put_at workspace (workspace_of at workspace st)
      → AllConsistent put_at
  unfolding put_membership_and_tuples
  put-AllConsistent c owned =
      subst (λ u. Holds at workspace u) is_here.2
        (subst (λ w. Holds at w m.user_id) is_here.1
          (subst (λ s. Holds s m.workspace_id m.user_id) is_here.0 at_home))
        old owned
    where
      Holds : String → String → String → Type 0
      Holds s w u =
          member_of s w u st ≡ o
          → Owned s (put_membership_and_tuples m (grants w u ins) (grants w u del) st).1 w
              (workspace_of s w st)
          → AllConsistent (put_membership_and_tuples m (grants w u ins) (grants w u del) st).1

      at_home : Holds (scope m.project_id m.tenant_id) m.workspace_id m.user_id
      at_home before own sk =
          put-Consistent sk m ins del st (c sk) known (moves_from sk before) (λ e.
            subst
              (λ s.
                Owned s (after_put sk m ins del st) m.workspace_id
                  (workspace_of s m.workspace_id st))
              e own)
