-- ===== src/Service/Roster/Put.antt =====
-- A row of a member that is written with its role tuples (`PutMembershipAndTuples` in
-- internal/repo/memory/memory.go).
use workspace.Base.{
  String, ◌≡◌, refl, sym, ap, ap₂, ◌∙◌, subst, Bool, true, false, not, ◌&&◌, ◌||◌, Option, none,
  some, List, [], ◌∷◌, ◌==◌, arith, eq_iff, eq_self, if◌then◌else◌, ◌⊎◌, inl, inr, Bool-cases,
  contains, lookup,
}
use workspace.Base.Tables.{put, has, shard}
use workspace.Base.Tables.Lookup.{lookup-put, shard-put_in}
use workspace.Authz.Model.{Tuple}
use workspace.Service.Types.{Workspace, Membership}
use workspace.Service.Access.{user_tuple}
use workspace.Service.Access.Users.{user_tuple-test}
use workspace.Service.Roster.{All, member_of, role_key, holds, Owned}
use workspace.Store.Keys.{scope}
use workspace.Store.State.{Store}
use workspace.Store.Tuples.{write_tuples_locked, advance}
use workspace.Store.Tuples.Writes.{is_among, has-written}
use workspace.Store.Workspaces.{put_membership_locked, put_membership_and_tuples}

-- the role tuples of a member
abbrev pub grants : (workspace user : String) → List String → List Tuple
grants workspace user [] = []
grants workspace user (r ∷ rs) = user_tuple "workspace" workspace r user ∷ grants workspace user rs

pub is_among-grants :
    (w u workspace role user : String) (rs : List String)
    → is_among (role_key workspace role user) (grants w u rs)
      ≡ ((w == workspace && u == user) && contains role rs)
unfolding is_among contains
is_among-grants w u workspace role user [] = at (w == workspace && u == user)
  where
    at : (b : Bool) → false ≡ (b && false)
    at true = refl
    at false = refl
is_among-grants w u workspace role user (r ∷ rs) = ground (
  arith,
  user_tuple-test "workspace" w r u "workspace" workspace role user,
  eq_self "workspace",
  is_among-grants w u workspace role user rs,
)

pub member-put :
    (sk workspace user : String) (m : Membership) (st : Store)
    → member_of sk workspace user (put_membership_locked m st) ≡ (
        if (scope m.project_id m.tenant_id == sk && m.workspace_id == workspace)
          && m.user_id == user
        then some m
        else member_of sk workspace user st)
unfolding put_membership_locked
member-put sk workspace user m st =
    ap (lookup user) (
      shard-put_in (scope m.project_id m.tenant_id) m.workspace_id st.memberships m.user_id m sk
        workspace)
    ∙ at (scope m.project_id m.tenant_id == sk && m.workspace_id == workspace)
  where
    at :
        (b : Bool)
        → lookup user (
            if b
            then put m.user_id m (shard workspace (shard sk st.memberships))
            else shard workspace (shard sk st.memberships))
          ≡ (if b && m.user_id == user then some m else member_of sk workspace user st)
    at true = lookup-put m.user_id user m (shard workspace (shard sk st.memberships))
    at false = refl

pub All-map :
    {A : Type 0} (P Q : A → Type 0) → ((a : A) → P a → Q a) → (xs : List A) → All P xs → All Q xs
All-map P Q f [] h = h
All-map P Q f (x ∷ xs) h = (f x h.0, All-map P Q f xs h.1)

-- the owners of a workspace whose members are as before
pub Owned-same :
    (sk : String) (st st' : Store) (id : String) (o : Option Workspace)
    → ((user : String) → member_of sk id user st' ≡ member_of sk id user st)
    → Owned sk st id o
    → Owned sk st' id o
Owned-same sk st st' id none same h = λ user. same user ∙ h user
Owned-same sk st st' id (some w) same h = record {
  scope_is = h.scope_is;
  id_is = h.id_is;
  owner = h.owner;
  has_row = same w.owner_user_id ∙ h.has_row;
  is_owner = h.is_owner;
  is_active = h.is_active;
  alone = λ user m e. h.alone user m (sym (same user) ∙ e);
}

-- whether a role is held after a write: `s` in its scope, `p` of its member, `i` inserted, `d` deleted
abbrev pub moved : (s p i d held : Bool) → Bool
moved s p i d held = if s then (p && i) || (not (p && d) && held) else held

and_assoc : (a b c : Bool) → ((a && b) && c) ≡ (a && (b && c))
and_assoc true b c = refl
and_assoc false b c = refl

module _ (sk : String) (m : Membership) (ins del : List String) (st : Store) where
  -- the store after the write
  abbrev pub after_put : Store
  after_put =
      (put_membership_and_tuples m (grants m.workspace_id m.user_id ins)
        (grants m.workspace_id m.user_id del) st).1

  -- the row and the tuples move together
  abbrev pub Moves : Type 0
  Moves =
      (role : String)
      → (contains role ins
          || (not (contains role del) && holds role (member_of sk m.workspace_id m.user_id st)))
        ≡ holds role (some m)

  module _ (workspace user : String) where
    abbrev pub in_scope : Bool
    in_scope = scope m.project_id m.tenant_id == sk

    abbrev pub in_place : Bool
    in_place = m.workspace_id == workspace && m.user_id == user

    pub member-after_put :
        member_of sk workspace user after_put
        ≡ (if in_scope && in_place then some m else member_of sk workspace user st)
    unfolding put_membership_and_tuples write_tuples_locked advance
    member-after_put =
        member-put sk workspace user m st
        ∙ ap (λ (b : Bool). if b then some m else member_of sk workspace user st)
            (and_assoc in_scope (m.workspace_id == workspace) (m.user_id == user))

    has-after_put :
        (role : String)
        → has (role_key workspace role user) (shard sk after_put.tuples)
          ≡ moved in_scope in_place
              (contains role ins)
              (contains role del)
              (has (role_key workspace role user) (shard sk st.tuples))
    unfolding put_membership_and_tuples put_membership_locked
    has-after_put role =
        has-written m.project_id m.tenant_id sk (role_key workspace role user)
          (grants m.workspace_id m.user_id ins) (grants m.workspace_id m.user_id del)
          (put_membership_locked m st)
        ∙ ap₂
            (λ (b c : Bool).
              if in_scope
              then b || (not c && has (role_key workspace role user) (shard sk st.tuples))
              else has (role_key workspace role user) (shard sk st.tuples))
            (is_among-grants m.workspace_id m.user_id workspace role user ins)
            (is_among-grants m.workspace_id m.user_id workspace role user del)

    pub here :
        in_scope && in_place ≡ true
        → (scope m.project_id m.tenant_id ≡ sk) × (m.workspace_id ≡ workspace) × (m.user_id ≡ user)
    here h = (
      ground (arith, eq_iff (scope m.project_id m.tenant_id) sk),
      ground (arith, eq_iff m.workspace_id workspace),
      ground (arith, eq_iff m.user_id user),
    )

    pub put-backed :
        (scope m.project_id m.tenant_id ≡ sk → Moves)
        → (role : String)
        → has (role_key workspace role user) (shard sk st.tuples)
          ≡ holds role (member_of sk workspace user st)
        → has (role_key workspace role user) (shard sk after_put.tuples)
          ≡ holds role (member_of sk workspace user after_put)
    put-backed moves role before =
        has-after_put role
        ∙ by_place (Bool-cases in_scope) (Bool-cases in_place)
        ∙ sym (ap (holds role) member-after_put)
      where
        Goal : Bool → Bool → Type 0
        Goal s p =
            moved s p (contains role ins) (contains role del)
              (has (role_key workspace role user) (shard sk st.tuples))
            ≡ holds role (if s && p then some m else member_of sk workspace user st)

        by_place :
            (in_scope ≡ true) ⊎ (in_scope ≡ false)
            → (in_place ≡ true) ⊎ (in_place ≡ false)
            → Goal in_scope in_place
        by_place (inr other) _ = subst (λ s. Goal s in_place) (sym other) before
        by_place (inl s) (inr other) =
            subst (λ b. Goal b in_place) (sym s) (subst (Goal true) (sym other) before)
        by_place (inl s) (inl p) =
            let (scope_is, workspace_is, user_is) = here (ground arith) in
            subst (λ b. Goal b in_place) (sym s)
              (subst (Goal true) (sym p) (
                ap (λ b. contains role ins || (not (contains role del) && b))
                  (before
                    ∙ ap₂ (λ w u. holds role (member_of sk w u st)) (sym workspace_is)
                        (sym user_is))
                ∙ moves scope_is role))
