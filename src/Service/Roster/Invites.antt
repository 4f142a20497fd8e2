-- ===== src/Service/Roster/Invites.antt =====
-- The requests on invitations keep rows and tuples together (internal/service/invitations.go).
use workspace.Base.{
  String, ◌≡◌, refl, sym, subst, Bool, true, false, not, Option, none, some, [], ◌∷◌, ◌==◌, eq_iff,
  if◌then◌else◌, Dict, lookup, Result, ok, err, Error,
}
use workspace.Base.Tables.{put, shard, values, find_value, put_in}
use workspace.Base.Tables.Lookup.{shard-put}
use workspace.Service.Types.{Invitation}
use workspace.Service.Rules.{Keeps}
use workspace.Service.Roster.{All, workspace_of, IsInvited}
use workspace.Service.Roster.Put.{All-map, Owned-same}
use workspace.Service.Roster.Rows.{AllConsistent}
use workspace.Store.Keys.{scope}
use workspace.Store.State.{Store}
use workspace.Store.Workspaces.{create_invitation, update_invitation}

module _ {V : Type 0} (P : V → Type 0) where
  All-put : (k : String) (v : V) (m : Dict V) → P v → All P (values m) → All P (values (put k v m))
  unfolding put values
  All-put k v [] hv h = (hv, tt)
  All-put k v ((j, w) ∷ m) hv (hw, h) = by_test (j == k) (All-put k v m hv h)
    where
      by_test :
          (b : Bool)
          → All P (values (put k v m))
          → All P (values (if b then (j, v) ∷ m else (j, w) ∷ put k v m))
      by_test true later = (hv, h)
      by_test false later = (hw, later)

  pub All-lookup : (k : String) (v : V) (m : Dict V) → lookup k m ≡ some v → All P (values m) → P v
  unfolding lookup values
  All-lookup k v [] e h = absurd (cc)
  All-lookup k v ((j, w) ∷ m) e (hw, h) = by_test (j == k) e (λ f. All-lookup k v m f h)
    where
      by_test :
          (b : Bool)
          → (if b then some w else lookup k m) ≡ some v
          → (lookup k m ≡ some v → P v)
          → P v
      by_test true f later = let same : w ≡ v = cc in subst P same hw
      by_test false f later = later f

  pub All-find_value :
      (p : V → Bool) (v : V) (m : Dict V) → find_value p m ≡ some v → All P (values m) → P v
  unfolding find_value values
  All-find_value p v [] e h = absurd (cc)
  All-find_value p v ((j, w) ∷ m) e (hw, h) = by_test (p w) e (λ f. All-find_value p v m f h)
    where
      by_test :
          (b : Bool)
          → (if b then some w else find_value p m) ≡ some v
          → (find_value p m ≡ some v → P v)
          → P v
      by_test true f later = let same : w ≡ v = cc in subst P same hw
      by_test false f later = later f

module _ (inv : Invitation) (st : Store) (c : AllConsistent st)
    (fit : IsInvited (scope inv.project_id inv.tenant_id) st inv) where
  unfoldable with_invite : Store
  unfolding put_in
  with_invite = record st {
    invitations = put_in (scope inv.project_id inv.tenant_id) inv.id inv st.invitations;
  }

  IsInvited-with_invite :
      (sk : String) → All (IsInvited sk with_invite) (values (shard sk with_invite.invitations))
  unfolding with_invite put_in
  IsInvited-with_invite sk =
      subst (λ m. All (IsInvited sk with_invite) (values m))
        (sym (shard-put (scope inv.project_id inv.tenant_id) sk written st.invitations))
        (by_scope (scope inv.project_id inv.tenant_id == sk) refl)
    where
      written : Dict Invitation
      written = put inv.id inv (shard (scope inv.project_id inv.tenant_id) st.invitations)

      still : (s : String) (i : Invitation) → IsInvited s st i → IsInvited s with_invite i
      still s i h = record {
        scope_is = h.scope_is;
        role_is = h.role_is;
        workspace = h.workspace;
        has_workspace = h.has_workspace;
      }

      all_still : (s : String) → All (IsInvited s with_invite) (values (shard s st.invitations))
      all_still s =
          All-map (IsInvited s st) (IsInvited s with_invite) (still s)
            (values (shard s st.invitations)) (c s).settled.invited

      by_scope :
          (b : Bool)
          → (scope inv.project_id inv.tenant_id == sk) ≡ b
          → All (IsInvited sk with_invite) (values (if b then written else shard sk st.invitations))
      by_scope true e =
          subst (λ s. All (IsInvited s with_invite) (values written))
            ((eq_iff (scope inv.project_id inv.tenant_id) sk).0 e)
            (All-put (IsInvited (scope inv.project_id inv.tenant_id) with_invite) inv.id inv
              (shard (scope inv.project_id inv.tenant_id) st.invitations)
              (still (scope inv.project_id inv.tenant_id) inv fit)
              (all_still (scope inv.project_id inv.tenant_id)))
      by_scope false e = all_still sk

  with_invite-AllConsistent : AllConsistent with_invite
  unfolding with_invite
  with_invite-AllConsistent sk = record {
    settled = record {
      keyed = (c sk).settled.keyed;
      placed = (c sk).settled.placed;
      backed = (c sk).settled.backed;
      invited = IsInvited-with_invite sk;
    };
    owned =
        λ id. Owned-same sk st with_invite id (workspace_of sk id st) (λ _. refl) ((c sk).owned id);
  }

  pub create_invitation-Keeps : Keeps AllConsistent (create_invitation inv st)
  unfolding create_invitation with_invite
  create_invitation-Keeps =
      by_row (lookup inv.id (shard (scope inv.project_id inv.tenant_id) st.invitations))
    where
      by_row :
          (o : Option Invitation)
          → Keeps AllConsistent (
              if◌then◌else◌ {A = Result (Unit {0}) × Store}
                (elim o [ none ↦ false | some _ ↦ true ])
                (err Error.already_exists, st)
                (ok tt, with_invite))
      by_row none = with_invite-AllConsistent
      by_row (some _) = c

  pub update_invitation-Keeps : Keeps AllConsistent (update_invitation inv st)
  unfolding update_invitation with_invite
  update_invitation-Keeps =
      by_row (lookup inv.id (shard (scope inv.project_id inv.tenant_id) st.invitations))
    where
      by_row :
          (o : Option Invitation)
          → Keeps AllConsistent (
              if◌then◌else◌ {A = Result (Unit {0}) × Store}
                (not (elim o [ none ↦ false | some _ ↦ true ]))
                (err Error.not_found, st)
                (ok tt, with_invite))
      by_row none = c
      by_row (some _) = with_invite-AllConsistent
