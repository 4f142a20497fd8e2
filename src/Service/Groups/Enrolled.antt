-- ===== src/Service/Groups/Enrolled.antt =====
-- What a change of an enrollment leaves in the store (`SetEnrollmentState` in
-- internal/service/groups.go).
use workspace.Base.{
  ℕ, String, ◌≡◌, refl, sym, ap, ap₂, ◌∙◌, subst, Bool, true, false, not, ◌&&◌, ◌||◌, Option, none,
  some, [], ◌∷◌, ◌==◌, arith, eq_self, if◌then◌else◌, ok, Error, lookup, Dict,
}
use workspace.Base.Tables.{has, shard, put, put_in}
use workspace.Base.Tables.Lookup.{lookup-put_in, shard-put}
use workspace.Authz.Model.{Tuple}
use workspace.Authz.State.{pure, raise, lift, ◌>>=◌, ◌>>◌}
use workspace.Service.Types.{
  Group, GroupMember, Enrollment, grants_access, valid_enrollment, role_admin,
}
use workspace.Service.Access.{Principal, Service, ensure_project_active, allowed}
use workspace.Service.Rules.{
  Answers, if-Answers, lift-Answers, bind-Answers, answered, find_row-found,
}
use workspace.Service.Groups.{
  require_group_manager, managed_group, group_member_tuple, new_enrollment, enroll,
  set_enrollment_state,
}
use workspace.Store.Keys.{scope, tuple_key}
use workspace.Store.State.{Store, Op}
use workspace.Store.Tuples.{write_tuples_locked, advance}
use workspace.Store.Tuples.Writes.{is_among, has-written}
use workspace.Store.Workspaces.{found}
use workspace.Store.Groups.{enrollment_key, get_group, get_enrollment, set_enrollment_and_tuples}

-- the enrollment of a member of a group, in a scope
abbrev pub enrollment_of : String → String → GroupMember → Store → Option Enrollment
unfolding enrollment_key
enrollment_of sk group m st = lookup (enrollment_key m) (shard group (shard sk st.enrollments))

-- An enrollment stands with its state, and the member's tuple is there iff that state grants access.
pub record Tracked (p : Principal) (group : String) (m : GroupMember) (state : String)
    (e : Enrollment) (st : Store) : Type 0 where
  pub has_state : e.state ≡ state
  pub stored : enrollment_of (scope p.project_id p.tenant_id) group m st ≡ some e
  pub tuple : Tuple
  pub is_tuple : group_member_tuple group m ≡ ok tuple
  pub backed :
      has (tuple_key tuple) (shard (scope p.project_id p.tenant_id) st.tuples) ≡ grants_access state

-- a test of the caller leaves the store
managed_group-Answers :
    (sv : Service) (now : ℕ) (p : Principal) (id : String) (st : Store)
    → Answers (λ _ st'. st' ≡ st) (managed_group sv now p id st)
unfolding managed_group get_group require_group_manager allowed
managed_group-Answers sv now p id st =
    by_row (lookup id (shard (scope p.project_id p.tenant_id) st.groups))
  where
    gate : (g : Group) → Answers (λ _ st'. st' ≡ st) (require_group_manager sv now p g st)
    gate g =
        if-Answers (λ _ st'. st' ≡ st) (g.created_by == p.user_id) (pure tt)
          (if g.workspace_id == ""
            then raise Error.permission_denied
            else allowed sv now p g.workspace_id role_admin >>= λ granted.
                if granted then pure tt else raise Error.permission_denied)
          st (λ _. refl)
          λ _.
            if-Answers (λ _ st'. st' ≡ st) (g.workspace_id == "") (raise Error.permission_denied)
              (allowed sv now p g.workspace_id role_admin >>= λ granted.
                if granted then pure tt else raise Error.permission_denied)
              st (λ _. tt)
              λ _.
                lift-Answers (λ _ st'. st' ≡ st) _
                  (λ granted. if granted then pure tt else raise Error.permission_denied) st
                  λ granted _.
                    if-Answers (λ _ st'. st' ≡ st) granted (pure tt) (raise Error.permission_denied)
                      st (λ _. refl) (λ _. tt)

    by_row :
        (o : Option Group)
        → Answers
            (λ _ st'. st' ≡ st)
            ((found o >>= λ g. (require_group_manager sv now p g >> pure g)) st)
    by_row none = tt
    by_row (some g) =
        bind-Answers (λ _ st'. st' ≡ st) (λ _ st'. st' ≡ st) (require_group_manager sv now p g)
          (λ _. pure g) st (gate g) (λ _ _ h. h)

-- the tuple that goes in, or out, with a state
moved_tuple :
    (granted : Bool) (t : Tuple) (held : Bool)
    → (is_among (tuple_key t) (if granted then t ∷ [] else [])
        || (not (is_among (tuple_key t) (if granted then [] else t ∷ [])) && held))
      ≡ granted
unfolding is_among
moved_tuple true t held = ground (arith, eq_self (tuple_key t))
moved_tuple false t held = ground (arith, eq_self (tuple_key t))

module _ (now : ℕ) (p : Principal) (group : String) (m : GroupMember) (state : String) (t : Tuple)
    (is_tuple : group_member_tuple group m ≡ ok t) (st : Store) (o : Option Enrollment) where
  abbrev sk : String
  sk = scope p.project_id p.tenant_id

  abbrev enrollment : Enrollment
  enrollment = new_enrollment now p group m state o

  -- the members of the group, and those of the scope, with the enrollment
  abbrev by_group : Dict (Dict Enrollment)
  by_group = put_in group (enrollment_key m) enrollment (shard sk st.enrollments)

  by_itself : (s : String) (a b : Bool) → (if s == s then a else b) ≡ a
  by_itself s a b = ap (λ (c : Bool). if c then a else b) (eq_self s)

  put-Tracked :
      Tracked p group m state enrollment
        (set_enrollment_and_tuples enrollment
          (if grants_access state then t ∷ [] else [])
          (if grants_access state then [] else t ∷ [])
          st).1
  unfolding set_enrollment_and_tuples new_enrollment write_tuples_locked advance
  put-Tracked = record {
    has_state = refl;
    stored =
        ap (λ d. lookup (enrollment_key m) (shard group d))
          (shard-put sk sk by_group st.enrollments
            ∙ ap (λ (b : Bool). if b then by_group else shard sk st.enrollments) (eq_self sk))
        ∙ lookup-put_in group (enrollment_key m) enrollment (shard sk st.enrollments) group
            (enrollment_key m)
        ∙ ap₂
            (λ (a b : Bool).
              if a && b
              then some enrollment
              else lookup (enrollment_key m) (shard group (shard sk st.enrollments)))
            (eq_self group) (eq_self (enrollment_key m));
    tuple = t;
    is_tuple = is_tuple;
    backed =
        has-written p.project_id p.tenant_id sk (tuple_key t)
          (if grants_access state then t ∷ [] else []) (if grants_access state then [] else t ∷ [])
          (record st { enrollments = put sk by_group st.enrollments })
        ∙ by_itself sk
            (is_among (tuple_key t) (if grants_access state then t ∷ [] else [])
              || (not (is_among (tuple_key t) (if grants_access state then [] else t ∷ []))
                  && has (tuple_key t) (shard sk st.tuples)))
            (has (tuple_key t) (shard sk st.tuples))
        ∙ moved_tuple (grants_access state) t (has (tuple_key t) (shard sk st.tuples));
  }

enroll-Tracked :
    (now : ℕ) (p : Principal) (group : String) (m : GroupMember) (state : String) (t : Tuple)
    (st : Store)
    → group_member_tuple group m ≡ ok t
    → Answers (Tracked p group m state) (enroll now p group m state t st)
unfolding enroll get_enrollment set_enrollment_and_tuples
enroll-Tracked now p group m state t st is_tuple =
    subst
      (λ o. Answers (Tracked p group m state) (
        ((λ _. o) >>= λ o.
        set_enrollment_and_tuples (new_enrollment now p group m state o)
          (if grants_access state then t ∷ [] else []) (if grants_access state then [] else t ∷ [])
        >> pure (new_enrollment now p group m state o))
          st))
      (sym (find_row-found (enrollment_of (scope p.project_id p.tenant_id) group m st) st))
      (put-Tracked now p group m state t is_tuple st
        (enrollment_of (scope p.project_id p.tenant_id) group m st))

-- A change of an enrollment leaves the row and the grant in agreement: if SetEnrollmentState answers,
-- then the enrollment that it answers has the state that was asked for and stands in the store, and
-- the tuple that makes its member a member of the group is in the store exactly if that state grants
-- access, whatever was there before.
pub set_enrollment_state-Tracked :
    (sv : Service) (now : ℕ) (p : Principal) (group : String) (m : GroupMember) (state : String)
    (st : Store) (e : Enrollment)
    → (set_enrollment_state sv now p group m state st).0 ≡ ok e
    → Tracked p group m state e (set_enrollment_state sv now p group m state st).1
unfolding set_enrollment_state
set_enrollment_state-Tracked sv now p group m state st e h =
    answered (Tracked p group m state) (set_enrollment_state sv now p group m state st) e
      (lift-Answers (Tracked p group m state) (ensure_project_active sv p)
        (λ _. if not (valid_enrollment state) then raise Error.invalid_argument else with_member) st
        λ _ _.
          if-Answers (Tracked p group m state) (not (valid_enrollment state))
            (raise Error.invalid_argument) with_member st (λ _. tt)
            λ _.
              lift-Answers (Tracked p group m state) (group_member_tuple group m) managed st
                λ t is_tuple.
                  bind-Answers (Tracked p group m state) (λ _ st'. st' ≡ st)
                    (managed_group sv now p group) (λ _. enroll now p group m state t) st
                    (managed_group-Answers sv now p group st)
                    λ _ st' _. enroll-Tracked now p group m state t st' is_tuple)
      h
  where
    managed : Tuple → Op Enrollment
    managed t = managed_group sv now p group >> enroll now p group m state t

    with_member : Op Enrollment
    with_member = lift (group_member_tuple group m) >>= managed
