-- ===== src/Store/Workspaces/Personal.antt =====
-- One personal workspace for each user (`CreateWorkspace` in internal/repo/memory/memory.go).
use workspace.Base.{
  ℕ, ◌+◌, ◌≤◌, String, ◌≡◌, refl, sym, subst, Bool, true, false, ◌&&◌, [], ◌∷◌, ◌==◌, arith, eq_iff,
  length, if◌then◌else◌, Result, ok, err, Error, Dict, lookup, ◌⊎◌, inl, inr, Bool-cases,
}
use workspace.Base.Tables.{put, put_in, values, filter, find_value, has, shard}
use workspace.Base.Tables.Lookup.{shard-put}
use workspace.Service.Types.{Workspace, type_personal}
use workspace.Store.Keys.{scope}
use workspace.Store.State.{Store}
use workspace.Store.Workspaces.{is_personal_of, is_some, create_workspace}

-- how many personal workspaces of the user the scope holds
unfoldable pub personal_workspaces : String → String → Store → ℕ
unfolding shard values filter
personal_workspaces sk user st =
    length (filter (is_personal_of user) (values (shard sk st.workspaces)))

count-put :
    {V : Type 0} (p : V → Bool) (k : String) (v : V) (m : Dict V)
    → has k m ≡ false
    → length (filter p (values (put k v m))) ≡ length (filter p (values m)) + (if p v then 1 else 0)
unfolding filter values put lookup
count-put p k v [] h = ground arith
count-put p k v ((j, w) ∷ m) h = ground (arith, count-put p k v m)

-- nothing is found where nothing is counted
count-find_value :
    {V : Type 0} (p : V → Bool) (m : Dict V)
    → is_some (find_value p m) ≡ false
    → length (filter p (values m)) ≡ 0
unfolding filter values find_value
count-find_value p [] h = refl
count-find_value p ((j, w) ∷ m) h = ground (arith, count-find_value p m)

-- where no other is found, a personal workspace is the first
put-personal :
    (user id : String) (w : Workspace) (m : Dict Workspace)
    → has id m ≡ false
    → (w.kind == type_personal && is_some (find_value (is_personal_of w.owner_user_id) m)) ≡ false
    → length (filter (is_personal_of user) (values m)) ≤ 1
    → length (filter (is_personal_of user) (values (put id w m))) ≤ 1
put-personal user id w m new alone before = by_owner (Bool-cases (is_personal_of user w))
  where
    unmatched :
        (w.kind == type_personal) ≡ true
        → is_some (find_value (is_personal_of w.owner_user_id) m) ≡ false
    unmatched personal = rw personal at alone

    by_owner :
        (is_personal_of user w ≡ true) ⊎ (is_personal_of user w ≡ false)
        → length (filter (is_personal_of user) (values (put id w m))) ≤ 1
    by_owner (inr other) = let same = count-put (is_personal_of user) id w m new in ground arith
    by_owner (inl owned) =
        let owner : w.owner_user_id ≡ user = (eq_iff w.owner_user_id user).0 (ground arith) in
        let none_yet : is_some (find_value (is_personal_of user) m) ≡ false =
          subst (λ u. is_some (find_value (is_personal_of u) m) ≡ false) owner
            (unmatched (ground arith)) in
        let none_counted = count-find_value (is_personal_of user) m none_yet in
        let one_more = count-put (is_personal_of user) id w m new in ground arith

-- If a user has at most one personal workspace in a scope, then so it is after the creation of any
-- workspace, whatever the creation answers.
pub create_workspace-personal :
    (sk user : String) (w : Workspace) (st : Store)
    → personal_workspaces sk user st ≤ 1
    → personal_workspaces sk user (create_workspace w st).1 ≤ 1
unfolding create_workspace personal_workspaces put_in
create_workspace-personal sk user w st before =
    by_test (has w.id (shard at st.workspaces))
      (w.kind == type_personal
        && is_some (find_value (is_personal_of w.owner_user_id) (shard at st.workspaces)))
      refl refl
  where
    at : String
    at = scope w.project_id w.tenant_id

    by_test :
        (known second : Bool)
        → has w.id (shard at st.workspaces) ≡ known
        → (w.kind == type_personal
            && is_some (find_value (is_personal_of w.owner_user_id) (shard at st.workspaces)))
          ≡ second
        → personal_workspaces sk user
            (if◌then◌else◌ {A = Result (Unit {0}) × Store} known
              (err Error.already_exists, st)
              (if second
                then (err Error.already_exists, st)
                else (ok tt, record st { workspaces = put_in at w.id w st.workspaces }))).1
          ≤ 1
    by_test true _ _ _ = before
    by_test false true _ _ = before
    by_test false false new alone = by_scope (Bool-cases (at == sk))
      where
        by_scope :
            ((at == sk) ≡ true) ⊎ ((at == sk) ≡ false)
            → length
                (filter (is_personal_of user) (values (shard sk (put_in at w.id w st.workspaces))))
              ≤ 1
        by_scope (inr other) =
            rw (shard-put at sk (put w.id w (shard at st.workspaces)) st.workspaces, other) before
        by_scope (inl same) =
            let at_is : at ≡ sk = (eq_iff at sk).0 same in
            rw (shard-put at sk (put w.id w (shard at st.workspaces)) st.workspaces, same)
              (put-personal user w.id w (shard at st.workspaces) new alone (
                subst
                  (λ s. length (filter (is_personal_of user) (values (shard s st.workspaces))) ≤ 1)
                  (sym at_is) before))
