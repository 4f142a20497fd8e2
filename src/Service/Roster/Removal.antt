-- ===== src/Service/Roster/Removal.antt =====
-- The removal of a member's row with the role tuple (`RemoveMember` in internal/service/members.go).
use workspace.Base.{
  String, ◌≡◌, refl, sym, ap, ◌∙◌, subst, Bool, true, false, not, ◌&&◌, none, some, [], ◌∷◌, ◌==◌,
  arith, eq_iff, if◌then◌else◌, ◌⊎◌, inl, inr, Bool-cases, contains, lookup,
}
use workspace.Base.Tables.{remove, has, shard, change_in}
use workspace.Base.Tables.Lookup.{lookup-remove, shard-change_in_twice}
use workspace.Service.Types.{Membership}
use workspace.Service.Roster.{member_of, role_key, holds}
use workspace.Service.Roster.Put.{grants, is_among-grants}
use workspace.Store.Keys.{scope}
use workspace.Store.State.{Store}
use workspace.Store.Tuples.{write_tuples_locked, advance}
use workspace.Store.Tuples.Writes.{is_among, has-written}

module _ (project tenant workspace user : String) (m : Membership) (st : Store) where
  unfoldable pub without_row : Store
  without_row = record st {
    memberships =
        change_in (scope project tenant) (change_in workspace (remove user)) st.memberships;
  }

  unfoldable pub after_drop : Store
  unfolding without_row write_tuples_locked
  after_drop =
      write_tuples_locked project tenant [] (grants workspace user (m.role ∷ [])) without_row

  module _ (sk workspace' user' : String) where
    abbrev pub is_dropped : Bool
    is_dropped = (scope project tenant == sk && workspace == workspace') && user == user'

    pub member-after_drop :
        member_of sk workspace' user' after_drop
        ≡ (if is_dropped then none else member_of sk workspace' user' st)
    unfolding after_drop without_row write_tuples_locked advance remove
    member-after_drop =
        ap (lookup user') (
          shard-change_in_twice (scope project tenant) workspace st.memberships (remove user) sk
            workspace' refl)
        ∙ at (scope project tenant == sk && workspace == workspace')
      where
        at :
            (b : Bool)
            → lookup user' (
                if b
                then remove user (shard workspace' (shard sk st.memberships))
                else shard workspace' (shard sk st.memberships))
              ≡ (if b && user == user' then none else member_of sk workspace' user' st)
        at true = lookup-remove user user' (shard workspace' (shard sk st.memberships))
        at false = refl

    -- a row that is left was there before, elsewhere
    pub row-after_drop :
        (n : Membership)
        → member_of sk workspace' user' after_drop ≡ some n
        → member_of sk workspace' user' st ≡ some n
    row-after_drop n e = at is_dropped (sym member-after_drop ∙ e)
      where
        at :
            (b : Bool)
            → (if b then none else member_of sk workspace' user' st) ≡ some n
            → member_of sk workspace' user' st ≡ some n
        at true f = absurd (cc)
        at false f = f

    has-after_drop :
        (role : String)
        → has (role_key workspace' role user') (shard sk after_drop.tuples) ≡ (
            if scope project tenant == sk
            then not ((workspace == workspace' && user == user') && contains role (m.role ∷ []))
              && has (role_key workspace' role user') (shard sk st.tuples)
            else has (role_key workspace' role user') (shard sk st.tuples))
    unfolding after_drop without_row is_among
    has-after_drop role =
        has-written project tenant sk (role_key workspace' role user') []
          (grants workspace user (m.role ∷ [])) without_row
        ∙ ap
            (λ b.
              if scope project tenant == sk
              then not b && has (role_key workspace' role user') (shard sk st.tuples)
              else has (role_key workspace' role user') (shard sk st.tuples))
            (is_among-grants workspace user workspace' role user' (m.role ∷ []))

    pub backed-after_drop :
        (role : String)
        → member_of (scope project tenant) workspace user st ≡ some m
        → has (role_key workspace' role user') (shard sk st.tuples)
          ≡ holds role (member_of sk workspace' user' st)
        → has (role_key workspace' role user') (shard sk after_drop.tuples)
          ≡ holds role (member_of sk workspace' user' after_drop)
    unfolding contains
    backed-after_drop role old before =
        has-after_drop role
        ∙ by_place (Bool-cases (scope project tenant == sk)) (Bool-cases (workspace == workspace'))
            (Bool-cases (user == user'))
        ∙ sym (ap (holds role) member-after_drop)
      where
        was : Bool
        was = has (role_key workspace' role user') (shard sk st.tuples)

        by_place :
            ((scope project tenant == sk) ≡ true) ⊎ ((scope project tenant == sk) ≡ false)
            → ((workspace == workspace') ≡ true) ⊎ ((workspace == workspace') ≡ false)
            → ((user == user') ≡ true) ⊎ ((user == user') ≡ false)
            → (if scope project tenant == sk
                then not ((workspace == workspace' && user == user') && contains role (m.role ∷ []))
                  && was
                else was)
              ≡ holds role (if is_dropped then none else member_of sk workspace' user' st)
        by_place (inr s) _ _ = rw s before
        by_place (inl s) (inr w) _ = rw (s, w) before
        by_place (inl s) (inl w) (inr u) = rw (s, w, u) before
        by_place (inl s) (inl w) (inl u) =
            let row : member_of sk workspace' user' st ≡ some m =
              subst (λ x. member_of x workspace' user' st ≡ some m)
                ((eq_iff (scope project tenant) sk).0 s)
                (subst (λ x. member_of (scope project tenant) x user' st ≡ some m)
                  ((eq_iff workspace workspace').0 w)
                  (subst (λ x. member_of (scope project tenant) workspace x st ≡ some m)
                    ((eq_iff user user').0 u) old)) in
            rw (s, w, u) (freed (before ∙ ap (holds role) row))
          where
            freed : was ≡ holds role (some m) → not (contains role (m.role ∷ [])) && was ≡ false
            freed e = ground (arith, e, eq_iff m.role role)
