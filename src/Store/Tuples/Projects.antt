-- ===== src/Store/Tuples/Projects.antt =====
-- What deprovisioning leaves of a user in a project (`DeleteAllSubjectTuplesInProject` in
-- internal/repo/memory/memory.go).
use text.Mathlib.Text.{starts_with}
use workspace.Base.{
  ℕ, String, ◌≡◌, refl, ap, ◌∙◌, Bool, true, false, not, ◌&&◌, [], ◌∷◌, arith, eq_iff,
  if◌then◌else◌, Dict, lookup, ok,
}
use workspace.Base.Tables.{remove, retain, has, shard, sort_by}
use workspace.Base.Tables.Lookup.{has-remove, filter-retain}
use workspace.Authz.Model.{Tuple, active_at}
use workspace.Service.Types.{SeatAssignment}
use workspace.Store.Keys.{scope, project_prefix, scope-project_prefix}
use workspace.Store.State.{Store}
use workspace.Store.Tuples.{
  in_project, without_user, names_user, tuples_at, delete_all_subject_tuples_in_project,
  list_subject_tuples_in_project,
}
use workspace.Store.Seats.{seats_of}

shard-in_project :
    {V : Type 0} (prefix sk : String) (f : Dict V → Dict V) (m : Dict (Dict V))
    → f [] ≡ []
    → shard sk (in_project prefix f m)
      ≡ (if starts_with sk prefix then f (shard sk m) else shard sk m)
unfolding in_project shard lookup
shard-in_project prefix sk f [] e = ground arith
shard-in_project prefix sk f ((j, d) ∷ m) e =
    ground (arith, eq_iff j sk, shard-in_project prefix sk f m e)

shard-without_user :
    (user sku : String) (m : Dict (Dict SeatAssignment))
    → shard sku (without_user user m) ≡ remove user (shard sku m)
unfolding without_user shard lookup remove
shard-without_user user sku [] = refl
shard-without_user user sku ((j, d) ∷ m) = ground (arith, shard-without_user user sku m)

pub seats_of-deprovision :
    (sk sku project user : String) (st : Store)
    → seats_of sk sku (delete_all_subject_tuples_in_project project user st).1 ≡ (
        if starts_with sk (project_prefix project)
        then remove user (seats_of sk sku st)
        else seats_of sk sku st)
unfolding delete_all_subject_tuples_in_project shard
seats_of-deprovision sk sku project user st =
    ap (shard sku)
      (shard-in_project (project_prefix project) sk (without_user user) st.seat_assigns refl)
    ∙ at (starts_with sk (project_prefix project))
  where
    at :
        (b : Bool)
        → shard sku
            (if b then without_user user (shard sk st.seat_assigns) else shard sk st.seat_assigns)
          ≡ (if b then remove user (seats_of sk sku st) else seats_of sk sku st)
    at true = shard-without_user user sku (shard sk st.seat_assigns)
    at false = refl

-- the tuples of the project that name the user, when none of them is left
tuples_at-in_project :
    (prefix : String) (p q : Tuple → Bool) (m : Dict (Dict Tuple))
    → ((t : Tuple) → q t ≡ true → p t ≡ false)
    → tuples_at prefix p (in_project prefix (retain q) m) ≡ []
unfolding tuples_at in_project
tuples_at-in_project prefix p q [] h = refl
tuples_at-in_project prefix p q ((sk, d) ∷ m) h =
    by_scope (starts_with sk prefix) refl (tuples_at-in_project prefix p q m h)
  where
    by_scope :
        (b : Bool)
        → starts_with sk prefix ≡ b
        → tuples_at prefix p (in_project prefix (retain q) m) ≡ []
        → tuples_at prefix p (
            if b
            then (sk, retain q d) ∷ in_project prefix (retain q) m
            else (sk, d) ∷ in_project prefix (retain q) m)
          ≡ []
    by_scope true e later = rw (e, filter-retain p q d h) later
    by_scope false e later = rw e later

-- After a user is deprovisioned in a project, no tuple of the project that names the user is found at
-- any instant, in any tenant, and in no tenant does the user hold a seat of any sku.
pub delete_all_subject_tuples_in_project-clears :
    (project tenant user sku : String) (now : ℕ) (st : Store)
    → ((list_subject_tuples_in_project now project user
          (delete_all_subject_tuples_in_project project user st).1).0
        ≡ ok [])
      × (has user (
            seats_of
              (scope project tenant)
              sku
              (delete_all_subject_tuples_in_project project user st).1)
          ≡ false)
unfolding delete_all_subject_tuples_in_project list_subject_tuples_in_project sort_by
delete_all_subject_tuples_in_project-clears project tenant user sku now st = (
  rw
      (tuples_at-in_project (project_prefix project) (λ t. names_user user t && active_at t now)
        (λ t. not (names_user user t)) st.tuples (λ t e. ground arith))
      refl,
  seatless (scope-project_prefix project tenant),
)
  where
    seatless :
        starts_with (scope project tenant) (project_prefix project) ≡ true
        → has user (
            seats_of
              (scope project tenant)
              sku
              (delete_all_subject_tuples_in_project project user st).1)
          ≡ false
    seatless within =
        rw (seats_of-deprovision (scope project tenant) sku project user st)
          (rw within (has-remove user (seats_of (scope project tenant) sku st)))
