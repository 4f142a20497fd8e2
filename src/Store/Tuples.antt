-- ===== src/Store/Tuples.antt =====
-- internal/repo/memory/memory.go: relation tuples.
use workspace.Base.{
  ℕ, is_equal, String, Bool, true, false, not, ◌&&◌, ◌||◌, Option, none, some, List, [], ◌∷◌, ◌==◌,
  ◌++◌, ◌+◌, length, map, contains, if◌then◌else◌, Result, ok, err, Dict, lookup,
}
use workspace.Base.Int.{ℤ, pos, increment64}
use workspace.Base.Tables.{
  put, remove, retain, values, shard, change_in, sort_by, filter, string_less,
}
pub mod Writes
pub mod Projects
use text.Mathlib.Text.{starts_with}
use Prim.Native.Char.{code}
use workspace.Authz.Model.{Subject, SubjectSet, Tuple, active_at}
use workspace.Authz.State.{pure}
use workspace.Authz.Check.{set_eq}
use workspace.Service.Types.{TupleAt, TupleFilter, SeatAssignment}
use workspace.Store.Keys.{scope, project_prefix, tuple_key}
use workspace.Store.State.{Store, Op}

abbrev pub sequence : String → Store → ℤ
sequence sk st = elim (lookup sk st.seqs) [ none ↦ pos 0 | some n ↦ n ]

-- `s.seqs[sk]++`
unfoldable pub advance : String → Store → Store
unfolding put lookup increment64
advance sk st = record st { seqs = put sk (increment64 (sequence sk st)) st.seqs }

-- the loop over the deletes
unfoldable pub delete_tuples : List Tuple → Dict Tuple → Dict Tuple
unfolding remove
delete_tuples [] m = m
delete_tuples (t ∷ ts) m = delete_tuples ts (remove (tuple_key t) m)

-- the loop over the inserts
unfoldable pub insert_tuples : List Tuple → Dict Tuple → Dict Tuple
unfolding put
insert_tuples [] m = m
insert_tuples (t ∷ ts) m = insert_tuples ts (put (tuple_key t) t m)

-- `writeTuplesLocked`
unfoldable pub write_tuples_locked :
    String → String → (inserts deletes : List Tuple) → Store → Store
unfolding advance delete_tuples insert_tuples shard put
write_tuples_locked project tenant inserts deletes st =
    let sk = scope project tenant in
    advance sk (record st {
      tuples =
          put sk (insert_tuples inserts (delete_tuples deletes (shard sk st.tuples))) st.tuples;
    })

unfoldable pub write_tuples : String → String → (inserts deletes : List Tuple) → Op (Unit {0})
unfolding write_tuples_locked
write_tuples project tenant inserts deletes st =
    (ok tt, write_tuples_locked project tenant inserts deletes st)

unfoldable pub consistency_token : String → String → Op ℤ
unfolding lookup
consistency_token project tenant st = (ok (sequence (scope project tenant) st), st)

abbrev pub stands_at : String → String → String → ℕ → Tuple → Bool
unfolding active_at
stands_at namespace object_id relation now t =
    t.namespace == namespace
    && t.object_id == object_id
    && t.relation == relation
    && active_at t now

unfoldable pub list_subjects : ℕ → String → String → String → String → String → Op (List Subject)
unfolding shard values filter active_at
list_subjects now project tenant namespace object_id relation st = (
  ok (
      map (λ (t : Tuple). t.subject)
        (filter (stands_at namespace object_id relation now)
          (values (shard (scope project tenant) st.tuples)))),
  st,
)

-- the loop of `ListObjectIDs`, where `seen` is `out`
unfoldable pub object_ids : String → ℕ → List Tuple → List String → List String
unfolding contains active_at
object_ids namespace now [] out = out
object_ids namespace now (t ∷ ts) out = object_ids namespace now ts (
    if t.namespace == namespace && active_at t now && not (contains t.object_id out)
    then out ++ t.object_id ∷ []
    else out)

unfoldable pub list_object_ids : ℕ → String → String → String → Op (List String)
unfolding object_ids shard values sort_by
list_object_ids now project tenant namespace st = (
  ok (
      sort_by string_less
        (object_ids namespace now (values (shard (scope project tenant) st.tuples)) [])),
  st,
)

-- a field of the filter that is set does not match
abbrev misses : String → String → Bool
misses field value = not (field == "") && not (value == field)

unfoldable pub passes_filter : TupleFilter → ℕ → Tuple → Bool
unfolding active_at
passes_filter f now t =
    if not (active_at t now)
    then false
    else if misses f.namespace t.namespace
    then false
    else if misses f.object_id t.object_id
    then false
    else if misses f.relation t.relation
    then false
    else if misses f.subject_user_id t.subject.user_id
    then false
    else true

abbrev by_key : Tuple → Tuple → Bool
by_key a b = string_less (tuple_key a) (tuple_key b)

unfoldable pub read_tuples : ℕ → String → String → TupleFilter → Op (List Tuple)
unfolding passes_filter shard values filter sort_by
read_tuples now project tenant f st = (
  ok (
      sort_by by_key
        (filter (passes_filter f now) (values (shard (scope project tenant) st.tuples)))),
  st,
)

-- a tuple that names the user, and not a userset or everyone
abbrev pub names_user : String → Tuple → Bool
names_user user t = elim t.subject.set [
  | some _ ↦ false
  | none ↦ not t.subject.wildcard && t.subject.user_id == user
]

-- the loop over the scopes of a project
unfoldable pub in_project : {V : Type 0} → String → (V → V) → Dict V → Dict V
in_project prefix f [] = []
in_project prefix f ((sk, m) ∷ rest) =
    let later = in_project prefix f rest in
    if starts_with sk prefix then (sk, f m) ∷ later else (sk, m) ∷ later

unfoldable pub count_in_project : String → (Tuple → Bool) → Dict (Dict Tuple) → ℕ
unfolding values filter
count_in_project prefix p [] = 0
count_in_project prefix p ((sk, m) ∷ rest) =
    let later = count_in_project prefix p rest in
    if starts_with sk prefix then length (filter p (values m)) + later else later

-- the loop over the skus of a scope
unfoldable pub without_user : String → Dict (Dict SeatAssignment) → Dict (Dict SeatAssignment)
unfolding remove
without_user user [] = []
without_user user ((sku, by_user) ∷ rest) = (sku, remove user by_user) ∷ without_user user rest

unfoldable pub delete_all_subject_tuples_in_project : String → String → Op ℕ
unfolding in_project count_in_project retain without_user
delete_all_subject_tuples_in_project project user st =
    let prefix = project_prefix project in
    (
      ok (count_in_project prefix (names_user user) st.tuples),
      record st {
        tuples = in_project prefix (retain (λ t. not (names_user user t))) st.tuples;
        seat_assigns = in_project prefix (without_user user) st.seat_assigns;
      },
    )

-- `tenantOfScope`: what is behind the first NUL
unfoldable pub tenant_of_scope : String → String
tenant_of_scope String.[] = ""
tenant_of_scope (String.◌∷◌ c s) = if is_equal (code c) 0 then s else tenant_of_scope s

-- the tuples of a project's scopes that pass a test
unfoldable pub tuples_at : String → (Tuple → Bool) → Dict (Dict Tuple) → List TupleAt
unfolding values filter tenant_of_scope
tuples_at prefix p [] = []
tuples_at prefix p ((sk, m) ∷ rest) =
    let later = tuples_at prefix p rest in
    if starts_with sk prefix
    then map (λ t. record { tenant_id = tenant_of_scope sk; tuple = t }) (filter p (values m))
      ++ later
    else later

-- `sortTupleAt`
abbrev by_tenant : TupleAt → TupleAt → Bool
by_tenant a b =
    if not (a.tenant_id == b.tenant_id)
    then string_less a.tenant_id b.tenant_id
    else by_key a.tuple b.tuple

unfoldable pub list_subject_tuples_in_project : ℕ → String → String → Op (List TupleAt)
unfolding tuples_at active_at sort_by
list_subject_tuples_in_project now project user st = (
  ok (
      sort_by by_tenant
        (tuples_at (project_prefix project) (λ t. names_user user t && active_at t now) st.tuples)),
  st,
)

-- `want[*t.Subject.Set]`
unfoldable pub is_wanted : List SubjectSet → SubjectSet → Bool
unfolding set_eq
is_wanted [] u = false
is_wanted (v ∷ vs) u = set_eq v u || is_wanted vs u

abbrev names_wanted : List SubjectSet → Tuple → Bool
unfolding is_wanted
names_wanted sets t = elim t.subject.set [ none ↦ false | some u ↦ is_wanted sets u ]

unfoldable pub list_tuples_for_subject_sets_in_project :
    ℕ → String → List SubjectSet → Op (List TupleAt)
unfolding tuples_at active_at sort_by is_wanted
list_tuples_for_subject_sets_in_project now project [] st = (ok [], st)
list_tuples_for_subject_sets_in_project now project (u ∷ us) st = (
  ok (
      sort_by by_tenant (
        tuples_at (project_prefix project) (λ t. names_wanted (u ∷ us) t && active_at t now)
          st.tuples)),
  st,
)
