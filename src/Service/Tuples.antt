-- ===== src/Service/Tuples.antt =====
-- internal/service/authz.go: the writes of relation tuples, over the store. Audit
-- records are left out.
pub mod Reserved
use Prim.Native.Char.{code}
use workspace.Base.{
  ℕ, zero, suc, ◌+◌, String, Bool, true, false, not, ◌&&◌, ◌||◌, Option, none, some, List, [], ◌∷◌,
  ◌==◌, ltb, is_equal, if◌then◌else◌, Result, ok, err, Error, and_then,
}
use workspace.Base.Int.{ℤ}
use workspace.Authz.Condition.{Condition, Library, known_condition}
use workspace.Authz.Model.{Subject, SubjectSet, Tuple, Model, writable_relation, default_model}
use workspace.Service.Access.{Principal, Service, model_or_default, ensure_project_active}
use workspace.Store.Keys.{scope}
use workspace.Store.State.{Store, Op}
use workspace.Store.Tuples.{sequence, write_tuples_locked}

pub record TupleOp : Type 0 where
  pub is_delete : Bool
  pub tuple : Tuple

abbrev pub seat_namespace : String
seat_namespace = "seat"

-- the bytes of a text below 0x20 are its control characters
unfoldable pub has_control_char : String → Bool
has_control_char String.[] = false
has_control_char (String.◌∷◌ c s) = ltb (code c) 32 || has_control_char s

abbrev set_has_control_char : Option SubjectSet → Bool
unfolding has_control_char
set_has_control_char none = false
set_has_control_char (some u) =
    has_control_char u.namespace || has_control_char u.object_id || has_control_char u.relation

abbrev one_if : Bool → ℕ
one_if true = 1
one_if false = 0

abbrev is_some : {A : Type 0} → Option A → Bool
is_some none = false
is_some (some _) = true

-- the count `set` of the kinds that a subject is
unfoldable pub subject_kinds : Subject → ℕ
subject_kinds s = one_if (not (s.user_id == "")) + one_if (is_some s.set) + one_if s.wildcard

abbrev lacks_object : Option SubjectSet → Bool
lacks_object none = false
lacks_object (some u) = u.namespace == "" || u.object_id == ""

abbrev unknown_condition : Library → Option Condition → Bool
unfolding known_condition
unknown_condition lib none = false
unknown_condition lib (some c) = not (c.name == "") && not (known_condition lib c.name)

unfoldable pub validate_tuple : Library → Tuple → Result (Unit {0})
unfolding has_control_char subject_kinds known_condition
validate_tuple lib t =
    if t.namespace == "" || t.object_id == "" || t.relation == ""
    then err Error.invalid_argument
    else if t.namespace == seat_namespace
    then err Error.invalid_argument
    else if has_control_char t.namespace
        || has_control_char t.object_id
        || has_control_char t.relation
        || has_control_char t.subject.user_id
    then err Error.invalid_argument
    else if set_has_control_char t.subject.set
    then err Error.invalid_argument
    else if not (is_equal (subject_kinds t.subject) 1)
    then err Error.invalid_argument
    else if lacks_object t.subject.set
    then err Error.invalid_argument
    else if unknown_condition lib t.subject.condition
    then err Error.invalid_argument
    else ok tt

-- the loop over the operations: the first tuple that is invalid fails the write
unfoldable pub validate_ops : Library → List TupleOp → Result (Unit {0})
unfolding validate_tuple
validate_ops lib [] = ok tt
validate_ops lib (op ∷ ops) = and_then (validate_tuple lib op.tuple) λ _. validate_ops lib ops

unfoldable pub inserts_of : List TupleOp → List Tuple
inserts_of [] = []
inserts_of (op ∷ ops) = let rest = inserts_of ops in if op.is_delete then rest else op.tuple ∷ rest

unfoldable pub deletes_of : List TupleOp → List Tuple
deletes_of [] = []
deletes_of (op ∷ ops) = let rest = deletes_of ops in if op.is_delete then op.tuple ∷ rest else rest

-- the loop over the inserts
unfoldable pub check_writable : Model → List Tuple → Result (Unit {0})
unfolding writable_relation
check_writable m [] = ok tt
check_writable m (t ∷ ts) =
    if not (writable_relation m t.namespace t.relation)
    then err Error.invalid_argument
    else check_writable m ts

-- the model is resolved only if there are inserts
unfoldable pub check_inserts : Service → Principal → List Tuple → Result (Unit {0})
unfolding check_writable model_or_default
check_inserts sv p [] = ok tt
check_inserts sv p (t ∷ ts) =
    and_then (sv.resolve p.project_id) λ res. check_writable (model_or_default res) (t ∷ ts)

-- what `WriteTuples` tests before it writes
unfoldable pub admit_writes : Service → Principal → List TupleOp → Result (Unit {0})
unfolding validate_ops ensure_project_active check_inserts inserts_of
admit_writes sv p ops =
    and_then (validate_ops sv.library ops)
      λ _. and_then (ensure_project_active sv p) λ _. check_inserts sv p (inserts_of ops)

-- `Service.WriteTuples`, with the sequence that the consistency token encodes
unfoldable pub write_relation_tuples : Service → Principal → List TupleOp → Op ℤ
unfolding admit_writes deletes_of write_tuples_locked
write_relation_tuples sv p ops st = elim (admit_writes sv p ops) [
  | err x ↦ (err x, st)
  | ok _ ↦
      let st' = write_tuples_locked p.project_id p.tenant_id (inserts_of ops) (deletes_of ops) st in
      (ok (sequence (scope p.project_id p.tenant_id) st'), st')
]
