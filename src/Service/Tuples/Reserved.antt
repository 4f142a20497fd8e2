-- ===== src/Service/Tuples/Reserved.antt =====
-- The seat namespace is reserved (`validateTuple` in internal/service/authz.go).
use workspace.Base.{
  String, ◌≡◌, refl, ap, ◌∙◌, Bool, true, false, Option, none, List, [], ◌∷◌, ◌==◌, arith, eq_iff,
  if◌then◌else◌, Result, ok, err, and_then, and_then-ok, lookup, ◌⊎◌, inl, inr, Bool-cases,
}
use workspace.Base.Int.{ℤ}
use workspace.Base.Tables.{shard}
use workspace.Authz.Condition.{Library}
use workspace.Authz.Model.{Tuple}
use workspace.Store.Keys.{scope, tuple_key, Place, tuple_key-place_iff}
use workspace.Store.State.{Store}
use workspace.Store.Tuples.{sequence, write_tuples_locked}
use workspace.Store.Tuples.Writes.{last_with, is_among, after_write, write_tuples_locked-lookup}
use workspace.Service.Access.{Principal, Service, ensure_project_active}
use workspace.Service.Tuples.{
  TupleOp, seat_namespace, validate_tuple, validate_ops, inserts_of, deletes_of, admit_writes,
  check_inserts, write_relation_tuples,
}

-- a valid tuple is no seat tuple, so it has another key than each of them
valid-not_seat :
    (lib : Library) (t : Tuple)
    → validate_tuple lib t ≡ ok tt
    → (t.namespace == seat_namespace) ≡ false
unfolding validate_tuple
valid-not_seat lib t h = ground arith

key-not_seat :
    (lib : Library) (t s : Tuple)
    → validate_tuple lib t ≡ ok tt
    → s.namespace ≡ seat_namespace
    → (tuple_key t == tuple_key s) ≡ false
key-not_seat lib t s valid seat = by_key (Bool-cases (tuple_key t == tuple_key s))
  where
    by_key :
        ((tuple_key t == tuple_key s) ≡ true) ⊎ ((tuple_key t == tuple_key s) ≡ false)
        → (tuple_key t == tuple_key s) ≡ false
    by_key (inr other) = other
    by_key (inl same) =
        let places = (tuple_key-place_iff t s).0 ((eq_iff (tuple_key t) (tuple_key s)).0 same) in
        let in_seat : t.namespace ≡ seat_namespace =
          ap (λ (p : Place). p.namespace) places ∙ seat in
        let not_seat = valid-not_seat lib t valid in
        absurd (ground (arith, eq_iff t.namespace seat_namespace))

untouched :
    (lib : Library) (ops : List TupleOp) (s : Tuple)
    → validate_ops lib ops ≡ ok tt
    → s.namespace ≡ seat_namespace
    → (last_with (tuple_key s) (inserts_of ops) ≡ none)
      × (is_among (tuple_key s) (deletes_of ops) ≡ false)
unfolding validate_ops inserts_of deletes_of last_with is_among
untouched lib [] s h seat = (refl, refl)
untouched lib (op ∷ ops) s h seat =
    let (u, valid, later) =
      and_then-ok (validate_tuple lib op.tuple) (λ _. validate_ops lib ops) h in
    let apart = key-not_seat lib op.tuple s valid seat in
    let (no_insert, no_delete) = untouched lib ops s later seat in
    by_kind op.is_delete apart no_insert no_delete
  where
    by_kind :
        (b : Bool)
        → (tuple_key op.tuple == tuple_key s) ≡ false
        → last_with (tuple_key s) (inserts_of ops) ≡ none
        → is_among (tuple_key s) (deletes_of ops) ≡ false
        → (last_with (tuple_key s) (if b then inserts_of ops else op.tuple ∷ inserts_of ops) ≡ none)
          × (is_among (tuple_key s) (if b then op.tuple ∷ deletes_of ops else deletes_of ops)
              ≡ false)
    by_kind true apart no_insert no_delete = (no_insert, ground (arith, apart, no_delete))
    by_kind false apart no_insert no_delete = (ground (arith, no_insert, apart), no_delete)

-- No write through the service inserts, replaces or removes a tuple of the seat namespace, in any
-- scope, whatever it answers.
pub write_relation_tuples-seats :
    (sv : Service) (p : Principal) (ops : List TupleOp) (st : Store) (sk : String) (s : Tuple)
    → s.namespace ≡ seat_namespace
    → lookup (tuple_key s) (shard sk (write_relation_tuples sv p ops st).1.tuples)
      ≡ lookup (tuple_key s) (shard sk st.tuples)
unfolding write_relation_tuples admit_writes after_write
write_relation_tuples-seats sv p ops st sk s seat = by_admission (admit_writes sv p ops) refl
  where
    before : Option Tuple
    before = lookup (tuple_key s) (shard sk st.tuples)

    by_admission :
        (res : Result (Unit {0}))
        → admit_writes sv p ops ≡ res
        → lookup (tuple_key s) (
            shard sk
              (elim res as (λ _. Result ℤ × Store) [
                | err x ↦ (err x, st)
                | ok _ ↦ (
                  ok (
                      sequence (scope p.project_id p.tenant_id) (
                        write_tuples_locked p.project_id p.tenant_id
                          (inserts_of ops)
                          (deletes_of ops)
                          st)),
                  write_tuples_locked p.project_id p.tenant_id (inserts_of ops) (deletes_of ops) st,
                )
              ]).1.tuples)
          ≡ before
    by_admission (err x) e = refl
    by_admission (ok _) e =
        let (u, valid, _) =
          and_then-ok (validate_ops sv.library ops)
            (λ _. and_then (ensure_project_active sv p) λ _. check_inserts sv p (inserts_of ops))
            e in
        let (no_insert, no_delete) = untouched sv.library ops s valid seat in
        (write_tuples_locked-lookup p.project_id p.tenant_id sk (tuple_key s) (inserts_of ops)
          (deletes_of ops) st).0
        ∙ by_scope (scope p.project_id p.tenant_id == sk) no_insert no_delete
      where
        by_scope :
            (b : Bool)
            → last_with (tuple_key s) (inserts_of ops) ≡ none
            → is_among (tuple_key s) (deletes_of ops) ≡ false
            → (if b
                then after_write (tuple_key s) (inserts_of ops) (deletes_of ops) before
                else before)
              ≡ before
        by_scope false no_insert no_delete = refl
        by_scope true no_insert no_delete = ground (arith, after_write, no_insert, no_delete)
