-- ===== src/Service/Seats/Steps.antt =====
-- The seat operations and the writes of tuples in any order (internal/service/seats.go, authz.go).
use workspace.Base.{
  ℕ, String, ◌≡◌, refl, sym, ap, ◌∙◌, Bool, true, false, ◌||◌, Option, none, some, List, ◌==◌,
  if◌then◌else◌, Result, ok, err, Error,
}
use workspace.Base.Int.{ℤ, pos, ltb_ℤ}
use workspace.Base.Tables.{has, shard}
use workspace.Store.Keys.{scope, tuple_key}
use workspace.Store.State.{Store, Op}
use workspace.Store.Tuples.{sequence, write_tuples_locked, advance}
use workspace.Store.Seats.{assign_seat_and_tuple, revoke_seat_and_tuple, set_seat_limit}
use workspace.Service.Access.{Principal, Service, ensure_project_active}
use workspace.Service.Tuples.{TupleOp, inserts_of, deletes_of, admit_writes, write_relation_tuples}
use workspace.Service.Tuples.Reserved.{write_relation_tuples-seats}
use workspace.Service.Seats.{
  seat_tuple, SeatLimit, seat_limit_of, limit_seats, assign_seat, revoke_seat, seat_assignment,
  when_active,
}
use workspace.Service.Seats.Effect.{has-present, present}
use workspace.Service.Seats.Agree.{Agrees, assign-Agrees, revoke-Agrees}

-- A request to the service, of any caller: a seat operation, or a write of tuples.
pub data Step : Store → Store → Type 0 where
  assigned :
      {st : Store} (sv : Service) (now : ℕ) (p : Principal) (sku user : String)
      → Step st (assign_seat sv now p sku user st).1
  revoked :
      {st : Store} (sv : Service) (p : Principal) (sku user : String)
      → Step st (revoke_seat sv p sku user st).1
  limited :
      {st : Store} (sv : Service) (p : Principal) (sku : String) (limit : Option ℤ)
      → Step st (limit_seats sv p sku limit st).1
  written :
      {st : Store} (sv : Service) (p : Principal) (ops : List TupleOp)
      → Step st (write_relation_tuples sv p ops st).1

pub data Steps : Store → Store → Type 0 where
  done : {st : Store} → Steps st st
  also : {st st' st'' : Store} → Step st st' → Steps st' st'' → Steps st st''

module _ {A : Type 0} (P : Store → Type 0) where
  when_active-keeps :
      (sv : Service) (p : Principal) (op : Op A) (st : Store)
      → P st
      → P (op st).1
      → P (when_active sv p op st).1
  unfolding when_active
  when_active-keeps sv p op st h k = by_gate (ensure_project_active sv p)
    where
      by_gate :
          (r : Result (Unit {0}))
          → P (elim r as (λ _. Result A × Store) [ err x ↦ (err x, st) | ok _ ↦ op st ]).1
      by_gate (err x) = h
      by_gate (ok _) = k

  -- an operation whose arguments are tested first
  checked-keeps :
      (b : Bool) (sv : Service) (p : Principal) (op : Op A) (st : Store)
      → P st
      → P (op st).1
      → P
          (if◌then◌else◌ {A = Result A × Store} b
            (err Error.invalid_argument, st)
            (when_active sv p op st)).1
  checked-keeps true sv p op st h k = h
  checked-keeps false sv p op st h k = when_active-keeps sv p op st h k

limit-Agrees :
    (sk : String) (sv : Service) (p : Principal) (sku : String) (limit : Option ℤ) (st : Store)
    → Agrees sk st
    → Agrees sk (limit_seats sv p sku limit st).1
unfolding limit_seats set_seat_limit
limit-Agrees sk sv p sku none st h =
    checked-keeps (Agrees sk) (sku == "") sv p
      (λ st. (ok (seat_limit_of sku none), (set_seat_limit p.project_id p.tenant_id sku none st).1))
      st h h
limit-Agrees sk sv p sku (some l) st h = by_sku (sku == "")
  where
    set : Op SeatLimit
    set st = (
      ok (seat_limit_of sku (some l)),
      (set_seat_limit p.project_id p.tenant_id sku (some l) st).1,
    )

    by_sku :
        (b : Bool)
        → Agrees sk
            (if◌then◌else◌ {A = Result SeatLimit × Store} b
              (err Error.invalid_argument, st)
              (if ltb_ℤ l (pos 0)
                then (err Error.invalid_argument, st)
                else when_active sv p set st)).1
    by_sku true = h
    by_sku false = checked-keeps (Agrees sk) (ltb_ℤ l (pos 0)) sv p set st h h

write-seats :
    (sv : Service) (p : Principal) (ops : List TupleOp) (st : Store)
    → (write_relation_tuples sv p ops st).1.seat_assigns ≡ st.seat_assigns
unfolding write_relation_tuples write_tuples_locked advance
write-seats sv p ops st = by_admission (admit_writes sv p ops)
  where
    by_admission :
        (r : Result (Unit {0}))
        → (elim r as (λ _. Result ℤ × Store) [
          | err x ↦ (err x, st)
          | ok _ ↦ (
            ok (
                sequence (scope p.project_id p.tenant_id) (
                  write_tuples_locked p.project_id p.tenant_id
                    (inserts_of ops)
                    (deletes_of ops)
                    st)),
            write_tuples_locked p.project_id p.tenant_id (inserts_of ops) (deletes_of ops) st,
          )
        ]).1.seat_assigns
          ≡ st.seat_assigns
    by_admission (err x) = refl
    by_admission (ok _) = refl

write-Agrees :
    (sk : String) (sv : Service) (p : Principal) (ops : List TupleOp) (st : Store)
    → Agrees sk st
    → Agrees sk (write_relation_tuples sv p ops st).1
unfolding seat_tuple shard
write-Agrees sk sv p ops st h sku user =
    ap (λ m. has user (shard sku (shard sk m))) (write-seats sv p ops st)
    ∙ h sku user
    ∙ has-present (tuple_key (seat_tuple sku user)) (shard sk st.tuples)
    ∙ ap present (sym (write_relation_tuples-seats sv p ops st sk (seat_tuple sku user) refl))
    ∙ sym (
        has-present (tuple_key (seat_tuple sku user))
          (shard sk (write_relation_tuples sv p ops st).1.tuples))

Step-Agrees : (sk : String) (st st' : Store) → Step st st' → Agrees sk st → Agrees sk st'
unfolding assign_seat revoke_seat seat_assignment
Step-Agrees sk st _ (assigned sv now p sku user) h =
    checked-keeps (Agrees sk) (sku == "" || user == "") sv p
      (assign_seat_and_tuple (seat_assignment p sku user now) (seat_tuple sku user)) st h
      (assign-Agrees sk (seat_assignment p sku user now) st h)
Step-Agrees sk st _ (revoked sv p sku user) h =
    checked-keeps (Agrees sk) (sku == "" || user == "") sv p
      (revoke_seat_and_tuple p.project_id p.tenant_id sku user (seat_tuple sku user)) st h
      (revoke-Agrees sk p.project_id p.tenant_id sku user st h)
Step-Agrees sk st _ (limited sv p sku limit) h = limit-Agrees sk sv p sku limit st h
Step-Agrees sk st _ (written sv p ops) h = write-Agrees sk sv p ops st h

-- The seats that are counted and the seat tuples that grant access do not diverge: if in a scope they
-- agree, then so they do after any sequence of seat operations and writes of tuples by any callers,
-- whatever each of them answers.
pub Steps-Agrees : (sk : String) {st st' : Store} → Steps st st' → Agrees sk st → Agrees sk st'
Steps-Agrees sk done h = h
Steps-Agrees sk {st = st} (also {st' = next} step rest) h =
    Steps-Agrees sk rest (Step-Agrees sk st next step h)
