-- ===== src/Service/Seats/Agree.antt =====
-- The seats that are counted and the seat tuples that grant access (internal/service/seats.go).
use workspace.Base.{
  String, ◌≡◌, refl, sym, ap, ◌∙◌, Bool, true, false, not, ◌&&◌, ◌||◌, [], ◌∷◌, ◌==◌, arith, eq_iff,
  if◌then◌else◌, Result, ok, err, Error,
}
use workspace.Base.Tables.{remove, has, shard, change_in}
use workspace.Authz.Model.{Tuple}
use workspace.Service.Types.{SeatAssignment}
use workspace.Store.Keys.{scope, tuple_key}
use workspace.Store.State.{Store}
use workspace.Store.Tuples.{write_tuples_locked, advance}
use workspace.Store.Seats.{
  seats_of, put_seat, is_exhausted, assign_seat_and_tuple, revoke_seat_and_tuple,
}
use workspace.Service.Seats.{seat_tuple}
use workspace.Service.Seats.Effect.{
  seat_key-test, has-inserted, has-deleted, has-seat_taken, has-seat_freed,
}

-- Each user who is counted as a holder of a seat in the scope has the seat's tuple, and no other has.
abbrev pub Agrees : String → Store → Type 0
Agrees sk st =
    (sku user : String)
    → has user (seats_of sk sku st) ≡ has (tuple_key (seat_tuple sku user)) (shard sk st.tuples)

pub assign-Agrees :
    (sk : String) (a : SeatAssignment) (st : Store)
    → Agrees sk st
    → Agrees sk (assign_seat_and_tuple a (seat_tuple a.sku a.user_id) st).1
unfolding assign_seat_and_tuple write_tuples_locked advance put_seat
assign-Agrees sk a st h sku user =
    by_seat (has a.user_id (seats_of at a.sku st)) (is_exhausted at a.sku st) refl
  where
    at : String
    at = scope a.project_id a.tenant_id

    t : Tuple
    t = seat_tuple a.sku a.user_id

    Same : Store → Type 0
    Same st' =
        has user (seats_of sk sku st') ≡ has (tuple_key (seat_tuple sku user)) (shard sk st'.tuples)

    inserted :
        (st' : Store)
        → has
            (tuple_key (seat_tuple sku user))
            (shard sk (write_tuples_locked a.project_id a.tenant_id (t ∷ []) [] st').tuples)
          ≡ (((at == sk && a.sku == sku) && a.user_id == user)
              || has (tuple_key (seat_tuple sku user)) (shard sk st'.tuples))
    inserted st' = ground (
      arith,
      has-inserted a.project_id a.tenant_id sk (tuple_key (seat_tuple sku user)) t st',
      seat_key-test a.sku a.user_id sku user,
    )

    held :
        has a.user_id (seats_of at a.sku st) ≡ true
        → (((at == sk && a.sku == sku) && a.user_id == user) || has user (seats_of sk sku st))
          ≡ has user (seats_of sk sku st)
    held seated = grind (arith, seated, eq_iff at sk, eq_iff a.sku sku, eq_iff a.user_id user)

    after :
        (st' : Store)
        → has user (seats_of sk sku st)
          ≡ has (tuple_key (seat_tuple sku user)) (shard sk st'.tuples)
        → (((at == sk && a.sku == sku) && a.user_id == user) || has user (seats_of sk sku st))
          ≡ has
              (tuple_key (seat_tuple sku user))
              (shard sk (write_tuples_locked a.project_id a.tenant_id (t ∷ []) [] st').tuples)
    after st' e =
        ap (λ b. ((at == sk && a.sku == sku) && a.user_id == user) || b) e ∙ sym (inserted st')

    by_seat :
        (seated full : Bool)
        → has a.user_id (seats_of at a.sku st) ≡ seated
        → Same
            (if◌then◌else◌ {A = Result Bool × Store} seated
              (ok true, write_tuples_locked a.project_id a.tenant_id (t ∷ []) [] st)
              (if full then (err Error.resource_exhausted, st) else (
                ok false,
                write_tuples_locked a.project_id a.tenant_id (t ∷ []) [] (put_seat at a st),
              ))).1
    by_seat true _ seated = sym (held seated) ∙ after st (h sku user)
    by_seat false true _ = h sku user
    by_seat false false _ =
        has-seat_taken at sk sku user a st ∙ after (put_seat at a st) (h sku user)

pub revoke-Agrees :
    (sk project tenant sku' user' : String) (st : Store)
    → Agrees sk st
    → Agrees sk (revoke_seat_and_tuple project tenant sku' user' (seat_tuple sku' user') st).1
unfolding revoke_seat_and_tuple write_tuples_locked advance
revoke-Agrees sk project tenant sku' user' st h sku user =
    has-seat_freed (scope project tenant) sk sku user sku' user' st.seat_assigns
    ∙ ap (λ b. not ((scope project tenant == sk && sku' == sku) && user' == user) && b) (h sku user)
    ∙ sym deleted
  where
    freed : Store
    freed = record st {
      seat_assigns =
          change_in (scope project tenant) (change_in sku' (remove user')) st.seat_assigns;
    }

    deleted :
        has (tuple_key (seat_tuple sku user)) (
          shard sk
            (write_tuples_locked project tenant [] (seat_tuple sku' user' ∷ []) freed).tuples)
        ≡ (not ((scope project tenant == sk && sku' == sku) && user' == user)
            && has (tuple_key (seat_tuple sku user)) (shard sk st.tuples))
    deleted = ground (
      arith,
      has-deleted project tenant sk (tuple_key (seat_tuple sku user)) (seat_tuple sku' user') freed,
      seat_key-test sku' user' sku user,
    )
