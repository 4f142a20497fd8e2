-- ===== src/Store/Seats/Cap.antt =====
-- The cap on the seats of a sku (`AssignSeatAndTuple` in internal/repo/memory/memory.go).
use text.Mathlib.Text.{starts_with}
use workspace.Base.{
  ℕ, suc, ◌≤◌, String, ◌≡◌, refl, sym, subst, Bool, true, false, not, ◌&&◌, Option, none, some,
  List, [], ◌∷◌, ◌==◌, arith, eq_iff, length, if◌then◌else◌, ◌⊎◌, inl, inr, Bool-cases, Dict,
  Result, ok, err, Error,
}
use workspace.Base.Int.{ℤ, pos, negsuc, ltb_ℤ}
use workspace.Base.Tables.{put, remove, has, put_in}
use workspace.Base.Tables.Lookup.{length-put, length-remove, shard-put_in, shard-change_in_twice}
use workspace.Authz.Model.{Tuple}
use workspace.Service.Types.{SeatAssignment}
use workspace.Store.Keys.{scope, project_prefix}
use workspace.Store.State.{Store}
use workspace.Store.Tuples.{
  write_tuples, write_tuples_locked, advance, delete_all_subject_tuples_in_project,
}
use workspace.Store.Tuples.Projects.{seats_of-deprovision}
use workspace.Store.Seats.{
  seats_of, limit_of, seat_usage_locked, is_exhausted, put_seat, assign_seat_and_tuple,
  revoke_seat_and_tuple, set_seat_limit,
}

-- the seats that a limit admits
abbrev pub room : ℤ → ℕ
room (pos n) = n
room (negsuc n) = 0

abbrev pub Fits : Option ℤ → ℕ → Type 0
Fits none used = Unit
Fits (some l) used = used ≤ room l

-- The seats of the sku are no more than its limit, if it has one.
abbrev pub WithinCap : String → String → Store → Type 0
WithinCap sk sku st = Fits (limit_of sk sku st) (length (seats_of sk sku st))

-- One operation of the store, for the sku `sku` of the scope `sk`: whatever is assigned, revoked,
-- written or deprovisioned, and a limit for any sku, which for this one is not below its use.
pub data Step (sk sku : String) : Store → Store → Type 0 where
  assigned :
      {st : Store} (a : SeatAssignment) (t : Tuple)
      → Step sk sku st (assign_seat_and_tuple a t st).1
  revoked :
      {st : Store} (project tenant sku' user : String) (t : Tuple)
      → Step sk sku st (revoke_seat_and_tuple project tenant sku' user t st).1
  written :
      {st : Store} (project tenant : String) (inserts deletes : List Tuple)
      → Step sk sku st (write_tuples project tenant inserts deletes st).1
  deprovisioned :
      {st : Store} (project user : String)
      → Step sk sku st (delete_all_subject_tuples_in_project project user st).1
  limited :
      {st : Store} (project tenant sku' : String) (l : Option ℤ)
      → WithinCap sk sku (set_seat_limit project tenant sku' l st).1
      → Step sk sku st (set_seat_limit project tenant sku' l st).1

pub data Steps (sk sku : String) : Store → Store → Type 0 where
  done : {st : Store} → Steps sk sku st st
  also : {st st' st'' : Store} → Step sk sku st st' → Steps sk sku st' st'' → Steps sk sku st st''

Fits-le : (o : Option ℤ) (m n : ℕ) → m ≤ n → Fits o n → Fits o m
Fits-le none m n le h = tt
Fits-le (some l) m n le h = omega (arith, le, h)

-- a sku that is not exhausted has room for one more
Fits-suc :
    (o : Option ℤ) (used : ℕ)
    → ((elim o [ none ↦ false | some _ ↦ true ])
        && not (ltb_ℤ (pos used) (elim o [ none ↦ pos 0 | some n ↦ n ])))
      ≡ false
    → Fits o (suc used)
Fits-suc none used h = tt
Fits-suc (some (pos n)) used h = ground arith
Fits-suc (some (negsuc n)) used h = absurd (ground arith)

-- the seats of a sku after one of them is taken
seats_of-put_seat :
    (sk sk' sku : String) (a : SeatAssignment) (st : Store)
    → seats_of sk' sku (put_seat sk a st) ≡ (
        if sk == sk' && a.sku == sku
        then put a.user_id a (seats_of sk' sku st)
        else seats_of sk' sku st)
unfolding put_seat put_in
seats_of-put_seat sk sk' sku a st = shard-put_in sk a.sku st.seat_assigns a.user_id a sk' sku

length-put-has :
    {V : Type 0} (k : String) (v : V) (m : Dict V)
    → has k m ≡ false
    → length (put k v m) ≡ suc (length m)
length-put-has k v m fresh = rw fresh at (length-put k v m)

-- a seat that is taken when the sku is not exhausted
put_seat-WithinCap :
    (sk sku at : String) (a : SeatAssignment) (st : Store)
    → has a.user_id (seats_of at a.sku st) ≡ false
    → is_exhausted at a.sku st ≡ false
    → WithinCap sk sku st
    → WithinCap sk sku (put_seat at a st)
unfolding put_seat seat_usage_locked
put_seat-WithinCap sk sku at a st new free h =
    subst (λ m. Fits (limit_of sk sku st) (length m)) (sym (seats_of-put_seat at sk sku a st))
      (by_key (Bool-cases (at == sk)) (Bool-cases (a.sku == sku)))
  where
    Kept : Bool → Type 0
    Kept b =
        Fits (limit_of sk sku st)
          (length (if b then put a.user_id a (seats_of sk sku st) else seats_of sk sku st))

    by_key :
        ((at == sk) ≡ true) ⊎ ((at == sk) ≡ false)
        → ((a.sku == sku) ≡ true) ⊎ ((a.sku == sku) ≡ false)
        → Kept (at == sk && a.sku == sku)
    by_key (inr other) _ = rw other h
    by_key (inl same) (inr other) = rw (same, other) h
    by_key (inl same) (inl same') =
        let at_is : at ≡ sk = (eq_iff at sk).0 same in
        let sku_is : a.sku ≡ sku = (eq_iff a.sku sku).0 same' in
        let new' : has a.user_id (seats_of sk sku st) ≡ false = rw (at_is, sku_is) at new in
        let free' : is_exhausted sk sku st ≡ false = rw (at_is, sku_is) at free in
        rw (same, same')
          (subst (Fits (limit_of sk sku st))
            (sym (length-put-has a.user_id a (seats_of sk sku st) new'))
            (Fits-suc (limit_of sk sku st) (length (seats_of sk sku st)) free'))

assign-WithinCap :
    (sk sku : String) (a : SeatAssignment) (t : Tuple) (st : Store)
    → WithinCap sk sku st
    → WithinCap sk sku (assign_seat_and_tuple a t st).1
unfolding assign_seat_and_tuple write_tuples_locked advance
assign-WithinCap sk sku a t st h =
    by_seat (has a.user_id (seats_of at a.sku st)) (is_exhausted at a.sku st) refl refl
  where
    at : String
    at = scope a.project_id a.tenant_id

    by_seat :
        (seated full : Bool)
        → has a.user_id (seats_of at a.sku st) ≡ seated
        → is_exhausted at a.sku st ≡ full
        → WithinCap sk sku
            (if◌then◌else◌ {A = Result Bool × Store} seated
              (ok true, write_tuples_locked a.project_id a.tenant_id (t ∷ []) [] st)
              (if full then (err Error.resource_exhausted, st) else (
                ok false,
                write_tuples_locked a.project_id a.tenant_id (t ∷ []) [] (put_seat at a st),
              ))).1
    by_seat true _ _ _ = h
    by_seat false true _ _ = h
    by_seat false false new free = put_seat-WithinCap sk sku at a st new free h

-- a sku with fewer seats and the same limit
shrunk-WithinCap :
    (sk sku : String) (st : Store) (m : Dict SeatAssignment)
    → length m ≤ length (seats_of sk sku st)
    → WithinCap sk sku st
    → Fits (limit_of sk sku st) (length m)
shrunk-WithinCap sk sku st m le h = Fits-le (limit_of sk sku st) (length m) _ le h

revoke-WithinCap :
    (sk sku project tenant sku' user : String) (t : Tuple) (st : Store)
    → WithinCap sk sku st
    → WithinCap sk sku (revoke_seat_and_tuple project tenant sku' user t st).1
unfolding revoke_seat_and_tuple write_tuples_locked advance
revoke-WithinCap sk sku project tenant sku' user t st h =
    subst (λ m. Fits (limit_of sk sku st) (length m))
      (sym (
        shard-change_in_twice (scope project tenant) sku' st.seat_assigns (remove user) sk sku
          refl))
      (shrunk-WithinCap sk sku st _ (fewer (scope project tenant == sk && sku' == sku)) h)
  where
    fewer :
        (b : Bool)
        → length (if b then remove user (seats_of sk sku st) else seats_of sk sku st)
          ≤ length (seats_of sk sku st)
    fewer true = length-remove user (seats_of sk sku st)
    fewer false = omega arith

deprovision-WithinCap :
    (sk sku project user : String) (st : Store)
    → WithinCap sk sku st
    → WithinCap sk sku (delete_all_subject_tuples_in_project project user st).1
unfolding delete_all_subject_tuples_in_project limit_of
deprovision-WithinCap sk sku project user st h =
    subst (λ m. Fits (limit_of sk sku st) (length m))
      (sym (seats_of-deprovision sk sku project user st))
      (shrunk-WithinCap sk sku st _ (fewer (starts_with sk (project_prefix project))) h)
  where
    fewer :
        (b : Bool)
        → length (if b then remove user (seats_of sk sku st) else seats_of sk sku st)
          ≤ length (seats_of sk sku st)
    fewer true = length-remove user (seats_of sk sku st)
    fewer false = omega arith

Step-WithinCap :
    (sk sku : String) (st st' : Store)
    → WithinCap sk sku st
    → Step sk sku st st'
    → WithinCap sk sku st'
unfolding write_tuples write_tuples_locked advance
Step-WithinCap sk sku st _ h (assigned a t) = assign-WithinCap sk sku a t st h
Step-WithinCap sk sku st _ h (revoked project tenant sku' user t) =
    revoke-WithinCap sk sku project tenant sku' user t st h
Step-WithinCap sk sku st _ h (written project tenant inserts deletes) = h
Step-WithinCap sk sku st _ h (deprovisioned project user) =
    deprovision-WithinCap sk sku project user st h
Step-WithinCap sk sku st _ h (limited project tenant sku' l fits) = fits

-- Once the seats of a sku are within its limit, no sequence of assignments, revocations, writes,
-- deprovisionings and changes of limits brings them above it, if no change sets this limit below its
-- use.
pub Steps-WithinCap :
    (sk sku : String) (st st' : Store)
    → WithinCap sk sku st
    → Steps sk sku st st'
    → WithinCap sk sku st'
Steps-WithinCap sk sku st _ h done = h
Steps-WithinCap sk sku st st'' h (also {st' = st'} s rest) =
    Steps-WithinCap sk sku st' st'' (Step-WithinCap sk sku st st' h s) rest
