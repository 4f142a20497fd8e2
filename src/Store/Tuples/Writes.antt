-- ===== src/Store/Tuples/Writes.antt =====
-- What a write of tuples leaves in a scope (`writeTuplesLocked` in internal/repo/memory/memory.go).
use workspace.Base.{
  String, ◌≡◌, refl, sym, ap, subst, ◌∙◌, Bool, true, false, not, ◌&&◌, ◌||◌, Option, none, some,
  List, [], ◌∷◌, ◌==◌, arith, eq_iff, if◌then◌else◌, Dict, lookup, ◌⊎◌, inl, inr, Bool-cases,
}
use workspace.Base.Int.{increment64}
use workspace.Base.Tables.{put, remove, has, shard}
use workspace.Base.Tables.Lookup.{lookup-put, lookup-remove, shard-put}
use workspace.Authz.Model.{Tuple}
use workspace.Store.Keys.{scope, tuple_key}
use workspace.Store.State.{Store}
use workspace.Store.Tuples.{sequence, advance, delete_tuples, insert_tuples, write_tuples_locked}

-- the last of the tuples with a key
unfoldable pub last_with : String → List Tuple → Option Tuple
last_with k [] = none
last_with k (t ∷ ts) = elim (last_with k ts) [
  | some u ↦ some u
  | none ↦ if tuple_key t == k then some t else none
]

unfoldable pub is_among : String → List Tuple → Bool
is_among k [] = false
is_among k (t ∷ ts) = tuple_key t == k || is_among k ts

-- What stands under a key after a write: the last insert with it, or else nothing if it was deleted.
unfoldable pub after_write : String → (inserts deletes : List Tuple) → Option Tuple → Option Tuple
unfolding last_with is_among
after_write k inserts deletes before = elim (last_with k inserts) [
  | some t ↦ some t
  | none ↦ if is_among k deletes then none else before
]

delete_tuples-lookup :
    (k : String) (ts : List Tuple) (m : Dict Tuple)
    → lookup k (delete_tuples ts m) ≡ (if is_among k ts then none else lookup k m)
unfolding delete_tuples is_among
delete_tuples-lookup k [] m = refl
delete_tuples-lookup k (t ∷ ts) m =
    ground
      (arith, delete_tuples-lookup k ts (remove (tuple_key t) m), lookup-remove (tuple_key t) k m)

insert_tuples-lookup :
    (k : String) (ts : List Tuple) (m : Dict Tuple)
    → lookup k (insert_tuples ts m) ≡ elim (last_with k ts) [ some t ↦ some t | none ↦ lookup k m ]
unfolding insert_tuples last_with
insert_tuples-lookup k [] m = refl
insert_tuples-lookup k (t ∷ ts) m =
    ground
      (arith, insert_tuples-lookup k ts (put (tuple_key t) t m), lookup-put (tuple_key t) k t m)

-- After a write, the tuple under each key of the scope is the last insert with that key, or else none
-- if the key was deleted, or else the one before; another scope is as before; and the sequence of the
-- scope alone has advanced by one.
pub write_tuples_locked-lookup :
    (project tenant sk k : String) (inserts deletes : List Tuple) (st : Store)
    → (lookup k (shard sk (write_tuples_locked project tenant inserts deletes st).tuples) ≡ (
        if scope project tenant == sk
        then after_write k inserts deletes (lookup k (shard sk st.tuples))
        else lookup k (shard sk st.tuples)))
      × (sequence sk (write_tuples_locked project tenant inserts deletes st)
          ≡ (if scope project tenant == sk then increment64 (sequence sk st) else sequence sk st))
unfolding write_tuples_locked advance after_write lookup
write_tuples_locked-lookup project tenant sk k inserts deletes st = (
  by_scope (Bool-cases (scope project tenant == sk)),
  ground (
    arith,
    eq_iff (scope project tenant) sk,
    lookup-put (scope project tenant) sk (increment64 (sequence (scope project tenant) st)) st.seqs,
  ),
)
  where
    written : Dict Tuple
    written = insert_tuples inserts (delete_tuples deletes (shard (scope project tenant) st.tuples))

    by_scope :
        ((scope project tenant == sk) ≡ true) ⊎ ((scope project tenant == sk) ≡ false)
        → lookup k (shard sk (put (scope project tenant) written st.tuples)) ≡ (
            if scope project tenant == sk
            then after_write k inserts deletes (lookup k (shard sk st.tuples))
            else lookup k (shard sk st.tuples))
    by_scope (inl same) =
        let sk_is : scope project tenant ≡ sk = (eq_iff (scope project tenant) sk).0 same in
        rw (shard-put (scope project tenant) sk written st.tuples, same)
          (insert_tuples-lookup k inserts
              (delete_tuples deletes (shard (scope project tenant) st.tuples))
            ∙ ap (λ o. elim (last_with k inserts) [ some t ↦ some t | none ↦ o ])
                (delete_tuples-lookup k deletes (shard (scope project tenant) st.tuples)
                  ∙ ap (λ s. if is_among k deletes then none else lookup k (shard s st.tuples))
                      sk_is))
    by_scope (inr other) = rw (shard-put (scope project tenant) sk written st.tuples, other) refl

-- a key is among the tuples exactly when one of them is the last with it
last_with-is_among :
    (k : String) (ts : List Tuple)
    → is_among k ts ≡ elim (last_with k ts) [ none ↦ false | some _ ↦ true ]
unfolding last_with is_among
last_with-is_among k [] = refl
last_with-is_among k (t ∷ ts) = ground (arith, last_with-is_among k ts)

-- which keys have a tuple after a write
pub has-written :
    (project tenant sk k : String) (inserts deletes : List Tuple) (st : Store)
    → has k (shard sk (write_tuples_locked project tenant inserts deletes st).tuples) ≡ (
        if scope project tenant == sk
        then is_among k inserts || (not (is_among k deletes) && has k (shard sk st.tuples))
        else has k (shard sk st.tuples))
unfolding after_write lookup
has-written project tenant sk k inserts deletes st =
    ap present (write_tuples_locked-lookup project tenant sk k inserts deletes st).0
    ∙ at (scope project tenant == sk) (last_with k inserts) (is_among k deletes)
        (lookup k (shard sk st.tuples)) (last_with-is_among k inserts)
  where
    present : Option Tuple → Bool
    present o = elim o [ none ↦ false | some _ ↦ true ]

    at :
        (b : Bool) (last : Option Tuple) (deleted : Bool) (o : Option Tuple)
        → is_among k inserts ≡ present last
        → present
            (if b then elim last [ some t ↦ some t | none ↦ if deleted then none else o ] else o)
          ≡ (if b then is_among k inserts || (not deleted && present o) else present o)
    at false last deleted o e = refl
    at true (some t) deleted o e = rw e refl
    at true none true o e = rw e refl
    at true none false o e = rw e refl

-- every tuple stands under its own key
abbrev pub WellKeyed : Dict Tuple → Type 0
WellKeyed [] = Unit
WellKeyed ((k, t) ∷ m) = (tuple_key t ≡ k) × WellKeyed m

WellKeyed-put : (t : Tuple) (m : Dict Tuple) → WellKeyed m → WellKeyed (put (tuple_key t) t m)
unfolding put
WellKeyed-put t [] h = (refl, tt)
WellKeyed-put t ((k, u) ∷ m) (e, h) = by_test (k == tuple_key t) refl (WellKeyed-put t m h)
  where
    by_test :
        (b : Bool)
        → (k == tuple_key t) ≡ b
        → WellKeyed (put (tuple_key t) t m)
        → WellKeyed (if b then (k, t) ∷ m else (k, u) ∷ put (tuple_key t) t m)
    by_test true same later = (sym ((eq_iff k (tuple_key t)).0 same), h)
    by_test false other later = (e, later)

WellKeyed-remove : (k : String) (m : Dict Tuple) → WellKeyed m → WellKeyed (remove k m)
unfolding remove
WellKeyed-remove k [] h = tt
WellKeyed-remove k ((j, u) ∷ m) (e, h) = by_test (j == k) (WellKeyed-remove k m h)
  where
    by_test :
        (b : Bool)
        → WellKeyed (remove k m)
        → WellKeyed (if b then remove k m else (j, u) ∷ remove k m)
    by_test true later = later
    by_test false later = (e, later)

WellKeyed-delete_tuples :
    (ts : List Tuple) (m : Dict Tuple) → WellKeyed m → WellKeyed (delete_tuples ts m)
unfolding delete_tuples
WellKeyed-delete_tuples [] m h = h
WellKeyed-delete_tuples (t ∷ ts) m h =
    WellKeyed-delete_tuples ts (remove (tuple_key t) m) (WellKeyed-remove (tuple_key t) m h)

WellKeyed-insert_tuples :
    (ts : List Tuple) (m : Dict Tuple) → WellKeyed m → WellKeyed (insert_tuples ts m)
unfolding insert_tuples
WellKeyed-insert_tuples [] m h = h
WellKeyed-insert_tuples (t ∷ ts) m h =
    WellKeyed-insert_tuples ts (put (tuple_key t) t m) (WellKeyed-put t m h)

-- a write leaves every tuple under its own key
pub write-WellKeyed :
    (project tenant sk : String) (inserts deletes : List Tuple) (st : Store)
    → WellKeyed (shard sk st.tuples)
    → WellKeyed (shard sk (write_tuples_locked project tenant inserts deletes st).tuples)
unfolding write_tuples_locked advance
write-WellKeyed project tenant sk inserts deletes st h =
    subst WellKeyed (sym (shard-put (scope project tenant) sk written st.tuples))
      (by_scope (scope project tenant == sk) refl)
  where
    written : Dict Tuple
    written = insert_tuples inserts (delete_tuples deletes (shard (scope project tenant) st.tuples))

    by_scope :
        (b : Bool)
        → (scope project tenant == sk) ≡ b
        → WellKeyed (if b then written else shard sk st.tuples)
    by_scope false _ = h
    by_scope true same =
        WellKeyed-insert_tuples inserts
          (delete_tuples deletes (shard (scope project tenant) st.tuples))
          (WellKeyed-delete_tuples deletes (shard (scope project tenant) st.tuples) (
            subst (λ s. WellKeyed (shard s st.tuples))
              (sym ((eq_iff (scope project tenant) sk).0 same)) h))
