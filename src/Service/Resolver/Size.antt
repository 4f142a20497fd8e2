-- ===== src/Service/Resolver/Size.antt =====
-- The cache of the resolver stays within its cap (`store` and `evictLocked` in
-- internal/service/projects.go).
use workspace.Base.{
  ℕ, suc, ◌≤◌, String, ◌≡◌, refl, Bool, true, false, not, Option, none, some, [], ◌∷◌, ltb, length,
  arith, if◌then◌else◌, Result, ok, err, Dict, lookup,
}
use workspace.Base.Tables.{put, remove, retain}
use workspace.Base.Tables.Lookup.{length-put, length-remove}
use workspace.Service.Resolver.{
  Cached, Resolver, Node, is_stale, lookup_cached, drop_until, evict, store_cached, invalidate,
  load, cache_load, resolve_from, resolve,
}
use workspace.Store.State.{Store}

drop_until-below : (max : ℕ) (m : Dict Cached) → 1 ≤ max → suc (length (drop_until max m)) ≤ max
unfolding drop_until
drop_until-below max [] h = h
drop_until-below max (e ∷ m) h = by_test (ltb (length (e ∷ m)) max) refl (drop_until-below max m h)
  where
    by_test :
        (b : Bool)
        → ltb (length (e ∷ m)) max ≡ b
        → suc (length (drop_until max m)) ≤ max
        → suc (length (if b then e ∷ m else drop_until max m)) ≤ max
    by_test true t rest = ground arith
    by_test false t rest = rest

-- a cap that holds, of at least one entry
pub record Sized (r : Resolver) : Type 0 where
  pub some_room : 1 ≤ r.max
  pub within : length r.cache ≤ r.max

put-at_most : (k : String) (e : Cached) (m : Dict Cached) → length (put k e m) ≤ suc (length m)
unfolding lookup
put-at_most k e m = ground (arith, length-put k e m)

pub store_cached-Sized :
    (now : ℕ) (id : String) (e : Cached) (r : Resolver) → Sized r → Sized (store_cached now id e r)
unfolding store_cached evict
store_cached-Sized now id e r h = record {
  some_room = h.some_room;
  within = by_test (ltb (length r.cache) r.max) refl;
}
  where
    by_test :
        (b : Bool)
        → ltb (length r.cache) r.max ≡ b
        → length (put id e (if b then r.cache else evict now r)) ≤ r.max
    by_test true t = ground (arith, put-at_most id e r.cache)
    by_test false t = omega (
      arith,
      put-at_most id e (evict now r),
      drop_until-below r.max (retain (λ e. not (is_stale r.ttl now e)) r.cache) h.some_room,
    )

pub remove-Sized : (id : String) (r : Resolver) → Sized r → Sized (invalidate id r)
unfolding invalidate
remove-Sized id r h = record {
  some_room = h.some_room;
  within = omega (arith, length-remove id r.cache, h.within);
}

lookup_cached-Sized :
    (now : ℕ) (id : String) (r : Resolver) → Sized r → Sized (lookup_cached now id r).1
unfolding lookup_cached invalidate
lookup_cached-Sized now id r h = by_entry (lookup id r.cache)
  where
    by_fresh :
        (e : Cached) (b : Bool)
        → Sized
            (if◌then◌else◌ {A = Option Cached × Resolver} b
              (none, record r { cache = remove id r.cache })
              (some e, r)).1
    by_fresh e true = remove-Sized id r h
    by_fresh e false = h

    by_entry :
        (o : Option Cached)
        → Sized
            (elim o as (λ _. Option Cached × Resolver) [
              | none ↦ (none, r)
              | some e ↦
                  if is_stale r.ttl now e
                  then (none, record r { cache = remove id r.cache })
                  else (some e, r)
            ]).1
    by_entry none = h
    by_entry (some e) = by_fresh e (is_stale r.ttl now e)

abbrev pub SizedNode : Node → Type 0
SizedNode n = Sized n.resolver

pub resolve-Sized :
    (now : ℕ) (id : String) (n : Node) → SizedNode n → SizedNode (resolve now id n).1
unfolding resolve resolve_from cache_load
resolve-Sized now id n h =
    by_lookup (lookup_cached now id n.resolver) (lookup_cached-Sized now id n.resolver h)
  where
    by_load :
        (r : Resolver) (o : Result Cached × Store)
        → Sized r
        → SizedNode (cache_load now id (record { store = n.store; resolver = r }) o).1
    by_load r (ok e, st) k = store_cached-Sized now id e r k
    by_load r (err x, st) k = k

    by_lookup :
        (o : Option Cached × Resolver) → Sized o.1 → SizedNode (resolve_from now id n.store o).1
    by_lookup (some e, r) k = k
    by_lookup (none, r) k = by_load r (load now id n.store) k
