-- ===== src/Service/Resolver/Age.antt =====
-- How old an answer of the resolver may be, while other processes write the store
-- (`resolverTTL` and `modelResolver` in internal/service/projects.go).
use workspace.Base.{
  ℕ, ◌+◌, ◌≤◌, String, ◌≡◌, refl, sym, ap, subst, false, Option, none, List, [], ◌∷◌, arith, Result,
  ok, lookup,
}
use workspace.Service.Access.{Resolved}
use workspace.Service.Resolver.{
  Cached, Resolver, Node, resolver_ttl, new_model_resolver, resolution, is_stale, lookup_cached,
  store_cached, invalidate, resolve_from, resolve,
}
use workspace.Service.Resolver.Entries.{
  Entries, Entries-map, Entries-remove, Entries-store_cached, Entries-lookup,
}
use workspace.Service.Resolver.Fresh.{
  Found, hit, miss, expired, found, after_miss, resolve_from-miss,
}
use workspace.Store.State.{Store}

-- the stores that stood, each with an instant at which it did, the latest first
abbrev pub Past : Type 0
Past = List (ℕ × Store)

pub data Stood (t : ℕ) (st : Store) : Past → Type 0 where
  last : {past : Past} → Stood t st ((t, st) ∷ past)
  before : {x : ℕ × Store} {past : Past} → Stood t st past → Stood t st (x ∷ past)

-- A process at an instant, after a past of its store. Between its own resolutions and invalidations
-- the clock goes on, and anybody may write anything, this process too.
pub data Run : ℕ → Past → Node → Type 0 where
  started :
      (now : ℕ) (st : Store)
      → Run now ((now, st) ∷ []) (record { store = st; resolver = new_model_resolver })
  moved :
      {now : ℕ} {past : Past} {n : Node} (later : ℕ) (st : Store)
      → now ≤ later
      → Run now past n
      → Run later ((later, st) ∷ past) (record n { store = st })
  resolved :
      {now : ℕ} {past : Past} {n : Node} (id : String)
      → Run now past n
      → Run now past (resolve now id n).1
  invalidated :
      {now : ℕ} {past : Past} {n : Node} (id : String)
      → Run now past n
      → Run now past (record n { resolver = invalidate id n.resolver })

-- an entry is what the project's row was at the instant that the entry carries
abbrev Loaded : Past → String → Cached → Type 0
Loaded past id e =
    (st : Store) × (Stood e.at st past) × (e.answer ≡ resolution (lookup id st.projects))

record Kept (now : ℕ) (past : Past) (n : Node) : Type 0 where
  stands : Stood now n.store past
  earlier : (t : ℕ) (st : Store) → Stood t st past → t ≤ now
  ttl : n.resolver.ttl ≡ resolver_ttl
  entries : Entries (Loaded past) n.resolver.cache

-- what a row was, no more than the TTL ago
abbrev pub Recent : ℕ → Past → String → Result Resolved → Type 0
Recent now past id answer =
    (t : ℕ) × (st : Store) × (Stood t st past)
    × (t ≤ now)
    × (now ≤ t + resolver_ttl)
    × (answer ≡ ok (resolution (lookup id st.projects)))

fresh_enough : (ttl now : ℕ) (e : Cached) → is_stale ttl now e ≡ false → now ≤ e.at + ttl
unfolding is_stale
fresh_enough ttl now e h = ground arith

module _ (now : ℕ) (past : Past) (id : String) (n : Node) (k : Kept now past n) where
  abbrev Fine : Result Resolved × Node → Type 0
  Fine o = Recent now past id o.0 × Kept now past o.1

  missed :
      (r : Resolver)
      → r.ttl ≡ resolver_ttl
      → Entries (Loaded past) r.cache
      → Fine (resolve_from now id n.store (none, r))
  unfolding after_miss store_cached
  missed r ttl h = subst Fine (sym (resolve_from-miss now id n.store r)) (
    (now, n.store, k.stands, omega arith, omega arith, refl),
    record {
      stands = k.stands;
      earlier = k.earlier;
      ttl = ttl;
      entries = Entries-store_cached (Loaded past) now id _ r (n.store, k.stands, refl) h;
    },
  )

  resolve-Recent : Fine (resolve now id n)
  unfolding resolve
  resolve-Recent = by_found (lookup_cached now id n.resolver) (found now id n.resolver)
    where
      by_found :
          (o : Option Cached × Resolver)
          → Found now id n.resolver o
          → Fine (resolve_from now id n.store o)
      by_found _ (hit e f s) =
          let (st, stood, same) = Entries-lookup (Loaded past) id e n.resolver.cache k.entries f in
          (
            (
              e.at,
              st,
              stood,
              k.earlier e.at st stood,
              omega (arith, fresh_enough n.resolver.ttl now e s, k.ttl),
              ap ok same,
            ),
            k,
          )
      by_found _ miss = missed n.resolver k.ttl k.entries
      by_found _ expired =
          missed _ k.ttl (
            Entries-remove (Loaded past) (Loaded past) id n.resolver.cache (λ _ _ _ h. h) k.entries)

Run-Kept : {now : ℕ} {past : Past} {n : Node} → Run now past n → Kept now past n
unfolding new_model_resolver invalidate
Run-Kept (started now st) = record {
  stands = last;
  earlier = λ t s h. only h;
  ttl = refl;
  entries = tt;
}
  where
    only : {t : ℕ} {s : Store} → Stood t s ((now, st) ∷ []) → t ≤ now
    only last = omega arith
    only (before x) = elim x [ ]
Run-Kept (moved {now} {past} {n} later st le run) =
    let k = Run-Kept run in
    record {
      stands = last;
      earlier = λ t s h. any k h;
      ttl = k.ttl;
      entries =
          Entries-map (Loaded past) (Loaded ((later, st) ∷ past)) n.resolver.cache
            (λ j e h. (h.0, before h.1, h.2)) k.entries;
    }
  where
    any : Kept now past n → {t : ℕ} {s : Store} → Stood t s ((later, st) ∷ past) → t ≤ later
    any k last = omega arith
    any k {t} {s} (before h) = omega (arith, k.earlier t s h, le)
Run-Kept (resolved {now} {past} {n} id run) = (resolve-Recent now past id n (Run-Kept run)).1
Run-Kept (invalidated {now} {past} {n} id run) =
    let k = Run-Kept run in
    record {
      stands = k.stands;
      earlier = k.earlier;
      ttl = k.ttl;
      entries =
          Entries-remove (Loaded past) (Loaded past) id n.resolver.cache (λ _ _ _ h. h) k.entries;
    }

-- A resolution is never older than the TTL, whatever other processes write: in a process that has
-- started with an empty cache and has since resolved and invalidated any projects, while the clock went
-- on and the store became any other, a resolution answers what the project's row resolved to in a
-- store that stood at an instant no more than the TTL of 30 s before.
pub resolve-age :
    {now : ℕ} {past : Past} {n : Node} (id : String)
    → Run now past n
    → Recent now past id (resolve now id n).0
resolve-age {now} {past} {n} id run = (resolve-Recent now past id n (Run-Kept run)).0
