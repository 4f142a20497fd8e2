-- ===== src/Service/Resolver/Fresh.antt =====
-- What the resolver answers (internal/service/projects.go).
use workspace.Base.{
  ℕ, String, ◌≡◌, refl, sym, ap, subst, Bool, true, false, Option, none, some, if◌then◌else◌,
  Result, ok, lookup,
}
use workspace.Base.Tables.{remove}
use workspace.Service.Access.{Resolved, find_row}
use workspace.Service.Rules.{then-ok, find_row-found}
use workspace.Authz.State.{pure}
use workspace.Service.Resolver.{
  Cached, Resolver, Node, resolution, is_stale, lookup_cached, store_cached, load, cache_load,
  resolve_from, resolve,
}
use workspace.Service.Resolver.Entries.{
  Entries, Entries-remove, Entries-store_cached, Entries-lookup,
}
use workspace.Store.State.{Store}
use workspace.Store.Workspaces.{get_project}

-- a load never fails on this store, and reads the row as it is
pub load-ok :
    (now : ℕ) (id : String) (st : Store)
    → load now id st ≡ (ok (record { answer = resolution (lookup id st.projects); at = now }), st)
unfolding load get_project
load-ok now id st =
    then-ok (find_row (get_project id)) (λ o. pure (record { answer = resolution o; at = now }))
      (find_row-found (lookup id st.projects) st) refl

-- what a lookup of the cache has found: an entry that is not stale, or nothing
pub data Found (now : ℕ) (id : String) (r : Resolver) : Option Cached × Resolver → Type 0 where
  hit :
      (e : Cached)
      → lookup id r.cache ≡ some e
      → is_stale r.ttl now e ≡ false
      → Found now id r (some e, r)
  miss : Found now id r (none, r)
  expired : Found now id r (none, record r { cache = remove id r.cache })

pub found : (now : ℕ) (id : String) (r : Resolver) → Found now id r (lookup_cached now id r)
unfolding lookup_cached
found now id r = by_entry (lookup id r.cache) refl
  where
    by_age :
        (e : Cached) (b : Bool)
        → lookup id r.cache ≡ some e
        → is_stale r.ttl now e ≡ b
        → Found now id r (
            if◌then◌else◌ {A = Option Cached × Resolver} b
              (none, record r { cache = remove id r.cache })
              (some e, r))
    by_age e true f s = expired
    by_age e false f s = hit e f s

    by_entry :
        (o : Option Cached)
        → lookup id r.cache ≡ o
        → Found now id r (elim o as (λ _. Option Cached × Resolver) [
          | none ↦ (none, r)
          | some e ↦
              if is_stale r.ttl now e
              then (none, record r { cache = remove id r.cache })
              else (some e, r)
        ])
    by_entry none f = miss
    by_entry (some e) f = by_age e (is_stale r.ttl now e) f refl

-- an entry agrees with the project's row
abbrev pub IsFresh : Store → String → Cached → Type 0
IsFresh st id e = e.answer ≡ resolution (lookup id st.projects)

abbrev pub Coherent : Node → Type 0
Coherent n = Entries (IsFresh n.store) n.resolver.cache

-- what a miss answers and leaves
unfoldable pub after_miss : ℕ → String → Store → Resolver → Result Resolved × Node
unfolding resolution store_cached
after_miss now id st r = (
  ok (resolution (lookup id st.projects)),
  record {
    store = st;
    resolver =
        store_cached now id (record { answer = resolution (lookup id st.projects); at = now }) r;
  },
)

pub resolve_from-miss :
    (now : ℕ) (id : String) (st : Store) (r : Resolver)
    → resolve_from now id st (none, r) ≡ after_miss now id st r
unfolding resolve_from cache_load after_miss
resolve_from-miss now id st r =
    ap (cache_load now id (record { store = st; resolver = r })) (load-ok now id st)

-- The cache of resolved projects is invisible in one process: if each entry is what the project's row
-- in the store resolves to, then a resolution answers what the row resolves to, whether it is cached,
-- stale or missing, and so are the entries afterwards.
pub resolve-fresh :
    (now : ℕ) (id : String) (n : Node)
    → Coherent n
    → ((resolve now id n).0 ≡ ok (resolution (lookup id n.store.projects)))
      × Coherent (resolve now id n).1
unfolding resolve after_miss
resolve-fresh now id n c = by_found (lookup_cached now id n.resolver) (found now id n.resolver)
  where
    Fine : Option Cached × Resolver → Type 0
    Fine o =
        ((resolve_from now id n.store o).0 ≡ ok (resolution (lookup id n.store.projects)))
        × Coherent (resolve_from now id n.store o).1

    missed : (r : Resolver) → Entries (IsFresh n.store) r.cache → Fine (none, r)
    missed r h =
        subst (λ o. (o.0 ≡ ok (resolution (lookup id n.store.projects))) × Coherent o.1)
          (sym (resolve_from-miss now id n.store r))
          (refl, Entries-store_cached (IsFresh n.store) now id _ r refl h)

    by_found : (o : Option Cached × Resolver) → Found now id n.resolver o → Fine o
    by_found _ (hit e f s) = (ap ok (Entries-lookup (IsFresh n.store) id e n.resolver.cache c f), c)
    by_found _ miss = missed n.resolver c
    by_found _ expired =
        missed _
          (Entries-remove (IsFresh n.store) (IsFresh n.store) id n.resolver.cache (λ _ _ _ h. h) c)
