-- ===== src/Service/Resolver.antt =====
-- internal/service/projects.go: the resolver of projects and its cache, in one process. Its lock and
-- the single flight leave one resolution of a project at a time. A range over the cache takes the
-- order of first insertion, and a call reads the clock once.
pub mod Size
pub mod Entries
pub mod Fresh
pub mod Age
use workspace.Base.{
  ℕ, ◌+◌, ◌*◌, String, Bool, true, false, not, Option, none, some, List, [], ◌∷◌, ◌==◌, ltb, length,
  if◌then◌else◌, Result, ok, err, Error, Dict, lookup,
}
use workspace.Base.Int.{pos}
use workspace.Base.Tables.{put, remove, retain}
use workspace.Authz.Model.{Model, Namespace, default_model}
use workspace.Authz.State.{pure, ◌>>=◌, Action}
use workspace.Service.Types.{Project}
use workspace.Service.Access.{Resolved, find_row}
use workspace.Store.State.{Store, Op}
use workspace.Store.Workspaces.{get_project}

abbrev pub project_active : String
project_active = "active"

abbrev pub project_suspended : String
project_suspended = "suspended"

-- a resolution, and the instant of its load
pub record Cached : Type 0 where
  pub answer : Resolved
  pub at : ℕ

pub record Resolver : Type 0 where
  pub ttl : ℕ
  pub max : ℕ
  pub cache : Dict Cached

abbrev pub resolver_ttl : ℕ
resolver_ttl = 30 * 1000000000

abbrev pub resolver_max_entries : ℕ
resolver_max_entries = 4096

unfoldable pub new_model_resolver : Resolver
new_model_resolver = record { ttl = resolver_ttl; max = resolver_max_entries; cache = [] }

-- the loop over the namespaces of a project
unfoldable pub overlay : Model → Model → Model
unfolding put
overlay m [] = m
overlay m ((ns, rels) ∷ rest) = overlay (put ns rels m) rest

-- no namespace of its own means the default model
unfoldable pub own_model : Option Model → Option Model
unfolding overlay default_model
own_model none = none
own_model (some []) = none
own_model (some (ns ∷ rest)) = some (overlay default_model (ns ∷ rest))

-- a project that is not there resolves like one without a model
unfoldable pub resolution : Option Project → Resolved
unfolding own_model
resolution none = record {
  model = none;
  suspended = false;
  data_region = "";
  max_check_reads = pos 0;
}
resolution (some p) = record {
  model = own_model p.model;
  suspended = p.status == project_suspended;
  data_region = p.data_region;
  max_check_reads = p.max_check_reads;
}

unfoldable pub load : ℕ → String → Op Cached
unfolding find_row get_project resolution
load now id = find_row (get_project id) >>= λ o. pure (record { answer = resolution o; at = now })

-- `r.now().Sub(e.at) > r.ttl`
unfoldable pub is_stale : ℕ → ℕ → Cached → Bool
is_stale ttl now e = ltb (e.at + ttl) now

-- `lookup`, which drops an entry that it finds stale
unfoldable pub lookup_cached : ℕ → String → Resolver → Option Cached × Resolver
unfolding is_stale remove lookup
lookup_cached now id r = elim (lookup id r.cache) [
  | none ↦ (none, r)
  | some e ↦
      if is_stale r.ttl now e then (none, record r { cache = remove id r.cache }) else (some e, r)
]

-- the second loop of `evictLocked`
unfoldable pub drop_until : ℕ → Dict Cached → Dict Cached
drop_until max [] = []
drop_until max (e ∷ m) =
    let rest = drop_until max m in if ltb (length (e ∷ m)) max then e ∷ m else rest

unfoldable pub evict : ℕ → Resolver → Dict Cached
unfolding drop_until retain is_stale
evict now r = drop_until r.max (retain (λ e. not (is_stale r.ttl now e)) r.cache)

-- `store`
unfoldable pub store_cached : ℕ → String → Cached → Resolver → Resolver
unfolding put evict
store_cached now id e r = record r {
  cache = put id e (if ltb (length r.cache) r.max then r.cache else evict now r);
}

unfoldable pub invalidate : String → Resolver → Resolver
unfolding remove
invalidate id r = record r { cache = remove id r.cache }

-- a process: the store and its resolver
pub record Node : Type 0 where
  pub store : Store
  pub resolver : Resolver

-- what a miss makes of the load
unfoldable pub cache_load : ℕ → String → Node → Result Cached × Store → Result Resolved × Node
unfolding store_cached
cache_load now id n (ok e, st) =
    (ok e.answer, record { store = st; resolver = store_cached now id e n.resolver })
cache_load now id n (err x, st) = (err x, record n { store = st })

unfoldable pub resolve_from : ℕ → String → Store → Option Cached × Resolver → Result Resolved × Node
unfolding cache_load load
resolve_from now id st (some e, r) = (ok e.answer, record { store = st; resolver = r })
resolve_from now id st (none, r) =
    cache_load now id (record { store = st; resolver = r }) (load now id st)

-- `modelResolver.resolve`
unfoldable pub resolve : ℕ → String → Action Node Resolved
unfolding resolve_from lookup_cached
resolve now id n = resolve_from now id n.store (lookup_cached now id n.resolver)
