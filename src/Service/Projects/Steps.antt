-- ===== src/Service/Projects/Steps.antt =====
-- The requests on projects and the resolutions of a process, in any order
-- (internal/service/projects.go).
use workspace.Base.{ℕ, String, ◌≡◌, Option, ok, lookup}
use workspace.Base.Int.{ℤ}
use workspace.Authz.Model.{Model}
use workspace.Service.Resolver.{Node, resolution, resolve}
use workspace.Service.Resolver.Fresh.{resolve-fresh}
use workspace.Service.Resolver.Size.{resolve-Sized}
use workspace.Service.Projects.{
  ModelJson, Patch, register_project, patch_project, ensure_default_project,
}
use workspace.Service.Projects.Requests.{
  Tidy, register_project-Keeps, patch_project-Keeps, ensure_default_project-Keeps,
}

-- A resolution of a project, or a request that writes one.
pub data ProjectRequest : Type 0 where
  look_up : (id : String) → ProjectRequest
  register : (id name region : String) → Option Model → ℤ → ProjectRequest
  patch : (id : String) → Patch → ProjectRequest
  boot : (region id : String) → ProjectRequest

unfoldable pub serve_project : ModelJson → ℕ → ProjectRequest → Node → Node
unfolding resolve register_project patch_project ensure_default_project
serve_project json now (ProjectRequest.look_up id) n = (resolve now id n).1
serve_project json now (ProjectRequest.register id name region model reads) n =
    (register_project json now id name region model reads n).1
serve_project json now (ProjectRequest.patch id c) n = (patch_project json now id c n).1
serve_project json now (ProjectRequest.boot region id) n =
    (ensure_default_project json now region id n).1

pub data Run (json : ModelJson) : Node → Node → Type 0 where
  done : {n : Node} → Run json n n
  also :
      {n n' : Node} (now : ℕ) (r : ProjectRequest)
      → Run json (serve_project json now r n) n'
      → Run json n n'

serve_project-Tidy :
    (json : ModelJson) (now : ℕ) (r : ProjectRequest) (n : Node)
    → Tidy n
    → Tidy (serve_project json now r n)
unfolding serve_project
serve_project-Tidy json now (ProjectRequest.look_up id) n h =
    (resolve-Sized now id n h.0, (resolve-fresh now id n h.1).1)
serve_project-Tidy json now (ProjectRequest.register id name region model reads) n h =
    register_project-Keeps json now n h id name region model reads
serve_project-Tidy json now (ProjectRequest.patch id c) n h = patch_project-Keeps json now n h id c
serve_project-Tidy json now (ProjectRequest.boot region id) n h =
    ensure_default_project-Keeps json now n h region id

-- In one process no resolution is out of date, and the cache is bounded: if the cache has a cap of at
-- least one entry and is within it, and each entry is what its project's row resolves to, then so it
-- is after any sequence of resolutions, creations, updates and boots, served one after the other,
-- whatever each of them answers, whichever entries expire and whichever are evicted; and a resolution
-- that follows answers what the project's row in the store then resolves to.
pub Run-Tidy :
    (json : ModelJson) {n n' : Node} (now : ℕ) (id : String)
    → Run json n n'
    → Tidy n
    → Tidy n' × ((resolve now id n').0 ≡ ok (resolution (lookup id n'.store.projects)))
Run-Tidy json now id (done {n}) h = (h, (resolve-fresh now id n h.1).0)
Run-Tidy json {n} now id (also at r rest) h =
    Run-Tidy json now id rest (serve_project-Tidy json at r n h)
