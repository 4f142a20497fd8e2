-- ===== src/Service/Projects/Tests.antt =====
-- Projects and their resolution at inputs of their own (internal/service/projects.go).
use workspace.Base.{[], ◌∷◌, ◌≡◌, arith, refl, true, false, none, ok, err, Error, lookup}
use workspace.Base.Int.{pos}
use workspace.Service.Resolver.{Node, new_model_resolver, resolution, resolve}
use workspace.Service.Resolver.Age
use workspace.Service.Resolver.Age.{Recent, resolve-age}
use workspace.Service.Projects.{ModelJson, Patch}
use workspace.Service.Projects.Requests.{Tidy}
use workspace.Service.Projects.Steps.{ProjectRequest, serve_project, Run, Run-Tidy}
use workspace.Store.State.{new_store}

abbrev json : ModelJson
json = record { encode = λ d. err Error.not_found; decode = λ s. err Error.not_found }

abbrev booted : Node
booted = record { store = new_store; resolver = new_model_resolver }

abbrev suspend : Patch
suspend = record {
  name = "";
  status = "suspended";
  model = none;
  data_region = "";
  clear_region = false;
  max_check_reads = pos 0;
  clear_budget = false;
}

-- a project is created, resolved, and suspended
abbrev closed : Node
closed = serve_project json 3 (ProjectRequest.patch "p" suspend) (
    serve_project json 2 (ProjectRequest.look_up "p")
      (serve_project json 1 (ProjectRequest.register "p" "P" "" none (pos 0)) booted))

Run-Tidy_example :
    Tidy closed × ((resolve 4 "p" closed).0 ≡ ok (resolution (lookup "p" closed.store.projects)))
unfolding new_model_resolver
Run-Tidy_example =
    Run-Tidy json 4 "p"
      (Run.also 1 (ProjectRequest.register "p" "P" "" none (pos 0)) (
        Run.also 2 (ProjectRequest.look_up "p")
          (Run.also 3 (ProjectRequest.patch "p" suspend) Run.done)))
      (record { some_room = omega arith; within = omega arith }, tt)

-- the suspension is seen at once
suspended_at_once :
    (resolve 4 "p" closed).0
    ≡ ok (record { model = none; suspended = true; data_region = ""; max_check_reads = pos 0 })
unfolding resolve serve_project new_store new_model_resolver
suspended_at_once = refl

-- what p was created as is answered for the rest of the TTL, after another process suspended it
abbrev created : Node
created = serve_project json 1 (ProjectRequest.register "p" "P" "" none (pos 0)) booted

abbrev cached : Node
cached = (resolve 2 "p" (record booted { store = created.store })).1

abbrev stale_node : Node
stale_node = record cached { store = closed.store }

still_active :
    ((resolve 30000000002 "p" stale_node).0
      ≡ ok (record { model = none; suspended = false; data_region = ""; max_check_reads = pos 0 }))
    × ((resolve 30000000003 "p" stale_node).0
        ≡ ok (record { model = none; suspended = true; data_region = ""; max_check_reads = pos 0 }))
unfolding resolve serve_project new_store new_model_resolver
still_active = (refl, refl)

resolve-age_example :
    Recent 30000000002
      ((30000000002, closed.store) ∷ (2, created.store) ∷ (1, new_store) ∷ [])
      "p"
      (resolve 30000000002 "p" stale_node).0
resolve-age_example = resolve-age "p" (
    Age.Run.moved 30000000002 closed.store (omega arith) (
      Age.Run.resolved "p"
        (Age.Run.moved 2 created.store (omega arith) (Age.Run.started 1 new_store))))
