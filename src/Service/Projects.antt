-- ===== src/Service/Projects.antt =====
-- internal/service/projects.go: the requests on projects. The JSON of a model is an argument, and the
-- records of the changes are left out.
pub mod Requests
pub mod Steps
pub mod Tests
use Prim.Native.Char.{code}
use Prim.Native.String.{len}
use workspace.Base.{
  ℕ, String, Bool, true, false, not, ◌&&◌, ◌||◌, Option, none, some, List, [], ◌∷◌, ◌==◌, ltb,
  is_equal, if◌then◌else◌, Result, ok, err, Error, and_then,
}
use workspace.Base.Int.{ℤ, pos, ltb_ℤ, is_positive}
use workspace.Authz.Model.{Model}
use workspace.Authz.Document.{ModelDoc, parse_model, marshal_model, validate_model_refs}
use workspace.Authz.State.{pure, raise, lift, Action, ◌>>=◌, ◌>>◌}
use workspace.Service.Types.{Project}
use workspace.Service.Access.{attempt, is_not_found, is_already_exists, find_row}
use workspace.Service.Tuples.{has_control_char}
use workspace.Service.Resolver.{Node, project_active, project_suspended, invalidate}
use workspace.Store.State.{Store, Op}
use workspace.Store.Workspaces.{create_project, get_project, update_project, list_projects}

-- encoding/json on the document of a model
pub record ModelJson : Type 0 where
  pub encode : ModelDoc → Result String
  pub decode : String → Result ModelDoc

-- an error of any kind is an invalid argument
unfoldable pub as_argument : {A : Type 0} → Result A → Result A
as_argument (ok a) = ok a
as_argument (err _) = err Error.invalid_argument

-- `validateModel`
unfoldable pub validate_model : ModelJson → Option Model → Result (Unit {0})
unfolding as_argument marshal_model parse_model validate_model_refs
validate_model json none = ok tt
validate_model json (some []) = ok tt
validate_model json (some (ns ∷ m)) =
    and_then (as_argument (marshal_model json.encode (ns ∷ m))) λ data_.
      and_then (as_argument (parse_model json.decode data_))
        λ _. as_argument (validate_model_refs (ns ∷ m))

abbrev pub max_data_region_len : ℕ
max_data_region_len = 64

abbrev pub is_region_char : ℕ → Bool
is_region_char c =
    not (ltb c b'a') && not (ltb b'z' c)
    || not (ltb c b'0') && not (ltb b'9' c)
    || is_equal c b'-'
    || is_equal c b'_'

unfoldable pub all_region_chars : String → Bool
all_region_chars String.[] = true
all_region_chars (String.◌∷◌ c s) = is_region_char (code c) && all_region_chars s

unfoldable pub validate_region : String → Result (Unit {0})
unfolding all_region_chars
validate_region region =
    if region == ""
    then ok tt
    else if ltb max_data_region_len (len region)
    then err Error.invalid_argument
    else if all_region_chars region
    then ok tt
    else err Error.invalid_argument

abbrev pub min_max_check_reads : ℤ
min_max_check_reads = pos 100

unfoldable pub validate_max_check_reads : ℤ → Result (Unit {0})
validate_max_check_reads n =
    if is_positive n && ltb_ℤ n min_max_check_reads then err Error.invalid_argument else ok tt

-- an operation of the store, in a process
abbrev pub on_store : {A : Type 0} → Op A → Action Node A
on_store op n = let (r, st) = op n.store in (r, record n { store = st })

unfoldable pub invalidated : String → Action Node (Unit {0})
unfolding invalidate
invalidated id n = (ok tt, record n { resolver = invalidate id n.resolver })

-- the row is written, and the process forgets what it has cached of the project
unfoldable pub put_project : Op (Unit {0}) → Project → Action Node Project
unfolding invalidated
put_project write p = on_store write >> invalidated p.id >> pure p

unfoldable pub validate_project :
    ModelJson → (id region : String) → Option Model → ℤ → Result (Unit {0})
unfolding has_control_char validate_model validate_region validate_max_check_reads
validate_project json id region model max_check_reads =
    if id == ""
    then err Error.invalid_argument
    else if has_control_char id
    then err Error.invalid_argument
    else and_then (validate_model json model)
        λ _. and_then (validate_region region) λ _. validate_max_check_reads max_check_reads

unfoldable pub new_project : ℕ → (id name region : String) → Option Model → ℤ → Project
new_project now id name region model max_check_reads = record {
  id = id;
  name = name;
  status = project_active;
  model = model;
  data_region = region;
  max_check_reads = max_check_reads;
  created_at = now;
  updated_at = now;
}

-- `Service.CreateProject`
unfoldable pub register_project :
    ModelJson → ℕ → (id name region : String) → Option Model → ℤ → Action Node Project
unfolding validate_project create_project new_project put_project
register_project json now id name region model max_check_reads =
    lift (validate_project json id region model max_check_reads)
    >> put_project (create_project (new_project now id name region model max_check_reads))
        (new_project now id name region model max_check_reads)

-- what a request changes; an empty field leaves its own unchanged
pub record Patch : Type 0 where
  pub name : String
  pub status : String
  pub model : Option Model
  pub data_region : String
  pub clear_region : Bool
  pub max_check_reads : ℤ
  pub clear_budget : Bool

unfoldable pub validate_patch : ModelJson → String → Patch → Result (Unit {0})
unfolding has_control_char validate_model validate_region validate_max_check_reads
validate_patch json id c =
    if id == ""
    then err Error.invalid_argument
    else if has_control_char id
    then err Error.invalid_argument
    else if not (c.status == "")
        && not (c.status == project_active)
        && not (c.status == project_suspended)
    then err Error.invalid_argument
    else and_then (validate_model json c.model) λ _. and_then (validate_region c.data_region) λ _.
      if c.clear_region && not (c.data_region == "")
      then err Error.invalid_argument
      else and_then (validate_max_check_reads c.max_check_reads) λ _.
        if c.clear_budget && is_positive c.max_check_reads
        then err Error.invalid_argument
        else ok tt

abbrev pub patched_model : Option Model → Option Model → Option Model
patched_model none old = old
patched_model (some []) old = old
patched_model (some (ns ∷ m)) old = some (ns ∷ m)

unfoldable pub patched : ℕ → Patch → Project → Project
patched now c p = record p {
  name = if c.name == "" then p.name else c.name;
  status = if c.status == "" then p.status else c.status;
  model = patched_model c.model p.model;
  data_region =
      if c.clear_region then "" else if c.data_region == "" then p.data_region else c.data_region;
  max_check_reads =
      if c.clear_budget
      then pos 0
      else if is_positive c.max_check_reads
      then c.max_check_reads
      else p.max_check_reads;
  updated_at = now;
}

-- `Service.UpdateProject`
unfoldable pub patch_project : ModelJson → ℕ → String → Patch → Action Node Project
unfolding validate_patch get_project update_project patched put_project
patch_project json now id c = lift (validate_patch json id c) >> on_store (get_project id) >>= λ p.
    put_project (update_project (patched now c p)) (patched now c p)

unfoldable pub view_project : String → Op Project
unfolding get_project
view_project id = if id == "" then raise Error.invalid_argument else get_project id

-- the default project that is there must be one that this instance serves
unfoldable pub boot_region : (region : String) → Project → Result (Unit {0})
boot_region region p =
    if not (region == "") && not (p.data_region == "") && not (p.data_region == region)
    then err Error.failed_precondition
    else ok tt

unfoldable pub seeded : Result Project → Result (Unit {0})
unfolding is_already_exists
seeded (ok _) = ok tt
seeded (err e) = if is_already_exists e then ok tt else err e

unfoldable pub seed : ModelJson → ℕ → String → Action Node (Unit {0})
unfolding register_project seeded
seed json now id n =
    let (r, n') = register_project json now id "Default" "" none (pos 0) n in (seeded r, n')

unfoldable pub seed_if_missing :
    ModelJson → ℕ → (region id : String) → Option Project → Action Node (Unit {0})
unfolding boot_region seed
seed_if_missing json now region id (some p) = lift (boot_region region p)
seed_if_missing json now region id none = seed json now id

-- `Service.EnsureDefaultProject`
unfoldable pub ensure_default_project :
    ModelJson → ℕ → (region id : String) → Action Node (Unit {0})
unfolding find_row get_project seed_if_missing
ensure_default_project json now region id =
    if id == ""
    then pure tt
    else on_store (find_row (get_project id)) >>= seed_if_missing json now region id
