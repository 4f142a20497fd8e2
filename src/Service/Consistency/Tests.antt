-- ===== src/Service/Consistency/Tests.antt =====
-- The tokens at inputs of their own (internal/consistencytoken/token.go, internal/service/authz.go).
use workspace.Service.Consistency.Floor.{admits}
use workspace.Store.Keys.{scope}
use workspace.Authz.Model.{is_this, reads_stored_tuples}
use workspace.Base.{◌≡◌, refl, some, [], ◌∷◌, err, Error}
use workspace.Base.Int.{pos}
use workspace.Service.Tests.{service, caller, grant, inserted}
use workspace.Service.Consistency.{Wire, write_tuples_with_token, ensure_consistency}
use workspace.Service.Consistency.Floor.{ensure_consistency-write}
use workspace.Store.State.{Store, new_store}

-- a format for the tokens of one tenant at one sequence
abbrev wire : Wire
wire = record {
  marshal = λ t. t.project;
  unmarshal = λ s. some (record { project = s; tenant = "t"; seq = pos 1 });
  encode64 = λ s. s;
  decode64 = some;
}

-- the store after the first write, and a read of the same tenant and of another
abbrev after_write : Store
unfolding write_tuples_with_token
after_write =
    (write_tuples_with_token wire service caller (inserted (grant "workspace" "acme" "member") ∷ [])
      new_store).1

ensure_consistency-write_example :
    ensure_consistency wire caller "ct1.p" new_store ≡ (err Error.failed_precondition, new_store)
unfolding write_tuples_with_token reads_stored_tuples is_this new_store scope admits
ensure_consistency-write_example =
    ensure_consistency-write wire service caller caller
      (inserted (grant "workspace" "acme" "member") ∷ []) new_store new_store "ct1.p" refl
      (record { json = refl; base64 = refl }) refl
