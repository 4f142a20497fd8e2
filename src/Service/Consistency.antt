-- ===== src/Service/Consistency.antt =====
-- internal/consistencytoken/token.go, and its use in internal/service/authz.go: the token of a write,
-- and the floor that it sets for a read. encoding/json and encoding/base64 are a parameter.
pub mod Floor
pub mod Tests
use Prim.Native.Char.{code}
use Prim.Native.String.{◌++◌}
use workspace.Base.{
  ℕ, String, Bool, true, false, not, ◌||◌, Option, none, some, List, ◌==◌, is_equal, if◌then◌else◌,
  Result, ok, err, Error, and_then,
}
use workspace.Base.Int.{ℤ, pos, ltb_ℤ}
use workspace.Authz.State.{pure, raise, lift, ◌>>=◌, ◌>>◌}
use workspace.Service.Access.{Principal, Service}
use workspace.Service.Tuples.{TupleOp, write_relation_tuples}
use workspace.Store.State.{Op}
use workspace.Store.Tuples.{consistency_token}

pub record Token : Type 0 where
  pub project : String
  pub tenant : String
  pub seq : ℤ

-- json.Marshal and the strict decoder, base64.RawURLEncoding
pub record Wire : Type 0 where
  pub marshal : Token → String
  pub unmarshal : String → Option Token
  pub encode64 : String → String
  pub decode64 : String → Option String

abbrev pub token_prefix : String
token_prefix = "ct1."

-- `strings.CutPrefix`
unfoldable pub cut_prefix : String → String → Option String
cut_prefix String.[] s = some s
cut_prefix (String.◌∷◌ c p) String.[] = none
cut_prefix (String.◌∷◌ c p) (String.◌∷◌ d s) =
    let rest = cut_prefix p s in if is_equal (code c) (code d) then rest else none

unfoldable pub encode : Wire → Token → String
encode wire t = token_prefix ++ wire.encode64 (wire.marshal t)

-- `ErrMalformed` for what is no token
unfoldable pub or_malformed : {A : Type 0} → Option A → Result A
or_malformed none = err (Error.failure "malformed consistency token")
or_malformed (some a) = ok a

unfoldable pub decode : Wire → String → Result Token
unfolding or_malformed cut_prefix
decode wire s = and_then (or_malformed (cut_prefix token_prefix s)) λ rest.
    and_then (or_malformed (wire.decode64 rest)) λ raw.
      and_then (or_malformed (wire.unmarshal raw))
        λ t. if ltb_ℤ t.seq (pos 0) then err (Error.failure "malformed consistency token") else ok t

-- `Service.WriteTuples`
unfoldable pub write_tuples_with_token : Wire → Service → Principal → List TupleOp → Op String
unfolding write_relation_tuples encode
write_tuples_with_token wire sv p ops = write_relation_tuples sv p ops >>= λ seq.
    pure (encode wire (record { project = p.project_id; tenant = p.tenant_id; seq = seq }))

-- an error of the decoder is an invalid argument
unfoldable pub decode_argument : Wire → String → Result Token
unfolding decode
decode_argument wire token = elim (decode wire token) [
  | ok t ↦ ok t
  | err _ ↦ err Error.invalid_argument
]

unfoldable pub demand : Principal → Token → Op (Unit {0})
unfolding consistency_token
demand p t =
    if not (t.project == p.project_id) || not (t.tenant == p.tenant_id)
    then raise Error.invalid_argument
    else consistency_token p.project_id p.tenant_id >>= λ current.
        if ltb_ℤ current t.seq then raise Error.failed_precondition else pure tt

-- `Service.EnsureConsistency`
unfoldable pub ensure_consistency : Wire → Principal → String → Op (Unit {0})
unfolding decode_argument demand
ensure_consistency wire p token =
    if token == "" then pure tt else lift (decode_argument wire token) >>= demand p
