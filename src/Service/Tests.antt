-- ===== src/Service/Tests.antt =====
-- The services at inputs of their own (internal/service/authz.go).
use workspace.Base.{
  String, ◌≡◌, refl, true, false, none, [], ◌∷◌, ok, err, Error, lookup, ◌==◌, if◌then◌else◌,
}
use workspace.Base.Int.{pos}
use workspace.Base.Tables.{has, shard}
use workspace.Authz.Model.{Subject, Tuple, reads_stored_tuples, is_this}
use workspace.Authz.Tests.Store.{library}
use workspace.Store.Keys.{scope, tuple_key}
use workspace.Store.State.{Store, new_store}
use workspace.Store.Seats.{seats_of}
use workspace.Service.Access.{Principal, Service, Resolved}
use workspace.Service.Tuples.{TupleOp, write_relation_tuples}
use workspace.Service.Seats.{seat_tuple, assign_seat}
use workspace.Service.Seats.Agree.{Agrees}
use workspace.Service.Seats.Steps.{assigned, written, done, also, Steps-Agrees}
use workspace.Service.Tuples.Reserved.{write_relation_tuples-seats}

abbrev pub resolved : Resolved
resolved = record { model = none; suspended = false; data_region = "eu"; max_check_reads = pos 0 }

abbrev pub service : Service
service = record {
  library = library;
  to_lower = λ s. s;
  resolve = λ project. if project == "p" then ok resolved else err Error.not_found;
  data_region = "eu";
  max_list_objects = pos 1000;
  max_expand_nodes = pos 10000;
  max_check_reads = pos 5000;
}

abbrev pub caller : Principal
caller = record { user_id = "ann"; project_id = "p"; tenant_id = "t"; caller = "backend" }

abbrev ann : Subject
ann = record { user_id = "ann"; set = none; wildcard = false; condition = none }

abbrev pub grant : String → String → String → Tuple
grant namespace object relation = record {
  namespace = namespace;
  object_id = object;
  relation = relation;
  subject = ann;
  expires_at = none;
}

abbrev pub inserted : Tuple → TupleOp
inserted t = record { is_delete = false; tuple = t }

-- a member is written, a seat and an unknown project are refused
member_written :
    (write_relation_tuples service caller
      (inserted (grant "workspace" "acme" "member") ∷ [])
      new_store).0
    ≡ ok (pos 1)
unfolding write_relation_tuples new_store reads_stored_tuples is_this scope
member_written = refl

seat_refused :
    (write_relation_tuples service caller (inserted (grant "seat" "pro" "holder") ∷ []) new_store).0
    ≡ err Error.invalid_argument
unfolding write_relation_tuples new_store scope tuple_key
seat_refused = refl

write_relation_tuples-seats_example :
    lookup (tuple_key (grant "seat" "pro" "holder")) (
      shard "p"
        (write_relation_tuples service caller
          (inserted (grant "workspace" "acme" "member") ∷ [])
          new_store).1.tuples)
    ≡ lookup (tuple_key (grant "seat" "pro" "holder")) (shard "p" new_store.tuples)
write_relation_tuples-seats_example =
    write_relation_tuples-seats service caller (inserted (grant "workspace" "acme" "member") ∷ [])
      new_store "p" (grant "seat" "pro" "holder") refl

-- a seat is assigned, and then a member is written
abbrev seated : Store
unfolding assign_seat
seated = (assign_seat service 7 caller "pro" "ann" new_store).1

holds_seat : has "ann" (seats_of (scope "p" "t") "pro" seated) ≡ true
unfolding assign_seat new_store scope lookup shard
holds_seat = refl

none_seated : Agrees (scope "p" "t") new_store
unfolding new_store tuple_key shard
none_seated sku user = refl

Steps-Agrees_example :
    has "ann" (
      seats_of
        (scope "p" "t")
        "pro"
        (write_relation_tuples service caller
          (inserted (grant "workspace" "acme" "member") ∷ [])
          seated).1)
    ≡ has (tuple_key (seat_tuple "pro" "ann")) (
        shard
          (scope "p" "t")
          (write_relation_tuples service caller
            (inserted (grant "workspace" "acme" "member") ∷ [])
            seated).1.tuples)
unfolding assign_seat
Steps-Agrees_example =
    Steps-Agrees (scope "p" "t")
      (also (assigned service 7 caller "pro" "ann")
        (also (written service caller (inserted (grant "workspace" "acme" "member") ∷ [])) done))
      none_seated "pro" "ann"
