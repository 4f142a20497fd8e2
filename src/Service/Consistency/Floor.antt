-- ===== src/Service/Consistency/Floor.antt =====
-- Which reads the token of a write admits (`EnsureConsistency` in internal/service/authz.go).
use Prim.Native.Char.{code}
use Prim.Native.String.{◌++◌}
use text.Mathlib.TextLemmas.{nil-append, cons-append}
use workspace.Base.{
  ℕ, String, ◌≡◌, refl, sym, ap, ◌∙◌, Bool, true, false, not, ◌&&◌, ◌||◌, none, some, List, ◌==◌,
  arith, eq_iff, is_equal, if◌then◌else◌, Result, ok, err, Error, ok-injective, ◌⊎◌, inl, inr,
  Bool-cases,
}
use workspace.Base.Int.{ℤ, pos, ltb_ℤ}
use workspace.Authz.State.{pure, raise, ◌>>=◌}
use workspace.Service.Access.{Principal, Service}
use workspace.Service.Tuples.{TupleOp, write_relation_tuples, admit_writes, inserts_of, deletes_of}
use workspace.Service.Consistency.{
  Token, Wire, token_prefix, cut_prefix, encode, or_malformed, decode, write_tuples_with_token,
  decode_argument, demand, ensure_consistency,
}
use workspace.Store.Keys.{scope}
use workspace.Store.State.{Store}
use workspace.Store.Tuples.{consistency_token, sequence, write_tuples_locked}

cut_prefix-append : (p s : String) → cut_prefix p (p ++ s) ≡ some s
unfolding cut_prefix
cut_prefix-append String.[] s = ap some (nil-append s)
cut_prefix-append (String.◌∷◌ c p) s = rw (cons-append) (same (code c) (cut_prefix-append p s))
  where
    same :
        (n : ℕ)
        → cut_prefix p (p ++ s) ≡ some s
        → (if is_equal n n then cut_prefix p (p ++ s) else none) ≡ some s
    same n h = ground (arith, h)

-- What the two libraries do with a token that they have written.
pub record Reads (wire : Wire) (t : Token) : Type 0 where
  pub json : wire.unmarshal (wire.marshal t) ≡ some t
  pub base64 : wire.decode64 (wire.encode64 (wire.marshal t)) ≡ some (wire.marshal t)

-- A token is read back as it was written, if its sequence is not negative and the JSON and base64
-- libraries read it back as they wrote it.
pub decode-encode :
    (wire : Wire) (t : Token)
    → Reads wire t
    → ltb_ℤ t.seq (pos 0) ≡ false
    → decode wire (encode wire t) ≡ ok t
unfolding decode encode or_malformed
decode-encode wire t reads natural = rw (
  cut_prefix-append token_prefix (wire.encode64 (wire.marshal t)),
  reads.base64,
  reads.json,
  natural,
)

encode-nonempty : (wire : Wire) (t : Token) → (encode wire t == "") ≡ false
unfolding encode cut_prefix
encode-nonempty wire t = by_test (Bool-cases (encode wire t == ""))
  where
    by_test :
        ((encode wire t == "") ≡ true) ⊎ ((encode wire t == "") ≡ false)
        → (encode wire t == "") ≡ false
    by_test (inr e) = e
    by_test (inl e) =
        let empty : token_prefix ++ wire.encode64 (wire.marshal t) ≡ "" =
          (eq_iff (token_prefix ++ wire.encode64 (wire.marshal t)) "").0 e in
        let found : none ≡ some (wire.encode64 (wire.marshal t)) =
          sym (ap (cut_prefix token_prefix) empty)
          ∙ cut_prefix-append token_prefix (wire.encode64 (wire.marshal t)) in
        absurd (cc)

argument-encode :
    (wire : Wire) (t : Token)
    → Reads wire t
    → ltb_ℤ t.seq (pos 0) ≡ false
    → decode_argument wire (encode wire t) ≡ ok t
unfolding decode_argument
argument-encode wire t reads natural =
    ap (λ (r : Result Token). elim r [ ok t ↦ ok t | err _ ↦ err Error.invalid_argument ])
      (decode-encode wire t reads natural)

-- a token that is read back is demanded as it stands
ensure-encode :
    (wire : Wire) (t : Token) (p : Principal) (st : Store)
    → Reads wire t
    → ltb_ℤ t.seq (pos 0) ≡ false
    → ensure_consistency wire p (encode wire t) st ≡ demand p t st
unfolding ensure_consistency
ensure-encode wire t p st reads natural =
    rw (encode-nonempty wire t, argument-encode wire t reads natural)

-- what a reader's project and tenant, and the sequence of the store, make of a demand
unfoldable pub admits : (is_same is_behind : Bool) → Result (Unit {0})
admits false is_behind = err Error.invalid_argument
admits true true = err Error.failed_precondition
admits true false = ok tt

demand-admits :
    (p : Principal) (t : Token) (st : Store)
    → demand p t st ≡ (
      admits
          (t.project == p.project_id && t.tenant == p.tenant_id)
          (ltb_ℤ (sequence (scope p.project_id p.tenant_id) st) t.seq),
      st,
    )
unfolding demand consistency_token admits
demand-admits p t st = by_place (t.project == p.project_id) (t.tenant == p.tenant_id)
  where
    behind : Bool
    behind = ltb_ℤ (sequence (scope p.project_id p.tenant_id) st) t.seq

    by_sequence :
        (c : Bool)
        → (if c then raise Error.failed_precondition else pure tt) st ≡ (admits true c, st)
    by_sequence true = refl
    by_sequence false = refl

    by_place :
        (a b : Bool)
        → (if not a || not b
              then raise Error.invalid_argument
              else consistency_token p.project_id p.tenant_id >>= λ current.
                  if ltb_ℤ current t.seq then raise Error.failed_precondition else pure tt)
            st
          ≡ (admits (a && b) behind, st)
    by_place true true = by_sequence behind
    by_place true false = refl
    by_place false b = refl

-- what a write that answers has left
written :
    (wire : Wire) (sv : Service) (p : Principal) (ops : List TupleOp) (st : Store) (token : String)
    → (write_tuples_with_token wire sv p ops st).0 ≡ ok token
    → token
      ≡ encode wire (record {
        project = p.project_id;
        tenant = p.tenant_id;
        seq =
            sequence (scope p.project_id p.tenant_id) (write_tuples_with_token wire sv p ops st).1;
      })
unfolding write_tuples_with_token write_relation_tuples
written wire sv p ops st token h = by_admission (admit_writes sv p ops) h
  where
    after : Store
    after = write_tuples_locked p.project_id p.tenant_id (inserts_of ops) (deletes_of ops) st

    outcome : Result (Unit {0}) → Result ℤ × Store
    outcome r = elim r [
      | err x ↦ (err x, st)
      | ok _ ↦ (ok (sequence (scope p.project_id p.tenant_id) after), after)
    ]

    by_admission :
        (r : Result (Unit {0}))
        → (((λ _. outcome r) >>= λ seq.
              pure
                (encode wire (record { project = p.project_id; tenant = p.tenant_id; seq = seq })))
            st).0
          ≡ ok token
        → token
          ≡ encode wire (record {
            project = p.project_id;
            tenant = p.tenant_id;
            seq =
                sequence
                  (scope p.project_id p.tenant_id)
                  (((λ _. outcome r) >>= λ seq. pure (
                      encode wire
                        (record { project = p.project_id; tenant = p.tenant_id; seq = seq })))
                    st).1;
          })
    by_admission (err x) h = absurd (cc)
    by_admission (ok _) h = sym (ok-injective h)

-- The token of a write is the floor of the reads that carry it: if a write of tuples answers with a
-- token, whose sequence is not negative and which the libraries read back as they wrote it, then a
-- later read with it, in any store, passes exactly if it is in the write's project and tenant and the
-- store's sequence has not fallen behind the one that the write left; a read of another project or
-- tenant is an invalid argument, and a store that is behind fails the precondition.
pub ensure_consistency-write :
    (wire : Wire) (sv : Service) (p reader : Principal) (ops : List TupleOp) (st later : Store)
    (token : String)
    → (write_tuples_with_token wire sv p ops st).0 ≡ ok token
    → Reads wire (record {
      project = p.project_id;
      tenant = p.tenant_id;
      seq = sequence (scope p.project_id p.tenant_id) (write_tuples_with_token wire sv p ops st).1;
    })
    → ltb_ℤ
        (sequence (scope p.project_id p.tenant_id) (write_tuples_with_token wire sv p ops st).1)
        (pos 0)
      ≡ false
    → ensure_consistency wire reader token later ≡ (
      admits (p.project_id == reader.project_id && p.tenant_id == reader.tenant_id) (
          ltb_ℤ (sequence (scope reader.project_id reader.tenant_id) later) (
            sequence
              (scope p.project_id p.tenant_id)
              (write_tuples_with_token wire sv p ops st).1)),
      later,
    )
ensure_consistency-write wire sv p reader ops st later token answers reads natural =
    ap (λ x. ensure_consistency wire reader x later) (written wire sv p ops st token answers)
    ∙ ensure-encode wire _ reader later reads natural
    ∙ demand-admits reader _ later
