-- ===== src/Authz/Document.antt =====
-- pkg/authz/model_json.go: models as documents. A Go map is an association list; the text of an error
-- is its innermost one, without the places that wrap it.
pub mod Faithful
pub mod References
use workspace.Base.{
  ℕ, ◌+◌, String, Bool, true, false, not, ◌&&◌, ◌||◌, Option, none, some, [], ◌∷◌, ◌==◌,
  if◌then◌else◌, is_equal, Result, ok, err, and_then, Error, Dict, lookup,
}
use workspace.Authz.Model.{
  Rewrite, rewrite, Rewrites, Exclusion, this, union, intersection, exclusion, computed,
  tuple_to_userset, is_empty, Namespace, Model,
}

pub record TupleToUsersetDoc : Type 0 where
  pub tupleset : String
  pub computed : String

-- Go's `RewriteDoc`, with a field for each operator
mutual
  pub data RewriteDoc : Type 0 where
    rewrite_doc :
        (this : Bool) (computed : String) (pointer : Option TupleToUsersetDoc)
        (union intersection : ChildDocs) (exclusion : ExclusionDoc)
        → RewriteDoc

  -- a slice: nil, or a list that may be empty
  pub data ChildDocs : Type 0 where
    unset : ChildDocs
    children : RewriteDocs → ChildDocs

  pub data RewriteDocs : Type 0 where
    nil : RewriteDocs
    cons : RewriteDoc → RewriteDocs → RewriteDocs

  -- `*ExclusionDoc`
  pub data ExclusionDoc : Type 0 where
    absent : ExclusionDoc
    minus : (include exclude : RewriteDoc) → ExclusionDoc

abbrev pub NamespaceDoc : Type 0
NamespaceDoc = Dict RewriteDoc

abbrev pub ModelDoc : Type 0
ModelDoc = Dict NamespaceDoc

abbrev one_if : Bool → ℕ
one_if true = 1
one_if false = 0

abbrev has_pointer : Option TupleToUsersetDoc → Bool
has_pointer none = false
has_pointer (some _) = true

abbrev pub has_children : ChildDocs → Bool
has_children unset = false
has_children (children _) = true

abbrev has_exclusion : ExclusionDoc → Bool
has_exclusion absent = false
has_exclusion (minus _ _) = true

-- the count `set` of the operators that a document sets
unfoldable pub operators_set : RewriteDoc → ℕ
operators_set (rewrite_doc t c p us is x) =
    one_if t
    + one_if (not (c == ""))
    + one_if (has_pointer p)
    + one_if (has_children us)
    + one_if (has_children is)
    + one_if (has_exclusion x)

abbrev pub to_pointer : TupleToUsersetDoc → Result Rewrite
to_pointer d =
    if d.tupleset == "" || d.computed == ""
    then err (Error.failure "tupleToUserset requires tupleset and computed")
    else ok (tuple_to_userset d.tupleset d.computed)

-- `len(children) == 0` is an error
abbrev pub unless_empty : (Rewrites → Rewrite) → Rewrites → Result Rewrite
unless_empty node rs =
    if is_empty rs then err (Error.failure "requires at least one child") else ok (node rs)

-- the switch over the operators, whose default is the exclusion
abbrev pub choose :
    Bool
    → String
    → Option TupleToUsersetDoc
    → ChildDocs
    → ChildDocs
    → (to_union to_intersection to_exclusion : Result Rewrite) → Result Rewrite
choose t c p us is to_union to_intersection to_exclusion =
    if t then ok this else if not (c == "") then ok (computed c) else elim p [
      | some d ↦ to_pointer d
      | none ↦
          if has_children us
          then to_union
          else if has_children is
          then to_intersection
          else to_exclusion
    ]

unfoldable mutual
  unfolding operators_set

  pub to_rewrite : RewriteDoc → Result Rewrite
  to_rewrite (rewrite_doc t c p us is x) =
      if not (is_equal (operators_set (rewrite_doc t c p us is x)) 1)
      then err (Error.failure "rewrite must set exactly one operator")
      else choose t c p us is (and_then (to_children us) (unless_empty union))
          (and_then (to_children is) (unless_empty intersection)) (to_exclusion x)

  pub to_children : ChildDocs → Result Rewrites
  to_children unset = ok Rewrites.nil
  to_children (children ds) = to_rewrites ds

  pub to_rewrites : RewriteDocs → Result Rewrites
  to_rewrites nil = ok Rewrites.nil
  to_rewrites (cons d ds) =
      and_then (to_rewrite d) (λ r. and_then (to_rewrites ds) (λ rs. ok (Rewrites.cons r rs)))

  -- Go reads the exclusion of a document that has one
  pub to_exclusion : ExclusionDoc → Result Rewrite
  to_exclusion absent = err (Error.failure "nil exclusion")
  to_exclusion (minus include exclude) =
      and_then (to_rewrite include)
        (λ inc. and_then (to_rewrite exclude) (λ exc. ok (exclusion inc exc)))

-- the loop over the relations of a namespace
unfoldable pub to_namespace : NamespaceDoc → Result Namespace
unfolding to_rewrite
to_namespace [] = ok []
to_namespace ((rel, d) ∷ rels) =
    if rel == ""
    then err (Error.failure "empty relation name")
    else and_then (to_rewrite d) (λ rw'. and_then (to_namespace rels) (λ nm. ok ((rel, rw') ∷ nm)))

-- `ModelDoc.ToModel`
unfoldable pub to_model : ModelDoc → Result Model
unfolding to_namespace
to_model [] = ok []
to_model ((ns, rels) ∷ doc) =
    if ns == ""
    then err (Error.failure "model has an empty namespace name")
    else and_then (to_namespace rels) (λ nm. and_then (to_model doc) (λ m. ok ((ns, nm) ∷ m)))

abbrev pub direct_doc : RewriteDoc
direct_doc = rewrite_doc true "" none unset unset absent

abbrev pub computed_doc : String → RewriteDoc
computed_doc c = rewrite_doc false c none unset unset absent

abbrev pub pointer_doc : String → String → RewriteDoc
pointer_doc t c =
    rewrite_doc false "" (some (record { tupleset = t; computed = c })) unset unset absent

abbrev pub union_doc : RewriteDocs → RewriteDoc
union_doc ds = rewrite_doc false "" none (children ds) unset absent

abbrev pub intersection_doc : RewriteDocs → RewriteDoc
intersection_doc ds = rewrite_doc false "" none unset (children ds) absent

abbrev pub exclusion_doc : RewriteDoc → RewriteDoc → RewriteDoc
exclusion_doc inc exc = rewrite_doc false "" none unset unset (minus inc exc)

unfoldable mutual
  pub from_rewrite : Rewrite → RewriteDoc
  from_rewrite (rewrite us is x c t cr) =
      if not (is_empty us)
      then union_doc (from_rewrites us)
      else if not (is_empty is)
      then intersection_doc (from_rewrites is)
      else from_exclusion x (
          if not (c == "")
          then computed_doc c
          else if not (t == "")
          then pointer_doc t cr
          else direct_doc)

  pub from_rewrites : Rewrites → RewriteDocs
  from_rewrites Rewrites.nil = nil
  from_rewrites (Rewrites.cons r rs) = cons (from_rewrite r) (from_rewrites rs)

  -- `rw.Exclusion != nil`, and else the cases after it
  pub from_exclusion : Exclusion → RewriteDoc → RewriteDoc
  from_exclusion Exclusion.absent d = d
  from_exclusion (Exclusion.minus inc exc) d = exclusion_doc (from_rewrite inc) (from_rewrite exc)

unfoldable pub from_namespace : Namespace → NamespaceDoc
unfolding from_rewrite
from_namespace [] = []
from_namespace ((rel, rw') ∷ rels) = (rel, from_rewrite rw') ∷ from_namespace rels

-- `FromModel`
unfoldable pub from_model : Model → ModelDoc
unfolding from_namespace
from_model [] = []
from_model ((ns, rels) ∷ m) = (ns, from_namespace rels) ∷ from_model m

-- `ParseModel`, over what the JSON decoder makes of the data
unfoldable pub parse_model : {Data : Type 0} → (Data → Result ModelDoc) → Data → Result Model
unfolding to_model
parse_model decode data_ = and_then (decode data_) to_model

-- `MarshalModel`, over the JSON encoder
unfoldable pub marshal_model : {Data : Type 0} → (ModelDoc → Result Data) → Model → Result Data
unfolding from_model
marshal_model encode m = encode (from_model m)

-- a reference that is not empty must be declared
abbrev pub check_name : (String → Bool) → String → Result (Unit {0})
check_name declared name =
    if not (name == "") && not (declared name)
    then err (Error.failure "references undeclared relation")
    else ok tt

unfoldable mutual
  pub check_refs : (String → Bool) → Rewrite → Result (Unit {0})
  check_refs declared (rewrite us is x c t cr) = and_then (check_name declared c) λ _.
      and_then (check_name declared t) λ _.
        and_then (check_all_refs declared us)
          λ _. and_then (check_all_refs declared is) λ _. check_exclusion_refs declared x

  pub check_all_refs : (String → Bool) → Rewrites → Result (Unit {0})
  check_all_refs declared Rewrites.nil = ok tt
  check_all_refs declared (Rewrites.cons r rs) =
      and_then (check_refs declared r) λ _. check_all_refs declared rs

  pub check_exclusion_refs : (String → Bool) → Exclusion → Result (Unit {0})
  check_exclusion_refs declared Exclusion.absent = ok tt
  check_exclusion_refs declared (Exclusion.minus inc exc) =
      and_then (check_refs declared inc) λ _. check_refs declared exc

-- `declared[rel]`
abbrev pub declares : Namespace → String → Bool
declares rels rel = elim (lookup rel rels) [ none ↦ false | some _ ↦ true ]

-- the loop over the relations of a namespace
unfoldable pub check_namespace_refs : (String → Bool) → Namespace → Result (Unit {0})
unfolding check_refs
check_namespace_refs declared [] = ok tt
check_namespace_refs declared ((rel, rw') ∷ rels) =
    and_then (check_refs declared rw') λ _. check_namespace_refs declared rels

unfoldable pub validate_model_refs : Model → Result (Unit {0})
unfolding check_namespace_refs lookup
validate_model_refs [] = ok tt
validate_model_refs ((ns, rels) ∷ m) =
    and_then (check_namespace_refs (declares rels) rels) λ _. validate_model_refs m
