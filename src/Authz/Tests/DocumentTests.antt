-- ===== src/Authz/Tests/DocumentTests.antt =====
-- Model documents (pkg/authz/model_json.go): one that is accepted, and some that are refused.
use workspace.Base.{◌≡◌, refl, true, none, some, [], ◌∷◌, ok, err, Error, lookup}
use workspace.Authz.Model.{
  Rewrite, Rewrites, this, union, exclusion, computed, tuple_to_userset, Model, rewrite_of,
  default_model,
}
use workspace.Authz.Document.{
  rewrite_doc, unset, nil, cons, absent, ModelDoc, direct_doc, computed_doc, pointer_doc, union_doc,
  exclusion_doc, to_rewrite, to_model, from_model, validate_model_refs,
}
use workspace.Authz.Document.Faithful.{from_model-to_model}
use workspace.Authz.Document.References.{by_computed, validate_model_refs-declared}

abbrev folder_doc : ModelDoc
folder_doc =
    (
      "folder",
      ("parent", direct_doc)
          ∷ ("blocked", direct_doc)
          ∷ (
            "viewer",
            exclusion_doc (union_doc (cons direct_doc (cons (pointer_doc "parent" "viewer") nil)))
                (computed_doc "blocked"),
          )
          ∷ [],
    )
    ∷ []

abbrev folder_model : Model
folder_model =
    (
      "folder",
      ("parent", this)
          ∷ ("blocked", this)
          ∷ (
            "viewer",
            exclusion
                (union (
                  Rewrites.cons this
                    (Rewrites.cons (tuple_to_userset "parent" "viewer") Rewrites.nil)))
                (computed "blocked"),
          )
          ∷ [],
    )
    ∷ []

accepted : to_model folder_doc ≡ ok folder_model
unfolding to_model to_rewrite
accepted = refl

-- two operators at once, and a union of nothing
two_operators :
    to_rewrite (rewrite_doc true "member" none unset unset absent)
    ≡ err (Error.failure "rewrite must set exactly one operator")
unfolding to_rewrite
two_operators = refl

empty_union : to_rewrite (union_doc nil) ≡ err (Error.failure "requires at least one child")
unfolding to_rewrite
empty_union = refl

default_refs : validate_model_refs default_model ≡ ok tt
unfolding validate_model_refs default_model
default_refs = refl

misspelt :
    validate_model_refs (("team", ("member", computed "memebr") ∷ []) ∷ [])
    ≡ err (Error.failure "references undeclared relation")
unfolding validate_model_refs
misspelt = refl

from_model-to_model_example : from_model folder_model ≡ folder_doc
from_model-to_model_example = from_model-to_model folder_doc folder_model accepted

abbrev team_model : Model
team_model = ("team", ("member", this) ∷ ("viewer", computed "member") ∷ []) ∷ []

team_refs : validate_model_refs team_model ≡ ok tt
unfolding validate_model_refs
team_refs = refl

validate_model_refs-declared_example :
    (declared : Rewrite) × (lookup "member" (("member", this) ∷ ("viewer", computed "member") ∷ [])
      ≡ some declared)
    × (rewrite_of team_model "team" "member" ≡ declared)
unfolding lookup
validate_model_refs-declared_example =
    validate_model_refs-declared team_model "team" "viewer" "member"
      (("member", this) ∷ ("viewer", computed "member") ∷ []) (computed "member") team_refs refl
      refl (by_computed refl)
