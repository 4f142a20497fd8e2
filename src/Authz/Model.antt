-- ===== src/Authz/Model.antt =====
-- pkg/authz/model.go: subjects, tuples, rewrite rules and models. Instants are nanoseconds.
use workspace.Base.{
  ℕ, String, Bool, true, false, not, ◌&&◌, ◌||◌, Option, none, some, [], ◌∷◌, ltb, ◌==◌,
  if◌then◌else◌, Dict, lookup,
}
use workspace.Authz.Condition.{Condition}

-- The userset namespace:object#relation.
pub record SubjectSet : Type 0 where
  pub namespace : String
  pub object_id : String
  pub relation : String

pub record Subject : Type 0 where
  pub user_id : String
  pub set : Option SubjectSet
  pub wildcard : Bool
  pub condition : Option Condition

pub record Tuple : Type 0 where
  pub namespace : String
  pub object_id : String
  pub relation : String
  pub subject : Subject
  pub expires_at : Option ℕ

-- `Tuple.ActiveAt`
unfoldable pub active_at : Tuple → ℕ → Bool
active_at t now = elim t.expires_at [ none ↦ true | some expiry ↦ ltb now expiry ]

-- Go's `Rewrite` has a field for each operator; which one applies is read off by `operator`.
mutual
  pub data Rewrite : Type 0 where
    rewrite :
        (union intersection : Rewrites) (exclusion : Exclusion)
        (computed tupleset_relation computed_relation : String)
        → Rewrite

  pub data Rewrites : Type 0 where
    nil : Rewrites
    cons : Rewrite → Rewrites → Rewrites

  -- `*Exclusion`: nil, or Include minus Exclude
  pub data Exclusion : Type 0 where
    absent : Exclusion
    minus : (include exclude : Rewrite) → Exclusion

abbrev pub this : Rewrite
this = rewrite nil nil absent "" "" ""

abbrev pub union : Rewrites → Rewrite
union rs = rewrite rs nil absent "" "" ""

abbrev pub intersection : Rewrites → Rewrite
intersection rs = rewrite nil rs absent "" "" ""

abbrev pub exclusion : Rewrite → Rewrite → Rewrite
exclusion include exclude = rewrite nil nil (minus include exclude) "" "" ""

abbrev pub computed : String → Rewrite
computed rel = rewrite nil nil absent rel "" ""

abbrev pub tuple_to_userset : String → String → Rewrite
tuple_to_userset tupleset computed_rel = rewrite nil nil absent "" tupleset computed_rel

-- `len(rs) == 0`
abbrev pub is_empty : Rewrites → Bool
is_empty nil = true
is_empty (cons _ _) = false

-- `x == nil`
abbrev pub is_absent : Exclusion → Bool
is_absent absent = true
is_absent (minus _ _) = false

unfoldable pub is_this : Rewrite → Bool
is_this (rewrite u i x c t _) = is_empty u && is_empty i && is_absent x && c == "" && t == ""

-- The cases of the switch in `evalRewrite` and `expandRewrite`, tested in the code's order.
pub data Operator : Type 0 where
  direct any_of all_of difference computed_userset tupleset invalid : Operator

unfoldable pub operator : Rewrite → Operator
unfolding is_this
operator (rewrite u i x c t r) =
    if is_this (rewrite u i x c t r)
    then Operator.direct
    else if not (is_empty u)
    then Operator.any_of
    else if not (is_empty i)
    then Operator.all_of
    else if not (is_absent x)
    then Operator.difference
    else if not (c == "")
    then Operator.computed_userset
    else if not (t == "")
    then Operator.tupleset
    else Operator.invalid

unfoldable mutual
  pub reads_stored_tuples : Rewrite → Bool
  reads_stored_tuples (rewrite u i x c t r) =
      is_this (rewrite u i x c t r)
      || any_reads_stored u
      || any_reads_stored i
      || exclusion_reads_stored x

  -- the loops over the children
  pub any_reads_stored : Rewrites → Bool
  any_reads_stored nil = false
  any_reads_stored (cons r rs) = reads_stored_tuples r || any_reads_stored rs

  pub exclusion_reads_stored : Exclusion → Bool
  exclusion_reads_stored absent = false
  exclusion_reads_stored (minus inc exc) = reads_stored_tuples inc || reads_stored_tuples exc

abbrev pub Namespace : Type 0
Namespace = Dict Rewrite

abbrev pub Model : Type 0
Model = Dict Namespace

-- `Model.rewrite`: unknown relations default to direct tuples
unfoldable pub rewrite_of : Model → String → String → Rewrite
unfolding lookup
rewrite_of m namespace relation = elim (lookup namespace m) [
  | none ↦ this
  | some ns ↦ elim (lookup relation ns) [ none ↦ this | some rw ↦ rw ]
]

unfoldable pub writable_relation : Model → String → String → Bool
unfolding lookup
writable_relation m namespace relation = elim (lookup namespace m) [
  | none ↦ true
  | some ns ↦ elim (lookup relation ns) [ none ↦ true | some rw ↦ reads_stored_tuples rw ]
]

abbrev or_computed : String → Rewrite
or_computed rel = union (cons this (cons (computed rel) nil))

abbrev or_inherited : String → String → Rewrite
or_inherited rel inherited =
    union (cons this (cons (computed rel) (cons (tuple_to_userset "parent" inherited) nil)))

unfoldable pub default_model : Model
default_model =
    (
      "workspace",
      ("owner", this)
          ∷ ("admin", or_computed "owner")
          ∷ ("member", or_computed "admin")
          ∷ ("guest", or_computed "member")
          ∷ ("editor", computed "admin")
          ∷ ("viewer", computed "member")
          ∷ [],
    )
    ∷ ("group", ("member", this) ∷ [])
    ∷ (
      "resource",
      ("parent", this)
          ∷ ("owner", this)
          ∷ ("editor", or_inherited "owner" "editor")
          ∷ ("viewer", or_inherited "editor" "viewer")
          ∷ [],
    )
    ∷ []
