-- ===== src/Authz/Tree.antt =====
-- The userset trees of pkg/authz/expand.go.
use workspace.Base.{String, Bool, true, false, none, some, List, [], ◌∷◌, ◌++◌, if◌then◌else◌}
use workspace.Authz.Model.{Subject, SubjectSet}

-- Go's `Tree`: a leaf, a union, an intersection or an exclusion node.
mutual
  pub data Tree : Type 0 where
    tree :
        (expanded : SubjectSet) (union intersection : Trees) (exclude : ExcludeTree)
        (users : List String) (sets : List SubjectSet) (wildcard : Bool)
        → Tree

  pub data Trees : Type 0 where
    nil : Trees
    cons : Tree → Trees → Trees

  -- `*ExcludeTree`
  pub data ExcludeTree : Type 0 where
    absent : ExcludeTree
    minus : (include exclude : Tree) → ExcludeTree

-- the leaf contents that the loop of `expandRewrite` fills in
pub record Leaf : Type 0 where
  pub users : List String
  pub sets : List SubjectSet
  pub wildcard : Bool

abbrev pub empty_leaf : Leaf
empty_leaf = record { users = []; sets = []; wildcard = false }

abbrev pub leaf_node : SubjectSet → Leaf → Tree
leaf_node self l = tree self nil nil absent l.users l.sets l.wildcard

-- `Tree{Expanded: self}`
abbrev pub bare : SubjectSet → Tree
bare self = leaf_node self empty_leaf

abbrev pub union_node : SubjectSet → Trees → Tree
union_node self ts = tree self ts nil absent [] [] false

abbrev pub intersection_node : SubjectSet → Trees → Tree
intersection_node self ts = tree self nil ts absent [] [] false

abbrev pub exclusion_node : SubjectSet → Tree → Tree → Tree
exclusion_node self inc exc = tree self nil nil (minus inc exc) [] [] false

-- the loop body: `leaf.Wildcard = true`, or an append to `leaf.Users` or `leaf.Sets`
unfoldable pub add_subject : Leaf → Subject → Leaf
add_subject l s = if s.wildcard then record l { wildcard = true } else elim s.set [
  | none ↦ record l { users = l.users ++ s.user_id ∷ [] }
  | some u ↦ record l { sets = l.sets ++ u ∷ [] }
]

unfoldable pub add_subjects : Leaf → List Subject → Leaf
add_subjects l [] = l
add_subjects l (s ∷ ss) = add_subjects (add_subject l s) ss
