-- ===== src/Authz/Document/References.antt =====
-- What the validation of references promises (`ValidateModelRefs` in pkg/authz/model_json.go).
use workspace.Base.{
  String, ◌≡◌, refl, Bool, true, false, Option, none, some, [], ◌∷◌, ◌==◌, Result, ok, err,
  and_then, lookup, ◌⊎◌, inl, inr, Bool-cases, subst,
}
use workspace.Authz.Model.{
  Rewrite, rewrite, Rewrites, cons, Exclusion, minus, Namespace, Model, rewrite_of,
}
use workspace.Authz.Document.{
  check_name, check_refs, check_all_refs, check_exclusion_refs, declares, check_namespace_refs,
  validate_model_refs,
}

-- A rewrite names a relation of its own namespace: as the computed relation or the tupleset relation
-- of it or of a child at any depth.
mutual
  pub data Refers (name : String) : Rewrite → Type 0 where
    by_computed :
        {us is : Rewrites} {x : Exclusion} {t cr : String}
        → (name == "") ≡ false
        → Refers name (rewrite us is x name t cr)
    by_tupleset :
        {us is : Rewrites} {x : Exclusion} {c cr : String}
        → (name == "") ≡ false
        → Refers name (rewrite us is x c name cr)
    in_union :
        {us is : Rewrites} {x : Exclusion} {c t cr : String}
        → AnyRefers name us
        → Refers name (rewrite us is x c t cr)
    in_intersection :
        {us is : Rewrites} {x : Exclusion} {c t cr : String}
        → AnyRefers name is
        → Refers name (rewrite us is x c t cr)
    in_exclusion :
        {us is : Rewrites} {x : Exclusion} {c t cr : String}
        → ExclusionRefers name x
        → Refers name (rewrite us is x c t cr)

  pub data AnyRefers (name : String) : Rewrites → Type 0 where
    here : {r : Rewrite} {rs : Rewrites} → Refers name r → AnyRefers name (cons r rs)
    there : {r : Rewrite} {rs : Rewrites} → AnyRefers name rs → AnyRefers name (cons r rs)

  pub data ExclusionRefers (name : String) : Exclusion → Type 0 where
    included : {inc exc : Rewrite} → Refers name inc → ExclusionRefers name (minus inc exc)
    excluded : {inc exc : Rewrite} → Refers name exc → ExclusionRefers name (minus inc exc)

check_name-declared :
    (declared : String → Bool) (name : String)
    → check_name declared name ≡ ok tt
    → (name == "") ≡ false
    → declared name ≡ true
check_name-declared declared name h named = by_test (Bool-cases (declared name))
  where
    by_test : (declared name ≡ true) ⊎ (declared name ≡ false) → declared name ≡ true
    by_test (inl d) = d
    by_test (inr d) = absurd (cc)

-- two tests in sequence, both passed
both_passed : (a b : Result (Unit {0})) → (and_then a λ _. b) ≡ ok tt → (a ≡ ok tt) × (b ≡ ok tt)
both_passed (ok _) b h = (refl, h)
both_passed (err e) b h = absurd (cc)

check_refs-passed :
    (declared : String → Bool) (us is : Rewrites) (x : Exclusion) (c t cr : String)
    → check_refs declared (rewrite us is x c t cr) ≡ ok tt
    → (check_name declared c ≡ ok tt)
      × (check_name declared t ≡ ok tt)
      × (check_all_refs declared us ≡ ok tt)
      × (check_all_refs declared is ≡ ok tt)
      × (check_exclusion_refs declared x ≡ ok tt)
unfolding check_refs
check_refs-passed declared us is x c t cr h =
    let (h1, r1) = both_passed (check_name declared c) _ h in
    let (h2, r2) = both_passed (check_name declared t) _ r1 in
    let (h3, r3) = both_passed (check_all_refs declared us) _ r2 in
    let (h4, h5) = both_passed (check_all_refs declared is) (check_exclusion_refs declared x) r3 in
    (h1, h2, h3, h4, h5)

mutual
  unfolding check_refs

  check_refs-declared :
      (declared : String → Bool) (name : String) (r : Rewrite)
      → check_refs declared r ≡ ok tt
      → Refers name r
      → declared name ≡ true
  check_refs-declared declared name _ h (by_computed {us} {is} {x} {t} {cr} named) =
      let (e, _, _, _, _) = check_refs-passed declared us is x name t cr h in
      check_name-declared declared name e named
  check_refs-declared declared name _ h (by_tupleset {us} {is} {x} {c} {cr} named) =
      let (_, e, _, _, _) = check_refs-passed declared us is x c name cr h in
      check_name-declared declared name e named
  check_refs-declared declared name _ h (in_union {us} {is} {x} {c} {t} {cr} k) =
      let (_, _, e, _, _) = check_refs-passed declared us is x c t cr h in
      check_all_refs-declared declared name us e k
  check_refs-declared declared name _ h (in_intersection {us} {is} {x} {c} {t} {cr} k) =
      let (_, _, _, e, _) = check_refs-passed declared us is x c t cr h in
      check_all_refs-declared declared name is e k
  check_refs-declared declared name _ h (in_exclusion {us} {is} {x} {c} {t} {cr} k) =
      let (_, _, _, _, e) = check_refs-passed declared us is x c t cr h in
      check_exclusion_refs-declared declared name x e k

  check_all_refs-declared :
      (declared : String → Bool) (name : String) (rs : Rewrites)
      → check_all_refs declared rs ≡ ok tt
      → AnyRefers name rs
      → declared name ≡ true
  check_all_refs-declared declared name _ h (here {r} {rs} k) =
      check_refs-declared declared name r
        (both_passed (check_refs declared r) (check_all_refs declared rs) h).0 k
  check_all_refs-declared declared name _ h (there {r} {rs} k) =
      check_all_refs-declared declared name rs
        (both_passed (check_refs declared r) (check_all_refs declared rs) h).1 k

  check_exclusion_refs-declared :
      (declared : String → Bool) (name : String) (x : Exclusion)
      → check_exclusion_refs declared x ≡ ok tt
      → ExclusionRefers name x
      → declared name ≡ true
  check_exclusion_refs-declared declared name _ h (included {inc} {exc} k) =
      check_refs-declared declared name inc
        (both_passed (check_refs declared inc) (check_refs declared exc) h).0 k
  check_exclusion_refs-declared declared name _ h (excluded {inc} {exc} k) =
      check_refs-declared declared name exc
        (both_passed (check_refs declared inc) (check_refs declared exc) h).1 k

check_namespace_refs-each :
    (declared : String → Bool) (rels : Namespace) (rel : String) (r : Rewrite)
    → check_namespace_refs declared rels ≡ ok tt
    → lookup rel rels ≡ some r
    → check_refs declared r ≡ ok tt
unfolding check_namespace_refs lookup
check_namespace_refs-each declared [] rel r h e = absurd (cc)
check_namespace_refs-each declared ((k, r') ∷ rels) rel r h e =
    let (now, later) =
      both_passed (check_refs declared r') (check_namespace_refs declared rels) h in
    by_key (Bool-cases (k == rel)) now (check_namespace_refs-each declared rels rel r later)
  where
    by_key :
        ((k == rel) ≡ true) ⊎ ((k == rel) ≡ false)
        → check_refs declared r' ≡ ok tt
        → (lookup rel rels ≡ some r → check_refs declared r ≡ ok tt)
        → check_refs declared r ≡ ok tt
    by_key (inl same) now later =
        let found : some r' ≡ some r = rw same at e in
        let same_rewrite : r' ≡ r = cc found in
        subst (λ x. check_refs declared x ≡ ok tt) same_rewrite now
    by_key (inr other) now later = later (rw other at e)

validate_model_refs-each :
    (m : Model) (ns : String) (rels : Namespace)
    → validate_model_refs m ≡ ok tt
    → lookup ns m ≡ some rels
    → check_namespace_refs (declares rels) rels ≡ ok tt
unfolding validate_model_refs lookup
validate_model_refs-each [] ns rels h e = absurd (cc)
validate_model_refs-each ((k, rels') ∷ m) ns rels h e =
    let (now, later) =
      both_passed (check_namespace_refs (declares rels') rels') (validate_model_refs m) h in
    by_key (Bool-cases (k == ns)) now (validate_model_refs-each m ns rels later)
  where
    by_key :
        ((k == ns) ≡ true) ⊎ ((k == ns) ≡ false)
        → check_namespace_refs (declares rels') rels' ≡ ok tt
        → (lookup ns m ≡ some rels → check_namespace_refs (declares rels) rels ≡ ok tt)
        → check_namespace_refs (declares rels) rels ≡ ok tt
    by_key (inl same) now later =
        let found : some rels' ≡ some rels = rw same at e in
        let same_relations : rels' ≡ rels = cc found in
        subst (λ x. check_namespace_refs (declares x) x ≡ ok tt) same_relations now
    by_key (inr other) now later = later (rw other at e)

-- In a model whose validation passes, each relation that a rewrite names within its namespace, as its
-- computed relation or its tupleset at any depth, has a rewrite of its own there: the rewrite that is
-- evaluated for the name is the declared one, not the fallback to direct tuples.
pub validate_model_refs-declared :
    (m : Model) (ns rel name : String) (rels : Namespace) (r : Rewrite)
    → validate_model_refs m ≡ ok tt
    → lookup ns m ≡ some rels
    → lookup rel rels ≡ some r
    → Refers name r
    → (declared : Rewrite) × (lookup name rels ≡ some declared) × (rewrite_of m ns name ≡ declared)
unfolding rewrite_of
validate_model_refs-declared m ns rel name rels r h found at ref =
    let known =
      check_refs-declared (declares rels) name r
        (check_namespace_refs-each (declares rels) rels rel r
          (validate_model_refs-each m ns rels h found) at)
        ref in
    by_entry (lookup name rels) refl known
  where
    by_entry :
        (o : Option Rewrite)
        → lookup name rels ≡ o
        → (elim o [ none ↦ false | some _ ↦ true ]) ≡ true
        → (declared : Rewrite) × (lookup name rels ≡ some declared)
          × (rewrite_of m ns name ≡ declared)
    by_entry none e k = absurd (cc)
    by_entry (some d) e k = (d, e, rw (found, rewrite_of) (rw e refl))
