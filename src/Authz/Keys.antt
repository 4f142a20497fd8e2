-- ===== src/Authz/Keys.antt =====
-- The keys of `visited` and `memo` (`visitKey` and the memo key of `check` in
-- pkg/authz/engine.go): for which usersets they are unambiguous.
use Prim.Native.Char.{Char, code}
use Prim.Native.String.{◌++◌}
use text.Mathlib.TextLemmas.{append_cancel_right, append_assoc, nil-append, cons-append}
use workspace.Base.Texts.{lacks, split_unique, separated}
use workspace.Base.{ℕ, String, ◌≡◌, ◌≢◌, refl, sym, ap, ◌∙◌, Bool, true, false, arith}
use workspace.Authz.Model.{SubjectSet}
use workspace.Authz.State.{visit_key, memo_key}

-- The separators of `visitKey` do not occur in front of their places.
pub record IsPlain (u : SubjectSet) : Type 0 where
  pub namespace_plain : lacks b':' u.namespace ≡ true
  pub object_plain : lacks b'#' u.object_id ≡ true

-- Two plain usersets with one visit key are the same.
pub visit_key-injective :
    (u v : SubjectSet) → IsPlain u → IsPlain v → visit_key u ≡ visit_key v → u ≡ v
unfolding visit_key
visit_key-injective u v p q e =
    let (namespaces, rest) =
      split_unique b':' ":" u.namespace v.namespace (u.object_id ++ ("#" ++ u.relation))
        (v.object_id ++ ("#" ++ v.relation)) refl p.namespace_plain q.namespace_plain
        (sym (separated ":" _ _) ∙ e ∙ separated ":" _ _) in
    let (objects, relations) =
      split_unique b'#' "#" u.object_id v.object_id u.relation v.relation refl p.object_plain
        q.object_plain (sym (separated "#" _ _) ∙ rest ∙ separated "#" _ _) in
    λ i. record { namespace = namespaces i; object_id = objects i; relation = relations i }

-- the last character
last_code : String → ℕ
last_code String.[] = 0
last_code (String.◌∷◌ c String.[]) = code c
last_code (String.◌∷◌ c (String.◌∷◌ d s)) = last_code (String.◌∷◌ d s)

last_code-append : (s : String) (c : Char) → last_code (s ++ (String.◌∷◌ c String.[])) ≡ code c
unfolding last_code
last_code-append String.[] c = rw nil-append
last_code-append (String.◌∷◌ d String.[]) c = rw (cons-append, nil-append)
last_code-append (String.◌∷◌ d (String.◌∷◌ b s)) c =
    rw (cons-append d, cons-append b) (rw cons-append at (last_code-append (String.◌∷◌ b s) c))

-- Beside "true" and "false" the keys differ: "u" and "s" stand one before the end.
polarities_differ : (k l : String) → memo_key k true ≢ memo_key l false
unfolding memo_key
polarities_differ k l e =
    let ends =
      append_cancel_right (k ++ "\u{1f}tru") (l ++ "\u{1f}fals") "e"
        (append_assoc k "\u{1f}tru" "e" ∙ e ∙ sym (append_assoc l "\u{1f}fals" "e")) in
    let last =
      ap last_code (append_assoc k "\u{1f}tr" "u" ∙ ends ∙ sym (append_assoc l "\u{1f}fal" "s")) in
    omega
      (arith, last, last_code-append (k ++ "\u{1f}tr") "u", last_code-append (l ++ "\u{1f}fal") "s")

pub memo_key-injective :
    (k l : String) (a b : Bool) → memo_key k a ≡ memo_key l b → (k ≡ l) × (a ≡ b)
unfolding memo_key
memo_key-injective k l true true e = (append_cancel_right k l _ e, refl)
memo_key-injective k l false false e = (append_cancel_right k l _ e, refl)
memo_key-injective k l true false e = absurd (polarities_differ k l e)
memo_key-injective k l false true e = absurd (polarities_differ l k (sym e))
