-- ===== src/Store/Keys.antt =====
-- internal/repo/memory/memory.go: the keys of scopes and tuples. A Go string is a text, and its length
-- is that of its UTF-8.
use Prim.Native.Char.{Char, code}
use Prim.Native.String.{◌++◌, len}
use text.Mathlib.TextLemmas.{append_assoc, cons-append, append_cancel_left}
use text.Mathlib.Text.{starts_with}
use text.Mathlib.TextPositions.{starts_with-append}
use workspace.Base.{
  ℕ, String, ◌≡◌, ◌↔◌, arith, refl, subst, sym, ap, ◌∙◌, Bool, true, false, Option, none, some,
  if◌then◌else◌,
}
use workspace.Base.Decimal.{itoa, itoa-injective, lacks-itoa}
use workspace.Base.Texts.{split_unique, separated, split_at_len}
use workspace.Authz.Model.{SubjectSet, Subject, Tuple}

unfoldable pub scope : String → String → String
scope project tenant = project ++ ("\0" ++ tenant)

-- it begins every scope of the project
abbrev pub project_prefix : String → String
project_prefix project = project ++ "\0"

pub scope-project_prefix :
    (project tenant : String) → starts_with (scope project tenant) (project_prefix project) ≡ true
unfolding scope
scope-project_prefix project tenant =
    subst (λ s. starts_with s (project_prefix project) ≡ true) (append_assoc project "\0" tenant)
      (starts_with-append (project_prefix project) tenant)

-- `part`: a text behind its length
unfoldable pub part : String → String
unfolding itoa
part s = itoa (len s) ++ (":" ++ s)

abbrev pub set_key : SubjectSet → String
unfolding part
set_key u = part u.namespace ++ (part u.object_id ++ part u.relation)

unfoldable pub subject_key : Subject → String
unfolding set_key part
subject_key s =
    if s.wildcard
    then "w"
    else elim s.set [ some u ↦ "s" ++ set_key u | none ↦ "u" ++ part s.user_id ]

unfoldable pub tuple_key : Tuple → String
unfolding part subject_key
tuple_key t =
    part t.namespace ++ (part t.object_id ++ (part t.relation ++ part (subject_key t.subject)))

-- Parts delimit themselves: what is in front of a remainder is read off.
part-append_injective : (s t x y : String) → part s ++ x ≡ part t ++ y → (s ≡ t) × (x ≡ y)
unfolding part
part-append_injective s t x y e =
    let (lengths, rests) =
      split_unique b':' ":" (itoa (len s)) (itoa (len t)) (s ++ x) (t ++ y) refl
        (lacks-itoa (len s)) (lacks-itoa (len t)) (sym (flat s x) ∙ e ∙ flat t y) in
    split_at_len s t x y (itoa-injective (len s) (len t) lengths) rests
  where
    flat :
        (s x : String)
        → (itoa (len s) ++ (":" ++ s)) ++ x ≡ itoa (len s) ++ (String.◌∷◌ ":" (s ++ x))
    flat s x =
        append_assoc (itoa (len s)) (":" ++ s) x
        ∙ ap (λ u. itoa (len s) ++ u) (append_assoc ":" s x)
        ∙ separated ":" (itoa (len s)) (s ++ x)

part-injective : (s t : String) → part s ≡ part t → s ≡ t
part-injective s t e = (part-append_injective s t "" "" (ap (λ u. u ++ "") e)).0

-- Whom a subject names: a condition or a wildcard's other fields do not count.
pub data Identity : Type 0 where
  everyone : Identity
  userset : SubjectSet → Identity
  user : String → Identity

abbrev pub identity : Subject → Identity
identity s =
    if s.wildcard then everyone else elim s.set [ some u ↦ userset u | none ↦ user s.user_id ]

-- `subject_key`, as a function of whom the subject names
identity_key : Identity → String
unfolding set_key
identity_key everyone = "w"
identity_key (userset u) = "s" ++ set_key u
identity_key (user id) = "u" ++ part id

subject_key-identity : (s : Subject) → subject_key s ≡ identity_key (identity s)
unfolding subject_key identity_key
subject_key-identity s = at s.wildcard s.set
  where
    at :
        (w : Bool) (o : Option SubjectSet)
        → (if w then "w" else elim o [ some u ↦ "s" ++ set_key u | none ↦ "u" ++ part s.user_id ])
          ≡ identity_key
              (if w then everyone else elim o [ some u ↦ userset u | none ↦ user s.user_id ])
    at true o = refl
    at false none = refl
    at false (some u) = refl

set_key-injective : (u v : SubjectSet) → set_key u ≡ set_key v → u ≡ v
unfolding set_key
set_key-injective u v e =
    let (namespaces, rest) = part-append_injective u.namespace v.namespace _ _ e in
    let (objects, last) = part-append_injective u.object_id v.object_id _ _ rest in
    let relations = part-injective u.relation v.relation last in
    λ i. record { namespace = namespaces i; object_id = objects i; relation = relations i }

first : String → ℕ
first String.[] = 0
first (String.◌∷◌ c s) = code c

first-append : (c : Char) (s : String) → first ((String.◌∷◌ c String.[]) ++ s) ≡ code c
unfolding first
first-append c s = rw cons-append refl

identity_key-injective : (a b : Identity) → identity_key a ≡ identity_key b → a ≡ b
unfolding identity_key first
identity_key-injective everyone everyone e = refl
identity_key-injective (userset u) (userset v) e =
    ap userset (set_key-injective u v (append_cancel_left "s" (set_key u) (set_key v) e))
identity_key-injective (user a) (user b) e =
    ap user (part-injective a b (append_cancel_left "u" (part a) (part b) e))
identity_key-injective everyone (userset v) e =
    absurd (omega (arith, ap first e, first-append "s" (set_key v)))
identity_key-injective everyone (user b) e =
    absurd (omega (arith, ap first e, first-append "u" (part b)))
identity_key-injective (userset u) everyone e =
    absurd (omega (arith, ap first e, first-append "s" (set_key u)))
identity_key-injective (user a) everyone e =
    absurd (omega (arith, ap first e, first-append "u" (part a)))
identity_key-injective (userset u) (user b) e =
    absurd (omega (arith, ap first e, first-append "s" (set_key u), first-append "u" (part b)))
identity_key-injective (user a) (userset v) e =
    absurd (omega (arith, ap first e, first-append "u" (part a), first-append "s" (set_key v)))

-- Where a tuple stands: its userset and whom its subject names.
pub record Place : Type 0 where
  pub namespace : String
  pub object_id : String
  pub relation : String
  pub subject : Identity

abbrev pub place : Tuple → Place
place t = record {
  namespace = t.namespace;
  object_id = t.object_id;
  relation = t.relation;
  subject = identity t.subject;
}

place_key : Place → String
unfolding part identity_key
place_key p =
    part p.namespace ++ (part p.object_id ++ (part p.relation ++ part (identity_key p.subject)))

tuple_key-place : (t : Tuple) → tuple_key t ≡ place_key (place t)
unfolding tuple_key place_key
tuple_key-place t =
    ap (λ k. part t.namespace ++ (part t.object_id ++ (part t.relation ++ part k)))
      (subject_key-identity t.subject)

place_key-injective : (p q : Place) → place_key p ≡ place_key q → p ≡ q
unfolding place_key
place_key-injective p q e =
    let (namespaces, rest) = part-append_injective p.namespace q.namespace _ _ e in
    let (objects, rest') = part-append_injective p.object_id q.object_id _ _ rest in
    let (relations, last) = part-append_injective p.relation q.relation _ _ rest' in
    let subjects = identity_key-injective p.subject q.subject (part-injective _ _ last) in
    λ i. record {
      namespace = namespaces i;
      object_id = objects i;
      relation = relations i;
      subject = subjects i;
    }

-- Two tuples have one key exactly when they have one userset and name one subject, whatever texts
-- their fields hold: conditions and expiries do not count.
pub tuple_key-place_iff : (t u : Tuple) → (tuple_key t ≡ tuple_key u) ↔ (place t ≡ place u)
tuple_key-place_iff t u = (
  λ e. place_key-injective (place t) (place u) (sym (tuple_key-place t) ∙ e ∙ tuple_key-place u),
  λ e. tuple_key-place t ∙ ap place_key e ∙ sym (tuple_key-place u),
)
