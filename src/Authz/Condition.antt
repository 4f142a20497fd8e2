-- ===== src/Authz/Condition.antt =====
-- pkg/authz/conditions.go: the built-in conditions of a grant, and their fail-closed evaluation.
use workspace.Base.{
  ℕ, String, Bool, true, false, not, ◌||◌, Option, none, some, List, [], ◌∷◌, ◌==◌, if◌then◌else◌,
  Result, ok, err, and_then, or_fail, Dict, lookup,
}
use workspace.Base.Int.{ℤ, ltb_ℤ}

-- A dynamic Go value, as JSON and structpb yield it. A `float64` is given by its bit pattern.
mutual
  pub data Value : Type 0 where
    boolean : Bool → Value
    float64 : ℕ → Value
    int int64 : ℤ → Value
    text : String → Value
    texts : List String → Value
    array : Values → Value
    other : Value

  pub data Values : Type 0 where
    nil : Values
    cons : Value → Values → Values

-- `map[string]any`
abbrev pub Fields : Type 0
Fields = Dict Value

pub record Condition : Type 0 where
  pub name : String
  pub params : Fields

-- An IP network: address and mask, as bytes.
pub record Network : Type 0 where
  pub ip : List ℕ
  pub mask : List ℕ

-- What conditions.go takes from Go's `net` and `time` packages and from float64 arithmetic.
pub record Library : Type 0 where
  pub float64_ge : ℕ → ℕ → Bool
  pub float64_of : ℤ → ℕ
  pub parse_ip : String → Option (List ℕ)
  pub parse_cidr : String → Option Network
  pub contains : Network → List ℕ → Bool
  pub parse_rfc3339 : String → Option ℤ

infixl 5 ◌>>=◌
abbrev ◌>>=◌ : {A B : Type 0} → Result A → (A → Result B) → Result B
m >>= f = and_then m f

abbrev as_bool : Value → Option Bool
as_bool (boolean b) = some b
as_bool _ = none

abbrev as_string : Value → Option String
as_string (text s) = some s
as_string _ = none

abbrev as_number : Library → Value → Option ℕ
as_number lib (float64 x) = some x
as_number lib (int n) = some (lib.float64_of n)
as_number lib (int64 n) = some (lib.float64_of n)
as_number lib _ = none

-- the loop of `strSliceField` over a `[]any`
abbrev all_strings : Values → Option (List String)
all_strings nil = some []
all_strings (cons v vs) = elim (as_string v) [
  | none ↦ none
  | some s ↦ elim (all_strings vs) [ none ↦ none | some ss ↦ some (s ∷ ss) ]
]

abbrev as_strings : Value → Option (List String)
as_strings (texts ss) = some ss
as_strings (array vs) = all_strings vs
as_strings _ = none

bool_field : Fields → String → Result Bool
unfolding lookup
bool_field m k = do or_fail (as_bool (← or_fail (lookup k m) "missing")) "must be a bool"

num_field : Library → Fields → String → Result ℕ
unfolding lookup
num_field lib m k = do or_fail (as_number lib (← or_fail (lookup k m) "missing")) "must be a number"

str_field : Fields → String → Result String
unfolding lookup
str_field m k = do or_fail (as_string (← or_fail (lookup k m) "missing")) "must be a string"

str_slice_field : Fields → String → Result (List String)
unfolding lookup
str_slice_field m k = do
  or_fail (as_strings (← or_fail (lookup k m) "missing")) "must be an array of strings"

cond_consent_granted : Fields → Result Bool
unfolding bool_field
cond_consent_granted ctx = bool_field ctx "consent"

cond_age_at_least : Library → Fields → Fields → Result Bool
unfolding num_field
cond_age_at_least lib params ctx = do
  min ← num_field lib params "min_age"
  age ← num_field lib ctx "age"
  ok (lib.float64_ge age min)

-- the loop of `condIPInCIDRs`: a bad CIDR is an error, unless a network before it contains the IP
in_cidrs : Library → List ℕ → List String → Result Bool
in_cidrs lib ip [] = ok false
in_cidrs lib ip (c ∷ cs) =
    let rest = in_cidrs lib ip cs in
    do
      network ← or_fail (lib.parse_cidr c) "invalid cidr"
      if lib.contains network ip then ok true else rest

cond_ip_in_cidrs : Library → Fields → Fields → Result Bool
unfolding str_field str_slice_field in_cidrs
cond_ip_in_cidrs lib params ctx = do
  ip_str ← str_field ctx "ip"
  ip ← or_fail (lib.parse_ip ip_str) "not an IP address"
  cidrs ← str_slice_field params "cidrs"
  in_cidrs lib ip cidrs

cond_not_after : Library → Fields → Fields → Result Bool
unfolding str_field
cond_not_after lib params ctx = do
  until_str ← str_field params "until"
  until ← or_fail (lib.parse_rfc3339 until_str) "invalid until"
  now_str ← str_field ctx "now"
  now ← or_fail (lib.parse_rfc3339 now_str) "invalid now"
  ok (not (ltb_ℤ until now))

is_allowed : String → List String → Bool
is_allowed scope [] = false
is_allowed scope (a ∷ allowed) = a == scope || is_allowed scope allowed

cond_scope_in : Fields → Fields → Result Bool
unfolding str_field str_slice_field is_allowed
cond_scope_in params ctx = do
  scope ← str_field ctx "scope"
  allowed ← str_slice_field params "allowed"
  ok (is_allowed scope allowed)

abbrev pub ConditionFunc : Type 0
ConditionFunc = Fields → Fields → Result Bool

unfoldable pub condition_registry : Library → Dict ConditionFunc
unfolding cond_consent_granted cond_age_at_least cond_ip_in_cidrs cond_not_after cond_scope_in
condition_registry lib =
    ("consent_granted", λ params ctx. cond_consent_granted ctx)
    ∷ ("age_at_least", cond_age_at_least lib)
    ∷ ("ip_in_cidrs", cond_ip_in_cidrs lib)
    ∷ ("not_after", cond_not_after lib)
    ∷ ("scope_in", cond_scope_in)
    ∷ []

abbrev is_some {ℓ} : {A : Type ℓ} → Option A → Bool
is_some none = false
is_some (some _) = true

unfoldable pub known_condition : Library → String → Bool
unfolding condition_registry lookup
known_condition lib name = is_some (lookup name (condition_registry lib))

-- a condition function's answer, with an error read as a denial
abbrev accepted : Result Bool → Bool
accepted (ok b) = b
accepted (err _) = false

unfoldable pub eval_condition : Library → Option Condition → Fields → Bool
unfolding condition_registry lookup
eval_condition lib none ctx = true
eval_condition lib (some c) ctx =
    if c.name == "" then true else elim (lookup c.name (condition_registry lib)) [
      | none ↦ false
      | some fn ↦ accepted (fn c.params ctx)
    ]
