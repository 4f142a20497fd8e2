-- ===== src/Service/Names/Slugs.antt =====
-- The shape of a slug (`slugify` in internal/service/service.go).
use Prim.Native.Char.{code}
use workspace.Base.{
  ℕ, zero, suc, ◌≤◌, String, ◌≡◌, refl, Bool, true, false, not, ◌&&◌, ◌||◌, ◌==◌, ltb, arith,
  if◌then◌else◌,
}
use workspace.Service.Names.{
  trim_left, trim_right, trim, trim_name, is_slug_char, is_dash, replace_invalid, size, prefix,
  limit_slug, or_ws, slugify,
}

-- only lower-case letters, digits and dashes
unfoldable pub is_slug : String → Bool
is_slug String.[] = true
is_slug (String.◌∷◌ c s) = (is_slug_char (code c) || is_dash (code c)) && is_slug s

pass : (k d r : Bool) → k ≡ true → r ≡ true → ((k || d) && r) ≡ true
pass k d r e h = ground arith

both : (k r : Bool) → k ≡ true → r ≡ true → (k && r) ≡ true
both k r e h = ground arith

rest_of : (k r : Bool) → (k && r) ≡ true → r ≡ true
rest_of k r h = ground arith

head_of : (k r : Bool) → (k && r) ≡ true → k ≡ true
head_of k r h = ground arith

replace_invalid-slug : (b : Bool) (s : String) → is_slug (replace_invalid b s) ≡ true
unfolding replace_invalid is_slug
replace_invalid-slug b String.[] = refl
replace_invalid-slug b (String.◌∷◌ c s) =
    by_test (is_slug_char (code c)) b refl (replace_invalid-slug (not (is_slug_char (code c))) s)
  where
    by_test :
        (k run : Bool)
        → is_slug_char (code c) ≡ k
        → is_slug (replace_invalid (not (is_slug_char (code c))) s) ≡ true
        → is_slug (
            if k
            then String.◌∷◌ c (replace_invalid (not (is_slug_char (code c))) s)
            else if run
            then replace_invalid (not (is_slug_char (code c))) s
            else String.◌∷◌ "-" (replace_invalid (not (is_slug_char (code c))) s))
          ≡ true
    by_test true run e h = pass (is_slug_char (code c)) (is_dash (code c)) _ e h
    by_test false true e h = h
    by_test false false e h = h

module _ (p : ℕ → Bool) where
  trim_left-slug : (s : String) → is_slug s ≡ true → is_slug (trim_left p s) ≡ true
  unfolding trim_left is_slug
  trim_left-slug String.[] h = refl
  trim_left-slug (String.◌∷◌ c s) h = ground (arith, h, trim_left-slug s)

  trim_right-slug : (s : String) → is_slug s ≡ true → is_slug (trim_right p s) ≡ true
  unfolding trim_right is_slug
  trim_right-slug String.[] h = refl
  trim_right-slug (String.◌∷◌ c s) h =
      by_test (trim_right p s == "" && p (code c))
        (head_of (is_slug_char (code c) || is_dash (code c)) (is_slug s) h)
        (trim_right-slug s (rest_of (is_slug_char (code c) || is_dash (code c)) (is_slug s) h))
    where
      by_test :
          (b : Bool)
          → (is_slug_char (code c) || is_dash (code c)) ≡ true
          → is_slug (trim_right p s) ≡ true
          → is_slug (if b then "" else String.◌∷◌ c (trim_right p s)) ≡ true
      by_test true first rest = refl
      by_test false first rest = both (is_slug_char (code c) || is_dash (code c)) _ first rest

  size-trim_left : (s : String) → size (trim_left p s) ≤ size s
  unfolding trim_left size
  size-trim_left String.[] = omega arith
  size-trim_left (String.◌∷◌ c s) = ground (arith, size-trim_left s)

  size-trim_right : (s : String) → size (trim_right p s) ≤ size s
  unfolding trim_right size
  size-trim_right String.[] = omega arith
  size-trim_right (String.◌∷◌ c s) =
      by_test (trim_right p s == "" && p (code c)) (size-trim_right s)
    where
      by_test :
          (b : Bool)
          → size (trim_right p s) ≤ size s
          → size (if b then "" else String.◌∷◌ c (trim_right p s)) ≤ suc (size s)
      by_test true rest = omega arith
      by_test false rest = omega (arith, rest)

prefix-slug : (n : ℕ) (s : String) → is_slug s ≡ true → is_slug (prefix n s) ≡ true
unfolding prefix is_slug
prefix-slug zero s h = refl
prefix-slug (suc n) String.[] h = refl
prefix-slug (suc n) (String.◌∷◌ c s) h = ground (arith, h, prefix-slug n s)

size-prefix : (n : ℕ) (s : String) → size (prefix n s) ≤ n
unfolding prefix size
size-prefix zero s = omega arith
size-prefix (suc n) String.[] = omega arith
size-prefix (suc n) (String.◌∷◌ c s) = ground (arith, size-prefix n s)

trim-slug : (p : ℕ → Bool) (s : String) → is_slug s ≡ true → is_slug (trim p s) ≡ true
unfolding trim
trim-slug p s h = trim_right-slug p (trim_left p s) (trim_left-slug p s h)

size-trim : (p : ℕ → Bool) (s : String) → size (trim p s) ≤ size s
unfolding trim
size-trim p s = omega (arith, size-trim_right p (trim_left p s), size-trim_left p s)

or_ws-slug : (s : String) → is_slug s ≡ true → is_slug (or_ws s) ≡ true
unfolding or_ws is_slug
or_ws-slug s h = by_test (s == "")
  where
    by_test : (b : Bool) → is_slug (if b then "ws" else s) ≡ true
    by_test true = refl
    by_test false = h

limit_slug-slug : (s : String) → is_slug s ≡ true → is_slug (limit_slug s) ≡ true
unfolding limit_slug
limit_slug-slug s h = by_test (ltb 48 (size s))
  where
    by_test : (b : Bool) → is_slug (if b then trim is_dash (prefix 48 s) else s) ≡ true
    by_test true = trim-slug is_dash (prefix 48 s) (prefix-slug 48 s h)
    by_test false = h

size-limit_slug : (s : String) → size (limit_slug s) ≤ 48
unfolding limit_slug
size-limit_slug s = by_test (ltb 48 (size s)) refl
  where
    by_test :
        (b : Bool) → ltb 48 (size s) ≡ b → size (if b then trim is_dash (prefix 48 s) else s) ≤ 48
    by_test true e = omega (arith, size-trim is_dash (prefix 48 s), size-prefix 48 s)
    by_test false e = ground arith

-- A slug is short and plain: whatever the name, and whatever case folding does to it, the slug has
-- only lower-case letters, digits and dashes, and at most 48 characters.
pub slugify-shape :
    (to_lower : String → String) (s : String)
    → (is_slug (slugify to_lower s) ≡ true) × (size (slugify to_lower s) ≤ 48)
unfolding slugify
slugify-shape to_lower s = (
  limit_slug-slug _
      (or_ws-slug _ (trim-slug is_dash _ (replace_invalid-slug false (to_lower (trim_name s))))),
  size-limit_slug (or_ws (trim is_dash (replace_invalid false (to_lower (trim_name s))))),
)
