-- ===== src/Service/Names.antt =====
-- internal/service/service.go and classify.go: names and slugs. `strings.ToLower` is an argument.
pub mod Slugs
pub mod Tests
use Prim.Native.Char.{code}
use workspace.Base.{
  ℕ, zero, suc, String, Bool, false, not, ◌&&◌, ◌||◌, ◌==◌, ltb, is_equal, if◌then◌else◌,
}

-- `strings.TrimLeftFunc` and `TrimRightFunc`
unfoldable pub trim_left : (ℕ → Bool) → String → String
trim_left p String.[] = ""
trim_left p (String.◌∷◌ c s) =
    let rest = trim_left p s in if p (code c) then rest else String.◌∷◌ c s

unfoldable pub trim_right : (ℕ → Bool) → String → String
trim_right p String.[] = ""
trim_right p (String.◌∷◌ c s) =
    let rest = trim_right p s in if rest == "" && p (code c) then "" else String.◌∷◌ c rest

unfoldable pub trim : (ℕ → Bool) → String → String
unfolding trim_left trim_right
trim p s = trim_right p (trim_left p s)

abbrev between : ℕ → ℕ → ℕ → Bool
between low high c = not (ltb c low) && not (ltb high c)

-- `unicode.IsSpace`
unfoldable pub is_space : ℕ → Bool
is_space c =
    between 9 13 c
    || is_equal c 32
    || is_equal c 133
    || is_equal c 160
    || is_equal c 5760
    || between 8192 8202 c
    || is_equal c 8232
    || is_equal c 8233
    || is_equal c 8239
    || is_equal c 8287
    || is_equal c 12288

-- `trimName`: `strings.TrimSpace`
unfoldable pub trim_name : String → String
unfolding trim is_space
trim_name s = trim is_space s

-- `[a-z0-9]`
abbrev pub is_slug_char : ℕ → Bool
is_slug_char c = between b'a' b'z' c || between b'0' b'9' c

abbrev pub is_dash : ℕ → Bool
is_dash c = is_equal c b'-'

-- `slugInvalid.ReplaceAllString(s, "-")`: a dash for each run; `in_run` if one has begun
unfoldable pub replace_invalid : Bool → String → String
replace_invalid in_run String.[] = ""
replace_invalid in_run (String.◌∷◌ c s) =
    let rest = replace_invalid (not (is_slug_char (code c))) s in
    if is_slug_char (code c)
    then String.◌∷◌ c rest
    else if in_run
    then rest
    else String.◌∷◌ "-" rest

-- the number of characters, and the first of them: bytes, since a slug is ASCII
unfoldable pub size : String → ℕ
size String.[] = 0
size (String.◌∷◌ c s) = suc (size s)

unfoldable pub prefix : ℕ → String → String
prefix zero s = ""
prefix (suc n) String.[] = ""
prefix (suc n) (String.◌∷◌ c s) = String.◌∷◌ c (prefix n s)

unfoldable pub limit_slug : String → String
unfolding trim size prefix
limit_slug s = if ltb 48 (size s) then trim is_dash (prefix 48 s) else s

unfoldable pub or_ws : String → String
or_ws s = if s == "" then "ws" else s

unfoldable pub slugify : (String → String) → String → String
unfolding trim_name replace_invalid trim or_ws limit_slug
slugify to_lower s =
    limit_slug (or_ws (trim is_dash (replace_invalid false (to_lower (trim_name s)))))
