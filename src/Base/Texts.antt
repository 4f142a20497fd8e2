-- ===== src/Base/Texts.antt =====
-- Texts that are joined at separators, and texts behind a length.
use Prim.Native.Char.{Char, code}
use Prim.Native.Nat.{ℕ}
use Prim.Native.String.{String, ◌++◌, len, slice}
use mathlib.Core.Path.{◌≡◌, refl, sym, ap, ap₂, ◌∙◌}
use mathlib.Core.Bool.{Bool, true, not, ◌&&◌}
use native.Mathlib.Omega.{arith}
use text.Mathlib.TextLemmas.{nil-append, cons-append, append_cancel_left}
use text.Mathlib.TextPositions.{slice-append_left}
use workspace.Base.Tests.{is_equal}

-- the text does not contain the character with this code
unfoldable pub lacks : ℕ → String → Bool
lacks k String.[] = true
lacks k (String.◌∷◌ c s) = not (is_equal (code c) k) && lacks k s

and_right : (a b : Bool) → a && b ≡ true → b ≡ true
and_right a b h = ground arith

cons-append_inj :
    (c b : Char) (s t x y : String)
    → (String.◌∷◌ c s) ++ x ≡ (String.◌∷◌ b t) ++ y
    → (c ≡ b) × (s ++ x ≡ t ++ y)
cons-append_inj c b s t x y e =
    (cc (cons-append c s x, cons-append b t y), cc (cons-append c s x, cons-append b t y))

-- a text ends at the first separator
pub split_unique :
    (k : ℕ) (d : Char) (s t x y : String)
    → code d ≡ k
    → lacks k s ≡ true
    → lacks k t ≡ true
    → s ++ (String.◌∷◌ d x) ≡ t ++ (String.◌∷◌ d y)
    → (s ≡ t) × (x ≡ y)
unfolding lacks
split_unique k d String.[] String.[] x y is_code p q e =
    (refl, cc (nil-append (String.◌∷◌ d x), nil-append (String.◌∷◌ d y)))
split_unique k d String.[] (String.◌∷◌ c t) x y is_code p q e =
    let same : d ≡ c = cc (nil-append (String.◌∷◌ d x), cons-append c t (String.◌∷◌ d y)) in
    absurd (ground (arith, ap code same))
split_unique k d (String.◌∷◌ c s) String.[] x y is_code p q e =
    let same : d ≡ c = cc (nil-append (String.◌∷◌ d y), cons-append c s (String.◌∷◌ d x)) in
    absurd (ground (arith, ap code same))
split_unique k d (String.◌∷◌ c s) (String.◌∷◌ b t) x y is_code p q e =
    let (heads, rests) = cons-append_inj c b s t _ _ e in
    let (same, ends) = split_unique k d s t x y is_code (and_right _ _ p) (and_right _ _ q) rests in
    (ap₂ String.◌∷◌ heads same, ends)

-- `s + ":" + x` is `s` with the separator in front of `x`
pub separated :
    (c : Char) (s x : String) → s ++ ((String.◌∷◌ c String.[]) ++ x) ≡ s ++ (String.◌∷◌ c x)
separated c s x = ap (λ t. s ++ t) (cons-append c String.[] x ∙ ap (String.◌∷◌ c) (nil-append x))

-- two texts of one length in UTF-8, in front of two others
pub split_at_len : (s t x y : String) → len s ≡ len t → s ++ x ≡ t ++ y → (s ≡ t) × (x ≡ y)
split_at_len s t x y e h =
    let fronts : s ≡ t =
      sym (slice-append_left s x) ∙ ap₂ (λ u n. slice u 0 n) h e ∙ slice-append_left t y in
    (fronts, append_cancel_left t x y (ap (λ u. u ++ x) (sym fronts) ∙ h))
