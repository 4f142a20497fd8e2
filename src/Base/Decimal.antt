-- ===== src/Base/Decimal.antt =====
-- `strconv.Itoa` of a number that is not negative.
use Prim.Native.Char.{Char, code}
use Prim.Native.Nat.{ℕ, zero, suc, ◌+◌, ◌-◌, ◌*◌, ◌/◌, ◌%◌, ◌<◌, ◌≤◌}
use Prim.Native.String.{String, char_at}
use mathlib.Core.Path.{◌≡◌, refl, sym, ap, ◌∙◌}
use mathlib.Core.Logic.{◌⊎◌, inl, inr}
use mathlib.Core.Bool.{true, false}
use native.Mathlib.Omega.{arith}
use workspace.Base.Tests.{ltb, if◌then◌else◌, Bool-cases, ltb→lt, ltb→le}
use workspace.Base.Texts.{lacks}

abbrev digit : ℕ → Char
digit d = char_at "0123456789" d

-- the digits of `n` in front of `out`, the last one first
unfoldable emit : ℕ → ℕ → String → String
emit zero n out = out
emit (suc fuel) n out =
    let more = emit fuel (n / 10) (String.◌∷◌ (digit (n % 10)) out) in
    if ltb n 10 then String.◌∷◌ (digit n) out else more

unfoldable pub itoa : ℕ → String
unfolding emit
itoa n = emit (suc n) n ""

-- reading digits back
scan : String → ℕ → ℕ
scan String.[] n = n
scan (String.◌∷◌ c s) n = scan s (n * 10 + (code c - 48))

digit-code : (d : ℕ) → d < 10 → code (digit d) ≡ 48 + d
digit-code zero h = refl
digit-code (suc zero) h = refl
digit-code (suc (suc zero)) h = refl
digit-code (suc (suc (suc zero))) h = refl
digit-code (suc (suc (suc (suc zero)))) h = refl
digit-code (suc (suc (suc (suc (suc zero))))) h = refl
digit-code (suc (suc (suc (suc (suc (suc zero)))))) h = refl
digit-code (suc (suc (suc (suc (suc (suc (suc zero))))))) h = refl
digit-code (suc (suc (suc (suc (suc (suc (suc (suc zero)))))))) h = refl
digit-code (suc (suc (suc (suc (suc (suc (suc (suc (suc zero))))))))) h = refl
digit-code (suc (suc (suc (suc (suc (suc (suc (suc (suc (suc d)))))))))) h = absurd (omega arith)

scan-digit :
    (d : ℕ) (out : String) (m : ℕ)
    → d < 10
    → scan (String.◌∷◌ (digit d) out) m ≡ scan out (m * 10 + d)
unfolding scan
scan-digit d out m h = ap (scan out) (omega (arith, digit-code d h))

-- as much fuel as the number is enough
scan-emit : (fuel n : ℕ) (out : String) → n < fuel → scan (emit fuel n out) 0 ≡ scan out n
unfolding emit
scan-emit zero n out h = absurd (omega arith)
scan-emit (suc fuel) n out h =
    by_size (Bool-cases (ltb n 10)) (scan-emit fuel (n / 10) (String.◌∷◌ (digit (n % 10)) out))
  where
    by_size :
        (ltb n 10 ≡ true) ⊎ (ltb n 10 ≡ false)
        → (n / 10 < fuel
            → scan (emit fuel (n / 10) (String.◌∷◌ (digit (n % 10)) out)) 0
              ≡ scan (String.◌∷◌ (digit (n % 10)) out) (n / 10))
        → scan (emit (suc fuel) n out) 0 ≡ scan out n
    by_size (inl small) later =
        rw small (scan-digit n out 0 (ltb→lt n 10 small) ∙ ap (scan out) (omega arith))
    by_size (inr large) later =
        let bound : 10 ≤ n = ltb→le n 10 large in
        rw large (
          later (omega arith)
          ∙ scan-digit (n % 10) out (n / 10) (omega arith)
          ∙ ap (scan out) (omega arith))

-- The decimal print of a number determines it.
pub itoa-injective : (m n : ℕ) → itoa m ≡ itoa n → m ≡ n
unfolding itoa scan
itoa-injective m n e =
    sym (scan-emit (suc m) m "" (omega arith))
    ∙ ap (λ s. scan s 0) e
    ∙ scan-emit (suc n) n "" (omega arith)

lacks-digit :
    (d : ℕ) (out : String)
    → d < 10
    → lacks b':' out ≡ true
    → lacks b':' (String.◌∷◌ (digit d) out) ≡ true
unfolding lacks
lacks-digit d out h e = ground (arith, digit-code d h)

lacks-emit :
    (fuel n : ℕ) (out : String) → lacks b':' out ≡ true → lacks b':' (emit fuel n out) ≡ true
unfolding emit
lacks-emit zero n out e = e
lacks-emit (suc fuel) n out e =
    by_size (Bool-cases (ltb n 10)) (lacks-emit fuel (n / 10) (String.◌∷◌ (digit (n % 10)) out))
  where
    by_size :
        (ltb n 10 ≡ true) ⊎ (ltb n 10 ≡ false)
        → (lacks b':' (String.◌∷◌ (digit (n % 10)) out) ≡ true
            → lacks b':' (emit fuel (n / 10) (String.◌∷◌ (digit (n % 10)) out)) ≡ true)
        → lacks b':' (emit (suc fuel) n out) ≡ true
    by_size (inl small) later = rw small (lacks-digit n out (ltb→lt n 10 small) e)
    by_size (inr large) later = rw large (later (lacks-digit (n % 10) out (omega arith) e))

-- A print has no colon.
pub lacks-itoa : (n : ℕ) → lacks b':' (itoa n) ≡ true
unfolding itoa lacks
lacks-itoa n = lacks-emit (suc n) n "" refl
