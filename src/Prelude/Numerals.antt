-- ===== src/Prelude/Numerals.antt =====
-- `fmt.Sprintf` with %s and %d verbs, and `strconv.FormatInt(n, 10)`, for numbers from 0 up.
pub mod RoundTrip
use Prim.Native.Nat.{ℕ, zero, suc, ◌/◌, ◌%◌, ◌<◌}
use Prim.Native.String
use Prim.Native.String.{String}
use mathlib.Core.Path.{◌≡◌, refl}
use mathlib.Core.List.{List, [], ◌∷◌}
use native.Mathlib.Omega.{arith}
use meteor_operator.Prelude.Tests.{eqb, if◌then◌else◌}

digit : ℕ → String
digit zero = "0"
digit (suc zero) = "1"
digit (suc (suc zero)) = "2"
digit (suc (suc (suc zero))) = "3"
digit (suc (suc (suc (suc zero)))) = "4"
digit (suc (suc (suc (suc (suc zero))))) = "5"
digit (suc (suc (suc (suc (suc (suc zero)))))) = "6"
digit (suc (suc (suc (suc (suc (suc (suc zero))))))) = "7"
digit (suc (suc (suc (suc (suc (suc (suc (suc zero)))))))) = "8"
digit _ = "9"

-- The digits of `n` before `out`; the fuel bounds the number of digits.
format_from : ℕ → ℕ → String → String
format_from zero n out = out
format_from (suc fuel) n out =
    let written = String.◌++◌ (digit (n % 10)) out in
    let more = format_from fuel (n / 10) written in if eqb (n / 10) 0 then written else more

-- A number has fewer digits than one more than itself.
unfoldable pub format_int : ℕ → String
unfolding format_from digit
format_int n = format_from (suc n) n ""

-- More fuel than the number changes nothing.
format_from-fuel :
    (f g n : ℕ) (out : String) → n < f → n < g → format_from f n out ≡ format_from g n out
unfolding format_from
format_from-fuel zero g n out p q = absurd (omega arith)
format_from-fuel (suc f) zero n out p q = absurd (omega arith)
format_from-fuel (suc f) (suc g) n out p q =
    ground (arith, format_from-fuel f g (n / 10) (String.◌++◌ (digit (n % 10)) out))

-- The format string with its verbs filled in, piece by piece.
unfoldable pub sprintf : List String → String
sprintf [] = ""
sprintf (s ∷ rest) = String.◌++◌ s (sprintf rest)

sprintf_test :
    sprintf ("cre-" ∷ "a" ∷ "-" ∷ format_int 1203 ∷ "-" ∷ "import" ∷ []) ≡ "cre-a-1203-import"
unfolding sprintf format_int
sprintf_test = refl
