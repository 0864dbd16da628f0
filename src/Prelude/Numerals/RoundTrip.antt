-- ===== src/Prelude/Numerals/RoundTrip.antt =====
-- Reading a printed number back.
use Prim.Native.Nat.{ℕ, zero, suc, ◌+◌, ◌-◌, ◌*◌, ◌/◌, ◌%◌, ◌<◌}
use Prim.Native.Char.{Char, code}
use text.Mathlib.TextLemmas.{nil-append, cons-append}
use Prim.Native.String
use Prim.Native.String.{String}
use mathlib.Core.Path.{◌≡◌, refl, ap, ◌∙◌}
use mathlib.Core.Bool.{true, ◌&&◌}
use mathlib.Core.Option.{Option, none, some}
use native.Mathlib.Omega.{arith}
use meteor_operator.Prelude.Tests.{leb, if◌then◌else◌}
use meteor_operator.Prelude.Dashes.{dashless}
use meteor_operator.Prelude.Numerals.{digit, format_from, format_int}

-- The number after the digits that are left, from the number before them.
unfoldable pub parse_from : ℕ → String → Option ℕ
parse_from n String.[] = some n
parse_from n (String.◌∷◌ c s) =
    let rest = parse_from (10 * n + (code c - b'0')) s in
    if leb b'0' (code c) && leb (code c) b'9' then rest else none

unfoldable pub parse_int : String → Option ℕ
unfolding parse_from
parse_int s = parse_from 0 s

one-append : (c : Char) (s : String) → String.◌++◌ (String.◌∷◌ c String.[]) s ≡ String.◌∷◌ c s
one-append c s = cons-append c String.[] s ∙ ap (String.◌∷◌ c) (nil-append s)

abbrev digit_char : ℕ → Char
digit_char zero = "0"
digit_char (suc zero) = "1"
digit_char (suc (suc zero)) = "2"
digit_char (suc (suc (suc zero))) = "3"
digit_char (suc (suc (suc (suc zero)))) = "4"
digit_char (suc (suc (suc (suc (suc zero))))) = "5"
digit_char (suc (suc (suc (suc (suc (suc zero)))))) = "6"
digit_char (suc (suc (suc (suc (suc (suc (suc zero))))))) = "7"
digit_char (suc (suc (suc (suc (suc (suc (suc (suc zero)))))))) = "8"
digit_char _ = "9"

code-digit_char : (d : ℕ) → d < 10 → code (digit_char d) ≡ 48 + d
code-digit_char zero h = refl
code-digit_char (suc zero) h = refl
code-digit_char (suc (suc zero)) h = refl
code-digit_char (suc (suc (suc zero))) h = refl
code-digit_char (suc (suc (suc (suc zero)))) h = refl
code-digit_char (suc (suc (suc (suc (suc zero))))) h = refl
code-digit_char (suc (suc (suc (suc (suc (suc zero)))))) h = refl
code-digit_char (suc (suc (suc (suc (suc (suc (suc zero))))))) h = refl
code-digit_char (suc (suc (suc (suc (suc (suc (suc (suc zero)))))))) h = refl
code-digit_char (suc (suc (suc (suc (suc (suc (suc (suc (suc zero))))))))) h = refl
code-digit_char (suc (suc (suc (suc (suc (suc (suc (suc (suc (suc d)))))))))) h =
    absurd (omega arith)

digit-char : (d : ℕ) → digit d ≡ String.◌∷◌ (digit_char d) String.[]
unfolding digit
digit-char zero = refl
digit-char (suc zero) = refl
digit-char (suc (suc zero)) = refl
digit-char (suc (suc (suc zero))) = refl
digit-char (suc (suc (suc (suc zero)))) = refl
digit-char (suc (suc (suc (suc (suc zero))))) = refl
digit-char (suc (suc (suc (suc (suc (suc zero)))))) = refl
digit-char (suc (suc (suc (suc (suc (suc (suc zero))))))) = refl
digit-char (suc (suc (suc (suc (suc (suc (suc (suc zero)))))))) = refl
digit-char (suc (suc (suc (suc (suc (suc (suc (suc (suc d))))))))) = refl

digit-append : (d : ℕ) (s : String) → String.◌++◌ (digit d) s ≡ String.◌∷◌ (digit_char d) s
digit-append d s = ap (λ t. String.◌++◌ t s) (digit-char d) ∙ one-append (digit_char d) s

parse_from-cons :
    (c : Char) (d n : ℕ) (s : String)
    → code c ≡ 48 + d
    → d < 10
    → parse_from n (String.◌∷◌ c s) ≡ parse_from (10 * n + d) s
unfolding parse_from
parse_from-cons c d n s e h = ground arith

parse_from-digit :
    (d n : ℕ) (s : String)
    → d < 10
    → parse_from n (String.◌++◌ (digit d) s) ≡ parse_from (10 * n + d) s
parse_from-digit d n s h =
    ap (parse_from n) (digit-append d s)
    ∙ parse_from-cons (digit_char d) d n s (code-digit_char d h) h

parse_from-format_from :
    (f n : ℕ) (s : String) → n < f → parse_from 0 (format_from f n s) ≡ parse_from n s
unfolding format_from
parse_from-format_from zero n s h = elim h [ ]
parse_from-format_from (suc f) n s h = ground (
  arith,
  parse_from-digit (n % 10) 0 s,
  parse_from-digit (n % 10) (n / 10) s,
  parse_from-format_from f (n / 10) (String.◌++◌ (digit (n % 10)) s),
)

-- Every number is read back from its print.
pub parse_int-format_int : (n : ℕ) → parse_int (format_int n) ≡ some n
unfolding parse_int format_int
parse_int-format_int n = parse_from-format_from (suc n) n "" (omega arith)

dashless-cons :
    (c : Char) (d : ℕ) (s : String) → code c ≡ 48 + d → dashless (String.◌∷◌ c s) ≡ dashless s
unfolding dashless
dashless-cons c d s e = ground arith

dashless-digit : (d : ℕ) (s : String) → d < 10 → dashless (String.◌++◌ (digit d) s) ≡ dashless s
dashless-digit d s h =
    ap dashless (digit-append d s) ∙ dashless-cons (digit_char d) d s (code-digit_char d h)

dashless-format_from : (f n : ℕ) (s : String) → dashless (format_from f n s) ≡ dashless s
unfolding format_from
dashless-format_from zero n s = refl
dashless-format_from (suc f) n s = ground (
  arith,
  dashless-digit (n % 10) s,
  dashless-format_from f (n / 10) (String.◌++◌ (digit (n % 10)) s),
)

dashless-nil : dashless "" ≡ true
unfolding dashless
dashless-nil = refl

pub dashless-format_int : (n : ℕ) → dashless (format_int n) ≡ true
unfolding format_int
dashless-format_int n = dashless-format_from (suc n) n "" ∙ dashless-nil
