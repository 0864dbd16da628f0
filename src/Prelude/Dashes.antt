-- ===== src/Prelude/Dashes.antt =====
-- Texts that are joined by dashes, and taken apart at the last dash.
use Prim.Native.Char.{Char, code}
use text.Mathlib.TextLemmas.{nil-append, cons-append}
use Prim.Native.String
use Prim.Native.String.{String}
use mathlib.Core.Path.{◌≡◌, refl, ap, ◌∙◌}
use mathlib.Core.Bool.{Bool, true, not, ◌&&◌}
use mathlib.Core.Option.{Option, none, some}
use native.Mathlib.Omega.{arith}
use meteor_operator.Prelude.Tests.{eqb, if◌then◌else◌}

abbrev pub is_dash : Char → Bool
is_dash c = eqb (code c) b'-'

-- No character is a dash.
unfoldable pub dashless : String → Bool
dashless String.[] = true
dashless (String.◌∷◌ c s) = not (is_dash c) && dashless s

-- What stands before the last dash, and what stands after it.
abbrev cut_at : Char → String → Option (String × String) → Option (String × String)
cut_at c s (some (before, after)) = some (String.◌∷◌ c before, after)
cut_at c s none = if is_dash c then some ("", s) else none

unfoldable pub cut_last : String → Option (String × String)
cut_last String.[] = none
cut_last (String.◌∷◌ c s) = cut_at c s (cut_last s)

pub cut_last-dashless : (s : String) → dashless s ≡ true → cut_last s ≡ none
unfolding cut_last dashless
cut_last-dashless String.[] h = refl
cut_last-dashless (String.◌∷◌ c s) h = ground (arith, cut_last-dashless s)

cut_last-dash :
    (after : String) → dashless after ≡ true → cut_last (String.◌∷◌ "-" after) ≡ some ("", after)
unfolding cut_last
cut_last-dash after h = rw (cut_last-dashless after h) refl

pub dash-append : (after : String) → String.◌++◌ "-" after ≡ String.◌∷◌ "-" after
dash-append after = cons-append "-" String.[] after ∙ ap (String.◌∷◌ "-") (nil-append after)

cut_last-cons :
    (c : Char) (s before after : String)
    → cut_last s ≡ some (before, after)
    → cut_last (String.◌∷◌ c s) ≡ some (String.◌∷◌ c before, after)
unfolding cut_last
cut_last-cons c s before after h = rw h refl

-- A text that ends with a dash and a text without dashes is cut there.
pub cut_last-append :
    (before after : String)
    → dashless after ≡ true
    → cut_last (String.◌++◌ before (String.◌++◌ "-" after)) ≡ some (before, after)
cut_last-append String.[] after h =
    ap cut_last (nil-append (String.◌++◌ "-" after) ∙ dash-append after) ∙ cut_last-dash after h
cut_last-append (String.◌∷◌ c before) after h =
    ap cut_last (cons-append c before (String.◌++◌ "-" after))
    ∙ cut_last-cons c (String.◌++◌ before (String.◌++◌ "-" after)) before after
        (cut_last-append before after h)
