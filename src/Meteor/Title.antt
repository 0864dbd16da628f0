-- ===== src/Meteor/Title.antt =====
-- `strings.Title`, for the ASCII texts that names of pipelines are. Other characters count as
-- letters that have no title case.
use Prim.Native.Char.{Char, code}
use Prim.Native.String
use meteor_operator.Prelude.{ℕ, ◌-◌, String, Bool, true, not, ◌&&◌, ◌||◌, leb, eqb, if◌then◌else◌}

abbrev within : ℕ → ℕ → ℕ → Bool
within low n high = leb low n && leb n high

-- Go's `isSeparator`: neither a letter, nor a digit, nor an underscore.
abbrev is_separator : ℕ → Bool
is_separator n = not (within 48 n 57 || within 65 n 90 || within 97 n 122 || eqb n 95 || leb 128 n)

abbrev to_title : Char → Char
to_title c =
    if within 97 (code c) 122 then String.char_at "ABCDEFGHIJKLMNOPQRSTUVWXYZ" (code c - 97) else c

-- The flag says whether the character before was a separator.
title_from : Bool → String → String
title_from starts String.[] = String.[]
title_from starts (String.◌∷◌ c s) =
    let rest = title_from (is_separator (code c)) s in
    String.◌∷◌ (if starts then to_title c else c) rest

unfoldable pub title : String → String
unfolding title_from
title s = title_from true s
