-- ===== src/Common/Dots.antt =====
-- Texts cut at their dots.
use Prim.Native.Char.{Char, code}
use Prim.Native.String.{String, [], ◌∷◌}
use mathlib.Core.List.{List, [] as []ᴸ, ◌∷◌ as ◌∷ᴸ◌}
use kinby.Common.Tests.{nat_eq, ◌==◌, if◌then◌else◌}

-- The text before the first dot, and the text after it: `s.partition(".")`.
unfoldable pub before_dot : String → String
before_dot [] = []
before_dot (c ∷ rest) = let later = before_dot rest in if code c == 46 then [] else c ∷ later

unfoldable pub after_dot : String → String
after_dot [] = []
after_dot (c ∷ rest) = let later = after_dot rest in if code c == 46 then rest else later

abbrev in_front : Char → List String → List String
in_front c []ᴸ = (c ∷ []) ∷ᴸ []ᴸ
in_front c (part ∷ᴸ parts) = (c ∷ part) ∷ᴸ parts

-- `s.split(".")`, which has one part at least
unfoldable pub split_dots : String → List String
split_dots [] = [] ∷ᴸ []ᴸ
split_dots (c ∷ rest) =
    let parts = split_dots rest in if code c == 46 then [] ∷ᴸ parts else in_front c parts
