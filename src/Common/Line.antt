-- ===== src/Common/Line.antt =====
-- The first line of a text.
use Prim.Native.Char.{code}
use Prim.Native.String.{String, [], ◌∷◌}
use kinby.Common.Tests.{nat_eq, ◌==◌, if◌then◌else◌}

-- `text.split("\n", 1)[0]`: up to the first line feed, the character with the code 10.
unfoldable pub first_line : String → String
first_line [] = []
first_line (c ∷ rest) = let line = first_line rest in if code c == 10 then [] else c ∷ line
