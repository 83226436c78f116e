-- ===== src/Common/Slices.antt =====
-- Texts cut by position, searched and split: Python's slices, `startswith`, `in` and `split`.
use Prim.Native.Nat.{ℕ, zero, suc}
use Prim.Native.Char.{Char, code}
use Prim.Native.String.{String, [], ◌∷◌}
use mathlib.Core.Path.{◌≡◌, refl}
use mathlib.Core.Bool.{Bool, true, false, ◌&&◌, ◌||◌}
use mathlib.Core.List.{List, [] as []ᴸ, ◌∷◌ as ◌∷ᴸ◌}
use kinby.Common.Tests.{nat_eq, ◌==◌, if◌then◌else◌}

-- Whether a character is the one with this code.
abbrev pub is : ℕ → Char → Bool
is n c = code c == n

-- s + t
abbrev pub append : String → String → String
append [] t = t
append (c ∷ s) t = c ∷ append s t

-- len(s)
abbrev pub chars : String → ℕ
chars [] = 0
chars (c ∷ s) = suc (chars s)

-- s[:n]
unfoldable pub take_text : ℕ → String → String
take_text zero s = []
take_text (suc n) [] = []
take_text (suc n) (c ∷ rest) = c ∷ take_text n rest

-- s[n:]
unfoldable pub drop_text : ℕ → String → String
drop_text zero s = s
drop_text (suc n) [] = []
drop_text (suc n) (c ∷ rest) = drop_text n rest

-- s.startswith(prefix)
unfoldable pub starts_with : String → String → Bool
starts_with s [] = true
starts_with [] (p ∷ prefix) = false
starts_with (c ∷ s) (p ∷ prefix) = code c == code p && starts_with s prefix

-- `part in s`
unfoldable pub contains : String → String → Bool
unfolding starts_with
contains part [] = starts_with [] part
contains part (c ∷ s) = starts_with (c ∷ s) part || contains part s

-- Whether some character of the text has the property.
unfoldable pub any_char : (Char → Bool) → String → Bool
any_char p [] = false
any_char p (c ∷ s) = p c || any_char p s

-- How many characters stand before the first one without the property.
unfoldable pub length_while : (Char → Bool) → String → ℕ
length_while p [] = 0
length_while p (c ∷ s) = let later = length_while p s in if p c then suc later else 0

abbrev in_front : Char → List String → List String
in_front c []ᴸ = (c ∷ []) ∷ᴸ []ᴸ
in_front c (part ∷ᴸ parts) = (c ∷ part) ∷ᴸ parts

-- `s.split(c)` for the character with this code: one part at least
unfoldable pub split_on : ℕ → String → List String
split_on n [] = [] ∷ᴸ []ᴸ
split_on n (c ∷ s) = let parts = split_on n s in if is n c then [] ∷ᴸ parts else in_front c parts

contains_test : contains "=~" "a=~b" ≡ true
unfolding contains
contains_test = refl
