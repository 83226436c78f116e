-- ===== src/Common/Text.antt =====
-- Messages: the parts of an f-string joined, and a number in decimal.
use Prim.Native.Nat.{ℕ, zero, suc, ◌+◌, ◌/◌, ◌%◌}
use Prim.Native.String.{String}
use Prim.Native.String
use mathlib.Core.Path.{◌≡◌, refl}
use mathlib.Core.List.{List, [], ◌∷◌}
use kinby.Common.Tests.{ltb, nat_eq, ◌==◌, if◌then◌else◌}

unfoldable pub text : List String → String
text [] = ""
text (s ∷ parts) = String.◌++◌ s (text parts)

abbrev digit : ℕ → String
digit d =
    if d == 0
    then "0"
    else if d == 1
    then "1"
    else if d == 2
    then "2"
    else if d == 3
    then "3"
    else if d == 4
    then "4"
    else if d == 5
    then "5"
    else if d == 6
    then "6"
    else if d == 7
    then "7"
    else if d == 8
    then "8"
    else "9"

-- `str(n)`: the fuel bounds the number of digits, and `n + 1` rounds suffice for `n`.
decimal_fuel : ℕ → ℕ → String
decimal_fuel zero n = ""
decimal_fuel (suc fuel) n =
    let rest = decimal_fuel fuel (n / 10) in
    if ltb n 10 then digit n else text (rest ∷ digit (n % 10) ∷ [])

unfoldable pub decimal : ℕ → String
unfolding decimal_fuel text
decimal n = decimal_fuel (n + 1) n

decimal_test : decimal 1250 ≡ "1250"
unfolding decimal
decimal_test = refl
