-- ===== src/Common/Text.antt =====
-- Texts: the decimal form of a number, and `strings.Join`.
use Prim.Native.String.{◌++◌}
use runn.Common.{ℕ, zero, suc, ◌/◌, ◌%◌, String, ◌≡◌, refl, List, [], ◌∷◌, eqb, ltb, if◌then◌else◌}

digit : ℕ → String
digit n =
    if eqb n 0
    then "0"
    else if eqb n 1
    then "1"
    else if eqb n 2
    then "2"
    else if eqb n 3
    then "3"
    else if eqb n 4
    then "4"
    else if eqb n 5
    then "5"
    else if eqb n 6
    then "6"
    else if eqb n 7
    then "7"
    else if eqb n 8
    then "8"
    else "9"

-- One round for each digit; a number has fewer digits than its successor counts.
decimal_from : ℕ → ℕ → String → String
decimal_from zero n acc = acc
decimal_from (suc fuel) n acc =
    let longer = decimal_from fuel (n / 10) (digit (n % 10) ++ acc) in
    if ltb n 10 then digit n ++ acc else longer

-- `%d` of a number that is not negative.
unfoldable pub decimal : ℕ → String
unfolding digit decimal_from
decimal n = decimal_from (suc n) n ""

decimal_sample : decimal 1203 ≡ "1203"
unfolding decimal
decimal_sample = refl

-- `strings.Join(l, sep)`
unfoldable pub join : String → List String → String
join sep [] = ""
join sep (s ∷ []) = s
join sep (s ∷ t ∷ l) = s ++ (sep ++ join sep (t ∷ l))
