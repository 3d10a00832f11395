-- ===== src/Common/Replacing.antt =====
-- `strings.NewReplacer(...).Replace` and `strings.Contains`, `Count` and `SplitN` at one character.
use Prim.Native.String.{String, count, ◌++◌}
use Prim.Native.Char.{Char}
use Prim.Native.Nat.{ℕ, zero, suc, ◌-◌}
use mathlib.Core.Bool.{Bool, true}
use mathlib.Core.Option.{Option, none, some}
use mathlib.Core.List.{List, [], ◌∷◌}
use text.Mathlib.Text.{starts_with, ◌==◌}
use runn.Common.Tests.{if◌then◌else◌}

-- The first pair, in the order of the arguments, whose old text stands here.
unfoldable pub first_match : List (String × String) → String → Option (String × String)
first_match [] s = none
first_match ((old, new) ∷ pairs) s =
    let later = first_match pairs s in if starts_with s old then some (old, new) else later

-- The characters of a text that has been replaced are skipped. No old text is empty.
unfoldable pub replace : List (String × String) → ℕ → String → String
replace pairs n String.[] = ""
replace pairs (suc n) (String.◌∷◌ c s) = replace pairs n s
replace pairs zero (String.◌∷◌ c s) = elim (first_match pairs (String.◌∷◌ c s)) [
  | none ↦ String.◌∷◌ c (replace pairs zero s)
  | some (old, new) ↦ new ++ replace pairs (count old - 1) s
]

-- `strings.Contains`
unfoldable pub has_text : String → String → Bool
has_text part String.[] = starts_with "" part
has_text part (String.◌∷◌ c s) =
    let later = has_text part s in if starts_with (String.◌∷◌ c s) part then true else later

-- `strings.TrimPrefix`
unfoldable pub drop_chars : ℕ → String → String
drop_chars zero s = s
drop_chars (suc n) String.[] = ""
drop_chars (suc n) (String.◌∷◌ c s) = drop_chars n s

unfoldable pub trim_prefix : String → String → String
unfolding drop_chars
trim_prefix p s = if starts_with s p then drop_chars (count p) s else s

-- `strings.Count` of a text of one character.
unfoldable pub count_of : String → String → ℕ
count_of q String.[] = 0
count_of q (String.◌∷◌ c s) =
    let rest = count_of q s in if String.◌∷◌ c String.[] == q then suc rest else rest

-- `strings.SplitN(s, q, 2)` at a text of one character, none without it.
abbrev longer : Char → Option (String × String) → Option (String × String)
longer c none = none
longer c (some (before, after)) = some (String.◌∷◌ c before, after)

unfoldable pub cut : String → String → Option (String × String)
cut q String.[] = none
cut q (String.◌∷◌ c s) =
    let rest = longer c (cut q s) in if String.◌∷◌ c String.[] == q then some ("", s) else rest
