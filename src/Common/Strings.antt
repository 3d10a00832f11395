-- ===== src/Common/Strings.antt =====
-- The functions of Go's package strings that the program calls, on characters.
use Prim.Native.String.{String, count}
use Prim.Native.Char.{Char}
use Prim.Native.Nat.{suc, ◌≤◌}
use mathlib.Core.Path.{◌≡◌, sym}
use mathlib.Core.Logic.{inl, inr}
use mathlib.Core.Bool.{Bool, true, false, ◌&&◌, ◌||◌}
use mathlib.Core.List.{List, [], ◌∷◌}
use native.Mathlib.Omega.{arith}
use text.Mathlib.Text.{◌==◌}
use text.Mathlib.TextLemmas.{length-cons}
use runn.Common.Tests.{if◌then◌else◌, Bool-cases}

-- Whether a character is the one of a text of one character.
abbrev pub is_char : String → Char → Bool
is_char t c = String.◌∷◌ c String.[] == t

-- `strings.HasPrefix` and `strings.HasSuffix` with a text of one character.
unfoldable pub has_first : String → String → Bool
has_first q String.[] = false
has_first q (String.◌∷◌ c s) = is_char q c

unfoldable pub has_last : String → String → Bool
has_last q String.[] = false
has_last q (String.◌∷◌ c String.[]) = is_char q c
has_last q (String.◌∷◌ c (String.◌∷◌ d s)) = has_last q (String.◌∷◌ d s)

-- `strings.TrimPrefix` and `strings.TrimSuffix` with a text of one character.
unfoldable pub trim_first : String → String → String
trim_first q String.[] = ""
trim_first q (String.◌∷◌ c s) = if is_char q c then s else String.◌∷◌ c s

unfoldable pub trim_last : String → String → String
trim_last q String.[] = ""
trim_last q (String.◌∷◌ c String.[]) = if is_char q c then "" else String.◌∷◌ c String.[]
trim_last q (String.◌∷◌ c (String.◌∷◌ d s)) = String.◌∷◌ c (trim_last q (String.◌∷◌ d s))

-- `strings.Replace(s, a + b, b, -1)` for two characters.
unfoldable pub drop_escape : String → String → String → String
drop_escape a b String.[] = ""
drop_escape a b (String.◌∷◌ c String.[]) = String.◌∷◌ c String.[]
drop_escape a b (String.◌∷◌ c (String.◌∷◌ d s)) =
    let found = String.◌∷◌ d (drop_escape a b s) in
    let other = String.◌∷◌ c (drop_escape a b (String.◌∷◌ d s)) in
    if is_char a c && is_char b d then found else other

-- `strings.Split` at a text of one character; a first part that the loop has read so far is `here`.
abbrev pub add_first : Char → List String → List String
add_first c [] = String.◌∷◌ c String.[] ∷ []
add_first c (part ∷ parts) = String.◌∷◌ c part ∷ parts

unfoldable pub split : String → String → List String
split q String.[] = "" ∷ []
split q (String.◌∷◌ c s) =
    let rest = split q s in if is_char q c then "" ∷ rest else add_first c rest

module _ (q : String) where
  pub count-trim_first :
      (s : String) → has_first q s ≡ true → suc (count (trim_first q s)) ≡ count s
  unfolding has_first trim_first
  count-trim_first String.[] h = absurd (cc)
  count-trim_first (String.◌∷◌ c s) h = rw h (sym (length-cons c s))

  pub count-trim_last : (s : String) → count (trim_last q s) ≤ count s
  unfolding trim_last
  count-trim_last String.[] = omega arith
  count-trim_last (String.◌∷◌ c String.[]) = elim (Bool-cases (is_char q c)) [
    | inl h ↦ rw h (omega (arith, length-cons c ""))
    | inr h ↦ rw h (omega arith)
  ]
  count-trim_last (String.◌∷◌ c (String.◌∷◌ d s)) = omega (
    arith,
    count-trim_last (String.◌∷◌ d s),
    length-cons c (String.◌∷◌ d s),
    length-cons c (trim_last q (String.◌∷◌ d s)),
  )

pub count-drop_escape : (a b s : String) → count (drop_escape a b s) ≤ count s
unfolding drop_escape
count-drop_escape a b String.[] = omega arith
count-drop_escape a b (String.◌∷◌ c String.[]) = omega arith
count-drop_escape a b (String.◌∷◌ c (String.◌∷◌ d s)) =
    let found = count-drop_escape a b s in
    let other = count-drop_escape a b (String.◌∷◌ d s) in
    elim (Bool-cases (is_char a c && is_char b d)) [
      | inl h ↦ rw h (
          omega (
            arith,
            found,
            length-cons d (drop_escape a b s),
            length-cons d s,
            length-cons c (String.◌∷◌ d s),
          ))
      | inr h ↦ rw h (
          omega (
            arith,
            other,
            length-cons c (drop_escape a b (String.◌∷◌ d s)),
            length-cons c (String.◌∷◌ d s),
          ))
    ]

-- A character of the cutset.
abbrev pub in_cutset : String → Char → Bool
in_cutset String.[] c = false
in_cutset (String.◌∷◌ d cutset) c = is_char (String.◌∷◌ d String.[]) c || in_cutset cutset c

unfoldable pub trim_left : String → String → String
trim_left cutset String.[] = ""
trim_left cutset (String.◌∷◌ c s) =
    let rest = trim_left cutset s in if in_cutset cutset c then rest else String.◌∷◌ c s

unfoldable pub trim_right : String → String → String
trim_right cutset String.[] = ""
trim_right cutset (String.◌∷◌ c s) =
    let rest = trim_right cutset s in
    if rest == "" && in_cutset cutset c then "" else String.◌∷◌ c rest

-- `strings.Trim`
unfoldable pub trim : String → String → String
unfolding trim_left trim_right
trim cutset s = trim_right cutset (trim_left cutset s)

-- `strings.ToUpper` on the letters of ASCII; no other letter is in the name of an HTTP method.
abbrev upper_char : String → String → Char → Char
upper_char String.[] uppers c = c
upper_char (String.◌∷◌ l lowers) String.[] c = c
upper_char (String.◌∷◌ l lowers) (String.◌∷◌ u uppers) c =
    let later = upper_char lowers uppers c in
    if is_char (String.◌∷◌ l String.[]) c then u else later

unfoldable pub to_upper : String → String
to_upper String.[] = ""
to_upper (String.◌∷◌ c s) =
    String.◌∷◌ (upper_char "abcdefghijklmnopqrstuvwxyz" "ABCDEFGHIJKLMNOPQRSTUVWXYZ" c) (to_upper s)
