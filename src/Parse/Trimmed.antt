-- ===== src/Parse/Trimmed.antt =====
-- `trimStringDelimiter` ends, and leaves no quotes around a text.
use Prim.Native.String.{count}
use text.Mathlib.TextLemmas.{length-cons}
use runn.Common.{
  ℕ, zero, suc, ◌<◌, ◌≤◌, String, ◌≡◌, refl, true, false, inl, inr, arith, Bool-cases,
}
use runn.Common.Strings.{
  has_first, trim_first, drop_escape, count-trim_first, count-trim_last, count-drop_escape,
}
use runn.Parse.Delimiter.{is_quoted, unquote, trim_from, trim_string_delimiter}

count-unquote : (q s : String) → is_quoted q s ≡ true → count (unquote q s) < count s
unfolding is_quoted
count-unquote q s h =
    let first : has_first q s ≡ true = ground arith in
    omega (arith, count-trim_first q s first, count-trim_last q (trim_first q s))

-- No quotes are around the text.
abbrev pub IsTrimmed : String → Type 0
IsTrimmed s = (is_quoted "'" s ≡ false) × (is_quoted "\"" s ≡ false)

trim_from-IsTrimmed : (n : ℕ) (s : String) → count s ≤ n → IsTrimmed (trim_from n s)
unfolding trim_from is_quoted has_first
trim_from-IsTrimmed zero String.[] h = (refl, refl)
trim_from-IsTrimmed zero (String.◌∷◌ c s) h = absurd (omega (arith, h, length-cons c s))
trim_from-IsTrimmed (suc n) s h = elim (Bool-cases (is_quoted "'" s)) [
  | inl single ↦
      rw (single, trim_from)
        (trim_from-IsTrimmed n (unquote "'" s) (omega (arith, h, count-unquote "'" s single)))
  | inr plain ↦ elim (Bool-cases (is_quoted "\"" s)) [
    | inl double ↦
        rw (plain, trim_from)
          (rw (double, trim_from)
            (trim_from-IsTrimmed n (drop_escape "\\" "\"" (unquote "\"" s)) (
              omega (
                arith,
                h,
                count-unquote "\"" s double,
                count-drop_escape "\\" "\"" (unquote "\"" s),
              ))))
    | inr bare ↦ rw (plain, trim_from) (rw (bare, trim_from) (plain, bare))
  ]
]

-- The loop of `trimStringDelimiter` ends after at most as many rounds as the text has characters, and
-- no pair of quotes is left around the text.
pub trim_string_delimiter-IsTrimmed : (s : String) → IsTrimmed (trim_string_delimiter s)
unfolding trim_string_delimiter
trim_string_delimiter-IsTrimmed s = trim_from-IsTrimmed (count s) s (omega arith)
