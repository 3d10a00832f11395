-- ===== src/Statements/Pieces.antt =====
-- The statements that `separateStmt` finds make up the text, and each is one statement by itself.
use Prim.Native.Char.{Char}
use Prim.Native.String.{◌++◌}
use text.Mathlib.TextLemmas.{cons-append, nil-append}
use runn.Common.{
  All, arith, eq_iff, ◌==◌, sym, subst, String, ◌≡◌, refl, ap, ◌∙◌, Bool, true, false, List, [],
  ◌∷◌, if◌then◌else◌,
}
use runn.Common.Strings.{is_char}
use runn.Statements.Quotes.{
  count_char, Unended, Ended, bit, heads, Unended-nil, next_ins, next_ind, Unended-cons, Ended-cons,
}
use runn.Statements.{flip_if, closes, add_char, close_with, scan}

-- The statements and the rest, one after the other.
abbrev pub whole : List String × String → String
whole ([], rest) = rest
whole (p ∷ ps, rest) = p ++ whole (ps, rest)

whole-add_char :
    (c : Char) (x : List String × String) → whole (add_char c x) ≡ String.◌∷◌ c (whole x)
whole-add_char c ([], rest) = refl
whole-add_char c (p ∷ ps, rest) = cons-append c p (whole (ps, rest))

whole-scan : (ins ind : Bool) (s : String) → whole (scan ins ind s) ≡ s
unfolding scan
whole-scan ins ind String.[] = refl
whole-scan ins ind (String.◌∷◌ c s) =
    by_close (closes ins ind c)
      (scan (flip_if (is_char "'" c) ins) (flip_if (is_char "\"" c) ind) s)
      (whole-scan (flip_if (is_char "'" c) ins) (flip_if (is_char "\"" c) ind) s)
  where
    by_close :
        (b : Bool) (later : List String × String)
        → whole later ≡ s
        → whole (if b then close_with c later else add_char c later) ≡ String.◌∷◌ c s
    by_close true (ps, rest) h =
        cons-append c "" (whole (ps, rest))
        ∙ (ap (λ s. String.◌∷◌ c s) (nil-append (whole (ps, rest))) ∙ ap (λ s. String.◌∷◌ c s) h)
    by_close false later h = whole-add_char c later ∙ ap (λ s. String.◌∷◌ c s) h

-- Each statement is ended by its semicolon, and the rest has none outside of quotes.
abbrev pub IsSeparate : List String × String → Type 0
IsSeparate x = All (Ended 0 0) x.0 × Unended 0 0 x.1

-- The same with quotes open before the first of the statements.
SeparateFrom : Bool → Bool → List String × String → Type 0
SeparateFrom ins ind ([], rest) = Unended (bit ins) (bit ind) rest
SeparateFrom ins ind (p ∷ ps, rest) =
    Ended (bit ins) (bit ind) p × SeparateFrom false false (ps, rest)

module _ (ins ind : Bool) (c : Char) where
  add_char-SeparateFrom :
      (x : List String × String)
      → closes ins ind c ≡ false
      → SeparateFrom (next_ins ins ind c) (next_ind ins ind c) x
      → SeparateFrom ins ind (add_char c x)
  unfolding SeparateFrom
  add_char-SeparateFrom ([], rest) going h = Unended-cons ins ind c rest going h
  add_char-SeparateFrom (p ∷ ps, rest) going (h, others) = (Ended-cons ins ind c p going h, others)

-- A semicolon that closes stands outside of quotes, and the next statement begins there.
closes-outside :
    (ins ind : Bool) (c : Char)
    → closes ins ind c ≡ true
    → (ins ≡ false)
      × (ind ≡ false)
      × (c ≡ ";")
      × (flip_if (is_char "'" c) ins ≡ false)
      × (flip_if (is_char "\"" c) ind ≡ false)
closes-outside ins ind c h =
    let same : String.◌∷◌ c String.[] ≡ ";" = ground (arith, eq_iff (String.◌∷◌ c String.[]) ";") in
    let open₁ : ins ≡ false = ground arith in
    let open₂ : ind ≡ false = ground arith in
    (
      open₁,
      open₂,
      heads same,
      ap (λ t. flip_if (t == "'") ins) same ∙ open₁,
      ap (λ t. flip_if (t == "\"") ind) same ∙ open₂,
    )

semicolon-Ended : Ended 0 0 ";"
unfolding count_char
semicolon-Ended = record { body = ""; ends = refl; outside = (refl, refl); only = Unended-nil 0 0 }

close_with-SeparateFrom :
    (ins ind : Bool) (c : Char) (x : List String × String)
    → closes ins ind c ≡ true
    → SeparateFrom (flip_if (is_char "'" c) ins) (flip_if (is_char "\"" c) ind) x
    → SeparateFrom ins ind (close_with c x)
unfolding SeparateFrom
close_with-SeparateFrom ins ind c (ps, rest) h k =
    let (no_single, no_double, same, next_single, next_double) = closes-outside ins ind c h in
    (
      subst (λ c. Ended (bit ins) (bit ind) (String.◌∷◌ c String.[])) (sym same)
          (subst (λ a. Ended (bit a) (bit ind) ";") (sym no_single)
            (subst (λ a. Ended 0 (bit a) ";") (sym no_double) semicolon-Ended)),
      subst (λ a. SeparateFrom a false (ps, rest)) next_single
          (subst (λ a. SeparateFrom (flip_if (is_char "'" c) ins) a (ps, rest)) next_double k),
    )

scan-SeparateFrom : (ins ind : Bool) (s : String) → SeparateFrom ins ind (scan ins ind s)
unfolding SeparateFrom scan
scan-SeparateFrom ins ind String.[] = Unended-nil (bit ins) (bit ind)
scan-SeparateFrom ins ind (String.◌∷◌ c s) =
    by_close (closes ins ind c) refl
      (scan (flip_if (is_char "'" c) ins) (flip_if (is_char "\"" c) ind) s)
      (scan-SeparateFrom (flip_if (is_char "'" c) ins) (flip_if (is_char "\"" c) ind) s)
  where
    by_close :
        (b : Bool)
        → closes ins ind c ≡ b
        → (later : List String × String)
        → SeparateFrom (flip_if (is_char "'" c) ins) (flip_if (is_char "\"" c) ind) later
        → SeparateFrom ins ind (if b then close_with c later else add_char c later)
    by_close true h later k = close_with-SeparateFrom ins ind c later h k
    by_close false h later k = add_char-SeparateFrom ins ind c later h k

from_outside :
    (ps : List String) (rest : String) → SeparateFrom false false (ps, rest) → IsSeparate (ps, rest)
unfolding SeparateFrom
from_outside [] rest h = (tt, h)
from_outside (p ∷ ps) rest (h, others) =
    let (ended, last) = from_outside ps rest others in ((h, ended), last)

-- The loop of `separateStmt`, which begins outside of quotes, loses nothing: the statements with their
-- semicolons and the rest behind them make up the text. Each statement ends with a semicolon before
-- which the number of single quotes and the number of double quotes are even, and has no other such
-- semicolon; and the rest has none.
pub scan-Separate :
    (s : String) → (whole (scan false false s) ≡ s) × IsSeparate (scan false false s)
scan-Separate s =
    let found = scan false false s in
    (whole-scan false false s, from_outside found.0 found.1 (scan-SeparateFrom false false s))
