-- ===== src/Statements/Quotes.antt =====
-- The quotes of a text, and which of its semicolons stand outside of them, for `separateStmt` of db.go.
use Prim.Native.Char.{Char}
use Prim.Native.String.{◌++◌}
use text.Mathlib.TextLemmas.{cons-append, nil-append}
use runn.Common.{
  ℕ, ◌+◌, ◌%◌, arith, sym, subst, String, ◌≡◌, refl, ap, ◌∙◌, Bool, true, false, if◌then◌else◌,
}
use runn.Common.Strings.{is_char}
use runn.Statements.{flip_if, closes}

-- The number of characters of a text that are `q`.
unfoldable pub count_char : String → String → ℕ
count_char q String.[] = 0
count_char q (String.◌∷◌ c t) = (if is_char q c then 1 else 0) + count_char q t

-- Behind the text one stands outside of single and of double quotes: of each kind there is an even
-- number, with the quotes `s` and `d` that are open before the text.
abbrev pub Outside : ℕ → ℕ → String → Type 0
Outside s d t = ((s + count_char "'" t) % 2 ≡ 0) × ((d + count_char "\"" t) % 2 ≡ 0)

-- No semicolon of the text stands outside of quotes.
abbrev pub Unended : ℕ → ℕ → String → Type 0
Unended s d t = (a b : String) → t ≡ a ++ String.◌∷◌ ";" b → Outside s d a → ⊥

-- The last character of the text is a semicolon outside of quotes, the only one in it.
pub record Ended (s d : ℕ) (t : String) : Type 0 where
  pub body : String
  pub ends : t ≡ body ++ ";"
  pub outside : Outside s d body
  pub only : Unended s d body

abbrev pub bit : Bool → ℕ
bit b = if b then 1 else 0

flip_parity :
    (b x : Bool) (n : ℕ) → (bit (flip_if b x) + n) % 2 ≡ (bit x + ((if b then 1 else 0) + n)) % 2
flip_parity true true n = omega arith
flip_parity true false n = omega arith
flip_parity false true n = omega arith
flip_parity false false n = omega arith

pub heads : {c x : Char} {t u : String} → String.◌∷◌ c t ≡ String.◌∷◌ x u → c ≡ x
heads e = cc

tails : {c x : Char} {t u : String} → String.◌∷◌ c t ≡ String.◌∷◌ x u → t ≡ u
tails e = cc

pub Unended-nil : (s d : ℕ) → Unended s d ""
Unended-nil s d String.[] b e o = absurd (no_char b (e ∙ nil-append (String.◌∷◌ ";" b)))
  where
    no_char : (b : String) → "" ≡ String.◌∷◌ ";" b → ⊥
    no_char b e = cc
Unended-nil s d (String.◌∷◌ c a) b e o =
    absurd (no_char (a ++ String.◌∷◌ ";" b) (e ∙ cons-append c a (String.◌∷◌ ";" b)))
  where
    no_char : (t : String) → "" ≡ String.◌∷◌ c t → ⊥
    no_char t e = cc

module _ (ins ind : Bool) (c : Char) where
  abbrev pub next_ins : Bool
  next_ins = flip_if (is_char "'" c) ins

  abbrev pub next_ind : Bool
  next_ind = flip_if (is_char "\"" c) ind

  Outside-next :
      (t : String)
      → Outside (bit ins) (bit ind) (String.◌∷◌ c t)
      → Outside (bit next_ins) (bit next_ind) t
  unfolding count_char
  Outside-next t (o, o') = (
    flip_parity (is_char "'" c) ins (count_char "'" t) ∙ o,
    flip_parity (is_char "\"" c) ind (count_char "\"" t) ∙ o',
  )

  Outside-before :
      (t : String)
      → Outside (bit next_ins) (bit next_ind) t
      → Outside (bit ins) (bit ind) (String.◌∷◌ c t)
  unfolding count_char
  Outside-before t (o, o') = (
    sym (flip_parity (is_char "'" c) ins (count_char "'" t)) ∙ o,
    sym (flip_parity (is_char "\"" c) ind (count_char "\"" t)) ∙ o',
  )

  -- A semicolon outside of quotes closes.
  closes-Outside_quotes : c ≡ ";" → Outside (bit ins) (bit ind) "" → closes ins ind c ≡ true
  unfolding count_char
  closes-Outside_quotes same (o, o') = ap (λ x. closes ins ind x) same ∙ by_flags ins ind o o'
    where
      by_flags : (a b : Bool) → (bit a + 0) % 2 ≡ 0 → (bit b + 0) % 2 ≡ 0 → closes a b ";" ≡ true
      by_flags false false o o' = refl
      by_flags true b o o' = absurd (omega arith)
      by_flags false true o o' = absurd (omega arith)

  pub Unended-cons :
      (t : String)
      → closes ins ind c ≡ false
      → Unended (bit next_ins) (bit next_ind) t
      → Unended (bit ins) (bit ind) (String.◌∷◌ c t)
  Unended-cons t going u String.[] b e o =
      let first : c ≡ ";" = heads (e ∙ nil-append (String.◌∷◌ ";" b)) in
      let closing = closes-Outside_quotes first o in absurd (cc)
  Unended-cons t going u (String.◌∷◌ x a) b e o =
      let parts = e ∙ cons-append x a (String.◌∷◌ ";" b) in
      let here : Outside (bit ins) (bit ind) (String.◌∷◌ c a) =
        subst (λ x. Outside (bit ins) (bit ind) (String.◌∷◌ x a)) (sym (heads parts)) o in
      u a b (tails parts) (Outside-next a here)

  pub Ended-cons :
      (p : String)
      → closes ins ind c ≡ false
      → Ended (bit next_ins) (bit next_ind) p
      → Ended (bit ins) (bit ind) (String.◌∷◌ c p)
  Ended-cons p going h = record {
    body = String.◌∷◌ c h.body;
    ends = ap (λ t. String.◌∷◌ c t) h.ends ∙ sym (cons-append c h.body ";");
    outside = Outside-before h.body h.outside;
    only = Unended-cons h.body going h.only;
  }
