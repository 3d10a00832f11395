-- ===== src/Common/Splits.antt =====
-- `strings.Split` and `strings.Join` at a separator of one character undo each other.
use Prim.Native.String.{String, ◌++◌}
use Prim.Native.Char.{Char}
use mathlib.Core.Path.{◌≡◌, refl, sym, ap, ◌∙◌}
use mathlib.Core.Logic.{inl, inr}
use mathlib.Core.Bool.{Bool, true, false, ◌||◌}
use mathlib.Core.List
use mathlib.Core.List.{List, [], ◌∷◌}
use native.Mathlib.Omega.{arith}
use text.Mathlib.TextEquality.{eq_iff}
use text.Mathlib.TextLemmas.{cons-append, append_assoc, nil-append}
use runn.Common.Tests.{Bool-cases}
use runn.Common.Text.{join}
use runn.Common.Strings.{is_char, add_first, split}

-- Whether the separator stands in a text.
abbrev pub has_char : String → String → Bool
has_char q String.[] = false
has_char q (String.◌∷◌ c s) = is_char q c || has_char q s

module _ (q : String) where
  is_char-eq : (c : Char) → is_char q c ≡ true → String.◌∷◌ c String.[] ≡ q
  is_char-eq c h = ground (arith, eq_iff (String.◌∷◌ c String.[]) q)

  -- The list of parts is never empty.
  pub split-filled : (s : String) → (p : String) × (ps : List String) × (split q s ≡ p ∷ ps)
  unfolding split
  split-filled String.[] = ("", [], refl)
  split-filled (String.◌∷◌ c s) =
      let (p, ps, rest) = split-filled s in
      elim (Bool-cases (is_char q c)) [
        | inl h ↦ ("", split q s, rw h refl)
        | inr h ↦ (String.◌∷◌ c p, ps, rw (h, rest) refl)
      ]

  join-empty :
      (l : List String) (p : String) (ps : List String)
      → l ≡ p ∷ ps
      → join q ("" ∷ l) ≡ q ++ join q l
  unfolding join
  join-empty [] p ps h = absurd (cc)
  join-empty (x ∷ l) p ps h = nil-append (q ++ join q (x ∷ l))

  join-add_first :
      (c : Char) (l : List String) (p : String) (ps : List String)
      → l ≡ p ∷ ps
      → join q (add_first c l) ≡ String.◌∷◌ c (join q l)
  unfolding join
  join-add_first c [] p ps h = absurd (cc)
  join-add_first c (x ∷ []) p ps h = refl
  join-add_first c (x ∷ y ∷ l) p ps h = cons-append c x (q ++ join q (y ∷ l))

  pub join-split : (s : String) → join q (split q s) ≡ s
  unfolding split
  join-split String.[] = unfold join in refl
  join-split (String.◌∷◌ c s) =
      let (p, ps, rest) = split-filled s in
      elim (Bool-cases (is_char q c)) [
        | inl h ↦ rw h (
            join-empty (split q s) p ps rest
            ∙ (ap (λ t. q ++ t) (join-split s)
                ∙ (ap (λ t. t ++ s) (sym (is_char-eq c h))
                    ∙ (cons-append c "" s ∙ ap (String.◌∷◌ c) (nil-append s)))))
        | inr h ↦ rw h (join-add_first c (split q s) p ps rest ∙ ap (String.◌∷◌ c) (join-split s))
      ]

  -- One more part at the end.
  pub join-snoc :
      (x : String) (l : List String) (y : String)
      → join q (List.◌++◌ (x ∷ l) (y ∷ [])) ≡ join q (x ∷ l) ++ (q ++ y)
  unfolding join
  join-snoc x [] y = refl
  join-snoc x (z ∷ l) y =
      ap (λ t. x ++ (q ++ t)) (join-snoc z l y)
      ∙ (ap (λ t. x ++ t) (sym (append_assoc q (join q (z ∷ l)) (q ++ y)))
          ∙ sym (append_assoc x (q ++ join q (z ∷ l)) (q ++ y)))

  -- A text without the separator is one part.
  pub split-one : (s : String) → has_char q s ≡ false → split q s ≡ s ∷ []
  unfolding split
  split-one String.[] h = refl
  split-one (String.◌∷◌ c s) h =
      let first : is_char q c ≡ false = ground arith in
      let rest : has_char q s ≡ false = ground arith in rw (first, split-one s rest) refl

  add_first-append :
      (c : Char) (l m : List String) (p : String) (ps : List String)
      → l ≡ p ∷ ps
      → add_first c (List.◌++◌ l m) ≡ List.◌++◌ (add_first c l) m
  add_first-append c [] m p ps h = absurd (cc)
  add_first-append c (x ∷ l) m p ps h = refl

  module _ (sep : Char) (one : q ≡ String.◌∷◌ sep String.[]) where
    is_char-sep : is_char q sep ≡ true
    is_char-sep = ground (arith, eq_iff (String.◌∷◌ sep String.[]) q)

    split-front : (t : String) → split q (q ++ t) ≡ "" ∷ split q t
    unfolding split
    split-front t =
        ap (λ u. split q (u ++ t)) one
        ∙ (ap (split q) (cons-append sep "" t ∙ ap (String.◌∷◌ sep) (nil-append t))
            ∙ rw is_char-sep refl)

    -- A last part without the separator.
    pub split-append :
        (s t : String)
        → has_char q t ≡ false
        → split q (s ++ (q ++ t)) ≡ List.◌++◌ (split q s) (t ∷ [])
    unfolding split
    split-append String.[] t h =
        ap (split q) (nil-append (q ++ t)) ∙ (split-front t ∙ ap (λ l. "" ∷ l) (split-one t h))
    split-append (String.◌∷◌ c s) t h =
        let (p, ps, rest) = split-filled s in
        ap (split q) (cons-append c s (q ++ t)) ∙ elim (Bool-cases (is_char q c)) [
          | inl same ↦ rw same (ap (λ l. "" ∷ l) (split-append s t h))
          | inr other ↦ rw other (
              ap (add_first c) (split-append s t h)
              ∙ add_first-append c (split q s) (t ∷ []) p ps rest)
        ]
