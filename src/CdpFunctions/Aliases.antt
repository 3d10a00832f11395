-- ===== src/CdpFunctions/Aliases.antt =====
-- `findCDPFn` on the table of functions: the names and the aliases are apart.
use runn.Common.{
  String, ◌≡◌, refl, sym, subst, ap, ◌∙◌, ◌⊎◌, inl, inr, Bool, true, false, not, ◌&&◌, ◌||◌, Option,
  none, some, List, [], ◌∷◌, ◌==◌, if◌then◌else◌, Dict, lookup, arith, eq_iff, Bool-cases,
}
use runn.Errors.{Result, ok}
use runn.CdpFunctions.{CdpFn, cdp_fn_map, contains, find_alias, find_cdp_fn}

-- The name is neither that of a function of the table nor an alias.
unfoldable fresh : String → Dict CdpFn → Bool
fresh k [] = true
fresh k ((name, fn) ∷ m) = not (name == k) && not (contains fn.aliases k) && fresh k m

unfoldable all_fresh : List String → Dict CdpFn → Bool
unfolding fresh
all_fresh [] m = true
all_fresh (a ∷ l) m = fresh a m && all_fresh l m

-- No name or alias of a function is one of another.
unfoldable apart : Dict CdpFn → Bool
unfolding all_fresh
apart [] = true
apart ((name, fn) ∷ m) =
    not (contains fn.aliases name) && fresh name m && all_fresh fn.aliases m && apart m

fresh-lookup : (k : String) (m : Dict CdpFn) → fresh k m ≡ true → lookup k m ≡ none
unfolding fresh lookup
fresh-lookup k [] h = refl
fresh-lookup k ((name, fn) ∷ m) h = let rest = fresh-lookup k m in ground arith

the_same : {A : Type 0} {x y : A} → some x ≡ some y → x ≡ y
the_same h = cc

-- At the head of the table: the function that is looked for is the first, or it is among the others.
lookup-head :
    (name here : String) (f fn : CdpFn) (m : Dict CdpFn)
    → lookup name ((here, f) ∷ m) ≡ some fn
    → ((here ≡ name) × (f ≡ fn)) ⊎ (((here == name) ≡ false) × (lookup name m ≡ some fn))
unfolding lookup
lookup-head name here f fn m h = by_name (here == name) refl h
  where
    by_name :
        (t : Bool)
        → (here == name) ≡ t
        → (if t then some f else lookup name m) ≡ some fn
        → ((here ≡ name) × (f ≡ fn)) ⊎ (((here == name) ≡ false) × (lookup name m ≡ some fn))
    by_name true e h = inl (ground (arith, eq_iff here name), the_same h)
    by_name false e h = inr (e, h)

fresh-alias :
    (k name : String) (fn : CdpFn) (m : Dict CdpFn)
    → fresh k m ≡ true
    → lookup name m ≡ some fn
    → ((name == k) ≡ false) × (contains fn.aliases k ≡ false)
unfolding fresh lookup
fresh-alias k name fn [] h l = absurd (cc)
fresh-alias k name fn ((here, f) ∷ m) h l = elim (lookup-head name here f fn m l) [
  | inl (e, same) ↦ (
    subst (λ n. (n == k) ≡ false) e (ground arith),
    subst (λ (g : CdpFn). contains g.aliases k ≡ false) same (ground arith),
  )
  | inr (_, rest) ↦ fresh-alias k name fn m (ground arith) rest
]

all_fresh-contains :
    (l : List String) (k : String) (m : Dict CdpFn)
    → all_fresh l m ≡ true
    → contains l k ≡ true
    → fresh k m ≡ true
unfolding all_fresh
all_fresh-contains [] k m h c = absurd (cc)
all_fresh-contains (a ∷ l) k m h c = elim (Bool-cases (a == k)) [
  | inl this ↦
      let same : a ≡ k = ground (arith, eq_iff a k) in
      subst (λ a. fresh a m ≡ true) same (ground arith)
  | inr other ↦ all_fresh-contains l k m (ground arith) (ground arith)
]

-- The function of an alias at the head of the table.
alias-here :
    (m : Dict CdpFn) (name k : String) (fn : CdpFn)
    → apart ((name, fn) ∷ m) ≡ true
    → contains fn.aliases k ≡ true
    → (lookup k ((name, fn) ∷ m) ≡ none) × (find_alias ((name, fn) ∷ m) k ≡ ok (name, fn))
unfolding apart lookup find_alias
alias-here m name k fn h c =
    let none_after = fresh-lookup k m (all_fresh-contains fn.aliases k m (ground arith) c) in
    let unlike : (name == k) ≡ false = elim (Bool-cases (name == k)) [
      | inl this ↦
          let same : name ≡ k = ground (arith, eq_iff name k) in
          let twice = subst (λ k. contains fn.aliases k ≡ true) (sym same) c in
          absurd (ground arith)
      | inr other ↦ other
    ] in
    (rw unlike none_after, rw c refl)

alias-find :
    (m : Dict CdpFn) (name k : String) (fn : CdpFn)
    → apart m ≡ true
    → lookup name m ≡ some fn
    → contains fn.aliases k ≡ true
    → (lookup k m ≡ none) × (find_alias m k ≡ ok (name, fn))
unfolding apart lookup find_alias
alias-find [] name k fn h l c = absurd (cc)
alias-find ((here, f) ∷ m) name k fn h l c = elim (lookup-head name here f fn m l) [
  | inl (e, same) ↦
      let head =
        alias-here m here k f h (subst (λ (g : CdpFn). contains g.aliases k ≡ true) (sym same) c) in
      (head.0, head.1 ∙ ap (λ n. ok (n, f)) e ∙ ap (λ (g : CdpFn). ok (name, g)) same)
  | inr (_, rest) ↦
      let (no_name, found) = alias-find m name k fn (ground arith) rest c in
      let own : contains f.aliases k ≡ false = elim (Bool-cases (contains f.aliases k)) [
        | inl mine ↦
            let (_, not_theirs) =
              fresh-alias k name fn m (all_fresh-contains f.aliases k m (ground arith) mine) rest in
            absurd (ground arith)
        | inr other ↦ other
      ] in
      let unlike : (here == k) ≡ false = elim (Bool-cases (here == k)) [
        | inl this ↦
            let same : here ≡ k = ground (arith, eq_iff here k) in
            let (_, not_theirs) =
              fresh-alias k name fn m (subst (λ k. fresh k m ≡ true) same (ground arith)) rest in
            absurd (ground arith)
        | inr other ↦ other
      ] in
      (rw unlike no_name, rw own found)
]

table-apart : apart cdp_fn_map ≡ true
unfolding cdp_fn_map apart
table-apart = refl

-- The lookup by name, and then by alias.
abbrev by_tables : Dict CdpFn → String → Option CdpFn → Result (String × CdpFn)
by_tables m k o = elim o [ some fn ↦ ok (k, fn) | none ↦ find_alias m k ]

-- The canonical name of a function and each of its aliases lead to the function under its canonical
-- name.
pub find_cdp_fn-named :
    (name k : String) (fn : CdpFn)
    → lookup name cdp_fn_map ≡ some fn
    → (name == k || contains fn.aliases k) ≡ true
    → find_cdp_fn k ≡ ok (name, fn)
unfolding find_cdp_fn
find_cdp_fn-named name k fn l c = elim (Bool-cases (name == k)) [
  | inl this ↦
      let same : name ≡ k = ground (arith, eq_iff name k) in
      let found = subst (λ k. lookup k cdp_fn_map ≡ some fn) same l in
      ap (by_tables cdp_fn_map k) found ∙ ap (λ n. ok (n, fn)) (sym same)
  | inr other ↦
      let (no_name, found) = alias-find cdp_fn_map name k fn table-apart l (ground arith) in
      ap (by_tables cdp_fn_map k) no_name ∙ found
]
