-- ===== src/Bind/Fuel.antt =====
-- The fuel of `evalBindKeyValue` is enough: it keeps the recursive equation of the source.
use Prim.Native.String.{count}
use text.Mathlib.TextLemmas.{length-cons}
use runn.Common.{
  ℕ, zero, suc, ◌<◌, String, ◌≡◌, sym, ap, ◌∙◌, subst, inl, inr, true, false, ◌==◌, ◌||◌,
  if◌then◌else◌, arith, Bool-cases,
}
use runn.Value.{Value, list, nil, cons, Fields}
use runn.Eval.{Lang, eval_any}
use runn.Bind.{
  Attempt, yields, attempt, ◌>>=◌, NodeParser, node_to_map, has_suffix, trim_suffix, bind_from,
  eval_bind_key_value,
}
use runn.Bind.Merge.{merge_vars}

count-trim_suffix : (k : String) → has_suffix k ≡ true → count (trim_suffix k) < count k
count-trim_suffix String.[] h = absurd (cc)
count-trim_suffix (String.◌∷◌ c s) h = elim (Bool-cases (String.◌∷◌ c s == "[]")) [
  | inl here ↦
      smaller (sym (ap (λ b. count (if b then "" else String.◌∷◌ c (trim_suffix s))) here))
        (omega (arith, length-cons c s))
  | inr other ↦
      let rest = count-trim_suffix s (sym (ap (λ b. b || has_suffix s) other) ∙ h) in
      smaller (sym (ap (λ b. count (if b then "" else String.◌∷◌ c (trim_suffix s))) other))
        (omega (arith, rest, length-cons c s, length-cons c (trim_suffix s)))
]
  where
    smaller : {m n : ℕ} → m ≡ n → m < count (String.◌∷◌ c s) → n < count (String.◌∷◌ c s)
    smaller e h = subst (λ n. n < count (String.◌∷◌ c s)) e h

module _ (l : Lang) (p : NodeParser) where
  -- One call, with what its own call returns.
  abbrev call_of : Fields → String → Value → Fields → Attempt Fields → Attempt Fields
  call_of bind_vars k v store shorter = attempt (eval_any l store v) >>= λ vv.
      if has_suffix k
      then shorter
      else attempt (p.parse k) >>= λ n.
          node_to_map l p store n vv >>= λ kv. yields (merge_vars kv bind_vars)

  -- Without a "[]" at the end there is no further call.
  call_of-last :
      (bind_vars : Fields) (k : String) (v : Value) (store : Fields) (x y : Attempt Fields)
      → has_suffix k ≡ false
      → call_of bind_vars k v store x ≡ call_of bind_vars k v store y
  call_of-last bind_vars k v store x y h =
      ap
        (λ b. attempt (eval_any l store v) >>= λ vv.
          if b
          then x
          else attempt (p.parse k) >>= λ n.
              node_to_map l p store n vv >>= λ kv. yields (merge_vars kv bind_vars))
        h
      ∙ sym (
          ap
            (λ b. attempt (eval_any l store v) >>= λ vv.
              if b
              then y
              else attempt (p.parse k) >>= λ n.
                  node_to_map l p store n vv >>= λ kv. yields (merge_vars kv bind_vars))
            h)

  -- Enough fuel gives one result.
  bind_from-enough :
      (f g : ℕ) (bind_vars : Fields) (k : String) (v : Value) (store : Fields)
      → count k < f
      → count k < g
      → bind_from l p f bind_vars k v store ≡ bind_from l p g bind_vars k v store
  unfolding bind_from
  bind_from-enough zero g bind_vars k v store a b = absurd (omega arith)
  bind_from-enough (suc f) zero bind_vars k v store a b = absurd (omega arith)
  bind_from-enough (suc f) (suc g) bind_vars k v store a b = elim (Bool-cases (has_suffix k)) [
    | inl more ↦
        let fewer = count-trim_suffix k more in
        ap (call_of bind_vars k v store) (
          bind_from-enough f g bind_vars (trim_suffix k) (list (cons v nil)) store
            (omega (arith, fewer)) (omega (arith, fewer)))
    | inr last ↦ call_of-last bind_vars k v store _ _ last
  ]

  -- `evalBindKeyValue` evaluates the value, and then calls itself on the key without its last "[]" and the
  -- list of the value, or else binds the value at the node of the key, as the source has it: the fuel
  -- of the model never runs out.
  pub eval_bind_key_value-call :
      (bind_vars : Fields) (k : String) (v : Value) (store : Fields)
      → eval_bind_key_value l p bind_vars k v store ≡ (
          attempt (eval_any l store v) >>= λ vv.
          if has_suffix k
          then eval_bind_key_value l p bind_vars (trim_suffix k) (list (cons v nil)) store
          else attempt (p.parse k) >>= λ n.
              node_to_map l p store n vv >>= λ kv. yields (merge_vars kv bind_vars))
  unfolding eval_bind_key_value bind_from
  eval_bind_key_value-call bind_vars k v store = elim (Bool-cases (has_suffix k)) [
    | inl more ↦
        let fewer = count-trim_suffix k more in
        ap (call_of bind_vars k v store) (
          bind_from-enough (count k) (suc (count (trim_suffix k))) bind_vars (trim_suffix k)
            (list (cons v nil)) store (omega (arith, fewer)) (omega arith))
    | inr last ↦ call_of-last bind_vars k v store _ _ last
  ]
