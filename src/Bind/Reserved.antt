-- ===== src/Bind/Reserved.antt =====
-- `bind:` binds no reserved name.
use runn.Common.{
  ℕ, zero, suc, String, ◌≡◌, refl, sym, ap, ◌∙◌, subst, inl, inr, Bool, true, false, none, some,
  List, [], ◌∷◌, ◌==◌, if◌then◌else◌, arith, Bool-cases, eq_iff,
}
use runn.Value.{Value, list, any_dict, nil, cons, Fields, end, field, entry, stop}
use runn.Value.Maps.{get, put, get-put}
use Prim.Native.String.{count}
use runn.Errors.{message}
use runn.Store.Root.{is_reserved, BindsNoReserved}
use runn.Eval.{Lang, eval_any}
use runn.Bind.{
  Attempt, panics, fails, yields, attempt, ◌>>=◌, NodeParser, Node, identifier, member, string_node,
  integer_node, other_node, property_key, node_to_map, has_suffix, trim_suffix, bind_from,
  eval_bind_key_value, bind_keys, or_null,
}
use runn.Bind.Merge.{merge_vars, merge_value}
use runn.Parse.Requests.{yields-bind, yields_injective}

-- A name that the map does not have keeps its value when the map is merged in.
get-merge_vars :
    (k : String) (vars store : Fields)
    → get k vars ≡ none
    → get k (merge_vars vars store) ≡ get k store
unfolding merge_vars get
get-merge_vars k end store h = refl
get-merge_vars k (field j v vars) store h = elim (Bool-cases (j == k)) [
  | inl here ↦ absurd (found (sym (ap (λ b. if b then some v else get k vars) here) ∙ h))
  | inr other ↦
      let merged : Value = elim (get j store) [ none ↦ v | some sv ↦ merge_value v sv ] in
      get-merge_vars k vars (put j merged store)
        (sym (ap (λ b. if b then some v else get k vars) other) ∙ h)
      ∙ ground (arith, get-put j k merged store)
]
  where
    found : some v ≡ none → ⊥
    found e = absurd (cc)

-- A name that is not reserved, bound by itself.
single-BindsNoReserved :
    (j : String) (v : Value) → is_reserved j ≡ false → BindsNoReserved (field j v end)
unfolding get
single-BindsNoReserved j v h k r = elim (Bool-cases (j == k)) [
  | inl here ↦
      let same : j ≡ k = ground (arith, eq_iff j k) in
      absurd (false_true (sym h ∙ (ap is_reserved same ∙ r)))
  | inr other ↦ ap (λ b. if b then some v else none) other
]
  where
    false_true : false ≡ true → ⊥
    false_true e = absurd (cc)

nothing-BindsNoReserved : BindsNoReserved end
unfolding get
nothing-BindsNoReserved k r = refl

-- What is bound behind the test of a name.
tested-BindsNoReserved :
    (j : String) (x : Attempt Fields) (kv : Fields)
    → (is_reserved j ≡ false → x ≡ yields kv → BindsNoReserved kv)
    → (if is_reserved j then fails (message "reserved") else x) ≡ yields kv
    → BindsNoReserved kv
tested-BindsNoReserved j x kv otherwise h = by_test (is_reserved j) otherwise h
  where
    by_test :
        (b : Bool)
        → (b ≡ false → x ≡ yields kv → BindsNoReserved kv)
        → (if b then fails (message "reserved") else x) ≡ yields kv
        → BindsNoReserved kv
    by_test true otherwise h = absurd (cc)
    by_test false otherwise h = otherwise refl h

module _ (l : Lang) (p : NodeParser) where
  node_to_map-BindsNoReserved :
      (store : Fields) (n : Node) (v : Value) (kv : Fields)
      → node_to_map l p store n v ≡ yields kv
      → BindsNoReserved kv
  unfolding node_to_map
  node_to_map-BindsNoReserved store (identifier j) v kv h =
      tested-BindsNoReserved j (yields (field j v end)) kv
        (λ plain same.
          subst BindsNoReserved (yields_injective same) (single-BindsNoReserved j v plain))
        h
  node_to_map-BindsNoReserved store (member (identifier j) property) v kv h =
      tested-BindsNoReserved j
        (property_key l p store property >>= λ kk.
          yields (field j (any_dict (entry kk v stop)) end))
        kv
        (λ plain bound.
          let (kk, _, same) = yields-bind (property_key l p store property) _ kv bound in
          subst BindsNoReserved (yields_injective same)
            (single-BindsNoReserved j (any_dict (entry kk v stop)) plain))
        h
  node_to_map-BindsNoReserved store (member (member n m) property) v kv h =
      let (kk, _, h₁) = yields-bind (property_key l p store property) _ kv h in
      node_to_map-BindsNoReserved store (member n m) (any_dict (entry kk v stop)) kv h₁
  node_to_map-BindsNoReserved store (member (string_node t) property) v kv h =
      subst BindsNoReserved (yields_injective h) nothing-BindsNoReserved
  node_to_map-BindsNoReserved store (member (integer_node t) property) v kv h =
      subst BindsNoReserved (yields_injective h) nothing-BindsNoReserved
  node_to_map-BindsNoReserved store (member (other_node t) property) v kv h =
      subst BindsNoReserved (yields_injective h) nothing-BindsNoReserved
  node_to_map-BindsNoReserved store (string_node t) v kv h = absurd (cc)
  node_to_map-BindsNoReserved store (integer_node t) v kv h = absurd (cc)
  node_to_map-BindsNoReserved store (other_node t) v kv h = absurd (cc)

  bind_from-BindsNoReserved :
      (fuel : ℕ) (bind_vars : Fields) (k : String) (v : Value) (store kv : Fields)
      → BindsNoReserved bind_vars
      → bind_from l p fuel bind_vars k v store ≡ yields kv
      → BindsNoReserved kv
  unfolding bind_from
  bind_from-BindsNoReserved zero bind_vars k v store kv g h = absurd (cc)
  bind_from-BindsNoReserved (suc fuel) bind_vars k v store kv g h =
      let (vv, _, h₁) = yields-bind (attempt (eval_any l store v)) _ kv h in
      by_suffix vv (has_suffix k)
        (bind_from-BindsNoReserved fuel bind_vars (trim_suffix k) (list (cons v nil)) store kv g) h₁
    where
      by_suffix :
          (vv : Value) (b : Bool)
          → (bind_from l p fuel bind_vars (trim_suffix k) (list (cons v nil)) store ≡ yields kv
              → BindsNoReserved kv)
          → (if b
              then bind_from l p fuel bind_vars (trim_suffix k) (list (cons v nil)) store
              else attempt (p.parse k) >>= λ n.
                  node_to_map l p store n vv >>= λ kv. yields (merge_vars kv bind_vars))
            ≡ yields kv
          → BindsNoReserved kv
      by_suffix vv true shorter h = shorter h
      by_suffix vv false shorter h =
          let (n, _, h₁) = yields-bind (attempt (p.parse k)) _ kv h in
          let (vars, read, same) = yields-bind (node_to_map l p store n vv) _ kv h₁ in
          let plain = node_to_map-BindsNoReserved store n vv vars read in
          subst BindsNoReserved (yields_injective same)
            (λ j r. get-merge_vars j vars bind_vars (plain j r) ∙ g j r)

  -- What the loop does after a key.
  abbrev after_key :
      Fields → Fields → List String → Fields → Bool → Attempt Fields → Attempt (Unit {0}) × Fields
  after_key cond store keys bind_vars b x =
      if b then (fails (message "reserved"), bind_vars) else elim x [
        | panics ↦ (panics, bind_vars)
        | fails e ↦ (fails e, bind_vars)
        | yields kv ↦ bind_keys l p cond store keys kv
      ]

  -- The loop of the bind runner over its keys leaves every reserved name unbound, in the variables that
  -- it has bound before an error or a panic as well, if none was bound before.
  pub bind_keys-BindsNoReserved :
      (cond store : Fields) (keys : List String) (bind_vars : Fields)
      → BindsNoReserved bind_vars
      → BindsNoReserved (bind_keys l p cond store keys bind_vars).1
  unfolding bind_keys eval_bind_key_value
  bind_keys-BindsNoReserved cond store [] bind_vars g = g
  bind_keys-BindsNoReserved cond store (k ∷ keys) bind_vars g =
      by_test (is_reserved k) (eval_bind_key_value l p bind_vars k (or_null (get k cond)) store)
        refl (bind_keys-BindsNoReserved cond store keys)
    where
      by_test :
          (b : Bool) (x : Attempt Fields)
          → eval_bind_key_value l p bind_vars k (or_null (get k cond)) store ≡ x
          → ((kv : Fields)
              → BindsNoReserved kv
              → BindsNoReserved (bind_keys l p cond store keys kv).1)
          → BindsNoReserved (after_key cond store keys bind_vars b x).1
      by_test true x e later = g
      by_test false panics e later = g
      by_test false (fails e') e later = g
      by_test false (yields kv) e later = later kv (
          bind_from-BindsNoReserved (suc (count k)) bind_vars k (or_null (get k cond)) store kv g e)
