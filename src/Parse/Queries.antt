-- ===== src/Parse/Queries.antt =====
-- `parseDBQuery` takes a map of one key, and `parseIncludeConfig` reads back a configuration.
use runn.Common.{
  String, ◌≡◌, refl, sym, ap, ◌∙◌, inl, inr, Bool, true, false, Option, none, some, ◌==◌,
  if◌then◌else◌, arith, eq_iff, Bool-cases, some-injective,
}
use runn.Common.Strings.{trim}
use runn.Value.{
  Value, null, bool, int, uint, float, text, func, cookie, list, dict, any_dict, Fields, end, field,
}
use runn.Value.Maps.{get}
use runn.Bind.{Attempt, yields, attempt}
use runn.Operator.{IncludeConfig}
use runn.Parse.{Reader, flag_of, text_of, invalid}
use runn.Parse.Command.{DbQuery, statement, parse_db_query, parse_include_config}
use runn.Parse.Requests.{yields-bind, yields_injective}

text_of-yields :
    (what part : String) (o : Option Value) (t : String)
    → text_of what part o ≡ yields t
    → o ≡ some (text t)
text_of-yields what part none t h = absurd (cc)
text_of-yields what part (some (text u)) t h = ap (λ t. some (text t)) (yields_injective h)
text_of-yields what part (some null) t h = absurd (cc)
text_of-yields what part (some (bool b)) t h = absurd (cc)
text_of-yields what part (some (int n)) t h = absurd (cc)
text_of-yields what part (some (uint n)) t h = absurd (cc)
text_of-yields what part (some (float n)) t h = absurd (cc)
text_of-yields what part (some (func n)) t h = absurd (cc)
text_of-yields what part (some (cookie c)) t h = absurd (cc)
text_of-yields what part (some (list l)) t h = absurd (cc)
text_of-yields what part (some (dict m)) t h = absurd (cc)
text_of-yields what part (some (any_dict e)) t h = absurd (cc)

statement-yields :
    (what part t stmt : String)
    → statement what part t ≡ yields stmt
    → ((trim " " t == "") ≡ false) × (stmt ≡ trim " \n" t)
statement-yields what part t stmt h = elim (Bool-cases (trim " " t == "")) [
  | inl blank ↦ absurd (refused (sym (ap choose blank) ∙ h))
  | inr filled ↦ (filled, sym (yields_injective (sym (ap choose filled) ∙ h)))
]
  where
    choose : Bool → Attempt String
    choose b = if b then invalid what part else yields (trim " \n" t)

    refused : invalid what part ≡ yields stmt → ⊥
    refused k = absurd (cc)

abbrev found : Bool → Value → Option Value
found b w = if b then some w else none

only_key :
    (k : String) (w : Value) (t : String)
    → get "query" (field k w end) ≡ some (text t)
    → (k ≡ "query") × (w ≡ text t)
unfolding get
only_key k w t h = by_test (k == "query") refl h
  where
    by_test :
        (b : Bool) → (k == "query") ≡ b → found b w ≡ some (text t) → (k ≡ "query") × (w ≡ text t)
    by_test true same j = (ground (arith, eq_iff k "query"), some-injective j)
    by_test false other j = absurd (cc)

-- What `parseDBQuery` reads is a map with the key `query` and nothing else, whose text is not blank. So
-- no query has the flag `trace`, although the function reads it.
pub parse_db_query-untraced :
    (r : Reader) (v : Fields) (q : DbQuery)
    → parse_db_query r v ≡ yields q
    → (t : String) × (v ≡ field "query" (text t) end)
      × ((trim " " t == "") ≡ false)
      × (q.stmt ≡ trim " \n" t)
      × (q.trace ≡ none)
unfolding parse_db_query flag_of get
parse_db_query-untraced r end q h =
    let (part, _, h₁) = yields-bind (attempt (r.marshal end)) _ q h in absurd (cc)
parse_db_query-untraced r (field k w (field j u m)) q h =
    let (part, _, h₁) = yields-bind (attempt (r.marshal (field k w (field j u m)))) _ q h in
    absurd (cc)
parse_db_query-untraced r (field k w end) q h =
    let (part, _, h₁) = yields-bind (attempt (r.marshal (field k w end))) _ q h in
    let (t, is_text, h₂) =
      yields-bind (text_of "query" part (get "query" (field k w end))) _ q h₁ in
    let (stmt, is_stmt, h₃) = yields-bind (statement "query" part t) _ q h₂ in
    let (trace, is_trace, h₄) =
      yields-bind (flag_of "query" part (get "trace" (field k w end))) _ q h₃ in
    let (key, value) =
      only_key k w t (text_of-yields "query" part (get "query" (field k w end)) t is_text) in
    let (filled, trimmed) = statement-yields "query" part t stmt is_stmt in
    let same = yields_injective h₄ in
    (
      t,
      ap (λ k. field k w end) key ∙ ap (λ w. field "query" w end) value,
      filled,
      sym (ap (λ (q : DbQuery). q.stmt) same) ∙ trimmed,
      sym (ap (λ (q : DbQuery). q.trace) same)
          ∙ sym (
              yields_injective (
                sym (ap (λ k. flag_of "query" part (get "trace" (field k w end))) key) ∙ is_trace)),
    )

-- The map that gives a configuration.
abbrev pub config_value : IncludeConfig → Value
config_value c = dict (
    field "path" (text c.path) (
      field "vars" (dict c.vars)
        (field "skipTest" (bool c.skip_test) (field "force" (bool c.force) end))))

-- `parseIncludeConfig` reads back every configuration from its map.
pub parse_include_config-config_value :
    (c : IncludeConfig) → parse_include_config (config_value c) ≡ yields c
unfolding parse_include_config get
parse_include_config-config_value c = refl
