-- ===== src/Value.antt =====
-- Go's `any` as the program uses it: what YAML, JSON and expressions evaluate to. `Fields` is
-- `map[string]any`, `Entries` is `map[any]any` and `Values` is `[]any`.
pub mod Maps
use runn.Common.{ℕ, String, Bool, Option, List, Dict}
use runn.Common.Int.{ℤ}

-- What the code reads of an `*http.Cookie`; `expires` is a time in seconds, none if zero.
pub record Cookie : Type 0 where
  pub name : String
  pub domain : String
  pub expires : Option ℕ

-- The keys of a `map[any]any`: the comparable values. A float stands by its bit pattern.
pub data Key : Type 0 where
  text_key : String → Key
  int_key : ℤ → Key
  uint_key : ℕ → Key
  float_key : ℕ → Key
  bool_key : Bool → Key

-- A function value stands by a number; an unsigned or floating value by its bits.
mutual
  pub data Value : Type 0 where
    null : Value
    bool : Bool → Value
    int : ℤ → Value
    uint : ℕ → Value
    float : ℕ → Value
    text : String → Value
    func : ℕ → Value
    cookie : Cookie → Value
    list : Values → Value
    dict : Fields → Value
    any_dict : Entries → Value

  pub data Values : Type 0 where
    nil : Values
    cons : Value → Values → Values

  pub data Fields : Type 0 where
    end : Fields
    field : String → Value → Fields → Fields

  pub data Entries : Type 0 where
    stop : Entries
    entry : Key → Value → Entries → Entries
