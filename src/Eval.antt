-- ===== src/Eval.antt =====
-- eval.go: conditions and counts. The expression language and the conversions are other packages'
-- and a parameter.
use runn.Common.{ℕ, ◌-◌, ◌%◌, ◌^◌, String, Bool, false, ltb, if◌then◌else◌}
use runn.Common.Int.{ℤ, pos, negsuc}
use runn.Errors.{wrapped, message, Result, ok, err}
use runn.Value.{
  Value, bool, int, uint, float, text, list, dict, Values, nil, cons, Fields, end, field,
}

pub record Lang : Type 0 where
  -- `expr.Eval(trimComment(e), store)`
  pub run_expr : String → Fields → Result Value
  -- `buildTree(cond, store)`
  pub build_tree : String → Fields → Result String
  -- `strconv.Atoi`
  pub atoi : String → Result ℤ
  -- `int(v)` of a float with these bits
  pub truncate : ℕ → ℤ

-- `int(v)` of a `uint64`: two's complement.
unfoldable pub int_of_uint : ℕ → ℤ
int_of_uint n = let m = n % 2 ^ 64 in if ltb m (2 ^ 63) then pos m else negsuc (2 ^ 64 - 1 - m)

module _ (l : Lang) where
  unfoldable pub eval : String → Fields → Result Value
  eval e store = elim (l.run_expr e store) [ ok v ↦ ok v | err x ↦ err (wrapped "eval error" x) ]

  -- A nil slice and an empty one are not told apart.
  unfoldable mutual
    pub eval_any : Fields → Value → Result Value
    eval_any store (text e) = eval e store
    eval_any store (dict m) = elim (eval_fields store m) [ ok m' ↦ ok (dict m') | err x ↦ err x ]
    eval_any store (list l) = elim (eval_values store l) [ ok l' ↦ ok (list l') | err x ↦ err x ]
    eval_any store v = ok v

    pub eval_fields : Fields → Fields → Result Fields
    eval_fields store end = ok end
    eval_fields store (field k v m) = elim (eval_any store v) [
      | err x ↦ err x
      | ok v' ↦ elim (eval_fields store m) [ ok m' ↦ ok (field k v' m') | err x ↦ err x ]
    ]

    pub eval_values : Fields → Values → Result Values
    eval_values store nil = ok nil
    eval_values store (cons v l) = elim (eval_any store v) [
      | err x ↦ err x
      | ok v' ↦ elim (eval_values store l) [ ok l' ↦ ok (cons v' l') | err x ↦ err x ]
    ]

  -- A value that is no bool counts as false.
  unfoldable pub eval_cond : String → Fields → Result Bool
  unfolding eval
  eval_cond cond store = elim (eval cond store) [
    | err x ↦ err x
    | ok v ↦ elim v [ bool b ↦ ok b | _ ↦ ok false ]
  ]

  unfoldable pub eval_count : String → Fields → Result ℤ
  unfolding eval int_of_uint
  eval_count count store = elim (eval count store) [
    | err x ↦ err x
    | ok v ↦ elim v [
      | text t ↦ elim (l.atoi t) [ ok c ↦ ok c | err x ↦ err (wrapped "invalid count" x) ]
      | int n ↦ ok n
      | uint n ↦ ok (int_of_uint n)
      | float bits ↦ ok (l.truncate bits)
      | _ ↦ err (message "invalid count")
    ]
  ]
