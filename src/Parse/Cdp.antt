-- ===== src/Parse/Cdp.antt =====
-- `parseCDPActions` of parse.go.
use runn.Common.{String, Option, some, List, [], ◌∷◌}
use runn.Value.{Value, text, list, dict, Values, nil, cons, Fields, end, field}
use runn.Value.Maps.{get}
use runn.Errors.{message, wrapped, ok, err}
use runn.Bind.{Attempt, panics, fails, yields, attempt, ◌>>=◌}
use runn.CdpFunctions.{CdpArgType, CdpFn, find_cdp_fn}
use runn.Parse.{Reader, invalid}
use runn.Parse.Delimiter.{trim_delimiter}

pub record CdpAction : Type 0 where
  pub fn : String
  pub args : Fields

abbrev known : String → Attempt CdpFn
known k = elim (find_cdp_fn k) [
  | ok found ↦ yields found.1
  | err e ↦ fails (wrapped "invalid action" e)
]

-- `ca.Args[fn.Args[0].Key] = vvvv` panics for a function without arguments.
abbrev first_arg : List (CdpArgType × String) → Value → Attempt Fields
first_arg [] v = panics
first_arg ((t, k) ∷ l) v = yields (field k v end)

abbrev args_of : CdpFn → Value → Attempt Fields
args_of fn (text t) = first_arg fn.args (text t)
args_of fn (dict m) = yields m
args_of fn v = fails (message "invalid action args")

-- A value that is neither a text nor a map becomes an action without a function.
unfoldable pub read_action : String → Value → Attempt CdpAction
read_action part (text k) = do _ ← known k; yields (record { fn = k; args = end })
read_action part (dict (field k v end)) = do
  fn ← known k
  args ← args_of fn v
  yields (record { fn = k; args = args })
read_action part (dict m) = invalid "actions" part
read_action part v = yields (record { fn = ""; args = end })

module _ (r : Reader) where
  unfoldable pub actions_from : String → Values → Attempt (List CdpAction)
  unfolding read_action
  actions_from part nil = yields []
  actions_from part (cons v l) = do
    e ← attempt (r.expand v)
    this ← read_action part e
    rest ← actions_from part l
    yields (this ∷ rest)

  abbrev action_list : String → Option Value → Attempt (List CdpAction)
  action_list part (some (list l)) = actions_from part l
  action_list part v = invalid "actions" part

  abbrev read_actions : String → Fields → Attempt (List CdpAction)
  read_actions part (field k v end) = action_list part (get "actions" (field k v end))
  read_actions part v = invalid "actions" part

  unfoldable pub parse_cdp_actions : Fields → Attempt (List CdpAction)
  unfolding actions_from
  parse_cdp_actions v = do
    part ← attempt (r.marshal (trim_delimiter v))
    read_actions part (trim_delimiter v)
