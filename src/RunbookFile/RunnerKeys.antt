-- ===== src/RunbookFile/RunnerKeys.antt =====
-- `setRunner` of runbook.go: the key of a runner with a DSN.
use Prim.Native.String.{◌++◌}
use runn.Common.{ℕ, ◌+◌, String, Option, none, some, ◌==◌, ltb, if◌then◌else◌}
use runn.Common.Text.{decimal}
use package.text.Mathlib.Text.{starts_with}
use runn.RunbookFile.{Yaml, NamedItems, RunbookFile, text, stop, named, named_items}

-- `rb.Runners[key] = dsn`
unfoldable pub put_runner : String → Yaml → NamedItems → NamedItems
put_runner k v stop = named k v stop
put_runner k v (named j w m) = if j == k then named k v m else named j w (put_runner k v m)

unfoldable pub runner_at : String → NamedItems → Option Yaml
runner_at k stop = none
runner_at k (named j v m) = if j == k then some v else runner_at k m

-- The number of runners of HTTP, gRPC and databases.
pub record Counts : Type 0 where
  pub hc : ℕ
  pub gc : ℕ
  pub dc : ℕ

abbrev count_one : String → Counts → Counts
count_one vv n =
    if starts_with vv "http"
    then record n { hc = n.hc + 1 }
    else if starts_with vv "grpc"
    then record n { gc = n.gc + 1 }
    else record n { dc = n.dc + 1 }

pub data Found : Type 0 where
  found : String → Found
  counted : Counts → Found

-- The loop over the runners, which returns at one with the DSN.
unfoldable pub find_runner : String → NamedItems → Counts → Found
find_runner dsn stop n = counted n
find_runner dsn (named k (text vv) m) n =
    let later = find_runner dsn m (count_one vv n) in if vv == dsn then found k else later
find_runner dsn (named k v m) n = find_runner dsn m n

abbrev numbered : String → ℕ → String
numbered prefix n = if ltb 0 n then prefix ++ decimal (n + 1) else prefix

abbrev key_of : String → Counts → String
key_of dsn n =
    if starts_with dsn "http"
    then numbered "req" n.hc
    else if starts_with dsn "grpc"
    then numbered "greq" n.gc
    else numbered "db" n.dc

abbrev pub no_counts : Counts
no_counts = record { hc = 0; gc = 0; dc = 0 }

-- A nil map of runners panics when it is written to; `none` is the panic.
abbrev pub set_found : String → RunbookFile → Found → Option (String × RunbookFile)
set_found dsn rb (found k) = some (k, rb)
set_found dsn rb (counted n) = elim rb.runners [
  | none ↦ none
  | some m ↦
      some (key_of dsn n, record rb { runners = some (put_runner (key_of dsn n) (text dsn) m) })
]

-- `setRunner`
unfoldable pub set_runner : String → RunbookFile → Option (String × RunbookFile)
unfolding find_runner put_runner decimal
set_runner dsn rb = set_found dsn rb (find_runner dsn (named_items rb.runners) no_counts)
