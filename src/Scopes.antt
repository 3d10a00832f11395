-- ===== src/Scopes.antt =====
-- scope.go: what runn is allowed to do. The lock is left out: one call changes the scopes at a time.
use runn.Common.{String, Bool, true, false, List, [], ◌∷◌, ◌==◌, if◌then◌else◌}
use runn.Common.Strings.{split, trim}
use runn.Errors.{message}
use runn.Book.Changes.{Changed, fails, done, ◌>>=◌}

pub record Scopes : Type 0 where
  pub read_parent : Bool
  pub read_remote : Bool
  pub run_exec : Bool

-- `globalScopes`, at first.
abbrev pub no_scopes : Scopes
no_scopes = record { read_parent = false; read_remote = false; run_exec = false }

-- `strings.TrimSpace`, for blanks, tabs and line breaks.
abbrev pub trim_space : String → String
trim_space s = trim " \t\n\r" s

unfoldable pub set_scope : String → Scopes → Changed Scopes
set_scope ss g =
    if ss == "read:parent"
    then done (record g { read_parent = true })
    else if ss == "read:remote"
    then done (record g { read_remote = true })
    else if ss == "run:exec"
    then done (record g { run_exec = true })
    else if ss == "!read:parent"
    then done (record g { read_parent = false })
    else if ss == "!read:remote"
    then done (record g { read_remote = false })
    else if ss == "!run:exec"
    then done (record g { run_exec = false })
    else if ss == ""
    then done g
    else fails (message "invalid scope") g

unfoldable pub set_each : List String → Scopes → Changed Scopes
unfolding set_scope
set_each [] g = done g
set_each (ss ∷ parts) g = set_scope ss g >>= set_each parts

unfoldable pub set_scopes : List String → Scopes → Changed Scopes
unfolding set_each split trim
set_scopes [] g = done g
set_scopes (s ∷ scopes) g = set_each (split "," (trim_space s)) g >>= set_scopes scopes
