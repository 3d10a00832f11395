-- ===== src/Book/Detected.antt =====
-- The runners that stand as maps: the four parsers of book.go, in turn.
use runn.Common.{String, ◌≡◌, refl, subst, sym, Bool, true, false, ◌==◌, ◌&&◌, if◌then◌else◌}
use runn.Errors.{Result, ok, err}
use runn.Bind
use runn.Bind.{Attempt}
use runn.RunnerConfig.{HttpRunnerConfig, GrpcRunnerConfig, DbRunnerConfig, SshRunnerConfig}
use runn.Book.{Book, HttpRunner}
use runn.Book.Changes.{Changed, panics, fails, done, with_ok}
use runn.Book.Loader.{Loader, generate_operator_root, fp}
use runn.Book.Clients.{
  new_http_runner, new_grpc_runner, new_db_runner, place_http, place_db, place_grpc, place_ssh,
}
use runn.Book.HttpSettings.{parse_http_runner_with_detailed, set_up_http}
use runn.Book.OtherSettings.{
  parse_grpc_runner_with_detailed, parse_db_runner_with_detailed, parse_ssh_runner_with_detailed,
  apply_grpc_config, check_ssh, ssh_runner_of,
}
use runn.Book.HttpReady.{Ready, HasClient, Ready-settings, new_http_runner-HasClient}
use runn.Book.OtherReady.{
  Safe, Safe-attempt, Safe-apply_grpc_config, Safe-check_ssh, Safe-ssh_runner_of,
}
use runn.Book.Parsing.{parse_map_runner, unchanged, or_detect, unless_detected}
use runn.Book.Known.{
  Others, Placed, Parses, place_http-Placed, place_db-Placed, place_grpc-Placed, place_ssh-Placed,
}

-- A parser of one kind does not panic, and says whether it has made the client.
abbrev Detects : String → Book → Changed (Bool × Book) → Type 0
Detects k bk panics = ⊥
Detects k bk (fails e p) = Others k bk p.1
Detects k bk (done (true, b)) = Placed k bk b
Detects k bk (done (false, b)) = b ≡ bk

Detects-unless :
    (k : String) (bk : Book) (b : Bool) (m : Changed (Bool × Book))
    → Detects k bk m
    → Detects k bk (if b then done (false, bk) else m)
Detects-unless k bk true m h = refl
Detects-unless k bk false m h = h

Detects-or_detect :
    (k : String) (bk : Book) (m : Changed (Bool × Book)) (next : Book → Changed (Bool × Book))
    → Detects k bk m
    → Detects k bk (next bk)
    → Detects k bk (or_detect m next)
Detects-or_detect k bk panics next h i = h
Detects-or_detect k bk (fails e p) next h i = h
Detects-or_detect k bk (done (true, b)) next h i = h
Detects-or_detect k bk (done (false, b)) next h i = subst (λ b. Detects k bk (next b)) (sym h) i

-- The same of a parser that leaves the book as it is on an error.
abbrev Finds : String → Book → Attempt (Bool × Book) → Type 0
Finds k bk m = Detects k bk (unchanged (false, bk) m)

Finds-bind :
    {A : Type 0} (k : String) (bk : Book) (m : Attempt A) (f : A → Attempt (Bool × Book))
    → Safe m
    → ((a : A) → Finds k bk (f a))
    → Finds k bk (Bind.◌>>=◌ m f)
Finds-bind k bk Bind.Attempt.panics f h i = h
Finds-bind k bk (Bind.Attempt.fails e) f h i = λ j d. refl
Finds-bind k bk (Bind.Attempt.yields a) f h i = i a

Finds-unless :
    (k : String) (bk : Book) (b : Bool) (m : Attempt (Bool × Book))
    → Finds k bk m
    → Finds k bk (if b then Bind.Attempt.yields (false, bk) else m)
Finds-unless k bk true m h = refl
Finds-unless k bk false m h = h

module _ (w : Loader) (k b : String) (bk : Book) where
  set_up_http-Detects :
      (root : String) (c : HttpRunnerConfig) (r : HttpRunner)
      → HasClient r
      → Detects k bk (set_up_http w bk root k c r)
  set_up_http-Detects root c r h = by_settings _ (Ready-settings w root c r h)
    where
      by_settings :
          (m : Changed HttpRunner)
          → Ready m
          → Detects k bk (elim m [
            | panics ↦ panics
            | fails e r' ↦ fails e (false, place_http bk k r')
            | done r' ↦ done (true, place_http bk k r')
          ])
      by_settings panics h = h
      by_settings (fails e r') h = (place_http-Placed k bk r').1
      by_settings (done r') h = place_http-Placed k bk r'

  parse_http-Detects : Detects k bk (parse_http_runner_with_detailed w k b bk)
  unfolding parse_http_runner_with_detailed
  parse_http-Detects = by_config (w.unmarshal_http b)
    where
      by_runner :
          (root : String) (c : HttpRunnerConfig) (a : Result HttpRunner)
          → new_http_runner w k c.endpoint ≡ a
          → Detects k bk (with_ok (false, bk) a (set_up_http w bk root k c))
      by_runner root c (err e) h = λ j d. refl
      by_runner root c (ok r) h =
          set_up_http-Detects root c r (new_http_runner-HasClient w k c.endpoint r h)

      by_root :
          (c : HttpRunnerConfig) (a : Result String)
          → Detects k bk (
              with_ok
                (false, bk)
                a
                λ root.
                  with_ok (false, bk) (new_http_runner w k c.endpoint) (set_up_http w bk root k c))
      by_root c (err e) = λ j d. refl
      by_root c (ok root) = by_runner root c (new_http_runner w k c.endpoint) refl

      by_config :
          (a : Result HttpRunnerConfig)
          → Detects k bk (elim a [
            | err e ↦ done (false, bk)
            | ok c ↦
                if c.endpoint == ""
                then done (false, bk)
                else with_ok
                    (false, bk)
                    (generate_operator_root w bk)
                    λ root.
                      with_ok
                        (false, bk)
                        (new_http_runner w k c.endpoint)
                        λ r. set_up_http w bk root k c r
          ])
      by_config (err e) = refl
      by_config (ok c) =
          Detects-unless k bk (c.endpoint == "") _ (by_root c (generate_operator_root w bk))

  parse_grpc-Finds : Finds k bk (parse_grpc_runner_with_detailed w k b bk)
  unfolding parse_grpc_runner_with_detailed
  parse_grpc-Finds = by_config (w.unmarshal_grpc b)
    where
      by_config :
          (a : Result GrpcRunnerConfig)
          → Finds k bk (elim a [
            | err e ↦ Bind.Attempt.yields (false, bk)
            | ok c ↦
                if c.addr == ""
                then Bind.Attempt.yields (false, bk)
                else Bind.◌>>=◌ (Bind.attempt (generate_operator_root w bk)) λ root.
                  Bind.◌>>=◌ (Bind.attempt (new_grpc_runner k c.addr)) λ r.
                    Bind.◌>>=◌
                      (apply_grpc_config w (λ p. fp w p root) c r)
                      λ r'. Bind.Attempt.yields (true, place_grpc bk k r')
          ])
      by_config (err e) = refl
      by_config (ok c) = Finds-unless k bk (c.addr == "") _ (
          Finds-bind k bk _ _ (Safe-attempt (generate_operator_root w bk)) λ root.
            Finds-bind k bk (Bind.attempt (new_grpc_runner k c.addr))
              (λ r.
                Bind.◌>>=◌ (apply_grpc_config w (λ p. fp w p root) c r)
                  λ r'. Bind.Attempt.yields (true, place_grpc bk k r'))
              (Safe-attempt (new_grpc_runner k c.addr))
              λ r.
                Finds-bind k bk _ _ (Safe-apply_grpc_config w (λ p. fp w p root) c r)
                  λ r'. place_grpc-Placed k bk r')

  parse_db-Finds : Finds k bk (parse_db_runner_with_detailed w k b bk)
  unfolding parse_db_runner_with_detailed
  parse_db-Finds = by_config (w.unmarshal_db b)
    where
      by_config :
          (a : Result DbRunnerConfig)
          → Finds k bk (elim a [
            | err e ↦ Bind.Attempt.yields (false, bk)
            | ok c ↦
                if c.dsn == ""
                then Bind.Attempt.yields (false, bk)
                else Bind.◌>>=◌
                    (Bind.attempt (new_db_runner w k c.dsn))
                    λ r. Bind.Attempt.yields (true, place_db bk k (record r { trace = c.trace }))
          ])
      by_config (err e) = refl
      by_config (ok c) = Finds-unless k bk (c.dsn == "") _ (
          Finds-bind k bk _ _ (Safe-attempt (new_db_runner w k c.dsn))
            λ r. place_db-Placed k bk (record r { trace = c.trace }))

  parse_ssh-Finds : Finds k bk (parse_ssh_runner_with_detailed w k b bk)
  unfolding parse_ssh_runner_with_detailed
  parse_ssh-Finds = by_config (w.unmarshal_ssh b)
    where
      by_config :
          (a : Result SshRunnerConfig)
          → Finds k bk (elim a [
            | err e ↦ Bind.Attempt.yields (false, bk)
            | ok c ↦
                if c.host == "" && c.hostname == ""
                then Bind.Attempt.yields (false, bk)
                else Bind.◌>>=◌ (check_ssh w c) λ valid.
                  Bind.◌>>=◌ (Bind.attempt (generate_operator_root w bk)) λ root.
                    Bind.◌>>=◌
                      (ssh_runner_of w k root c)
                      λ r. Bind.Attempt.yields (true, place_ssh bk k r)
          ])
      by_config (err e) = refl
      by_config (ok c) = Finds-unless k bk (c.host == "" && c.hostname == "") _ (
          Finds-bind k bk _ _ (Safe-check_ssh w c) λ valid.
            Finds-bind k bk _ _ (Safe-attempt (generate_operator_root w bk)) λ root.
              Finds-bind k bk _ _ (Safe-ssh_runner_of w k root c) λ r. place_ssh-Placed k bk r)

  unless_detected-Parses :
      (m : Changed (Bool × Book)) → Detects k bk m → Parses k bk (unless_detected b m)
  unless_detected-Parses panics h = h
  unless_detected-Parses (fails e p) h = h
  unless_detected-Parses (done (true, b')) h = h
  unless_detected-Parses (done (false, b')) h = subst (Others k bk) (sym h) λ j d. refl

  pub parse_map_runner-Parses : Parses k bk (parse_map_runner w k b bk)
  unfolding parse_map_runner
  parse_map_runner-Parses = unless_detected-Parses _ (
      Detects-or_detect k bk _ _
        (Detects-or_detect k bk _ _ (Detects-or_detect k bk _ _ parse_http-Detects parse_grpc-Finds)
          parse_db-Finds)
        parse_ssh-Finds)
