-- ===== src/Book/OtherReady.antt =====
-- Panics in the settings of the clients that book.go parses besides those of HTTP.
use runn.Common.{String, Bool, true, false, not, Option, none, some, List, ◌==◌, eqb, if◌then◌else◌}
use runn.Common.Replacing.{cut, count_of}
use runn.Errors.{Error, Result, ok, err}
use runn.Bind.{Attempt, panics, fails, yields, attempt, ◌>>=◌}
use runn.RunnerConfig.{GrpcRunnerConfig, SshRunnerConfig, validate_ssh}
use runn.Book.{GrpcRunner, SshLocalForward, SshcOption}
use runn.Book.Loader.{Loader}
use runn.Book.OtherSettings.{
  data_or_file, apply_grpc_config, config_options, key_options, checked_stat, ssh_options,
  forward_of, ssh_forward, connect, connected, ssh_runner_of, check_ssh, start, keeps_session,
}

abbrev pub Safe : {A : Type 0} → Attempt A → Type 0
Safe panics = ⊥
Safe (fails e) = Unit
Safe (yields a) = Unit

pub Safe-bind :
    {A B : Type 0} (m : Attempt A) (f : A → Attempt B)
    → Safe m
    → ((a : A) → Safe (f a))
    → Safe (m >>= f)
Safe-bind panics f h k = h
Safe-bind (fails e) f h k = tt
Safe-bind (yields a) f h k = k a

pub Safe-attempt : {A : Type 0} (a : Result A) → Safe (attempt a)
Safe-attempt (ok a) = tt
Safe-attempt (err e) = tt

Safe-if : {A : Type 0} (b : Bool) (m n : Attempt A) → Safe m → Safe n → Safe (if b then m else n)
Safe-if true m n h k = h
Safe-if false m n h k = k

-- A test whose error is returned.
abbrev unit_or : Option Error → Attempt (Unit {0})
unit_or o = elim o [ some e ↦ fails e | none ↦ yields tt ]

Safe-unit_or : (o : Option Error) → Safe (unit_or o)
Safe-unit_or none = tt
Safe-unit_or (some e) = tt

module _ (w : Loader) where
  Safe-data_or_file :
      (locate : String → String) (given path : String) → Safe (data_or_file w locate given path)
  Safe-data_or_file locate given path =
      Safe-if (not (given == "")) _ _ tt
        (Safe-if (not (path == "")) _ _ (Safe-attempt (w.read_file (locate path))) tt)

  pub Safe-apply_grpc_config :
      (locate : String → String) (c : GrpcRunnerConfig) (r : GrpcRunner)
      → Safe (apply_grpc_config w locate c r)
  unfolding apply_grpc_config
  Safe-apply_grpc_config locate c r =
      Safe-bind (data_or_file w locate c.ca_cert_data c.ca_cert) _
        (Safe-data_or_file locate c.ca_cert_data c.ca_cert)
        λ ca.
          Safe-bind (data_or_file w locate c.cert_data c.cert) _
            (Safe-data_or_file locate c.cert_data c.cert)
            λ cert.
              Safe-bind (data_or_file w locate c.key_data c.key) _
                (Safe-data_or_file locate c.key_data c.key) λ key. tt

  pub Safe-check_ssh : (c : SshRunnerConfig) → Safe (check_ssh w c)
  Safe-check_ssh c = Safe-unit_or (validate_ssh c)

  Safe-checked_stat : (stat : Bool) (p : String) → Safe (checked_stat w stat p)
  Safe-checked_stat true p = Safe-unit_or (w.stat p)
  Safe-checked_stat false p = tt

  Safe-config_options :
      (stat : Bool) (root : String) (c : SshRunnerConfig) → Safe (config_options w stat root c)
  Safe-config_options stat root c =
      Safe-if (c.ssh_config == "") _ _ tt (Safe-bind _ _ (Safe-checked_stat stat _) (λ _. tt))

  Safe-key_options : (root : String) (c : SshRunnerConfig) → Safe (key_options w root c)
  Safe-key_options root c =
      Safe-if (not (c.identity_file == "")) _ _
        (Safe-bind _ _ (Safe-attempt (w.read_file _)) (λ _. tt))
        (Safe-if (not (c.identity_key == "")) _ _ tt tt)

  Safe-ssh_options :
      (stat : Bool) (root : String) (c : SshRunnerConfig) → Safe (ssh_options w stat root c)
  unfolding ssh_options
  Safe-ssh_options stat root c =
      Safe-bind (config_options w stat root c) _ (Safe-config_options stat root c)
        λ configs. Safe-bind (key_options w root c) _ (Safe-key_options root c) λ keys. tt

  Safe-forward_of : (name l : String) (o : Option (String × String)) → Safe (forward_of w name l o)
  Safe-forward_of name l none = tt
  Safe-forward_of name l (some p) = tt

  Safe-ssh_forward : (name : String) (c : SshRunnerConfig) → Safe (ssh_forward w name c)
  unfolding ssh_forward
  Safe-ssh_forward name c = Safe-if (c.local_forward == "") _ _ tt (
      Safe-if (eqb (count_of ":" c.local_forward) 2) _ _
        (Safe-forward_of name c.local_forward (cut ":" c.local_forward)) tt)

  Safe-connect :
      (c : SshRunnerConfig) (opts : List SshcOption) (lf : Option SshLocalForward)
      → Safe (connect w c opts lf)
  Safe-connect c opts lf =
      Safe-bind _ _ (Safe-attempt _)
        λ client. Safe-bind (start w client lf) _ (Safe-unit_or (w.start_session client lf)) λ _. tt

  Safe-connected :
      (c : SshRunnerConfig) (opts : List SshcOption) (lf : Option SshLocalForward)
      → Safe (connected w c opts lf)
  Safe-connected c opts lf = Safe-if (keeps_session w c) _ _ (Safe-connect c opts lf) tt

  pub Safe-ssh_runner_of :
      (name root : String) (c : SshRunnerConfig) → Safe (ssh_runner_of w name root c)
  Safe-ssh_runner_of name root c =
      Safe-bind (ssh_options w true root c) _ (Safe-ssh_options true root c) λ options.
        Safe-bind (ssh_forward w name c) _ (Safe-ssh_forward name c)
          λ lf. Safe-bind _ _ (Safe-connected c _ lf) λ client. tt
