-- ===== src/Book/SetUp.antt =====
-- How `New` of operator.go sets up the clients of a book: documents, host rules, files of gRPC.
use mathlib.Core.List.{◌++◌ as append}
use runn.Common.{
  String, Bool, true, false, Option, none, some, List, [], ◌∷◌, ◌==◌, ◌||◌, not, eqb, length,
  if◌then◌else◌, Dict,
}
use runn.Common.Replacing.{cut}
use package.text.Mathlib.Text.{starts_with}
use runn.Value.{bool, dict, Fields}
use runn.Value.Maps.{get}
use runn.Errors.{Error, message}
use runn.Bind.{Attempt, panics, fails, yields, attempt, ◌>>=◌}
use runn.RunnerConfig.{no_http}
use runn.Book.{
  Book, HttpRunner, HttpValidator, nop, open_api3, DbRunner, GrpcRunner, CdpRunner, SshRunner,
}
use runn.Book.Loader.{Loader, new_http_validator}

-- What the runners do when they connect again: the `Renew` of the four kinds that have one.
pub record Renewal : Type 0 where
  pub renew_db : DbRunner → Option Error
  pub renew_grpc : GrpcRunner → Option Error
  pub renew_cdp : CdpRunner → Option Error
  pub renew_ssh : SshRunner → Option Error

-- `splitKeyAndPath` of path.go
abbrev pair_of : String → Option (String × String) → String × String
pair_of kp none = ("", kp)
pair_of kp (some p) = p

unfoldable pub split_key_and_path : String → String × String
unfolding cut
split_key_and_path kp =
    if starts_with kp "https://" || starts_with kp "github://"
    then ("", kp)
    else pair_of kp (cut ":" kp)

-- `if key != "" && key != k { continue }`
abbrev is_for : String → String → Bool
is_for k key = key == "" || key == k

unfoldable pub paths_for : String → List String → List String
unfolding split_key_and_path
paths_for k [] = []
paths_for k (l ∷ locations) =
    let rest = paths_for k locations in
    let (key, p) = split_key_and_path l in if is_for k key then p ∷ rest else rest

-- A loop over the clients of one kind: each is set up, in turn.
unfoldable pub set_up_all : {V : Type 0} → (String → V → Attempt V) → Dict V → Attempt (Dict V)
set_up_all f [] = yields []
set_up_all f ((k, v) ∷ m) = do v' ← f k v; rest ← set_up_all f m; yields ((k, v') ∷ rest)

abbrev renewed : {V : Type 0} → (V → Option Error) → V → Attempt V
renewed renew v = elim (renew v) [ some e ↦ fails e | none ↦ yields v ]

abbrev has_rules : Book → Bool
has_rules bk = not (eqb (length bk.host_rules) 0)

abbrev flag_at : String → Fields → Bool
flag_at k m = elim (get k m) as (λ _. Bool) [ some (bool b) ↦ b | _ ↦ false ]

-- `v.client.Transport.(*http.Transport).DialContext = ...` without a test. What a dialer does with
-- the rules is left out.
abbrev with_dialer : Book → HttpRunner → Attempt HttpRunner
with_dialer bk v =
    if has_rules bk
    then elim v.client [ none ↦ panics | some c ↦ if c.transport then yields v else panics ]
    else yields v

module _ (w : Loader) where
  -- The document of the first location for the runner, with the flags of its map.
  abbrev validator_at : String → String → Fields → HttpRunner → Attempt HttpRunner
  validator_at k p m v = do
    val ← attempt (
        new_http_validator w (record no_http {
          open_api3_doc_location = p;
          skip_validate_request = flag_at "skipValidateRequest" m;
          skip_validate_response = flag_at "skipValidateResponse" m;
        }))
    yields (record v { validator = val })

  abbrev by_location : Book → String → List String → HttpRunner → Attempt HttpRunner
  by_location bk k [] v = yields v
  by_location bk k (p ∷ later) v = elim (get k bk.runners) as (λ _. Attempt HttpRunner) [
    | some (dict m) ↦ validator_at k p m v
    | _ ↦ fails (message "invalid type")
  ]

  abbrev validated : Book → String → HttpRunner → HttpValidator → Attempt HttpRunner
  validated bk k v nop = by_location bk k (paths_for k bk.open_api3_doc_locations) v
  validated bk k v (open_api3 q s d) = yields v

  unfoldable pub set_up_http : Book → String → HttpRunner → Attempt HttpRunner
  unfolding paths_for new_http_validator
  set_up_http bk k v = validated bk k v v.validator >>= with_dialer bk

module _ (n : Renewal) where
  unfoldable pub set_up_db : Book → String → DbRunner → Attempt DbRunner
  set_up_db bk k v =
      if has_rules bk
      then renewed n.renew_db (record v { host_rules = bk.host_rules })
      else yields v

  abbrev no_tls_if : Bool → GrpcRunner → GrpcRunner
  no_tls_if true v = record v { tls = some false }
  no_tls_if false v = v

  abbrev with_paths : Book → String → GrpcRunner → GrpcRunner
  with_paths bk k v = record (no_tls_if bk.grpc_no_tls v) {
    protos = append v.protos (paths_for k bk.grpc_protos);
    import_paths = append v.import_paths (paths_for k bk.grpc_import_paths);
  }

  unfoldable pub set_up_grpc : Book → String → GrpcRunner → Attempt GrpcRunner
  unfolding paths_for
  set_up_grpc bk k v =
      if has_rules bk
      then renewed n.renew_grpc (record (with_paths bk k v) { host_rules = bk.host_rules })
      else yields (with_paths bk k v)

  -- A browser is renewed in any case.
  unfoldable pub set_up_cdp : Book → String → CdpRunner → Attempt CdpRunner
  set_up_cdp bk k v =
      renewed n.renew_cdp (if has_rules bk then record v { host_rules = bk.host_rules } else v)

  unfoldable pub set_up_ssh : Book → String → SshRunner → Attempt SshRunner
  set_up_ssh bk k v =
      if has_rules bk
      then renewed n.renew_ssh (record v { host_rules = bk.host_rules })
      else yields v
