-- ===== src/Book/Merging.antt =====
-- `merge` of book.go, and what `Overlay` and `Underlay` of option.go do with the runbook that they
-- have loaded.
use runn.Common.{String, Bool, true, false, ◌++◌, ◌==◌, not, if◌then◌else◌, eqb, length, ◌||◌}
use runn.Value.Maps.{put_all}
use runn.Errors.{message}
use runn.Book.{Book}
use runn.Book.Changes.{Changed, fails, done, ◌>>=◌, insert_all, insert_missing, put_missing}

-- `if !bk.debug { bk.debug = loaded.debug }`, for each of four flags. `concurrency` is not copied.
unfoldable pub merge : Book → Book → Book
unfolding insert_all put_all
merge bk loaded = record bk {
  path = loaded.path;
  desc = loaded.desc;
  labels = loaded.labels;
  if_cond = loaded.if_cond;
  use_map = loaded.use_map;
  runners = put_all loaded.runners bk.runners;
  http_runners = insert_all loaded.http_runners bk.http_runners;
  db_runners = insert_all loaded.db_runners bk.db_runners;
  grpc_runners = insert_all loaded.grpc_runners bk.grpc_runners;
  cdp_runners = insert_all loaded.cdp_runners bk.cdp_runners;
  ssh_runners = insert_all loaded.ssh_runners bk.ssh_runners;
  vars = put_all loaded.vars bk.vars;
  runner_errs = loaded.runner_errs;
  raw_steps = loaded.raw_steps;
  host_rules = loaded.host_rules;
  step_keys = loaded.step_keys;
  debug = bk.debug || loaded.debug;
  skip_test = bk.skip_test || loaded.skip_test;
  force = bk.force || loaded.force;
  trace = bk.trace || loaded.trace;
  loop = loaded.loop;
  open_api3_doc_locations = loaded.open_api3_doc_locations;
  grpc_no_tls = loaded.grpc_no_tls;
  grpc_protos = loaded.grpc_protos;
  grpc_import_paths = loaded.grpc_import_paths;
  interval = if loaded.interval_str == "" then bk.interval else loaded.interval;
}

abbrev pub same_kind : Bool → Bool → Bool
same_kind true b = b
same_kind false b = not b

-- Runbooks of different types cannot be layered, unless the loaded one has no steps.
unfoldable pub checked_kind : Book → Book → Changed Book
checked_kind bk loaded =
    if eqb (length loaded.raw_steps) 0 || same_kind bk.use_map loaded.use_map
    then done bk
    else fails (message "only runbooks of the same type can be layered") bk

abbrev pub described : Book → Book → Book
described bk loaded = record bk { desc = loaded.desc; if_cond = loaded.if_cond }

abbrev pub laid_over : Book → Book → Book
laid_over bk loaded = record bk {
  runners = put_all loaded.runners bk.runners;
  http_runners = insert_all loaded.http_runners bk.http_runners;
  db_runners = insert_all loaded.db_runners bk.db_runners;
  grpc_runners = insert_all loaded.grpc_runners bk.grpc_runners;
  cdp_runners = insert_all loaded.cdp_runners bk.cdp_runners;
  ssh_runners = insert_all loaded.ssh_runners bk.ssh_runners;
  vars = put_all loaded.vars bk.vars;
  runner_errs = insert_all loaded.runner_errs bk.runner_errs;
  raw_steps = bk.raw_steps ++ loaded.raw_steps;
  step_keys = bk.step_keys ++ loaded.step_keys;
  debug = loaded.debug;
  skip_test = loaded.skip_test;
  loop = loaded.loop;
  concurrency = loaded.concurrency;
  grpc_no_tls = loaded.grpc_no_tls;
  interval = loaded.interval;
}

unfoldable pub overlay_book : Book → Book → Changed Book
unfolding insert_all put_all checked_kind
overlay_book bk loaded = do b ← checked_kind (described bk loaded) loaded; done (laid_over b loaded)

abbrev default : String → String → String
default t s = if s == "" then t else s

abbrev pub described_if_not : Book → Book → Book
described_if_not bk loaded = record bk {
  desc = default loaded.desc bk.desc;
  if_cond = default loaded.if_cond bk.if_cond;
}

abbrev pub laid_under : Book → Book → Book
laid_under bk loaded = record bk {
  runners = put_missing loaded.runners bk.runners;
  http_runners = insert_missing loaded.http_runners bk.http_runners;
  db_runners = insert_missing loaded.db_runners bk.db_runners;
  grpc_runners = insert_missing loaded.grpc_runners bk.grpc_runners;
  cdp_runners = insert_missing loaded.cdp_runners bk.cdp_runners;
  ssh_runners = insert_missing loaded.ssh_runners bk.ssh_runners;
  vars = put_missing loaded.vars bk.vars;
  runner_errs = insert_all loaded.runner_errs bk.runner_errs;
  raw_steps = loaded.raw_steps ++ bk.raw_steps;
  step_keys = loaded.step_keys ++ bk.step_keys;
  interval = if bk.interval_str == "" then loaded.interval else bk.interval;
  stdout = loaded.stdout;
  stderr = loaded.stderr;
}

unfoldable pub underlay_book : Book → Book → Changed Book
unfolding insert_all insert_missing put_missing checked_kind
underlay_book bk loaded = do
  b ← checked_kind (described_if_not bk loaded) loaded
  done (laid_under b loaded)
