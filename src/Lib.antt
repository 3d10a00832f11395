-- ===== src/Lib.antt =====
-- runn runs runbooks: lists or maps of steps, each a request to another system, a dump, a binding of
-- variables, a test, or several of these. This library models the part that runs a runbook: the store
-- of what the steps have recorded, a step with its condition and its loop, and a run of all steps.
--
-- The parts, and the files of the repository's root that they model:
--   Value, Value/Maps      Go's `any`, `map[string]any` and `map[any]any`: values, reads and writes
--   Store                  store.go: the type `store` and its operations on records; the view of a
--                          store (Store/View) is the sequence of its records; Store/Root is `toMap`
--                          and `toNormalizedMap`, Store/Cookies is `recordToCookie`
--   Trail, Errors          trail.go and errors.go
--   Result                 result.go: the results, the failures that they list (Result/Failures and
--                          Result/Listing), their simplified form, and the measured times
--   Shards                 `partOperators` of operator.go, which Selection calls
--   Eval                   eval.go: `Eval`, `EvalAny`, `EvalCond`, `EvalCount`
--   Bind                   bind.go: the keys and values of `bind:` and the merging of variables
--   Operator               operator.go and step.go. The Go type `operator` holds what a run reads and
--                          what it changes: here `Runbook` and `Run`. Operator/Record is `record` and
--                          its kin, Operator/Runners the runners of test.go, dump.go and bind.go,
--                          Operator/RunStep is `runStep`, Operator/Internal is `runInternal`, and
--                          Operator/Runs is `runLoop` and `run`, without the branch of a
--                          Go test
--   Parse                  parse.go: the requests of steps, and how they are validated (Parse/Http with
--                          `validate` of http.go, Parse/Grpc, Parse/Cdp, Parse/Command, Parse/Service,
--                          and Parse/Delimiter, which takes quotes away)
--   CdpFunctions           the table of cdpfn.go and its lookup
--   LoopSection            `newLoop` of loop.go and `parseDuration` of parse.go
--   AppendStep             `AppendStep` of operator.go
--   StepKeys               `validateRunnerKey` and `validateStepKeys` of book.go
--   Ids                    id.go: the IDs of runbooks
--   Selection              `SelectedOperators` of operator.go
--   Statements             `separateStmt` of db.go
--   RunnerConfig           runner_option.go: the configs of runners and their options
--   Book                   book.go: the settings of a runbook and of a run. Book/Merging is `merge` and
--                          what `Overlay` and `Underlay` do, Book/HttpSettings, Book/OtherSettings and
--                          Book/Parsing are the parsing of runners and variables, Book/Loading is
--                          `loadBook`, Book/Clients makes the runners of http.go and its
--                          kin, and Book/SetUp is what `New` of operator.go does with each of them
--   Scopes                 scope.go
--   Options                option.go: every option, and `applyOptions` of book.go (Options/Applying)
--   RunbookFile            runbook.go: the runbook of a file. RunbookFile/Mapped is
--                          `parseRunbookMapped` and `MarshalYAML`, between the Go values that YAML
--                          reads and writes; RunbookFile/Appending is `AppendStep` and what it calls,
--                          RunbookFile/RunnerKeys `setRunner`, RunbookFile/ToBook `toBook` and
--                          `parseBook`. RunbookFile/Reading is about the first two, and
--                          RunbookFile/Growing, RunbookFile/Broken and RunbookFile/NilRunners are
--                          about `AppendStep`
--   Construct              `New` of operator.go: from options to the clients and steps of an operator
--   Tests                  small data to which the theorems are applied
--
-- A run reads and changes a `Run`, which each function takes and returns; a panic is a value (`none`,
-- or `panics`), and so is an early `return` (Operator/Exec). `runInternal` calls `runStep` for each
-- step, `runStep` calls the runners, and these write to the store by `record`.
--
-- The proofs follow the calls: Operator/Fits and Operator/Sequence are about one record, Operator/Stages,
-- Operator/Parts and Operator/StepFn about one round of a step, Operator/StepRounds, Operator/StepRuns
-- and Operator/StepEnds about a step, Operator/Noting, Operator/StepNotes and Operator/OneStep about what
-- `runInternal` notes after it, Operator/AllSteps about the loop over the steps, Operator/Hooks about
-- the condition and the hooks around it, and Operator/Conclusion and Operator/Ending about the whole
-- of `runInternal`.
-- Operator/Outcomes says which courses a run may take, as a step relation, and
-- Operator/Stops what follows from it after a failure. Operator/Rounds says which rounds `runLoop` may
-- make, Operator/RoundSteps takes one round at a time, and Operator/RunLoops all of them.
--
-- Outside of the model, as the parameter `World`: the expression language and its parser, the
-- environment, the runners http, db, grpc, cdp, ssh, exec and include, of which the model takes the
-- reply of a call (cookies, an included run, and an error or one record), the output of the dump
-- runner, the back-off of loops, and the hooks. Capturers, the debug output, the profile and pauses
-- change no run and are left out. So are Go tests and the command line. Texts of errors are kept as
-- far as they tell errors apart. `AppendStep` makes the steps that a run makes, and the parsers of
-- Parse read the requests that the runners are given; YAML, the expansion of expressions and the
-- parser of durations are parameters there (`Reader`, `LoopReader`).
--
-- A runbook comes into being in three parts: RunbookFile reads it from a file, Book connects its
-- runners, and Construct makes an operator from the book that the options have filled in. Files and
-- paths, YAML, connections and expressions are parameters (`BookReader`, `Loader`, `Renewal`). An
-- option changes the book through a pointer, and keeps its changes beside an error: a change is a
-- `Changed` (Book/Changes). Book/HttpReady and
-- Book/OtherReady are about panics in the settings of clients, and Book/Known, Book/Detected and
-- Book/AllKnown about the runners of a runbook. Two options that are given one client share it in Go,
-- and have each their own here. `Load` and the runs of many operators at once, capturers, coverage,
-- load tests, the parsing of access logs and of commands, and the places of steps in a text are not
-- modelled: they exchange data with other systems or are other packages' work.
--
-- Loops over steps, keys and rounds are structural: a loop makes at most as many rounds as its count.
-- The fuel of `evalBindKeyValue` is one round for each character of the key and one more; each round
-- takes a "[]" away from the end of the key. The fuel of `trimStringDelimiter` is one round for each
-- character; each round takes a quote away.
pub mod Common
pub mod Value
pub mod Store
pub mod Errors
pub mod Trail
pub mod Result
pub mod Bind
pub mod Eval
pub mod Operator
pub mod Shards
pub mod CdpFunctions
pub mod LoopSection
pub mod Parse
pub mod AppendStep
pub mod StepKeys
pub mod Ids
pub mod Selection
pub mod Statements
pub mod RunnerConfig
pub mod Book
pub mod Scopes
pub mod RunbookFile
pub mod Options
pub mod Construct
pub mod Tests
