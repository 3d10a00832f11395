-- ===== src/RunbookFile/ToBook.antt =====
-- `toBook` of runbook.go: the settings of a book from the runbook of a file, with `parseRunbook`,
-- `ParseRunbook` and `parseBook`.
use runn.Common.{String, Option, none, some, List, [], ◌∷◌, ◌==◌, if◌then◌else◌, map}
use runn.Value
use runn.Value.{Value, Fields}
use runn.Errors.{Error, message, wrapped, Result, ok, err}
use runn.StepKeys.{validate_runner_key, validate_step_keys}
use runn.LoopSection.{LoopReader, LoopSection, new_loop, parse_duration}
use runn.Book.{Book, HostRule, new_book}
use runn.Book.Changes
use runn.RunbookFile
use runn.RunbookFile.{
  Yaml, Yamls, Items, NamedItems, RunbookFile, RunbookMapped, new_runbook, named_items, validate,
}
use runn.RunbookFile.Normal.{normalize, normalize_named, normalize_items}
use runn.RunbookFile.Mapped.{parse_runbook_mapped}

abbrev ◌>>=◌ : {A B : Type 0} → Result A → (A → Result B) → Result B
err e >>= f = err e
ok a >>= f = f a

infixl 5 ◌>>=◌
abbrev text_of : Yaml → Option String
text_of (RunbookFile.Yaml.text t) = some t
text_of v = none

unfoldable pub texts_of : Yamls → Option (List String)
texts_of RunbookFile.Yamls.nil = some []
texts_of (RunbookFile.Yamls.cons v l) = elim (text_of v) [
  | none ↦ none
  | some t ↦ elim (texts_of l) [ none ↦ none | some ts ↦ some (t ∷ ts) ]
]

-- `newConcurrency`; YAML reads no `[]string`.
unfoldable pub new_concurrency : Yaml → Result (List String)
unfolding texts_of
new_concurrency (RunbookFile.Yaml.text t) = ok (t ∷ [])
new_concurrency (RunbookFile.Yaml.list l) = elim (texts_of l) [
  | none ↦ err (message "invalid concurrency")
  | some ts ↦ ok ts
]
new_concurrency v = err (message "invalid concurrency")

unfoldable pub to_host_rules : Items → Result (List HostRule)
to_host_rules RunbookFile.Items.end = ok []
to_host_rules (RunbookFile.Items.item k v m) = elim (text_of k) [
  | none ↦ err (message "invalid host rule")
  | some host ↦ elim (text_of v) [
    | none ↦ err (message "invalid host rule")
    | some rule ↦ to_host_rules m >>= λ rules. ok (record { host = host; rule = rule } ∷ rules)
  ]
]

-- The readers of YAML, of environment variables and aliases in it, of JSON, and of durations.
pub record BookReader : Type 0 where
  pub loops : LoopReader
  pub show : Yaml → String
  pub interpolate : String → Result String
  pub flatten : String → Result String
  -- into a runbook, of which YAML sets what it can when it fails, and into one with keys
  pub unmarshal : String → RunbookFile → RunbookFile × Option Error
  pub unmarshal_mapped : String → Result RunbookMapped
  -- `json.Marshal` and `json.Unmarshal` of the variables
  pub through_json : Fields → Result Fields

module _ (r : BookReader) where
  -- `if rb.Loop != nil`
  abbrev loop_of : Yaml → Result (Option LoopSection)
  loop_of RunbookFile.Yaml.null = ok none
  loop_of v = new_loop r.loops (normalize r.show v) >>= λ l. ok (some l)

  abbrev concurrency_of : Yaml → Result (List String)
  concurrency_of RunbookFile.Yaml.null = ok []
  concurrency_of v = new_concurrency v

  abbrev normal_step : Items → Fields
  normal_step s = normalize_items r.show s Value.Fields.end

  abbrev book_of : RunbookFile → List HostRule → Option LoopSection → List String → Book
  book_of rb rules loop concurrency = record new_book {
    desc = rb.desc;
    labels = rb.labels;
    runners = normalize_named r.show (named_items rb.runners) Value.Fields.end;
    vars = normalize_named r.show rb.vars Value.Fields.end;
    raw_steps = map normal_step rb.steps;
    host_rules = rules;
    debug = rb.debug;
    interval_str = rb.interval;
    if_cond = rb.if_cond;
    skip_test = rb.skip_test;
    force = rb.force;
    trace = rb.trace;
    loop = loop;
    concurrency = concurrency;
    use_map = rb.use_map;
    step_keys = rb.step_keys;
  }

  -- `toBook`
  unfoldable pub to_book : RunbookFile → Result Book
  unfolding to_host_rules new_loop new_concurrency normalize new_book
  to_book rb = do
    rules ← to_host_rules rb.host_rules
    loop ← loop_of rb.loop
    concurrency ← concurrency_of rb.concurrency
    ok (book_of rb rules loop concurrency)

  -- Nothing in `parseRunbookMapped` panics.
  abbrev mapped_into : RunbookFile → Result RunbookMapped → Result RunbookFile
  mapped_into rb (err e) = err e
  mapped_into rb (ok m) = elim (parse_runbook_mapped m rb) [
    | Changes.Changed.panics ↦ err (message "panic")
    | Changes.Changed.fails e rb' ↦ err e
    | Changes.Changed.done rb' ↦ ok rb'
  ]

  abbrev read_file : String → RunbookFile × Option Error → Result RunbookFile
  read_file b (rb, none) = ok rb
  read_file b (rb, some e) = mapped_into rb (r.unmarshal_mapped b)

  abbrev validated : RunbookFile → Result RunbookFile
  validated rb = elim (validate rb) [ some e ↦ err e | none ↦ ok rb ]

  -- `parseRunbook`
  unfoldable pub parse_runbook : String → Result RunbookFile
  unfolding parse_runbook_mapped new_runbook validate
  parse_runbook b = do
    rep ← r.interpolate b
    flat ← r.flatten rep
    rb ← read_file flat (r.unmarshal flat (new_runbook ""))
    validated rb

  unfoldable pub check_runners : Fields → Result (Unit {0})
  unfolding validate_runner_key
  check_runners Value.Fields.end = ok tt
  check_runners (Value.Fields.field k v m) = elim (validate_runner_key k) [
    | some e ↦ err e
    | none ↦ check_runners m
  ]

  unfoldable pub check_steps : List Fields → Result (Unit {0})
  unfolding validate_step_keys
  check_steps [] = ok tt
  check_steps (s ∷ steps) = elim (validate_step_keys s) [
    | some e ↦ err (wrapped "invalid steps" e)
    | none ↦ check_steps steps
  ]

  abbrev interval_of : Book → Result Book
  interval_of bk =
      if bk.interval_str == "" then ok bk else elim (parse_duration r.loops bk.interval_str) [
        | err e ↦ err (wrapped "invalid interval" e)
        | ok d ↦ ok (record bk { interval = d })
      ]

  abbrev with_vars : Book → Result Book
  with_vars bk = elim (r.through_json bk.vars) [
    | err e ↦ err (wrapped "invalid vars" e)
    | ok vars ↦ ok (record bk { vars = vars })
  ]

  abbrev with_desc : Book → Book
  with_desc bk = record bk { desc = if bk.desc == "" then "[No Description]" else bk.desc }

  -- `parseBook`
  unfoldable pub parse_book : String → Result Book
  unfolding parse_runbook to_book check_runners check_steps parse_duration
  parse_book b = do
    rb ← parse_runbook b
    bk ← to_book rb
    bk₁ ← with_vars bk
    bk₂ ← interval_of (with_desc bk₁)
    runners ← check_runners bk₂.runners
    steps ← check_steps bk₂.raw_steps
    ok bk₂
