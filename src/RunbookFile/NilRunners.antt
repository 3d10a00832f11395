-- ===== src/RunbookFile/NilRunners.antt =====
-- `AppendStep` of runbook.go, of a mapped runbook that has no runners.
use runn.Common.{
  ℕ, String, ◌≡◌, ap, ◌∙◌, true, false, none, List, [], ◌∷◌, ◌==◌, ◌||◌, not, arith, eqb, length,
}
use runn.Common.Text.{join}
use package.text.Mathlib.Text.{starts_with}
use runn.Errors.{ok}
use runn.Book.Changes.{Changed, panics, done}
use runn.RunbookFile.{RunbookFile, RunbookMapped}
use runn.RunbookFile.Mapped.{parse_runbook_mapped}
use runn.RunbookFile.Reading.{runners-parse_runbook_mapped}
use runn.RunbookFile.RunnerKeys.{set_runner, find_runner}
use runn.RunbookFile.Appending.{
  CommandReader, HttpCall, GrpcCall, append_step, curl_to_step, grpcurl_to_step, axs_log_to_step,
  with_key, with_runner, or_cmd, to_step,
}

-- A command from which `AppendStep` gets the address of a runner.
pub data AddsRunner (r : CommandReader) (first : String) (rest : List String) : Type 0 where
  by_curl :
      (call : HttpCall)
      → starts_with first "curl" ≡ true
      → r.parse_curl (first ∷ rest) ≡ ok call
      → AddsRunner r first rest
  by_grpcurl :
      (call : GrpcCall)
      → starts_with first "curl" ≡ false
      → starts_with first "grpcurl" ≡ true
      → r.parse_grpcurl (first ∷ rest) ≡ ok call
      → (call.addr == "" || call.method == "" || not (call.sub_cmd == "")) ≡ false
      → AddsRunner r first rest
  by_log :
      (line : ℕ)
      → starts_with first "curl" ≡ false
      → starts_with first "grpcurl" ≡ false
      → rest ≡ []
      → r.guess_log first ≡ ok line
      → AddsRunner r first rest

with_runner-panics :
    (dsn : String) (rb : RunbookFile) (next : String → RunbookFile → Changed RunbookFile)
    → rb.runners ≡ none
    → with_runner dsn rb next ≡ panics
unfolding set_runner find_runner
with_runner-panics dsn rb next h = ground (arith, h)

to_step-panics :
    (r : CommandReader) (first : String) (rest : List String) (rb : RunbookFile)
    → rb.runners ≡ none
    → AddsRunner r first rest
    → to_step r first rest rb ≡ panics
unfolding curl_to_step grpcurl_to_step axs_log_to_step join
to_step-panics r first rest rb h (by_curl call s e) = rw s (rw e (with_runner-panics _ rb _ h))
to_step-panics r first rest rb h (by_grpcurl call n s e o) =
    rw n (rw s (rw e (rw o (with_runner-panics _ rb _ h))))
to_step-panics r first rest rb h (by_log line n n' single e) =
    let logged : r.guess_log (join " " (first ∷ rest)) ≡ ok line =
      ap (λ l. r.guess_log (join " " (first ∷ l))) single ∙ e in
    let alone : eqb (length rest) 0 ≡ true = ap (λ (l : List String). eqb (length l) 0) single in
    rw n (
      rw n' (
        rw alone (
          rw logged (
            ap (or_cmd r (first ∷ rest)) (with_runner-panics "https://dummy.example.com" rb _ h)))))

runners-with_key :
    (r : CommandReader) (first : String) (rb : RunbookFile)
    → (with_key r first rb).runners ≡ rb.runners
runners-with_key r first rb = ground arith

-- A runbook that `parseRunbookMapped` has read from a mapped one without `runners:` has a nil map of
-- runners, and `AppendStep` panics when it is given a command from which it gets the address of a
-- runner: a curl command or a complete grpcurl command that can be read, or a line of an access log.
pub append_step-panics :
    (r : CommandReader) (m : RunbookMapped) (blank rb : RunbookFile) (first : String)
    (rest : List String)
    → m.runners ≡ none
    → parse_runbook_mapped m blank ≡ done rb
    → AddsRunner r first rest
    → append_step r (first ∷ rest) rb ≡ panics
unfolding append_step
append_step-panics r m blank rb first rest no_runners read adds =
    to_step-panics r first rest (with_key r first rb)
      (runners-with_key r first rb ∙ (runners-parse_runbook_mapped m blank rb read ∙ no_runners))
      adds
