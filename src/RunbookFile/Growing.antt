-- ===== src/RunbookFile/Growing.antt =====
-- The keys and the steps of a mapped runbook before and after `AppendStep` of runbook.go.
use mathlib.Core.List.{◌++◌ as append}
use Prim.Native.String.{◌++◌}
use runn.Common.{
  suc, String, ◌≡◌, refl, ap, sym, subst, ◌∙◌, Bool, true, false, Option, none, some, List, [], ◌∷◌,
  length, eqb, if◌then◌else◌, arith, ◌==◌, ◌||◌, not,
}
use runn.Common.Text.{decimal, join}
use package.text.Mathlib.Text.{starts_with}
use runn.Errors.{Result, ok, err}
use runn.Book.Changes.{Changed, panics, fails, done, with_ok}
use runn.RunbookFile.{Items, NamedItems, RunbookFile, RunbookMapped, named_items}
use runn.RunbookFile.Mapped.{marshal_yaml, as_mapped, mapped_of}
use runn.RunbookFile.Reading.{marshal_mapped}
use runn.RunbookFile.RunnerKeys.{
  set_runner, Found, found, counted, set_found, find_runner, no_counts,
}
use runn.RunbookFile.Appending.{
  CommandReader, GrpcCall, append_step, curl_to_step, grpcurl_to_step, axs_log_to_step, cmd_to_step,
  grpc_headers, first_headers, append_item, or_cmd, to_step, with_key, with_runner, grpc_step,
  before_text,
}

-- Nothing but the runners differs.
pub record Same (a b : RunbookFile) : Type 0 where
  pub steps : b.steps ≡ a.steps
  pub keys : b.step_keys ≡ a.step_keys
  pub mapped : b.use_map ≡ a.use_map

-- One step more under the same keys.
pub record Grown (a b : RunbookFile) : Type 0 where
  pub steps : length b.steps ≡ suc (length a.steps)
  pub keys : b.step_keys ≡ a.step_keys
  pub mapped : b.use_map ≡ a.use_map

abbrev pub Grows : RunbookFile → Changed RunbookFile → Type 0
Grows a panics = Unit
Grows a (fails e b) = Same a b
Grows a (done b) = Grown a b

pub length-snoc : {A : Type 0} (l : List A) (a : A) → length (append l (a ∷ [])) ≡ suc (length l)
length-snoc [] a = refl
length-snoc (x ∷ l) a = ap (λ n. suc n) (length-snoc l a)

append_item-Grown : (step : Items) (a b : RunbookFile) → Same a b → Grown a (append_item step b)
append_item-Grown step a b s = record {
  steps = length-snoc b.steps step ∙ ap (λ (l : List Items). suc (length l)) s.steps;
  keys = s.keys;
  mapped = s.mapped;
}

Same-refl : (a : RunbookFile) → Same a a
Same-refl a = record { steps = refl; keys = refl; mapped = refl }

with_runner-Grows :
    (dsn : String) (rb : RunbookFile) (next : String → RunbookFile → Changed RunbookFile)
    → ((key : String) (rb' : RunbookFile) → Same rb rb' → Grows rb (next key rb'))
    → Grows rb (with_runner dsn rb next)
unfolding set_runner
with_runner-Grows dsn rb next h = by_found (find_runner dsn (named_items rb.runners) no_counts)
  where
    by_runners :
        (key : String) (o : Option NamedItems) (put : NamedItems → NamedItems)
        → Grows rb
            (elim (elim o as (λ _. Option (String × RunbookFile)) [
              | none ↦ none
              | some m ↦ some (key, record rb { runners = some (put m) })
            ]) [ none ↦ panics | some (key, rb') ↦ next key rb' ])
    by_runners key none put = tt
    by_runners key (some m) put = h key _ (record { steps = refl; keys = refl; mapped = refl })

    by_found :
        (f : Found)
        → Grows rb (elim (set_found dsn rb f) [ none ↦ panics | some (key, rb') ↦ next key rb' ])
    by_found (found k) = h k rb (Same-refl rb)
    by_found (counted n) = by_runners _ rb.runners _

Grows-with_ok :
    {A : Type 0} (a b : RunbookFile) (x : Result A) (f : A → Changed RunbookFile)
    → Same a b
    → ((y : A) → Grows a (f y))
    → Grows a (with_ok b x f)
Grows-with_ok a b (err e) f s h = s
Grows-with_ok a b (ok y) f s h = h y

Grows-if :
    (a : RunbookFile) (t : Bool) (m n : Changed RunbookFile)
    → Grows a m
    → Grows a n
    → Grows a (if t then m else n)
Grows-if a true m n h i = h
Grows-if a false m n h i = i

module _ (r : CommandReader) where
  curl-Grows : (args : List String) (rb : RunbookFile) → Grows rb (curl_to_step r args rb)
  unfolding curl_to_step
  curl-Grows args rb = Grows-with_ok rb rb (r.parse_curl args) _ (Same-refl rb) λ call.
      let dsn : String = before_text call.host call.url ++ call.host in
      with_runner-Grows dsn rb _ λ key rb' same.
        Grows-with_ok rb rb' (r.create_http_step key call.request) _ same
          λ step. append_item-Grown step rb rb' same

  grpc_headers-Grows :
      (key : String) (p : GrpcCall) (a b : RunbookFile)
      → Same a b
      → Grows a (grpc_headers r key p b)
  grpc_headers-Grows key p a b s = by_headers (first_headers p.headers)
    where
      by_headers :
          (o : Option NamedItems)
          → Grows a (elim o [
            | none ↦ panics
            | some h ↦ done (append_item (grpc_step key p.method h p.messages) b)
          ])
      by_headers none = tt
      by_headers (some h) = append_item-Grown (grpc_step key p.method h p.messages) a b s

  grpcurl-Grows : (args : List String) (rb : RunbookFile) → Grows rb (grpcurl_to_step r args rb)
  unfolding grpcurl_to_step
  grpcurl-Grows args rb = Grows-with_ok rb rb (r.parse_grpcurl args) _ (Same-refl rb) λ p.
      let dsn : String = "grpc://" ++ p.addr in
      Grows-if rb (p.addr == "" || p.method == "" || not (p.sub_cmd == "")) _ _ (Same-refl rb)
        (with_runner-Grows dsn rb _ λ key rb' same. grpc_headers-Grows key p rb rb' same)

  axs_log-Grows : (args : List String) (rb : RunbookFile) → Grows rb (axs_log_to_step r args rb)
  unfolding axs_log_to_step
  axs_log-Grows args rb = Grows-with_ok rb rb (r.guess_log (join " " args)) _ (Same-refl rb) λ l.
      let dsn : String = "https://dummy.example.com" in
      with_runner-Grows dsn rb _ λ key rb' same.
        Grows-with_ok rb rb' (r.log_request l) _ same λ request.
          Grows-with_ok rb rb' (r.create_http_step key request) _ same
            λ step. append_item-Grown step rb rb' same

  cmd-Grows : (args : List String) (a b : RunbookFile) → Same a b → Grows a (cmd_to_step r args b)
  unfolding cmd_to_step
  cmd-Grows args a b s = append_item-Grown _ a b s

  or_cmd-Grows :
      (args : List String) (a : RunbookFile) (m : Changed RunbookFile)
      → Grows a m
      → Grows a (or_cmd r args m)
  or_cmd-Grows args a panics h = tt
  or_cmd-Grows args a (fails e b) h = cmd-Grows args a b h
  or_cmd-Grows args a (done b) h = h

  pub to_step-Grows :
      (first : String) (rest : List String) (rb : RunbookFile) → Grows rb (to_step r first rest rb)
  to_step-Grows first rest rb =
      let args = first ∷ rest in
      Grows-if rb (starts_with first "curl") _ _ (curl-Grows args rb) (
        Grows-if rb (starts_with first "grpcurl") _ _ (grpcurl-Grows args rb) (
          Grows-if rb (eqb (length rest) 0) _ _ (or_cmd-Grows args rb _ (axs_log-Grows args rb))
            (cmd-Grows args rb rb (Same-refl rb))))

-- If a mapped runbook has as many keys as steps and `AppendStep` succeeds, then the runbook has one
-- step more, whatever the command was, and can be marshalled.
pub append_step-marshal_yaml :
    (r : CommandReader) (args : List String) (rb rb' : RunbookFile)
    → rb.use_map ≡ true
    → length rb.step_keys ≡ length rb.steps
    → append_step r args rb ≡ done rb'
    → (length rb'.steps ≡ suc (length rb.steps))
      × (m : RunbookMapped) × (marshal_yaml rb' ≡ ok (as_mapped m))
unfolding append_step
append_step-marshal_yaml r [] rb rb' mapped h e = absurd (cc)
append_step-marshal_yaml r (first ∷ rest) rb rb' mapped h e =
    let key = first ++ decimal (length rb.step_keys) in
    let keyed : RunbookFile = record rb { step_keys = append rb.step_keys (key ∷ []) } in
    let same : with_key r first rb ≡ keyed = ap (λ b. if b then keyed else rb) mapped in
    let grows =
      subst (λ a. Grows a (to_step r first rest a)) same
        (to_step-Grows r first rest (with_key r first rb)) in
    let grown : Grown keyed rb' =
      subst (Grows keyed) (sym (ap (to_step r first rest) same) ∙ e) grows in
    let keys = ap (λ (l : List String). length l) grown.keys ∙ length-snoc rb.step_keys key in
    (
      grown.steps,
      mapped_of rb',
      marshal_mapped rb' (grown.mapped ∙ mapped) (omega (arith, keys, grown.steps, h)),
    )
