-- ===== src/RunbookFile/Broken.antt =====
-- A mapped runbook after an `AppendStep` of runbook.go that has failed.
use mathlib.Core.List.{◌++◌ as append}
use Prim.Native.String.{◌++◌}
use runn.Common.{
  suc, String, ◌≡◌, ap, sym, subst, ◌∙◌, true, List, [], ◌∷◌, length, if◌then◌else◌, arith,
}
use runn.Common.Text.{decimal}
use runn.Errors.{Error, message, err}
use runn.Book.Changes.{fails}
use runn.RunbookFile.{RunbookFile}
use runn.RunbookFile.Mapped.{marshal_yaml}
use runn.RunbookFile.Appending.{CommandReader, append_step, to_step, with_key}
use runn.RunbookFile.Growing.{Same, Grows, length-snoc, to_step-Grows}

marshal_yaml-invalid :
    (rb : RunbookFile)
    → rb.use_map ≡ true
    → length rb.step_keys ≡ suc (length rb.steps)
    → marshal_yaml rb ≡ err (message "invalid runbook")
unfolding marshal_yaml
marshal_yaml-invalid rb mapped h = ground (arith, mapped, h)

-- If a mapped runbook has as many keys as steps, and `AppendStep` of some arguments fails, whatever the
-- command and the error are, then the steps are as before, and `MarshalYAML` of the runbook fails.
pub append_step-fails :
    (r : CommandReader) (first : String) (rest : List String) (rb rb' : RunbookFile) (e : Error)
    → rb.use_map ≡ true
    → length rb.step_keys ≡ length rb.steps
    → append_step r (first ∷ rest) rb ≡ fails e rb'
    → (rb'.steps ≡ rb.steps) × (marshal_yaml rb' ≡ err (message "invalid runbook"))
unfolding append_step
append_step-fails r first rest rb rb' e mapped h failed =
    let key = first ++ decimal (length rb.step_keys) in
    let keyed : RunbookFile = record rb { step_keys = append rb.step_keys (key ∷ []) } in
    let same : with_key r first rb ≡ keyed = ap (λ b. if b then keyed else rb) mapped in
    let grows =
      subst (λ a. Grows a (to_step r first rest a)) same
        (to_step-Grows r first rest (with_key r first rb)) in
    let kept : Same keyed rb' =
      subst (Grows keyed) (sym (ap (to_step r first rest) same) ∙ failed) grows in
    let keys = ap (λ (l : List String). length l) kept.keys ∙ length-snoc rb.step_keys key in
    (
      kept.steps,
      marshal_yaml-invalid rb' (kept.mapped ∙ mapped)
          (keys ∙ ap (λ n. suc n) (h ∙ sym (ap length kept.steps))),
    )
