-- ===== src/Operator/RoundSteps.antt =====
-- A round of `runLoop` by what it meets, against the relation of its rounds.
use runn.Common.{
  ℕ, zero, suc, ◌+◌, String, ◌==◌, ◌≡◌, refl, sym, ap, ◌∙◌, ◌⊎◌, Bool, true, false, not, ◌&&◌, ◌||◌,
  Option, none, some, is_some,
}
use runn.Errors.{Error, ok, err, wrapped}
use runn.Operator.{Loop, Runbook, Run, World}
use runn.Operator.Runs.{round_outcome, add_error, check_run_until, after_run_loop, run_rounds}
use runn.Operator.Rounds.{Round, ends, plain, again, holds, breaks, LoopsOn}

module _ (b : Runbook) (w : World) (l : Loop) where
  after-plain :
      (bt : String) (looperr : Option Error) (r : Run)
      → (l.until == "") ≡ true
      → (e : Option Error) × (after_run_loop w b l true bt looperr r ≡ some (e, r))
        × (is_some e ≡ is_some looperr)
  unfolding after_run_loop
  after-plain bt none r u = (none, rw u refl, refl)
  after-plain bt (some x) r u = (some (wrapped "loop failed" x), rw u refl, refl)

  after-held :
      (bt : String) (looperr : Option Error) (r : Run)
      → (l.until == "") ≡ false
      → after_run_loop w b l true bt looperr r ≡ some (none, r)
  unfolding after_run_loop
  after-held bt looperr r u = rw u refl

  either : (f x v : Bool) → ((f || x) || not v) ≡ (f || not (not x && v))
  either true x v = refl
  either false true v = refl
  either false false v = refl

  unfailed : (f : Bool) → (l.until == "") ≡ true → f ≡ (f || not (l.until == ""))
  unfailed true u = refl
  unfailed false u = ap not (sym u)

  add_error-is_some :
      (j : ℕ) (e looperr : Option Error)
      → is_some (add_error w b j e looperr) ≡ (is_some looperr || is_some e)
  add_error-is_some j none none = refl
  add_error-is_some j none (some x) = refl
  add_error-is_some j (some x) none = refl
  add_error-is_some j (some x) (some y) = refl

  -- One round of `run_rounds`, by what it meets.
  module _ (left j : ℕ) (success : Bool) (bt : String) (looperr : Option Error) (r : Run) where
    pub round-stops :
        w.continues r j ≡ false
        → run_rounds w b l (suc left) j success bt looperr r
          ≡ after_run_loop w b l success bt looperr r
    unfolding run_rounds
    round-stops stop = rw stop refl

    module _ (e : Option Error) (r' : Run) (d : Round b w l j r e r') where
      round-plain :
          (l.until == "") ≡ true
          → run_rounds w b l (suc left) j success bt looperr r
            ≡ run_rounds w b l left (j + 1) success bt (add_error w b j e looperr) r'
      unfolding run_rounds
      round-plain u = rw (d.ready, d.made, u) refl

      round-again :
          (bt' : String)
          → (l.until == "") ≡ false
          → check_run_until w b l (round_outcome w b e r') r' ≡ ok (bt', false)
          → run_rounds w b l (suc left) j success bt looperr r
            ≡ run_rounds w b l left (j + 1) success bt' (add_error w b j e looperr) r'
      unfolding run_rounds
      round-again bt' u c = rw (d.ready, d.made, u, c) refl

      round-holds :
          (bt' : String)
          → (l.until == "") ≡ false
          → check_run_until w b l (round_outcome w b e r') r' ≡ ok (bt', true)
          → run_rounds w b l (suc left) j success bt looperr r ≡ some (none, r')
      unfolding run_rounds
      round-holds bt' u c =
          rw (d.ready, d.made, u, c) (after-held bt' (add_error w b j e looperr) r' u)

      round-breaks :
          (x : Error)
          → (l.until == "") ≡ false
          → check_run_until w b l (round_outcome w b e r') r' ≡ err x
          → run_rounds w b l (suc left) j success bt looperr r
            ≡ some (some (wrapped "loop failed" x), r')
      unfolding run_rounds
      round-breaks x u c = rw (d.ready, d.made, u, c) refl

  pub run_none :
      (j : ℕ) (success : Bool) (bt : String) (looperr : Option Error) (r : Run) (failed : Bool)
      → LoopsOn b w l (after_run_loop w b l success bt looperr r) zero j failed r
      → LoopsOn b w l (run_rounds w b l zero j success bt looperr r) zero j failed r
  unfolding run_rounds
  run_none j success bt looperr r failed h = h

  pub plain-ends :
      (u : (l.until == "") ≡ true) (left j : ℕ) (bt : String) (looperr : Option Error) (r : Run)
      → (left ≡ 0) ⊎ (w.continues r j ≡ false)
      → LoopsOn b w l (after_run_loop w b l true bt looperr r) left j (is_some looperr) r
  unfolding LoopsOn
  plain-ends u left j bt looperr r why =
      let (e, same, told) = after-plain bt looperr r u in
      (e, r, 0, (l.until == ""), same, ends why, told ∙ unfailed (is_some looperr) u)

  pub plain-more :
      (u : (l.until == "") ≡ true) (left j : ℕ) (bt : String) (looperr : Option Error) (r : Run)
      (e : Option Error) (r' : Run) (d : Round b w l j r e r')
      → LoopsOn b w l
          (run_rounds w b l left (j + 1) true bt (add_error w b j e looperr) r')
          left
          (j + 1)
          (is_some (add_error w b j e looperr))
          r'
      → LoopsOn b w l
          (run_rounds w b l (suc left) j true bt looperr r)
          (suc left)
          j
          (is_some looperr)
          r
  unfolding LoopsOn
  plain-more u left j bt looperr r e r' d (x, r'', n, v, same, k, told) = (
    x,
    r'',
    suc n,
    (not (is_some e) && v),
    round-plain left j true bt looperr r e r' d u ∙ same,
    plain u d k,
    told
        ∙ (ap (λ f. f || not v) (add_error-is_some j e looperr)
            ∙ either (is_some looperr) (is_some e) v),
  )

  pub until-ends :
      (u : (l.until == "") ≡ false) (left j : ℕ) (bt : String) (looperr : Option Error) (r : Run)
      → (left ≡ 0) ⊎ (w.continues r j ≡ false)
      → LoopsOn b w l (after_run_loop w b l false bt looperr r) left j false r
  unfolding LoopsOn after_run_loop
  until-ends u left j bt looperr r why = (_, r, 0, (l.until == ""), refl, ends why, ap not (sym u))

  -- With `until:`, by the condition after a round.
  module _ (u : (l.until == "") ≡ false) (left j : ℕ) (bt : String) (looperr : Option Error)
      (r : Run) (e : Option Error) (r' : Run) (d : Round b w l j r e r') where
    pub until-breaks :
        (x : Error)
        → check_run_until w b l (round_outcome w b e r') r' ≡ err x
        → LoopsOn b w l (run_rounds w b l (suc left) j false bt looperr r) (suc left) j false r
    unfolding LoopsOn
    until-breaks x c =
        (_, r', 1, false, round-breaks left j false bt looperr r e r' d x u c, breaks u d c, refl)

    pub until-holds :
        (bt' : String)
        → check_run_until w b l (round_outcome w b e r') r' ≡ ok (bt', true)
        → LoopsOn b w l (run_rounds w b l (suc left) j false bt looperr r) (suc left) j false r
    unfolding LoopsOn
    until-holds bt' c =
        (_, r', 1, true, round-holds left j false bt looperr r e r' d bt' u c, holds u d c, refl)

    pub until-more :
        (bt' : String)
        → check_run_until w b l (round_outcome w b e r') r' ≡ ok (bt', false)
        → LoopsOn b w l
            (run_rounds w b l left (j + 1) false bt' (add_error w b j e looperr) r')
            left
            (j + 1)
            false
            r'
        → LoopsOn b w l (run_rounds w b l (suc left) j false bt looperr r) (suc left) j false r
    unfolding LoopsOn
    until-more bt' c (x, r'', n, v, same, k, told) = (
      x,
      r'',
      suc n,
      v,
      round-again left j false bt looperr r e r' d bt' u c ∙ same,
      again u d c k,
      told,
    )
