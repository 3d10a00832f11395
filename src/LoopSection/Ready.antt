-- ===== src/LoopSection/Ready.antt =====
-- `newLoop` fills in what `Loop.Loop` reads.
use runn.Common.{
  ℕ, String, ◌≡◌, refl, sym, ap, ◌∙◌, Bool-cases, inl, inr, Bool, true, false, Option, none, some,
  ◌==◌, if◌then◌else◌, is_some,
}
use runn.Common.Int.{ℤ}
use runn.Value.{Value}
use runn.Value.Maps.{or_else}
use runn.Errors.{Result, ok, err}
use runn.LoopSection.{
  LoopFields, LoopReader, LoopSection, default_text, short_form, with_count, with_interval,
  with_jitter, range_if, with_bounds, with_fixed, fill, parse_intervals, new_loop, is_ready,
}

module _ (r : LoopReader) where
  or_else-is_some : (o : Option ℕ) (j : ℕ) → is_some (or_else o (some j)) ≡ true
  or_else-is_some none j = refl
  or_else-is_some (some i) j = refl

  count-range_if : (b : Bool) (l : LoopFields) → (range_if r b l).count ≡ l.count
  count-range_if true l = refl
  count-range_if false l = refl

  interval-range_if : (b : Bool) (l : LoopFields) → (range_if r b l).interval ≡ l.interval
  interval-range_if true l = refl
  interval-range_if false l = refl

  multiplier-range_if :
      (b : Bool) (l : LoopFields) → b ≡ true → is_some (range_if r b l).multiplier ≡ true
  multiplier-range_if true l h = or_else-is_some l.multiplier r.default_multiplier
  multiplier-range_if false l h = absurd (cc)

  default_text-filled : (c : String) → (default_text "3" c == "") ≡ false
  default_text-filled c = elim (Bool-cases (c == "")) [
    | inl blank ↦ rw blank refl
    | inr filled ↦ rw filled filled
  ]

  fill-jitter : (l : LoopFields) → is_some (fill r l).jitter ≡ true
  unfolding fill
  fill-jitter l = or_else-is_some _ r.default_jitter

  -- Before the range of intervals is filled in.
  abbrev early : LoopFields → LoopFields
  early l = with_jitter r (with_interval r (with_count r l))

  fill-count : (l : LoopFields) → ((fill r l).count == "") ≡ false
  unfolding fill
  fill-count l =
      ap (λ c. c == "") (count-range_if ((early l).interval == "") (early l))
      ∙ default_text-filled l.count

  fill-multiplier :
      (l : LoopFields) → ((fill r l).interval == "") ≡ true → is_some (fill r l).multiplier ≡ true
  unfolding fill
  fill-multiplier l h =
      multiplier-range_if ((early l).interval == "") (early l)
        (sym (ap (λ i. i == "") (interval-range_if ((early l).interval == "") (early l))) ∙ h)

  abbrev parsed : LoopFields → Bool → Result ℤ → Result ℤ → Result ℤ → Result LoopSection
  parsed l b low high fixed = if b then with_bounds r l low high else with_fixed r l fixed

  fields_of : {s t : LoopSection} → ok s ≡ ok t → s ≡ t
  fields_of h = cc

  parsed-is_ready :
      (l : LoopFields) (b : Bool) (low high fixed : Result ℤ) (s : LoopSection)
      → is_some l.jitter ≡ true
      → (b ≡ true → is_some l.multiplier ≡ true)
      → parsed l b low high fixed ≡ ok s
      → (is_ready s ≡ true) × (s.fields ≡ l)
  parsed-is_ready l true (err e) high fixed s j m h = absurd (cc)
  parsed-is_ready l true (ok low) (err e) fixed s j m h = absurd (cc)
  parsed-is_ready l true (ok low) (ok high) fixed s j m h =
      let same = fields_of h in
      (ap is_ready (sym same) ∙ rw (j, m refl) refl, ap (λ (s : LoopSection). s.fields) (sym same))
  parsed-is_ready l false low high (err e) s j m h = absurd (cc)
  parsed-is_ready l false low high (ok i) s j m h =
      let same = fields_of h in
      (ap is_ready (sym same) ∙ rw j refl, ap (λ (s : LoopSection). s.fields) (sym same))

  section-is_ready :
      (l : LoopFields) (s : LoopSection)
      → parse_intervals r (fill r l) ≡ ok s
      → (is_ready s ≡ true) × ((s.fields.count == "") ≡ false)
  unfolding parse_intervals
  section-is_ready l s h =
      let (ready, same) =
        parsed-is_ready (fill r l) ((fill r l).interval == "") _ _ _ s (fill-jitter l)
          (fill-multiplier l) h in
      (ready, ap (λ (l : LoopFields). l.count == "") same ∙ fill-count l)

  -- A section that `newLoop` reads has a count, and everything is there that `Loop.Loop` reads through
  -- pointers.
  pub new_loop-is_ready :
      (v : Value) (s : LoopSection)
      → new_loop r v ≡ ok s
      → (is_ready s ≡ true) × ((s.fields.count == "") ≡ false)
  unfolding new_loop
  new_loop-is_ready v s h = by_text (r.marshal v) h
    where
      by_text :
          (x : Result String)
          → elim x [
            | err e ↦ err e
            | ok b ↦ parse_intervals r (fill r (short_form r b (r.unmarshal b)))
          ]
            ≡ ok s
          → (is_ready s ≡ true) × ((s.fields.count == "") ≡ false)
      by_text (err e) h = absurd (cc)
      by_text (ok b) h = section-is_ready (short_form r b (r.unmarshal b)) s h
