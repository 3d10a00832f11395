-- ===== src/LoopSection.antt =====
-- `newLoop` of loop.go, and `parseDuration` of parse.go: the section `loop:` with its defaults. YAML
-- and the parser of durations are other packages' and parameters.
pub mod Ready
use Prim.Native.String.{◌++◌}
use Prim.Native.Char.{Char}
use runn.Common.{
  ℕ, String, ◌≡◌, ◌≢◌, refl, sym, ap, ◌∙◌, ◌⊎◌, Bool-cases, inl, inr, Bool, true, false, not, ◌&&◌,
  ◌||◌, Option, none, some, ◌==◌, if◌then◌else◌, is_some, arith,
}
use runn.Common.Int.{ℤ}
use runn.Common.Strings.{in_cutset, trim_right}
use runn.Value.{Value}
use runn.Value.Maps.{or_else}
use runn.Errors.{Error, Result, ok, err}
use runn.Operator.{Loop}

-- The fields that YAML can set. A float is its bits.
pub record LoopFields : Type 0 where
  pub count : String
  pub interval : String
  pub min_interval : String
  pub max_interval : String
  pub jitter : Option ℕ
  pub multiplier : Option ℕ
  pub until : String

-- `yaml.Marshal`; `yaml.Unmarshal` into the fields, which it may have set in part when it fails;
-- `duration.Parse`; and the bits of the floats that are the defaults.
pub record LoopReader : Type 0 where
  pub marshal : Value → Result String
  pub unmarshal : String → LoopFields × Option Error
  pub parse_duration : String → Result ℤ
  pub zero_jitter : ℕ
  pub default_jitter : ℕ
  pub default_multiplier : ℕ

-- With the parsed intervals.
pub record LoopSection : Type 0 where
  pub fields : LoopFields
  pub interval : Option ℤ
  pub min_interval : Option ℤ
  pub max_interval : Option ℤ

abbrev only_digits : String → Bool
only_digits String.[] = true
only_digits (String.◌∷◌ c s) = in_cutset "0123456789." c && only_digits s

-- The regular expression `^[0-9\.]+$`
unfoldable pub is_number : String → Bool
is_number s = not (s == "") && only_digits s

abbrev pub default_text : String → String → String
default_text t s = if s == "" then t else s

module _ (r : LoopReader) where
  unfoldable pub parse_duration : String → Result ℤ
  unfolding is_number
  parse_duration v = if is_number v then r.parse_duration (v ++ "sec") else r.parse_duration v

  -- What YAML reads, or the count by itself.
  abbrev pub short_form : String → LoopFields × Option Error → LoopFields
  short_form b (l, none) = l
  short_form b (l, some e) = record l { count = trim_right "\n\r" b }

  abbrev pub is_simple : LoopFields → Bool
  is_simple l = l.until == "" && l.interval == "" && l.min_interval == "" && l.max_interval == ""

  abbrev pub with_count : LoopFields → LoopFields
  with_count l = record l { count = default_text "3" l.count }

  abbrev pub with_interval : LoopFields → LoopFields
  with_interval l = record l { interval = if is_simple l then "0" else l.interval }

  abbrev pub with_jitter : LoopFields → LoopFields
  with_jitter l = record l {
    jitter = or_else l.jitter (if l.until == "" then some r.zero_jitter else none);
  }

  abbrev pub range_if : Bool → LoopFields → LoopFields
  range_if true l = record l {
    min_interval = default_text "0ms" l.min_interval;
    max_interval = default_text "0ms" l.max_interval;
    multiplier = or_else l.multiplier (some r.default_multiplier);
  }
  range_if false l = l

  abbrev with_range : LoopFields → LoopFields
  with_range l = range_if (l.interval == "") l

  abbrev with_default_jitter : LoopFields → LoopFields
  with_default_jitter l = record l { jitter = or_else l.jitter (some r.default_jitter) }

  -- The defaults, in the order of the source.
  unfoldable pub fill : LoopFields → LoopFields
  fill l = with_default_jitter (with_range (with_jitter (with_interval (with_count l))))

  abbrev pub with_bounds : LoopFields → Result ℤ → Result ℤ → Result LoopSection
  with_bounds l (err e) high = err e
  with_bounds l (ok low) (err e) = err e
  with_bounds l (ok low) (ok high) =
      ok (record { fields = l; interval = none; min_interval = some low; max_interval = some high })

  abbrev pub with_fixed : LoopFields → Result ℤ → Result LoopSection
  with_fixed l (err e) = err e
  with_fixed l (ok i) =
      ok (record { fields = l; interval = some i; min_interval = none; max_interval = none })

  unfoldable pub parse_intervals : LoopFields → Result LoopSection
  unfolding parse_duration
  parse_intervals l =
      if l.interval == ""
      then with_bounds l (parse_duration l.min_interval) (parse_duration l.max_interval)
      else with_fixed l (parse_duration l.interval)

  unfoldable pub new_loop : Value → Result LoopSection
  unfolding fill parse_intervals
  new_loop v = elim (r.marshal v) [
    | err e ↦ err e
    | ok b ↦ parse_intervals (fill (short_form b (r.unmarshal b)))
  ]

-- What the runner reads of it itself.
abbrev pub loop_of : LoopSection → Loop
loop_of s = record { count = s.fields.count; until = s.fields.until }

-- What `Loop.Loop` reads through pointers is there: the fixed interval, or both bounds and the
-- multiplier; and in any case the jitter.
abbrev pub is_ready : LoopSection → Bool
is_ready s =
    is_some s.fields.jitter
    && (is_some s.interval
        || (is_some s.min_interval && is_some s.max_interval && is_some s.fields.multiplier))
