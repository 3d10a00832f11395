-- ===== src/Selection.antt =====
-- `SelectedOperators` of operator.go: which runbooks are run, and in which order.
pub mod Counts
pub mod Selected
use runn.Common.{
  ℕ, zero, suc, ◌<◌, Bool, true, false, Option, none, some, List, [], ◌∷◌, if◌then◌else◌, ltb, leb,
  eqb, length, get_elem?, ◌&&◌,
}
use runn.Errors.{Result, ok, err}
use runn.Bind
use runn.Bind.{Attempt, panics, fails, yields, attempt, ◌>>=◌}
use runn.Shards.{part_operators}

-- `New` with the book of a runbook, with and without the ID of the original; the shuffle of the seed;
-- and `Intn`, by the round and its bound.
pub record Selector {ℓ} (A : Type ℓ) : Type ℓ where
  pub copied : A → Result A
  pub renewed : A → Result A
  pub shuffled : List A → List A
  pub draw : ℕ → ℕ → ℕ

-- The fields of `operators` that are read. A negative number has the effect of 0.
pub record Options : Type 0 where
  pub run_count : ℕ
  pub shuffle : Bool
  pub shard_n : ℕ
  pub shard_index : ℕ
  pub sample : ℕ
  pub random : ℕ

module _ {A : Type 0} where
  -- `append(n[:idx], n[idx+1:]...)`
  unfoldable pub remove_at : ℕ → List A → List A
  remove_at i [] = []
  remove_at zero (o ∷ l) = l
  remove_at (suc i) (o ∷ l) = o ∷ remove_at i l

  module _ (s : Selector A) where
    unfoldable pub copy_operators : List A → Attempt (List A)
    copy_operators [] = yields []
    copy_operators (o ∷ ops) = do
      c ← attempt (s.copied o)
      rest ← copy_operators ops
      yields (c ∷ rest)

    -- `Intn(len(n))` panics if nothing is left.
    unfoldable pub sample_from : ℕ → ℕ → List A → Attempt (List A)
    unfolding remove_at
    sample_from zero i n = yields []
    sample_from (suc num) i n = elim (get_elem? n (s.draw i (length n))) [
      | none ↦ panics
      | some o ↦ do
        rest ← sample_from num (suc i) (remove_at (s.draw i (length n)) n)
        yields (o ∷ rest)
    ]

    unfoldable pub sample_operators : List A → ℕ → Attempt (List A)
    unfolding sample_from
    sample_operators ops num = if leb (length ops) num then yields ops else sample_from num 0 ops

    unfoldable pub random_operators : ℕ → ℕ → List A → Attempt (List A)
    random_operators zero i n = yields []
    random_operators (suc num) i n = elim (get_elem? n (s.draw i (length n))) [
      | none ↦ panics
      | some o ↦ do
        c ← attempt (s.renewed o)
        rest ← random_operators num (suc i) n
        yields (c ∷ rest)
    ]

    module _ (q : Options) where
      abbrev pub copy_part : List A → Attempt (List A)
      copy_part ops = if ltb 0 q.run_count && eqb q.random 0 then copy_operators ops else yields ops

      abbrev pub shuffle_part : List A → List A
      shuffle_part ops = if q.shuffle then s.shuffled ops else ops

      abbrev pub shard_part : List A → List A
      shard_part ops = if ltb 0 q.shard_n then part_operators ops q.shard_n q.shard_index else ops

      abbrev pub sample_part : List A → Attempt (List A)
      sample_part ops = if ltb 0 q.sample then sample_operators ops q.sample else yields ops

      abbrev pub random_part : List A → Attempt (List A)
      random_part ops = if ltb 0 q.random then random_operators q.random 0 ops else yields ops

      unfoldable pub selected_operators : List A → Attempt (List A)
      unfolding copy_operators sample_operators random_operators part_operators
      selected_operators ops = do
        copies ← copy_part ops
        some_ops ← sample_part (shard_part (shuffle_part copies))
        random_part some_ops
