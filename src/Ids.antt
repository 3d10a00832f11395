-- ===== src/Ids.antt =====
-- id.go: the IDs of runbooks, from the ends of their paths.
pub mod Repeats
pub mod Unique
use runn.Common.{
  ℕ, zero, suc, ◌+◌, String, Bool, true, false, Option, none, some, List, [], ◌∷◌, ◌==◌,
  if◌then◌else◌, ltb, leb, eqb, length, take,
}
use runn.Common.Text.{join}
use runn.Common.Strings.{split}
use runn.Errors.{Error, message, Result, ok, err}

-- `filepath.Abs` of the clean path, the SHA-1 digest in hexadecimal, the random ID that is drawn in a
-- round for a runbook, and `lo.Reverse` and `lo.Uniq`.
pub record IdTools : Type 0 where
  pub abs : String → Result String
  pub digest : String → String
  pub random : ℕ → ℕ → String
  pub reverse : List String → List String
  pub uniq : List String → List String

-- The number of parts of the longest path.
unfoldable pub longest : List (List String) → ℕ
longest [] = 0
longest (rp ∷ rps) = let rest = longest rps in if leb rest (length rp) then length rp else rest

module _ (t : IdTools) where
  unfoldable pub generate_id : ℕ → ℕ → String → String
  generate_id i k p = if p == "" then t.random i k else t.digest p

  unfoldable pub reverse_path : String → List String
  reverse_path p = t.reverse (split "/" p)

  abbrev path_end : ℕ → List String → List String
  path_end i rp = if ltb (length rp) i then rp else take i rp

  -- The inner loop: the IDs of the round `i`, for the runbooks from the one with index `k` on.
  unfoldable pub ids_from : ℕ → ℕ → List (List String) → List String
  unfolding generate_id
  ids_from i k [] = []
  ids_from i k (rp ∷ rps) = generate_id i k (join "/" (path_end i rp)) ∷ ids_from i (suc k) rps

  abbrev pub ids_at : ℕ → List (List String) → List String
  ids_at i rps = ids_from i 0 rps

  -- The rounds from `i` on, of which `left` are left: the test is `len(lo.Uniq(ids)) == len(ss)`.
  unfoldable pub try_rounds : ℕ → ℕ → List (List String) → Result (List String)
  unfolding ids_from
  try_rounds zero i rps = err (message "failed to generate ids")
  try_rounds (suc left) i rps =
      let later = try_rounds left (suc i) rps in
      if eqb (length (t.uniq (ids_at i rps))) (length rps) then ok (ids_at i rps) else later

  unfoldable pub reversed_paths : List String → Result (List (List String))
  unfolding reverse_path
  reversed_paths [] = ok []
  reversed_paths (p ∷ paths) = elim (t.abs p) [
    | err e ↦ err e
    | ok q ↦ elim (reversed_paths paths) [ err e ↦ err e | ok rps ↦ ok (reverse_path q ∷ rps) ]
  ]

  abbrev pub from_paths : Result (List (List String)) → Result (List String)
  from_paths x = elim x [ err e ↦ err e | ok rps ↦ try_rounds (longest rps) 1 rps ]

  unfoldable pub generate_ids_using_path : List String → Result (List String)
  unfolding reversed_paths longest try_rounds
  generate_ids_using_path [] = ok []
  generate_ids_using_path (p ∷ paths) = from_paths (reversed_paths (p ∷ paths))
