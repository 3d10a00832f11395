-- ===== src/Common/Int.antt =====
-- Signed integers over the native numbers, under the library's names.
use runn.Common.{ℕ}

-- `negsuc n` is -(n + 1).
pub data ℤ : Type 0 where
  pos : ℕ → ℤ
  negsuc : ℕ → ℤ

-- The rounds that `for j := 0; j < c; j++` makes.
abbrev pub to_rounds : ℤ → ℕ
to_rounds (pos n) = n
to_rounds (negsuc n) = 0
