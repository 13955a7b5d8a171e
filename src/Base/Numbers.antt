-- ===== src/Base/Numbers.antt =====
-- A test on native numbers.
use Prim.Native.Nat.{ℕ, compare, Ordering}
use mathlib.Core.Bool.{Bool, true, false}

abbrev pub same_number : ℕ → ℕ → Bool
same_number m n = elim (compare m n) [ Ordering.eq ↦ true | _ ↦ false ]
