-- ===== src/Prelude/Int.antt =====
-- Go's `int`: the integers over the native numbers, with the tests that the services make.
use Prim.Native.Nat.{ℕ, suc, ◌-◌, ◌+◌, compare, Ordering}
use mathlib.Core.Bool.{Bool, true, false}

-- `negsuc n` is -(n + 1).
pub data ℤ : Type 0 where
  pos : ℕ → ℤ
  negsuc : ℕ → ℤ

-- `i <= j`
abbrev pub leb_ℤ : ℤ → ℤ → Bool
leb_ℤ (pos a) (pos b) = elim (compare a b) [ Ordering.gt ↦ false | _ ↦ true ]
leb_ℤ (pos a) (negsuc b) = false
leb_ℤ (negsuc a) (pos b) = true
leb_ℤ (negsuc a) (negsuc b) = elim (compare b a) [ Ordering.gt ↦ false | _ ↦ true ]

abbrev pub pos_part : ℤ → ℕ
pos_part (pos n) = n
pos_part (negsuc n) = 0

abbrev pub neg_part : ℤ → ℕ
neg_part (pos n) = 0
neg_part (negsuc n) = suc n

-- `a - b` as an integer.
abbrev pub sub_ℕ : ℕ → ℕ → ℤ
sub_ℕ a b = elim (compare a b) [ Ordering.lt ↦ negsuc (b - a - 1) | _ ↦ pos (a - b) ]

abbrev pub add_ℤ : ℤ → ℤ → ℤ
add_ℤ i j = sub_ℕ (pos_part i + pos_part j) (neg_part i + neg_part j)
