-- ===== src/Prelude/Integers.antt =====
-- Integers over the native numbers, for rewards that a feedback may make negative.
use Prim.Native.Nat.{ℕ, ◌+◌, ◌-◌, ◌*◌}
use reinforce_spec.Prelude.Tests.{ltb, if◌then◌else◌}

pub data ℤ : Type 0 where
  pos negsuc : ℕ → ℤ

-- `m - n` of two natural numbers.
abbrev pub difference : ℕ → ℕ → ℤ
difference m n = if ltb m n then ℤ.negsuc (n - m - 1) else ℤ.pos (m - n)

infixl 65 ◌+ℤ◌
abbrev pub ◌+ℤ◌ : ℤ → ℤ → ℤ
ℤ.pos m +ℤ ℤ.pos n = ℤ.pos (m + n)
ℤ.pos m +ℤ ℤ.negsuc n = difference m (n + 1)
ℤ.negsuc m +ℤ ℤ.pos n = difference n (m + 1)
ℤ.negsuc m +ℤ ℤ.negsuc n = ℤ.negsuc (m + n + 1)

-- A natural multiple.
abbrev pub scale_ℤ : ℕ → ℤ → ℤ
scale_ℤ k (ℤ.pos n) = ℤ.pos (k * n)
scale_ℤ k (ℤ.negsuc n) = difference 0 (k * (n + 1))
