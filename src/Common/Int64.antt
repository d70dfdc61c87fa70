-- ===== src/Common/Int64.antt =====
-- Go's `int64` (and the 64-bit `int`): an integer that each operation reduces to the range.
use Prim.Native.Nat.{ℕ, ◌+◌, ◌-◌, ◌%◌, ◌≤◌, ◌<◌, suc}
use mathlib.Core.Path.{◌≡◌, ap, ◌∙◌}
use native.Mathlib.Omega.{arith}
use uniedit_server.Common.Tests.{ltb, if◌then◌else◌}
use uniedit_server.Common.Int.{
  ℤ, pos, negsuc, pos_part, neg_part, ◌+ℤ◌, ◌-ℤ◌, ◌*ℤ◌, eq_of_parts, int_laws,
}

abbrev pub two63 : ℕ
two63 = 9223372036854775808

abbrev pub two64 : ℕ
two64 = 18446744073709551616

abbrev pub IsInt64 : ℤ → Type 0
IsInt64 z = (pos_part z < two63) × (neg_part z ≤ two63)

-- The bit pattern of an integer, as an unsigned number.
abbrev pub residue : ℤ → ℕ
residue z = (pos_part z + (two64 - neg_part z % two64)) % two64

-- The signed number of a bit pattern.
abbrev pub signed : ℕ → ℤ
signed r = if ltb r two63 then pos r else negsuc (two64 - r - 1)

unfoldable pub wrap64 : ℤ → ℤ
wrap64 z = signed (residue z)

unfoldable pub add64 : ℤ → ℤ → ℤ
add64 a b = wrap64 (a +ℤ b)

unfoldable pub sub64 : ℤ → ℤ → ℤ
sub64 a b = wrap64 (a -ℤ b)

unfoldable pub mul64 : ℤ → ℤ → ℤ
mul64 a b = wrap64 (a *ℤ b)

pub wrap64-IsInt64 : (z : ℤ) → IsInt64 (wrap64 z)
unfolding wrap64
wrap64-IsInt64 z = ground arith

pub wrap64_id : (z : ℤ) → IsInt64 z → wrap64 z ≡ z
unfolding wrap64
wrap64_id z h = ground (arith, eq_of_parts (wrap64 z) z)

residue-lt : (z : ℤ) → residue z < two64
residue-lt z = omega arith

-- Two integers with one bit pattern are one `int64`.
wrap64_cong : (a b : ℤ) → residue a ≡ residue b → wrap64 a ≡ wrap64 b
unfolding wrap64
wrap64_cong a b h = ap signed h

residue-signed : (r : ℕ) → r < two64 → residue (signed r) ≡ r
residue-signed r h = ground arith

residue-wrap64 : (z : ℤ) → residue (wrap64 z) ≡ residue z
unfolding wrap64
residue-wrap64 z = residue-signed (residue z) (residue-lt z)

residue-+ℤ : (a b : ℤ) → residue (a +ℤ b) ≡ (residue a + residue b) % two64
residue-+ℤ a b = omega int_laws

residue--ℤ : (a b : ℤ) → residue (a -ℤ b) ≡ (residue a + (two64 - residue b)) % two64
residue--ℤ a b = omega int_laws

-- An intermediate reduction makes no difference to a sum.
pub add64-suc : (k : ℕ) → suc k < two63 → add64 (pos k) (pos 1) ≡ pos (suc k)
unfolding add64 wrap64 ◌+ℤ◌
add64-suc k b = ground arith

pub add64-add64 : (a b c : ℤ) → add64 (add64 a b) c ≡ wrap64 (a +ℤ b +ℤ c)
unfolding add64
add64-add64 a b c =
    wrap64_cong _ _ (
      omega (arith, residue-+ℤ (wrap64 (a +ℤ b)) c, residue-wrap64 (a +ℤ b), residue-+ℤ (a +ℤ b) c))

-- A subtraction undoes an addition, also when the sum wraps around.
pub sub64-add64 : (a b : ℤ) → IsInt64 a → sub64 (add64 a b) b ≡ a
unfolding add64 sub64
sub64-add64 a b h =
    wrap64_cong _ a
      (omega (arith, residue--ℤ (wrap64 (a +ℤ b)) b, residue-wrap64 (a +ℤ b), residue-+ℤ a b))
    ∙ wrap64_id a h

-- A sum of a difference is reduced once.
pub add64-sub64 : (a b c : ℤ) → add64 (sub64 a b) c ≡ wrap64 (a -ℤ b +ℤ c)
unfolding add64 sub64
add64-sub64 a b c =
    wrap64_cong _ _ (
      omega (arith, residue-+ℤ (wrap64 (a -ℤ b)) c, residue-wrap64 (a -ℤ b), residue-+ℤ (a -ℤ b) c))

-- Nor does a reduction of one term.
pub wrap64-+ℤ : (a b : ℤ) → wrap64 (wrap64 a +ℤ b) ≡ wrap64 (a +ℤ b)
wrap64-+ℤ a b =
    wrap64_cong _ _ (omega (arith, residue-+ℤ (wrap64 a) b, residue-wrap64 a, residue-+ℤ a b))

pub wrap64-+ℤ_right : (a b : ℤ) → wrap64 (a +ℤ wrap64 b) ≡ wrap64 (a +ℤ b)
wrap64-+ℤ_right a b =
    wrap64_cong _ _ (omega (arith, residue-+ℤ a (wrap64 b), residue-wrap64 b, residue-+ℤ a b))

pub wrap64--ℤ : (a b c : ℤ) → wrap64 (wrap64 a -ℤ b +ℤ c) ≡ wrap64 (a -ℤ b +ℤ c)
wrap64--ℤ a b c = wrap64_cong _ _ (
    omega (
      arith,
      residue-+ℤ (wrap64 a -ℤ b) c,
      residue--ℤ (wrap64 a) b,
      residue-wrap64 a,
      residue-+ℤ (a -ℤ b) c,
      residue--ℤ a b,
    ))

-- In range, the operations are the exact ones.
pub add64_lem : (a b : ℤ) → IsInt64 (a +ℤ b) → add64 a b ≡ a +ℤ b
unfolding add64
add64_lem a b h = wrap64_id (a +ℤ b) h

pub sub64_lem : (a b : ℤ) → IsInt64 (a -ℤ b) → sub64 a b ≡ a -ℤ b
unfolding sub64
sub64_lem a b h = wrap64_id (a -ℤ b) h
