-- ===== src/Prelude/Int.antt =====
-- Signed integers over the native numbers, and the casts between machine integers.
use Prim.Native.Nat.{ℕ, ◌-◌, ◌%◌, ◌<◌}
use mathlib.Core.Path.{◌≡◌}
use mathlib.Core.Logic.{◌↔◌}
use mathlib.Core.Bool.{Bool, true, false}
use native.Mathlib.Omega.{arith}
use nanwei_api_rust.Prelude.Tests.{Eq, nat_beq, ltb, if◌then◌else◌}

-- `negsuc n` is -(n + 1).
pub data ℤ : Type 0 where
  pos : ℕ → ℤ
  negsuc : ℕ → ℤ

abbrev pub int_beq : ℤ → ℤ → Bool
int_beq (pos a) (pos b) = nat_beq a b
int_beq (negsuc a) (negsuc b) = nat_beq a b
int_beq _ _ = false

pub int_beq_iff : (a b : ℤ) → (int_beq a b ≡ true) ↔ (a ≡ b)
int_beq_iff (pos a) (pos b) = ground arith
int_beq_iff _ _ = ground arith

instance abbrev pub int_eq : Eq ℤ
int_eq = record { beq = int_beq; beq_iff = int_beq_iff }

-- `n as i32`, for an unsigned n: the low 32 bits, read in two's complement.
unfoldable pub as_i32 : ℕ → ℤ
as_i32 n =
    let low = n % 4294967296 in if ltb low 2147483648 then pos low else negsuc (4294967295 - low)

-- `z as u64` and `z as usize`: the sign is extended.
unfoldable pub as_u64 : ℤ → ℕ
as_u64 (pos n) = n % 18446744073709551616
as_u64 (negsuc n) = 18446744073709551615 - n % 18446744073709551616

-- The values of an `i32`.
abbrev pub IsI32 : ℤ → Type 0
IsI32 (pos n) = n < 2147483648
IsI32 (negsuc n) = n < 2147483648

pub as_i32-IsI32 : (n : ℕ) → IsI32 (as_i32 n)
unfolding as_i32
as_i32-IsI32 n = ground arith

-- A 32-bit value survives the way through `usize` and back.
pub as_i32-as_u64 : (z : ℤ) → IsI32 z → as_i32 (as_u64 z) ≡ z
unfolding as_i32 as_u64
as_i32-as_u64 (pos n) h = ground arith
as_i32-as_u64 (negsuc n) h = ground arith

pub as_i32_small : (n : ℕ) → n < 2147483648 → as_i32 n ≡ pos n
unfolding as_i32
as_i32_small n h = ground arith

pub as_u64_small : (n : ℕ) → n < 18446744073709551616 → as_u64 (pos n) ≡ n
unfolding as_u64
as_u64_small n h = omega arith

-- A stream id below 2^62 comes through an `int` unchanged exactly when it is below 2^31.
pub as_u64-as_i32 : (n : ℕ) → n < 4611686018427387904 → (as_u64 (as_i32 n) ≡ n) ↔ (n < 2147483648)
unfolding as_u64 as_i32
as_u64-as_i32 n h = ground arith
