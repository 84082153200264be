-- ===== src/Base/Int32.antt =====
-- `i32` arithmetic: an `i32` is an integer from -2^31 to 2^31 - 1, and an operation whose result is
-- not one panics, as a division by zero does. Also the bytes and the decimal text of an integer.
use Prim.Native.Nat.{ℕ, zero, suc, ◌+◌, ◌-◌, ◌*◌, ◌/◌, ◌%◌, ◌^◌}
use mathlib.Core.Bool.{Bool, false, ◌&&◌}
use mathlib.Core.List.{[], ◌∷◌, ◌++◌}
use engine_mev.Base.Tests.{ltb, ◌==◌, if◌then◌else◌}
use engine_mev.Base.Int.{ℤ, pos, negsuc, neg_ℕ, ◌+ℤ◌, ◌-ℤ◌, leb_ℤ, unsigned_abs}
use engine_mev.Base.Outcome.{Outcome, ret, panic, ◌>>=◌}
use engine_mev.Base.Bytes.{Bytes}

-- The product, and the quotient and the remainder of a division that rounds towards zero.
abbrev pub mul_ℤ : ℤ → ℤ → ℤ
mul_ℤ (pos a) (pos b) = pos (a * b)
mul_ℤ (pos a) (negsuc b) = neg_ℕ (a * suc b)
mul_ℤ (negsuc a) (pos b) = neg_ℕ (suc a * b)
mul_ℤ (negsuc a) (negsuc b) = pos (suc a * suc b)

abbrev pub quot : ℤ → ℤ → ℤ
quot (pos a) (pos b) = pos (a / b)
quot (pos a) (negsuc b) = neg_ℕ (a / suc b)
quot (negsuc a) (pos b) = neg_ℕ (suc a / b)
quot (negsuc a) (negsuc b) = pos (suc a / suc b)

abbrev pub rem : ℤ → ℤ → ℤ
rem (pos a) b = pos (a % unsigned_abs b)
rem (negsuc a) b = neg_ℕ (suc a % unsigned_abs b)

abbrev pub is_zero : ℤ → Bool
is_zero (pos n) = n == 0
is_zero (negsuc n) = false

-- `signum`.
abbrev pub signum : ℤ → ℤ
signum (pos n) = if n == 0 then pos 0 else pos 1
signum (negsuc n) = negsuc 0

unfoldable pub i32_of : ℤ → Outcome ℤ
i32_of a = if leb_ℤ (negsuc (2 ^ 31 - 1)) a && leb_ℤ a (pos (2 ^ 31 - 1)) then ret a else panic

unfoldable pub add_i32 : ℤ → ℤ → Outcome ℤ
add_i32 a b = i32_of (a +ℤ b)

unfoldable pub sub_i32 : ℤ → ℤ → Outcome ℤ
sub_i32 a b = i32_of (a -ℤ b)

unfoldable pub mul_i32 : ℤ → ℤ → Outcome ℤ
mul_i32 a b = i32_of (mul_ℤ a b)

unfoldable pub div_i32 : ℤ → ℤ → Outcome ℤ
div_i32 a b = if is_zero b then panic else i32_of (quot a b)

-- `-2^31 % -1` panics, as `-2^31 / -1` does.
unfoldable pub rem_i32 : ℤ → ℤ → Outcome ℤ
rem_i32 a b = div_i32 a b >>= λ _. ret (rem a b)

-- The bits of a signed integer as those of an unsigned one, 2 ^ w wide.
abbrev pub as_unsigned : ℕ → ℤ → ℕ
as_unsigned w (pos n) = n % 2 ^ w
as_unsigned w (negsuc n) = 2 ^ w - 1 - n % 2 ^ w

-- And back: the two's complement of a number below 2 ^ w.
abbrev pub as_signed : ℕ → ℕ → ℤ
as_signed w n = if ltb n (2 ^ (w - 1)) then pos n else negsuc (2 ^ w - 1 - n)

-- The decimal digits in ASCII; ten are enough for an `i32`.
unfoldable pub digits : ℕ → ℕ → Bytes
digits zero n = []
digits (suc fuel) n =
    let rest = digits fuel (n / 10) in (if ltb n 10 then [] else rest) ++ ((b'0' + n % 10) ∷ [])

-- `to_string().as_bytes()` of an `i32`.
unfoldable pub decimal : ℤ → Bytes
unfolding digits
decimal (pos n) = digits 10 n
decimal (negsuc n) = b'-' ∷ digits 10 (suc n)
