-- ===== src/Base/Bytes.antt =====
-- Words as bytes: `to_le_bytes`, `to_be_bytes` and `from_le_bytes` of the integer types, for any
-- number of bytes, and slices of byte strings. A byte is a number.
use Prim.Native.Nat.{ℕ, zero, suc, ◌+◌, ◌*◌, ◌/◌, ◌%◌, ◌^◌, ◌≤◌, ◌<◌}
use mathlib.Core.Path.{◌≡◌, refl, ap, ◌∙◌}
use mathlib.Core.List.{List, [], ◌∷◌, ◌++◌}
use native.Mathlib.Omega.{arith}
use engine_mev.Base.Lists.{length, take, drop}

abbrev pub Bytes : Type 0
Bytes = List ℕ

-- `to_le_bytes` in n bytes, and `from_le_bytes`.
unfoldable pub to_le_bytes : ℕ → ℕ → Bytes
to_le_bytes zero x = []
to_le_bytes (suc n) x = x % 256 ∷ to_le_bytes n (x / 256)

unfoldable pub from_le_bytes : Bytes → ℕ
from_le_bytes [] = 0
from_le_bytes (b ∷ bs) = b + 256 * from_le_bytes bs

-- `to_be_bytes` in n bytes.
unfoldable pub to_be_bytes : ℕ → ℕ → Bytes
to_be_bytes zero x = []
to_be_bytes (suc n) x = to_be_bytes n (x / 256) ++ (x % 256 ∷ [])

-- `from_be_bytes`, on top of the value of the bytes before.
unfoldable pub be_value : ℕ → Bytes → ℕ
be_value x [] = x
be_value x (b ∷ bs) = be_value (x * 256 + b) bs

unfoldable pub from_be_bytes : Bytes → ℕ
unfolding be_value
from_be_bytes bs = be_value 0 bs

-- Every element is a byte.
abbrev pub IsBytes : Bytes → Type 0
IsBytes [] = Unit
IsBytes (b ∷ bs) = (b < 256) × IsBytes bs

-- `bytes[start..start + n]`, where it is in range.
abbrev pub slice : ℕ → ℕ → Bytes → Bytes
slice start n bytes = take n (drop start bytes)

pub length-to_le_bytes : (n x : ℕ) → length (to_le_bytes n x) ≡ n
unfolding to_le_bytes
length-to_le_bytes zero x = refl
length-to_le_bytes (suc n) x = omega (arith, length-to_le_bytes n (x / 256))

div_lt : (x p : ℕ) → x < 256 * p → x / 256 < p
div_lt x p h = omega (arith, h)

-- The bytes of a word, read back.
pub le_round_trip : (n x : ℕ) → x < 256 ^ n → from_le_bytes (to_le_bytes n x) ≡ x
unfolding to_le_bytes from_le_bytes
le_round_trip zero x h = omega (arith, h)
le_round_trip (suc n) x h =
    omega (arith, le_round_trip n (x / 256) (div_lt x (256 ^ n) (omega (arith, h))))

digit_bound : (b x n : ℕ) → b < 256 → x < 256 ^ n → b + 256 * x < 256 ^ suc n
digit_bound b x n h k = omega (arith, h, k)

-- A word that is read from n bytes fits into them.
pub from_le_bytes-bound : (bs : Bytes) → IsBytes bs → from_le_bytes bs < 256 ^ length bs
unfolding from_le_bytes
from_le_bytes-bound [] h = omega arith
from_le_bytes-bound (b ∷ bs) h =
    digit_bound b (from_le_bytes bs) (length bs) h.0 (from_le_bytes-bound bs h.1)

pub slice-IsBytes : (start n : ℕ) (bs : Bytes) → IsBytes bs → IsBytes (slice start n bs)
slice-IsBytes zero zero bs h = tt
slice-IsBytes zero (suc n) [] h = tt
slice-IsBytes zero (suc n) (b ∷ bs) h = (h.0, slice-IsBytes zero n bs h.1)
slice-IsBytes (suc start) zero bs h = tt
slice-IsBytes (suc start) (suc n) [] h = tt
slice-IsBytes (suc start) (suc n) (b ∷ bs) h = slice-IsBytes start (suc n) bs h.1

module _ {ℓ} {A : Type ℓ} where
  drop_nil : (n : ℕ) → drop {A = A} n [] ≡ []
  drop_nil zero = refl
  drop_nil (suc n) = refl

  pub take-append : (xs ys : List A) → take (length xs) (xs ++ ys) ≡ xs
  take-append [] ys = refl
  take-append (x ∷ xs) ys = rw (take-append xs ys) refl

  pub drop-append : (xs ys : List A) → drop (length xs) (xs ++ ys) ≡ ys
  drop-append [] ys = refl
  drop-append (x ∷ xs) ys = drop-append xs ys

  pub length-take : (n : ℕ) (xs : List A) → n ≤ length xs → length (take n xs) ≡ n
  length-take zero xs h = refl
  length-take (suc n) [] h = absurd (omega (arith, h))
  length-take (suc n) (x ∷ xs) h = omega (arith, length-take n xs (omega (arith, h)))

  pub length-drop : (n : ℕ) (xs : List A) → n ≤ length xs → length (drop n xs) + n ≡ length xs
  length-drop zero xs h = omega arith
  length-drop (suc n) [] h = absurd (omega (arith, h))
  length-drop (suc n) (x ∷ xs) h = omega (arith, length-drop n xs (omega (arith, h)))

  pub drop-drop : (n m : ℕ) (xs : List A) → drop (n + m) xs ≡ drop m (drop n xs)
  drop-drop n m [] = rw (drop_nil (n + m), drop_nil n, drop_nil m) refl
  drop-drop zero m (x ∷ xs) = ap (λ k. drop k (x ∷ xs)) (omega arith)
  drop-drop (suc n) m (x ∷ xs) =
      let e : suc n + m ≡ suc (n + m) = omega arith in
      ap (λ k. drop k (x ∷ xs)) e ∙ drop-drop n m xs
