-- ===== src/Parse/InRange.antt =====
-- Reads that stay inside the bytes of an account, and what they give.
use engine_mev.Base.{
  ℕ, zero, suc, ◌+◌, ◌^◌, ◌<◌, ◌≤◌, ◌≡◌, refl, Bool, true, false, [], ◌∷◌, length, drop, leb, arith,
}
use engine_mev.Base.Bytes.{
  Bytes, IsBytes, slice, slice-IsBytes, from_le_bytes-bound, length-take, length-drop,
}
use engine_mev.Base.Outcome.{Outcome, ret, nothing, panic, ◌>>=◌, ◌>>◌, reject_if, or_else}
use engine_mev.Base.Int.{ℤ}
use engine_mev.Pool.{Pubkey}
use engine_mev.Parse.{bytes_at, word_at, key_at, i32_at, byte_at}

-- The call does not panic, and what it returns satisfies P.
abbrev pub Gives {ℓ} : {A : Type ℓ} → (A → Type 0) → Outcome A → Type 0
Gives P (ret a) = P a
Gives P nothing = Unit
Gives P panic = ⊥

-- Nothing is said of the result.
abbrev pub Any {ℓ} : {A : Type ℓ} → A → Type 0
Any a = Unit

pub >>=-Gives {ℓ κ} :
    {A : Type ℓ} {B : Type κ} (P : B → Type 0) (Q : A → Type 0) (m : Outcome A) (f : A → Outcome B)
    → Gives Q m
    → ((a : A) → Q a → Gives P (f a))
    → Gives P (m >>= f)
>>=-Gives P Q (ret a) f h k = k a h
>>=-Gives P Q nothing f h k = tt
>>=-Gives P Q panic f h k = absurd h

pub reject_if-Gives {ℓ} :
    {B : Type ℓ} (P : B → Type 0) (b : Bool) (m : Outcome B)
    → (b ≡ false → Gives P m)
    → Gives P (reject_if b >> m)
reject_if-Gives P true m k = tt
reject_if-Gives P false m k = k refl

pub or_else-Gives {ℓ} :
    {B : Type ℓ} (P : B → Type 0) (m n : Outcome B) → Gives P m → Gives P n → Gives P (or_else m n)
or_else-Gives P (ret a) n h k = h
or_else-Gives P nothing n h k = k
or_else-Gives P panic n h k = absurd h

module _ (bytes : Bytes) where
  bytes_at-Gives :
      (start n : ℕ)
      → start + n ≤ length bytes
      → Gives (λ bs. bs ≡ slice start n bytes) (bytes_at start n bytes)
  unfolding bytes_at
  bytes_at-Gives start n h =
      let fits : leb (start + n) (length bytes) ≡ true = ground arith in rw (fits) refl

  length-slice : (start n : ℕ) → start + n ≤ length bytes → length (slice start n bytes) ≡ n
  length-slice start n h =
      length-take n (drop start bytes)
        (omega (arith, h, length-drop start bytes (omega (arith, h))))

  module _ (are_bytes : IsBytes bytes) where
    pub word_at-Gives :
        (n start : ℕ) → start + n ≤ length bytes → Gives (λ w. w < 256 ^ n) (word_at n start bytes)
    unfolding word_at
    word_at-Gives n start h =
        >>=-Gives (λ w. w < 256 ^ n) _ (bytes_at start n bytes) _ (bytes_at-Gives start n h)
          λ bs e.
            rw (length-slice start n h, ← e) at
              (from_le_bytes-bound (slice start n bytes) (slice-IsBytes start n bytes are_bytes))

  pub word_at-Any : (n start : ℕ) → start + n ≤ length bytes → Gives Any (word_at n start bytes)
  unfolding word_at
  word_at-Any n start h =
      >>=-Gives Any _ (bytes_at start n bytes) _ (bytes_at-Gives start n h) λ bs e. tt

  pub key_at-Gives : (start : ℕ) → start + 32 ≤ length bytes → Gives Any (key_at start bytes)
  unfolding key_at
  key_at-Gives start h =
      >>=-Gives Any _ (bytes_at start 32 bytes) _ (bytes_at-Gives start 32 h) λ bs e. tt

  pub i32_at-Gives : (start : ℕ) → start + 4 ≤ length bytes → Gives Any (i32_at start bytes)
  unfolding i32_at
  i32_at-Gives start h =
      >>=-Gives Any Any (word_at 4 start bytes) _ (word_at-Any 4 start h) λ w e. tt

  -- A read inside the bytes, and what follows it.
  module _ {ℓ} {B : Type ℓ} (P : B → Type 0) where
    pub word_then :
        (n start : ℕ) (f : ℕ → Outcome B)
        → start + n ≤ length bytes
        → ((w : ℕ) → Gives P (f w))
        → Gives P (word_at n start bytes >>= f)
    word_then n start f h k =
        >>=-Gives P Any (word_at n start bytes) f (word_at-Any n start h) λ w _. k w

    pub key_then :
        (start : ℕ) (f : Pubkey → Outcome B)
        → start + 32 ≤ length bytes
        → ((key : Pubkey) → Gives P (f key))
        → Gives P (key_at start bytes >>= f)
    key_then start f h k =
        >>=-Gives P Any (key_at start bytes) f (key_at-Gives start h) λ key _. k key

    pub i32_then :
        (start : ℕ) (f : ℤ → Outcome B)
        → start + 4 ≤ length bytes
        → ((i : ℤ) → Gives P (f i))
        → Gives P (i32_at start bytes >>= f)
    i32_then start f h k = >>=-Gives P Any (i32_at start bytes) f (i32_at-Gives start h) λ i _. k i

pub byte_at-Gives : (bytes : Bytes) (i : ℕ) → i < length bytes → Gives Any (byte_at i bytes)
unfolding byte_at
byte_at-Gives [] i h = absurd (omega (arith, h))
byte_at-Gives (b ∷ bs) zero h = tt
byte_at-Gives (b ∷ bs) (suc i) h = byte_at-Gives bs i (omega (arith, h))
