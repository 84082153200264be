-- ===== src/Parse.antt =====
-- The account parsers of src/mempool/parsers/: pool states out of the bytes of an account. A slice
-- `data[a..b]` that is out of range panics, as does an index, so the reads are outcomes.
use engine_mev.Base.{
  ℕ, ◌+◌, ◌-◌, ◌*◌, ◌/◌, ◌^◌, Bool, true, false, Option, none, some, List, [], ◌∷◌, length,
  get_elem?, ◌==◌, ltb, leb, ◌||◌, if◌then◌else◌, min,
}
use engine_mev.Base.Bytes.{Bytes, from_le_bytes, from_be_bytes, slice}
use engine_mev.Base.Int.{ℤ}
use engine_mev.Base.Int32.{as_signed}
use engine_mev.Base.Outcome.{Outcome, ret, nothing, panic, ◌>>=◌, ◌>>◌, reject_if}
use engine_mev.Base.Word.{u64_mod, u128_mod}
use engine_mev.Pool.{Pubkey, PoolExtra}
pub mod Nonce
pub mod Vaults
pub mod Clmm
pub mod Dlmm
pub mod Phoenix
pub mod Manifest
pub mod OrderBook
pub mod InRange
pub mod Reserves
pub mod Tree

-- `data[start..start + n]`.
unfoldable pub bytes_at : ℕ → ℕ → Bytes → Outcome Bytes
bytes_at start n bytes = if leb (start + n) (length bytes) then ret (slice start n bytes) else panic

-- `from_le_bytes` of n bytes, and a key of 32.
unfoldable pub word_at : ℕ → ℕ → Bytes → Outcome ℕ
word_at n start bytes = bytes_at start n bytes >>= λ bs. ret (from_le_bytes bs)

unfoldable pub key_at : ℕ → Bytes → Outcome Pubkey
key_at start bytes = bytes_at start 32 bytes >>= λ bs. ret (from_be_bytes bs)

-- `i32::from_le_bytes`.
unfoldable pub i32_at : ℕ → Bytes → Outcome ℤ
i32_at start bytes = word_at 4 start bytes >>= λ w. ret (as_signed 32 w)

-- `data[i]`.
unfoldable pub byte_at : ℕ → Bytes → Outcome ℕ
byte_at i bytes = elim (get_elem? bytes i) [ none ↦ panic | some b ↦ ret b ]

-- `..Default::default()`.
abbrev pub default_extra : PoolExtra
default_extra = record {
  vault_a = none;
  vault_b = none;
  config = none;
  token_program_a = none;
  token_program_b = none;
  tick_spacing = none;
  observation = none;
  bitmap_extension = none;
  open_orders = none;
  market = none;
  market_program = none;
  target_orders = none;
  amm_nonce = none;
  coin_creator = none;
  is_mayhem_mode = none;
  is_cashback_coin = none;
}

-- `a.checked_mul(b).and_then(|v| v.checked_div(c)).unwrap_or(0)` on `u128`.
unfoldable pub mul_div_or_zero : ℕ → ℕ → ℕ → ℕ
mul_div_or_zero a b c = if ltb (a * b) u128_mod then (if c == 0 then 0 else a * b / c) else 0

-- The cast to `u64` that stops at its greatest value.
unfoldable pub saturate_u64 : ℕ → ℕ
saturate_u64 x = if ltb (2 ^ 64 - 1) x then 2 ^ 64 - 1 else x

unfoldable pub approx_reserves_from_sqrt_price : ℕ → ℕ → ℕ × ℕ
approx_reserves_from_sqrt_price sqrt_price_x64 liquidity =
    if sqrt_price_x64 == 0 || liquidity == 0 then (0, 0) else (
      saturate_u64 (mul_div_or_zero liquidity u64_mod sqrt_price_x64),
      saturate_u64 (mul_div_or_zero liquidity sqrt_price_x64 u64_mod),
    )
