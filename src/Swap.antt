-- ===== src/Swap.antt =====
-- The swap instructions of src/executor/swaps/: the accounts and the data that each exchange's
-- program takes, and the helpers of src/executor/swaps/mod.rs. What the Solana SDK computes is a
-- parameter, `SolanaSdk`: the derivation of an address from seeds, and the system program. A
-- builder's `None` is `nothing`.
use Prim.Native.Char.{code}
use Prim.Native.String.{String}
use engine_mev.Base.{
  ℕ, Bool, true, false, Option, none, some, List, [], ◌∷◌, ◌==◌, ◌||◌, if◌then◌else◌,
}
use engine_mev.Base.Bytes.{Bytes, to_be_bytes}
use engine_mev.Base.Int.{ℤ, pos, eqb_ℤ}
use engine_mev.Base.Int32.{is_zero, signum, add_i32, sub_i32, mul_i32, div_i32, rem_i32}
use engine_mev.Base.Outcome.{Outcome, ret, ◌>>=◌}
use engine_mev.Pool.{Pubkey, PoolState}
use engine_mev.Addresses
pub mod FloorDiv
pub mod RaydiumAmm
pub mod RaydiumCp
pub mod RaydiumClmm
pub mod Orca
pub mod Dlmm
pub mod DammV2
pub mod Phoenix
pub mod Manifest
pub mod PumpSwap
pub mod Sanctum
pub mod Rewritten

pub record AccountMeta : Type 0 where
  pub pubkey : Pubkey
  pub is_signer : Bool
  pub is_writable : Bool

pub record Instruction : Type 0 where
  pub program_id : Pubkey
  pub accounts : List AccountMeta
  pub ix_data : Bytes

-- `AccountMeta::new` and `AccountMeta::new_readonly`.
abbrev pub account : Pubkey → Bool → AccountMeta
account k signer = record { pubkey = k; is_signer = signer; is_writable = true }

abbrev pub readonly : Pubkey → Bool → AccountMeta
readonly k signer = record { pubkey = k; is_signer = signer; is_writable = false }

pub record SolanaSdk : Type 0 where
  -- The address alone, without the bump seed.
  pub find_program_address : List Bytes → Pubkey → Pubkey
  pub create_program_address : List Bytes → Pubkey → Option Pubkey
  pub system_program : Pubkey
  pub transfer : Pubkey → Pubkey → ℕ → Instruction

-- A byte string `b"..."` of ASCII characters.
abbrev pub seed : String → Bytes
seed String.[] = []
seed (String.◌∷◌ c s) = code c ∷ seed s

-- `key.as_ref()`.
abbrev pub key_bytes : Pubkey → Bytes
key_bytes k = to_be_bytes 32 k

abbrev pub unwrap_or : Option Pubkey → Pubkey → Pubkey
unwrap_or none d = d
unwrap_or (some k) d = k

module _ (sdk : SolanaSdk) where
  unfoldable pub derive_ata_with_program : Pubkey → Pubkey → Pubkey → Pubkey
  derive_ata_with_program wallet mint token_program =
      sdk.find_program_address (key_bytes wallet ∷ key_bytes token_program ∷ key_bytes mint ∷ [])
        Addresses.ata_program

  unfoldable pub derive_ata : Pubkey → Pubkey → Pubkey
  derive_ata wallet mint = derive_ata_with_program wallet mint Addresses.spl_token

-- Division that rounds down.
unfoldable pub floor_div : ℤ → ℤ → Outcome ℤ
floor_div dividend divisor = do
  r ← rem_i32 dividend divisor
  q ← div_i32 dividend divisor
  if is_zero r || eqb_ℤ (signum dividend) (signum divisor) then ret q else sub_i32 q (pos 1)

-- `if a_to_b { pool.token_b_mint } else { pool.token_a_mint }`.
abbrev pub output_mint : PoolState → Bool → Pubkey
output_mint pool a_to_b = if a_to_b then pool.token_b_mint else pool.token_a_mint

-- `pool.current_tick.unwrap_or(0)`.
abbrev pub tick_or_zero : Option ℤ → ℤ
tick_or_zero none = pos 0
tick_or_zero (some t) = t

-- `start_base + o * ticks_in_array`, for three offsets.
unfoldable pub array_start : ℤ → ℤ → ℤ → Outcome ℤ
array_start start_base ticks_in_array o = mul_i32 o ticks_in_array >>= λ d. add_i32 start_base d

unfoldable pub array_starts : ℤ → ℤ → ℤ × ℤ × ℤ → Outcome (ℤ × ℤ × ℤ)
array_starts start_base ticks_in_array (a, b, c) = do
  first ← array_start start_base ticks_in_array a
  second ← array_start start_base ticks_in_array b
  third ← array_start start_base ticks_in_array c
  ret (first, second, third)
