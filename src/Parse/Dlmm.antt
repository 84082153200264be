-- ===== src/Parse/Dlmm.antt =====
-- Meteora DLMM pools, src/mempool/parsers/meteora_dlmm.rs. The arithmetic of `f64` is a parameter.
use engine_mev.Base.{ℕ, none, some, length, ◌==◌, ltb, if◌then◌else◌}
use engine_mev.Base.Bytes.{Bytes}
use engine_mev.Base.Int.{ℤ}
use engine_mev.Base.Outcome.{Outcome, ret, ◌>>=◌, ◌>>◌, reject_if}
use engine_mev.Pool.{Pubkey, PoolState, base_fee_bps, meteora_dlmm}
use engine_mev.Addresses
use engine_mev.Parse.{word_at, key_at, i32_at, byte_at, default_extra}
use engine_mev.Base.Float.{F64}
use engine_mev.Base.Int.{unsigned_abs}

-- `if data.len() > i && data[i] == 1 { token_2022 } else { spl_token }`.
unfoldable pub program_flag : ℕ → Bytes → Outcome Pubkey
program_flag i bytes =
    if ltb i (length bytes)
    then (byte_at i bytes >>= λ b.
        ret (if b == 1 then Addresses.token_2022 else Addresses.spl_token))
    else ret Addresses.spl_token

module _ (fl : F64) where
  -- (1 + bin_step / 10000) ^ active_id.
  abbrev bin_price : ℕ → ℤ → fl.F
  bin_price bin_step active_id =
      fl.powi (fl.add (fl.literal 1 0) (fl.div (fl.of_nat bin_step) (fl.literal 10_000 0)))
        active_id

  unfoldable pub parse_meteora_dlmm : Pubkey → Bytes → ℕ → Outcome PoolState
  parse_meteora_dlmm pool_address bytes slot = do
    reject_if (ltb (length bytes) 216)
    active_id ← i32_at 76 bytes
    reject_if (ltb 500_000 (unsigned_abs active_id))
    bin_step ← word_at 2 80 bytes
    mint_x ← key_at 88 bytes
    mint_y ← key_at 120 bytes
    let synthetic_reserve_b =
        fl.to_u64 (fl.mul (fl.of_nat 1_000_000_000) (bin_price bin_step active_id))
    prog_x ← program_flag 878 bytes
    prog_y ← program_flag 879 bytes
    vault_a ← key_at 152 bytes
    vault_b ← key_at 184 bytes
    ret (record {
      address = pool_address;
      dex_type = meteora_dlmm;
      token_a_mint = mint_x;
      token_b_mint = mint_y;
      token_a_reserve = 1_000_000_000;
      token_b_reserve = synthetic_reserve_b;
      fee_bps = base_fee_bps meteora_dlmm;
      current_tick = some active_id;
      sqrt_price_x64 = none;
      liquidity = none;
      last_slot = slot;
      extra = record default_extra {
        vault_a = some vault_a;
        vault_b = some vault_b;
        token_program_a = some prog_x;
        token_program_b = some prog_y;
      };
      best_bid_price = none;
      best_ask_price = none;
    })
