-- ===== src/Parse/Clmm.antt =====
-- Pools with a price and a liquidity: src/mempool/parsers/orca.rs, raydium_clmm.rs and
-- meteora_damm_v2.rs.
use engine_mev.Base.{ℕ, ◌/◌, Bool, true, false, Option, none, some, length, ◌==◌, ltb}
use engine_mev.Base.Bytes.{Bytes}
use engine_mev.Base.Outcome.{Outcome, ret, ◌>>=◌, ◌>>◌, reject_if}
use engine_mev.Pool.{Pubkey, PoolState, base_fee_bps, raydium_clmm, orca_whirlpool, meteora_damm_v2}
use engine_mev.Addresses
use engine_mev.Parse.{
  word_at, key_at, i32_at, byte_at, default_extra, approx_reserves_from_sqrt_price,
}

unfoldable pub parse_orca_whirlpool : Pubkey → Bytes → ℕ → Outcome PoolState
parse_orca_whirlpool pool_address bytes slot = do
  reject_if (ltb (length bytes) 245)
  tick_spacing ← word_at 2 41 bytes
  liquidity ← word_at 16 49 bytes
  sqrt_price_x64 ← word_at 16 65 bytes
  tick ← i32_at 81 bytes
  mint_a ← key_at 101 bytes
  mint_b ← key_at 181 bytes
  let reserves = approx_reserves_from_sqrt_price sqrt_price_x64 liquidity
  fee_rate ← word_at 2 45 bytes
  vault_a ← key_at 133 bytes
  vault_b ← key_at 213 bytes
  ret (record {
    address = pool_address;
    dex_type = orca_whirlpool;
    token_a_mint = mint_a;
    token_b_mint = mint_b;
    token_a_reserve = reserves.0;
    token_b_reserve = reserves.1;
    fee_bps = fee_rate / 100;
    current_tick = some tick;
    sqrt_price_x64 = some sqrt_price_x64;
    liquidity = some liquidity;
    last_slot = slot;
    extra = record default_extra {
      vault_a = some vault_a;
      vault_b = some vault_b;
      tick_spacing = some tick_spacing;
      token_program_a = some Addresses.spl_token;
      token_program_b = some Addresses.spl_token;
    };
    best_bid_price = none;
    best_ask_price = none;
  })

unfoldable pub parse_raydium_clmm : Pubkey → Bytes → ℕ → Outcome PoolState
parse_raydium_clmm pool_address bytes slot = do
  reject_if (ltb (length bytes) 273)
  amm_config ← key_at 9 bytes
  mint_0 ← key_at 73 bytes
  mint_1 ← key_at 105 bytes
  observation_key ← key_at 201 bytes
  tick_spacing ← word_at 2 235 bytes
  liquidity ← word_at 16 237 bytes
  sqrt_price_x64 ← word_at 16 253 bytes
  tick ← i32_at 269 bytes
  let reserves = approx_reserves_from_sqrt_price sqrt_price_x64 liquidity
  vault_a ← key_at 137 bytes
  vault_b ← key_at 169 bytes
  ret (record {
    address = pool_address;
    dex_type = raydium_clmm;
    token_a_mint = mint_0;
    token_b_mint = mint_1;
    token_a_reserve = reserves.0;
    token_b_reserve = reserves.1;
    fee_bps = 25;
    current_tick = some tick;
    sqrt_price_x64 = some sqrt_price_x64;
    liquidity = some liquidity;
    last_slot = slot;
    extra = record default_extra {
      vault_a = some vault_a;
      vault_b = some vault_b;
      config = some amm_config;
      observation = some observation_key;
      tick_spacing = some tick_spacing;
      token_program_a = some Addresses.spl_token;
      token_program_b = some Addresses.spl_token;
    };
    best_bid_price = none;
    best_ask_price = none;
  })

-- The reserves, the price and the liquidity, by the fee mode.
unfoldable pub damm_reserves : Bool → Bytes → Outcome (ℕ × ℕ × Option ℕ × Option ℕ)
damm_reserves true bytes = do
  ra ← word_at 8 680 bytes
  rb ← word_at 8 688 bytes
  ret (ra, rb, none, none)
damm_reserves false bytes = do
  reject_if (ltb (length bytes) 472)
  liq ← word_at 16 360 bytes
  sqrt_p ← word_at 16 456 bytes
  let reserves = approx_reserves_from_sqrt_price sqrt_p liq
  ret (reserves.0, reserves.1, some sqrt_p, some liq)

unfoldable pub parse_meteora_damm_v2 : Pubkey → Bytes → ℕ → Outcome PoolState
parse_meteora_damm_v2 pool_address bytes slot = do
  reject_if (ltb (length bytes) 696)
  mint_a ← key_at 168 bytes
  mint_b ← key_at 200 bytes
  collect_fee_mode ← byte_at 484 bytes
  (reserve_a, reserve_b, sqrt_price_x64, liquidity) ← damm_reserves (collect_fee_mode == 4) bytes
  vault_a ← key_at 232 bytes
  vault_b ← key_at 264 bytes
  ret (record {
    address = pool_address;
    dex_type = meteora_damm_v2;
    token_a_mint = mint_a;
    token_b_mint = mint_b;
    token_a_reserve = reserve_a;
    token_b_reserve = reserve_b;
    fee_bps = base_fee_bps meteora_damm_v2;
    current_tick = none;
    sqrt_price_x64 = sqrt_price_x64;
    liquidity = liquidity;
    last_slot = slot;
    extra = record default_extra { vault_a = some vault_a; vault_b = some vault_b };
    best_bid_price = none;
    best_ask_price = none;
  })
