-- ===== src/Parse/Vaults.antt =====
-- Pools whose reserves are read from their vaults: src/mempool/parsers/raydium_amm.rs, raydium_cp.rs
-- and pumpswap.rs. The vaults are returned beside the pool.
use engine_mev.Base.{ℕ, ◌*◌, ◌/◌, Bool, false, none, some, length, ◌==◌, ltb, not, if◌then◌else◌}
use engine_mev.Base.Bytes.{Bytes}
use engine_mev.Base.Outcome.{Outcome, ret, panic, ◌>>=◌, ◌>>◌, reject_if}
use engine_mev.Base.Word.{u64_mod}
use engine_mev.Pool.{Pubkey, PoolState, base_fee_bps, raydium_amm, raydium_cp, pump_swap}
use engine_mev.Addresses
use engine_mev.Parse.{word_at, key_at, byte_at, default_extra}

-- `trade_fee_num * 10000` is a `u64` product, which panics on overflow.
unfoldable pub trade_fee_bps : ℕ → ℕ → Outcome ℕ
trade_fee_bps num den =
    if ltb 0 den
    then if ltb (num * 10_000) u64_mod then ret (num * 10_000 / den) else panic
    else ret 25

unfoldable pub parse_raydium_amm_v4 : Pubkey → Bytes → ℕ → Outcome (PoolState × (Pubkey × Pubkey))
parse_raydium_amm_v4 pool_address bytes slot = do
  reject_if (ltb (length bytes) 624)
  nonce ← byte_at 8 bytes
  trade_fee_num ← word_at 8 144 bytes
  trade_fee_den ← word_at 8 152 bytes
  fee_bps ← trade_fee_bps trade_fee_num trade_fee_den
  base_vault ← key_at 336 bytes
  quote_vault ← key_at 368 bytes
  base_mint ← key_at 400 bytes
  quote_mint ← key_at 432 bytes
  open_orders ← key_at 496 bytes
  market_id ← key_at 528 bytes
  market_program ← key_at 560 bytes
  target_orders ← key_at 592 bytes
  let pool : PoolState = record {
    address = pool_address;
    dex_type = raydium_amm;
    token_a_mint = base_mint;
    token_b_mint = quote_mint;
    token_a_reserve = 0;
    token_b_reserve = 0;
    fee_bps = fee_bps;
    current_tick = none;
    sqrt_price_x64 = none;
    liquidity = none;
    last_slot = slot;
    extra = record default_extra {
      vault_a = some base_vault;
      vault_b = some quote_vault;
      token_program_a = some Addresses.spl_token;
      token_program_b = some Addresses.spl_token;
      open_orders = some open_orders;
      market = some market_id;
      market_program = some market_program;
      target_orders = some target_orders;
      amm_nonce = some nonce;
    };
    best_bid_price = none;
    best_ask_price = none;
  }
  ret (pool, (base_vault, quote_vault))

unfoldable pub parse_raydium_cp : Pubkey → Bytes → ℕ → Outcome (PoolState × (Pubkey × Pubkey))
parse_raydium_cp pool_address bytes slot = do
  reject_if (ltb (length bytes) 296)
  amm_config ← key_at 8 bytes
  vault_0 ← key_at 72 bytes
  vault_1 ← key_at 104 bytes
  mint_0 ← key_at 168 bytes
  mint_1 ← key_at 200 bytes
  token_0_program ← key_at 232 bytes
  token_1_program ← key_at 264 bytes
  let pool : PoolState = record {
    address = pool_address;
    dex_type = raydium_cp;
    token_a_mint = mint_0;
    token_b_mint = mint_1;
    token_a_reserve = 0;
    token_b_reserve = 0;
    fee_bps = base_fee_bps raydium_cp;
    current_tick = none;
    sqrt_price_x64 = none;
    liquidity = none;
    last_slot = slot;
    extra = record default_extra {
      vault_a = some vault_0;
      vault_b = some vault_1;
      config = some amm_config;
      token_program_a = some token_0_program;
      token_program_b = some token_1_program;
    };
    best_bid_price = none;
    best_ask_price = none;
  }
  ret (pool, (vault_0, vault_1))

-- `if data.len() > i { data[i] != 0 } else { false }`.
unfoldable pub flag_at : ℕ → Bytes → Outcome Bool
flag_at i bytes =
    if ltb i (length bytes) then (byte_at i bytes >>= λ b. ret (not (b == 0))) else ret false

-- The discriminator, read as a word.
unfoldable pub parse_pumpswap : Pubkey → Bytes → ℕ → Outcome (PoolState × (Pubkey × Pubkey))
parse_pumpswap pool_address bytes slot = do
  reject_if (ltb (length bytes) 243)
  discriminator ← word_at 8 0 bytes
  reject_if (not (discriminator == 0xbc6db111046d9af1))
  base_mint ← key_at 43 bytes
  quote_mint ← key_at 75 bytes
  base_vault ← key_at 139 bytes
  quote_vault ← key_at 171 bytes
  coin_creator ← key_at 211 bytes
  is_mayhem_mode ← flag_at 243 bytes
  is_cashback_coin ← flag_at 244 bytes
  let pool : PoolState = record {
    address = pool_address;
    dex_type = pump_swap;
    token_a_mint = base_mint;
    token_b_mint = quote_mint;
    token_a_reserve = 0;
    token_b_reserve = 0;
    fee_bps = 125;
    current_tick = none;
    sqrt_price_x64 = none;
    liquidity = none;
    last_slot = slot;
    extra = record default_extra {
      vault_a = some base_vault;
      vault_b = some quote_vault;
      coin_creator = some coin_creator;
      is_mayhem_mode = some is_mayhem_mode;
      is_cashback_coin = some is_cashback_coin;
      token_program_b = some Addresses.spl_token;
    };
    best_bid_price = none;
    best_ask_price = none;
  }
  ret (pool, (base_vault, quote_vault))
