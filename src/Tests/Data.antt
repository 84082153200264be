-- ===== src/Tests/Data.antt =====
-- Test data: pools of each kind, and a fixed-point stand-in for the floating-point numbers.
use engine_mev.Base.{ℕ, ◌+◌, ◌-◌, ◌*◌, ◌/◌, ◌^◌, none, some, ltb, leb}
use engine_mev.Base.Float.{F64}
use engine_mev.Base.Int.{pos_part}
use engine_mev.Pool.{Pubkey, DexType, PoolExtra, PoolState}

abbrev pub no_extra : PoolExtra
no_extra = record {
  vault_a = none;
  vault_b = none;
  config = none;
  token_program_a = none;
  token_program_b = none;
  tick_spacing = none;
  observation = none;
  bitmap_extension = none;
  open_orders = none;
  market = none;
  market_program = none;
  target_orders = none;
  amm_nonce = none;
  coin_creator = none;
  is_mayhem_mode = none;
  is_cashback_coin = none;
}

-- A constant-product pool of the tokens a and b with a fee of 0.25%.
abbrev pub amm : Pubkey → Pubkey → Pubkey → ℕ → ℕ → PoolState
amm address a b reserve_a reserve_b = record {
  address = address;
  dex_type = DexType.raydium_amm;
  token_a_mint = a;
  token_b_mint = b;
  token_a_reserve = reserve_a;
  token_b_reserve = reserve_b;
  fee_bps = 25;
  current_tick = none;
  sqrt_price_x64 = none;
  liquidity = none;
  last_slot = 7;
  extra = no_extra;
  best_bid_price = none;
  best_ask_price = none;
}

-- An order book with a best bid and a best ask.
abbrev pub book : DexType → ℕ → ℕ → PoolState
book dex bid ask = record (amm 50 1 2 1_000_000 900_000_000) {
  dex_type = dex;
  fee_bps = 2;
  best_bid_price = some bid;
  best_ask_price = some ask;
}

-- Six decimals, rounded down; powers of integers and roots of nothing but 1 are not exact.
abbrev scale6 : ℕ
scale6 = 1_000_000

abbrev pub fixed_point : F64
fixed_point = record {
  F = ℕ;
  literal = λ n k. n * scale6 / 10 ^ k;
  of_nat = λ n. n * scale6;
  to_u64 = λ x. x / scale6;
  to_u128 = λ x. x / scale6;
  add = λ x y. x + y;
  sub = λ x y. x - y;
  mul = λ x y. x * y / scale6;
  div = λ x y. x * scale6 / y;
  powi = λ x n. x ^ pos_part n / scale6 ^ (pos_part n - 1);
  sqrt = λ x. (x + scale6) / 2;
  lt = ltb;
  le = leb;
}
