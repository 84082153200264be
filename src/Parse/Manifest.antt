-- ===== src/Parse/Manifest.antt =====
-- Manifest markets, src/mempool/parsers/manifest.rs.
use engine_mev.Base.{ℕ, ◌+◌, Option, none, some, length, ◌==◌, ltb, ◌||◌, if◌then◌else◌}
use engine_mev.Base.Bytes.{Bytes}
use engine_mev.Base.Outcome.{Outcome, ret, ◌>>=◌, ◌>>◌, reject_if}
use engine_mev.Pool.{Pubkey, PoolState, manifest}
use engine_mev.Parse.{word_at, key_at, default_extra}

-- The order at an index, which is a byte offset behind the header; 2^32 - 1 marks an empty side.
unfoldable pub manifest_read_order : Bytes → ℕ → Outcome (Option ℕ × ℕ)
manifest_read_order bytes index =
    let abs_offset = 256 + index in
    if index == 0xffffffff
    then ret (none, 0)
    else if ltb (length bytes) (abs_offset + 40)
    then ret (none, 0)
    else word_at 16 (abs_offset + 16) bytes >>= λ price.
        word_at 8 (abs_offset + 32) bytes >>= λ num_base_atoms.
        ret (if price == 0 then (none, 0) else (some price, num_base_atoms))

unfoldable pub parse_manifest_market : Pubkey → Bytes → ℕ → Outcome PoolState
parse_manifest_market pool_address bytes slot = do
  reject_if (ltb (length bytes) 256)
  base_mint ← key_at 16 bytes
  quote_mint ← key_at 48 bytes
  base_vault ← key_at 80 bytes
  quote_vault ← key_at 112 bytes
  reject_if (base_mint == 0 || quote_mint == 0)
  bids_best_idx ← word_at 4 160 bytes
  asks_best_idx ← word_at 4 168 bytes
  (best_bid_price, bid_depth) ← manifest_read_order bytes bids_best_idx
  (best_ask_price, ask_depth) ← manifest_read_order bytes asks_best_idx
  ret (record {
    address = pool_address;
    dex_type = manifest;
    token_a_mint = base_mint;
    token_b_mint = quote_mint;
    token_a_reserve = bid_depth;
    token_b_reserve = ask_depth;
    fee_bps = 0;
    current_tick = none;
    sqrt_price_x64 = none;
    liquidity = none;
    last_slot = slot;
    extra = record default_extra { vault_a = some base_vault; vault_b = some quote_vault };
    best_bid_price = best_bid_price;
    best_ask_price = best_ask_price;
  })
