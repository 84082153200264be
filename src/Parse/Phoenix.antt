-- ===== src/Parse/Phoenix.antt =====
-- Phoenix markets, src/mempool/parsers/phoenix.rs: the best orders are the leftmost nodes of two
-- red-black trees in the account. A `usize` sum panics on overflow.
use engine_mev.Base.{
  ℕ, ◌+◌, ◌-◌, ◌*◌, Option, none, some, length, ◌==◌, ltb, leb, ◌||◌, if◌then◌else◌,
}
use engine_mev.Base.Bytes.{Bytes}
use engine_mev.Base.Outcome.{Outcome, ret, panic, ◌>>=◌, ◌>>◌, reject_if}
use engine_mev.Base.Word.{u64_mod}
use engine_mev.Pool.{Pubkey, PoolState, base_fee_bps, phoenix}
use engine_mev.Parse.{word_at, key_at, default_extra}
use engine_mev.Base.{zero, suc}

-- `saturating_mul` on `u64`.
unfoldable pub saturating_mul : ℕ → ℕ → ℕ
saturating_mul a b = if ltb (a * b) u64_mod then a * b else u64_mod - 1

unfoldable pub add_usize : ℕ → ℕ → Outcome ℕ
add_usize a b = if ltb (a + b) u64_mod then ret (a + b) else panic

-- The price and the lots of the node at an offset.
unfoldable pub order_at : Bytes → ℕ → ℕ → Outcome (Option ℕ × ℕ)
order_at bytes base_lot_size node_off = do
  price_in_ticks ← word_at 8 (node_off + 16) bytes
  num_base_lots ← word_at 8 (node_off + 40) bytes
  ret (some price_in_ticks, saturating_mul num_base_lots base_lot_size)

-- The loop from the root along the left children. Indices count from one, and are `u32`s, so an
-- offset is far below the bound of a `usize`.
unfoldable pub walk_left : ℕ → Bytes → ℕ → ℕ → ℕ → Outcome (Option ℕ × ℕ)
walk_left zero bytes base_lot_size nodes_start current = ret (none, 0)
walk_left (suc fuel) bytes base_lot_size nodes_start current =
    let node_off = nodes_start + (current - 1) * 64 in
    elim current [
      | zero ↦ ret (none, 0)
      | suc n ↦
          if ltb (length bytes) (node_off + 64)
          then ret (none, 0)
          else word_at 4 node_off bytes >>= λ left.
              if left == 0
              then order_at bytes base_lot_size node_off
              else walk_left fuel bytes base_lot_size nodes_start left
    ]

unfoldable pub phoenix_tree_best : Bytes → ℕ → ℕ → Outcome (Option ℕ × ℕ)
phoenix_tree_best bytes tree_start base_lot_size = do
  nodes_start ← add_usize tree_start 32
  if ltb (length bytes) nodes_start
      then ret (none, 0)
      else word_at 4 tree_start bytes >>= λ root.
          walk_left 1_000 bytes base_lot_size nodes_start root

-- `ticks.map(|t| t * tick_size)` in `u128`, where the product of two `u64`s always fits.
abbrev ticks_price : ℕ → Option ℕ → Option ℕ
ticks_price tick_size none = none
ticks_price tick_size (some t) = some (t * tick_size)

-- The taker's fee, where the account is long enough to hold it.
unfoldable pub taker_fee_bps : Bytes → Outcome ℕ
taker_fee_bps bytes =
    if ltb (624 + 288) (length bytes)
    then word_at 8 (624 + 280) bytes
    else ret (base_fee_bps phoenix)

-- `bids_size.checked_mul(64)?`, then the two plain sums.
unfoldable pub asks_start : ℕ → Outcome ℕ
asks_start bids_size = do
  reject_if (leb u64_mod (bids_size * 64))
  add_usize (928 + 32) (bids_size * 64)

unfoldable pub parse_phoenix_market : Pubkey → Bytes → ℕ → Outcome PoolState
parse_phoenix_market pool_address bytes slot = do
  reject_if (ltb (length bytes) 624)
  base_mint ← key_at 48 bytes
  quote_mint ← key_at 152 bytes
  base_vault ← key_at 80 bytes
  quote_vault ← key_at 184 bytes
  base_lot_size ← word_at 8 136 bytes
  quote_lot_size ← word_at 8 240 bytes
  reject_if (base_lot_size == 0 || quote_lot_size == 0)
  reject_if (base_mint == 0 || quote_mint == 0)
  tick_size ← word_at 8 248 bytes
  fee_bps ← taker_fee_bps bytes
  bids_size ← word_at 8 16 bytes
  asks_size ← word_at 8 24 bytes
  (best_bid_ticks, bid_depth) ← phoenix_tree_best bytes 928 base_lot_size
  asks_tree_start ← asks_start bids_size
  (best_ask_ticks, ask_depth) ← phoenix_tree_best bytes asks_tree_start base_lot_size
  ret (record {
    address = pool_address;
    dex_type = phoenix;
    token_a_mint = base_mint;
    token_b_mint = quote_mint;
    token_a_reserve = bid_depth;
    token_b_reserve = ask_depth;
    fee_bps = fee_bps;
    current_tick = none;
    sqrt_price_x64 = none;
    liquidity = none;
    last_slot = slot;
    extra = record default_extra { vault_a = some base_vault; vault_b = some quote_vault };
    best_bid_price = ticks_price tick_size best_bid_ticks;
    best_ask_price = ticks_price tick_size best_ask_ticks;
  })
