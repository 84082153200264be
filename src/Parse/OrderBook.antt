-- ===== src/Parse/OrderBook.antt =====
-- `try_parse_orderbook` of src/mempool/parsers/phoenix.rs.
use engine_mev.Base.{ℕ, Bool, true, false, length, leb}
use engine_mev.Base.Bytes.{Bytes}
use engine_mev.Base.Outcome.{Outcome, nothing, or_else}
use engine_mev.Pool.{Pubkey, PoolState}
use engine_mev.Parse.Phoenix.{parse_phoenix_market}
use engine_mev.Parse.Manifest.{parse_manifest_market}

-- `if b { f }`, that falls through to what follows on `None`.
abbrev attempt : Bool → Outcome PoolState → Outcome PoolState
attempt true m = m
attempt false m = nothing

unfoldable pub try_parse_orderbook : Pubkey → Bytes → ℕ → Outcome PoolState
try_parse_orderbook pool_address bytes slot =
    or_else (attempt (leb 624 (length bytes)) (parse_phoenix_market pool_address bytes slot))
      (attempt (leb 256 (length bytes)) (parse_manifest_market pool_address bytes slot))
