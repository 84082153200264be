-- ===== src/Quote.antt =====
-- The quoting code of src/router/dex: what a pool pays for an input amount.
pub mod Cpmm
pub mod Phoenix
pub mod Manifest
pub mod OrderBook
pub mod Clmm
pub mod TickPrice
pub mod TickWalk
pub mod ClmmOrca
pub mod ClmmRaydium
pub mod Dlmm
pub mod DammV2
pub mod Sanctum
pub mod Dispatch
