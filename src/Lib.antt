-- ===== src/Lib.antt =====
-- Verification of EngineMev, an arbitrage engine: account parsers, quotes of pools, the pool cache,
-- the route search, the profit simulator, swap instructions and bundles, their confirmation, the
-- cross-venue engine with its wallet and nonces, and the on-chain guard.
--
-- The parts and their files. A swap that the engine observes starts a search for circular routes
-- over cached pools; a route that gains is quoted again by the simulator, which decides whether to
-- submit it; the builder turns it into instructions; the on-chain program makes the transaction fail
-- unless the balance has grown; a tracker asks what became of it. The cross-venue engine searches by
-- the price of an exchange instead, and shares the cache, the quotes and the tracker.
--   Base: shared names, integers of machine width (Base/Word, Base/Int32), bytes, results, sorting,
--     and floating point as a parameter (Base/Float).
--   Addresses: src/addresses.rs and the Sanctum calculators of src/config.rs.
--   Parse: src/mempool/parsers/. Vaults is raydium_amm.rs, raydium_cp.rs and pumpswap.rs; Clmm is
--     orca.rs, raydium_clmm.rs and meteora_damm_v2.rs; Dlmm, Phoenix, Manifest and Nonce are the
--     files of these names; OrderBook is try_parse_orderbook. Reserves, InRange and Tree are proofs.
--   Pool: src/router/pool.rs, pools, hops and routes.
--   Quote: src/router/dex/ and the dispatch of src/router/pool.rs. Cpmm, DammV2, Sanctum, Phoenix,
--     Manifest and Dlmm are the files of these names; Clmm and TickPrice are dex/mod.rs; TickWalk is
--     the loop that clmm_orca.rs and clmm_raydium.rs share word for word, ClmmOrca and ClmmRaydium
--     the rest of these two; Dispatch is PoolState::get_output_amount and its variants.
--   Cache: src/state/cache.rs, StateCache with its two indices. TipFloor: src/state/tip_floor.rs.
--   Calculator: src/router/calculator.rs, RouteCalculator. Simulator: src/router/simulator.rs.
--   Swap: src/executor/swaps/, one module for each builder; Rewritten and FloorDiv are proofs.
--   Bundle: src/executor/bundle.rs, BundleBuilder. Bundle/Execute is build_execute_arb_v2_ix,
--     Bundle/Arb build_arb_instructions; OnChain is what a route means, against which the program of
--     Guard/Execute is compared; Placed, Amounts and Atas are proofs.
--   Confirmation: src/executor/confirmation.rs. Confirmation/Statuses is check_bundle_statuses,
--     Confirmation/Relays the callbacks of src/bin/cexdex.rs that several trackers share.
--   Relay: src/executor/relays/common.rs, the signed transaction and the rate limit. Locked, Build
--     and Spaced are proofs.
--   Inventory: src/cexdex/inventory.rs. Nonce: src/cexdex/nonce.rs.
--   Cexdex: src/cexdex/route.rs, src/cexdex/units.rs, src/feed/price_store.rs and the ratio gates of
--     the inventory. Cexdex/Detector is src/cexdex/detector.rs, Cexdex/Simulator
--     src/cexdex/simulator.rs; Gated, Dispatched and Accounted are proofs.
--   Guard: programs/arb-guard/src/lib.rs, start_check and profit_check; Guard/Execute:
--     execute_arb_v2.
--   Tests: concrete data, and each result below applied to it.
--
-- How the code is rendered. Unsigned integers are numbers, signed ones integers over them; a checked
-- operation returns `nothing` on overflow, a plain one panics (the crates are built with overflow
-- checks), a cast keeps its wrap-around. `Option` results are Outcome (ret, nothing, panic), the
-- program's results are Result (ok, err, failed). A shared map is a value that the operations
-- return anew; a reading of the clock is an argument, and so is the iteration order of a hash set.
-- f64 is the record F64 of operations with no law assumed (F64More has three more of them), and
-- `invoke` of the on-chain runtime is a function about which nothing is assumed. The Solana SDK's
-- derivation of addresses (SolanaSdk), its compiling and signing (TxSdk) and borsh are functions
-- too; AccountMeta, Instruction and the compiled message are the SDK's records. A slice out of range
-- panics. The loops are structural: over ticks with the source's limit of 50 rounds, over bins with
-- its limit of 200, over the nodes of a book with its limit of 1000, over the pools of a list. The
-- polling of the tracker has fuel for five rounds: each takes three seconds or more, and the twelfth
-- second ends it. The digits of a 32-bit number are at most ten.
--
-- Not modelled: network and RPC code, the connections of the relays, the account stream, metrics and
-- binaries, but for the callback in Confirmation/Relays; check_competitor of the tracker, which only
-- reads and logs; the P&L of the inventory; the market maker and its instructions; the blockhash
-- cache; estimate_unique_accounts; execute_arb, the older entry of the on-chain program; the
-- interleaving of concurrent calls of a cache, since each operation of it is one step.
pub mod Base
pub mod Pool
pub mod Quote
pub mod Cache
pub mod TipFloor
pub mod Simulator
pub mod Calculator
pub mod Inventory
pub mod Nonce
pub mod Guard
pub mod Addresses
pub mod Swap
pub mod Bundle
pub mod Confirmation
pub mod Parse
pub mod Cexdex
pub mod Relay
pub mod Tests
