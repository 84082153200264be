-- ===== src/Tests.antt =====
-- Concrete pools, books and caches, and the theorems of the development applied to them.
mod Data
mod Quotes
mod Ranges
mod Bins
mod Caches
mod Search
mod Wallet
mod OnChain
mod Trades
mod Accounts
mod Trackers
mod Relays
