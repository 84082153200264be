-- ===== src/Cexdex.antt =====
-- The cross-venue engine: src/cexdex/route.rs, src/cexdex/units.rs, the price store of src/feed/, and
-- the ratio gates of src/cexdex/inventory.rs. The arithmetic of `f64` is a parameter: `F64`, and
-- three more operations in `F64More`. The only symbol that is ever asked for is SOLUSDC, so the
-- store has one snapshot. Clock readings are arguments, in milliseconds.
use engine_mev.Base.{ℕ, ◌-◌, Bool, true, false, Option, none, some, ltb, ◌&&◌, if◌then◌else◌}
use engine_mev.Base.Float.{F64}
use engine_mev.Cache.{StateCache}
use engine_mev.Inventory.{Inventory, ArbDirection, buy_on_dex, sell_on_dex}
use engine_mev.Pool.{Pubkey, DexType}
pub mod Detector
pub mod Simulator
pub mod Gated
pub mod Accounted
pub mod Dispatched

pub record F64More (fl : F64) : Type 0 where
  pub abs : fl.F → fl.F
  pub least : fl.F → fl.F → fl.F
  -- `x.round() as u64`.
  pub round_u64 : fl.F → ℕ

pub record CexDexRoute (fl : F64) : Type 0 where
  pub pool_address : Pubkey
  pub dex_type : DexType
  pub direction : ArbDirection
  pub input_mint : Pubkey
  pub output_mint : Pubkey
  pub input_amount : ℕ
  pub expected_output : ℕ
  pub cex_bid_at_detection : fl.F
  pub cex_ask_at_detection : fl.F
  pub expected_profit_usd : fl.F
  pub observed_slot : ℕ

pub record PriceSnapshot (fl : F64) : Type 0 where
  pub best_bid_usd : fl.F
  pub best_ask_usd : fl.F
  pub received_at : ℕ

pub record PriceStore (fl : F64) : Type 0 where
  pub cex : Option (PriceSnapshot fl)
  pub pools : StateCache

-- The wallet with its price, and the limits of its ratio.
pub record Wallet (fl : F64) : Type 0 where
  pub inventory : Inventory
  pub sol_price_usd_scaled : ℕ
  pub hard_cap : fl.F
  pub preferred_low : fl.F
  pub preferred_high : fl.F
  pub skewed_multiplier : fl.F

module _ (fl : F64) where
  unfoldable pub sol_to_lamports : fl.F → ℕ
  sol_to_lamports sol = fl.to_u64 (fl.mul sol (fl.of_nat 1_000_000_000))

  unfoldable pub lamports_to_sol : ℕ → fl.F
  lamports_to_sol lamports = fl.div (fl.of_nat lamports) (fl.of_nat 1_000_000_000)

  unfoldable pub usdc_to_atoms : fl.F → ℕ
  usdc_to_atoms usdc = fl.to_u64 (fl.mul usdc (fl.of_nat 1_000_000))

  unfoldable pub atoms_to_usdc : ℕ → fl.F
  atoms_to_usdc atoms = fl.div (fl.of_nat atoms) (fl.of_nat 1_000_000)

  abbrev pub zero_f : fl.F
  zero_f = fl.literal 0 0

  unfoldable pub spread_bps : F64More fl → fl.F → fl.F → ℕ
  spread_bps more reference other =
      if fl.le reference zero_f
      then 0
      else more.round_u64
          (fl.mul (fl.div (more.abs (fl.sub other reference)) reference) (fl.literal 10_000 0))

  -- `is_stale`: no snapshot at all is stale.
  unfoldable pub is_stale : ℕ → ℕ → PriceStore fl → Bool
  is_stale now max_age_ms store = elim store.cex [
    | none ↦ true
    | some snap ↦ ltb max_age_ms (now - snap.received_at)
  ]

  unfoldable pub sol_price_usd : Wallet fl → fl.F
  sol_price_usd w = fl.div (fl.of_nat w.sol_price_usd_scaled) (fl.literal 1_000_000 0)

  unfoldable pub ratio : Wallet fl → fl.F
  ratio w =
      let price = sol_price_usd w in
      let sol_usd = fl.mul (lamports_to_sol w.inventory.sol_on_chain_lamports) price in
      let total = fl.add sol_usd (atoms_to_usdc w.inventory.usdc_on_chain_atoms) in
      if fl.le price zero_f
      then fl.literal 5 1
      else if fl.le total zero_f
      then fl.literal 5 1
      else fl.div sol_usd total

  unfoldable pub allows_direction : Wallet fl → ArbDirection → Bool
  allows_direction w buy_on_dex = fl.lt (ratio w) w.hard_cap
  allows_direction w sell_on_dex = fl.lt (fl.sub (fl.literal 1 0) w.hard_cap) (ratio w)

  -- Whether a trade would take the ratio further from its preferred range.
  unfoldable pub worsens : Wallet fl → ArbDirection → Bool
  worsens w buy_on_dex = fl.lt w.preferred_high (ratio w)
  worsens w sell_on_dex = fl.lt (ratio w) w.preferred_low

  unfoldable pub profit_multiplier : Wallet fl → ArbDirection → fl.F
  profit_multiplier w dir =
      if fl.le w.preferred_low (ratio w) && fl.le (ratio w) w.preferred_high
      then fl.literal 1 0
      else if worsens w dir
      then w.skewed_multiplier
      else fl.literal 1 0
