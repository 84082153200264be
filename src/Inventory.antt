-- ===== src/Inventory.antt =====
-- The wallet of the cross-venue engine, src/cexdex/inventory.rs: on-chain balances, the amounts
-- reserved by dispatched bundles, and what is available. The atomics wrap around. The ratio gates
-- and the P&L, which are f64, are not modelled.
use engine_mev.Base.{ℕ, ◌-◌}
use engine_mev.Base.Word.{fetch_add, fetch_sub}
pub mod Booked
pub mod Lifecycle

pub data ArbDirection : Type 0 where
  buy_on_dex sell_on_dex : ArbDirection

pub record Inventory : Type 0 where
  pub sol_on_chain_lamports : ℕ
  pub usdc_on_chain_atoms : ℕ
  pub sol_reserved_lamports : ℕ
  pub usdc_reserved_atoms : ℕ

unfoldable pub new_inventory : Inventory
new_inventory = record {
  sol_on_chain_lamports = 0;
  usdc_on_chain_atoms = 0;
  sol_reserved_lamports = 0;
  usdc_reserved_atoms = 0;
}

unfoldable pub set_on_chain : ℕ → ℕ → Inventory → Inventory
set_on_chain sol_lamports usdc_atoms i = record i {
  sol_on_chain_lamports = sol_lamports;
  usdc_on_chain_atoms = usdc_atoms;
}

-- `saturating_sub`.
unfoldable pub sol_lamports_available : Inventory → ℕ
sol_lamports_available i = i.sol_on_chain_lamports - i.sol_reserved_lamports

unfoldable pub usdc_atoms_available : Inventory → ℕ
usdc_atoms_available i = i.usdc_on_chain_atoms - i.usdc_reserved_atoms

unfoldable pub reserve : ArbDirection → ℕ → Inventory → Inventory
reserve buy_on_dex input_amount i = record i {
  usdc_reserved_atoms = fetch_add i.usdc_reserved_atoms input_amount;
}
reserve sell_on_dex input_amount i = record i {
  sol_reserved_lamports = fetch_add i.sol_reserved_lamports input_amount;
}

unfoldable pub commit : ArbDirection → ℕ → ℕ → Inventory → Inventory
commit buy_on_dex input_amount output_amount i = record i {
  usdc_on_chain_atoms = fetch_sub i.usdc_on_chain_atoms input_amount;
  usdc_reserved_atoms = fetch_sub i.usdc_reserved_atoms input_amount;
  sol_on_chain_lamports = fetch_add i.sol_on_chain_lamports output_amount;
}
commit sell_on_dex input_amount output_amount i = record i {
  sol_on_chain_lamports = fetch_sub i.sol_on_chain_lamports input_amount;
  sol_reserved_lamports = fetch_sub i.sol_reserved_lamports input_amount;
  usdc_on_chain_atoms = fetch_add i.usdc_on_chain_atoms output_amount;
}

unfoldable pub release : ArbDirection → ℕ → Inventory → Inventory
release buy_on_dex input_amount i = record i {
  usdc_reserved_atoms = fetch_sub i.usdc_reserved_atoms input_amount;
}
release sell_on_dex input_amount i = record i {
  sol_reserved_lamports = fetch_sub i.sol_reserved_lamports input_amount;
}
