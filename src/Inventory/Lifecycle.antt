-- ===== src/Inventory/Lifecycle.antt =====
-- The life of a reservation: reserved on dispatch, then committed or released.
use engine_mev.Base.{ℕ, ◌+◌, ◌^◌, ◌<◌, ◌≤◌, ◌≡◌, arith}
use engine_mev.Base.Word.{u64_mod, fetch_add, fetch_sub}
use engine_mev.Inventory.{
  ArbDirection, buy_on_dex, sell_on_dex, Inventory, reserve, commit, release,
  sol_lamports_available, usdc_atoms_available,
}

-- The balance that a direction spends, and the one that it receives.
abbrev pub spent_on_chain : ArbDirection → Inventory → ℕ
spent_on_chain buy_on_dex i = i.usdc_on_chain_atoms
spent_on_chain sell_on_dex i = i.sol_on_chain_lamports

abbrev pub received_on_chain : ArbDirection → Inventory → ℕ
received_on_chain buy_on_dex i = i.sol_on_chain_lamports
received_on_chain sell_on_dex i = i.usdc_on_chain_atoms

abbrev pub reserved : ArbDirection → Inventory → ℕ
reserved buy_on_dex i = i.usdc_reserved_atoms
reserved sell_on_dex i = i.sol_reserved_lamports

abbrev pub available : ArbDirection → Inventory → ℕ
available buy_on_dex i = usdc_atoms_available i
available sell_on_dex i = sol_lamports_available i

-- The words of the state, and no more reserved than there is.
pub record IsCovered (i : Inventory) : Type 0 where
  pub sol_fits : i.sol_on_chain_lamports < u64_mod
  pub usdc_fits : i.usdc_on_chain_atoms < u64_mod
  pub sol_covered : i.sol_reserved_lamports ≤ i.sol_on_chain_lamports
  pub usdc_covered : i.usdc_reserved_atoms ≤ i.usdc_on_chain_atoms

bounds :
    (i : Inventory)
    → IsCovered i
    → (i.sol_on_chain_lamports < 2 ^ 64)
      × (i.usdc_on_chain_atoms < 2 ^ 64)
      × (i.sol_reserved_lamports ≤ i.sol_on_chain_lamports)
      × (i.usdc_reserved_atoms ≤ i.usdc_on_chain_atoms)
bounds i h = (h.sol_fits, h.usdc_fits, h.sol_covered, h.usdc_covered)

-- A reservation of an amount that is available keeps the reservations covered and takes exactly
-- that amount from what is available.
pub reserve-IsCovered :
    (dir : ArbDirection) (x : ℕ) (i : Inventory)
    → IsCovered i
    → x ≤ available dir i
    → IsCovered (reserve dir x i) × (available dir (reserve dir x i) + x ≡ available dir i)
unfolding reserve sol_lamports_available usdc_atoms_available fetch_add
reserve-IsCovered buy_on_dex x i h fit =
    let (sol, usdc, a, b) = bounds i h in
    (
      record { sol_fits = sol; usdc_fits = usdc; sol_covered = a; usdc_covered = omega arith },
      omega arith,
    )
reserve-IsCovered sell_on_dex x i h fit =
    let (sol, usdc, a, b) = bounds i h in
    (
      record { sol_fits = sol; usdc_fits = usdc; sol_covered = omega arith; usdc_covered = b },
      omega arith,
    )

-- To release what was reserved restores the state, even when the atomics wrapped around in
-- between.
pub release-reserve :
    (dir : ArbDirection) (x : ℕ) (i : Inventory)
    → x < u64_mod
    → reserved dir i < u64_mod
    → release dir x (reserve dir x i) ≡ i
unfolding reserve release fetch_add fetch_sub
release-reserve buy_on_dex x i hx h = ground arith
release-reserve sell_on_dex x i hx h = ground arith

-- To commit a bundle that was reserved keeps the reservations covered and leaves what is available
-- on the spent side as it is; the input leaves the balance and the reservations, and the output
-- arrives, provided that it fits.
pub commit-IsCovered :
    (dir : ArbDirection) (x y : ℕ) (i : Inventory)
    → IsCovered i
    → x ≤ reserved dir i
    → received_on_chain dir i + y < u64_mod
    → IsCovered (commit dir x y i)
      × (spent_on_chain dir (commit dir x y i) + x ≡ spent_on_chain dir i)
      × (reserved dir (commit dir x y i) + x ≡ reserved dir i)
      × (available dir (commit dir x y i) ≡ available dir i)
      × (received_on_chain dir (commit dir x y i) ≡ received_on_chain dir i + y)
unfolding commit sol_lamports_available usdc_atoms_available fetch_add fetch_sub
commit-IsCovered buy_on_dex x y i h held fit =
    let (sol, usdc, a, b) = bounds i h in
    (
      record {
        sol_fits = omega arith;
        usdc_fits = omega arith;
        sol_covered = omega arith;
        usdc_covered = omega arith;
      },
      omega arith,
      omega arith,
      omega arith,
      omega arith,
    )
commit-IsCovered sell_on_dex x y i h held fit =
    let (sol, usdc, a, b) = bounds i h in
    (
      record {
        sol_fits = omega arith;
        usdc_fits = omega arith;
        sol_covered = omega arith;
        usdc_covered = omega arith;
      },
      omega arith,
      omega arith,
      omega arith,
      omega arith,
    )
