-- ===== src/Tests/Wallet.antt =====
-- A wallet through the life of a reservation, and a pool of two nonces.
use engine_mev.Base.{ℕ, ◌+◌, ◌<◌, ◌≤◌, ◌≡◌, ◌⊎◌, refl, arith, true, false, some, [], ◌∷◌}
use engine_mev.Base.Outcome.{ret, nothing}
use engine_mev.Base.Word.{u64_mod, fetch_add, fetch_sub}
use engine_mev.Inventory.{
  buy_on_dex, sell_on_dex, Inventory, new_inventory, set_on_chain, sol_lamports_available,
  usdc_atoms_available, reserve, commit, release,
}
use engine_mev.Inventory.Booked.{
  IsBooked, Events, none_left, one_more, dispatched, landed, Events-IsBooked,
}
use engine_mev.Inventory.Lifecycle.{IsCovered, available, received_on_chain, release-reserve}
use engine_mev.Nonce.{
  NoncePool, new_state, state_of, put_state, modify, insert_all, new_pool, is_older, choose_by,
  choose, select, mark_used, checkout, settle, mark_settled, refresh, contains, update_cached_hash,
}
use engine_mev.Nonce.Checkout.{IsChosen, checkout-IsChosen}
use engine_mev.Nonce.States.{IsTracked, checkout-IsTracked}
use engine_mev.Pool.{Pubkey}

program : Unit {0}
unfolding new_inventory set_on_chain sol_lamports_available usdc_atoms_available reserve commit
    release fetch_add fetch_sub new_state state_of put_state modify insert_all new_pool is_older
    choose_by choose select mark_used checkout settle mark_settled refresh contains
    update_cached_hash
program = tt

abbrev funded : Inventory
funded = record {
  sol_on_chain_lamports = 5_000_000_000;
  usdc_on_chain_atoms = 900_000_000;
  sol_reserved_lamports = 0;
  usdc_reserved_atoms = 100_000_000;
}

set_once :
    set_on_chain 5_000_000_000 900_000_000 (reserve buy_on_dex 100_000_000 new_inventory) ≡ funded
unfolding program
set_once = refl

funded-IsCovered : IsCovered funded
funded-IsCovered = record {
  sol_fits = omega arith;
  usdc_fits = omega arith;
  sol_covered = omega arith;
  usdc_covered = omega arith;
}

fits_available : 300_000_000 ≤ available buy_on_dex funded
unfolding program
fits_available = omega arith

release-reserve_example :
    release buy_on_dex 300_000_000 (reserve buy_on_dex 300_000_000 funded) ≡ funded
release-reserve_example = release-reserve buy_on_dex 300_000_000 funded (omega arith) (omega arith)

-- Two nonces; the second one alone has a hash, and then both do.
abbrev fresh : NoncePool
fresh = new_pool 5 (70 ∷ 71 ∷ [])

abbrev warm : NoncePool
warm = update_cached_hash 6 70 1_000 (update_cached_hash 6 71 1_001 fresh)

abbrev used_once : NoncePool
used_once = record {
  nonces = 70 ∷ 71 ∷ [];
  state =
      (
        70,
        record {
          last_used = 8;
          in_flight = true;
          cached_hash = some 1_000;
          hash_observed_at = some 6;
        },
      )
      ∷ (
        71,
        record {
          last_used = 5;
          in_flight = false;
          cached_hash = some 1_001;
          hash_observed_at = some 6;
        },
      )
      ∷ [];
  collisions = 0;
  hash_refreshes = 2;
}

first_used : checkout 8 warm ≡ ret ((70, 1_000), used_once)
unfolding program
first_used = refl

fresh-IsTracked : IsTracked fresh
unfolding program
fresh-IsTracked = ((new_state 5, refl), ((new_state 5, refl), tt))

warm-IsTracked : IsTracked warm
unfolding program
warm-IsTracked = ((_, refl), ((_, refl), tt))

checkout-IsTracked_example :
    (checkout 8 warm ≡ nothing)
    ⊎ ((out : (Pubkey × ℕ) × NoncePool) × (checkout 8 warm ≡ ret out) × IsTracked out.1)
checkout-IsTracked_example = checkout-IsTracked 8 warm warm-IsTracked

checkout-IsChosen_example : IsChosen 8 warm 70 1_000 used_once
checkout-IsChosen_example = checkout-IsChosen 8 warm first_used

-- The bundle that `funded` has under way, a second one, and the landing of the first.
funded-IsBooked : IsBooked funded ((buy_on_dex, 100_000_000) ∷ [])
funded-IsBooked = record { covered = funded-IsCovered; usdc_booked = refl; sol_booked = refl }

abbrev selling_too : Inventory
selling_too = reserve sell_on_dex 2_000_000_000 funded

fits_selling : 2_000_000_000 ≤ available sell_on_dex funded
unfolding program
fits_selling = omega arith

fits_landing : received_on_chain buy_on_dex selling_too + 600_000_000 < u64_mod
unfolding program
fits_landing = omega arith

dispatched_and_landed :
    Events funded
      ((buy_on_dex, 100_000_000) ∷ [])
      (commit buy_on_dex 100_000_000 600_000_000 selling_too)
      ((sell_on_dex, 2_000_000_000) ∷ [])
dispatched_and_landed = one_more (dispatched sell_on_dex 2_000_000_000 fits_selling) (
    one_more
      (landed buy_on_dex 100_000_000 600_000_000 ((sell_on_dex, 2_000_000_000) ∷ []) []
        fits_landing)
      none_left)

Events-IsBooked_example :
    IsBooked
      (commit buy_on_dex 100_000_000 600_000_000 selling_too)
      ((sell_on_dex, 2_000_000_000) ∷ [])
Events-IsBooked_example =
    Events-IsBooked funded (commit buy_on_dex 100_000_000 600_000_000 selling_too)
      ((buy_on_dex, 100_000_000) ∷ []) ((sell_on_dex, 2_000_000_000) ∷ []) dispatched_and_landed
      funded-IsBooked
