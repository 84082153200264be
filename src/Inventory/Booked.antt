-- ===== src/Inventory/Booked.antt =====
-- The bundles that are under way, against the reservations that the wallet holds for them: every
-- dispatch reserves, every settlement commits or releases what its bundle had reserved, in any order.
use engine_mev.Base.{ℕ, ◌+◌, ◌^◌, ◌<◌, ◌≤◌, ◌≡◌, refl, arith, List, [], ◌∷◌, ◌++◌}
use engine_mev.Base.Word.{u64_mod, fetch_add, fetch_sub}
use engine_mev.Inventory.{
  ArbDirection, buy_on_dex, sell_on_dex, Inventory, reserve, commit, release,
  sol_lamports_available, usdc_atoms_available,
}
use engine_mev.Inventory.Lifecycle.{
  IsCovered, available, received_on_chain, reserve-IsCovered, commit-IsCovered,
}

abbrev pub Bundles : Type 0
Bundles = List (ArbDirection × ℕ)

-- The inputs of the bundles that buy, and of those that sell.
abbrev pub buying : Bundles → ℕ
buying [] = 0
buying ((buy_on_dex, x) ∷ bs) = x + buying bs
buying ((sell_on_dex, x) ∷ bs) = buying bs

abbrev pub selling : Bundles → ℕ
selling [] = 0
selling ((buy_on_dex, x) ∷ bs) = selling bs
selling ((sell_on_dex, x) ∷ bs) = x + selling bs

-- A wallet and its bundles, one event at a time.
pub data Event : Inventory → Bundles → Inventory → Bundles → Type 0 where
  dispatched :
      {i : Inventory} {bs : Bundles} (d : ArbDirection) (x : ℕ)
      → x ≤ available d i
      → Event i bs (reserve d x i) ((d, x) ∷ bs)
  landed :
      {i : Inventory} (d : ArbDirection) (x y : ℕ) (before after : Bundles)
      → received_on_chain d i + y < u64_mod
      → Event i (before ++ (d, x) ∷ after) (commit d x y i) (before ++ after)
  dropped :
      {i : Inventory} (d : ArbDirection) (x : ℕ) (before after : Bundles)
      → Event i (before ++ (d, x) ∷ after) (release d x i) (before ++ after)

pub data Events : Inventory → Bundles → Inventory → Bundles → Type 0 where
  none_left : {i : Inventory} {bs : Bundles} → Events i bs i bs
  one_more :
      {i j k : Inventory} {bs cs ds : Bundles}
      → Event i bs j cs
      → Events j cs k ds
      → Events i bs k ds

-- The reservations are exactly those of the bundles under way, and the balances cover them.
pub record IsBooked (i : Inventory) (bs : Bundles) : Type 0 where
  pub covered : IsCovered i
  pub usdc_booked : i.usdc_reserved_atoms ≡ buying bs
  pub sol_booked : i.sol_reserved_lamports ≡ selling bs

buying-remove :
    (d : ArbDirection) (x : ℕ) (xs ys : Bundles)
    → buying (xs ++ (d, x) ∷ ys) ≡ buying ((d, x) ∷ xs ++ ys)
buying-remove buy_on_dex x [] ys = refl
buying-remove sell_on_dex x [] ys = refl
buying-remove buy_on_dex x ((buy_on_dex, z) ∷ xs) ys =
    omega (arith, buying-remove buy_on_dex x xs ys)
buying-remove buy_on_dex x ((sell_on_dex, z) ∷ xs) ys =
    omega (arith, buying-remove buy_on_dex x xs ys)
buying-remove sell_on_dex x ((buy_on_dex, z) ∷ xs) ys =
    omega (arith, buying-remove sell_on_dex x xs ys)
buying-remove sell_on_dex x ((sell_on_dex, z) ∷ xs) ys =
    omega (arith, buying-remove sell_on_dex x xs ys)

selling-remove :
    (d : ArbDirection) (x : ℕ) (xs ys : Bundles)
    → selling (xs ++ (d, x) ∷ ys) ≡ selling ((d, x) ∷ xs ++ ys)
selling-remove buy_on_dex x [] ys = refl
selling-remove sell_on_dex x [] ys = refl
selling-remove buy_on_dex x ((buy_on_dex, z) ∷ xs) ys =
    omega (arith, selling-remove buy_on_dex x xs ys)
selling-remove buy_on_dex x ((sell_on_dex, z) ∷ xs) ys =
    omega (arith, selling-remove buy_on_dex x xs ys)
selling-remove sell_on_dex x ((buy_on_dex, z) ∷ xs) ys =
    omega (arith, selling-remove sell_on_dex x xs ys)
selling-remove sell_on_dex x ((sell_on_dex, z) ∷ xs) ys =
    omega (arith, selling-remove sell_on_dex x xs ys)

removed :
    (i : Inventory) (d : ArbDirection) (x : ℕ) (xs ys : Bundles)
    → IsBooked i (xs ++ (d, x) ∷ ys)
    → IsBooked i ((d, x) ∷ xs ++ ys)
removed i d x xs ys h = record {
  covered = h.covered;
  usdc_booked = rw (← buying-remove d x xs ys) h.usdc_booked;
  sol_booked = rw (← selling-remove d x xs ys) h.sol_booked;
}

reserve-IsBooked :
    (d : ArbDirection) (x : ℕ) (i : Inventory) (bs : Bundles)
    → x ≤ available d i
    → IsBooked i bs
    → IsBooked (reserve d x i) ((d, x) ∷ bs)
unfolding reserve fetch_add sol_lamports_available usdc_atoms_available
reserve-IsBooked buy_on_dex x i bs fits h =
    let (usdc, sol) : (i.usdc_reserved_atoms ≡ buying bs) × (i.sol_reserved_lamports ≡ selling bs) =
      (h.usdc_booked, h.sol_booked) in
    let (top, room) : (i.usdc_on_chain_atoms < 2 ^ 64)
        × (i.usdc_reserved_atoms ≤ i.usdc_on_chain_atoms) =
      (h.covered.usdc_fits, h.covered.usdc_covered) in
    record {
      covered = (reserve-IsCovered buy_on_dex x i h.covered fits).0;
      usdc_booked = omega arith;
      sol_booked = sol;
    }
reserve-IsBooked sell_on_dex x i bs fits h =
    let (usdc, sol) : (i.usdc_reserved_atoms ≡ buying bs) × (i.sol_reserved_lamports ≡ selling bs) =
      (h.usdc_booked, h.sol_booked) in
    let (top, room) : (i.sol_on_chain_lamports < 2 ^ 64)
        × (i.sol_reserved_lamports ≤ i.sol_on_chain_lamports) =
      (h.covered.sol_fits, h.covered.sol_covered) in
    record {
      covered = (reserve-IsCovered sell_on_dex x i h.covered fits).0;
      usdc_booked = usdc;
      sol_booked = omega arith;
    }

commit-IsBooked :
    (d : ArbDirection) (x y : ℕ) (i : Inventory) (bs : Bundles)
    → received_on_chain d i + y < u64_mod
    → IsBooked i ((d, x) ∷ bs)
    → IsBooked (commit d x y i) bs
unfolding commit fetch_add fetch_sub
commit-IsBooked buy_on_dex x y i bs fits h =
    let usdc : i.usdc_reserved_atoms ≡ x + buying bs = h.usdc_booked in
    let (good, spent, less, same, more) =
      commit-IsCovered buy_on_dex x y i h.covered (omega arith) fits in
    record { covered = good; usdc_booked = omega (arith, less); sol_booked = h.sol_booked }
commit-IsBooked sell_on_dex x y i bs fits h =
    let sol : i.sol_reserved_lamports ≡ x + selling bs = h.sol_booked in
    let (good, spent, less, same, more) =
      commit-IsCovered sell_on_dex x y i h.covered (omega arith) fits in
    record { covered = good; usdc_booked = h.usdc_booked; sol_booked = omega (arith, less) }

release-IsBooked :
    (d : ArbDirection) (x : ℕ) (i : Inventory) (bs : Bundles)
    → IsBooked i ((d, x) ∷ bs)
    → IsBooked (release d x i) bs
unfolding release fetch_sub
release-IsBooked buy_on_dex x i bs h =
    let usdc : i.usdc_reserved_atoms ≡ x + buying bs = h.usdc_booked in
    let (top, room) : (i.usdc_on_chain_atoms < 2 ^ 64)
        × (i.usdc_reserved_atoms ≤ i.usdc_on_chain_atoms) =
      (h.covered.usdc_fits, h.covered.usdc_covered) in
    record {
      covered = record {
        sol_fits = h.covered.sol_fits;
        usdc_fits = top;
        sol_covered = h.covered.sol_covered;
        usdc_covered = omega arith;
      };
      usdc_booked = omega arith;
      sol_booked = h.sol_booked;
    }
release-IsBooked sell_on_dex x i bs h =
    let sol : i.sol_reserved_lamports ≡ x + selling bs = h.sol_booked in
    let (top, room) : (i.sol_on_chain_lamports < 2 ^ 64)
        × (i.sol_reserved_lamports ≤ i.sol_on_chain_lamports) =
      (h.covered.sol_fits, h.covered.sol_covered) in
    record {
      covered = record {
        sol_fits = top;
        usdc_fits = h.covered.usdc_fits;
        sol_covered = omega arith;
        usdc_covered = h.covered.usdc_covered;
      };
      usdc_booked = h.usdc_booked;
      sol_booked = omega arith;
    }

Event-IsBooked :
    (i j : Inventory) (bs cs : Bundles) → Event i bs j cs → IsBooked i bs → IsBooked j cs
Event-IsBooked i j bs cs (dispatched d x fits) h = reserve-IsBooked d x i bs fits h
Event-IsBooked i j bs cs (landed d x y xs ys fits) h =
    commit-IsBooked d x y i (xs ++ ys) fits (removed i d x xs ys h)
Event-IsBooked i j bs cs (dropped d x xs ys) h =
    release-IsBooked d x i (xs ++ ys) (removed i d x xs ys h)

-- Over any sequence of dispatches that each reserve no more than is available, and of settlements of
-- bundles under way in any order, each committed (where the output fits its balance) or released
-- exactly once: the reservations are at every point those of the bundles under way, and the
-- balances cover them.
pub Events-IsBooked :
    (i j : Inventory) (bs cs : Bundles) → Events i bs j cs → IsBooked i bs → IsBooked j cs
Events-IsBooked i j bs cs none_left h = h
Events-IsBooked i j bs cs (one_more {j = k} {cs = ds} e rest) h =
    Events-IsBooked k j ds cs rest (Event-IsBooked i k bs ds e h)
