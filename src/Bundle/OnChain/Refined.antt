-- ===== src/Bundle/OnChain/Refined.antt =====
-- The guard's program against the route that the builder was given.
use engine_mev.Base.{ℕ, ◌<◌, ◌≡◌, refl, true, some, List, [], ◌∷◌, length, get_elem?, map, arith}
use engine_mev.Base.Outcome.{ret}
use engine_mev.Pool.{RouteHop, ArbRoute}
use engine_mev.Swap.{AccountMeta, SolanaSdk, account}
use engine_mev.Swap as Client
use engine_mev.Guard.{Result}
use engine_mev.Guard.Execute.{Store, Instruction, execute_hops, some_hops, execute_arb_v2}
use engine_mev.Bundle as Builder
use engine_mev.Bundle.{BundleBuilder, build_swap_instruction_with_min_out}
use engine_mev.Bundle.Execute.{build_hop_ixs, build_v2_params}
use engine_mev.Bundle.Placed.{ArePlaced, build_v2_params-ArePlaced}
use engine_mev.Bundle.OnChain.{info, mirrored, received_params, arbitrage, all_take_amount}
use engine_mev.Bundle.OnChain.Steps.{first_hop, hop_shape, last_output}

module _ (invoke : Instruction → Store → Result Store) (sdk : SolanaSdk) (b : BundleBuilder) where
  executed :
      (accounts : List AccountMeta) (hops : List Builder.HopV2Params) (hop : RouteHop)
      (rest : List RouteHop) (amount min_amount_out : ℕ)
      (pairs : List (RouteHop × Client.Instruction)) (st : Store)
      → get_elem? accounts 0 ≡ some (account b.signer true)
      → all_take_amount invoke sdk b rest ≡ true
      → build_hop_ixs sdk b amount min_amount_out (hop ∷ rest) ≡ ret pairs
      → ArePlaced sdk b accounts pairs hops
      → execute_arb_v2 invoke
          (map info accounts)
          (record { min_amount_out = min_amount_out; hops = map mirrored hops })
          st
        ≡ arbitrage invoke sdk b amount min_amount_out hop rest st
  unfolding execute_arb_v2 some_hops execute_hops arbitrage
  executed [] hops hop rest amount m pairs st signer t h placed = cc
  executed (x ∷ xs) [] hop rest amount m pairs st signer t h placed =
      let (ix, later, shape, more) = hop_shape invoke sdk b (x ∷ xs) hop rest amount m pairs h in
      absurd (rw (shape) at placed)
  executed (x ∷ xs) (p ∷ ps) hop rest amount m pairs st signer t h placed =
      let (a, at_i, same) =
        last_output invoke sdk b (x ∷ xs) hop rest amount m pairs p ps h placed in
      let signs : x.is_signer ≡ true = ground arith in
      rw
        (
          at_i,
          same,
          first_hop invoke sdk b (x ∷ xs) hop rest amount m pairs (p ∷ ps) st t h placed,
          signs,
        )
        refl

-- The guard's program, run on the instruction that the builder made for a route, does what the route
-- means: it swaps hop by hop, each swap being the one that the builder would build for the amount
-- that the one before it has brought in, and it compares the balances of the last output. For
-- instructions of fewer than 256 accounts, and routes whose hops after the first take their input
-- amount at the offset that the builder names.
pub execute_arb_v2-arbitrage :
    (invoke : Instruction → Store → Result Store) (sdk : SolanaSdk) (b : BundleBuilder)
    (route : ArbRoute) (hop : RouteHop) (rest : List RouteHop) (min_amount_out : ℕ)
    (accounts : List AccountMeta) (params : Builder.ArbV2Params) (st : Store)
    → route.hops ≡ hop ∷ rest
    → all_take_amount invoke sdk b rest ≡ true
    → build_v2_params sdk b route min_amount_out ≡ ret (accounts, params)
    → length accounts < 256
    → execute_arb_v2 invoke (map info accounts) (received_params params) st
      ≡ arbitrage invoke sdk b route.input_amount min_amount_out hop rest st
execute_arb_v2-arbitrage invoke sdk b route hop rest m accounts params st shape t h small =
    let (pairs, built, signer, placed, minimum) =
      build_v2_params-ArePlaced sdk b route m accounts params h small in
    rw (minimum) (
      executed invoke sdk b accounts params.hops hop rest route.input_amount m pairs st signer t
        (rw (← shape) built) placed)
