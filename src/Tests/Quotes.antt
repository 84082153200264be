-- ===== src/Tests/Quotes.antt =====
-- Quotes of constant-product pools and of order books.
use engine_mev.Base.{◌+◌, ◌-◌, ◌*◌, ◌/◌, ◌≤◌, ◌≡◌, refl, arith, true, false}
use engine_mev.Base.Outcome.{ret}
use engine_mev.Base.Word.{checked_add, checked_mul, checked_sub, checked_div}
use engine_mev.Pool.{DexType, PoolState, has_token, other_token, is_a_to_b}
use engine_mev.Quote.Cpmm
use engine_mev.Quote.Cpmm.{swap_output, reserve_in, reserve_out}
use engine_mev.Quote.Cpmm.Laws.{constant_product, quote_total, quote_round_trip, after_a_to_b}
use engine_mev.Quote.Manifest
use engine_mev.Quote.OrderBook.{phoenix_round_trip}
use engine_mev.Quote.Phoenix
use engine_mev.Tests.Data.{amm, book}

abbrev pool : PoolState
pool = amm 10 1 2 1_000_000 2_000_000

program : Unit {0}
unfolding Cpmm.quote swap_output reserve_in reserve_out checked_add checked_mul checked_sub
    checked_div Phoenix.quote Phoenix.after_fee Phoenix.sell Phoenix.buy Manifest.quote
    Manifest.after_fee Manifest.sell Manifest.buy has_token other_token is_a_to_b
program = tt

quoted : Cpmm.quote pool 10_000 true ≡ ret 19_752
unfolding program
quoted = refl

quoted_twice : Cpmm.quote pool 20_000 true ≡ ret 39_119
unfolding program
quoted_twice = refl

quoted_back : Cpmm.quote (after_a_to_b pool 10_000 19_752) 19_752 false ≡ ret 9_950
unfolding program
quoted_back = refl

constant_product_example :
    reserve_in pool true * reserve_out pool true
    ≤ (reserve_in pool true + 10_000) * (reserve_out pool true - 19_752)
constant_product_example = constant_product pool 10_000 true quoted

quote_total_example :
    Cpmm.quote pool 10_000 true ≡ ret (2_000_000 * 99_750_000 / (1_000_000 * 10_000 + 99_750_000))
unfolding program
quote_total_example =
    quote_total pool 10_000 true (omega arith) (omega arith) (omega arith) (omega arith)
      (omega arith)

quote_round_trip_example : 9_950 ≤ 10_000
quote_round_trip_example = quote_round_trip pool 10_000 quoted quoted_back

abbrev phoenix_book : PoolState
phoenix_book = book DexType.phoenix 900 910

bought : Phoenix.quote phoenix_book 1_000_000 false ≡ ret 1_098
unfolding program
bought = refl

sold : Phoenix.quote phoenix_book 1_098 true ≡ ret 987_300
unfolding program
sold = refl

phoenix_round_trip_example : 987_300 ≤ 1_000_000
phoenix_round_trip_example =
    phoenix_round_trip phoenix_book 1_000_000 refl refl (omega arith) bought sold

abbrev manifest_book : PoolState
manifest_book = book DexType.manifest 900_000_000_000_000_000 910_000_000_000_000_000

bought_scaled : Manifest.quote manifest_book 1_000_000 false ≡ ret 1_098_681
unfolding program
bought_scaled = refl

sold_scaled : Manifest.quote manifest_book 1_098_681 true ≡ ret 900_000
unfolding program
sold_scaled = refl
