-- ===== src/Quote/OrderBook.antt =====
-- What the two order-book quotes guarantee: depth, price, and no gain from buying and selling back.
use native.Mathlib.Nat.{div-mul-le_self}
use engine_mev.Base.{ℕ, ◌-◌, ◌*◌, ◌/◌, ◌≤◌, ◌<◌, ◌≡◌, true, false, some, arith, min}
use engine_mev.Base.Outcome.{ret, >>=-eq_ret}
use engine_mev.Base.Word.{u64_mod, checked_mul, checked_sub, checked_div, mul-le}
use engine_mev.Pool.{PoolState}
use engine_mev.Quote.Phoenix
use engine_mev.Quote.Manifest
use engine_mev.Quote.Manifest.{d18}

phoenix_fee : (p : PoolState) (x : ℕ) {n : ℕ} → Phoenix.after_fee p x ≡ ret n → n ≤ x
unfolding Phoenix.after_fee checked_sub checked_mul checked_div
phoenix_fee p x h = ground (arith, mul-le (10_000 - p.fee_bps) 10_000 x)

manifest_fee : (p : PoolState) (x : ℕ) {n : ℕ} → Manifest.after_fee p x ≡ ret n → n ≤ x
unfolding Manifest.after_fee checked_sub checked_mul checked_div
manifest_fee p x h = ground (arith, mul-le (10_000 - p.fee_bps) 10_000 x)

pub phoenix_sell :
    (p : PoolState) (x : ℕ) {y : ℕ}
    → Phoenix.sell p x ≡ ret y
    → (bid : ℕ) × (p.best_bid_price ≡ some bid)
      × (y ≡ min x p.token_a_reserve * bid)
      × (y < u64_mod)
unfolding Phoenix.sell checked_mul
phoenix_sell p x h = ground arith

pub phoenix_buy :
    (p : PoolState) (x : ℕ) {y : ℕ}
    → Phoenix.buy p x ≡ ret y
    → (ask : ℕ) × (p.best_ask_price ≡ some ask)
      × (y ≡ min (x / ask) p.token_b_reserve)
      × (y < u64_mod)
unfolding Phoenix.buy checked_div
phoenix_buy p x h = ground arith

pub manifest_sell :
    (p : PoolState) (x : ℕ) {y : ℕ}
    → Manifest.sell p x ≡ ret y
    → (bid : ℕ) × (p.best_bid_price ≡ some bid)
      × (y ≡ min x p.token_a_reserve * bid / d18)
      × (y < u64_mod)
unfolding Manifest.sell checked_mul checked_div
manifest_sell p x h = ground arith

pub manifest_buy :
    (p : PoolState) (x : ℕ) {y : ℕ}
    → Manifest.buy p x ≡ ret y
    → (ask : ℕ) × (p.best_ask_price ≡ some ask)
      × (y ≡ min (x * d18 / ask) p.token_b_reserve)
      × (y < u64_mod)
unfolding Manifest.buy checked_mul checked_div
manifest_buy p x h = ground arith

quote-sell :
    (p : PoolState) (x : ℕ) {y : ℕ}
    → Phoenix.quote p x true ≡ ret y
    → (n : ℕ) × (n ≤ x) × (Phoenix.sell p n ≡ ret y)
unfolding Phoenix.quote
quote-sell p x h =
    let (n, fee, rest) = >>=-eq_ret (Phoenix.after_fee p x) _ h in (n, phoenix_fee p x fee, rest)

quote-buy :
    (p : PoolState) (x : ℕ) {y : ℕ}
    → Phoenix.quote p x false ≡ ret y
    → (n : ℕ) × (n ≤ x) × (Phoenix.buy p n ≡ ret y)
unfolding Phoenix.quote
quote-buy p x h =
    let (n, fee, rest) = >>=-eq_ret (Phoenix.after_fee p x) _ h in (n, phoenix_fee p x fee, rest)

manifest_quote-sell :
    (p : PoolState) (x : ℕ) {y : ℕ}
    → Manifest.quote p x true ≡ ret y
    → (n : ℕ) × (n ≤ x) × (Manifest.sell p n ≡ ret y)
unfolding Manifest.quote
manifest_quote-sell p x h =
    let (n, fee, rest) = >>=-eq_ret (Manifest.after_fee p x) _ h in (n, manifest_fee p x fee, rest)

manifest_quote-buy :
    (p : PoolState) (x : ℕ) {y : ℕ}
    → Manifest.quote p x false ≡ ret y
    → (n : ℕ) × (n ≤ x) × (Manifest.buy p n ≡ ret y)
unfolding Manifest.quote
manifest_quote-buy p x h =
    let (n, fee, rest) = >>=-eq_ret (Manifest.after_fee p x) _ h in (n, manifest_fee p x fee, rest)

-- `min n depth * bid` at prices that do not cross, for an `n` that was bought at `ask`.
sold_back : (n depth m r bid ask : ℕ) → bid ≤ ask → n ≤ m → m ≤ r / ask → min n depth * bid ≤ r
sold_back n depth m r bid ask cross le bought = omega (
  arith,
  mul-le bid ask (min n depth) cross,
  mul-le (min n depth) (r / ask) ask (omega arith),
  div-mul-le_self r ask,
)

-- On one Phoenix book whose best bid is at most its best ask, buying base and selling the whole
-- output back returns at most the quote tokens that were spent.
pub phoenix_round_trip :
    (p : PoolState) (x : ℕ) {bid ask y z : ℕ}
    → p.best_bid_price ≡ some bid
    → p.best_ask_price ≡ some ask
    → bid ≤ ask
    → Phoenix.quote p x false ≡ ret y
    → Phoenix.quote p y true ≡ ret z
    → z ≤ x
phoenix_round_trip p x {bid} {ask} {y} {z} hb ha cross bought sold =
    let (n, n_le, buys) = quote-buy p x bought in
    let (m, m_le, sells) = quote-sell p y sold in
    let (ask', ea, ey, _) = phoenix_buy p n buys in
    let (bid', eb, ez, _) = phoenix_sell p m sells in
    let same_ask : ask' ≡ ask = cc in
    let same_bid : bid' ≡ bid = cc in
    let ey' : y ≡ min (n / ask) p.token_b_reserve = rw same_ask at ey in
    let ez' : z ≡ min m p.token_a_reserve * bid = rw same_bid at ez in
    omega (arith, sold_back m p.token_a_reserve y n bid ask cross m_le (omega arith))

-- On one Manifest book, whose prices are scaled by 10^18, and whose best bid is at most its best ask,
-- buying base and selling the whole output back returns at most the quote tokens that were spent.
pub manifest_round_trip :
    (p : PoolState) (x : ℕ) {bid ask y z : ℕ}
    → p.best_bid_price ≡ some bid
    → p.best_ask_price ≡ some ask
    → bid ≤ ask
    → Manifest.quote p x false ≡ ret y
    → Manifest.quote p y true ≡ ret z
    → z ≤ x
manifest_round_trip p x {bid} {ask} {y} {z} hb ha cross bought sold =
    let (n, n_le, buys) = manifest_quote-buy p x bought in
    let (m, m_le, sells) = manifest_quote-sell p y sold in
    let (ask', ea, ey, _) = manifest_buy p n buys in
    let (bid', eb, ez, _) = manifest_sell p m sells in
    let same_ask : ask' ≡ ask = cc in
    let same_bid : bid' ≡ bid = cc in
    let ey' : y ≡ min (n * d18 / ask) p.token_b_reserve = rw same_ask at ey in
    let ez' : z ≡ min m p.token_a_reserve * bid / d18 = rw same_bid at ez in
    omega (arith, sold_back m p.token_a_reserve y (n * d18) bid ask cross m_le (omega arith))
