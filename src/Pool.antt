-- ===== src/Pool.antt =====
-- The pool state and the routes of src/router/pool.rs: the records that the quoting code, the
-- cache, the route search and the simulator share, and the methods that read them. A `Pubkey` is
-- the number that its 32 bytes spell, first byte highest, so that the order of keys is the order of
-- numbers. Integers of the program stand as numbers (unsigned) or as ℤ (signed).
use engine_mev.Base.{
  ℕ, Bool, true, false, Option, none, some, List, [], ◌∷◌, length, ◌==◌, ◌||◌, ◌&&◌, if◌then◌else◌,
}
use engine_mev.Base.Int.{ℤ, pos, ltb_ℤ}

abbrev pub Pubkey : Type 0
Pubkey = ℕ

pub data DexType : Type 0 where
  raydium_amm raydium_clmm raydium_cp orca_whirlpool meteora_dlmm meteora_damm_v2 : DexType
  sanctum_infinity phoenix manifest pump_swap : DexType

unfoldable pub base_fee_bps : DexType → ℕ
base_fee_bps raydium_amm = 25
base_fee_bps raydium_clmm = 25
base_fee_bps raydium_cp = 25
base_fee_bps orca_whirlpool = 1
base_fee_bps meteora_dlmm = 1
base_fee_bps meteora_damm_v2 = 15
base_fee_bps sanctum_infinity = 3
base_fee_bps phoenix = 2
base_fee_bps manifest = 0
base_fee_bps pump_swap = 125

pub record ClmmTick : Type 0 where
  pub tick_index : ℤ
  pub liquidity_net : ℤ
  pub liquidity_gross : ℕ

pub record ClmmTickArray : Type 0 where
  pub start_tick_index : ℤ
  pub ticks : List ClmmTick

pub record DlmmBin : Type 0 where
  pub amount_x : ℕ
  pub amount_y : ℕ
  pub price_q64 : ℕ

abbrev pub dlmm_max_bin_per_array : ℕ
dlmm_max_bin_per_array = 70

pub record DlmmBinArray : Type 0 where
  pub index : ℤ
  pub bins : List DlmmBin

pub record PoolExtra : Type 0 where
  pub vault_a : Option Pubkey
  pub vault_b : Option Pubkey
  pub config : Option Pubkey
  pub token_program_a : Option Pubkey
  pub token_program_b : Option Pubkey
  pub tick_spacing : Option ℕ
  pub observation : Option Pubkey
  pub bitmap_extension : Option Pubkey
  pub open_orders : Option Pubkey
  pub market : Option Pubkey
  pub market_program : Option Pubkey
  pub target_orders : Option Pubkey
  pub amm_nonce : Option ℕ
  pub coin_creator : Option Pubkey
  pub is_mayhem_mode : Option Bool
  pub is_cashback_coin : Option Bool

pub record PoolState : Type 0 where
  pub address : Pubkey
  pub dex_type : DexType
  pub token_a_mint : Pubkey
  pub token_b_mint : Pubkey
  pub token_a_reserve : ℕ
  pub token_b_reserve : ℕ
  pub fee_bps : ℕ
  pub current_tick : Option ℤ
  pub sqrt_price_x64 : Option ℕ
  pub liquidity : Option ℕ
  pub last_slot : ℕ
  pub extra : PoolExtra
  pub best_bid_price : Option ℕ
  pub best_ask_price : Option ℕ

unfoldable pub has_token : PoolState → Pubkey → Bool
has_token p mint = p.token_a_mint == mint || p.token_b_mint == mint

unfoldable pub other_token : PoolState → Pubkey → Option Pubkey
other_token p mint =
    if p.token_a_mint == mint
    then some p.token_b_mint
    else if p.token_b_mint == mint
    then some p.token_a_mint
    else none

unfoldable pub is_a_to_b : PoolState → Pubkey → Option Bool
is_a_to_b p input_mint =
    if p.token_a_mint == input_mint
    then some true
    else if p.token_b_mint == input_mint
    then some false
    else none

pub record RouteHop : Type 0 where
  pub pool_address : Pubkey
  pub dex_type : DexType
  pub input_mint : Pubkey
  pub output_mint : Pubkey
  pub estimated_output : ℕ

pub record ArbRoute : Type 0 where
  pub hops : List RouteHop
  pub base_mint : Pubkey
  pub input_amount : ℕ
  pub estimated_profit : ℤ
  pub estimated_profit_lamports : ℕ

unfoldable pub is_profitable : ArbRoute → Bool
is_profitable r = ltb_ℤ (pos 0) r.estimated_profit

unfoldable pub hop_count : ArbRoute → ℕ
hop_count r = length r.hops

-- `self.hops.last().unwrap().output_mint`, after the first hop.
unfoldable pub last_output : RouteHop → List RouteHop → Pubkey
last_output h [] = h.output_mint
last_output h (h' ∷ rest) = last_output h' rest

-- The body of `is_circular` over the list of hops.
unfoldable pub hops_circular : List RouteHop → Pubkey → Bool
unfolding last_output
hops_circular [] base = false
hops_circular (h ∷ rest) base = h.input_mint == last_output h rest && h.input_mint == base

unfoldable pub is_circular : ArbRoute → Bool
unfolding hops_circular
is_circular r = hops_circular r.hops r.base_mint
