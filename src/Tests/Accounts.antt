-- ===== src/Tests/Accounts.antt =====
-- Account bytes: a tree of orders, and a pool.
use engine_mev.Base.{ℕ, ◌^◌, ◌≡◌, refl, arith, Bool, true, some, [], ◌∷◌, ◌++◌, length, ltb, ◌&&◌}
use engine_mev.Base.Bytes.{
  Bytes, IsBytes, to_le_bytes, from_le_bytes, to_be_bytes, be_value, from_be_bytes,
}
use engine_mev.Base.Outcome.{ret}
use engine_mev.Parse.{bytes_at, word_at, key_at, i32_at, byte_at}
use engine_mev.Parse.Clmm.{parse_orca_whirlpool, parse_raydium_clmm, parse_meteora_damm_v2}
use engine_mev.Parse.InRange.{Gives, Any}
use engine_mev.Parse.Manifest.{parse_manifest_market}
use engine_mev.Parse.Nonce.{parse_nonce}
use engine_mev.Parse.Phoenix.{phoenix_tree_best, walk_left, order_at, saturating_mul, add_usize}
use engine_mev.Parse.Reserves.{HasU64Reserves, WithU64Reserves, parsed-Gives}
use engine_mev.Parse.Tree.{Book, leaf, node, orders, first_order, phoenix_tree_best-first_order}
use engine_mev.Parse.Vaults.{parse_raydium_cp, parse_pumpswap}

program : Unit {0}
unfolding to_le_bytes from_le_bytes to_be_bytes be_value from_be_bytes bytes_at word_at key_at
    i32_at byte_at phoenix_tree_best walk_left order_at saturating_mul add_usize parse_nonce
program = tt

-- A node with its left and right child, its price and its lots.
abbrev node_bytes : ℕ → ℕ → ℕ → ℕ → Bytes
node_bytes left right price lots =
    to_le_bytes 4 left
    ++ (to_le_bytes 4 right
        ++ (to_le_bytes 8 0
            ++ (to_le_bytes 8 price
                ++ (to_le_bytes 16 0 ++ (to_le_bytes 8 lots ++ to_le_bytes 16 0)))))

-- The header with the root, then the root and its left child.
abbrev tree_bytes : Bytes
tree_bytes = to_le_bytes 4 1 ++ (to_le_bytes 28 0 ++ (node_bytes 2 0 10 3 ++ node_bytes 0 0 7 5))

abbrev two_orders : Book
two_orders = node (node leaf 7 5 leaf) 10 3 leaf

long_enough : length tree_bytes ≡ 160
unfolding program
long_enough = refl

left_root : word_at 4 0 tree_bytes ≡ ret 1
unfolding program
left_root = refl

root_price : word_at 8 48 tree_bytes ≡ ret 10
unfolding program
root_price = refl

root_lots : word_at 8 72 tree_bytes ≡ ret 3
unfolding program
root_lots = refl

root_left : word_at 4 32 tree_bytes ≡ ret 2
unfolding program
root_left = refl

root_right : word_at 4 36 tree_bytes ≡ ret 0
unfolding program
root_right = refl

child_price : word_at 8 112 tree_bytes ≡ ret 7
unfolding program
child_price = refl

child_lots : word_at 8 136 tree_bytes ≡ ret 5
unfolding program
child_lots = refl

child_left : word_at 4 96 tree_bytes ≡ ret 0
unfolding program
child_left = refl

child_right : word_at 4 100 tree_bytes ≡ ret 0
unfolding program
child_right = refl

phoenix_tree_best-first_order_example :
    phoenix_tree_best tree_bytes 0 1_000 ≡ ret (first_order 1_000 (orders two_orders))
phoenix_tree_best-first_order_example =
    phoenix_tree_best-first_order tree_bytes 0 1_000 1 two_orders (omega arith)
      (omega (arith, long_enough)) left_root
      (
        omega arith,
        omega (arith, long_enough),
        root_price,
        root_lots,
        (
          2,
          root_left,
          (
            omega arith,
            omega (arith, long_enough),
            child_price,
            child_lots,
            (0, child_left, refl),
            (0, child_right, refl),
          ),
        ),
        (0, root_right, refl),
      )
      (omega arith)

best_is_child : phoenix_tree_best tree_bytes 0 1_000 ≡ ret (some 7, 5_000)
unfolding program
best_is_child = refl

abbrev bytes_only : Bytes → Bool
bytes_only [] = true
bytes_only (b ∷ bs) = ltb b 256 && bytes_only bs

checked_bytes : (bs : Bytes) → bytes_only bs ≡ true → IsBytes bs
checked_bytes [] h = tt
checked_bytes (b ∷ bs) h = (ground arith, checked_bytes bs (ground arith))

-- An account of 300 bytes.
abbrev pool_bytes : Bytes
pool_bytes = to_be_bytes 300 (3 ^ 1_400)

only_bytes : bytes_only pool_bytes ≡ true
unfolding program
only_bytes = refl

parsed-Gives_example :
    (Gives HasU64Reserves (parse_orca_whirlpool 5 pool_bytes 9))
    × (Gives HasU64Reserves (parse_raydium_clmm 5 pool_bytes 9))
    × (Gives HasU64Reserves (parse_meteora_damm_v2 5 pool_bytes 9))
    × (Gives WithU64Reserves (parse_raydium_cp 5 pool_bytes 9))
    × (Gives WithU64Reserves (parse_pumpswap 5 pool_bytes 9))
    × (Gives HasU64Reserves (parse_manifest_market 5 pool_bytes 9))
    × (Gives Any (parse_nonce pool_bytes))
parsed-Gives_example = parsed-Gives 5 pool_bytes 9 (checked_bytes pool_bytes only_bytes)

-- An initialised nonce account: the tags, the authority and the hash.
nonce_parsed :
    parse_nonce (to_le_bytes 4 1 ++ (to_le_bytes 4 1 ++ (to_be_bytes 32 77 ++ to_be_bytes 32 88)))
    ≡ ret (77, 88)
unfolding program
nonce_parsed = refl
