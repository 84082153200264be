-- ===== src/Parse/Tree.antt =====
-- The walk of src/mempool/parsers/phoenix.rs against the tree that the bytes hold.
use engine_mev.Base.{
  ℕ, zero, suc, ◌+◌, ◌-◌, ◌*◌, ◌<◌, ◌≤◌, ◌≡◌, refl, true, false, Option, none, some, List, [], ◌∷◌,
  ◌++◌, length, length-append, ◌==◌, ltb, arith,
}
use engine_mev.Base.Bytes.{Bytes}
use engine_mev.Base.Outcome.{ret}
use engine_mev.Base.Word.{u64_mod}
use engine_mev.Parse.{word_at}
use engine_mev.Parse.Phoenix.{saturating_mul, order_at, walk_left, phoenix_tree_best, add_usize}

-- A side of the book: the orders, each with its price and its lots, in the order of the tree.
pub data Book : Type 0 where
  leaf : Book
  node : Book → ℕ → ℕ → Book → Book

abbrev pub orders : Book → List (ℕ × ℕ)
orders leaf = []
orders (node l price lots r) = orders l ++ ((price, lots) ∷ orders r)

-- The length of the way along the left children.
abbrev pub spine : Book → ℕ
spine leaf = 0
spine (node l price lots r) = suc (spine l)

abbrev pub first_order : ℕ → List (ℕ × ℕ) → Option ℕ × ℕ
first_order base_lot_size [] = (none, 0)
first_order base_lot_size ((price, lots) ∷ rest) = (some price, saturating_mul lots base_lot_size)

first_append :
    (base_lot_size : ℕ) (xs ys : List (ℕ × ℕ))
    → 0 < length xs
    → first_order base_lot_size (xs ++ ys) ≡ first_order base_lot_size xs
first_append s [] ys h = absurd (omega (arith, h))
first_append s (x ∷ xs) ys h = refl

some_order : (l r : Book) (price lots : ℕ) → 0 < length (orders (node l price lots r))
some_order l r p q = omega (arith, length-append (orders l) ((p, q) ∷ orders r))

module _ (bytes : Bytes) (nodes_start : ℕ) where
  abbrev pub offset : ℕ → ℕ
  offset i = nodes_start + (i - 1) * 64

  -- The nodes from an index on hold a tree; 0 is the index of the empty one.
  abbrev pub Holds : Book → ℕ → Type 0
  Holds leaf i = i ≡ 0
  Holds (node l price lots r) i =
      (0 < i)
      × (offset i + 64 ≤ length bytes)
      × (word_at 8 (offset i + 16) bytes ≡ ret price)
      × (word_at 8 (offset i + 40) bytes ≡ ret lots)
      × ((left : ℕ) × (word_at 4 (offset i) bytes ≡ ret left) × Holds l left)
      × ((right : ℕ) × (word_at 4 (offset i + 4) bytes ≡ ret right) × Holds r right)

  walk_first :
      (book : Book) (base_lot_size fuel i : ℕ)
      → Holds book i
      → spine book ≤ fuel
      → walk_left fuel bytes base_lot_size nodes_start i
        ≡ ret (first_order base_lot_size (orders book))
  unfolding walk_left order_at
  walk_first leaf s zero i h k = refl
  walk_first leaf s (suc fuel) i h k = rw (h) refl
  walk_first (node l p q r) s zero i h k = absurd (omega (arith, k))
  walk_first (node l p q r) s (suc fuel) zero h k = absurd (omega (arith, h.0))
  walk_first (node leaf p q r) s (suc fuel) (suc n)
        (pos, fits, price, lots, (left, at, held), right) k =
      let inside : ltb (length bytes) (offset (suc n) + 64) ≡ false = ground arith in
      rw (inside, at, held, price, lots) refl
  walk_first (node (node l' p' q' r') p q r) s (suc fuel) (suc n)
        (pos, fits, price, lots, (left, at, held), right) k =
      let inside : ltb (length bytes) (offset (suc n) + 64) ≡ false = ground arith in
      let more : (left == 0) ≡ false = ground (arith, held.0) in
      rw
        (
          inside,
          at,
          more,
          first_append s (orders (node l' p' q' r')) ((p, q) ∷ orders r) (some_order l' r' p' q'),
        )
        (walk_first (node l' p' q' r') s fuel left held (omega (arith, k)))

-- Where the bytes from an offset on hold a tree of orders, the walk returns the price of its first
-- order and that order's lots in atoms, and nothing for the empty tree: for trees whose way to the
-- left has at most 1000 nodes, the bound that the code sets against corrupt data.
pub phoenix_tree_best-first_order :
    (bytes : Bytes) (tree_start base_lot_size root : ℕ) (book : Book)
    → tree_start + 32 < u64_mod
    → tree_start + 32 ≤ length bytes
    → word_at 4 tree_start bytes ≡ ret root
    → Holds bytes (tree_start + 32) book root
    → spine book ≤ 1_000
    → phoenix_tree_best bytes tree_start base_lot_size
      ≡ ret (first_order base_lot_size (orders book))
unfolding phoenix_tree_best add_usize
phoenix_tree_best-first_order bytes start s root book fits long at held short =
    let sum : ltb (start + 32) u64_mod ≡ true = ground arith in
    let inside : ltb (length bytes) (start + 32) ≡ false = ground arith in
    rw (sum, inside, at) (walk_first bytes (start + 32) book s 1_000 root held short)
