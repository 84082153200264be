-- ===== src/Base/Sort.antt =====
-- `filter`, `retain` and the stable `sort_by`, with tests into Bool.
use Prim.Native.Nat.{suc}
use mathlib.Core.Path.{◌≡◌, refl}
use mathlib.Core.Bool.{Bool, true, false}
use mathlib.Core.List.{List, [], ◌∷◌}
use native.Mathlib.Omega.{arith}
use engine_mev.Base.Tests.{if◌then◌else◌}
use engine_mev.Base.Lists.{length, All}

module _ {ℓ} {A : Type ℓ} where
  unfoldable pub retain : (A → Bool) → List A → List A
  retain keep [] = []
  retain keep (x ∷ xs) = let rest = retain keep xs in if keep x then x ∷ rest else rest

  -- `x` goes before the first element that does not sort strictly before it.
  unfoldable pub insert_by : (A → A → Bool) → A → List A → List A
  insert_by before x [] = x ∷ []
  insert_by before x (y ∷ ys) =
      let rest = insert_by before x ys in if before y x then y ∷ rest else x ∷ y ∷ ys

  unfoldable pub sort_by : (A → A → Bool) → List A → List A
  sort_by before [] = []
  sort_by before (x ∷ xs) = insert_by before x (sort_by before xs)

  pub length-insert_by :
      (before : A → A → Bool) (x : A) (xs : List A)
      → length (insert_by before x xs) ≡ suc (length xs)
  unfolding insert_by
  length-insert_by before x [] = omega arith
  length-insert_by before x (y ∷ ys) = ground (arith, length-insert_by before x ys)

  pub length-sort_by :
      (before : A → A → Bool) (xs : List A) → length (sort_by before xs) ≡ length xs
  unfolding sort_by
  length-sort_by before [] = omega arith
  length-sort_by before (x ∷ xs) =
      omega (arith, length-insert_by before x (sort_by before xs), length-sort_by before xs)

module _ {ℓ κ} {A : Type ℓ} (P : A → Type κ) where
  All-insert_by :
      (before : A → A → Bool) (x : A) (xs : List A) → P x → All P xs → All P (insert_by before x xs)
  unfolding insert_by
  All-insert_by before x [] p ps = (p, ps)
  All-insert_by before x (y ∷ ys) p ps =
      elim (before y x) as (λ b. All P (if b then y ∷ insert_by before x ys else x ∷ y ∷ ys)) [
        | true ↦ (ps.0, All-insert_by before x ys p ps.1)
        | false ↦ (p, ps)
      ]

  pub All-sort_by : (before : A → A → Bool) (xs : List A) → All P xs → All P (sort_by before xs)
  unfolding sort_by
  All-sort_by before [] ps = ps
  All-sort_by before (x ∷ xs) ps =
      All-insert_by before x (sort_by before xs) ps.0 (All-sort_by before xs ps.1)

-- No element sorts strictly before an earlier one.
abbrev pub Ordered {ℓ} : {A : Type ℓ} → (A → A → Bool) → List A → Type 0
Ordered before [] = Unit
Ordered before (x ∷ xs) = All (λ y. before y x ≡ false) xs × Ordered before xs

module _ {ℓ} {A : Type ℓ} (before : A → A → Bool)
    (asym : (x y : A) → before y x ≡ true → before x y ≡ false)
    (trans : (x y z : A) → before y x ≡ false → before z y ≡ false → before z x ≡ false) where
  behind :
      (x y : A) (ys : List A)
      → before y x ≡ false
      → All (λ z. before z y ≡ false) ys
      → All (λ z. before z x ≡ false) ys
  behind x y [] h hs = tt
  behind x y (z ∷ zs) h hs = (trans x y z h hs.0, behind x y zs h hs.1)

  insert_by-Ordered :
      (x : A) (xs : List A) → Ordered before xs → Ordered before (insert_by before x xs)
  unfolding insert_by
  insert_by-Ordered x [] h = (tt, tt)
  insert_by-Ordered x (y ∷ ys) h =
      elim (before y x)
          as (λ b.
            before y x ≡ b → Ordered before (if b then y ∷ insert_by before x ys else x ∷ y ∷ ys)) [
              | true ↦ λ e. (
                All-insert_by (λ z. before z y ≡ false) before x ys (asym x y e) h.0,
                insert_by-Ordered x ys h.1,
              )
              | false ↦ λ e. ((e, behind x y ys e h.0), h)
            ]
        refl

  pub sort_by-Ordered : (xs : List A) → Ordered before (sort_by before xs)
  unfolding sort_by
  sort_by-Ordered [] = tt
  sort_by-Ordered (x ∷ xs) = insert_by-Ordered x (sort_by before xs) (sort_by-Ordered xs)
