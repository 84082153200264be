-- ===== src/Parse/Reserves.antt =====
-- What the parsers give: no panic, and reserves of 64 bits, as the quoting code needs them.
use engine_mev.Base.{
  ℕ, ◌+◌, ◌<◌, ◌≤◌, Bool, true, false, not, Option, length, ◌==◌, ◌||◌, ltb, Bool-cases, inl, inr,
  arith,
}
use engine_mev.Base.Bytes.{Bytes, IsBytes}
use engine_mev.Base.Word.{u64_mod}
use engine_mev.Pool.{Pubkey, PoolState}
use engine_mev.Parse.{word_at, byte_at, saturate_u64, approx_reserves_from_sqrt_price}
use engine_mev.Parse.InRange.{
  word_then, key_then, i32_then, Gives, Any, >>=-Gives, reject_if-Gives, word_at-Gives,
  byte_at-Gives,
}
use engine_mev.Parse.Clmm.{
  parse_orca_whirlpool, parse_raydium_clmm, parse_meteora_damm_v2, damm_reserves,
}
use engine_mev.Parse.Vaults.{parse_raydium_cp, parse_pumpswap, flag_at}
use engine_mev.Parse.Manifest.{parse_manifest_market, manifest_read_order}
use engine_mev.Parse.Nonce.{parse_nonce}

-- Both reserves of a pool are 64-bit numbers.
abbrev pub HasU64Reserves : PoolState → Type 0
HasU64Reserves p = (p.token_a_reserve < u64_mod) × (p.token_b_reserve < u64_mod)

abbrev pub WithU64Reserves : PoolState × (Pubkey × Pubkey) → Type 0
WithU64Reserves r = HasU64Reserves r.0

abbrev Fitting : ℕ × ℕ → Type 0
Fitting r = (r.0 < u64_mod) × (r.1 < u64_mod)

approx-Fitting : (s l : ℕ) → Fitting (approx_reserves_from_sqrt_price s l)
unfolding approx_reserves_from_sqrt_price saturate_u64
approx-Fitting s l = ground arith

module _ (pool_address : Pubkey) (bytes : Bytes) (slot : ℕ) where
  orca-Gives : Gives HasU64Reserves (parse_orca_whirlpool pool_address bytes slot)
  unfolding parse_orca_whirlpool
  orca-Gives = reject_if-Gives HasU64Reserves (ltb (length bytes) 245) _ λ short.
      let long : 245 ≤ length bytes = ground arith in
      word_then bytes HasU64Reserves 2 41 _ (omega (arith, long)) λ _.
        word_then bytes HasU64Reserves 16 49 _ (omega (arith, long)) λ liquidity.
          word_then bytes HasU64Reserves 16 65 _ (omega (arith, long)) λ price.
            i32_then bytes HasU64Reserves 81 _ (omega (arith, long)) λ _.
              key_then bytes HasU64Reserves 101 _ (omega (arith, long)) λ _.
                key_then bytes HasU64Reserves 181 _ (omega (arith, long)) λ _.
                  word_then bytes HasU64Reserves 2 45 _ (omega (arith, long)) λ _.
                    key_then bytes HasU64Reserves 133 _ (omega (arith, long)) λ _.
                      key_then bytes HasU64Reserves 213 _ (omega (arith, long))
                        λ _. approx-Fitting price liquidity

  raydium_clmm-Gives : Gives HasU64Reserves (parse_raydium_clmm pool_address bytes slot)
  unfolding parse_raydium_clmm
  raydium_clmm-Gives = reject_if-Gives HasU64Reserves (ltb (length bytes) 273) _ λ short.
      let long : 273 ≤ length bytes = ground arith in
      key_then bytes HasU64Reserves 9 _ (omega (arith, long)) λ _.
        key_then bytes HasU64Reserves 73 _ (omega (arith, long)) λ _.
          key_then bytes HasU64Reserves 105 _ (omega (arith, long)) λ _.
            key_then bytes HasU64Reserves 201 _ (omega (arith, long)) λ _.
              word_then bytes HasU64Reserves 2 235 _ (omega (arith, long)) λ _.
                word_then bytes HasU64Reserves 16 237 _ (omega (arith, long)) λ liquidity.
                  word_then bytes HasU64Reserves 16 253 _ (omega (arith, long)) λ price.
                    i32_then bytes HasU64Reserves 269 _ (omega (arith, long)) λ _.
                      key_then bytes HasU64Reserves 137 _ (omega (arith, long)) λ _.
                        key_then bytes HasU64Reserves 169 _ (omega (arith, long))
                          λ _. approx-Fitting price liquidity

  cp-Gives : Gives WithU64Reserves (parse_raydium_cp pool_address bytes slot)
  unfolding parse_raydium_cp
  cp-Gives = reject_if-Gives WithU64Reserves (ltb (length bytes) 296) _ λ short.
      let long : 296 ≤ length bytes = ground arith in
      key_then bytes WithU64Reserves 8 _ (omega (arith, long)) λ _.
        key_then bytes WithU64Reserves 72 _ (omega (arith, long)) λ _.
          key_then bytes WithU64Reserves 104 _ (omega (arith, long)) λ _.
            key_then bytes WithU64Reserves 168 _ (omega (arith, long)) λ _.
              key_then bytes WithU64Reserves 200 _ (omega (arith, long)) λ _.
                key_then bytes WithU64Reserves 232 _ (omega (arith, long)) λ _.
                  key_then bytes WithU64Reserves 264 _ (omega (arith, long))
                    λ _. (omega arith, omega arith)

  flag_at-Gives : (i : ℕ) → Gives Any (flag_at i bytes)
  unfolding flag_at
  flag_at-Gives i = elim (Bool-cases (ltb i (length bytes))) [
    | inl e ↦
        rw (e, flag_at)
          (>>=-Gives Any Any (byte_at i bytes) _ (byte_at-Gives bytes i (ground arith)) λ _ _. tt)
    | inr e ↦ rw (e, flag_at) tt
  ]

  pumpswap-Gives : Gives WithU64Reserves (parse_pumpswap pool_address bytes slot)
  unfolding parse_pumpswap
  pumpswap-Gives = reject_if-Gives WithU64Reserves (ltb (length bytes) 243) _ λ short.
      let long : 243 ≤ length bytes = ground arith in
      word_then bytes WithU64Reserves 8 0 _ (omega (arith, long)) λ d.
        reject_if-Gives WithU64Reserves (not (d == 0xbc6db111046d9af1)) _ λ e1.
          key_then bytes WithU64Reserves 43 _ (omega (arith, long)) λ _.
            key_then bytes WithU64Reserves 75 _ (omega (arith, long)) λ _.
              key_then bytes WithU64Reserves 139 _ (omega (arith, long)) λ _.
                key_then bytes WithU64Reserves 171 _ (omega (arith, long)) λ _.
                  key_then bytes WithU64Reserves 211 _ (omega (arith, long)) λ _.
                    >>=-Gives WithU64Reserves Any (flag_at 243 bytes) _ (flag_at-Gives 243) λ _ _.
                      >>=-Gives WithU64Reserves Any (flag_at 244 bytes) _ (flag_at-Gives 244)
                        λ _ _. (omega arith, omega arith)

  nonce-Gives : Gives Any (parse_nonce bytes)
  unfolding parse_nonce
  nonce-Gives = reject_if-Gives Any (ltb (length bytes) 72) _ λ short.
      let long : 72 ≤ length bytes = ground arith in
      word_then bytes Any 4 0 _ (omega (arith, long)) λ v. reject_if-Gives Any (ltb 1 v) _ λ e1.
        word_then bytes Any 4 4 _ (omega (arith, long)) λ s.
          reject_if-Gives Any (not (s == 1)) _ λ e2.
            key_then bytes Any 8 _ (omega (arith, long))
              λ _. key_then bytes Any 40 _ (omega (arith, long)) λ _. tt

  module _ (are_bytes : IsBytes bytes) where
    u64_at-Gives :
        (start : ℕ) → start + 8 ≤ length bytes → Gives (λ w. w < u64_mod) (word_at 8 start bytes)
    u64_at-Gives = word_at-Gives bytes are_bytes 8

    abbrev FirstFitting : ℕ × ℕ × Option ℕ × Option ℕ → Type 0
    FirstFitting r = (r.0 < u64_mod) × (r.1 < u64_mod)

    damm_reserves-Gives :
        (b : Bool) → 696 ≤ length bytes → Gives FirstFitting (damm_reserves b bytes)
    unfolding damm_reserves
    damm_reserves-Gives true long =
        >>=-Gives FirstFitting _ (word_at 8 680 bytes) _ (u64_at-Gives 680 (omega (arith, long)))
          λ ra fa.
            >>=-Gives FirstFitting _ (word_at 8 688 bytes) _
              (u64_at-Gives 688 (omega (arith, long))) λ rb fb. (fa, fb)
    damm_reserves-Gives false long = reject_if-Gives FirstFitting (ltb (length bytes) 472) _ λ e.
        word_then bytes FirstFitting 16 360 _ (omega (arith, long)) λ liq.
          word_then bytes FirstFitting 16 456 _ (omega (arith, long))
            λ price. approx-Fitting price liq

    damm_v2-Gives : Gives HasU64Reserves (parse_meteora_damm_v2 pool_address bytes slot)
    unfolding parse_meteora_damm_v2
    damm_v2-Gives = reject_if-Gives HasU64Reserves (ltb (length bytes) 696) _ λ short.
        let long : 696 ≤ length bytes = ground arith in
        key_then bytes HasU64Reserves 168 _ (omega (arith, long)) λ _.
          key_then bytes HasU64Reserves 200 _ (omega (arith, long)) λ _.
            >>=-Gives HasU64Reserves Any (byte_at 484 bytes) _
              (byte_at-Gives bytes 484 (omega (arith, long)))
              λ mode _.
                >>=-Gives HasU64Reserves _ (damm_reserves (mode == 4) bytes) _
                  (damm_reserves-Gives (mode == 4) long)
                  λ r fit.
                    key_then bytes HasU64Reserves 232 _ (omega (arith, long))
                      λ _. key_then bytes HasU64Reserves 264 _ (omega (arith, long)) λ _. fit

    abbrev DepthFits : Option ℕ × ℕ → Type 0
    DepthFits r = r.1 < u64_mod

    manifest_order-Gives : (index : ℕ) → Gives DepthFits (manifest_read_order bytes index)
    unfolding manifest_read_order
    manifest_order-Gives index = elim (Bool-cases (index == 0xffffffff)) [
      | inl e ↦ rw (e, manifest_read_order) (omega arith)
      | inr e ↦ elim (Bool-cases (ltb (length bytes) (256 + index + 40))) [
        | inl s ↦ rw (e, s, manifest_read_order) (omega arith)
        | inr s ↦
            let long : 256 + index + 40 ≤ length bytes = ground arith in
            rw (e, s, manifest_read_order)
              (word_then bytes DepthFits 16 (256 + index + 16) _ (omega (arith, long)) λ price.
                >>=-Gives DepthFits _ (word_at 8 (256 + index + 32) bytes) _
                  (u64_at-Gives (256 + index + 32) (omega (arith, long))) λ atoms fit. ground arith)
      ]
    ]

    manifest-Gives : Gives HasU64Reserves (parse_manifest_market pool_address bytes slot)
    unfolding parse_manifest_market
    manifest-Gives = reject_if-Gives HasU64Reserves (ltb (length bytes) 256) _ λ short.
        let long : 256 ≤ length bytes = ground arith in
        key_then bytes HasU64Reserves 16 _ (omega (arith, long)) λ base.
          key_then bytes HasU64Reserves 48 _ (omega (arith, long)) λ quote.
            key_then bytes HasU64Reserves 80 _ (omega (arith, long)) λ _.
              key_then bytes HasU64Reserves 112 _ (omega (arith, long)) λ _.
                reject_if-Gives HasU64Reserves (base == 0 || quote == 0) _ λ mints.
                  word_then bytes HasU64Reserves 4 160 _ (omega (arith, long)) λ bid.
                    word_then bytes HasU64Reserves 4 168 _ (omega (arith, long)) λ ask.
                      >>=-Gives HasU64Reserves _ (manifest_read_order bytes bid) _
                        (manifest_order-Gives bid)
                        λ b fit_b.
                          >>=-Gives HasU64Reserves _ (manifest_read_order bytes ask) _
                            (manifest_order-Gives ask) λ a fit_a. (fit_b, fit_a)

    -- On any bytes at all, these parsers do not panic: no read leaves the account. The pools that
    -- they return have reserves of 64 bits.
    pub parsed-Gives :
        (Gives HasU64Reserves (parse_orca_whirlpool pool_address bytes slot))
        × (Gives HasU64Reserves (parse_raydium_clmm pool_address bytes slot))
        × (Gives HasU64Reserves (parse_meteora_damm_v2 pool_address bytes slot))
        × (Gives WithU64Reserves (parse_raydium_cp pool_address bytes slot))
        × (Gives WithU64Reserves (parse_pumpswap pool_address bytes slot))
        × (Gives HasU64Reserves (parse_manifest_market pool_address bytes slot))
        × (Gives Any (parse_nonce bytes))
    parsed-Gives = (
      orca-Gives, raydium_clmm-Gives, damm_v2-Gives, cp-Gives, pumpswap-Gives, manifest-Gives,
      nonce-Gives,
    )
