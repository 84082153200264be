-- ===== src/Bundle/Placed.antt =====
-- Where `build_execute_arb_v2_ix` of src/executor/bundle.rs puts the parts of each swap: what the
-- on-chain program reads by the indices of the parameters.
use engine_mev.Base.{
  ℕ, zero, suc, ◌+◌, ◌<◌, ◌≤◌, ◌≡◌, refl, sym, ◌∙◌, true, false, some, List, [], ◌∷◌, ◌++◌, length,
  length-append, get_elem?, take, drop, ◌==◌, ==_iff, Bool-cases, arith, inl, inr, Option-cases,
}
use engine_mev.Base.Bytes.{take-append, drop-append}
use engine_mev.Base.Outcome.{ret, of_option, panic_if, >>=-use, of_option-eq_ret}
use engine_mev.Pool.{Pubkey, RouteHop, ArbRoute}
use engine_mev.Swap.{AccountMeta, Instruction, SolanaSdk, account, readonly}
use engine_mev.Bundle.{HopV2Params, ArbV2Params, BundleBuilder}
use engine_mev.Bundle.Execute.{
  as_u8, position, amount_in_offset, output_ata, build_hop_ixs, pack_hops, is_empty,
  build_v2_params,
}

module _ {ℓ} {A : Type ℓ} where
  -- A list, a part of a longer one, read at its place.
  get_elem?_append : (xs ys : List A) (y : A) → get_elem? (xs ++ (y ∷ ys)) (length xs) ≡ some y
  get_elem?_append [] ys y = refl
  get_elem?_append (x ∷ xs) ys y = get_elem?_append xs ys y

  append_assoc : (xs ys zs : List A) → (xs ++ ys) ++ zs ≡ xs ++ (ys ++ zs)
  append_assoc [] ys zs = refl
  append_assoc (x ∷ xs) ys zs = rw (append_assoc xs ys zs) refl

  append_nil : (xs : List A) → xs ++ [] ≡ xs
  append_nil [] = refl
  append_nil (x ∷ xs) = rw (append_nil xs) refl

  append_regroup :
      (xs : List A) (y : A) (zs ws : List A)
      → ((xs ++ (y ∷ [])) ++ zs) ++ ws ≡ xs ++ (y ∷ (zs ++ ws))
  append_regroup [] y zs ws = refl
  append_regroup (x ∷ xs) y zs ws = rw (append_regroup xs y zs ws) refl

  get_elem?_left :
      (xs ys : List A) (i : ℕ) {a : A} → get_elem? xs i ≡ some a → get_elem? (xs ++ ys) i ≡ some a
  get_elem?_left [] ys i h = cc
  get_elem?_left (x ∷ xs) ys zero h = h
  get_elem?_left (x ∷ xs) ys (suc i) h = get_elem?_left xs ys i h

  slice_append : (xs ys zs : List A) → take (length ys) (drop (length xs) (xs ++ (ys ++ zs))) ≡ ys
  slice_append xs ys zs = rw (drop-append xs (ys ++ zs)) (take-append ys zs)

-- The position that is found holds the key, and is inside the list.
position_found :
    (key : Pubkey) (xs : List AccountMeta) (i : ℕ)
    → position key xs ≡ some i
    → (a : AccountMeta) × (get_elem? xs i ≡ some a) × (a.pubkey ≡ key) × (i < length xs)
unfolding position
position_found key [] i h = cc
position_found key (x ∷ xs) i h = elim (Bool-cases (x.pubkey == key)) [
  | inl e ↦
      let h0 : some 0 ≡ some i = rw (e) at h in
      let z : 0 ≡ i = ground arith in rw (← z) (x, refl, (==_iff x.pubkey key).0 e, omega arith)
  | inr e ↦ elim (Option-cases (position key xs)) [
    | inl q ↦ absurd (ground (arith, rw (e, q) at h))
    | inr (j, q) ↦
        let z : suc j ≡ i = ground (arith, rw (e, q) at h) in
        let (a, found, same, bound) = position_found key xs j q in
        rw (← z) (a, found, same, omega (arith, bound))
  ]
]

module _ (sdk : SolanaSdk) (b : BundleBuilder) (accounts : List AccountMeta) where
  -- The parameters of one hop point at its swap: the program, the accounts in their order, and the
  -- token account of the output, by which the program measures the hop.
  abbrev pub IsPlaced : RouteHop × Instruction → HopV2Params → Type 0
  IsPlaced (hop, ix) p =
      (get_elem? accounts p.program_id_index ≡ some (readonly ix.program_id false))
      × (p.accounts_start + p.accounts_len ≤ length accounts)
      × (take p.accounts_len (drop p.accounts_start accounts) ≡ ix.accounts)
      × ((a : AccountMeta) × (get_elem? accounts p.output_token_index ≡ some a)
          × (a.pubkey ≡ output_ata sdk b hop))
      × (p.amount_in_offset ≡ amount_in_offset hop.dex_type)
      × (p.ix_data ≡ ix.ix_data)

  abbrev pub ArePlaced : List (RouteHop × Instruction) → List HopV2Params → Type 0
  ArePlaced [] [] = Unit
  ArePlaced [] (p ∷ ps) = ⊥
  ArePlaced (x ∷ xs) [] = ⊥
  ArePlaced (x ∷ xs) (p ∷ ps) = IsPlaced x p × ArePlaced xs ps

-- The accounts after one more swap.
abbrev grown : List AccountMeta → Instruction → List AccountMeta
grown before ix = (before ++ (readonly ix.program_id false ∷ [])) ++ ix.accounts

length-grown :
    (before : List AccountMeta) (ix : Instruction)
    → length (grown before ix) ≡ suc (length before) + length ix.accounts
length-grown before ix = omega (
  arith,
  length-append (before ++ (readonly ix.program_id false ∷ [])) ix.accounts,
  length-append before (readonly ix.program_id false ∷ []),
)

module _ (sdk : SolanaSdk) (b : BundleBuilder) where
  -- The accounts so far are never moved.
  pack_extends :
      (before : List AccountMeta) (pairs : List (RouteHop × Instruction)) (all : List AccountMeta)
      (params : List HopV2Params)
      → pack_hops sdk b before pairs ≡ ret (all, params)
      → (after : List AccountMeta) × (all ≡ before ++ after)
  unfolding pack_hops
  pack_extends before [] all params h = ([], ground (arith, append_nil before))
  pack_extends before ((hop, ix) ∷ rest) all params h =
      >>=-use (of_option (position (output_ata sdk b hop) (grown before ix))) _ h λ idx found h1.
        >>=-use (pack_hops sdk b (grown before ix) rest) _ h1 λ r packed h2.
          let (after, e) = pack_extends (grown before ix) rest r.0 r.1 packed in
          let same : r.0 ≡ all = ground arith in
          (
            (readonly ix.program_id false ∷ ix.accounts) ++ after,
            sym same ∙ e ∙ append_regroup before (readonly ix.program_id false) ix.accounts after,
          )

  -- The parameters of the swap that is placed after some accounts and before some others.
  abbrev placed_params : List AccountMeta → RouteHop → Instruction → ℕ → HopV2Params
  placed_params before hop ix i = record {
    program_id_index = as_u8 (length before);
    accounts_start = as_u8 (length (before ++ (readonly ix.program_id false ∷ [])));
    accounts_len = as_u8 (length ix.accounts);
    output_token_index = as_u8 i;
    amount_in_offset = amount_in_offset hop.dex_type;
    ix_data = ix.ix_data;
  }

  placed :
      (before after : List AccountMeta) (hop : RouteHop) (ix : Instruction) (i : ℕ)
      → position (output_ata sdk b hop) (grown before ix) ≡ some i
      → length (grown before ix ++ after) < 256
      → IsPlaced sdk b (grown before ix ++ after) (hop, ix) (placed_params before hop ix i)
  placed before after hop ix i found small =
      let all = grown before ix ++ after in
      let n = length-grown before ix in
      let m = length-append (grown before ix) after in
      let p = length-append before (readonly ix.program_id false ∷ []) in
      let (a, at_i, same, bound) =
        position_found (output_ata sdk b hop) (grown before ix) i found in
      let start : as_u8 (length before) ≡ length before = omega (arith, n, m, small) in
      let next : as_u8 (length (before ++ (readonly ix.program_id false ∷ [])))
          ≡ length (before ++ (readonly ix.program_id false ∷ [])) =
        omega (arith, n, m, p, small) in
      let len : as_u8 (length ix.accounts) ≡ length ix.accounts = omega (arith, n, m, small) in
      let idx : as_u8 i ≡ i = omega (arith, bound, m, small) in
      (
        rw (start, append_regroup before (readonly ix.program_id false) ix.accounts after)
            (get_elem?_append before (ix.accounts ++ after) (readonly ix.program_id false)),
        omega (arith, start, next, len, n, m, p, small),
        rw
            (
              next,
              len,
              append_assoc (before ++ (readonly ix.program_id false ∷ [])) ix.accounts after,
            )
            (slice_append (before ++ (readonly ix.program_id false ∷ [])) ix.accounts after),
        (a, rw (idx) (get_elem?_left (grown before ix) after i at_i), same),
        refl,
        refl,
      )

  pack_hops-ArePlaced :
      (before : List AccountMeta) (pairs : List (RouteHop × Instruction)) (all : List AccountMeta)
      (params : List HopV2Params)
      → pack_hops sdk b before pairs ≡ ret (all, params)
      → length all < 256
      → ArePlaced sdk b all pairs params
  unfolding pack_hops
  pack_hops-ArePlaced before [] all params h small =
      let e : [] ≡ params = ground arith in rw (← e) tt
  pack_hops-ArePlaced before ((hop, ix) ∷ rest) all params h small =
      >>=-use (of_option (position (output_ata sdk b hop) (grown before ix))) _ h λ idx found h1.
        >>=-use (pack_hops sdk b (grown before ix) rest) _ h1 λ r packed h2.
          let (after, e) = pack_extends (grown before ix) rest r.0 r.1 packed in
          let same : r.0 ≡ all = ground arith in
          let params_eq : placed_params before hop ix idx ∷ r.1 ≡ params = ground arith in
          let all_eq : all ≡ grown before ix ++ after = sym same ∙ e in
          rw (← params_eq) (
            rw (all_eq)
                (placed before after hop ix idx (of_option-eq_ret _ found) (rw (all_eq) at small)),
            pack_hops-ArePlaced (grown before ix) rest all r.1 (rw (same) at packed) small,
          )

-- Where a route's instruction has fewer than 256 accounts, the parameters of every hop point at the
-- swap that was built for it: the program, the accounts in their order, inside the list, and the
-- searcher's token account of the hop's output mint. The first account is the signer.
pub build_v2_params-ArePlaced :
    (sdk : SolanaSdk) (b : BundleBuilder) (route : ArbRoute) (min_amount_out : ℕ)
    (accounts : List AccountMeta) (params : ArbV2Params)
    → build_v2_params sdk b route min_amount_out ≡ ret (accounts, params)
    → length accounts < 256
    → (pairs : List (RouteHop × Instruction)) × (build_hop_ixs sdk b route.input_amount
          min_amount_out route.hops
        ≡ ret pairs)
      × (get_elem? accounts 0 ≡ some (account b.signer true))
      × ArePlaced sdk b accounts pairs params.hops
      × (params.min_amount_out ≡ min_amount_out)
unfolding build_v2_params
build_v2_params-ArePlaced sdk b route m accounts params h small =
    >>=-use (panic_if (is_empty route.hops)) _ h λ _ _ h0.
      >>=-use (build_hop_ixs sdk b route.input_amount m route.hops) _ h0 λ pairs built h1.
        >>=-use (pack_hops sdk b (account b.signer true ∷ []) pairs) _ h1 λ r packed h2.
          let same : r.0 ≡ accounts = ground arith in
          let hops : r.1 ≡ params.hops = ground arith in
          let (after, e) = pack_extends sdk b (account b.signer true ∷ []) pairs r.0 r.1 packed in
          (
            pairs,
            built,
            rw (sym same ∙ e) refl,
            rw (← hops) (
                pack_hops-ArePlaced sdk b (account b.signer true ∷ []) pairs accounts r.1
                  (rw (same) at packed) small),
            ground arith,
          )
