-- ===== src/Bundle/OnChain/Steps.antt =====
-- One hop of the guard's loop against the swap that it stands for, and the loop against the route.
use engine_mev.Base.{
  ℕ, zero, suc, ◌+◌, ◌≡◌, refl, ap, ◌∙◌, Bool, true, false, some, List, [], ◌∷◌, length, get_elem?,
  take, drop, map, leb, ◌&&◌, if◌then◌else◌, arith,
}
use engine_mev.Base.Outcome.{ret, >>=-use}
use engine_mev.Pool.{RouteHop}
use engine_mev.Swap.{AccountMeta, SolanaSdk, account}
use engine_mev.Swap as Client
use engine_mev.Swap.Rewritten.{with_amount}
use engine_mev.Guard.{Result, ok, err, failed, ◌>>=◌}
use engine_mev.Guard.Execute.{
  Store, AccountInfo, Instruction, account_at, hop_data, last_hop, run_hop, run_hops,
}
use engine_mev.Bundle as Builder
use engine_mev.Bundle.{BundleBuilder, build_swap_instruction_with_min_out}
use engine_mev.Bundle.Amounts.{build_swap_instruction_with_min_out-with_amount}
use engine_mev.Bundle.Execute.{is_empty, amount_in_offset, output_ata, build_hop_ixs}
use engine_mev.Bundle.Placed.{IsPlaced, ArePlaced}
use engine_mev.Bundle.OnChain.{
  info, mirrored, invoked, swap_once, run_route, last_of, all_take_amount,
}

and_left : (a b : Bool) → (a && b) ≡ true → a ≡ true
and_left a b h = ground arith

and_right : (a b : Bool) → (a && b) ≡ true → b ≡ true
and_right a b h = ground arith

pub account_at-info :
    (xs : List AccountMeta) (i : ℕ) (a : AccountMeta)
    → get_elem? xs i ≡ some a
    → account_at (map info xs) i ≡ ok (info a)
account_at-info [] i a h = cc
account_at-info (x ∷ xs) zero a h = ground arith
account_at-info (x ∷ xs) (suc i) a h = account_at-info xs i a h

length-info : (xs : List AccountMeta) → length (map info xs) ≡ length xs
length-info [] = refl
length-info (x ∷ xs) = rw (length-info xs) refl

take-info : (n : ℕ) (xs : List AccountMeta) → take n (map info xs) ≡ map info (take n xs)
take-info zero xs = refl
take-info (suc n) [] = refl
take-info (suc n) (x ∷ xs) = rw (take-info n xs) refl

drop-info : (n : ℕ) (xs : List AccountMeta) → drop n (map info xs) ≡ map info (drop n xs)
drop-info zero xs = refl
drop-info (suc n) [] = refl
drop-info (suc n) (x ∷ xs) = drop-info n xs

bind_cong {ℓ κ} :
    {A : Type ℓ} {B : Type κ} (m : Result A) (f g : A → Result B)
    → ((a : A) → f a ≡ g a)
    → (m >>= f) ≡ (m >>= g)
bind_cong (ok a) f g h = h a
bind_cong (err e) f g h = refl
bind_cong failed f g h = refl

-- The instruction of a hop with the data that the program sends.
abbrev sent : Bool → ℕ → Builder.HopV2Params → Client.Instruction → Client.Instruction
sent first amount p ix = record ix { ix_data = hop_data first amount (mirrored p) }

module _ (invoke : Instruction → Store → Result Store) (sdk : SolanaSdk) (b : BundleBuilder)
    (accounts : List AccountMeta) where
  hop_once :
      (first : Bool) (amount : ℕ) (hop : RouteHop) (ix : Client.Instruction)
      (p : Builder.HopV2Params) (st : Store)
      → IsPlaced sdk b accounts (hop, ix) p
      → run_hop invoke (map info accounts) first (mirrored p) amount st
        ≡ swap_once invoke (output_ata sdk b hop) (invoked (sent first amount p ix)) st
  unfolding run_hop swap_once
  hop_once first amount hop ix p st (program, inside, slice, (a, at_i, same), offset, bytes) =
      let at_program = account_at-info accounts p.program_id_index _ program in
      let at_output = account_at-info accounts p.output_token_index a at_i in
      let fits : leb (p.accounts_start + p.accounts_len) (length (map info accounts)) ≡ true =
        rw (length-info accounts) (ground arith) in
      rw
        (
          at_program,
          fits,
          at_output,
          drop-info p.accounts_start accounts,
          take-info p.accounts_len (drop p.accounts_start accounts),
          slice,
          same,
        )
        refl

  -- The same, with the instruction that is sent named.
  hop_as :
      (first : Bool) (amount : ℕ) (hop : RouteHop) (ix ix' : Client.Instruction)
      (p : Builder.HopV2Params) (st : Store)
      → IsPlaced sdk b accounts (hop, ix) p
      → sent first amount p ix ≡ ix'
      → run_hop invoke (map info accounts) first (mirrored p) amount st
        ≡ swap_once invoke (output_ata sdk b hop) (invoked ix') st
  hop_as first amount hop ix ix' p st one e =
      hop_once first amount hop ix p st one
      ∙ ap (λ i. swap_once invoke (output_ata sdk b hop) (invoked i) st) e

  sent_later :
      (hop : RouteHop) (ix : Client.Instruction) (p : Builder.HopV2Params) (amount : ℕ)
      → IsPlaced sdk b accounts (hop, ix) p
      → sent false amount p ix ≡ with_amount (amount_in_offset hop.dex_type) amount ix
  unfolding hop_data
  sent_later hop ix p amount one = rw (one.4, one.5) refl

  sent_first :
      (hop : RouteHop) (ix : Client.Instruction) (p : Builder.HopV2Params)
      → IsPlaced sdk b accounts (hop, ix) p
      → sent true 0 p ix ≡ ix
  unfolding hop_data
  sent_first hop ix p one = rw (one.5) refl

  cons_params :
      (x : RouteHop × Client.Instruction) (xs : List (RouteHop × Client.Instruction))
      (params : List Builder.HopV2Params)
      → ArePlaced sdk b accounts (x ∷ xs) params
      → (p : Builder.HopV2Params) × (ps : List Builder.HopV2Params) × (params ≡ p ∷ ps)
        × IsPlaced sdk b accounts x p
        × ArePlaced sdk b accounts xs ps
  cons_params x xs [] placed = absurd placed
  cons_params x xs (p ∷ ps) placed = (p, ps, refl, placed.0, placed.1)

  -- The hops after the first, whatever amount the builder had estimated for them.
  pub later_hops :
      (hops : List RouteHop) (estimate min_amount_out amount : ℕ)
      (pairs : List (RouteHop × Client.Instruction)) (params : List Builder.HopV2Params)
      (st : Store)
      → all_take_amount invoke sdk b hops ≡ true
      → build_hop_ixs sdk b estimate min_amount_out hops ≡ ret pairs
      → ArePlaced sdk b accounts pairs params
      → run_hops invoke (map info accounts) false (map mirrored params) amount st
        ≡ run_route invoke sdk b amount min_amount_out hops st
  unfolding run_hops run_route build_hop_ixs all_take_amount
  later_hops [] estimate m amount [] [] st t h placed = refl
  later_hops [] estimate m amount [] (p ∷ ps) st t h placed = absurd placed
  later_hops [] estimate m amount (x ∷ xs) params st t h placed = cc
  later_hops (hop ∷ rest) estimate m amount pairs params st t h placed =
      >>=-use
        (build_swap_instruction_with_min_out sdk b hop estimate (if is_empty rest then m else 0)) _
        h
        λ ix built h1.
          >>=-use (build_hop_ixs sdk b hop.estimated_output m rest) _ h1 λ later built_later h2.
            let e : (hop, ix) ∷ later ≡ pairs = ground arith in
            let (p, ps, shape, one, others) =
              cons_params (hop, ix) later params (rw (← e) at placed) in
            let again =
              build_swap_instruction_with_min_out-with_amount sdk b hop estimate amount
                (if is_empty rest then m else 0) ix (and_left _ _ t) built in
            let bytes : sent false amount p ix
                ≡ with_amount (amount_in_offset hop.dex_type) amount ix =
              sent_later hop ix p amount one in
            rw
              (
                shape,
                hop_as false amount hop ix (with_amount (amount_in_offset hop.dex_type) amount ix) p
                    st one bytes,
                again,
              )
              (bind_cong
                (swap_once invoke (output_ata sdk b hop)
                  (invoked (with_amount (amount_in_offset hop.dex_type) amount ix)) st)
                _ _
                λ r.
                  later_hops rest hop.estimated_output m r.0 later ps r.1 (and_right _ _ t)
                    built_later others)

  pub first_hop :
      (hop : RouteHop) (rest : List RouteHop) (amount min_amount_out : ℕ)
      (pairs : List (RouteHop × Client.Instruction)) (params : List Builder.HopV2Params)
      (st : Store)
      → all_take_amount invoke sdk b rest ≡ true
      → build_hop_ixs sdk b amount min_amount_out (hop ∷ rest) ≡ ret pairs
      → ArePlaced sdk b accounts pairs params
      → run_hops invoke (map info accounts) true (map mirrored params) 0 st
        ≡ run_route invoke sdk b amount min_amount_out (hop ∷ rest) st
  unfolding run_hops run_route build_hop_ixs
  first_hop hop rest amount m pairs params st t h placed =
      >>=-use
        (build_swap_instruction_with_min_out sdk b hop amount (if is_empty rest then m else 0)) _ h
        λ ix built h1.
          >>=-use (build_hop_ixs sdk b hop.estimated_output m rest) _ h1 λ later built_later h2.
            let e : (hop, ix) ∷ later ≡ pairs = ground arith in
            let (p, ps, shape, one, others) =
              cons_params (hop, ix) later params (rw (← e) at placed) in
            let bytes : sent true 0 p ix ≡ ix = sent_first hop ix p one in
            rw (shape, hop_as true 0 hop ix ix p st one bytes, built)
              (bind_cong (swap_once invoke (output_ata sdk b hop) (invoked ix) st) _ _
                λ r. later_hops rest hop.estimated_output m r.0 later ps r.1 t built_later others)

  -- What a successful build of the swaps has built.
  pub hop_shape :
      (hop : RouteHop) (rest : List RouteHop) (estimate min_amount_out : ℕ)
      (pairs : List (RouteHop × Client.Instruction))
      → build_hop_ixs sdk b estimate min_amount_out (hop ∷ rest) ≡ ret pairs
      → (ix : Client.Instruction) × (later : List (RouteHop × Client.Instruction)) × (pairs
          ≡ (hop, ix) ∷ later)
        × (build_hop_ixs sdk b hop.estimated_output min_amount_out rest ≡ ret later)
  unfolding build_hop_ixs
  hop_shape hop rest estimate m pairs h =
      >>=-use
        (build_swap_instruction_with_min_out sdk b hop estimate (if is_empty rest then m else 0)) _
        h
        λ ix built h1.
          >>=-use (build_hop_ixs sdk b hop.estimated_output m rest) _ h1
            λ later built_later h2. (ix, later, ground arith, built_later)

  -- The profit is measured on the token account of the last hop's output.
  pub last_output :
      (hop : RouteHop) (rest : List RouteHop) (estimate min_amount_out : ℕ)
      (pairs : List (RouteHop × Client.Instruction)) (p : Builder.HopV2Params)
      (ps : List Builder.HopV2Params)
      → build_hop_ixs sdk b estimate min_amount_out (hop ∷ rest) ≡ ret pairs
      → ArePlaced sdk b accounts pairs (p ∷ ps)
      → (a : AccountInfo) × (account_at
            (map info accounts)
            (last_hop (mirrored p) (map mirrored ps)).output_token_index
          ≡ ok a)
        × (a.key ≡ output_ata sdk b (last_of invoke sdk b hop rest))
  unfolding last_hop build_hop_ixs
  last_output hop [] estimate m pairs p [] h placed =
      let (ix, later, shape, more) = hop_shape hop [] estimate m pairs h in
      let (a, at_i, same) = (rw (shape) at placed).0.3 in
      (info a, account_at-info accounts p.output_token_index a at_i, same)
  last_output hop [] estimate m pairs p (q ∷ qs) h placed =
      let (ix, later, shape, more) = hop_shape hop [] estimate m pairs h in
      let none_left : later ≡ [] = ground arith in
      absurd (rw (none_left) at (rw (shape) at placed).1)
  last_output hop (next ∷ rest) estimate m pairs p [] h placed =
      let (ix, later, shape, more) = hop_shape hop (next ∷ rest) estimate m pairs h in
      let (ix', later', shape', more') = hop_shape next rest hop.estimated_output m later more in
      absurd (rw (shape') at (rw (shape) at placed).1)
  last_output hop (next ∷ rest) estimate m pairs p (q ∷ qs) h placed =
      let (ix, later, shape, more) = hop_shape hop (next ∷ rest) estimate m pairs h in
      last_output next rest hop.estimated_output m later q qs more (rw (shape) at placed).1
