-- ===== src/Guard/Execute/Gain.antt =====
-- What a successful `execute_arb_v2` has established, whatever the invoked programs did.
use engine_mev.Base.{
  ℕ, ◌+◌, ◌≤◌, ◌≡◌, inl, inr, refl, arith, Bool, true, false, some, List, [], ◌∷◌, length,
  get_elem?, ltb, leb, Bool-cases, Option-cases,
}
use engine_mev.Guard.{Result, ok, err, failed, ◌>>=◌, require, checked_add_u64}
use engine_mev.Guard.Execute.{
  Store, AccountInfo, Instruction, HopV2Params, ArbV2Params, get_token_balance, account_at,
  last_hop, run_hop, run_hops, execute_hops, some_hops, execute_arb_v2,
}

>>=-use {ℓ κ μ} :
    {A : Type ℓ} {B : Type κ} {C : Type μ} (m : Result A) (f : A → Result B) {b : B}
    → (m >>= f) ≡ ok b
    → ((a : A) → m ≡ ok a → f a ≡ ok b → C)
    → C
>>=-use (ok a) f h k = k a refl h
>>=-use (err e) f h k = absurd (ground arith)
>>=-use failed f h k = absurd (ground arith)

account_at-eq_ok :
    (l : List AccountInfo) (i : ℕ) {a : AccountInfo}
    → account_at l i ≡ ok a
    → get_elem? l i ≡ some a
account_at-eq_ok l i h = elim (Option-cases (get_elem? l i)) [
  | inl e ↦ absurd (ground arith)
  | inr (b, e) ↦ ground arith
]

-- The gain of one account's balance.
pub record Gained (remaining : List AccountInfo) (i min_gain : ℕ) (st st' : Store) : Type 0 where
  pub account : AccountInfo
  pub found : get_elem? remaining i ≡ some account
  pub before : ℕ
  pub after : ℕ
  pub read_before : get_token_balance st account.key ≡ ok before
  pub read_after : get_token_balance st' account.key ≡ ok after
  pub enough : before + min_gain ≤ after

module _ (invoke : Instruction → Store → Result Store) (remaining : List AccountInfo) where
  -- The hops one after the other, each of which leaves more in its output account than it found.
  pub data Ran : List HopV2Params → Store → Store → Type 0 where
    stop : {st : Store} → Ran [] st st
    hop :
        {h : HopV2Params} {hops : List HopV2Params} {st mid st' : Store}
        → Gained remaining h.output_token_index 1 st mid
        → Ran hops mid st'
        → Ran (h ∷ hops) st st'

  run_hop-Gained :
      (first : Bool) (h : HopV2Params) (amount : ℕ) (st : Store) {out : ℕ × Store}
      → run_hop invoke remaining first h amount st ≡ ok out
      → Gained remaining h.output_token_index 1 st out.1
  unfolding run_hop
  run_hop-Gained first h amount st {out} e =
      >>=-use (account_at remaining h.program_id_index) _ e λ prog _ e1.
        >>=-use (require (leb (h.accounts_start + h.accounts_len) (length remaining)) _) _ e1
          λ _ _ e2. >>=-use (account_at remaining h.output_token_index) _ e2 λ output found e3.
            >>=-use (get_token_balance st output.key) _ e3 λ pre r0 e4.
              >>=-use (invoke _ st) _ e4 λ mid _ e5.
                >>=-use (get_token_balance mid output.key) _ e5 λ post r1 e6.
                  >>=-use (require (ltb pre post) _) _ e6 λ _ more e7.
                    let same : mid ≡ out.1 = ground arith in
                    record {
                      account = output;
                      found = account_at-eq_ok remaining h.output_token_index found;
                      before = pre;
                      after = post;
                      read_before = r0;
                      read_after = rw (← same) r1;
                      enough = ground arith;
                    }

  pub run_hops-Ran :
      (first : Bool) (hops : List HopV2Params) (amount : ℕ) (st st' : Store)
      → run_hops invoke remaining first hops amount st ≡ ok st'
      → Ran hops st st'
  unfolding run_hops
  run_hops-Ran first [] amount st st' e = let same : st ≡ st' = ground arith in rw (← same) stop
  run_hops-Ran first (h ∷ hops) amount st st' e =
      >>=-use (run_hop invoke remaining first h amount st) _ e λ out e1 rest.
        hop (run_hop-Gained first h amount st e1) (run_hops-Ran false hops out.0 out.1 st' rest)

  -- What a run establishes: the profit account, which is the output of the last hop, has gained the
  -- minimum, and so has every hop's own output account by the end of that hop.
  pub record Executed (h : HopV2Params) (hops : List HopV2Params) (m : ℕ) (st st' : Store)
      : Type 0 where
    pub profit : Gained remaining (last_hop h hops).output_token_index m st st'
    pub ran : Ran (h ∷ hops) st st'

  execute_hops-Executed :
      (h : HopV2Params) (hops : List HopV2Params) (m : ℕ) (st : Store) {st' : Store}
      → execute_hops invoke remaining h hops m st ≡ ok st'
      → Executed h hops m st st'
  unfolding execute_hops checked_add_u64
  execute_hops-Executed h hops m st {st'} e =
      >>=-use (account_at remaining (last_hop h hops).output_token_index) _ e λ token found e1.
        >>=-use (get_token_balance st token.key) _ e1 λ start r0 e2.
          >>=-use (run_hops invoke remaining true (h ∷ hops) 0 st) _ e2 λ after hr e3.
            >>=-use (get_token_balance after token.key) _ e3 λ end r1 e4.
              let same : after ≡ st' = ground arith in
              record {
                profit = record {
                  account = token;
                  found = account_at-eq_ok remaining (last_hop h hops).output_token_index found;
                  before = start;
                  after = end;
                  read_before = r0;
                  read_after = rw (← same) r1;
                  enough = ground arith;
                };
                ran = rw (← same) (run_hops-Ran true (h ∷ hops) 0 st after hr);
              }

-- What a successful call shows of its arguments and of the store.
pub record Succeeded (invoke : Instruction → Store → Result Store) (remaining : List AccountInfo)
    (params : ArbV2Params) (st st' : Store) : Type 0 where
  pub signer : AccountInfo
  pub first : get_elem? remaining 0 ≡ some signer
  pub signs : signer.is_signer ≡ true
  pub hop_first : HopV2Params
  pub hops_after : List HopV2Params
  pub shape : params.hops ≡ hop_first ∷ hops_after
  pub run : Executed invoke remaining hop_first hops_after params.min_amount_out st st'

some_hops-Succeeded :
    (invoke : Instruction → Store → Result Store) (signer : AccountInfo) (others : List AccountInfo)
    (params : ArbV2Params) (hops : List HopV2Params) (st st' : Store)
    → signer.is_signer ≡ true
    → params.hops ≡ hops
    → some_hops invoke (signer ∷ others) hops params.min_amount_out st ≡ ok st'
    → Succeeded invoke (signer ∷ others) params st st'
unfolding some_hops
some_hops-Succeeded invoke signer others params [] st st' s shape h = absurd (ground arith)
some_hops-Succeeded invoke signer others params (hop0 ∷ hops) st st' s shape h = record {
  signer = signer;
  first = refl;
  signs = s;
  hop_first = hop0;
  hops_after = hops;
  shape = shape;
  run = execute_hops-Executed invoke (signer ∷ others) hop0 hops params.min_amount_out st h;
}

-- Whatever the invoked programs do to the data of the accounts: when `execute_arb_v2` succeeds, the
-- first account has signed, there is at least one hop, every hop has left more in its output
-- account than it found there, and the balance of the last hop's output account at the end is at
-- least its balance at the start plus the minimum.
pub executed-Succeeded :
    (invoke : Instruction → Store → Result Store) (remaining : List AccountInfo)
    (params : ArbV2Params) (st st' : Store)
    → execute_arb_v2 invoke remaining params st ≡ ok st'
    → Succeeded invoke remaining params st st'
unfolding execute_arb_v2
executed-Succeeded invoke [] params st st' h = absurd (ground arith)
executed-Succeeded invoke (signer ∷ others) params st st' h = elim (Bool-cases signer.is_signer) [
  | inl s ↦ some_hops-Succeeded invoke signer others params params.hops st st' s refl (ground arith)
  | inr s ↦ absurd (ground arith)
]
