-- ===== src/Relay/Build.antt =====
-- What a transaction that build_signed_bundle_tx returns has passed.
use engine_mev.Base.{
  Option-cases, ℕ, ◌<◌, ◌≤◌, ◌≡◌, refl, Option, some, List, length, ◌==◌, ltb, Bool-cases, inl, inr,
  arith, ◌⊎◌,
}
use engine_mev.Base.Bytes.{Bytes}
use engine_mev.Pool.{Pubkey}
use engine_mev.Swap.{Instruction, SolanaSdk}
use engine_mev.Relay.{
  LookupTable, VersionedTransaction, TxSdk, BuildError, Built, done, failed, panicked,
  bundle_instructions, signed_tx, checked_bytes, build_signed_bundle_tx,
}
use engine_mev.Relay.Locked.{HasSigners, IsWriteLocked, verify_tip_write_locked-Decides}

Built-cases :
    {A : Type 0} (b : Built A)
    → ((a : A) × (b ≡ done a)) ⊎ (((e : BuildError) × (b ≡ failed e)) ⊎ (b ≡ panicked))
Built-cases (done a) = inl (a, refl)
Built-cases (failed e) = inr (inl (e, refl))
Built-cases panicked = inr (inr refl)

module _ (sdk : SolanaSdk) (tx_sdk : TxSdk) where
  checked_bytes-done :
      (tx : VersionedTransaction) (tip_account : Pubkey) (alts : List LookupTable) (bytes : Bytes)
      → HasSigners tx.message
      → checked_bytes sdk tx_sdk tx tip_account alts ≡ done bytes
      → (length bytes ≤ 1_232)
        × (tx_sdk.serialize tx ≡ some bytes)
        × IsWriteLocked alts tip_account tx.message
  unfolding checked_bytes
  checked_bytes-done tx tip alts bytes signers h =
      elim (verify_tip_write_locked-Decides tx.message tip alts signers) [
        | inl (run, locked) ↦
            let h1 = rw (run, checked_bytes) at h in
            elim (Option-cases (tx_sdk.serialize tx)) [
              | inr (bs, e) ↦
                  let h2 = rw (e) at h1 in
                  elim (Bool-cases (ltb 1_232 (length bs))) [
                    | inl big ↦ absurd (ground (arith, rw (big) at h2))
                    | inr small ↦
                        let same : bs ≡ bytes = ground (arith, rw (small) at h2) in
                        (rw (← same) (ground arith), rw (← same) e, locked)
                  ]
              | inl e ↦ absurd (ground (arith, rw (e) at h1))
            ]
        | inr (run, unlocked) ↦ absurd (ground (arith, rw (run, checked_bytes) at h))
      ]

  -- A transaction that build_signed_bundle_tx returns pays a tip above zero, has at most 1232 bytes,
  -- and is the serialization of what was signed for the base instructions with the tip; and its
  -- message write-locks the tip account. Where every signed message has a key for each signer.
  pub build_signed_bundle_tx-IsWriteLocked :
      (base : List Instruction) (tip_lamports : ℕ) (tip_account signer : Pubkey)
      (recent_blockhash : ℕ) (alts : List LookupTable) (nonce : Option (Pubkey × Pubkey))
      (bytes : Bytes)
      → ((ixs : List Instruction) (tx : VersionedTransaction)
          → signed_tx sdk tx_sdk ixs signer recent_blockhash alts ≡ done tx
          → HasSigners tx.message)
      → build_signed_bundle_tx sdk tx_sdk base tip_lamports tip_account signer recent_blockhash alts
          nonce
        ≡ done bytes
      → (0 < tip_lamports)
        × (length bytes ≤ 1_232)
        × ((tx : VersionedTransaction) × (signed_tx sdk tx_sdk
                (bundle_instructions sdk tx_sdk nonce base signer tip_account tip_lamports)
                signer
                recent_blockhash
                alts
              ≡ done tx)
            × (tx_sdk.serialize tx ≡ some bytes)
            × IsWriteLocked alts tip_account tx.message)
  unfolding build_signed_bundle_tx
  build_signed_bundle_tx-IsWriteLocked base tip tip_account signer hash alts nonce bytes compiled
        h =
      let ixs = bundle_instructions sdk tx_sdk nonce base signer tip_account tip in
      elim (Bool-cases (tip == 0)) [
        | inl e ↦ absurd (ground (arith, rw (e, build_signed_bundle_tx) at h))
        | inr e ↦
            let h1 = rw (e, build_signed_bundle_tx) at h in
            elim (Built-cases (signed_tx sdk tx_sdk ixs signer hash alts)) [
              | inl (tx, made) ↦
                  let (small, read, locked) =
                    checked_bytes-done tx tip_account alts bytes (compiled ixs tx made)
                      (rw (made) at h1) in
                  (ground arith, small, (tx, made, read, locked))
              | inr (inl (e, made)) ↦ absurd (ground (arith, rw (made) at h1))
              | inr (inr made) ↦ absurd (ground (arith, rw (made) at h1))
            ]
      ]
