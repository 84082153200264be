-- ===== src/Nonce/Checkout.antt =====
-- What `checkout` of src/cexdex/nonce.rs returns and what it leaves behind.
use engine_mev.Base.{ℕ, ◌+◌, ◌≡◌, arith, none, some, ◌==◌, if◌then◌else◌}
use engine_mev.Base.Outcome.{ret, >>=-use, of_option, of_option-eq_ret}
use engine_mev.Nonce.{NoncePool, state_of, modify, Candidate, select, mark_used, checkout}
use engine_mev.Nonce.Choice.{Beats, select-IsBest}
use engine_mev.Nonce.States.{state_of-modify}
use engine_mev.Pool.{Pubkey}

-- The nonce that is handed out, the state that it was in, and the pool afterwards.
pub record IsChosen (now : ℕ) (p : NoncePool) (k : Pubkey) (hash : ℕ) (p' : NoncePool)
    : Type 0 where
  pub winner : Candidate
  pub key : winner.key ≡ k
  pub current : state_of k p.state ≡ some winner.state
  pub held : winner.state.cached_hash ≡ some hash
  pub beats : Beats p.state winner 0 p.nonces
  pub after :
      (q : Pubkey)
      → state_of q p'.state
        ≡ (if k == q then some (mark_used now winner.state) else state_of q p.state)
  pub counted : p'.collisions ≡ (if winner.state.in_flight then p.collisions + 1 else p.collisions)
  pub configured : p'.nonces ≡ p.nonces

used :
    (now : ℕ) (p : NoncePool) (q : Pubkey) (w : Candidate)
    → state_of w.key p.state ≡ some w.state
    → state_of q (modify w.key (mark_used now) p.state)
      ≡ (if w.key == q then some (mark_used now w.state) else state_of q p.state)
used now p q w h = ground (arith, state_of-modify w.key q (mark_used now) p.state)

-- `checkout` hands out a nonce with the hash that is cached for it. No configured nonce with a hash
-- is a better choice: free ones go before those in flight, then the one used longest ago, then the
-- order of the configuration. Afterwards that nonce alone has changed: it is in flight and used now;
-- a collision is counted exactly when it was in flight before.
pub checkout-IsChosen :
    (now : ℕ) (p : NoncePool) {k : Pubkey} {hash : ℕ} {p' : NoncePool}
    → checkout now p ≡ ret ((k, hash), p')
    → IsChosen now p k hash p'
unfolding checkout
checkout-IsChosen now p {k} {hash} {p'} h =
    >>=-use (select p.state 0 p.nonces none) _ h λ best e1 h1.
      >>=-use (of_option best) _ h1 λ w e2 h2.
        >>=-use (of_option w.state.cached_hash) _ h2 λ x e3 h3.
          let found : best ≡ some w = of_option-eq_ret best e2 in
          let good =
            select-IsBest p.state 0 p.nonces none (λ b e. absurd (ground arith))
              (rw (found) at e1) in
          let key : w.key ≡ k = ground arith in
          let hash_same : x ≡ hash = ground arith in
          let state : modify w.key (mark_used now) p.state ≡ p'.state = ground arith in
          record {
            winner = w;
            key = key;
            current = rw (← key) good.offered.0;
            held = rw (← hash_same) (of_option-eq_ret w.state.cached_hash e3);
            beats = good.beats;
            after = λ q. rw (← state, ← key) (used now p q w good.offered.0);
            counted = ground arith;
            configured = ground arith;
          }
