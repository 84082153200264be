-- ===== src/Parse/Nonce.antt =====
-- Durable nonce accounts, src/mempool/parsers/nonce.rs.
use engine_mev.Base.{ℕ, length, ◌==◌, ltb, not}
use engine_mev.Base.Bytes.{Bytes}
use engine_mev.Base.Outcome.{Outcome, ret, ◌>>=◌, ◌>>◌, reject_if}
use engine_mev.Pool.{Pubkey}
use engine_mev.Parse.{word_at, key_at}

-- The authority and the hash, as the number that its bytes spell.
unfoldable pub parse_nonce : Bytes → Outcome (Pubkey × ℕ)
parse_nonce bytes = do
  reject_if (ltb (length bytes) 72)
  versions_tag ← word_at 4 0 bytes
  reject_if (ltb 1 versions_tag)
  state_tag ← word_at 4 4 bytes
  reject_if (not (state_tag == 1))
  authority ← key_at 8 bytes
  hash ← key_at 40 bytes
  ret (authority, hash)
