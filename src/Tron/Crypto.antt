-- ===== src/Tron/Crypto.antt =====
-- The hash functions and the signature, which are not code of the repository: golang.org/x/crypto,
-- crypto/sha256 and btcec.
use trc.Base.{ℕ, List}

pub record Crypto : Type 0 where
  pub keccak256 : List ℕ → List ℕ
  pub sha256 : List ℕ → List ℕ
