-- ===== src/Env.antt =====
-- What the kernel calls and does not contain, together: hashing, JSON, and the keys and signatures
-- of src/kernel/crypto.cpp and src/kernel/schnorr.cpp, which stand on OpenSSL and its curves.
use crypto_kernel.Prelude.{Bool, List}
use crypto_kernel.BigNum.{Text, Hashing}
use crypto_kernel.Json.{JsonLib}

pub record Signing : Type 0 where
  -- `Crypto::setPublicKey` returns whether the key is well formed.
  pub set_public_key : Text → Bool
  -- `Crypto::verify` under a public key, of a message and a signature
  pub verify : Text → Text → Text → Bool
  pub schnorr_set_public_key : Text → Bool
  pub schnorr_verify : Text → Text → Text → Bool
  -- `Schnorr::pubkeyAggregate`, of the keys in increasing order
  pub pubkey_aggregate : List Text → Text

pub record Env : Type 1 where
  pub hashing : Hashing
  pub json : JsonLib
  pub signing : Signing
