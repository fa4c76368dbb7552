-- ===== src/Chain/Verify/Scalar.antt =====
-- The data of the first input is no object, for `verifyTransaction` of src/kernel/blockchain.cpp.
use crypto_kernel.Prelude.{ℕ, ◌≡◌, ◌∙◌, ap, Bool, true, false, ◌||◌, some, List, [], ◌∷◌, arith}
use crypto_kernel.Env.{Env}
use crypto_kernel.OrderedMap.{Map, lookup, contains}
use crypto_kernel.Outcome.{ok, uncaught}
use crypto_kernel.Types.{Input, public_key_name}
use crypto_kernel.Types.Stored.{DbOutput}
use crypto_kernel.Types.Transaction.{Transaction, get_output_set_id}
use crypto_kernel.Chain.{Tables, Rules}
use crypto_kernel.Chain.Spend.{
  locked_by, has_members, schnorr_key_name, merkle_root_name, check_schnorr, check_merkle_root,
  check_key,
}
use crypto_kernel.Chain.Verify.{
  check_locks, check_spend, check_input, check_inputs, outputs_exist, check_new, verify_transaction,
}

module _ (env : Env) (rules : Rules env) (tables : Tables env) (tx : Transaction env) where
  -- The output is under a Schnorr key, a root or a public key, and has no contract.
  abbrev pub is_locked : DbOutput env → Bool
  is_locked out =
      locked_by env schnorr_key_name out
      || locked_by env merkle_root_name out
      || locked_by env public_key_name out

  scalar_spend :
      (inp : Input env) (out : DbOutput env) (output_hash total : ℕ) (maybe : Map (DbOutput env))
      → is_locked out ≡ true
      → has_members env inp ≡ false
      → check_spend env rules tables tx inp out output_hash total maybe ≡ uncaught
  unfolding check_spend check_locks check_schnorr check_merkle_root check_key
  scalar_spend inp out output_hash total maybe locked scalar = ground arith

  scalar_input :
      (inp : Input env) (later : List (Input env)) (out : DbOutput env) (output_hash : ℕ)
      → lookup inp.output_id tables.utxos ≡ some out
      → is_locked out ≡ true
      → has_members env inp ≡ false
      → check_inputs env rules tables tx (inp ∷ later) output_hash 0 [] ≡ uncaught
  unfolding check_inputs check_input
  scalar_input inp later out output_hash found locked scalar =
      ground (arith, scalar_spend inp out output_hash 0 [] locked scalar)

  -- `verifyTransaction` of a new transaction whose first input spends an unspent output under a Schnorr
  -- key, a root or a public key, without a contract, and has data that is neither an object nor null:
  -- JsonCpp throws, and `verifyTransaction` does not catch it, whatever inputs follow.
  pub verify_transaction-throws :
      (coinbase : Bool) (inp : Input env) (later : List (Input env)) (out : DbOutput env)
      (output_hash : ℕ)
      → contains tx.id tables.transactions ≡ false
      → outputs_exist env rules tables tx tx.outputs ≡ false
      → get_output_set_id env tx.outputs ≡ ok output_hash
      → tx.inputs ≡ inp ∷ later
      → lookup inp.output_id tables.utxos ≡ some out
      → is_locked out ≡ true
      → has_members env inp ≡ false
      → verify_transaction env rules tables tx coinbase ≡ uncaught
  unfolding verify_transaction check_new
  verify_transaction-throws coinbase inp later out output_hash unknown fresh hashed starts found
        locked scalar =
      let throws =
        ap (λ inps. check_inputs env rules tables tx inps output_hash 0 []) starts
        ∙ scalar_input inp later out output_hash found locked scalar in
      ground (arith, unknown, fresh, hashed, throws)
