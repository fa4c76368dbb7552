-- ===== src/Chain/Verify/Hollow.antt =====
-- A malformed Merkle proof in the data of the first input, for `verifyTransaction` of
-- src/kernel/blockchain.cpp.
use crypto_kernel.Prelude.{ℕ, ◌≡◌, ◌∙◌, ap, Bool, true, false, some, List, [], ◌∷◌, arith}
use crypto_kernel.Env.{Env}
use crypto_kernel.OrderedMap.{lookup, contains}
use crypto_kernel.Outcome.{ok, uncaught}
use crypto_kernel.Types.{Input}
use crypto_kernel.Types.Stored.{DbOutput}
use crypto_kernel.Types.Transaction.{Transaction, get_output_set_id}
use crypto_kernel.Chain.{Tables, Rules}
use crypto_kernel.Chain.Spend.{locked_by, schnorr_key_name, merkle_root_name, check_schnorr}
use crypto_kernel.Chain.Spend.Malformed.{HasHollowProof, check_merkle_root-uncaught}
use crypto_kernel.Chain.Verify.{
  check_locks, check_spend, check_input, check_inputs, outputs_exist, check_new, verify_transaction,
}

module _ (env : Env) (rules : Rules env) (tables : Tables env) (tx : Transaction env) where
  hollow_input :
      (inp : Input env) (later : List (Input env)) (out : DbOutput env) (output_hash : ℕ)
      → lookup inp.output_id tables.utxos ≡ some out
      → locked_by env schnorr_key_name out ≡ false
      → locked_by env merkle_root_name out ≡ true
      → HasHollowProof env inp
      → check_inputs env rules tables tx (inp ∷ later) output_hash 0 [] ≡ uncaught
  unfolding check_inputs check_input check_spend check_locks check_schnorr
  hollow_input inp later out output_hash found free locked hollow =
      let throws =
        check_merkle_root-uncaught env rules tables tx inp out output_hash locked hollow in
      ground (arith, throws, found, free)

  -- `verifyTransaction` of a new transaction whose first input spends an unspent pay-to-merkleroot
  -- output without a Schnorr key and a contract, and carries a Merkle proof with a position and with
  -- leaves that are neither null nor empty nor a container: it throws an exception that it does not
  -- catch, whether the spend is by script or by public key with a signature, and whatever inputs follow.
  pub verify_transaction-uncaught :
      (coinbase : Bool) (inp : Input env) (later : List (Input env)) (out : DbOutput env)
      (output_hash : ℕ)
      → contains tx.id tables.transactions ≡ false
      → outputs_exist env rules tables tx tx.outputs ≡ false
      → get_output_set_id env tx.outputs ≡ ok output_hash
      → tx.inputs ≡ inp ∷ later
      → lookup inp.output_id tables.utxos ≡ some out
      → locked_by env schnorr_key_name out ≡ false
      → locked_by env merkle_root_name out ≡ true
      → HasHollowProof env inp
      → verify_transaction env rules tables tx coinbase ≡ uncaught
  unfolding verify_transaction check_new
  verify_transaction-uncaught coinbase inp later out output_hash unknown fresh hashed starts found
        free locked hollow =
      let throws =
        ap (λ inps. check_inputs env rules tables tx inps output_hash 0 []) starts
        ∙ hollow_input inp later out output_hash found free locked hollow in
      ground (arith, unknown, fresh, hashed, throws)
