-- ===== src/Chain/Verify/Skipped.antt =====
-- The `break` in the loop over the inputs of `verifyTransaction`, src/kernel/blockchain.cpp: a
-- pay-to-merkleroot spend by a public key ends the loop, not its round.
use crypto_kernel.Prelude.{◌≡◌, true, false, some}
use crypto_kernel.Env.{Env}
use crypto_kernel.OrderedMap.{lookup}
use crypto_kernel.Types.{Input, contract_name}
use crypto_kernel.Types.Stored.{DbOutput}
use crypto_kernel.Types.Transaction.{Transaction}
use crypto_kernel.Chain.{Tables, Rules}
use crypto_kernel.Chain.Spend.{has_members}
use crypto_kernel.Chain.Aggregate.{aggregate_name}

module _ (env : Env) (rules : Rules env) (tables : Tables env) (tx : Transaction env) where
  open env.json use {member, is_object, empty}

  -- The input spends an unspent output without a contract, and carries no aggregate signature.
  abbrev pub IsBare : Input env → Type 0
  IsBare inp =
      (has_members env inp ≡ true)
      × (is_object (member inp.content aggregate_name) ≡ false)
      × ((out : DbOutput env) × (lookup inp.output_id tables.utxos ≡ some out)
          × (empty (member out.output.content contract_name) ≡ true))
