-- ===== src/Chain/Verify.antt =====
-- `verifyTransaction` of src/kernel/blockchain.cpp. Its result is a pair: whether the transaction is
-- valid, and whether its sender is to be banned. A fee below half of `getTransactionFee`, which the
-- source compares as floating point numbers, is compared doubled.
pub mod Value
pub mod Skipped
pub mod Signed
pub mod Hollow
pub mod Scalar
mod Tests
use crypto_kernel.Prelude.{
  ℕ, ◌+◌, ◌-◌, ◌*◌, ◌%◌, ◌≡◌, Bool, true, false, not, ◌&&◌, ◌||◌, Option, none, some, List, [], ◌∷◌,
  length, ltb, ◌==◌, if◌then◌else◌,
}
use crypto_kernel.Env.{Env}
use crypto_kernel.OrderedMap.{Map, lookup, contains}
use crypto_kernel.Outcome.{Outcome, ok, ◌>>=◌, or_throws}
use crypto_kernel.Types.{Input, Output, contract_name}
use crypto_kernel.Types.Stored.{DbOutput}
use crypto_kernel.Types.Transaction.{Transaction, u64, get_output_set_id}
use crypto_kernel.Chain.{Tables, Rules, get_output_or_throw, get_transaction_fee, output_total}
use crypto_kernel.Chain.Spend.{
  Flow, go_on, leave, refuse, check_schnorr, check_merkle_root, check_key,
}
use crypto_kernel.Chain.Aggregate.{check_aggregates}

abbrev pub Verdict : Type 0
Verdict = Bool × Bool

-- A check runs only if the one before it went on.
abbrev pub and_then : Flow → Outcome Flow → Outcome Flow
and_then go_on next = next
and_then leave next = ok leave
and_then (refuse ban) next = ok (refuse ban)

module _ (env : Env) (rules : Rules env) (tables : Tables env) (tx : Transaction env) where
  open env.json use {Json, member, empty, as_text}

  -- Where the loop over the inputs stands: the value spent so far, and the outputs that an aggregate
  -- signature must yet cover.
  pub record Round : Type 0 where
    pub flow : Flow
    pub total : ℕ
    pub maybe : Map (DbOutput env)

  -- The second and third check of a spent output, after the first one ended with `flow`.
  check_locks : Input env → DbOutput env → ℕ → Flow → Outcome Flow
  check_locks inp out output_hash flow =
      and_then flow (check_merkle_root env rules tables tx inp out output_hash) >>= λ f.
      and_then f (check_key env rules tables tx inp out output_hash)

  -- The body of the loop, for an output that is unspent
  pub check_spend : Input env → DbOutput env → ℕ → ℕ → Map (DbOutput env) → Outcome Round
  unfolding check_locks
  check_spend inp out output_hash total maybe =
      check_schnorr env rules tables tx inp out output_hash maybe >>= λ r.
      check_locks inp out output_hash r.0 >>= λ flow.
      ok (record { flow = flow; total = (total + out.output.value) % u64; maybe = r.1 })

  -- The body of the loop
  pub check_input : Input env → ℕ → ℕ → Map (DbOutput env) → Outcome Round
  unfolding check_spend
  check_input inp output_hash total maybe = elim (lookup inp.output_id tables.utxos) [
    | none ↦ ok (record { flow = refuse false; total = total; maybe = maybe })
    | some out ↦ check_spend inp out output_hash total maybe
  ]

  pub check_inputs : List (Input env) → ℕ → ℕ → Map (DbOutput env) → Outcome Round
  unfolding check_input
  check_inputs [] output_hash total maybe =
      ok (record { flow = go_on; total = total; maybe = maybe })
  check_inputs (inp ∷ inps) output_hash total maybe =
      check_input inp output_hash total maybe >>= λ r. elim r.flow [
        | go_on ↦ check_inputs inps output_hash r.total r.maybe
        | leave ↦ ok r
        | refuse ban ↦ ok r
      ]

  -- Whether the first loop finds one of the outputs in the tables.
  pub outputs_exist : List (Output env) → Bool
  outputs_exist [] = false
  outputs_exist (out ∷ outs) =
      contains out.id tables.utxos || contains out.id tables.stxos || outputs_exist outs

  -- `ContractRunner::evaluateValid`
  pub evaluate_valid : List (Input env) → Outcome Bool
  evaluate_valid [] = ok true
  evaluate_valid (inp ∷ inps) = get_output_or_throw env inp.output_id tables.utxos >>= λ out.
      if empty (member out.output.content contract_name)
      then evaluate_valid inps
      else (or_throws (as_text (member out.output.content contract_name)) >>= λ script.
          or_throws (rules.evaluate_script tables tx inp script) >>= λ valid.
          if valid then evaluate_valid inps else ok false)

  -- The last checks: contracts, and the rules of the consensus method.
  pub check_rules : Outcome Verdict
  unfolding evaluate_valid
  check_rules = evaluate_valid tx.inputs >>= λ valid.
      ok (if valid && rules.verifies_transaction tables tx then (true, false) else (false, true))

  -- The totals, for a transaction that is no coinbase
  pub check_totals : Bool → ℕ → Outcome Verdict
  unfolding check_rules
  check_totals coinbase total =
      let made = output_total env 0 tx.outputs in
      if not coinbase && (ltb total made || ltb ((total - made) * 2) (get_transaction_fee env tx))
      then ok (false, true)
      else check_rules

  -- What follows the loop over the inputs.
  pub finish : Bool → ℕ → Round → Outcome Verdict
  unfolding check_totals
  finish coinbase output_hash r = check_aggregates env tx.inputs output_hash r.maybe >>= λ covered.
      elim covered [
        | none ↦ ok (false, true)
        | some uncovered ↦
            if length uncovered == 0 then check_totals coinbase r.total else ok (false, true)
      ]

  -- What is returned after the loop, unless it returned already.
  pub after_inputs : Bool → ℕ → Round → Outcome Verdict
  unfolding finish
  after_inputs coinbase output_hash r = elim r.flow [
    | refuse ban ↦ ok (false, ban)
    | go_on ↦ finish coinbase output_hash r
    | leave ↦ finish coinbase output_hash r
  ]

  -- The checks of a transaction that is new
  pub check_new : Bool → Outcome Verdict
  unfolding check_inputs after_inputs
  check_new coinbase = get_output_set_id env tx.outputs >>= λ output_hash.
      check_inputs tx.inputs output_hash 0 [] >>= after_inputs coinbase output_hash

  -- `verifyTransaction(dbTransaction, tx, coinbaseTx)`
  unfoldable pub verify_transaction : Bool → Outcome Verdict
  unfolding outputs_exist check_new
  verify_transaction coinbase =
      if contains tx.id tables.transactions || outputs_exist tx.outputs
      then ok (false, false)
      else check_new coinbase
