-- ===== src/Chain/Submit/Value.antt =====
-- A block that `submitBlock` of src/kernel/blockchain.cpp accepts makes no more value than it spends and
-- the reward of its height.
use crypto_kernel.Prelude.{
  ℕ, ◌+◌, ◌-◌, ◌%◌, ◌≤◌, ◌<◌, ◌≡◌, ◌∙◌, ap, Bool, true, false, List, [], ◌∷◌, All, arith,
}
use crypto_kernel.Env.{Env}
use crypto_kernel.Outcome.{ok, returned}
use crypto_kernel.Types.{Input}
use crypto_kernel.Types.Block.{Block}
use crypto_kernel.Types.Transaction.{Transaction, u64}
use crypto_kernel.Chain.{
  Tables, Chain, Rules, get_output_or_throw, input_total, calculate_transaction_fee, output_total,
}
use crypto_kernel.Chain.Verify.{verify_transaction}
use crypto_kernel.Chain.Verify.Value.{
  worth, spent, made, output_total-eq, verify_transaction-conserves,
}
use crypto_kernel.Chain.Submit.{all_verified, total_fees, check_coinbase, extend_chain}

module _ (env : Env) where
  -- Neither total of the transaction exceeds 64 bits.
  abbrev pub Fits : Tables env → Transaction env → Type 0
  Fits t tx = (spent env t.utxos tx.inputs < u64) × (made env tx.outputs < u64)

  input_total-eq :
      (t : Tables env) (total : ℕ) (inps : List (Input env)) (result : ℕ)
      → total + spent env t.utxos inps < u64
      → input_total env t total inps ≡ ok result
      → result ≡ total + spent env t.utxos inps
  unfolding input_total get_output_or_throw
  input_total-eq t total [] result h e = ground arith
  input_total-eq t total (inp ∷ inps) result h e =
      let (out, rest, found) =
        returned {result = result} (get_output_or_throw env inp.output_id t.utxos) _ e in
      let value : worth env t.utxos inp.output_id ≡ out.output.value = ground arith in
      let exact : (total + out.output.value) % u64 ≡ total + out.output.value =
        omega (arith, value) in
      omega (
        arith,
        value,
        input_total-eq t (total + out.output.value) inps result (omega (arith, value))
            (rw exact at rest),
      )

  fee-eq :
      (t : Tables env) (tx : Transaction env) (fee : ℕ)
      → Fits t tx
      → made env tx.outputs ≤ spent env t.utxos tx.inputs
      → calculate_transaction_fee env t tx ≡ ok fee
      → fee + made env tx.outputs ≡ spent env t.utxos tx.inputs
  unfolding calculate_transaction_fee
  fee-eq t tx fee fits enough e =
      let (total, rest, summed) = returned {result = fee} (input_total env t 0 tx.inputs) _ e in
      let outs = output_total-eq env 0 tx.outputs (omega (arith, fits.1)) in
      let ins = input_total-eq t 0 tx.inputs total (omega (arith, fits.0)) summed in
      let value : fee ≡ (total + u64 - output_total env 0 tx.outputs) % u64 = ground arith in
      omega (arith, fits.0, fits.1)

module _ (env : Env) (rules : Rules env) where
  -- What the transactions spend and make, without wrap-around.
  pub all_spent : Tables env → List (Transaction env) → ℕ
  all_spent t [] = 0
  all_spent t (tx ∷ txs) = spent env t.utxos tx.inputs + all_spent t txs

  pub all_made : List (Transaction env) → ℕ
  all_made [] = 0
  all_made (tx ∷ txs) = made env tx.outputs + all_made txs

  total_fees-le :
      (t : Tables env) (fees : ℕ) (txs : List (Transaction env)) (result : ℕ)
      → All (Fits env t) txs
      → all_verified env rules t txs ≡ ok true
      → total_fees env rules t fees txs ≡ ok result
      → result + all_made txs ≤ fees + all_spent t txs
  unfolding total_fees all_verified all_spent all_made
  total_fees-le t fees [] result fits v e = ground arith
  total_fees-le t fees (tx ∷ txs) result (fit, fits) v e =
      let (verdict, others, first) =
        returned {result = true} (verify_transaction env rules t tx false) _ v in
      let (rest, both, verified) =
        returned {result = true} (all_verified env rules t txs) _ others in
      let (fee, more, one) = returned {result = result} (calculate_transaction_fee env t tx) _ e in
      let good : verdict ≡ (true, verdict.1) = ground arith in
      let conserved =
        verify_transaction-conserves env rules t tx verdict.1 fit.1 (first ∙ ap ok good) in
      let all : rest ≡ true = ground arith in
      let kept = total_fees-le t ((fees + fee) % u64) txs result fits (verified ∙ ap ok all) more in
      omega (arith, fee-eq env t tx fee fit conserved.0 one, kept)

  check_coinbase-le :
      (block : Block env) (height : ℕ) (t : Tables env)
      → All (Fits env t) block.fields.transactions
      → made env block.fields.coinbase_tx.outputs < u64
      → all_verified env rules t block.fields.transactions ≡ ok true
      → check_coinbase env rules block height t ≡ ok true
      → made env block.fields.coinbase_tx.outputs + all_made block.fields.transactions
        ≤ all_spent t block.fields.transactions + rules.block_reward height
  unfolding check_coinbase
  check_coinbase-le block height t fits small v e =
      let txs = block.fields.transactions in
      let (fees, rest, summed) = returned {result = true} (total_fees env rules t 0 txs) _ e in
      let (verdict, last, verified) =
        returned {result = true} (verify_transaction env rules t block.fields.coinbase_tx true) _
          rest in
      let bound : output_total env 0 block.fields.coinbase_tx.outputs
          ≤ (fees + rules.block_reward height) % u64 =
        ground arith in
      omega (
        arith,
        bound,
        output_total-eq env 0 block.fields.coinbase_tx.outputs (omega (arith, small)),
        total_fees-le t 0 txs fees fits v summed,
      )

  -- A block that `submitBlock` puts on the chain creates no value but the reward of its height: what
  -- the coinbase and the transactions make is at most what the transactions spend and the reward. It
  -- is assumed that the totals of each transaction and of the coinbase fit in 64 bits; the sum of the
  -- fees may wrap around.
  pub extend_chain-conserves :
      (block : Block env) (height : ℕ) (chain : Chain env) {chain' : Chain env} {ban : Bool}
      → All (Fits env chain.tables) block.fields.transactions
      → made env block.fields.coinbase_tx.outputs < u64
      → extend_chain env rules block height chain ≡ ok (chain', (true, ban))
      → made env block.fields.coinbase_tx.outputs + all_made block.fields.transactions
        ≤ all_spent chain.tables block.fields.transactions + rules.block_reward height
  unfolding extend_chain
  extend_chain-conserves block height chain {chain'} {ban} fits small e =
      let t = chain.tables in
      let (verified, rest, all) =
        returned {result = (chain', (true, ban))}
          (all_verified env rules t block.fields.transactions) _ e in
      let good : verified ≡ true = ground arith in
      let (fair, last, checked) =
        returned {result = (chain', (true, ban))} (check_coinbase env rules block height t) _
          (rw good at rest) in
      let right : fair ≡ true = ground arith in
      check_coinbase-le block height t fits small (all ∙ ap ok good) (checked ∙ ap ok right)
