-- ===== src/Chain/Verify/Value.antt =====
-- `verifyTransaction` of src/kernel/blockchain.cpp makes no value: the outputs of a transaction that it
-- accepts add up to at most what the inputs spend, although its totals wrap around.
use crypto_kernel.Prelude.{
  ℕ, ◌+◌, ◌-◌, ◌*◌, ◌%◌, ◌≤◌, ◌<◌, ◌≡◌, Bool, true, false, none, some, List, [], ◌∷◌, map, sum,
  arith,
}
use crypto_kernel.Env.{Env}
use crypto_kernel.OrderedMap.{Map, lookup}
use crypto_kernel.Outcome.{ok, returned}
use crypto_kernel.Types.{Input, Output}
use crypto_kernel.Types.Stored.{DbOutput}
use crypto_kernel.Types.Transaction.{Transaction, u64, get_output_set_id}
use crypto_kernel.Chain.{Tables, Rules, get_transaction_fee, output_total}
use crypto_kernel.Chain.Verify.{
  Round, check_spend, check_input, check_inputs, check_totals, finish, after_inputs, check_new,
  verify_transaction,
}

module _ (env : Env) where
  -- What an output identifier is worth: the value of the unspent output, if there is one.
  abbrev pub worth : Map (DbOutput env) → ℕ → ℕ
  worth utxos id = elim (lookup id utxos) [ none ↦ 0 | some out ↦ out.output.value ]

  -- What the inputs spend, without wrap-around.
  abbrev pub spent : Map (DbOutput env) → List (Input env) → ℕ
  spent utxos inps = sum (map (λ i. worth utxos i.output_id) inps)

  -- What the outputs are worth, without wrap-around.
  abbrev pub made : List (Output env) → ℕ
  made outs = sum (map (λ o. o.value) outs)

  pub output_total-eq :
      (total : ℕ) (outs : List (Output env))
      → total + made outs < u64
      → output_total env total outs ≡ total + made outs
  unfolding output_total
  output_total-eq total [] h = omega arith
  output_total-eq total (out ∷ outs) h =
      let exact : (total + out.value) % u64 ≡ total + out.value = omega arith in
      rw exact (omega (arith, output_total-eq (total + out.value) outs (omega arith)))

module _ (env : Env) (rules : Rules env) (tables : Tables env) (tx : Transaction env) where
  check_spend-total :
      (inp : Input env) (out : DbOutput env) (output_hash total : ℕ) (maybe : Map (DbOutput env))
      (r : Round env rules tables tx)
      → check_spend env rules tables tx inp out output_hash total maybe ≡ ok r
      → r.total ≡ (total + out.output.value) % u64
  unfolding check_spend
  check_spend-total inp out output_hash total maybe r h = ground arith

  check_input-total :
      (inp : Input env) (output_hash total : ℕ) (maybe : Map (DbOutput env))
      (r : Round env rules tables tx)
      → check_input env rules tables tx inp output_hash total maybe ≡ ok r
      → r.total ≤ total + worth env tables.utxos inp.output_id
  unfolding check_input
  check_input-total inp output_hash total maybe r h =
      ground (arith, λ (out : DbOutput env). check_spend-total inp out output_hash total maybe r)

  check_inputs-total :
      (inps : List (Input env)) (output_hash total : ℕ) (maybe : Map (DbOutput env))
      (r : Round env rules tables tx)
      → check_inputs env rules tables tx inps output_hash total maybe ≡ ok r
      → r.total ≤ total + spent env tables.utxos inps
  unfolding check_inputs
  check_inputs-total [] output_hash total maybe r h = ground arith
  check_inputs-total (inp ∷ inps) output_hash total maybe r h =
      let (q, rest, first) =
        returned {result = r} (check_input env rules tables tx inp output_hash total maybe) _ h in
      ground (
        arith,
        check_input-total inp output_hash total maybe q,
        check_inputs-total inps output_hash q.total q.maybe r,
      )

  check_totals-total :
      (ban : Bool) (total : ℕ)
      → check_totals env rules tables tx false total ≡ ok (true, ban)
      → (output_total env 0 tx.outputs ≤ total)
        × (get_transaction_fee env tx ≤ (total - output_total env 0 tx.outputs) * 2)
  unfolding check_totals
  check_totals-total ban total h = ground arith

  finish-total :
      (ban : Bool) (output_hash : ℕ) (r : Round env rules tables tx)
      → finish env rules tables tx false output_hash r ≡ ok (true, ban)
      → (output_total env 0 tx.outputs ≤ r.total)
        × (get_transaction_fee env tx ≤ (r.total - output_total env 0 tx.outputs) * 2)
  unfolding finish
  finish-total ban output_hash r h = ground (arith, check_totals-total ban r.total)

  after_inputs-total :
      (ban : Bool) (output_hash : ℕ) (r : Round env rules tables tx)
      → after_inputs env rules tables tx false output_hash r ≡ ok (true, ban)
      → (output_total env 0 tx.outputs ≤ r.total)
        × (get_transaction_fee env tx ≤ (r.total - output_total env 0 tx.outputs) * 2)
  unfolding after_inputs
  after_inputs-total ban output_hash r h = ground (arith, finish-total ban output_hash r)

  check_new-total :
      (ban : Bool)
      → made env tx.outputs < u64
      → check_new env rules tables tx false ≡ ok (true, ban)
      → (made env tx.outputs ≤ spent env tables.utxos tx.inputs)
        × (get_transaction_fee env tx
            ≤ (spent env tables.utxos tx.inputs - made env tx.outputs) * 2)
  unfolding check_new
  check_new-total ban fits h =
      let (output_hash, rest, hashed) =
        returned {result = (true, ban)} (get_output_set_id env tx.outputs) _ h in
      let (r, last, looped) =
        returned {result = (true, ban)}
          (check_inputs env rules tables tx tx.inputs output_hash 0 []) _ rest in
      omega (
        arith,
        output_total-eq env 0 tx.outputs (omega (arith, fits)),
        after_inputs-total ban output_hash r last,
        check_inputs-total tx.inputs output_hash 0 [] r looped,
      )

  -- A transaction that `verifyTransaction` accepts, and that is no coinbase, makes outputs that are
  -- worth no more than the unspent outputs that its inputs name, and leaves at least half of
  -- `getTransactionFee`. It is assumed that its outputs add up within 64 bits, as `checkRep` ensures;
  -- that the sum of the inputs may wrap around does not matter.
  pub verify_transaction-conserves :
      (ban : Bool)
      → made env tx.outputs < u64
      → verify_transaction env rules tables tx false ≡ ok (true, ban)
      → (made env tx.outputs ≤ spent env tables.utxos tx.inputs)
        × (get_transaction_fee env tx
            ≤ (spent env tables.utxos tx.inputs - made env tx.outputs) * 2)
  unfolding verify_transaction
  verify_transaction-conserves ban fits h = check_new-total ban fits (ground arith)
