-- ===== src/Types/Block/Valid.antt =====
-- Which blocks `block::checkRep` of src/kernel/blockchaintypes.cpp accepts.
use crypto_kernel.Prelude.{
  ℕ, ◌+◌, ◌*◌, ◌%◌, ◌≤◌, ◌<◌, ◌≡◌, ◌↔◌, ◌⊎◌, refl, true, false, List, [], ◌∷◌, ◌++◌, map, length,
  ◌==◌, arith, length-append, length-map, sym,
}
use crypto_kernel.Env.{Env}
use crypto_kernel.Json.{to_string as json_to_string}
use crypto_kernel.OrderedSet.{
  insert_ids, Distinct, length-insert_ids, length-insert_ids-Distinct, insert_ids-append,
  Distinct-append,
}
use crypto_kernel.Outcome.{ok}
use crypto_kernel.Types.Transaction.{Transaction, u32, root_of_ids, touched}
use crypto_kernel.Types.Block.{
  Draft, block_to_json, all_touched, all_inputs, count_puts, count_inputs, check_root, check_block,
}

-- A set that was filled from a list has as many elements as the list exactly if no element occurs twice.
count-Distinct : (ids : List ℕ) → (length (insert_ids ids []) == length ids) ≡ true → Distinct ids
count-Distinct ids e = (length-insert_ids-Distinct ids [] tt (ground arith)).0

Distinct-count : (ids : List ℕ) → Distinct ids → (length (insert_ids ids []) == length ids) ≡ true
Distinct-count ids d = ground (arith, length-insert_ids ids [] tt d (λ x m. refl))

module _ (env : Env) where
  open env use {json}
  open env.json use {is_object, is_null}

  length-touched :
      (tx : Transaction env)
      → length (touched env tx.inputs tx.outputs) ≡ length tx.inputs + length tx.outputs
  length-touched tx = omega (
    arith,
    length-append (map (λ i. i.output_id) tx.inputs) (map (λ o. o.id) tx.outputs),
    length-map tx.inputs (λ i. i.output_id),
    length-map tx.outputs (λ o. o.id),
  )

  count_puts-eq :
      (n : ℕ) (txs : List (Transaction env))
      → n + length (all_touched env txs) < u32
      → count_puts env n txs ≡ n + length (all_touched env txs)
  unfolding count_puts all_touched
  count_puts-eq n [] h = omega arith
  count_puts-eq n (tx ∷ txs) h =
      let more = length tx.inputs + length tx.outputs in
      let split : length (all_touched env (tx ∷ txs)) ≡ more + length (all_touched env txs) =
        omega (
          arith,
          length-append (touched env tx.inputs tx.outputs) (all_touched env txs),
          length-touched tx,
        ) in
      let exact : (n + more) % u32 ≡ n + more = omega (arith, split) in
      rw exact (omega (arith, split, count_puts-eq (n + more) txs (omega (arith, split))))

  count_inputs-eq :
      (n : ℕ) (txs : List (Transaction env))
      → n + length (all_inputs env txs) < u32
      → count_inputs env n txs ≡ n + length (all_inputs env txs)
  unfolding count_inputs all_inputs
  count_inputs-eq n [] h = omega arith
  count_inputs-eq n (tx ∷ txs) h =
      let split : length (all_inputs env (tx ∷ txs))
          ≡ length tx.inputs + length (all_inputs env txs) =
        omega (
          arith,
          length-append (map (λ i. i.id) tx.inputs) (all_inputs env txs),
          length-map tx.inputs (λ i. i.id),
        ) in
      let exact : (n + length tx.inputs) % u32 ≡ n + length tx.inputs = omega (arith, split) in
      rw exact
        (omega (arith, split, count_inputs-eq (n + length tx.inputs) txs (omega (arith, split))))

  -- The identifiers of all outputs that a block spends or makes, the coinbase's included.
  abbrev pub block_touched : Draft env → List ℕ
  block_touched b = all_touched env b.transactions ++ map (λ o. o.id) b.coinbase_tx.outputs

  -- What a block promises.
  pub record IsValid (b : Draft env) : Type 0 where
    pub small : length (json_to_string json (block_to_json env b) false) ≤ 4 * 1024 * 1024
    pub content_small : length (json_to_string json b.content false) ≤ 100 * 1024
    pub content_shape : (is_object b.content ≡ true) ⊎ (is_null b.content ≡ true)
    pub distinct_outputs : Distinct (block_touched b)
    pub distinct_inputs : Distinct (all_inputs env b.transactions)
    pub rooted :
        (length b.transactions ≡ 0)
        ⊎ (root_of_ids env (map (λ t. t.id) b.transactions) ≡ ok b.transaction_merkle_root)

  module _ (b : Draft env) (small_touched : length (block_touched b) < u32)
      (small_inputs : length (all_inputs env b.transactions) < u32) where
    check_root_lem : (check_root env b ≡ ok tt) ↔ (
        (length b.transactions ≡ 0)
        ⊎ (root_of_ids env (map (λ t. t.id) b.transactions) ≡ ok b.transaction_merkle_root))
    unfolding check_root
    check_root_lem = ground arith

    puts : count_puts env 0 b.transactions ≡ length (all_touched env b.transactions)
    puts =
        let made = map (λ o. o.id) b.coinbase_tx.outputs in
        omega (
          arith,
          small_touched,
          length-append (all_touched env b.transactions) made,
          count_puts-eq 0 b.transactions
              (omega (arith, small_touched, length-append (all_touched env b.transactions) made)),
        )

    all_puts :
        (count_puts env 0 b.transactions + length (map (λ o. o.id) b.coinbase_tx.outputs)) % u32
        ≡ length (block_touched b)
    all_puts = omega (
      arith,
      puts,
      small_touched,
      length-append (all_touched env b.transactions) (map (λ o. o.id) b.coinbase_tx.outputs),
    )

    all_inps : count_inputs env 0 b.transactions ≡ length (all_inputs env b.transactions)
    all_inps = omega (arith, count_inputs-eq 0 b.transactions (omega (arith, small_inputs)))

    all_ids :
        insert_ids
          (map (λ o. o.id) b.coinbase_tx.outputs)
          (insert_ids (all_touched env b.transactions) [])
        ≡ insert_ids (block_touched b) []
    all_ids = sym (
        insert_ids-append (all_touched env b.transactions) (map (λ o. o.id) b.coinbase_tx.outputs)
          [])

    -- `block::checkRep` accepts exactly the valid blocks, if less than 2 ^ 32 outputs and inputs
    -- occur.
    pub check_block-IsValid : (check_block env b ≡ ok tt) ↔ IsValid b
    unfolding check_block
    check_block-IsValid =
        rw (all_puts, puts, all_inps, all_ids)
          (
            (λ e. record {
              small = ground arith;
              content_small = ground arith;
              content_shape = ground arith;
              distinct_outputs = count-Distinct (block_touched b) (ground arith);
              distinct_inputs = count-Distinct (all_inputs env b.transactions) (ground arith);
              rooted = check_root_lem.0 (ground arith);
            }),
            (λ v.
                let touched_once = Distinct-count (block_touched b) v.distinct_outputs in
                let d =
                  Distinct-append (all_touched env b.transactions)
                    (map (λ o. o.id) b.coinbase_tx.outputs) v.distinct_outputs in
                let spent_once = Distinct-count (all_touched env b.transactions) d in
                let inputs_once =
                  Distinct-count (all_inputs env b.transactions) v.distinct_inputs in
                let root = check_root_lem.1 v.rooted in ground arith),
          )
