-- ===== src/Chain/Build/Ends.antt =====
-- What src/kernel/blockchain.cpp does to put a block together again needs no fuel: `getBlockDB` and
-- `buildBlock` end.
use crypto_kernel.Prelude.{
  ℕ, ◌≡◌, ◌∙◌, sym, Bool, true, false, none, some, List, [], ◌∷◌, map, arith, Option-cases, inl,
  inr,
}
use crypto_kernel.Env.{Env}
use crypto_kernel.OrderedMap.{lookup}
use crypto_kernel.Outcome.{◌>>=◌}
use crypto_kernel.Outcome.Ends.{Ends, Ends-then, Ends-ok}
use crypto_kernel.Types.{Input, Output}
use crypto_kernel.Types.Block.{
  Draft, Block, check_root, check_block, root_of_transactions, new_block,
}
use crypto_kernel.Types.Stored.{
  DbTransaction, DbBlock, stored_root, check_db_block, new_db_block, new_db_block_at_own_height,
}
use crypto_kernel.Types.Transaction.{
  Transaction, root_of_set, root_of_ids, check_transaction, get_output_set_id, inputs_buffer,
  calculate_transaction_id, new_transaction,
}
use crypto_kernel.Chain.{Tables, get_output_db, get_block_db}
use crypto_kernel.Chain.Build.{
  get_outputs, get_inputs, get_transaction, get_transactions_of, rebuild, build_block, get_block,
}

module _ (env : Env) where
  open env.json use {Json}

  root_of_ids-Ends : (ids : List ℕ) → Ends (root_of_ids env ids)
  unfolding root_of_ids root_of_set
  root_of_ids-Ends ids e = ground arith

  check_transaction-Ends :
      (inputs : List (Input env)) (outputs : List (Output env)) (bytes : ℕ) (coinbase : Bool)
      → Ends (check_transaction env inputs outputs bytes coinbase)
  unfolding check_transaction
  check_transaction-Ends inputs outputs bytes coinbase e = ground arith

  inputs_buffer-Ends : (inputs : List (Input env)) → Ends (inputs_buffer env inputs)
  unfolding inputs_buffer
  inputs_buffer-Ends [] = Ends-ok []
  inputs_buffer-Ends (i ∷ inputs) = Ends-then _ _ (root_of_ids-Ends _) (λ root got. Ends-ok _)

  calculate_transaction_id-Ends :
      (inputs : List (Input env)) (outputs : List (Output env)) (timestamp : ℕ)
      → Ends (calculate_transaction_id env inputs outputs timestamp)
  unfolding calculate_transaction_id get_output_set_id
  calculate_transaction_id-Ends inputs outputs timestamp =
      Ends-then _ _ (inputs_buffer-Ends inputs)
        (λ head got. Ends-then _ _ (root_of_ids-Ends _) (λ set_id found. Ends-ok _))

  new_transaction-Ends :
      (inputs : List (Input env)) (outputs : List (Output env)) (timestamp : ℕ) (coinbase : Bool)
      → Ends (new_transaction env inputs outputs timestamp coinbase)
  unfolding new_transaction
  new_transaction-Ends inputs outputs timestamp coinbase =
      Ends-then _ _ (check_transaction-Ends inputs outputs _ coinbase) (λ checked got.
        Ends-then _ _ (calculate_transaction_id-Ends inputs outputs timestamp)
          (λ id found. Ends-ok _))

  check_root-Ends : (b : Draft env) → Ends (check_root env b)
  unfolding check_root
  check_root-Ends b e = ground (arith, root_of_ids-Ends (map (λ t. t.id) b.transactions))

  check_block-Ends : (b : Draft env) → Ends (check_block env b)
  unfolding check_block
  check_block-Ends b e = ground (arith, check_root-Ends b)

  root_of_transactions-Ends : (txs : List (Transaction env)) → Ends (root_of_transactions env txs)
  unfolding root_of_transactions
  root_of_transactions-Ends [] = Ends-ok 0
  root_of_transactions-Ends (tx ∷ txs) = root_of_ids-Ends _

  new_block-Ends :
      (txs : List (Transaction env)) (coinbase : Transaction env) (previous timestamp : ℕ)
      (consensus : Json) (height : ℕ) (content : Json)
      → Ends (new_block env txs coinbase previous timestamp consensus height content)
  unfolding new_block
  new_block-Ends txs coinbase previous timestamp consensus height content =
      Ends-then _ _ (new_transaction-Ends coinbase.inputs coinbase.outputs coinbase.timestamp true)
        (λ made got.
          Ends-then _ _ (root_of_transactions-Ends txs)
            (λ root found. Ends-then _ _ (check_block-Ends _) (λ checked right. Ends-ok _)))

  new_db_block-Ends : (block : Block env) → Ends (new_db_block_at_own_height env block)
  unfolding new_db_block_at_own_height new_db_block stored_root check_db_block root_of_set
  new_db_block-Ends block e = ground arith

  module _ (t : Tables env) where
    pub get_output_db-Ends : (id : ℕ) → Ends (get_output_db env t id)
    unfolding get_output_db
    get_output_db-Ends id e = ground arith

    pub get_block_db-Ends : (id : ℕ) (main_chain : Bool) → Ends (get_block_db env t id main_chain)
    unfolding get_block_db
    get_block_db-Ends id main_chain e = elim (Option-cases (lookup id t.candidates)) [
      | inl absent ↦ ground arith
      | inr (block, found) ↦ ground (arith, new_db_block-Ends block)
    ]

    get_outputs-Ends : (ids : List ℕ) → Ends (get_outputs env t ids)
    unfolding get_outputs
    get_outputs-Ends [] = Ends-ok []
    get_outputs-Ends (id ∷ ids) =
        Ends-then _ _ (get_output_db-Ends id)
          (λ out got. Ends-then _ _ (get_outputs-Ends ids) (λ outs found. Ends-ok _))

    get_transaction-stored :
        (id : ℕ) (tx : DbTransaction env)
        → lookup id t.transactions ≡ some tx
        → get_transaction env t id ≡ (
            get_outputs env t tx.outputs >>= λ outputs.
            new_transaction env (get_inputs env t tx.inputs) outputs tx.timestamp tx.coinbase)
    unfolding get_transaction
    get_transaction-stored id tx found = ground (arith, found)

    get_transaction-absent :
        (id : ℕ) → lookup id t.transactions ≡ none → Ends (get_transaction env t id)
    unfolding get_transaction
    get_transaction-absent id absent e = ground arith

    get_transaction-Ends : (id : ℕ) → Ends (get_transaction env t id)
    get_transaction-Ends id = elim (Option-cases (lookup id t.transactions)) [
      | inl absent ↦ get_transaction-absent id absent
      | inr (tx, found) ↦
          let ends =
            Ends-then (get_outputs env t tx.outputs) _ (get_outputs-Ends tx.outputs) (λ outs got.
              new_transaction-Ends (get_inputs env t tx.inputs) outs tx.timestamp tx.coinbase) in
          λ e. ends (sym (get_transaction-stored id tx found) ∙ e)
    ]

    get_transactions_of-Ends : (ids : List ℕ) → Ends (get_transactions_of env t ids)
    unfolding get_transactions_of
    get_transactions_of-Ends [] = Ends-ok []
    get_transactions_of-Ends (id ∷ ids) =
        Ends-then _ _ (get_transaction-Ends id)
          (λ tx got. Ends-then _ _ (get_transactions_of-Ends ids) (λ txs found. Ends-ok _))

    rebuild-Ends : (b : DbBlock env) → Ends (rebuild env t b)
    unfolding rebuild
    rebuild-Ends b = Ends-then _ _ (get_transactions_of-Ends b.transactions) (λ txs got.
        Ends-then _ _ (get_transaction-Ends b.coinbase_tx) (λ coinbase found.
          new_block-Ends txs coinbase b.previous_block_id b.timestamp b.consensus_data b.height
            env.json.null))

    build_block-Ends : (b : DbBlock env) → Ends (build_block env t b)
    unfolding build_block
    build_block-Ends b e = ground (arith, rebuild-Ends b)

    pub get_block-Ends : (id : ℕ) → Ends (get_block env t id)
    unfolding get_block
    get_block-Ends id = Ends-then _ _ (get_block_db-Ends id false) (λ b got. build_block-Ends b)
