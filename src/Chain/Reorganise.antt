-- ===== src/Chain/Reorganise.antt =====
-- src/kernel/blockchain.cpp: `reverseBlock`, `reorgChain` and `submitBlock`, which call one another. The
-- fuel of `submit_block` bounds how deep they nest, and the rounds of the loops of `reorgChain`.
pub mod Parent
pub mod Accepted
mod Tests
use crypto_kernel.Prelude.{
  ℕ, zero, suc, ◌+◌, ◌%◌, ◌≡◌, Bool, true, false, not, Option, none, some, List, [], ◌∷◌, ◌==◌,
  if◌then◌else◌,
}
use crypto_kernel.Env.{Env}
use crypto_kernel.OrderedMap
use crypto_kernel.OrderedMap.{Map, lookup, contains}
use crypto_kernel.Outcome.{Outcome, ok, undefined, out_of_fuel, ◌>>=◌}
use crypto_kernel.Types.Block.{Block}
use crypto_kernel.Types.Stored.{DbBlock, new_db_block_at_own_height}
use crypto_kernel.Types.Transaction.{Transaction, u64}
use crypto_kernel.Chain.{Tables, Chain, Rules, get_block_db, get_tip}
use crypto_kernel.Chain.Build.{get_tip_block}
use crypto_kernel.Chain.Confirm.{erase_utxos, reverse_transaction}
use crypto_kernel.Chain.Submit.{submit_transaction, rescan, extend_chain}
use crypto_kernel.Chain.Verify.{Verdict}

module _ (env : Env) (rules : Rules env) where
  pub reverse_transactions : List (Transaction env) → Tables env → Outcome (Tables env)
  reverse_transactions [] t = ok t
  reverse_transactions (tx ∷ txs) t = reverse_transaction env tx t >>= reverse_transactions txs

  -- The loop over `replayTxs`; a refusal is only logged.
  pub replay : List (Transaction env) → Chain env → Outcome (Chain env)
  replay [] chain = ok chain
  replay (tx ∷ txs) chain = submit_transaction env rules tx chain >>= λ r. replay txs r.0

  -- The tip's entries give way to those of the block before, and the tip becomes a candidate.
  pub remove_tip : Block env → DbBlock env → DbBlock env → Tables env → Tables env
  remove_tip tip stored previous t = record t {
    heights = OrderedMap.erase stored.height t.heights;
    blocks = OrderedMap.erase tip.id t.blocks;
    tip = some previous;
    candidates = OrderedMap.assign tip.id tip t.candidates;
  }

  -- `reverseBlock`
  pub reverse_block : Chain env → Outcome (Chain env)
  unfolding reverse_transactions replay remove_tip
  reverse_block chain = get_tip_block env chain.tables >>= λ tip.
      erase_utxos env tip.fields.coinbase_tx.outputs chain.tables >>= λ t1.
      reverse_transactions tip.fields.transactions
        (record t1 { transactions = OrderedMap.erase tip.fields.coinbase_tx.id t1.transactions })
      >>= λ t2. get_tip env t2 >>= λ stored.
          get_block_db env (record t2 { blocks = OrderedMap.erase tip.id t2.blocks })
            tip.fields.previous_block_id false
          >>= λ previous.
              rescan env rules (record chain { tables = remove_tip tip stored previous t2 })
              >>= replay tip.fields.transactions

  -- The first loop of `reorgChain`: the stack of candidates from the new tip down, its top first.
  pub gather : ℕ → ℕ → Tables env → List (Block env) → Outcome (List (Block env))
  gather zero id t stack = elim (lookup id t.candidates) [
    | none ↦ ok stack
    | some block ↦ out_of_fuel
  ]
  gather (suc fuel) id t stack = elim (lookup id t.candidates) [
    | none ↦ ok stack
    | some block ↦ gather fuel block.fields.previous_block_id t (block ∷ stack)
  ]

  -- The second loop: blocks are reversed down to the fork.
  pub reverse_to : ℕ → ℕ → Chain env → Outcome (Chain env)
  unfolding reverse_block
  reverse_to zero fork chain =
      get_tip env chain.tables >>= λ tip. if tip.id == fork then ok chain else out_of_fuel
  reverse_to (suc fuel) fork chain = get_tip env chain.tables >>= λ tip.
      if tip.id == fork then ok chain else (reverse_block chain >>= reverse_to fuel fork)

  abbrev Submit : Type 0
  Submit = Block env → Bool → Chain env → Outcome (Chain env × Verdict)

  -- The third loop, which stops at a block that is refused.
  pub submit_all : Submit → List (Block env) → Chain env → Outcome (Chain env × Bool)
  submit_all submit [] chain = ok (chain, true)
  submit_all submit (block ∷ blocks) chain = submit block false chain >>= λ r.
      if r.1.0 then submit_all submit blocks r.0 else ok (r.0, false)

  -- `reorgChain`; `top` of an empty stack is undefined.
  pub reorg_chain : Submit → ℕ → ℕ → Chain env → Outcome (Chain env × Bool)
  unfolding gather reverse_to submit_all
  reorg_chain submit fuel new_tip chain = gather fuel new_tip chain.tables [] >>= λ blocks.
      elim blocks [
        | [] ↦ undefined
        | block ∷ later ↦
            reverse_to fuel block.fields.previous_block_id chain
            >>= submit_all submit (block ∷ later)
      ]

  -- Where `submitBlock` puts a block: on the chain, with the candidates, or nowhere.
  pub data Place : Type 0 where
    on_chain : ℕ → Place
    aside : ℕ → Place
    nowhere : Place

  -- `previousBlockJson`, read as a `dbBlock`
  pub find_previous : Tables env → ℕ → Outcome (Option (DbBlock env))
  find_previous t id = elim (lookup id t.blocks) [
    | some block ↦ ok (some block)
    | none ↦ elim (lookup id t.candidates) [
      | none ↦ ok none
      | some block ↦ new_db_block_at_own_height env block >>= λ stored. ok (some stored)
    ]
  ]

  abbrev Reorg : Type 0
  Reorg = ℕ → Chain env → Outcome (Chain env × Bool)

  next_height : DbBlock env → ℕ
  next_height block = (block.height + 1) % u64

  -- The comparison of the previous block with the tip
  pub place_block : Reorg → Block env → DbBlock env → Chain env → Outcome (Chain env × Place)
  unfolding next_height
  place_block reorg block previous chain = get_tip env chain.tables >>= λ tip.
      if previous.id == tip.id
      then ok (chain, on_chain (next_height tip))
      else (rules.is_block_better chain.tables block tip >>= λ better.
          if better
          then (reorg previous.id chain >>= λ r.
              if r.1
              then (get_tip env r.0.tables >>= λ new_tip. ok (r.0, on_chain (next_height new_tip)))
              else ok (r.0, nowhere))
          else (get_block_db env chain.tables block.fields.previous_block_id false >>= λ before.
              ok (chain, aside (next_height before))))

  -- What follows: the block is stored where its place is, and read again for the log.
  pub put_block : Block env → Chain env × Place → Outcome (Chain env × Verdict)
  put_block block (chain, nowhere) = ok (chain, (false, true))
  put_block block (chain, on_chain height) = extend_chain env rules block height chain >>= λ r.
      if r.1.0 then (get_block_db env r.0.tables block.id false >>= λ stored. ok r) else ok r
  put_block block (chain, aside height) =
      let saved = record block { fields = record block.fields { height = height } } in
      let t = chain.tables in
      let t' = record t { candidates = OrderedMap.assign block.id saved t.candidates } in
      get_block_db env t' block.id false >>= λ stored.
      ok (record chain { tables = t' }, (true, false))

  -- The block's predecessor and the consensus rules
  pub submit_successor : Reorg → Block env → Chain env → Outcome (Chain env × Verdict)
  unfolding find_previous place_block put_block
  submit_successor reorg block chain =
      find_previous chain.tables block.fields.previous_block_id >>= λ found. elim found [
        | none ↦ ok (chain, (false, true))
        | some previous ↦ rules.check_consensus_rules chain.tables block previous >>= λ answer.
            elim answer [
              | none ↦ ok (chain, (false, true))
              | some checked ↦ place_block reorg checked previous chain >>= put_block checked
            ]
      ]

  -- The genesis block stands at height 1.
  pub submit_genesis : Block env → Chain env → Outcome (Chain env × Verdict)
  unfolding put_block
  submit_genesis block chain = put_block block (chain, on_chain 1) >>= λ r.
      ok (if r.1.0 then (record r.0 { genesis_block_id = block.id }, r.1) else r)

  pub submit_block_with : Reorg → Submit
  unfolding submit_successor submit_genesis
  submit_block_with reorg block genesis chain =
      if contains block.id chain.tables.blocks
      then ok (chain, (true, false))
      else if genesis
      then submit_genesis block chain
      else submit_successor reorg block chain

  -- `submitBlock(dbTx, block, genesisBlock)`
  unfoldable pub submit_block : ℕ → Submit
  unfolding submit_block_with reorg_chain
  submit_block zero = submit_block_with (λ new_tip chain. out_of_fuel)
  submit_block (suc fuel) = submit_block_with (reorg_chain (submit_block fuel) (suc fuel))
