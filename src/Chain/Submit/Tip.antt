-- ===== src/Chain/Submit/Tip.antt =====
-- Which tables `submitBlock` of src/kernel/blockchain.cpp changes when it puts a block on the chain, but
-- for those of transactions and outputs.
use crypto_kernel.Prelude.{
  ℕ, ◌≡◌, ◌∙◌, ap, Bool, true, false, not, some, List, [], ◌∷◌, if◌then◌else◌, arith,
}
use crypto_kernel.Env.{Env}
use crypto_kernel.OrderedMap
use crypto_kernel.Outcome.{Outcome, ok, ◌>>=◌, returned}
use crypto_kernel.Types.Block.{Block}
use crypto_kernel.Types.Stored.{DbBlock, new_db_block}
use crypto_kernel.Types.Transaction.{Transaction}
use crypto_kernel.Chain.{Tables, Chain, Rules}
use crypto_kernel.Chain.Verify.{Verdict}
use crypto_kernel.Chain.Confirm.{confirm_transaction}
use crypto_kernel.Chain.Confirm.Blocks.{
  SameBlocks, SameBlocks-trans, confirm_transaction-SameBlocks,
}
use crypto_kernel.Chain.Submit.{
  all_verified, check_coinbase, confirm_all, confirm_block, rescan, rescan_returns, store_tip,
  extend_chain,
}

module _ (env : Env) (rules : Rules env) where
  confirm_all-SameBlocks :
      (txs : List (Transaction env)) (block : ℕ) (chain : Chain env) {chain' : Chain env}
      → confirm_all env rules txs block chain ≡ ok chain'
      → SameBlocks env chain.tables chain'.tables
  unfolding confirm_all
  confirm_all-SameBlocks [] block chain e = ground arith
  confirm_all-SameBlocks (tx ∷ txs) block chain {chain'} e =
      let (c, rest, first) =
        returned {result = chain'} (confirm_transaction env tx block false chain) _ e in
      SameBlocks-trans env (confirm_transaction-SameBlocks env tx block false chain first)
        (confirm_all-SameBlocks txs block c rest)

  -- What a block leaves that has become the tip.
  pub record BecomesTip (block : Block env) (height : ℕ) (t t' : Tables env) : Type 0 where
    pub stored : DbBlock env
    pub is_stored : new_db_block env block height ≡ ok stored
    pub blocks_are : t'.blocks ≡ OrderedMap.assign block.id stored t.blocks
    pub tip_is : t'.tip ≡ some stored
    pub heights_are : t'.heights ≡ OrderedMap.assign height block.id t.heights
    pub candidates_are : t'.candidates ≡ OrderedMap.erase block.id t.candidates

  rescan-tables :
      (chain : Chain env) {chain' : Chain env}
      → rescan env rules chain ≡ ok chain'
      → chain'.tables ≡ chain.tables
  unfolding rescan
  rescan-tables chain {chain'} e =
      let (done, last, scanned) =
        returned {result = chain'} (rescan_returns env rules chain.tables chain.unconfirmed.txs) _
          e in
      ground arith

  stored-BecomesTip :
      (block : Block env) (height : ℕ) (t : Tables env) (stored : DbBlock env)
      (confirmed : Chain env) {chain' : Chain env}
      → SameBlocks env t confirmed.tables
      → new_db_block env block height ≡ ok stored
      → rescan env rules
          (record confirmed { tables = store_tip env rules block stored height confirmed.tables })
        ≡ ok chain'
      → BecomesTip block height t chain'.tables
  unfolding store_tip
  stored-BecomesTip block height t stored confirmed {chain'} same made e =
      let kept = rescan-tables _ e in
      record {
        stored = stored;
        is_stored = made;
        blocks_are = ap (λ u. u.blocks) kept ∙ ap (OrderedMap.assign block.id stored) same.blocks;
        tip_is = ap (λ u. u.tip) kept;
        heights_are =
            ap (λ u. u.heights) kept ∙ ap (OrderedMap.assign height block.id) same.heights;
        candidates_are =
            ap (λ u. u.candidates) kept ∙ ap (OrderedMap.erase block.id) same.candidates;
      }

  confirm_block-BecomesTip :
      (block : Block env) (height : ℕ) (chain : Chain env) {chain' : Chain env}
      → confirm_block env rules block height chain ≡ ok chain'
      → BecomesTip block height chain.tables chain'.tables
  unfolding confirm_block
  confirm_block-BecomesTip block height chain {chain'} e =
      let (c1, after1, first) =
        returned {result = chain'}
          (confirm_transaction env block.fields.coinbase_tx block.id true chain) _ e in
      let (c2, after2, others) =
        returned {result = chain'} (confirm_all env rules block.fields.transactions block.id c1) _
          after1 in
      let (stored, after3, made) =
        returned {result = chain'} (new_db_block env block height) _ after2 in
      stored-BecomesTip block height chain.tables stored c2
        (SameBlocks-trans env
          (confirm_transaction-SameBlocks env block.fields.coinbase_tx block.id true chain first)
          (confirm_all-SameBlocks block.fields.transactions block.id c1 others))
        made after3

  consented :
      (consents : Bool) (call : Outcome (Chain env)) (chain : Chain env) {chain' : Chain env}
      {ban : Bool}
      → (let refused : Outcome (Chain env × Verdict) = ok (chain, (false, true)) in
          if not consents then refused else (call >>= λ c. ok (c, (true, false))))
        ≡ ok (chain', (true, ban))
      → call ≡ ok chain'
  consented false call chain e = absurd (ground arith)
  consented true call chain {chain'} {ban} e =
      let (c, same, confirmed) = returned {result = (chain', (true, ban))} call _ e in ground arith

  -- A block that `submitBlock` puts on the chain becomes the tip, at the height that it is given:
  -- the tables of blocks, heights and candidates change in its entry only.
  pub extend_chain-BecomesTip :
      (block : Block env) (height : ℕ) (chain : Chain env) {chain' : Chain env} {ban : Bool}
      → extend_chain env rules block height chain ≡ ok (chain', (true, ban))
      → BecomesTip block height chain.tables chain'.tables
  unfolding extend_chain
  extend_chain-BecomesTip block height chain {chain'} {ban} e =
      let t = chain.tables in
      let (verified, rest, all) =
        returned {result = (chain', (true, ban))}
          (all_verified env rules t block.fields.transactions) _ e in
      let good : verified ≡ true = ground arith in
      let (fair, last, checked) =
        returned {result = (chain', (true, ban))} (check_coinbase env rules block height t) _
          (rw good at rest) in
      let right : fair ≡ true = ground arith in
      confirm_block-BecomesTip block height chain (
        consented (rules.submits_block t block) (confirm_block env rules block height chain) chain
          (rw right at last))
