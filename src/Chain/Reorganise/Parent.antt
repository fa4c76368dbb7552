-- ===== src/Chain/Reorganise/Parent.antt =====
-- What `submitBlock` of src/kernel/blockchain.cpp does with a block, by where its parent stands.
use crypto_kernel.Prelude.{ℕ, suc, ◌≡◌, ◌≢◌, refl, Bool, true, false, none, some, arith}
use crypto_kernel.Env.{Env}
use crypto_kernel.OrderedMap.{lookup}
use crypto_kernel.Outcome.{Outcome, ok, undefined, ◌>>=◌}
use crypto_kernel.Types.Block.{Block}
use crypto_kernel.Types.Stored.{DbBlock}
use crypto_kernel.Chain.{Chain, Rules, get_tip}
use crypto_kernel.Chain.Reorganise.{
  gather, reorg_chain, find_previous, place_block, put_block, submit_successor, submit_block_with,
  submit_block,
}

module _ (env : Env) (rules : Rules env) (chain : Chain env) where
  -- A block that is not on the main chain, with a parent there, that the consensus rules accept.
  pub record Arrives (block : Block env) (parent tip : DbBlock env) : Type 0 where
    pub is_new : lookup block.id chain.tables.blocks ≡ none
    pub has_parent : lookup block.fields.previous_block_id chain.tables.blocks ≡ some parent
    pub has_tip : chain.tables.tip ≡ some tip
    pub conforms : rules.check_consensus_rules chain.tables block parent ≡ ok (some block)

  with_parent :
      (block : Block env) (parent tip : DbBlock env)
      (reorg : ℕ → Chain env → Outcome (Chain env × Bool))
      → Arrives block parent tip
      → submit_block_with env rules reorg block false chain
        ≡ (place_block env rules reorg block parent chain >>= put_block env rules block)
  unfolding submit_block_with submit_successor find_previous
  with_parent block parent tip reorg a = ground (arith, a.is_new, a.has_parent, a.conforms)

  reorg-undefined :
      (fuel id : ℕ)
      → lookup id chain.tables.candidates ≡ none
      → reorg_chain env rules (submit_block env rules fuel) (suc fuel) id chain ≡ undefined
  unfolding reorg_chain gather
  reorg-undefined fuel id absent = ground arith

  place-below_tip :
      (block : Block env) (parent tip : DbBlock env)
      (reorg : ℕ → Chain env → Outcome (Chain env × Bool))
      → chain.tables.tip ≡ some tip
      → parent.id ≢ tip.id
      → rules.is_block_better chain.tables block tip ≡ ok true
      → reorg parent.id chain ≡ undefined
      → place_block env rules reorg block parent chain ≡ undefined
  unfolding place_block get_tip
  place-below_tip block parent tip reorg has_tip below better broken = ground arith

  -- A new block, which the consensus rules accept unchanged and find better than the tip, has its
  -- parent on the main chain but not at the tip, and the parent is no candidate. Then `reorgChain`
  -- reads the top of an empty stack, which is undefined.
  pub submit_block-below_tip :
      (fuel : ℕ) (block : Block env) (parent tip : DbBlock env)
      → Arrives block parent tip
      → parent.id ≢ tip.id
      → rules.is_block_better chain.tables block tip ≡ ok true
      → lookup parent.id chain.tables.candidates ≡ none
      → submit_block env rules (suc fuel) block false chain ≡ undefined
  unfolding submit_block
  submit_block-below_tip fuel block parent tip a below better absent =
      rw
        (
          with_parent block parent tip _ a,
          place-below_tip block parent tip
              (reorg_chain env rules (submit_block env rules fuel) (suc fuel)) a.has_tip below
              better (reorg-undefined fuel parent.id absent),
        )
        refl
