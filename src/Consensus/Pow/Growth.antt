-- ===== src/Consensus/Pow/Growth.antt =====
-- The chain of src/kernel/blockchain.cpp under the proof of work of src/kernel/consensus/PoW.cpp: what
-- `KGW_SHA256` answers the chain, and how the total work of the tip grows.
use crypto_kernel.Prelude.{
  subst, ◌⊎◌, ℕ, ◌+◌, ◌-◌, ◌%◌, ◌≤◌, ◌≡◌, ◌≢◌, sym, ◌∙◌, ap, Bool, true, false, Option, none, some,
  inl, inr,
}
use crypto_kernel.Prelude.Int.{ℤ, pos}
use crypto_kernel.BigNum.{Text}
use crypto_kernel.BigNum.Arithmetic.{BnLib, IsExact}
use crypto_kernel.Chain.{Tables, Chain, Rules}
use crypto_kernel.Chain.Reorganise.{submit_block}
use crypto_kernel.Chain.Reorganise.Accepted.{submit_block-Passed}
use crypto_kernel.Chain.Submit.Tip.{BecomesTip, extend_chain-BecomesTip}
use crypto_kernel.Env.{Env}
use crypto_kernel.Json.{HasMembers}
use crypto_kernel.OrderedMap.{lookup, assign}
use crypto_kernel.OrderedMap.Laws.{assign_cases, lookup-assign_other}
use crypto_kernel.Outcome.{ok}
use crypto_kernel.Types.{Input}
use crypto_kernel.Types.Block.{Block}
use crypto_kernel.Types.Stored.{DbBlock, new_db_block-fields}
use crypto_kernel.Types.Transaction.{Transaction, u64}
use crypto_kernel.Consensus.Pow.{
  ConsensusData, get_consensus_data, is_block_better, check_consensus_rules, set_consensus_data,
}
use crypto_kernel.Consensus.Pow.Retarget.{Doubles, calculate_target}
use crypto_kernel.Consensus.Pow.Retarget.Targets.{HasTarget, IsChained, max_target}
use crypto_kernel.Consensus.Pow.Retarget.Bounds.{calculate_target-IsTarget}
use crypto_kernel.Consensus.Pow.Work.{Carries, check_consensus_rules-Carries, max_hash}

-- What a subclass of the chain and of the contracts adds.
pub record Setting (env : Env) : Type 0 where
  pub evaluate_script : Tables env → Transaction env → Input env → Text → Option Bool
  pub block_reward : ℕ → ℕ

module _ (env : Env) (bn : BnLib) (doubles : Doubles) (block_target : ℕ) (pow_function : Text → ℤ)
    (setting : Setting env) where
  -- `KGW_SHA256` and `KGW_LYRA2REV2`, by their proof-of-work function
  unfoldable pub kgw_rules : Rules env
  kgw_rules = record {
    check_consensus_rules =
        check_consensus_rules env bn pow_function (calculate_target env bn doubles block_target);
    is_block_better = λ t block tip. is_block_better env bn block tip;
    submits_block = λ t block. true;
    verifies_transaction = λ t tx. true;
    submits_transaction = λ t tx. true;
    evaluate_script = setting.evaluate_script;
    block_reward = setting.block_reward;
  }

  module _ (exact : IsExact bn) (members : HasMembers env.json) where
    -- A new entry whose parent is stored keeps the chain as it is to be.
    assign-IsChained :
        (t t' : Tables env) (id : ℕ) (stored parent : DbBlock env)
        → IsChained env bn t
        → lookup id t.blocks ≡ none
        → lookup stored.previous_block_id t.blocks ≡ some parent
        → HasTarget env bn stored
        → t'.blocks ≡ assign id stored t.blocks
        → IsChained env bn t'
    assign-IsChained t t' id stored parent chained is_new has_parent has_target assigned = record {
      has_target = λ j block found.
          elim (assign_cases j id stored block t.blocks (ap (lookup j) (sym assigned) ∙ found)) [
            | inl (here, same) ↦ subst (HasTarget env bn) same has_target
            | inr before ↦ chained.has_target j block before
          ];
      has_parent = λ j block found not_first.
          let (above, stands) =
            parent_before j block
              (assign_cases j id stored block t.blocks (ap (lookup j) (sym assigned) ∙ found))
              not_first in
          (
            above,
            ap (lookup block.previous_block_id) assigned
                ∙ lookup-assign_other block.previous_block_id id stored above t.blocks is_new
                    stands,
          );
    }
      where
        parent_before :
            (j : ℕ) (block : DbBlock env)
            → ((j ≡ id) × (stored ≡ block)) ⊎ (lookup j t.blocks ≡ some block)
            → block.height ≢ 1
            → (above : DbBlock env) × (lookup block.previous_block_id t.blocks ≡ some above)
        parent_before j block (inl (here, same)) not_first =
            (parent, ap (λ b. lookup b.previous_block_id t.blocks) (sym same) ∙ has_parent)
        parent_before j block (inr before) not_first = chained.has_parent j block before not_first

    -- What the tip is after a block: it carries a proper target, and the work of the tip before with
    -- its own added.
    pub record HasGrown (work : ℕ) (t' : Tables env) : Type 0 where
      pub new_tip : DbBlock env
      pub is_tip : t'.tip ≡ some new_tip
      pub found : ConsensusData env bn
      pub reads : get_consensus_data env bn new_tip.consensus_data ≡ ok found
      pub target : ℕ
      pub target_is : found.target ≡ pos target
      pub target_small : target ≤ max_target
      pub work_is : found.total_work ≡ pos (work + (max_hash - target))

    stored-HasGrown :
        (block checked : Block env) (target work height : ℕ) (t t' : Tables env)
        → target ≤ max_target
        → Carries env bn exact members pow_function
            (calculate_target env bn doubles block_target)
            block
            checked
            target
            work
        → BecomesTip env kgw_rules checked height t t'
        → HasGrown work t'
    stored-HasGrown block checked target work height t t' small carries becomes = record {
      new_tip = becomes.stored;
      is_tip = becomes.tip_is;
      found = carries.found;
      reads =
          ap (get_consensus_data env bn)
            (new_db_block-fields env checked height becomes.is_stored).0
          ∙ carries.reads;
      target = target;
      target_is = carries.target_is;
      target_small = small;
      work_is = carries.work_is;
    }

    stored-HasTarget :
        (block checked : Block env) (target work height : ℕ) (t t' : Tables env)
        → target ≤ max_target
        → Carries env bn exact members pow_function
            (calculate_target env bn doubles block_target)
            block
            checked
            target
            work
        → (becomes : BecomesTip env kgw_rules checked height t t') → HasTarget env bn becomes.stored
    stored-HasTarget block checked target work height t t' small carries becomes = record {
      found = carries.found;
      reads =
          ap (get_consensus_data env bn)
            (new_db_block-fields env checked height becomes.is_stored).0
          ∙ carries.reads;
      proper = (target, carries.target_is, small);
      counted = (work + (max_hash - target), carries.work_is);
    }

    -- A block that is put on the chain, and what the consensus rules gave it
    extended-HasGrown :
        (block checked : Block env) (tip : DbBlock env) (target work height : ℕ) (t t' : Tables env)
        → IsChained env bn t
        → lookup block.id t.blocks ≡ none
        → lookup block.fields.previous_block_id t.blocks ≡ some tip
        → target ≤ max_target
        → Carries env bn exact members pow_function
            (calculate_target env bn doubles block_target)
            block
            checked
            target
            work
        → BecomesTip env kgw_rules checked height t t'
        → HasGrown work t' × IsChained env bn t'
    unfolding set_consensus_data
    extended-HasGrown block checked tip target work height t t' chained is_new has_parent small
          carries becomes =
        let same_id = ap (λ b. b.id) carries.rest_kept in
        let same_parent =
          (new_db_block-fields env checked height becomes.is_stored).1
          ∙ ap (λ b. b.fields.previous_block_id) carries.rest_kept in
        (
          stored-HasGrown block checked target work height t t' small carries becomes,
          assign-IsChained t t' checked.id becomes.stored tip chained
              (ap (λ i. lookup i t.blocks) same_id ∙ is_new)
              (ap (λ i. lookup i t.blocks) same_parent ∙ has_parent)
              (stored-HasTarget block checked target work height t t' small carries becomes)
              becomes.blocks_are,
        )

    -- On a chain whose blocks carry proper targets, a new block on the tip that `submitBlock` accepts
    -- becomes the tip, with a total work that is the old tip's and 2^256 - 1 - target more, where the
    -- target is at most 59 digits "f". So the work of the tip grows strictly, and the blocks of the
    -- chain carry proper targets again.
    pub submit_block-HasGrown :
        (fuel : ℕ) (block : Block env) (tip : DbBlock env) (chain chain' : Chain env) (ban : Bool)
        (found : ConsensusData env bn) (work : ℕ)
        → IsChained env bn chain.tables
        → lookup block.id chain.tables.blocks ≡ none
        → lookup block.fields.previous_block_id chain.tables.blocks ≡ some tip
        → chain.tables.tip ≡ some tip
        → get_consensus_data env bn tip.consensus_data ≡ ok found
        → found.total_work ≡ pos work
        → submit_block env kgw_rules fuel block false chain ≡ ok (chain', (true, ban))
        → HasGrown work chain'.tables × IsChained env bn chain'.tables
    unfolding kgw_rules
    submit_block-HasGrown fuel block tip chain chain' ban found work chained is_new has_parent
          has_tip reads counted e =
        let passed =
          submit_block-Passed env kgw_rules fuel block tip chain is_new has_parent has_tip e in
        let (target, retargets, small) =
          calculate_target-IsTarget env bn doubles block_target exact chain.tables chained
            block.fields.previous_block_id tip has_parent in
        extended-HasGrown block passed.checked tip target work ((tip.height + 1) % u64) chain.tables
          chain'.tables chained is_new has_parent small
          (check_consensus_rules-Carries env bn exact members pow_function
            (calculate_target env bn doubles block_target) chain.tables block passed.checked tip
            found target work reads counted retargets small passed.conforms)
          (extend_chain-BecomesTip env kgw_rules passed.checked ((tip.height + 1) % u64) chain
            passed.extended)
