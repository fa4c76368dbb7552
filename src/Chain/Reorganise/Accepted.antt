-- ===== src/Chain/Reorganise/Accepted.antt =====
-- What an accepted block on the tip went through in `submitBlock` of src/kernel/blockchain.cpp.
use crypto_kernel.Prelude.{
  ℕ, zero, suc, ◌+◌, ◌%◌, ◌≡◌, refl, sym, ap, ==_refl, ◌∙◌, Bool, true, false, Option, none, some,
  arith, if◌then◌else◌,
}
use crypto_kernel.Env.{Env}
use crypto_kernel.OrderedMap.{lookup}
use crypto_kernel.OrderedMap.Laws.{lookup-eq-none}
use crypto_kernel.Outcome.{Outcome, ok, out_of_fuel, ◌>>=◌, returned}
use crypto_kernel.Types.Block.{Block}
use crypto_kernel.Types.Stored.{DbBlock}
use crypto_kernel.Types.Transaction.{u64}
use crypto_kernel.Chain.{Tables, Chain, Rules, get_block_db, get_tip}
use crypto_kernel.Chain.Submit.{extend_chain}
use crypto_kernel.Chain.Verify.{Verdict}
use crypto_kernel.Chain.Reorganise.{
  reorg_chain, on_chain, find_previous, place_block, next_height, put_block, submit_successor,
  submit_block_with, submit_block,
}

module _ (env : Env) (rules : Rules env) where
  -- The consensus rules accepted the block as `checked`, which was put on top of the tip.
  pub record Passed (block : Block env) (tip : DbBlock env) (chain chain' : Chain env) (ban : Bool)
      : Type 0 where
    pub checked : Block env
    pub conforms : rules.check_consensus_rules chain.tables block tip ≡ ok (some checked)
    pub extended :
        extend_chain env rules checked ((tip.height + 1) % u64) chain ≡ ok (chain', (true, ban))

  find_previous-stored :
      (t : Tables env) (id : ℕ) (block : DbBlock env)
      → lookup id t.blocks ≡ some block
      → find_previous env rules t id ≡ ok (some block)
  unfolding find_previous
  find_previous-stored t id block stored = ground (arith, stored)

  -- The block that is read again for the log changes no answer.
  logged :
      (r answer : Chain env × Verdict) (again : Outcome (DbBlock env))
      → (if r.1.0 then (again >>= λ stored. ok r) else ok r) ≡ ok answer
      → r ≡ answer
  logged (c, (true, ban)) answer again e =
      let (stored, same, read) = returned {result = answer} again _ e in ground arith
  logged (c, (false, ban)) answer again e = ground arith

  put_block-extended :
      (block : Block env) (height : ℕ) (chain : Chain env) (answer : Chain env × Verdict)
      → put_block env rules block (chain, on_chain height) ≡ ok answer
      → extend_chain env rules block height chain ≡ ok answer
  unfolding put_block
  put_block-extended block height chain answer e =
      let (r, rest, extended) =
        returned {result = answer} (extend_chain env rules block height chain) _ e in
      extended ∙ ap ok (logged r answer (get_block_db env r.0.tables block.id false) rest)

  -- The block after the consensus rules
  after_rules :
      (ℕ → Chain env → Outcome (Chain env × Bool))
      → DbBlock env
      → Chain env
      → Option (Block env)
      → Outcome (Chain env × Verdict)
  after_rules reorg tip chain answer = elim answer [
    | none ↦ ok (chain, (false, true))
    | some checked ↦ place_block env rules reorg checked tip chain >>= put_block env rules checked
  ]

  with_rules :
      (reorg : ℕ → Chain env → Outcome (Chain env × Bool)) (block : Block env) (tip : DbBlock env)
      (chain : Chain env)
      → lookup block.id chain.tables.blocks ≡ none
      → lookup block.fields.previous_block_id chain.tables.blocks ≡ some tip
      → submit_block_with env rules reorg block false chain
        ≡ (rules.check_consensus_rules chain.tables block tip >>= after_rules reorg tip chain)
  unfolding submit_block_with submit_successor after_rules
  with_rules reorg block tip chain is_new has_parent =
      rw
        (
          lookup-eq-none block.id chain.tables.blocks is_new,
          find_previous-stored chain.tables block.fields.previous_block_id tip has_parent,
        )
        refl

  place-on_tip :
      (reorg : ℕ → Chain env → Outcome (Chain env × Bool)) (block : Block env) (tip : DbBlock env)
      (chain : Chain env)
      → chain.tables.tip ≡ some tip
      → place_block env rules reorg block tip chain ≡ ok (chain, on_chain ((tip.height + 1) % u64))
  unfolding place_block next_height get_tip
  place-on_tip reorg block tip chain has_tip = ground (arith, ==_refl tip.id)

  after_rules-Passed :
      (reorg : ℕ → Chain env → Outcome (Chain env × Bool)) (block : Block env) (tip : DbBlock env)
      (chain : Chain env) (answer : Option (Block env)) {chain' : Chain env} {ban : Bool}
      → chain.tables.tip ≡ some tip
      → rules.check_consensus_rules chain.tables block tip ≡ ok answer
      → after_rules reorg tip chain answer ≡ ok (chain', (true, ban))
      → Passed block tip chain chain' ban
  unfolding after_rules
  after_rules-Passed reorg block tip chain none has_tip conforms e = absurd (ground arith)
  after_rules-Passed reorg block tip chain (some checked) {chain'} {ban} has_tip conforms e =
      record {
        checked = checked;
        conforms = conforms;
        extended =
            put_block-extended checked ((tip.height + 1) % u64) chain (chain', (true, ban))
              (rw (place-on_tip reorg checked tip chain has_tip) at e);
      }

  passes :
      (reorg : ℕ → Chain env → Outcome (Chain env × Bool)) (block : Block env) (tip : DbBlock env)
      (chain : Chain env) {chain' : Chain env} {ban : Bool}
      → lookup block.id chain.tables.blocks ≡ none
      → lookup block.fields.previous_block_id chain.tables.blocks ≡ some tip
      → chain.tables.tip ≡ some tip
      → submit_block_with env rules reorg block false chain ≡ ok (chain', (true, ban))
      → Passed block tip chain chain' ban
  passes reorg block tip chain {chain'} {ban} is_new has_parent has_tip e =
      let (answer, rest, conforms) =
        returned {result = (chain', (true, ban))}
          (rules.check_consensus_rules chain.tables block tip) _
          (sym (with_rules reorg block tip chain is_new has_parent) ∙ e) in
      after_rules-Passed reorg block tip chain answer has_tip conforms rest

  -- A new block whose parent is the tip, and which `submitBlock` accepts, passed the consensus rules
  -- and was put at the next height.
  pub submit_block-Passed :
      (fuel : ℕ) (block : Block env) (tip : DbBlock env) (chain : Chain env) {chain' : Chain env}
      {ban : Bool}
      → lookup block.id chain.tables.blocks ≡ none
      → lookup block.fields.previous_block_id chain.tables.blocks ≡ some tip
      → chain.tables.tip ≡ some tip
      → submit_block env rules fuel block false chain ≡ ok (chain', (true, ban))
      → Passed block tip chain chain' ban
  unfolding submit_block
  submit_block-Passed zero block tip chain is_new has_parent has_tip e =
      passes (λ new_tip c. out_of_fuel) block tip chain is_new has_parent has_tip e
  submit_block-Passed (suc fuel) block tip chain is_new has_parent has_tip e =
      passes (reorg_chain env rules (submit_block env rules fuel) (suc fuel)) block tip chain is_new
        has_parent has_tip e
