-- ===== src/Consensus/Pow/Miner.antt =====
-- `PoW::miner` of src/kernel/consensus/PoW.cpp: one round of its outer loop, up to the block that it
-- submits. What the clock, the flag `running` and the chain answer in each turn of the inner loop is a
-- list of ticks. The hash rate is only logged.
pub mod Ready
pub mod Accepted
use crypto_kernel.Prelude.{
  ℕ, ◌+◌, ◌-◌, ◌%◌, Bool, true, false, not, ◌&&◌, Option, none, some, List, [], ◌∷◌, ltb, ◌==◌,
  if◌then◌else◌,
}
use crypto_kernel.Prelude.Int.{ℤ}
use crypto_kernel.BigNum.{Text}
use crypto_kernel.BigNum.Arithmetic.{BnLib, of_hex_string, signed_to_string, plus, is_at_least}
use crypto_kernel.Chain.{Tables}
use crypto_kernel.Env.{Env}
use crypto_kernel.Outcome.{Outcome, ok, ◌>>=◌, or_throws}
use crypto_kernel.Types.Block.{Block}
use crypto_kernel.Types.Stored.{DbBlock}
use crypto_kernel.Types.Transaction.{u64}
use crypto_kernel.Consensus.Pow.{
  read_text, target_name, total_work_name, nonce_name, inverse, set_consensus_data, calculate_pow,
}

module _ (env : Env) (bn : BnLib) (pow_function : Text → ℤ)
    (calculate_target : Tables env → ℕ → Outcome ℤ) where
  open env.json use {Json, set_member, of_text, of_uint}

  -- A block of `generateVerifyingBlock` with the block before it
  pub record Template : Type 0 where
    pub block : Block env
    pub previous : DbBlock env

  pub record Tick : Type 0 where
    pub time : ℕ
    pub running : Bool
    pub fresh : Template

  -- `Block`, `target` and `consensusData`
  pub record Job : Type 0 where
    pub block : Block env
    pub target : ℤ
    pub consensus_data : Json

  -- What the miner makes of a new block
  pub prepare : Template → Outcome Job
  prepare t = do
    target_text ← or_throws (read_text env bn t.block.fields.consensus_data target_name)
    work ← or_throws (read_text env bn t.previous.consensus_data total_work_name)
    let target = of_hex_string bn target_text
    let total = plus bn (inverse env bn target) (of_hex_string bn work)
    ok (record {
      block = t.block;
      target = target;
      consensus_data =
          set_member t.block.fields.consensus_data total_work_name
            (of_text (signed_to_string bn total));
    })

  pub data Round : Type 0 where
    -- The ticks are used up, and the miner goes on.
    mining : Round
    -- The miner was told to stop.
    stopped : Round
    -- The block that is submitted
    solved : Block env → Round

  -- Every twenty seconds the block is stale.
  is_stale : ℕ → ℕ → Bool
  is_stale time now = let passed = (time + u64 - now) % u64 in passed % 20 == 0 && ltb 0 passed

  -- The block with its nonce
  pub sealed : Job → ℕ → Block env
  unfolding set_consensus_data
  sealed job nonce =
      set_consensus_data env bn job.block (set_member job.consensus_data nonce_name (of_uint nonce))

  -- The inner loop
  pub mine : List Tick → ℕ → ℕ → Job → Outcome Round
  unfolding is_stale sealed prepare
  mine [] now nonce job = ok mining
  mine (tick ∷ ticks) now nonce job =
      let stale = is_stale tick.time now in
      (if stale then prepare tick.fresh else ok job) >>= λ current.
      let next = (nonce + 1) % u64 in
      let pow = calculate_pow env bn pow_function calculate_target current.block next in
      let rest = mine ticks (if stale then tick.time else now) next current in
      if is_at_least bn pow current.target && tick.running
      then rest
      else ok (if tick.running then solved (sealed current next) else stopped)

  -- One round of the outer loop
  unfoldable pub miner_round : Template → ℕ → List Tick → Outcome Round
  unfolding mine prepare
  miner_round start now ticks = prepare start >>= λ job.
      mine ticks now 0
        (record job { consensus_data = set_member job.consensus_data nonce_name (of_uint 0) })
