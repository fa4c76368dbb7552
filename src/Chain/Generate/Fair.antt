-- ===== src/Chain/Generate/Fair.antt =====
-- Whether a block of `generateVerifyingBlock` of src/kernel/blockchain.cpp passes the checks of fees and
-- coinbase in `submitBlock`.
use crypto_kernel.Prelude.{
  ℕ, ◌+◌, ◌%◌, ◌<◌, ◌≡◌, ◌≢◌, refl, sym, ◌∙◌, ap, subst, Bool, true, false, not, ◌&&◌, ◌||◌, List,
  [], ◌∷◌, arith, if◌then◌else◌, ltb, leb, ◌⊎◌, inl, inr,
}
use crypto_kernel.Chain.{Tables, Chain, Rules, calculate_transaction_fee, output_total}
use crypto_kernel.Chain.Generate.{
  Site, Supplies, site, add_fees, assemble, generate_verifying_block,
}
use crypto_kernel.Chain.Submit.{total_fees, check_coinbase}
use crypto_kernel.Chain.Verify.{Verdict, verify_transaction}
use crypto_kernel.Env.{Env}
use crypto_kernel.Mempool
use crypto_kernel.Outcome.{
  Outcome, ok, invalid, not_found, uncaught, undefined, out_of_fuel, returned, ok-injective,
}
use crypto_kernel.Types.{Output, Input, new_output, public_key_name}
use crypto_kernel.Types.Block.{Block, new_block}
use crypto_kernel.Types.Transaction.{Transaction, u64, new_transaction}

module _ (env : Env) (rules : Rules env) (t : Tables env) where
  open env.json use {Json, null, set_member, of_text}

  -- What a loop over all fees has summed up, beside the value that it started from
  abbrev Summed : ℕ → ℕ → List (Transaction env) → Bool × ℕ → Type 0
  Summed reward fees txs r =
      r.0 ≡ true → (f : ℕ) × (total_fees env rules t fees txs ≡ ok f) × (r.1 ≡ (reward + f) % u64)

  next_fee :
      (reward fees fee : ℕ) (tx : Transaction env) (txs : List (Transaction env)) (r : Bool × ℕ)
      → calculate_transaction_fee env t tx ≡ ok fee
      → Summed reward ((fees + fee) % u64) txs r
      → Summed reward fees (tx ∷ txs) r
  unfolding total_fees
  next_fee reward fees fee tx txs r charged summed all =
      let (f, total, value) = summed all in (f, ground (arith, charged, total), value)

  add_fees-next :
      (value fee : ℕ) (tx : Transaction env) (txs : List (Transaction env)) {r : Bool × ℕ}
      → calculate_transaction_fee env t tx ≡ ok fee
      → add_fees env rules t value (tx ∷ txs) ≡ ok r
      → add_fees env rules t ((value + fee) % u64) txs ≡ ok r
  unfolding add_fees
  add_fees-next value fee tx txs charged added = ground (arith, charged, added)

  add_fees-stop :
      (value : ℕ) (tx : Transaction env) (txs : List (Transaction env)) (answer : Outcome ℕ)
      {r : Bool × ℕ}
      → calculate_transaction_fee env t tx ≡ answer
      → ((fee : ℕ) → answer ≢ ok fee)
      → add_fees env rules t value (tx ∷ txs) ≡ ok r
      → (r ≡ (false, value))
  unfolding add_fees
  add_fees-stop value tx txs (ok fee) charged other added = absurd (other fee refl)
  add_fees-stop value tx txs (invalid message) charged other added =
      sym (ok-injective (ground (arith, charged, added)))
  add_fees-stop value tx txs not_found charged other added = absurd (ground (arith, charged, added))
  add_fees-stop value tx txs uncaught charged other added = absurd (ground (arith, charged, added))
  add_fees-stop value tx txs undefined charged other added = absurd (ground (arith, charged, added))
  add_fees-stop value tx txs out_of_fuel charged other added =
      absurd (ground (arith, charged, added))

  returned_cases : (call : Outcome ℕ) → ((n : ℕ) × (call ≡ ok n)) ⊎ ((n : ℕ) → call ≢ ok n)
  returned_cases (ok n) = inl (n, refl)
  returned_cases (invalid message) = inr (λ n same. ground (arith, same))
  returned_cases not_found = inr (λ n same. ground (arith, same))
  returned_cases uncaught = inr (λ n same. ground (arith, same))
  returned_cases undefined = inr (λ n same. ground (arith, same))
  returned_cases out_of_fuel = inr (λ n same. ground (arith, same))

  -- The value stays below 2 ^ 64, and is the reward and all fees if none was refused.
  add_fees-Summed :
      (reward fees value : ℕ) (txs : List (Transaction env)) (r : Bool × ℕ)
      → value ≡ (reward + fees) % u64
      → add_fees env rules t value txs ≡ ok r
      → (r.1 < u64) × Summed reward fees txs r
  unfolding add_fees total_fees
  add_fees-Summed reward fees value [] r same added =
      let is_r : (true, value) ≡ r = ok-injective added in
      subst (λ q. (q.1 < u64) × Summed reward fees [] q) is_r
        (omega arith, λ all. (fees, refl, same))
  add_fees-Summed reward fees value (tx ∷ txs) r same added =
      elim (returned_cases (calculate_transaction_fee env t tx)) [
        | inl (fee, charged) ↦
            let (small, summed) =
              add_fees-Summed reward ((fees + fee) % u64) ((value + fee) % u64) txs r (omega arith)
                (add_fees-next value fee tx txs charged added) in
            (small, next_fee reward fees fee tx txs r charged summed)
        | inr refused ↦
            let is_r = add_fees-stop value tx txs _ refl refused added in
            subst (λ q. (q.1 < u64) × Summed reward fees (tx ∷ txs) q) (sym is_r)
              (omega arith, λ all. absurd (ground (arith, all)))
      ]

  new_output-value :
      (value nonce : ℕ) (content : Json) (out : Output env)
      → new_output env value nonce content ≡ ok out
      → out.value ≡ value
  unfolding new_output
  new_output-value value nonce content out e = ground arith

  new_transaction-outputs :
      (inputs : List (Input env)) (outputs : List (Output env)) (timestamp : ℕ) (coinbase : Bool)
      (tx : Transaction env)
      → new_transaction env inputs outputs timestamp coinbase ≡ ok tx
      → tx.outputs ≡ outputs
  unfolding new_transaction
  new_transaction-outputs inputs outputs timestamp coinbase tx e = ground arith

  new_block-fields :
      (txs : List (Transaction env)) (coinbase : Transaction env) (previous timestamp : ℕ)
      (consensus : Json) (height : ℕ) (content : Json) (block : Block env)
      → new_block env txs coinbase previous timestamp consensus height content ≡ ok block
      → (block.fields.transactions ≡ txs)
        × (new_transaction env coinbase.inputs coinbase.outputs coinbase.timestamp true
            ≡ ok block.fields.coinbase_tx)
  unfolding new_block
  new_block-fields txs coinbase previous timestamp consensus height content block e =
      let (tx, rest, made) =
        returned {result = block}
          (new_transaction env coinbase.inputs coinbase.outputs coinbase.timestamp true) _ e in
      ground (arith, made)

  output_total-one :
      (out : Output env) (value : ℕ)
      → out.value ≡ value
      → output_total env 0 (out ∷ []) ≡ value % u64
  unfolding output_total
  output_total-one out value same = ground (arith, same)

  -- The block has the transactions that it was given, and its coinbase makes the value.
  assemble-fields :
      (consensus_data_for : Tables env → ℕ → Outcome Json) (s : Supplies) (place : Site)
      (txs : List (Transaction env)) (value : ℕ) (block : Block env)
      → assemble env rules consensus_data_for s t place txs value ≡ ok block
      → (block.fields.transactions ≡ txs)
        × (output_total env 0 block.fields.coinbase_tx.outputs ≡ value % u64)
  unfolding assemble
  assemble-fields consensus_data_for s place txs value block e =
      let (out, rest, made) =
        returned {result = block}
          (new_output env value s.nonce (set_member null public_key_name (of_text s.owner))) _ e in
      let (coinbase, last, minted) =
        returned {result = block} (new_transaction env [] (out ∷ []) s.now true) _ rest in
      let (consensus, end, given) =
        returned {result = block}
          (if place.genesis_block then ok null else consensus_data_for t place.previous_block_id) _
          last in
      let (same_txs, again) =
        new_block-fields txs coinbase place.previous_block_id s.now consensus place.height null
          block end in
      let outputs : block.fields.coinbase_tx.outputs ≡ out ∷ [] =
        new_transaction-outputs coinbase.inputs coinbase.outputs coinbase.timestamp true
          block.fields.coinbase_tx again
        ∙ new_transaction-outputs [] (out ∷ []) s.now true coinbase minted in
      (
        same_txs,
        ap (output_total env 0) outputs
            ∙ output_total-one out value (
                new_output-value value s.nonce (set_member null public_key_name (of_text s.owner))
                  out made),
      )

  check_coinbase-eq :
      (block : Block env) (height fees total : ℕ) (verdict : Verdict)
      → total_fees env rules t 0 block.fields.transactions ≡ ok fees
      → verify_transaction env rules t block.fields.coinbase_tx true ≡ ok verdict
      → output_total env 0 block.fields.coinbase_tx.outputs ≡ total
      → check_coinbase env rules block height t
        ≡ ok (verdict.0 && not (ltb ((fees + rules.block_reward height) % u64) total))
  unfolding check_coinbase
  check_coinbase-eq block height fees total verdict charged verified summed =
      ground (arith, charged, verified, summed)

  no_fees :
      (block : Block env)
      → block.fields.transactions ≡ []
      → total_fees env rules t 0 block.fields.transactions ≡ ok 0
  unfolding total_fees
  no_fees block none_left = ap (total_fees env rules t 0) none_left

  -- The checks of the fees and the coinbase in `submitBlock`, of a block that was put together from
  -- what the loop over the fees left
  assembled-check_coinbase :
      (consensus_data_for : Tables env → ℕ → Outcome Json) (s : Supplies) (place : Site)
      (txs : List (Transaction env)) (r : Bool × ℕ) (block : Block env) (verdict : Verdict)
      → rules.block_reward place.height < u64
      → add_fees env rules t (rules.block_reward place.height) txs ≡ ok r
      → assemble env rules consensus_data_for s t place (if r.0 then txs else []) r.1 ≡ ok block
      → verify_transaction env rules t block.fields.coinbase_tx true ≡ ok verdict
      → check_coinbase env rules block place.height t
        ≡ ok (verdict.0 && (r.0 || leb r.1 (rules.block_reward place.height)))
  assembled-check_coinbase consensus_data_for s place txs (true, value) block verdict reward_small
        added made verified =
      let reward = rules.block_reward place.height in
      let (small, summed) = add_fees-Summed reward 0 reward txs (true, value) (omega arith) added in
      let (fees, total, is_value) = summed refl in
      let (same_txs, worth) = assemble-fields consensus_data_for s place txs value block made in
      check_coinbase-eq block place.height fees (value % u64) verdict
        (ap (total_fees env rules t 0) same_txs ∙ total) verified worth
      ∙ ap (λ b. ok (verdict.0 && b)) (ground (arith, is_value))
  assembled-check_coinbase consensus_data_for s place txs (false, value) block verdict reward_small
        added made verified =
      let reward = rules.block_reward place.height in
      let (small, summed) =
        add_fees-Summed reward 0 reward txs (false, value) (omega arith) added in
      let (same_txs, worth) = assemble-fields consensus_data_for s place [] value block made in
      check_coinbase-eq block place.height 0 (value % u64) verdict (no_fees block same_txs) verified
        worth
      ∙ ap (λ b. ok (verdict.0 && b)) (ground (arith, small, reward_small))

module _ (env : Env) (rules : Rules env) where
  open env.json use {Json}

  -- The checks of the fees and the coinbase in `submitBlock`, on the tables and at the height where
  -- `generateVerifyingBlock` made the block. If no fee of a mempool transaction was refused, they pass as
  -- soon as the coinbase verifies. If one was, the block has no transactions, but its coinbase still
  -- makes the reward and the fees counted until then, and the checks pass only if these fees are 0 in 64
  -- bits or make the value wrap around below the reward.
  pub generate_verifying_block-check_coinbase :
      (consensus_data_for : Tables env → ℕ → Outcome Json) (s : Supplies) (chain : Chain env)
      (place : Site) (r : Bool × ℕ) (block : Block env) (verdict : Verdict)
      → site env rules chain.tables ≡ ok place
      → rules.block_reward place.height < u64
      → add_fees env rules chain.tables
          (rules.block_reward place.height)
          (Mempool.get_transactions env chain.unconfirmed)
        ≡ ok r
      → generate_verifying_block env rules consensus_data_for s chain ≡ ok block
      → verify_transaction env rules chain.tables block.fields.coinbase_tx true ≡ ok verdict
      → check_coinbase env rules block place.height chain.tables
        ≡ ok (verdict.0 && (r.0 || leb r.1 (rules.block_reward place.height)))
  unfolding generate_verifying_block
  generate_verifying_block-check_coinbase consensus_data_for s chain place r block verdict located
        small added generated verified =
      assembled-check_coinbase env rules chain.tables consensus_data_for s place
        (Mempool.get_transactions env chain.unconfirmed) r block verdict small added
        (ground (arith, located, added, generated)) verified
