-- ===== src/Wallet/Sync/Ends.antt =====
-- The rounds of the loop over forks, of src/client/wallet.cpp, need no fuel but that of the loop.
use crypto_kernel.Prelude.{ℕ, false, none, some, List, [], ◌∷◌, arith, Option-cases, inl, inr}
use crypto_kernel.Chain.{Tables}
use crypto_kernel.Chain.Build.Ends.{get_output_db-Ends, get_block_db-Ends, get_block-Ends}
use crypto_kernel.Env.{Env}
use crypto_kernel.OrderedMap.{lookup}
use crypto_kernel.OrderedMap
use crypto_kernel.Outcome.{Outcome, ok, ◌>>=◌}
use crypto_kernel.Outcome.Ends.{Ends, Ends-then, Ends-ok, Ends-or_throws}
use crypto_kernel.Types.{Input, Output, public_key_name}
use crypto_kernel.Types.Transaction.{Transaction}
use crypto_kernel.Wallet.{
  Cipher, Wallet, get_account_by_key, get_output, owner_or_throw, debit, rewind_outputs,
  rewind_inputs, rewind_tx,
}
use crypto_kernel.Wallet.Sync.{
  block_transactions, tip_block, rewind_transactions, rewind_block, is_forked,
}

module _ (env : Env) (cipher : Cipher) where
  open env.json use {member, as_text}

  owner_or_throw-Ends :
      (w : Wallet env cipher) (out : Output env) → Ends (owner_or_throw env cipher w out)
  unfolding owner_or_throw
  owner_or_throw-Ends w out =
      Ends-then _ _ (Ends-or_throws (as_text (member out.content public_key_name)))
        (λ key got. Ends-or_throws (get_account_by_key env cipher w key))

  taken_back-Ends :
      (out : Output env) (w : Wallet env cipher)
      → Ends (elim (OrderedMap.lookup out.id w.utxos) as (λ x. Outcome (Wallet env cipher)) [
        | none ↦ ok w
        | some txo ↦
            let w' = record w { utxos = OrderedMap.erase out.id w.utxos } in
            owner_or_throw env cipher w' out >>= λ a. ok (debit env cipher a out.value w')
      ])
  taken_back-Ends out w =
      let w' : Wallet env cipher = record w { utxos = OrderedMap.erase out.id w.utxos } in
      let ends =
        Ends-then (owner_or_throw env cipher w' out) (λ a. ok (debit env cipher a out.value w'))
          (owner_or_throw-Ends w' out) (λ a got. Ends-ok _) in
      λ e. ground (arith, ends)

  rewind_outputs-Ends :
      (outs : List (Output env)) (w : Wallet env cipher) → Ends (rewind_outputs env cipher outs w)
  unfolding rewind_outputs
  rewind_outputs-Ends [] w = Ends-ok w
  rewind_outputs-Ends (out ∷ outs) w =
      Ends-then _ _ (taken_back-Ends out w) (λ w' got. rewind_outputs-Ends outs w')

  module _ (t : Tables env) where
    get_output-Ends : (id : ℕ) → Ends (get_output env cipher t id)
    unfolding get_output
    get_output-Ends id = Ends-then _ _ (get_output_db-Ends env t id) (λ out got. Ends-ok _)

    rewind_inputs-Ends :
        (inps : List (Input env)) (w : Wallet env cipher) → Ends (rewind_inputs env cipher t inps w)
    unfolding rewind_inputs
    rewind_inputs-Ends [] w = Ends-ok w
    rewind_inputs-Ends (inp ∷ inps) w =
        Ends-then _ _ (get_output-Ends inp.output_id) (λ out got. rewind_inputs-Ends inps _)

    rewind_tx-Ends :
        (tx : Transaction env) (w : Wallet env cipher) → Ends (rewind_tx env cipher t tx w)
    unfolding rewind_tx
    rewind_tx-Ends tx w =
        let forgotten : Wallet env cipher = record w {
          transactions = OrderedMap.erase tx.id w.transactions;
        } in
        let ends =
          Ends-then (rewind_outputs env cipher tx.outputs forgotten)
            (rewind_inputs env cipher t tx.inputs) (rewind_outputs-Ends tx.outputs forgotten)
            (λ w' got. rewind_inputs-Ends tx.inputs w') in
        λ e. ground (arith, ends)

    rewind_transactions-Ends :
        (txs : List (Transaction env)) (w : Wallet env cipher)
        → Ends (rewind_transactions env cipher t txs w)
    unfolding rewind_transactions
    rewind_transactions-Ends [] w = Ends-ok w
    rewind_transactions-Ends (tx ∷ txs) w =
        Ends-then _ _ (rewind_tx-Ends tx w) (λ w' got. rewind_transactions-Ends txs w')

    tip_block-Ends : (w : Wallet env cipher) → Ends (tip_block env cipher t w)
    unfolding tip_block
    tip_block-Ends w e = elim (Option-cases w.tip_id) [
      | inl absent ↦ ground arith
      | inr (id, found) ↦ ground (arith, get_block-Ends env t id)
    ]

    pub rewind_block-Ends : (w : Wallet env cipher) → Ends (rewind_block env cipher t w)
    unfolding rewind_block
    rewind_block-Ends w = Ends-then _ _ (tip_block-Ends w) (λ old_tip got.
        Ends-then _ _ (rewind_transactions-Ends (block_transactions env old_tip) w) (λ w' found.
          Ends-then _ _ (get_block_db-Ends env t old_tip.fields.previous_block_id false)
            (λ new_tip stands. Ends-ok _)))

    pub is_forked-Ends : (w : Wallet env cipher) → Ends (is_forked env cipher t w)
    unfolding is_forked
    is_forked-Ends w e = elim (Option-cases (lookup w.height t.heights)) [
      | inl absent ↦ ground arith
      | inr (id, found) ↦ ground (arith, get_block_db-Ends env t id false)
    ]
