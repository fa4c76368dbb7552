-- ===== src/Chain/Confirm/Blocks.antt =====
-- `confirmTransaction` of src/kernel/blockchain.cpp leaves the tables of blocks as they are.
use crypto_kernel.Prelude.{ℕ, ◌≡◌, refl, ◌∙◌, Bool, List, [], ◌∷◌, arith}
use crypto_kernel.Env.{Env}
use crypto_kernel.Outcome.{ok, returned}
use crypto_kernel.Types.{Input, Output}
use crypto_kernel.Types.Stored.{new_db_transaction}
use crypto_kernel.Types.Transaction.{Transaction}
use crypto_kernel.Chain.{Tables, Chain, get_output_or_throw}
use crypto_kernel.Chain.Confirm.{
  key_entry, spend_input, spend_inputs, add_output, add_outputs, move_outputs, confirm_transaction,
}

module _ (env : Env) where
  -- The tables of blocks are the same.
  pub record SameBlocks (t t' : Tables env) : Type 0 where
    pub blocks : t'.blocks ≡ t.blocks
    pub tip : t'.tip ≡ t.tip
    pub heights : t'.heights ≡ t.heights
    pub candidates : t'.candidates ≡ t.candidates

  SameBlocks-refl : (t : Tables env) → SameBlocks t t
  SameBlocks-refl t = record { blocks = refl; tip = refl; heights = refl; candidates = refl }

  pub SameBlocks-trans : {t u v : Tables env} → SameBlocks t u → SameBlocks u v → SameBlocks t v
  SameBlocks-trans a b = record {
    blocks = b.blocks ∙ a.blocks;
    tip = b.tip ∙ a.tip;
    heights = b.heights ∙ a.heights;
    candidates = b.candidates ∙ a.candidates;
  }

  spend_input-SameBlocks :
      (inp : Input env) (t : Tables env) {t' : Tables env}
      → spend_input env inp t ≡ ok t'
      → SameBlocks t t'
  unfolding spend_input
  spend_input-SameBlocks inp t {t'} e =
      let (out, rest, found) =
        returned {result = t'} (get_output_or_throw env inp.output_id t.utxos) _ e in
      let (entry, last, keyed) =
        returned {result = t'} (key_entry env out.output.content inp.output_id) _ rest in
      ground arith

  spend_inputs-SameBlocks :
      (inps : List (Input env)) (t : Tables env) {t' : Tables env}
      → spend_inputs env inps t ≡ ok t'
      → SameBlocks t t'
  unfolding spend_inputs
  spend_inputs-SameBlocks [] t e = ground arith
  spend_inputs-SameBlocks (inp ∷ inps) t {t'} e =
      let (u, rest, first) = returned {result = t'} (spend_input env inp t) _ e in
      SameBlocks-trans (spend_input-SameBlocks inp t first) (spend_inputs-SameBlocks inps u rest)

  add_outputs-SameBlocks :
      (txid : ℕ) (outs : List (Output env)) (t : Tables env) {t' : Tables env}
      → add_outputs env txid outs t ≡ ok t'
      → SameBlocks t t'
  unfolding add_outputs add_output
  add_outputs-SameBlocks txid [] t e = ground arith
  add_outputs-SameBlocks txid (out ∷ outs) t {t'} e =
      let (u, rest, first) = returned {result = t'} (add_output env txid out t) _ e in
      let (entry, last, keyed) = returned {result = u} (key_entry env out.content out.id) _ first in
      let step : SameBlocks t u = ground arith in
      SameBlocks-trans step (add_outputs-SameBlocks txid outs u rest)

  pub confirm_transaction-SameBlocks :
      (tx : Transaction env) (block : ℕ) (coinbase : Bool) (chain : Chain env) {chain' : Chain env}
      → confirm_transaction env tx block coinbase chain ≡ ok chain'
      → SameBlocks chain.tables chain'.tables
  unfolding confirm_transaction move_outputs
  confirm_transaction-SameBlocks tx block coinbase chain {chain'} e =
      let (t, rest, moved) = returned {result = chain'} (move_outputs env tx chain.tables) _ e in
      let (u, added, spent) =
        returned {result = t} (spend_inputs env tx.inputs chain.tables) _ moved in
      let (stored, last, made) =
        returned {result = chain'} (new_db_transaction env tx block coinbase) _ rest in
      let moved_same =
        SameBlocks-trans (spend_inputs-SameBlocks tx.inputs chain.tables spent)
          (add_outputs-SameBlocks tx.id tx.outputs u added) in
      let step : SameBlocks t chain'.tables = ground arith in SameBlocks-trans moved_same step
