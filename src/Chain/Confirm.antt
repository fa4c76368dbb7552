-- ===== src/Chain/Confirm.antt =====
-- `confirmTransaction` of src/kernel/blockchain.cpp, and the part of `reverseBlock` that takes a
-- confirmed transaction back. An output that has been constructed is copied as it is.
mod Coins
mod Spent
mod Undo
pub mod Blocks
pub mod Reverse
use crypto_kernel.Prelude.{ℕ, ◌≡◌, Bool, Option, none, some, List, [], ◌∷◌, ◌++◌, if◌then◌else◌}
use crypto_kernel.BigNum.{Text}
use crypto_kernel.BigNum
use crypto_kernel.Env.{Env}
use crypto_kernel.KeyMap.{KeyMap}
use crypto_kernel.KeyMap
use crypto_kernel.Mempool
use crypto_kernel.OrderedMap
use crypto_kernel.OrderedMap.{lookup}
use crypto_kernel.Outcome.{Outcome, ok, ◌>>=◌, or_throws}
use crypto_kernel.Types.{Input, Output, public_key_name}
use crypto_kernel.Types.Stored.{DbOutput, new_db_transaction}
use crypto_kernel.Types.Transaction.{Transaction}
use crypto_kernel.Chain.{Tables, Chain, get_output_or_throw}

module _ (env : Env) where
  open env use {hashing, json}
  open env.json use {Json, member, is_null, as_text}

  -- `txoData["publicKey"].asString() + id`, where there is a public key
  pub key_entry : Json → ℕ → Outcome (Option Text)
  key_entry content id =
      if is_null (member content public_key_name)
      then ok none
      else (or_throws (as_text (member content public_key_name)) >>= λ key.
          ok (some (key ++ BigNum.to_string hashing id)))

  -- `table->put(…, txoStr, Json::nullValue, 0)`, where there is a key
  abbrev pub put_key : Option Text → KeyMap (Unit {0}) → KeyMap (Unit {0})
  put_key none keys = keys
  put_key (some entry) keys = KeyMap.assign entry tt keys

  -- `table->erase(…, txoStr, 0)`, where there is a key
  abbrev pub erase_key : Option Text → KeyMap (Unit {0}) → KeyMap (Unit {0})
  erase_key none keys = keys
  erase_key (some entry) keys = KeyMap.erase entry keys

  -- One round of the loop that spends outputs
  pub spend_input : Input env → Tables env → Outcome (Tables env)
  unfolding key_entry
  spend_input inp t = get_output_or_throw env inp.output_id t.utxos >>= λ out.
      key_entry out.output.content inp.output_id >>= λ entry. ok (record t {
        stxos = OrderedMap.assign inp.output_id out t.stxos;
        stxo_keys = put_key entry t.stxo_keys;
        utxo_keys = erase_key entry t.utxo_keys;
        utxos = OrderedMap.erase inp.output_id t.utxos;
        inputs = OrderedMap.assign inp.id inp t.inputs;
      })

  pub spend_inputs : List (Input env) → Tables env → Outcome (Tables env)
  unfolding spend_input
  spend_inputs [] t = ok t
  spend_inputs (inp ∷ inps) t = spend_input inp t >>= spend_inputs inps

  -- One round of the loop that adds outputs
  pub add_output : ℕ → Output env → Tables env → Outcome (Tables env)
  unfolding key_entry
  add_output txid out t = key_entry out.content out.id >>= λ entry. ok (record t {
    utxo_keys = put_key entry t.utxo_keys;
    utxos = OrderedMap.assign out.id (record { output = out; creation_tx = txid }) t.utxos;
  })

  pub add_outputs : ℕ → List (Output env) → Tables env → Outcome (Tables env)
  unfolding add_output
  add_outputs txid [] t = ok t
  add_outputs txid (out ∷ outs) t = add_output txid out t >>= add_outputs txid outs

  -- The two loops
  pub move_outputs : Transaction env → Tables env → Outcome (Tables env)
  unfolding spend_inputs add_outputs
  move_outputs tx t = spend_inputs tx.inputs t >>= add_outputs tx.id tx.outputs

  -- `confirmTransaction`; what the consensus method answers is only logged.
  unfoldable pub confirm_transaction : Transaction env → ℕ → Bool → Chain env → Outcome (Chain env)
  unfolding move_outputs
  confirm_transaction tx block coinbase chain = move_outputs tx chain.tables >>= λ t.
      new_db_transaction env tx block coinbase >>= λ stored. ok (record chain {
        tables = record t { transactions = OrderedMap.assign tx.id stored t.transactions };
        unconfirmed = Mempool.remove env tx chain.unconfirmed;
      })

  -- `eraseUtxo(out, utxos)`
  pub erase_utxo : Output env → Tables env → Outcome (Tables env)
  unfolding key_entry
  erase_utxo out t = key_entry out.content out.id >>= λ entry. ok (record t {
    utxos = OrderedMap.erase out.id t.utxos;
    utxo_keys = erase_key entry t.utxo_keys;
  })

  pub erase_utxos : List (Output env) → Tables env → Outcome (Tables env)
  unfolding erase_utxo
  erase_utxos [] t = ok t
  erase_utxos (out ∷ outs) t = erase_utxo out t >>= erase_utxos outs

  -- One round of the loop of `reverseBlock` that brings spent outputs back. `oldOutput.getId()` and
  -- `oldOutputId` are the same.
  pub restore_input : Input env → Tables env → Outcome (Tables env)
  unfolding key_entry
  restore_input inp t = get_output_or_throw env inp.output_id t.stxos >>= λ out.
      key_entry out.output.content inp.output_id >>= λ entry. ok (record t {
        inputs = OrderedMap.erase inp.id t.inputs;
        stxos = OrderedMap.erase inp.output_id t.stxos;
        stxo_keys = erase_key entry t.stxo_keys;
        utxos = OrderedMap.assign inp.output_id out t.utxos;
        utxo_keys = put_key entry t.utxo_keys;
      })

  pub restore_inputs : List (Input env) → Tables env → Outcome (Tables env)
  unfolding restore_input
  restore_inputs [] t = ok t
  restore_inputs (inp ∷ inps) t = restore_input inp t >>= restore_inputs inps

  -- The body of the loop of `reverseBlock` over the transactions, but for `replayTxs`
  pub reverse_transaction : Transaction env → Tables env → Outcome (Tables env)
  unfolding erase_utxos restore_inputs
  reverse_transaction tx t = erase_utxos tx.outputs t >>= λ t1.
      restore_inputs tx.inputs t1 >>= λ t2.
      ok (record t2 { transactions = OrderedMap.erase tx.id t2.transactions })
