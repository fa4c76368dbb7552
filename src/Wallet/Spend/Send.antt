-- ===== src/Wallet/Spend/Send.antt =====
-- src/client/wallet.cpp: the transaction that `sendToAddress` signs and submits, and the total balance. What
-- it draws at random is an argument.
use crypto_kernel.Prelude.{
  ℕ, ◌+◌, ◌*◌, ◌%◌, true, false, not, none, some, List, [], ◌∷◌, ◌++◌, if◌then◌else◌, ltb,
}
use crypto_kernel.BigNum.{Text}
use crypto_kernel.BigNum
use crypto_kernel.Chain.{Chain, Rules}
use crypto_kernel.Chain.Spend.{signature_name}
use crypto_kernel.Chain.Submit.{submit_transaction}
use crypto_kernel.Env.{Env}
use crypto_kernel.KeyMap
use crypto_kernel.OrderedMap.{Map}
use crypto_kernel.OrderedMap
use crypto_kernel.Outcome.{Outcome, ok, ◌>>=◌, or_throws}
use crypto_kernel.Types.{Input, Output, new_input, new_output, public_key_name}
use crypto_kernel.Types.Transaction.{Transaction, u64, new_transaction, get_output_set_id}
use crypto_kernel.Wallet.{Cipher, Txo, Wallet, get_account_by_key}
use crypto_kernel.Wallet.Spend.{
  Signer, Selection, Draw, start_selection, insert_output, insert_input, is_enough, change_of,
  select, check_password, new_account,
}

-- The strings that `sendToAddress` returns
pub data Sent : Type 0 where
  incorrect_password insufficient_funds invalid_address : Sent
  -- The fee that is included
  insufficient_with_fee : ℕ → Sent
  not_submitted : Sent
  -- The identifier of the transaction
  sent : ℕ → Sent

-- `getTotalBalance`, in a `uint64_t`
pub get_total_balance : ℕ → Map Txo → ℕ
get_total_balance total [] = total
get_total_balance total (e ∷ m) =
    get_total_balance (if e.1.spent then total else (total + e.1.value) % u64) m

-- `utxo.spend()` of what is read back, and the output is put under its identifier.
pub mark_spent : ℕ → Map Txo → Map Txo
mark_spent id m =
    OrderedMap.assign id
      (elim (OrderedMap.lookup id m) [
        | none ↦ record { spent = true; value = 0 }
        | some txo ↦ record txo { spent = true }
      ])
      m

module _ (env : Env) (cipher : Cipher) (signer : Signer) where
  open env use {hashing, json}
  open env.json use {Json, null, member, set_member, of_text, as_text}

  abbrev key_content : Text → Json
  key_content key = set_member null public_key_name (of_text key)

  -- The loop that signs: the inputs, and the wallet with their outputs marked
  sign_inputs :
      Text
      → Text
      → List (Output env)
      → List (Input env)
      → Wallet env cipher
      → Outcome (List (Input env) × Wallet env cipher)
  unfolding insert_input
  sign_inputs password output_hash [] spends w = ok (spends, w)
  sign_inputs password output_hash (out ∷ outs) spends w =
      or_throws (as_text (member out.content public_key_name)) >>= λ key.
      or_throws (get_account_by_key env cipher w key) >>= λ account.
      (elim (KeyMap.lookup key account.keys) [
        | none ↦ ok []
        | some private_key ↦ or_throws (cipher.unseal private_key password)
      ])
      >>= λ private_key.
          or_throws (signer.sign private_key (BigNum.to_string hashing out.id ++ output_hash))
          >>= λ signature.
              let inp = new_input env out.id (set_member null signature_name (of_text signature)) in
              sign_inputs password output_hash outs (insert_input env inp spends)
                (record w { utxos = mark_spent out.id w.utxos })

  -- `sendToAddress` from the choice of the outputs up to the transaction
  pay :
      Text
      → ℕ
      → Text
      → Draw env cipher
      → Selection env
      → Wallet env cipher
      → Outcome (Transaction env × Wallet env cipher × Wallet env cipher)
  unfolding new_account sign_inputs insert_output
  pay public_key amount password draw s w =
      new_output env amount draw.their_nonce (key_content public_key) >>= λ to_them.
      or_throws
        (new_account env cipher draw.account_name password draw.public_key draw.private_key w)
      >>= λ w'.
          new_output env (change_of env amount s) draw.change_nonce (key_content draw.public_key)
          >>= λ change.
              let outputs = insert_output env to_them (insert_output env change []) in
              get_output_set_id env outputs >>= λ hash.
              sign_inputs password (BigNum.to_string hashing hash) s.to_spend [] w' >>= λ signed.
              new_transaction env signed.0 outputs draw.now false >>= λ tx. ok (tx, w', signed.1)

  -- `sendToAddress`; `listed` holds the entries of the table of outputs.
  send_to_address :
      Rules env
      → Text
      → ℕ
      → Text
      → Draw env cipher
      → Map Txo
      → Wallet env cipher
      → Chain env
      → Outcome (Sent × Wallet env cipher × Chain env)
  unfolding pay
  send_to_address rules public_key amount password draw listed w chain =
      if not (check_password env cipher password w)
      then ok (incorrect_password, w, chain)
      else if ltb ((get_total_balance 0 listed * 100000000) % u64) amount
      then ok (insufficient_funds, w, chain)
      else if not (env.signing.set_public_key public_key)
      then ok (invalid_address, w, chain)
      else (select env cipher chain.tables amount listed (start_selection env) >>= λ s.
          if not (is_enough env amount s)
          then ok (insufficient_with_fee s.fee, w, chain)
          else (pay public_key amount password draw s w >>= λ made.
              submit_transaction env rules made.0 chain >>= λ submitted.
              if submitted.1.0
              then ok (sent made.0.id, made.2, submitted.0)
              else ok (not_submitted, made.1, submitted.0)))
