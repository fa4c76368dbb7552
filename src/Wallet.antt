-- ===== src/Wallet.antt =====
-- src/client/wallet.cpp: accounts, unspent outputs of the wallet's keys, and how confirmed transactions
-- are digested and taken back. A table is a map from its keys to what the stored JSON reads back as; the
-- index 0 of the accounts is a map of its own, from public keys to names. A wallet is the state of an
-- open database transaction.
pub mod Keys
pub mod Sync
pub mod Spend
pub mod Balance
pub mod Plain
mod Tests
use crypto_kernel.Prelude.{
  ℕ, ◌+◌, ◌-◌, ◌%◌, Bool, true, false, not, ◌||◌, Option, none, some, List, [], ◌∷◌, if◌then◌else◌,
}
use crypto_kernel.BigNum.{Text}
use crypto_kernel.Chain.{Tables, get_output_db}
use crypto_kernel.Env.{Env}
use crypto_kernel.KeyMap.{KeyMap}
use crypto_kernel.KeyMap
use crypto_kernel.OrderedMap.{Map}
use crypto_kernel.OrderedMap
use crypto_kernel.Outcome.{Outcome, ok, uncaught, ◌>>=◌, or_throws}
use crypto_kernel.Types.{Input, Output, public_key_name}
use crypto_kernel.Types.Block.{Block}
use crypto_kernel.Types.Transaction.{Transaction, u64}

-- `AES256`: a text under a password. A wrong password throws.
pub record Cipher : Type 1 where
  pub Sealed : Type 0
  pub seal : Text → Text → Sealed
  pub unseal : Sealed → Text → Option Text

-- `Txo`; its identifier is its key in the table.
pub record Txo : Type 0 where
  pub spent : Bool
  pub value : ℕ

module _ (env : Env) (cipher : Cipher) where
  open env.json use {member, is_text, as_text}

  -- `Account`, with its keys in the order of the public keys
  pub record Account : Type 0 where
    pub name : Text
    pub balance : ℕ
    pub keys : KeyMap cipher.Sealed

  pub record Wallet : Type 0 where
    pub password_check : cipher.Sealed
    pub accounts : KeyMap Account
    pub key_names : KeyMap Text
    pub utxos : Map Txo
    -- Whether the transaction is unconfirmed
    pub transactions : Map Bool
    pub height : ℕ
    -- `none` for the empty text
    pub tip_id : Option ℕ

  -- `Account(json)` of a null value
  empty_account : Account
  empty_account = record { name = []; balance = 0; keys = [] }

  -- `getAccountByKey`; `none` for a `WalletException`
  pub get_account_by_key : Wallet → Text → Option Account
  unfolding empty_account
  get_account_by_key w key = elim (KeyMap.lookup key w.key_names) [
    | none ↦ none
    | some name ↦ elim (KeyMap.lookup name w.accounts) [
      | none ↦ some empty_account
      | some account ↦ some account
    ]
  ]

  -- `acc.setBalance(balance)`, and the account is put under its name
  pub put_balance : Account → ℕ → Wallet → Wallet
  put_balance account balance w = record w {
    accounts = KeyMap.assign account.name (record account { balance = balance }) w.accounts;
  }

  -- `acc.setBalance(acc.getBalance() + value)`, in a `uint64_t`
  pub credit : Account → ℕ → Wallet → Wallet
  unfolding put_balance
  credit account value w = put_balance account ((account.balance + value) % u64) w

  -- `acc.setBalance(acc.getBalance() - value)`
  pub debit : Account → ℕ → Wallet → Wallet
  unfolding put_balance
  debit account value w = put_balance account ((account.balance + u64 - value) % u64) w

  -- `getOutput` and `getOutputDB` of the chain
  pub get_output : Tables env → ℕ → Outcome (Output env)
  get_output t id = get_output_db env t id >>= λ out. ok out.output

  -- `getAccountByKey(out.getData()["publicKey"].asString())`, where nothing catches what it throws
  pub owner_or_throw : Wallet → Output env → Outcome Account
  owner_or_throw w out = or_throws (as_text (member out.content public_key_name)) >>= λ key.
      or_throws (get_account_by_key w key)

  -- The same in a `try` after the test that the key is a text; `none` for what is caught, and for a
  -- key that is no text
  pub owner : Wallet → Output env → Option Account
  owner w out =
      if is_text (member out.content public_key_name)
      then elim (as_text (member out.content public_key_name)) [
        | none ↦ none
        | some key ↦ get_account_by_key w key
      ]
      else none

  -- A round of the loop of `digestTx` over the inputs; the first result is `trackTx`.
  pub digest_input : Tables env → Bool → Input env → Bool → Wallet → Outcome (Bool × Wallet)
  unfolding get_output owner_or_throw debit
  digest_input t unconfirmed inp track w = elim (OrderedMap.lookup inp.output_id w.utxos) [
    | none ↦ ok (track, w)
    | some txo ↦
        if unconfirmed
        then ok (true, w)
        else (get_output t inp.output_id >>= λ out.
            let w' = record w { utxos = OrderedMap.erase inp.output_id w.utxos } in
            owner_or_throw w' out >>= λ account. ok (true, debit account out.value w'))
  ]

  pub digest_inputs : Tables env → Bool → List (Input env) → Bool → Wallet → Outcome (Bool × Wallet)
  unfolding digest_input
  digest_inputs t unconfirmed [] track w = ok (track, w)
  digest_inputs t unconfirmed (inp ∷ inps) track w =
      digest_input t unconfirmed inp track w >>= λ r. digest_inputs t unconfirmed inps r.0 r.1

  -- A round of the loop over the outputs
  pub digest_output : Bool → Output env → Bool → Wallet → Bool × Wallet
  unfolding owner credit
  digest_output unconfirmed out track w = elim (owner w out) [
    | none ↦ (track, w)
    | some account ↦ if unconfirmed then (true, w) else (
      true,
      (let w' = credit account out.value w in
          record w' {
            utxos = OrderedMap.assign out.id (record { spent = false; value = out.value }) w'.utxos;
          }),
    )
  ]

  pub digest_outputs : Bool → List (Output env) → Bool → Wallet → Bool × Wallet
  unfolding digest_output
  digest_outputs unconfirmed [] track w = (track, w)
  digest_outputs unconfirmed (out ∷ outs) track w =
      let r = digest_output unconfirmed out track w in digest_outputs unconfirmed outs r.0 r.1

  -- `digestTx`
  pub digest_tx : Tables env → Bool → Transaction env → Wallet → Outcome Wallet
  unfolding digest_inputs digest_outputs
  digest_tx t unconfirmed tx w = digest_inputs t unconfirmed tx.inputs false w >>= λ r.
      let (track, w') = digest_outputs unconfirmed tx.outputs r.0 r.1 in
      ok (
        if track
        then record w' { transactions = OrderedMap.assign tx.id unconfirmed w'.transactions }
        else w')

  -- The loop of `rewindTx` over the outputs
  pub rewind_outputs : List (Output env) → Wallet → Outcome Wallet
  unfolding owner_or_throw debit
  rewind_outputs [] w = ok w
  rewind_outputs (out ∷ outs) w =
      (elim (OrderedMap.lookup out.id w.utxos) [
        | none ↦ ok w
        | some txo ↦
            let w' = record w { utxos = OrderedMap.erase out.id w.utxos } in
            owner_or_throw w' out >>= λ account. ok (debit account out.value w')
      ])
      >>= rewind_outputs outs

  -- The loop over the inputs
  pub rewind_inputs : Tables env → List (Input env) → Wallet → Outcome Wallet
  unfolding get_output owner credit
  rewind_inputs t [] w = ok w
  rewind_inputs t (inp ∷ inps) w = get_output t inp.output_id >>= λ out.
      rewind_inputs t inps (elim (owner w out) [
        | none ↦ w
        | some account ↦
            let w' = credit account out.value w in
            record w' {
              utxos =
                  OrderedMap.assign out.id (record { spent = false; value = out.value }) w'.utxos;
            }
      ])

  -- `rewindTx`
  pub rewind_tx : Tables env → Transaction env → Wallet → Outcome Wallet
  unfolding rewind_outputs rewind_inputs
  rewind_tx t tx w = elim (OrderedMap.lookup tx.id w.transactions) [
    | none ↦ ok w
    | some unconfirmed ↦
        rewind_outputs tx.outputs
          (record w { transactions = OrderedMap.erase tx.id w.transactions })
        >>= rewind_inputs t tx.inputs
  ]
