-- ===== src/Wallet/Tests.antt =====
-- A wallet of one account that spends an output and gets another, with concrete parameters.
use crypto_kernel.Prelude.{
  ℕ, ◌+◌, ◌≡◌, refl, sym, ◌∙◌, ap, subst, Bool, Bool-cases, inl, inr, true, false, none, some, [],
  ◌∷◌, arith, ◌==◌, ==→eq, if◌then◌else◌,
}
use crypto_kernel.Chain.{Tables, get_output_db}
use crypto_kernel.KeyMap.{KeyMap, text_eq, text_eq→eq}
use crypto_kernel.KeyMap
use crypto_kernel.OrderedMap.{Map}
use crypto_kernel.OrderedMap
use crypto_kernel.Outcome.{ok, not_found, ok-injective}
use crypto_kernel.Sample.{sample_env as env, entry, text, nothing}
use crypto_kernel.Types.{Output, public_key_name}
use crypto_kernel.Types.Transaction.{Transaction}
use crypto_kernel.Wallet.Plain.{plain, key_name, account_name}
use crypto_kernel.Wallet.{
  Txo, Account, Wallet, get_account_by_key, put_balance, credit, debit, get_output, owner_or_throw,
  owner, digest_input, digest_inputs, digest_output, digest_outputs, digest_tx, rewind_outputs,
  rewind_inputs, rewind_tx,
}
use crypto_kernel.Wallet.Balance.{coins, balances, IsNamed, IsOutput, IsBooked, IsConsistent}
use crypto_kernel.Wallet.Balance.Digest.{digest_tx-IsConsistent}
use crypto_kernel.Wallet.Balance.Rewind.{rewind_tx-IsBooked}
use crypto_kernel.Wallet.Balance.Undo.{IsWorth}
use crypto_kernel.Wallet.Spend.{
  Selection, start_selection, insert_output, spending_fee, select_output, is_enough, consider,
  select, change_of,
}
use crypto_kernel.Wallet.Spend.Change.{total_value, total_fee, AreListed, AreSpendable}
use crypto_kernel.Wallet.Spend.Pays.{select-pays}

abbrev output_of : ℕ → ℕ → Output env
output_of id value = record {
  value = value;
  nonce = 0;
  content = entry public_key_name (text key_name) nothing;
  id = id;
}

abbrev tables : Tables env
tables = record {
  blocks = [];
  tip = none;
  heights = [];
  transactions = [];
  utxos =
      (5, record { output = output_of 5 100000; creation_tx = 1 })
      ∷ (6, record { output = output_of 6 30; creation_tx = 2 })
      ∷ [];
  utxo_keys = [];
  stxos = [];
  stxo_keys = [];
  inputs = [];
  candidates = [];
}

abbrev account_with : ℕ → Account env plain
account_with balance = record {
  name = account_name;
  balance = balance;
  keys = (key_name, b'p' ∷ []) ∷ [];
}

abbrev wallet_with : ℕ → ℕ → ℕ → Map Bool → Wallet env plain
wallet_with balance id value transactions = record {
  password_check = [];
  accounts = (account_name, account_with balance) ∷ [];
  key_names = (key_name, account_name) ∷ [];
  utxos = (id, record { spent = false; value = value }) ∷ [];
  transactions = transactions;
  height = 1;
  tip_id = none;
}

abbrev before : Wallet env plain
before = wallet_with 100000 5 100000 []

abbrev after : Wallet env plain
after = wallet_with 30 6 30 ((9, false) ∷ [])

abbrev payment : Transaction env
payment = record {
  inputs = record { output_id = 5; content = nothing; id = 3 } ∷ [];
  outputs = output_of 6 30 ∷ [];
  timestamp = 1;
  bytes = 90;
  id = 9;
}

singleton-IsNamed :
    (balance : ℕ)
    → IsNamed env plain ((account_name, account_with balance) ∷ []) ((key_name, account_name) ∷ [])
unfolding text_eq
singleton-IsNamed balance = record {
  named = λ name a found. elim (Bool-cases (text_eq name account_name)) [
    | inl here ↦
        let same : account_with balance ≡ a = ground arith in
        ap (λ c. c.name) (sym same) ∙ sym (text_eq→eq name account_name here)
    | inr other ↦ absurd (ground arith)
  ];
  indexed = λ key name found. elim (Bool-cases (text_eq key key_name)) [
    | inl here ↦
        let same : account_name ≡ name = ground arith in
        (
          account_with balance,
          subst
              (λ n.
                KeyMap.lookup n ((account_name, account_with balance) ∷ [])
                ≡ some (account_with balance))
              same refl,
        )
    | inr other ↦ absurd (ground arith)
  ];
}

wallet_with-IsBooked :
    (Stands : ℕ → ℕ → Type 0) (id value : ℕ) (transactions : Map Bool)
    → Stands id value
    → IsBooked env plain Stands (wallet_with value id value transactions)
unfolding coins balances
wallet_with-IsBooked Stands id value transactions stands = record {
  names = singleton-IsNamed value;
  sorted = (tt, tt);
  valued = λ j txo found. elim (Bool-cases (j == id)) [
    | inl here ↦
        let kept : Txo = record { spent = false; value = value } in
        let same : kept ≡ txo = ground arith in
        let place : id ≡ j = sym (==→eq j id here) in
        subst (λ (o : Txo). Stands j o.value) same (subst (λ k. Stands k value) place stands)
    | inr other ↦ absurd (ground arith)
  ];
  balanced = refl;
}

found_6 : get_output env plain tables 6 ≡ ok (output_of 6 30)
unfolding get_output get_output_db
found_6 = refl

found_5 : get_output env plain tables 5 ≡ ok (output_of 5 100000)
unfolding get_output get_output_db
found_5 = refl

before-IsConsistent : IsConsistent env plain tables before
before-IsConsistent =
    wallet_with-IsBooked (IsOutput env plain tables) 5 100000 []
      (output_of 5 100000, found_5, refl, omega arith)

digested : digest_tx env plain tables false payment before ≡ ok after
unfolding digest_tx digest_inputs digest_outputs digest_input digest_output owner owner_or_throw
    get_output get_output_db get_account_by_key credit debit put_balance OrderedMap.assign
    OrderedMap.erase KeyMap.assign text_eq
digested = refl

digest_tx-IsConsistent_example : IsConsistent env plain tables after
digest_tx-IsConsistent_example =
    digest_tx-IsConsistent env plain tables payment before after before-IsConsistent
      (refl, refl, (output_of 6 30, found_6, refl, omega arith), tt) digested

-- The chain once the payment is reversed: the output 6 is erased, and 5 is unspent again.
abbrev reversed : Tables env
reversed = record tables {
  utxos = (5, record { output = output_of 5 100000; creation_tx = 1 }) ∷ [];
}

erased_6 : get_output env plain reversed 6 ≡ not_found
unfolding get_output get_output_db
erased_6 = refl

restored_5 : get_output env plain reversed 5 ≡ ok (output_of 5 100000)
unfolding get_output get_output_db
restored_5 = refl

abbrev value_of : ℕ → ℕ
value_of id = if id == 5 then 100000 else 30

rewound : rewind_tx env plain reversed payment after ≡ ok before
unfolding rewind_tx rewind_inputs rewind_outputs owner owner_or_throw get_output get_output_db
    get_account_by_key credit debit put_balance OrderedMap.assign OrderedMap.erase KeyMap.assign
    text_eq
rewound = refl

after-IsBooked : IsBooked env plain (IsWorth value_of) after
after-IsBooked = wallet_with-IsBooked (IsWorth value_of) 6 30 ((9, false) ∷ []) (refl, omega arith)

rewind_tx-IsBooked_example : IsBooked env plain (IsWorth value_of) before
rewind_tx-IsBooked_example =
    rewind_tx-IsBooked env plain value_of reversed payment after before after-IsBooked
      ((refl, omega arith), tt)
      (
        refl,
        refl,
        λ out got.
            let same : output_of 5 100000 ≡ out = ok-injective (sym restored_5 ∙ got) in
            subst (λ (o : Output env). (o.id ≡ 5) × IsWorth value_of o.id o.value) same
              (refl, (refl, omega arith)),
        tt,
      )
      rewound

listed-AreListed : AreListed env plain tables before.utxos before.utxos []
listed-AreListed =
    (refl, refl, refl, λ out got. ap (λ o. o.id) (ok-injective (sym got ∙ found_5)), tt)

-- The fee is 15000 and 60 for the line end of what the data is written as.
abbrev chosen : Selection env
chosen = record { to_spend = output_of 5 100000 ∷ []; accumulator = 100000; fee = 15060 }

selected : select env plain tables 50000 before.utxos (start_selection env) ≡ ok chosen
unfolding select start_selection is_enough consider select_output insert_output spending_fee
    get_output get_output_db crypto_kernel.Json.to_string text_eq
selected = refl

is_paid : is_enough env 50000 chosen ≡ true
unfolding is_enough
is_paid = refl

chosen_fee : total_fee env chosen.to_spend ≡ 15060
unfolding total_fee spending_fee crypto_kernel.Json.to_string
chosen_fee = refl

chosen_value : total_value env chosen.to_spend ≡ 100000
unfolding total_value
chosen_value = refl

select-pays_example :
    (total_value env chosen.to_spend
      ≡ 50000 + change_of env 50000 chosen + total_fee env chosen.to_spend)
    × AreSpendable env plain tables before.utxos chosen.to_spend
select-pays_example =
    select-pays env plain tables before.utxos 50000 before.utxos chosen listed-AreListed selected
      is_paid (rw chosen_fee (omega arith)) (rw chosen_value (omega arith))
