-- ===== src/Wallet/Spend/Change.antt =====
-- What the loop of `sendToAddress` of src/client/wallet.cpp chooses, and the change.
use crypto_kernel.Prelude.{
  ℕ, ◌+◌, ◌%◌, ◌≡◌, refl, true, false, some, List, [], ◌∷◌, ◌⊎◌, arith, Bool-cases, inl, inr, ltb,
  ◌==◌, elem, map,
}
use crypto_kernel.Chain.{Tables}
use crypto_kernel.Env.{Env}
use crypto_kernel.OrderedMap.{Map}
use crypto_kernel.OrderedMap
use crypto_kernel.Outcome.{ok}
use crypto_kernel.Types.{Output, contract_name}
use crypto_kernel.Types.Transaction.{u64}
use crypto_kernel.Wallet.{Cipher, Txo, get_output}
use crypto_kernel.Wallet.Spend.{
  Selection, start_selection, insert_output, spending_fee, select_output,
}

module _ (env : Env) where
  open env.json use {is_null, member}

  -- The sums of the values and of the fees, as numbers without a bound
  unfoldable pub total_value : List (Output env) → ℕ
  total_value [] = 0
  total_value (out ∷ outs) = out.value + total_value outs

  unfoldable pub total_fee : List (Output env) → ℕ
  total_fee [] = 15000
  total_fee (out ∷ outs) = spending_fee env out + total_fee outs

  abbrev pub ids_of : List (Output env) → List ℕ
  ids_of outs = map (λ o. o.id) outs

  total_value-insert_output :
      (out : Output env) (outs : List (Output env))
      → elem out.id (ids_of outs) ≡ false
      → total_value (insert_output env out outs) ≡ out.value + total_value outs
  unfolding total_value insert_output
  total_value-insert_output out [] new = ground arith
  total_value-insert_output out (o ∷ outs) new = ground (arith, total_value-insert_output out outs)

  total_fee-insert_output :
      (out : Output env) (outs : List (Output env))
      → elem out.id (ids_of outs) ≡ false
      → total_fee (insert_output env out outs) ≡ spending_fee env out + total_fee outs
  unfolding total_fee insert_output
  total_fee-insert_output out [] new = ground arith
  total_fee-insert_output out (o ∷ outs) new = ground (arith, total_fee-insert_output out outs)

  elem-insert_output :
      (j : ℕ) (out : Output env) (outs : List (Output env))
      → (j == out.id) ≡ false
      → elem j (ids_of outs) ≡ false
      → elem j (ids_of (insert_output env out outs)) ≡ false
  unfolding insert_output
  elem-insert_output j out [] other absent = ground arith
  elem-insert_output j out (o ∷ outs) other absent = ground (arith, elem-insert_output j out outs)

  -- `select_output` of an output without a contract
  abbrev pub with_selected : Output env → Selection env → Selection env
  with_selected out s = record {
    to_spend = insert_output env out s.to_spend;
    accumulator = (s.accumulator + out.value) % u64;
    fee = (s.fee + spending_fee env out) % u64;
  }

  pub select_output_cases :
      (out : Output env) (s : Selection env)
      → (select_output env out s ≡ s)
        ⊎ ((is_null (member out.content contract_name) ≡ true)
            × (select_output env out s ≡ with_selected out s))
  unfolding select_output
  select_output_cases out s = elim (Bool-cases (is_null (member out.content contract_name))) [
    | inl free ↦ inr (free, rw free refl)
    | inr bound ↦ inl (rw bound refl)
  ]

  module _ (cipher : Cipher) (t : Tables env) (kept : Map Txo) where
    -- An output of the chain without a contract that the wallet keeps and has not spent
    abbrev pub IsSpendable : Output env → Type 0
    IsSpendable out =
        (is_null (member out.content contract_name) ≡ true)
        × (get_output env cipher t out.id ≡ ok out)
        × (txo : Txo) × (OrderedMap.lookup out.id kept ≡ some txo)
        × (txo.spent ≡ false)

    abbrev pub AreSpendable : List (Output env) → Type 0
    AreSpendable [] = Unit {0}
    AreSpendable (out ∷ outs) = IsSpendable out × AreSpendable outs

    -- Entries of the table with different keys, under which no output is chosen yet, and which are the
    -- identifiers of outputs of the chain.
    abbrev pub AreListed : Map Txo → List (Output env) → Type 0
    AreListed [] outs = Unit {0}
    AreListed (e ∷ listed) outs =
        (elem e.0 (ids_of outs) ≡ false)
        × (elem e.0 (map (λ d. d.0) listed) ≡ false)
        × (OrderedMap.lookup e.0 kept ≡ some e.1)
        × ((out : Output env) → get_output env cipher t e.0 ≡ ok out → out.id ≡ e.0)
        × AreListed listed outs

    pub AreListed-insert :
        (listed : Map Txo) (out : Output env) (outs : List (Output env))
        → elem out.id (map (λ d. d.0) listed) ≡ false
        → AreListed listed outs
        → AreListed listed (insert_output env out outs)
    AreListed-insert [] out outs other all = tt
    AreListed-insert (e ∷ listed) out outs other all = (
      elem-insert_output e.0 out outs (ground arith) all.0,
      all.1,
      all.2,
      all.3,
      AreListed-insert listed out outs (ground arith) all.4,
    )

    AreSpendable-insert :
        (out : Output env) (outs : List (Output env))
        → IsSpendable out
        → AreSpendable outs
        → AreSpendable (insert_output env out outs)
    unfolding insert_output
    AreSpendable-insert out [] one all = (one, tt)
    AreSpendable-insert out (o ∷ outs) one all = elim (Bool-cases (ltb out.id o.id)) [
      | inl below ↦ rw below (one, all)
      | inr above ↦ elim (Bool-cases (out.id == o.id)) [
        | inl same ↦ rw (above, same) all
        | inr other ↦ rw (above, other) (all.0, AreSpendable-insert out outs one all.1)
      ]
    ]

    -- What holds of the variables of the loop.
    pub record IsCounted (s : Selection env) : Type 0 where
      pub counted : s.accumulator ≡ total_value s.to_spend % u64
      pub charged : s.fee ≡ total_fee s.to_spend % u64
      pub spendable : AreSpendable s.to_spend

    pub select_output-IsCounted :
        (out : Output env) (s : Selection env)
        → elem out.id (ids_of s.to_spend) ≡ false
        → IsSpendable out
        → IsCounted s
        → IsCounted (with_selected out s)
    select_output-IsCounted out s new one count = record {
      counted =
          rw (total_value-insert_output out s.to_spend new)
            (let before = count.counted in omega arith);
      charged =
          rw (total_fee-insert_output out s.to_spend new)
            (let before = count.charged in omega arith);
      spendable = AreSpendable-insert out s.to_spend one count.spendable;
    }

    pub start-IsCounted : IsCounted (start_selection env)
    unfolding total_value total_fee start_selection
    start-IsCounted = record { counted = refl; charged = refl; spendable = tt }
