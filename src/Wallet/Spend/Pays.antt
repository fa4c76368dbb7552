-- ===== src/Wallet/Spend/Pays.antt =====
-- The loop of `sendToAddress` of src/client/wallet.cpp chooses outputs that pay the amount and the fee, and
-- the change is the rest.
use crypto_kernel.Prelude.{
  ℕ, ◌+◌, ◌-◌, ◌*◌, ◌%◌, ◌<◌, ◌≤◌, ◌≡◌, refl, sym, ◌∙◌, ap, subst, true, false, [], ◌∷◌, ◌⊎◌, arith,
  if◌then◌else◌, Bool-cases, inl, inr, elem, map,
}
use crypto_kernel.Chain.{Tables}
use crypto_kernel.Env.{Env}
use crypto_kernel.OrderedMap.{Map}
use crypto_kernel.OrderedMap
use crypto_kernel.Outcome.{
  Outcome, ok, invalid, not_found, uncaught, undefined, out_of_fuel, ◌>>=◌, returned, ok-injective,
}
use crypto_kernel.Types.{Output, contract_name}
use crypto_kernel.Types.Transaction.{u64}
use crypto_kernel.Wallet.{Cipher, Txo, get_output}
use crypto_kernel.Wallet.Spend.{
  Selection, start_selection, select_output, is_enough, consider, select, change_of,
}
use crypto_kernel.Wallet.Spend.Change.{
  total_value, total_fee, ids_of, select_output_cases, with_selected, AreSpendable, AreListed,
  AreListed-insert, IsCounted, select_output-IsCounted, start-IsCounted,
}

module _ (env : Env) (cipher : Cipher) (t : Tables env) (kept : Map Txo) where
  open env.json use {is_null, member}

  consider-found :
      (id : ℕ) (s : Selection env) (out : Output env)
      → get_output env cipher t id ≡ ok out
      → consider env cipher t id s ≡ ok (select_output env out s)
  unfolding consider
  consider-found id s out got = ground (arith, got)

  -- A round: nothing is chosen, or an output of the chain without a contract.
  consider_cases :
      (id : ℕ) (s s' : Selection env) (answer : Outcome (Output env))
      → get_output env cipher t id ≡ answer
      → consider env cipher t id s ≡ ok s'
      → (s' ≡ s)
        ⊎ ((out : Output env) × (get_output env cipher t id ≡ ok out)
            × (is_null (member out.content contract_name) ≡ true)
            × (s' ≡ with_selected env out s))
  unfolding consider
  consider_cases id s s' (ok out) got e =
      let same : select_output env out s ≡ s' =
        ok-injective (sym (consider-found id s out got) ∙ e) in
      elim (select_output_cases env out s) [
        | inl skipped ↦ inl (sym same ∙ skipped)
        | inr (free, chosen) ↦ inr (out, got, free, sym same ∙ chosen)
      ]
  consider_cases id s s' not_found got e = inl (ground (arith, got, e))
  consider_cases id s s' (invalid message) got e = absurd (ground (arith, got, e))
  consider_cases id s s' uncaught got e = absurd (ground (arith, got, e))
  consider_cases id s s' undefined got e = absurd (ground (arith, got, e))
  consider_cases id s s' out_of_fuel got e = absurd (ground (arith, got, e))

  -- A round leaves the variables right for the entries still to come.
  abbrev Continues : Map Txo → Selection env → Type 0
  Continues listed s = IsCounted env cipher t kept s × AreListed env cipher t kept listed s.to_spend

  round-Continues :
      (e : ℕ × Txo) (listed : Map Txo) (s s' : Selection env)
      → Continues (e ∷ listed) s
      → (if e.1.spent then ok s else consider env cipher t e.0 s) ≡ ok s'
      → Continues listed s'
  round-Continues e listed s s' (count, all) done = elim (Bool-cases e.1.spent) [
    | inl spent ↦
        subst (Continues listed)
          (ok-injective
            (sym (ap (λ b. if b then ok s else consider env cipher t e.0 s) spent) ∙ done))
          (count, all.4)
    | inr unspent ↦
        elim (consider_cases e.0 s s' (get_output env cipher t e.0) refl
          (sym (ap (λ b. if b then ok s else consider env cipher t e.0 s) unspent) ∙ done)) [
            | inl same ↦ subst (Continues listed) (sym same) (count, all.4)
            | inr (out, got, free, chosen) ↦
                let known : out.id ≡ e.0 = all.3 out got in
                subst (Continues listed) (sym chosen) (
                  select_output-IsCounted env cipher t kept out s
                      (ap (λ i. elem i (ids_of env s.to_spend)) known ∙ all.0)
                      (
                        free,
                        ap (get_output env cipher t) known ∙ got,
                        e.1,
                        ap (λ i. OrderedMap.lookup i kept) known ∙ all.2,
                        unspent,
                      )
                      count,
                  AreListed-insert env cipher t kept listed out s.to_spend
                      (ap (λ i. elem i (map (λ d. d.0) listed)) known ∙ all.1) all.4,
                )
          ]
  ]

  select-enough :
      (amount : ℕ) (e : ℕ × Txo) (listed : Map Txo) (s : Selection env)
      → is_enough env amount s ≡ true
      → select env cipher t amount (e ∷ listed) s ≡ ok s
  unfolding select
  select-enough amount e listed s enough = rw enough refl

  select-more :
      (amount : ℕ) (e : ℕ × Txo) (listed : Map Txo) (s : Selection env)
      → is_enough env amount s ≡ false
      → select env cipher t amount (e ∷ listed) s ≡ (
          (if e.1.spent then ok s else consider env cipher t e.0 s)
          >>= select env cipher t amount listed)
  unfolding select
  select-more amount e listed s more = rw more refl

  select-IsCounted :
      (amount : ℕ) (listed : Map Txo) (s s' : Selection env)
      → Continues listed s
      → select env cipher t amount listed s ≡ ok s'
      → IsCounted env cipher t kept s'
  unfolding select
  select-IsCounted amount [] s s' (count, all) done =
      subst (IsCounted env cipher t kept) (ok-injective done) count
  select-IsCounted amount (e ∷ listed) s s' (count, all) done =
      elim (Bool-cases (is_enough env amount s)) [
        | inl enough ↦
            subst (IsCounted env cipher t kept)
              (ok-injective (sym (select-enough amount e listed s enough) ∙ done)) count
        | inr more ↦
            let (u, rest, first) =
              returned {result = s'} (if e.1.spent then ok s else consider env cipher t e.0 s) _
                (sym (select-more amount e listed s more) ∙ done) in
            select-IsCounted amount listed u s' (round-Continues e listed s u (count, all) first)
              rest
      ]

  -- The sums of an exact choice, in numbers
  exact_change :
      (accumulator fee value charge amount : ℕ)
      → accumulator ≡ value % u64
      → fee ≡ charge % u64
      → value < u64
      → amount + charge < u64
      → (amount + fee) % u64 ≤ accumulator
      → value ≡ amount + (accumulator + 2 * u64 - amount - fee) % u64 + charge
  exact_change accumulator fee value charge amount counted charged small payable enough =
      omega arith

  enough-le :
      (amount : ℕ) (s : Selection env)
      → is_enough env amount s ≡ true
      → (amount + s.fee) % u64 ≤ s.accumulator
  unfolding is_enough
  enough-le amount s enough = ground arith

  -- The loop of `sendToAddress` over the outputs that it may spend, from no output and a fee of 15000,
  -- where these are entries of the wallet's table with different keys, each the identifier of the output
  -- that the chain has under it. If it returns with enough, and the amount with the fee and the sum of
  -- the chosen values are below 2 ^ 64, then what it has chosen are outputs of the chain without a
  -- contract that the wallet keeps and has not spent, and their values are the amount, the change and
  -- the fee, which is 15000 and 60 for each byte of their data.
  pub select-pays :
      (amount : ℕ) (listed : Map Txo) (s : Selection env)
      → AreListed env cipher t kept listed []
      → select env cipher t amount listed (start_selection env) ≡ ok s
      → is_enough env amount s ≡ true
      → amount + total_fee env s.to_spend < u64
      → total_value env s.to_spend < u64
      → (total_value env s.to_spend ≡ amount + change_of env amount s + total_fee env s.to_spend)
        × AreSpendable env cipher t kept s.to_spend
  unfolding change_of start_selection
  select-pays amount listed s all done enough payable small =
      let count =
        select-IsCounted amount listed (start_selection env) s
          (start-IsCounted env cipher t kept, all) done in
      (
        exact_change s.accumulator s.fee _ _ amount count.counted count.charged small payable
            (enough-le amount s enough),
        count.spendable,
      )
