-- ===== src/Types/Transaction/Valid.antt =====
-- Which transactions `transaction::checkRep` of src/kernel/blockchaintypes.cpp accepts.
use crypto_kernel.Prelude.{
  ℕ, ◌+◌, ◌*◌, ◌≤◌, ◌<◌, ◌≡◌, ◌↔◌, refl, Bool, true, false, List, [], ◌∷◌, map, length, sum, All,
  if◌then◌else◌, arith, length-append, length-map, not, ◌==◌,
}
use crypto_kernel.Env.{Env}
use crypto_kernel.OrderedSet.{insert_ids, Distinct, length-insert_ids, length-insert_ids-Distinct}
use crypto_kernel.Outcome.{ok}
use crypto_kernel.Types.{Input, Output}
use crypto_kernel.Types.Transaction.{u64, total_fits, check_transaction, touched}

abbrev pub IsU64 : ℕ → Type 0
IsU64 v = v < u64

total_fits→lt :
    (s : ℕ) (values : List ℕ)
    → s < u64
    → All IsU64 values
    → total_fits s s values ≡ true
    → s + sum values < u64
unfolding total_fits
total_fits→lt s [] hs h e = omega arith
total_fits→lt s (v ∷ values) hs h e = ground (arith, total_fits→lt (s + v) values)

lt→total_fits : (s : ℕ) (values : List ℕ) → s + sum values < u64 → total_fits s s values ≡ true
unfolding total_fits
lt→total_fits s [] e = refl
lt→total_fits s (v ∷ values) e = ground (arith, lt→total_fits (s + v) values)

not_flip : (b : Bool) → (not b ≡ false) ↔ (b ≡ true)
not_flip b = ground arith

module _ (env : Env) where
  -- What a transaction promises: it is small, it makes an output, it spends exactly if it is no
  -- coinbase, its outputs add up within 64 bits, and no output identifier occurs twice in it.
  pub record IsValid (inputs : List (Input env)) (outputs : List (Output env)) (bytes : ℕ)
      (coinbase : Bool) : Type 0 where
    pub small : bytes ≤ 100 * 1024
    pub makes : 1 ≤ length outputs
    pub spends : if coinbase then length inputs ≡ 0 else 1 ≤ length inputs
    pub total : sum (map (λ o. o.value) outputs) < u64
    pub distinct : Distinct (touched env inputs outputs)

  module _ (inputs : List (Input env)) (outputs : List (Output env)) (bytes : ℕ)
      (coinbase : Bool) where
    length-touched : length (touched env inputs outputs) ≡ length outputs + length inputs
    length-touched = omega (
      arith,
      length-append (map (λ i. i.output_id) inputs) (map (λ o. o.id) outputs),
      length-map inputs (λ i. i.output_id),
      length-map outputs (λ o. o.id),
    )

    ids_fit :
        (length (insert_ids (touched env inputs outputs) []) == length outputs + length inputs)
          ≡ true
        → Distinct (touched env inputs outputs)
    ids_fit e =
        (length-insert_ids-Distinct (touched env inputs outputs) [] tt
          (ground (arith, length-touched))).0

    ids_count :
        Distinct (touched env inputs outputs)
        → (length (insert_ids (touched env inputs outputs) []) == length outputs + length inputs)
          ≡ true
    ids_count d = ground (
      arith,
      length-touched,
      length-insert_ids (touched env inputs outputs) [] tt d (λ x m. refl),
    )

    -- `transaction::checkRep` accepts exactly the valid transactions, if every output's value is a
    -- `uint64_t`.
    pub check_transaction-IsValid :
        All IsU64 (map (λ o. o.value) outputs)
        → (check_transaction env inputs outputs bytes coinbase ≡ ok tt)
          ↔ IsValid inputs outputs bytes coinbase
    unfolding check_transaction
    check_transaction-IsValid small_values =
        let values = map (λ o. o.value) outputs in
        (
          (λ e. record {
            small = ground arith;
            makes = ground arith;
            spends = ground arith;
            total =
                let fits : total_fits 0 0 values ≡ true = ground arith in
                omega (arith, total_fits→lt 0 values (omega arith) small_values fits);
            distinct = ids_fit (ground arith);
          }),
          (λ v.
              ground
                (arith, lt→total_fits 0 values (omega (arith, v.total)), ids_count v.distinct)),
        )
