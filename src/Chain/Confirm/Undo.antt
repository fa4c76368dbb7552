-- ===== src/Chain/Confirm/Undo.antt =====
-- The loops of `reverseBlock` of src/kernel/blockchain.cpp over one transaction, and the loop of
-- `confirmTransaction` that adds outputs.
use crypto_kernel.Prelude.{
  All, ℕ, ◌≡◌, ◌∙◌, refl, false, Option, none, some, List, [], ◌∷◌, map, elem, arith,
}
use crypto_kernel.BigNum.{Text}
use crypto_kernel.Env.{Env}
use crypto_kernel.OrderedMap
use crypto_kernel.OrderedMap.{Map, lookup, IsSorted}
use crypto_kernel.OrderedMap.Laws.{lookup-erase, erase-IsSorted, lookup-assign, assign-IsSorted}
use crypto_kernel.OrderedSet.{Distinct}
use crypto_kernel.Outcome.{ok, returned}
use crypto_kernel.Types.{Input, Output}
use crypto_kernel.Types.Stored.{DbOutput}
use crypto_kernel.Chain.{Tables, get_output_or_throw}
use crypto_kernel.Chain.Confirm.{
  key_entry, put_key, erase_key, add_output, add_outputs, erase_utxo, erase_utxos, restore_input,
  restore_inputs,
}
use crypto_kernel.Chain.Confirm.Coins.{
  Coins, Holds, Holds-ext, Holds-update, moved, ok-injective, set, taken,
}
use crypto_kernel.Chain.Confirm.Spent.{Found, Found-set}

module _ (env : Env) where
  pub restore_input-Holds :
      (inp : Input env) (t : Tables env) (u s : Coins env)
      → Found env s inp
      → Holds env u s t
      → (t' : Tables env) × (restore_input env inp t ≡ ok t')
        × Holds env (set env inp.output_id (s inp.output_id) u) (set env inp.output_id none s) t'
  unfolding restore_input get_output_or_throw
  restore_input-Holds inp t u s (out, entry, there, keyed) h =
      let id = inp.output_id in
      let found : lookup id t.stxos ≡ some out = h.stxo id ∙ there in
      (
        record t {
          inputs = OrderedMap.erase inp.id t.inputs;
          stxos = OrderedMap.erase id t.stxos;
          stxo_keys = erase_key env entry t.stxo_keys;
          utxos = OrderedMap.assign id out t.utxos;
          utxo_keys = put_key env entry t.utxo_keys;
        },
        ground arith,
        Holds-update env (assign-IsSorted id out t.utxos h.sorted_utxos)
            (erase-IsSorted id t.stxos h.sorted_stxos)
            (λ x. ground (arith, lookup-assign x id out t.utxos, h.utxo x, there))
            (λ x. ground (arith, lookup-erase x id t.stxos h.sorted_stxos, h.stxo x)) refl refl,
      )

  pub restore_inputs-Holds :
      (inps : List (Input env)) (t : Tables env) (u s : Coins env)
      → Distinct (map (λ i. i.output_id) inps)
      → All (Found env s) inps
      → Holds env u s t
      → (t' : Tables env) × (restore_inputs env inps t ≡ ok t')
        × Holds env
            (moved env (map (λ i. i.output_id) inps) s u)
            (taken env (map (λ i. i.output_id) inps) s)
            t'
  unfolding restore_inputs
  restore_inputs-Holds [] t u s d f h = (t, refl, h)
  restore_inputs-Holds (inp ∷ inps) t u s d (f, fs) h =
      let (t1, first, one) = restore_input-Holds inp t u s f h in
      let (t2, rest, all) =
        restore_inputs-Holds inps t1 (set env inp.output_id (s inp.output_id) u)
          (set env inp.output_id none s) d.1
          (Found-set env inp.output_id s (set env inp.output_id none s) inps d.0
            (λ x ne. ground arith) fs)
          one in
      (t2, rw first rest, Holds-ext env t2 (λ x. ground (arith, d.0)) (λ x. ground arith) all)

  -- The identifiers that the outputs make.
  abbrev pub ids_of : List (Output env) → List ℕ
  ids_of outs = map (λ o. o.id) outs

  -- Outside these identifiers two views agree.
  abbrev pub AgreeOutside : List ℕ → Coins env → Coins env → Type 0
  AgreeOutside ids u u' = (x : ℕ) → elem x ids ≡ false → u' x ≡ u x

  abbrev pub Keyed : Output env → Type 0
  Keyed out = (entry : Option Text) × (key_entry env out.content out.id ≡ ok entry)

  pub add_output-Holds :
      (txid : ℕ) (out : Output env) (t t' : Tables env) (u s : Coins env)
      → Holds env u s t
      → add_output env txid out t ≡ ok t'
      → Keyed out
        × Holds env (set env out.id (some (record { output = out; creation_tx = txid })) u) s t'
  unfolding add_output
  add_output-Holds txid out t t' u s h e =
      let (entry, last, keyed) = returned {result = t'} (key_entry env out.content out.id) _ e in
      let made : DbOutput env = record { output = out; creation_tx = txid } in
      (
        (entry, keyed),
        Holds-update env (assign-IsSorted out.id made t.utxos h.sorted_utxos) h.sorted_stxos
            (λ x. ground (arith, lookup-assign x out.id made t.utxos, h.utxo x)) h.stxo
            (ground arith) (ground arith),
      )

  pub add_outputs-Holds :
      (txid : ℕ) (outs : List (Output env)) (t t' : Tables env) (u s : Coins env)
      → Holds env u s t
      → add_outputs env txid outs t ≡ ok t'
      → All Keyed outs × ((u' : Coins env) × AgreeOutside (ids_of outs) u u' × Holds env u' s t')
  unfolding add_outputs
  add_outputs-Holds txid [] t t' u s h e = (tt, (u, λ x ne. refl, rw (ok-injective env e) at h))
  add_outputs-Holds txid (out ∷ outs) t t' u s h e =
      let (t1, rest, first) = returned {result = t'} (add_output env txid out t) _ e in
      let (keyed, one) = add_output-Holds txid out t t1 u s h first in
      let (all, (u', agree, more)) = add_outputs-Holds txid outs t1 t' _ s one rest in
      ((keyed, all), (u', λ x ne. ground (arith, agree x), more))

  pub erase_utxos-Holds :
      (outs : List (Output env)) (t : Tables env) (u s : Coins env)
      → All Keyed outs
      → Holds env u s t
      → (t' : Tables env) × (erase_utxos env outs t ≡ ok t')
        × Holds env (taken env (ids_of outs) u) s t'
  unfolding erase_utxos erase_utxo
  erase_utxos-Holds [] t u s k h = (t, refl, h)
  erase_utxos-Holds (out ∷ outs) t u s ((entry, keyed), ks) h =
      let t1 : Tables env = record t {
        utxos = OrderedMap.erase out.id t.utxos;
        utxo_keys = erase_key env entry t.utxo_keys;
      } in
      let one : Holds env (set env out.id none u) s t1 =
        Holds-update env (erase-IsSorted out.id t.utxos h.sorted_utxos) h.sorted_stxos
          (λ x. ground (arith, lookup-erase x out.id t.utxos h.sorted_utxos, h.utxo x)) h.stxo refl
          refl in
      let (t2, rest, all) = erase_utxos-Holds outs t1 (set env out.id none u) s ks one in
      (t2, rw keyed rest, Holds-ext env t2 (λ x. ground arith) (λ x. refl) all)
