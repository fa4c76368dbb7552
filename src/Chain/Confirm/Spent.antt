-- ===== src/Chain/Confirm/Spent.antt =====
-- The loop of `confirmTransaction` of src/kernel/blockchain.cpp that spends outputs.
use crypto_kernel.Prelude.{
  All, ℕ, ◌≡◌, ◌∙◌, sym, false, Option, none, some, List, [], ◌∷◌, map, elem, ◌==◌, arith,
}
use crypto_kernel.BigNum.{Text}
use crypto_kernel.Env.{Env}
use crypto_kernel.OrderedMap.Laws.{lookup-erase, erase-IsSorted, lookup-assign, assign-IsSorted}
use crypto_kernel.OrderedSet.{Distinct}
use crypto_kernel.Outcome.{ok, returned}
use crypto_kernel.Types.{Input}
use crypto_kernel.Types.Stored.{DbOutput}
use crypto_kernel.Chain.{Tables, get_output_or_throw}
use crypto_kernel.Chain.Confirm.{key_entry, spend_input, spend_inputs}
use crypto_kernel.Chain.Confirm.Coins.{
  Coins, Holds, Holds-ext, Holds-update, moved, ok-injective, set, taken,
}

module _ (env : Env) where
  pub spend_input-Holds :
      (inp : Input env) (t t' : Tables env) (u s : Coins env)
      → Holds env u s t
      → spend_input env inp t ≡ ok t'
      → Holds env (set env inp.output_id none u) (set env inp.output_id (u inp.output_id) s) t'
  unfolding spend_input get_output_or_throw
  spend_input-Holds inp t t' u s h e =
      let id = inp.output_id in
      let (out, rest, found) = returned {result = t'} (get_output_or_throw env id t.utxos) _ e in
      let (entry, last, keyed) =
        returned {result = t'} (key_entry env out.output.content id) _ rest in
      let there : u id ≡ some out = ground (arith, h.utxo id, found) in
      Holds-update env (erase-IsSorted id t.utxos h.sorted_utxos)
        (assign-IsSorted id out t.stxos h.sorted_stxos)
        (λ x. ground (arith, lookup-erase x id t.utxos h.sorted_utxos, h.utxo x))
        (λ x. ground (arith, lookup-assign x id out t.stxos, h.stxo x, there)) (ground arith)
        (ground arith)

  pub spend_inputs-Holds :
      (inps : List (Input env)) (t t' : Tables env) (u s : Coins env)
      → Distinct (map (λ i. i.output_id) inps)
      → Holds env u s t
      → spend_inputs env inps t ≡ ok t'
      → Holds env
          (taken env (map (λ i. i.output_id) inps) u)
          (moved env (map (λ i. i.output_id) inps) u s)
          t'
  unfolding spend_inputs
  spend_inputs-Holds [] t t' u s d h e = rw (ok-injective env e) at h
  spend_inputs-Holds (inp ∷ inps) t t' u s d h e =
      let (t1, rest, first) = returned {result = t'} (spend_input env inp t) _ e in
      let one = spend_input-Holds inp t t1 u s h first in
      Holds-ext env t' (λ x. ground arith) (λ x. ground (arith, d.0))
        (spend_inputs-Holds inps t1 t' _ _ d.1 one rest)

  -- What `spend_input` has found: an unspent output whose key, if it has one, is a text.
  abbrev pub Found : Coins env → Input env → Type 0
  Found coins inp =
      (out : DbOutput env) × (entry : Option Text) × (coins inp.output_id ≡ some out)
      × (key_entry env out.output.content inp.output_id ≡ ok entry)

  pub spend_input-Found :
      (inp : Input env) (t t' : Tables env) (u s : Coins env)
      → Holds env u s t
      → spend_input env inp t ≡ ok t'
      → Found u inp
  unfolding spend_input get_output_or_throw
  spend_input-Found inp t t' u s h e =
      let id = inp.output_id in
      let (out, rest, found) = returned {result = t'} (get_output_or_throw env id t.utxos) _ e in
      let (entry, last, keyed) =
        returned {result = t'} (key_entry env out.output.content id) _ rest in
      (out, entry, ground (arith, h.utxo id, found), keyed)

  pub Found-set :
      (id : ℕ) (u u' : Coins env) (inps : List (Input env))
      → elem id (map (λ i. i.output_id) inps) ≡ false
      → ((x : ℕ) → (x == id) ≡ false → u x ≡ u' x)
      → All (Found u) inps
      → All (Found u') inps
  Found-set id u u' [] apart same f = tt
  Found-set id u u' (inp ∷ inps) apart same (f, fs) = (
    (f.0, f.1, sym (same inp.output_id (ground arith)) ∙ f.2, f.3),
    Found-set id u u' inps (ground arith) same fs,
  )

  pub spend_inputs-Found :
      (inps : List (Input env)) (t t' : Tables env) (u s : Coins env)
      → Distinct (map (λ i. i.output_id) inps)
      → Holds env u s t
      → spend_inputs env inps t ≡ ok t'
      → All (Found u) inps
  unfolding spend_inputs
  spend_inputs-Found [] t t' u s d h e = tt
  spend_inputs-Found (inp ∷ inps) t t' u s d h e =
      let (t1, rest, first) = returned {result = t'} (spend_input env inp t) _ e in
      let one = spend_input-Holds inp t t1 u s h first in
      (
        spend_input-Found inp t t1 u s h first,
        Found-set inp.output_id (set env inp.output_id none u) u inps d.0 (λ x ne. ground arith)
            (spend_inputs-Found inps t1 t' _ _ d.1 one rest),
      )
