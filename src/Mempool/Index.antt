-- ===== src/Mempool/Index.antt =====
-- The maps of src/kernel/blockchain.cpp's mempool after the loops of `insert` and `remove`.
use mathlib.Core.Bool.{false≢true}
use crypto_kernel.Prelude.{
  ℕ, ◌≡◌, refl, Bool, true, false, none, some, List, [], ◌∷◌, ◌++◌, map, elem, ◌||◌, if◌then◌else◌,
  arith,
}
use crypto_kernel.OrderedMap.{Map, lookup, contains, insert, erase, IsSorted}
use crypto_kernel.OrderedMap.Laws.{
  or_else, lookup-insert, insert-IsSorted, lookup-erase, erase-IsSorted,
}
use crypto_kernel.Env.{Env}
use crypto_kernel.Types.{Input, Output}
use crypto_kernel.Types.Transaction.{Transaction}
use crypto_kernel.Mempool.{
  Mempool, inputs_conflict, outputs_conflict, index_inputs, index_outputs, drop_inputs,
  drop_outputs,
}

pub insert_all : List ℕ → ℕ → Map ℕ → Map ℕ
insert_all [] t m = m
insert_all (x ∷ xs) t m = insert_all xs t (insert x t m)

pub erase_all : List ℕ → Map ℕ → Map ℕ
erase_all [] m = m
erase_all (x ∷ xs) m = erase_all xs (erase x m)

pub insert_all-IsSorted :
    (xs : List ℕ) (t : ℕ) (m : Map ℕ) → IsSorted m → IsSorted (insert_all xs t m)
unfolding insert_all
insert_all-IsSorted [] t m h = h
insert_all-IsSorted (x ∷ xs) t m h =
    insert_all-IsSorted xs t (insert x t m) (insert-IsSorted x t m h)

pub erase_all-IsSorted : (xs : List ℕ) (m : Map ℕ) → IsSorted m → IsSorted (erase_all xs m)
unfolding erase_all
erase_all-IsSorted [] m h = h
erase_all-IsSorted (x ∷ xs) m h = erase_all-IsSorted xs (erase x m) (erase-IsSorted x m h)

pub lookup-insert_all :
    (o : ℕ) (xs : List ℕ) (t : ℕ) (m : Map ℕ)
    → IsSorted m
    → lookup o (insert_all xs t m)
      ≡ (if elem o xs then some (or_else (lookup o m) t) else lookup o m)
unfolding insert_all
lookup-insert_all o [] t m h = refl
lookup-insert_all o (x ∷ xs) t m h = ground (
  arith,
  lookup-insert_all o xs t (insert x t m) (insert-IsSorted x t m h),
  lookup-insert o x t m h,
)

pub lookup-erase_all :
    (o : ℕ) (xs : List ℕ) (m : Map ℕ)
    → IsSorted m
    → lookup o (erase_all xs m) ≡ (if elem o xs then none else lookup o m)
unfolding erase_all
lookup-erase_all o [] m h = refl
lookup-erase_all o (x ∷ xs) m h =
    ground (arith, lookup-erase_all o xs (erase x m) (erase-IsSorted x m h), lookup-erase o x m h)

insert_all-append :
    (xs ys : List ℕ) (t : ℕ) (m : Map ℕ)
    → insert_all (xs ++ ys) t m ≡ insert_all ys t (insert_all xs t m)
unfolding insert_all
insert_all-append [] ys t m = refl
insert_all-append (x ∷ xs) ys t m = insert_all-append xs ys t (insert x t m)

erase_all-append :
    (xs ys : List ℕ) (m : Map ℕ) → erase_all (xs ++ ys) m ≡ erase_all ys (erase_all xs m)
unfolding erase_all
erase_all-append [] ys m = refl
erase_all-append (x ∷ xs) ys m = erase_all-append xs ys (erase x m)

-- Whether one of the identifiers is a key.
abbrev pub any_in : List ℕ → Map ℕ → Bool
any_in [] m = false
any_in (x ∷ xs) m = contains x m || any_in xs m

any_in-append : (xs ys : List ℕ) (m : Map ℕ) → any_in (xs ++ ys) m ≡ (any_in xs m || any_in ys m)
any_in-append [] ys m = refl
any_in-append (x ∷ xs) ys m = ground (arith, any_in-append xs ys m)

pub lookup-any_in :
    (o : ℕ) (xs : List ℕ) (m : Map ℕ) → any_in xs m ≡ false → elem o xs ≡ true → lookup o m ≡ none
lookup-any_in o [] m h e = absurd (false≢true e)
lookup-any_in o (x ∷ xs) m h e = ground (arith, lookup-any_in o xs m)

module _ (env : Env) where
  abbrev pub input_ids : Transaction env → List ℕ
  input_ids tx = map (λ i. i.id) tx.inputs

  -- The outputs that a transaction spends, and those that it makes.
  abbrev pub output_ids : Transaction env → List ℕ
  output_ids tx = map (λ i. i.output_id) tx.inputs ++ map (λ o. o.id) tx.outputs

  index_inputs_lem :
      (inps : List (Input env)) (t : ℕ) (m : Mempool env)
      → index_inputs env inps t m ≡ record m {
        inputs = insert_all (map (λ i. i.id) inps) t m.inputs;
        outputs = insert_all (map (λ i. i.output_id) inps) t m.outputs;
      }
  unfolding index_inputs insert_all
  index_inputs_lem [] t m = refl
  index_inputs_lem (i ∷ inps) t m = index_inputs_lem inps t _

  index_outputs_lem :
      (outs : List (Output env)) (t : ℕ) (m : Mempool env)
      → index_outputs env outs t m
        ≡ record m { outputs = insert_all (map (λ o. o.id) outs) t m.outputs }
  unfolding index_outputs insert_all
  index_outputs_lem [] t m = refl
  index_outputs_lem (o ∷ outs) t m = index_outputs_lem outs t _

  drop_inputs_lem :
      (inps : List (Input env)) (m : Mempool env)
      → drop_inputs env inps m ≡ record m {
        inputs = erase_all (map (λ i. i.id) inps) m.inputs;
        outputs = erase_all (map (λ i. i.output_id) inps) m.outputs;
      }
  unfolding drop_inputs erase_all
  drop_inputs_lem [] m = refl
  drop_inputs_lem (i ∷ inps) m = drop_inputs_lem inps _

  drop_outputs_lem :
      (outs : List (Output env)) (m : Mempool env)
      → drop_outputs env outs m ≡ record m { outputs = erase_all (map (λ o. o.id) outs) m.outputs }
  unfolding drop_outputs erase_all
  drop_outputs_lem [] m = refl
  drop_outputs_lem (o ∷ outs) m = drop_outputs_lem outs _

  inputs_conflict_lem :
      (inps : List (Input env)) (m : Mempool env)
      → inputs_conflict env inps m
        ≡ (any_in (map (λ i. i.id) inps) m.inputs || any_in (map (λ i. i.output_id) inps) m.outputs)
  unfolding inputs_conflict
  inputs_conflict_lem [] m = refl
  inputs_conflict_lem (i ∷ inps) m = ground (arith, inputs_conflict_lem inps m)

  outputs_conflict_lem :
      (outs : List (Output env)) (m : Mempool env)
      → outputs_conflict env outs m ≡ any_in (map (λ o. o.id) outs) m.outputs
  unfolding outputs_conflict
  outputs_conflict_lem [] m = refl
  outputs_conflict_lem (o ∷ outs) m = ground (arith, outputs_conflict_lem outs m)

  -- Both loops of `insert` look for the inputs' own identifiers in one map, and for those of all
  -- touched outputs in the other.
  pub conflicts_lem :
      (tx : Transaction env) (m : Mempool env)
      → (inputs_conflict env tx.inputs m || outputs_conflict env tx.outputs m)
        ≡ (any_in (input_ids tx) m.inputs || any_in (output_ids tx) m.outputs)
  conflicts_lem tx m = ground (
    arith,
    inputs_conflict_lem tx.inputs m,
    outputs_conflict_lem tx.outputs m,
    any_in-append (map (λ i. i.output_id) tx.inputs) (map (λ o. o.id) tx.outputs) m.outputs,
  )

  pub index_lem :
      (tx : Transaction env) (m : Mempool env)
      → index_outputs env tx.outputs tx.id (index_inputs env tx.inputs tx.id m) ≡ record m {
        inputs = insert_all (input_ids tx) tx.id m.inputs;
        outputs = insert_all (output_ids tx) tx.id m.outputs;
      }
  index_lem tx m =
      rw
        (
          index_inputs_lem tx.inputs tx.id m,
          insert_all-append (map (λ i. i.output_id) tx.inputs) (map (λ o. o.id) tx.outputs) tx.id
              m.outputs,
        )
        (index_outputs_lem tx.outputs tx.id _)

  pub drop_lem :
      (tx : Transaction env) (m : Mempool env)
      → drop_outputs env tx.outputs (drop_inputs env tx.inputs m) ≡ record m {
        inputs = erase_all (input_ids tx) m.inputs;
        outputs = erase_all (output_ids tx) m.outputs;
      }
  drop_lem tx m =
      rw
        (
          drop_inputs_lem tx.inputs m,
          erase_all-append (map (λ i. i.output_id) tx.inputs) (map (λ o. o.id) tx.outputs)
              m.outputs,
        )
        (drop_outputs_lem tx.outputs _)
