-- ===== src/Chain/Aggregate.antt =====
-- The second loop over the inputs in `verifyTransaction` of src/kernel/blockchain.cpp: aggregate
-- signatures over several outputs under Schnorr keys.
use crypto_kernel.Prelude.{
  ℕ, Bool, true, false, not, ◌||◌, Option, none, some, List, [], ◌∷◌, ◌++◌, map, length, ltb, leb,
  get_elem?, if◌then◌else◌,
}
use crypto_kernel.BigNum.{Text}
use crypto_kernel.BigNum
use crypto_kernel.Env.{Env}
use crypto_kernel.OrderedMap.{Map}
use crypto_kernel.OrderedMap
use crypto_kernel.OrderedSet.{IdSet, insert_ids, elements}
use crypto_kernel.Outcome.{Outcome, ok, uncaught, undefined, ◌>>=◌, or_throws}
use crypto_kernel.Types.{Input}
use crypto_kernel.Types.Stored.{DbOutput}
use crypto_kernel.Chain.Spend.{schnorr_key_name, signature_name, has_members}

abbrev pub aggregate_name : Text
aggregate_name =
    b'a' ∷ b'g' ∷ b'g' ∷ b'r' ∷ b'e' ∷ b'g' ∷ b'a' ∷ b't' ∷ b'e' ∷ b'S' ∷ b'i' ∷ b'g' ∷ b'n' ∷ b'a'
    ∷ b't' ∷ b'u' ∷ b'r' ∷ b'e' ∷ []

abbrev pub signs_name : Text
signs_name = b's' ∷ b'i' ∷ b'g' ∷ b'n' ∷ b's' ∷ []

-- `operator<` of `std::string`
text_ltb : Text → Text → Bool
text_ltb s [] = false
text_ltb [] (d ∷ t) = true
text_ltb (c ∷ s) (d ∷ t) =
    let rest = text_ltb s t in if ltb c d then true else if ltb d c then false else rest

-- `emplace` of a `std::set<std::string>`
insert_text : Text → List Text → List Text
unfolding text_ltb
insert_text s [] = s ∷ []
insert_text s (t ∷ ts) =
    let rest = insert_text s ts in
    if text_ltb s t then s ∷ t ∷ ts else if text_ltb t s then t ∷ rest else t ∷ ts

module _ (env : Env) where
  open env use {hashing, json}
  open env.signing use {schnorr_set_public_key, schnorr_verify, pubkey_aggregate}
  open env.json use {Json, member, is_text, is_object, is_array, is_uint, as_text, as_uint, items}

  -- The positions that `signs` lists; `none` where one is no number or too large.
  read_signs : List Json → ℕ → IdSet → Outcome (Option IdSet)
  read_signs [] size signs = ok (some signs)
  read_signs (v ∷ vs) size signs =
      if not (is_uint v)
      then ok none
      else (or_throws (as_uint v) >>= λ n.
          if leb size n then ok none else read_signs vs size (OrderedMap.insert n tt signs))

  -- The outputs at the positions: `std::advance(it, out)`.
  pick : List ℕ → Map (DbOutput env) → Outcome (List (DbOutput env))
  pick [] maybe = ok []
  pick (n ∷ ns) maybe = elim (get_elem? maybe n) [
    | none ↦ undefined
    | some e ↦ pick ns maybe >>= λ outs. ok (e.1 ∷ outs)
  ]

  -- The set of their keys
  keys_of : List (DbOutput env) → List Text → Outcome (List Text)
  unfolding insert_text
  keys_of [] keys = ok keys
  keys_of (out ∷ outs) keys =
      or_throws (as_text (member out.output.content schnorr_key_name)) >>= λ key.
      keys_of outs (insert_text key keys)

  -- What is signed: the outputs' identifiers in order, then the hash of the transaction's outputs.
  payload : List ℕ → ℕ → Text
  payload [] output_hash = BigNum.to_string hashing output_hash
  payload (id ∷ ids) output_hash = BigNum.to_string hashing id ++ payload ids output_hash

  pub erase_outputs : List (DbOutput env) → Map (DbOutput env) → Map (DbOutput env)
  erase_outputs [] maybe = maybe
  erase_outputs (out ∷ outs) maybe = erase_outputs outs (OrderedMap.erase out.output.id maybe)

  -- One aggregate signature: the outputs that stay uncovered, or `none` where the loop returns
  -- `(false, true)`.
  cover : Json → ℕ → Map (DbOutput env) → IdSet → Outcome (Option (Map (DbOutput env)))
  unfolding pick keys_of payload erase_outputs
  cover aggregate output_hash maybe signs = do
    outs ← pick (elements signs) maybe
    keys ← keys_of outs []
    let key = pubkey_aggregate keys
    let ids = elements (insert_ids (map (λ o. o.output.id) outs) [])
    (if not (schnorr_set_public_key key)
        then ok none
        else (or_throws (as_text (member aggregate signature_name)) >>= λ signature. ok (
            if schnorr_verify key (payload ids output_hash) signature
            then some (erase_outputs outs maybe)
            else none)))

  unfoldable pub check_aggregate :
      Input env → ℕ → Map (DbOutput env) → Outcome (Option (Map (DbOutput env)))
  unfolding read_signs cover
  check_aggregate inp output_hash maybe =
      let aggregate = member inp.content aggregate_name in
      if not (has_members env inp)
      then uncaught
      else if is_object aggregate
      then (if not (is_array (member aggregate signs_name))
            || not (is_text (member aggregate signature_name))
          then ok none
          else (read_signs (items (member aggregate signs_name)) (length maybe) [] >>= λ read.
              elim read [ none ↦ ok none | some signs ↦ cover aggregate output_hash maybe signs ]))
      else ok (some maybe)

  -- The loop
  unfoldable pub check_aggregates :
      List (Input env) → ℕ → Map (DbOutput env) → Outcome (Option (Map (DbOutput env)))
  unfolding check_aggregate
  check_aggregates [] output_hash maybe = ok (some maybe)
  check_aggregates (inp ∷ inps) output_hash maybe =
      check_aggregate inp output_hash maybe >>= λ covered. elim covered [
        | none ↦ ok none
        | some rest ↦ check_aggregates inps output_hash rest
      ]
