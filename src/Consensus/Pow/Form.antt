-- ===== src/Consensus/Pow/Form.antt =====
-- The consensus data of src/kernel/consensus/PoW.cpp, written to JSON and read back.
use crypto_kernel.Prelude.{Option-cases, ℕ, ◌≡◌, refl, ◌∙◌, ap, some, arith, inl, inr}
use crypto_kernel.Prelude.Int.{ℤ, pos}
use crypto_kernel.BigNum.{Text}
use crypto_kernel.BigNum.Arithmetic.{BnLib, IsExact, of_hex_string, signed_to_string}
use crypto_kernel.BigNum.ReadBack.{of_hex_string-signed_to_string}
use crypto_kernel.Env.{Env}
use crypto_kernel.Json.{HasMembers, try_member}
use crypto_kernel.Json.Objects.{
  IsContainer, null-IsContainer, set_member-IsContainer, try_member-set_same, try_member-set_other,
}
use crypto_kernel.KeyMap.{text_eq}
use crypto_kernel.Outcome.{ok}
use crypto_kernel.Consensus.Pow.{
  ConsensusData, get_consensus_data, consensus_data_to_json, target_name, total_work_name,
  nonce_name, read_text, read_uint,
}

module _ (env : Env) (bn : BnLib) (exact : IsExact bn) (members : HasMembers env.json) where
  open env.json use {
    Json, null, is_null, is_object, member, set_member, of_uint, of_text, as_text, as_uint,
  }

  -- What `getConsensusData` makes of three members.
  pub read_members :
      (j target work nonce : Json) (t w : Text) (n : ℕ)
      → try_member env.json j target_name ≡ some target
      → try_member env.json j total_work_name ≡ some work
      → try_member env.json j nonce_name ≡ some nonce
      → as_text target ≡ some t
      → as_text work ≡ some w
      → as_uint nonce ≡ some n
      → get_consensus_data env bn j
        ≡ ok (record { total_work = of_hex_string bn w; target = of_hex_string bn t; nonce = n })
  unfolding get_consensus_data read_text read_uint
  read_members j target work nonce t w n has_target has_work has_nonce is_t is_w is_n = ground arith

  -- The JSON of consensus data is an object with the target.
  pub written_target :
      (d : ConsensusData env bn)
      → IsContainer env.json members (consensus_data_to_json env bn d)
        × (try_member env.json (consensus_data_to_json env bn d) target_name
            ≡ some (of_text (signed_to_string bn d.target)))
  unfolding consensus_data_to_json text_eq
  written_target d =
      let t = of_text (signed_to_string bn d.target) in
      let w = of_text (signed_to_string bn d.total_work) in
      let n = of_uint d.nonce in
      let j0 = set_member null target_name t in
      let j1 = set_member j0 total_work_name w in
      let c0 = null-IsContainer env.json members in
      let c1 = set_member-IsContainer env.json members null t target_name c0 in
      let c2 = set_member-IsContainer env.json members j0 w total_work_name c1 in
      let other = try_member-set_other env.json members in
      (
        set_member-IsContainer env.json members j1 n nonce_name c2,
        other j1 n nonce_name target_name c2 refl
            ∙ (other j0 w total_work_name target_name c1 refl
                ∙ try_member-set_same env.json members null t target_name c0),
      )

  -- The total work that `getConsensusData` found
  pub work_read :
      (j : Json) {d : ConsensusData env bn}
      → get_consensus_data env bn j ≡ ok d
      → (s : Text) × (read_text env bn j total_work_name ≡ some s)
        × (of_hex_string bn s ≡ d.total_work)
  unfolding get_consensus_data
  work_read j e = elim (Option-cases (read_text env bn j total_work_name)) [
    | inl absent ↦ absurd (ground arith)
    | inr (s, present) ↦ (s, present, ground arith)
  ]

  pub read_signed : (z : ℤ) (n : ℕ) → z ≡ pos n → of_hex_string bn (signed_to_string bn z) ≡ z
  read_signed z n is_n = rw is_n (of_hex_string-signed_to_string bn exact n)

  -- Consensus data whose numbers are not negative is read back from its JSON.
  pub get_consensus_data-consensus_data_to_json :
      (d : ConsensusData env bn) (work target : ℕ)
      → d.total_work ≡ pos work
      → d.target ≡ pos target
      → get_consensus_data env bn (consensus_data_to_json env bn d) ≡ ok d
  unfolding consensus_data_to_json text_eq
  get_consensus_data-consensus_data_to_json d work target is_work is_target =
      let t = of_text (signed_to_string bn d.target) in
      let w = of_text (signed_to_string bn d.total_work) in
      let n = of_uint d.nonce in
      let j0 = set_member null target_name t in
      let j1 = set_member j0 total_work_name w in
      let c0 = null-IsContainer env.json members in
      let c1 = set_member-IsContainer env.json members null t target_name c0 in
      let c2 = set_member-IsContainer env.json members j0 w total_work_name c1 in
      let other = try_member-set_other env.json members in
      let same = try_member-set_same env.json members in
      let read =
        read_members (consensus_data_to_json env bn d) t w n _ _ d.nonce
          (other j1 n nonce_name target_name c2 refl
            ∙ (other j0 w total_work_name target_name c1 refl ∙ same null t target_name c0))
          (other j1 n nonce_name total_work_name c2 refl ∙ same j0 w total_work_name c1)
          (same j1 n nonce_name c2) (members.text_of_text _) (members.text_of_text _)
          (members.uint_of_uint d.nonce) in
      let written : ConsensusData env bn = record {
        total_work = of_hex_string bn (signed_to_string bn d.total_work);
        target = of_hex_string bn (signed_to_string bn d.target);
        nonce = d.nonce;
      } in
      let same_data : written ≡ d = λ i. record {
        total_work = read_signed d.total_work work is_work i;
        target = read_signed d.target target is_target i;
        nonce = d.nonce;
      } in
      read ∙ ap ok same_data
