-- ===== src/Consensus/Pow/Work.antt =====
-- What a block that `checkConsensusRules` of src/kernel/consensus/PoW.cpp accepts carries.
use crypto_kernel.Prelude.{
  ℕ, ◌+◌, ◌-◌, ◌^◌, ◌≤◌, ◌≡◌, refl, sym, ◌∙◌, ap, Bool, true, not, Option, none, some,
  if◌then◌else◌, arith, Bool-cases, inl, inr,
}
use crypto_kernel.Prelude.Int.{ℤ, pos, ◌<ℤ◌, ltb_ℤ, sub_pos, add_pos}
use crypto_kernel.BigNum.{Text}
use crypto_kernel.BigNum.Arithmetic.{
  BnLib, IsExact, of_hex_string, plus, is_at_most-ltb, plus-add, minus-sub,
}
use crypto_kernel.Chain.{Tables}
use crypto_kernel.Env.{Env}
use crypto_kernel.Hex.{of_hex_from}
use crypto_kernel.Json.{HasMembers}
use crypto_kernel.Outcome.{
  Outcome, ok, invalid, not_found, uncaught, undefined, out_of_fuel, returned,
}
use crypto_kernel.Types.Block.{Block}
use crypto_kernel.Types.Stored.{DbBlock}
use crypto_kernel.Consensus.Pow.{
  ConsensusData, get_consensus_data, consensus_data_to_json, set_consensus_data, inverse, digits_f,
  calculate_pow, check_work, check_consensus_rules, false_if_invalid,
}
use crypto_kernel.Consensus.Pow.Retarget.Targets.{digits_f-IsHexDigit, max_target}
use crypto_kernel.Consensus.Pow.Form.{get_consensus_data-consensus_data_to_json}

-- The largest hash: 64 digits "f"
abbrev pub max_hash : ℕ
max_hash = 2 ^ 256 - 1

max_hash_value : of_hex_from 0 (digits_f 64) ≡ max_hash
unfolding of_hex_from
max_hash_value = refl

module _ (env : Env) (bn : BnLib) (exact : IsExact bn) (members : HasMembers env.json) where
  inverse_value :
      (target : ℕ) → target ≤ max_target → inverse env bn (pos target) ≡ pos (max_hash - target)
  unfolding inverse of_hex_string
  inverse_value target small =
      rw
        (
          exact.reads_digits b'f' (digits_f 63) (digits_f-IsHexDigit 64) ∙ ap pos max_hash_value,
          minus-sub bn exact (pos max_hash) (pos target),
        )
        (sub_pos max_hash target (omega arith))

  pub total_work_value :
      (target work : ℕ)
      → target ≤ max_target
      → plus bn (inverse env bn (pos target)) (pos work) ≡ pos (work + (max_hash - target))
  total_work_value target work small =
      rw (inverse_value target small, plus-add bn exact (pos (max_hash - target)) (pos work))
        (add_pos (max_hash - target) work ∙ ap pos (omega arith))

  module _ (pow_function : Text → ℤ) (calculate_target : Tables env → ℕ → Outcome ℤ) where
    -- What an accepted block carries: the target that was calculated, the parent's work with the
    -- block's added, and a nonce whose hash is below the target. Nothing else is changed.
    pub record Carries (block checked : Block env) (target work : ℕ) : Type 0 where
      pub found : ConsensusData env bn
      pub reads : get_consensus_data env bn checked.fields.consensus_data ≡ ok found
      pub target_is : found.target ≡ pos target
      pub work_is : found.total_work ≡ pos (work + (max_hash - target))
      pub hash_below :
          calculate_pow env bn pow_function calculate_target block found.nonce <ℤ pos target
      pub rest_kept : checked ≡ set_consensus_data env bn block checked.fields.consensus_data

    pub false_if_invalid-some :
        (call : Outcome (Option (Block env))) {checked : Block env}
        → false_if_invalid env bn call ≡ ok (some checked)
        → call ≡ ok (some checked)
    false_if_invalid-some (ok answer) h = h
    false_if_invalid-some (invalid message) h = absurd (ground arith)
    false_if_invalid-some not_found h = absurd (ground arith)
    false_if_invalid-some uncaught h = absurd (ground arith)
    false_if_invalid-some undefined h = absurd (ground arith)
    false_if_invalid-some out_of_fuel h = absurd (ground arith)

    -- The consensus data that an accepted block is given
    abbrev pub given : ConsensusData env bn → ConsensusData env bn → ℕ → ConsensusData env bn
    given own tip target = record {
      total_work = plus bn (inverse env bn (pos target)) tip.total_work;
      target = pos target;
      nonce = own.nonce;
    }

    abbrev pub mined : Block env → ConsensusData env bn → ℕ → Bool
    mined block own target =
        ltb_ℤ (calculate_pow env bn pow_function calculate_target block own.nonce) (pos target)

    pub check_work-eq :
        (t : Tables env) (block : Block env) (previous : DbBlock env)
        (own tip : ConsensusData env bn) (target : ℕ)
        → get_consensus_data env bn block.fields.consensus_data ≡ ok own
        → get_consensus_data env bn previous.consensus_data ≡ ok tip
        → calculate_target t block.fields.previous_block_id ≡ ok (pos target)
        → check_work env bn pow_function calculate_target t block previous ≡ (
            if not (mined block own target)
            then ok none
            else ok (
                some (
                  set_consensus_data env bn block
                    (consensus_data_to_json env bn (given own tip target)))))
    unfolding check_work
    check_work-eq t block previous own tip target has_own has_tip retargets =
        rw
          (
            has_own,
            retargets,
            has_tip,
            is_at_most-ltb bn exact (pos target)
                (calculate_pow env bn pow_function calculate_target block own.nonce),
          )
          refl

    pub check_consensus_rules-Carries :
        (t : Tables env) (block checked : Block env) (previous : DbBlock env)
        (tip : ConsensusData env bn) (target work : ℕ)
        → get_consensus_data env bn previous.consensus_data ≡ ok tip
        → tip.total_work ≡ pos work
        → calculate_target t block.fields.previous_block_id ≡ ok (pos target)
        → target ≤ max_target
        → check_consensus_rules env bn pow_function calculate_target t block previous
          ≡ ok (some checked)
        → Carries block checked target work
    unfolding check_consensus_rules check_work set_consensus_data
    check_consensus_rules-Carries t block checked previous tip target work has_tip counted retargets
          small accepted =
        let call = check_work env bn pow_function calculate_target t block previous in
        let answered = false_if_invalid-some call accepted in
        let (own, rest, reads) =
          returned (get_consensus_data env bn block.fields.consensus_data) _ answered in
        let verdict =
          sym (check_work-eq t block previous own tip target reads has_tip retargets) ∙ answered in
        let below : mined block own target ≡ true = elim (Bool-cases (mined block own target)) [
          | inl yes_mined ↦ yes_mined
          | inr not_mined ↦ absurd (ground arith)
        ] in
        let granted = given own tip target in
        let is_checked : set_consensus_data env bn block (consensus_data_to_json env bn granted)
            ≡ checked =
          ground arith in
        let worth : granted.total_work ≡ pos (work + (max_hash - target)) =
          rw counted (total_work_value target work small) in
        rw (sym is_checked) (record {
          found = granted;
          reads =
              get_consensus_data-consensus_data_to_json env bn exact members granted
                (work + (max_hash - target)) target worth refl;
          target_is = refl;
          work_is = worth;
          hash_below = ground arith;
          rest_kept = refl;
        })
