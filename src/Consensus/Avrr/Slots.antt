-- ===== src/Consensus/Avrr/Slots.antt =====
-- What `checkConsensusRules` of src/kernel/consensus/AVRR.cpp accepts.
use crypto_kernel.Prelude.{
  ℕ, ◌%◌, ◌<◌, ◌≤◌, ◌≡◌, ◌≢◌, ◌∙◌, ap, true, false, not, some, List, arith, Bool-cases, inl, inr,
  Option-cases, if◌then◌else◌, ltb, leb, ◌==◌, ==→eq, length, get_elem?,
}
use crypto_kernel.BigNum.{Text}
use crypto_kernel.BigNum
use crypto_kernel.Env.{Env}
use crypto_kernel.KeyMap.{text_eq, text_eq→eq}
use crypto_kernel.Outcome.{ok, returned}
use crypto_kernel.Types.Block.{Block}
use crypto_kernel.Consensus.Avrr.{
  ConsensusData, get_consensus_data, get_verifier, slot_of, check_verifier, check_consensus_rules,
}

module _ (env : Env) (verifiers : List Text) (block_target : ℕ) where
  open env.signing use {verify}

  -- A block in the slot of its timestamp, signed by the verifier whose turn it is
  pub record IsScheduled (now : ℕ) (block previous : Block env) : Type 0 where
    pub data_of : ConsensusData env
    pub reads : get_consensus_data env block.fields.consensus_data ≡ ok data_of
    pub parent_data : ConsensusData env
    pub parent_reads : get_consensus_data env previous.fields.consensus_data ≡ ok parent_data
    pub later : parent_data.sequence_number < data_of.sequence_number
    pub in_slot :
        slot_of env verifiers block_target block.fields.timestamp ≡ ok data_of.sequence_number
    pub past : block.fields.timestamp ≤ now
    pub has_verifiers : length verifiers ≢ 0
    pub on_turn :
        get_elem? verifiers (data_of.sequence_number % length verifiers) ≡ some data_of.public_key
    pub signed :
        verify data_of.public_key (BigNum.to_string env.hashing block.id) data_of.signature ≡ true

  verifier_of :
      (number : ℕ) (key : Text)
      → get_verifier env verifiers block_target number ≡ ok key
      → (length verifiers ≢ 0) × (get_elem? verifiers (number % length verifiers) ≡ some key)
  unfolding get_verifier
  verifier_of number key e = elim (Bool-cases (length verifiers == 0)) [
    | inl empty ↦ absurd (ground arith)
    | inr some_left ↦ elim (Option-cases (get_elem? verifiers (number % length verifiers))) [
      | inl missing ↦ absurd (ground arith)
      | inr (other, there) ↦ (λ empty. ground arith, ground arith)
    ]
  ]

  checked_verifier :
      (now : ℕ) (block : Block env) (d : ConsensusData env)
      → check_verifier env verifiers block_target now block d ≡ ok true
      → (block.fields.timestamp ≤ now)
        × (get_verifier env verifiers block_target d.sequence_number ≡ ok d.public_key)
        × (verify d.public_key (BigNum.to_string env.hashing block.id) d.signature ≡ true)
  unfolding check_verifier
  checked_verifier now block d e = elim (Bool-cases (ltb now block.fields.timestamp)) [
    | inl future ↦ absurd (ground arith)
    | inr past ↦
        let (key, rest, found) =
          returned {result = true} (get_verifier env verifiers block_target d.sequence_number)
            (λ key.
              if not (text_eq key d.public_key)
              then ok false
              else ok (verify d.public_key (BigNum.to_string env.hashing block.id) d.signature))
            (ground (arith, past)) in
        elim (Bool-cases (text_eq key d.public_key)) [
          | inr foreign ↦ absurd (ground arith)
          | inl same ↦
              (ground arith, found ∙ ap ok (text_eq→eq key d.public_key same), ground arith)
        ]
  ]

  -- A block that `checkConsensusRules` accepts stands in the slot of its timestamp, which is not in the
  -- future, after the slot of its parent. There are verifiers, its key is the one whose turn the slot is
  -- in the round-robin, and its signature of the block's identifier is valid under that key.
  pub check_consensus_rules-IsScheduled :
      (now : ℕ) (block previous : Block env)
      → check_consensus_rules env verifiers block_target now block previous ≡ ok true
      → IsScheduled now block previous
  unfolding check_consensus_rules
  check_consensus_rules-IsScheduled now block previous e =
      let (d, rest, reads) =
        returned {result = true} (get_consensus_data env block.fields.consensus_data) _ e in
      let (p, last, parent_reads) =
        returned {result = true} (get_consensus_data env previous.fields.consensus_data) _ rest in
      elim (Bool-cases (leb d.sequence_number p.sequence_number)) [
        | inl early ↦ absurd (ground arith)
        | inr later ↦
            let (slot, end, slotted) =
              returned {result = true} (slot_of env verifiers block_target block.fields.timestamp)
                (λ slot.
                  if not (slot == d.sequence_number)
                  then ok false
                  else check_verifier env verifiers block_target now block d)
                (ground (arith, later)) in
            elim (Bool-cases (slot == d.sequence_number)) [
              | inr elsewhere ↦ absurd (ground arith)
              | inl here ↦
                  let (past, turn, signed) = checked_verifier now block d (ground arith) in
                  let (some_left, there) = verifier_of d.sequence_number d.public_key turn in
                  record {
                    data_of = d;
                    reads = reads;
                    parent_data = p;
                    parent_reads = parent_reads;
                    later = ground arith;
                    in_slot = slotted ∙ ap ok (==→eq slot d.sequence_number here);
                    past = past;
                    has_verifiers = some_left;
                    on_turn = there;
                    signed = signed;
                  }
            ]
      ]
