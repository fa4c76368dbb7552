-- ===== src/Consensus/Pow/Miner/Ready.antt =====
-- What `PoW::miner` of src/kernel/consensus/PoW.cpp works with: the consensus data of a block that
-- `generateVerifyingBlock` made.
use crypto_kernel.Prelude.{subst, ℕ, ◌≤◌, ◌≡◌, refl, sym, ◌∙◌, false, some, arith}
use crypto_kernel.Prelude.Int.{ℤ, pos}
use crypto_kernel.BigNum.{Text}
use crypto_kernel.BigNum.Arithmetic.{BnLib, IsExact, signed_to_string, plus}
use crypto_kernel.BigNum.ReadBack.{of_hex_string-signed_to_string}
use crypto_kernel.Chain.{Tables, get_block_db}
use crypto_kernel.Env.{Env}
use crypto_kernel.Json.{HasMembers, try_member}
use crypto_kernel.Json.Objects.{
  IsContainer, set_member-IsContainer, try_member-set_same, try_member-set_other,
}
use crypto_kernel.KeyMap.{text_eq}
use crypto_kernel.Outcome.{Outcome, ok, ok-injective}
use crypto_kernel.Consensus.Pow.{
  ConsensusData, get_consensus_data, read_text, target_name, total_work_name, nonce_name, inverse,
  consensus_data_to_json, generate_consensus_data,
}
use crypto_kernel.Consensus.Pow.Retarget.Targets.{max_target}
use crypto_kernel.Consensus.Pow.Form.{written_target, work_read}
use crypto_kernel.Consensus.Pow.Miner.{Template, Job, prepare}

module _ (env : Env) (bn : BnLib) (exact : IsExact bn) (members : HasMembers env.json)
    (pow_function : Text → ℤ) (calculate_target : Tables env → ℕ → Outcome ℤ) (t : Tables env) where
  open env.json use {Json, set_member, of_text, of_uint, as_text}

  -- A block as `generateVerifyingBlock` makes it: its consensus data comes from
  -- `generateConsensusData`, and its parent's work is a number that is not negative.
  pub record IsGenerated (start : Template env bn pow_function calculate_target) : Type 0 where
    pub unset_nonce : ℕ
    pub generated :
        generate_consensus_data env bn pow_function calculate_target t
          start.block.fields.previous_block_id unset_nonce
        ≡ ok start.block.fields.consensus_data
    pub parent : get_block_db env t start.block.fields.previous_block_id false ≡ ok start.previous
    pub target : ℕ
    pub small : target ≤ max_target
    pub retargets : calculate_target t start.block.fields.previous_block_id ≡ ok (pos target)
    pub tip : ConsensusData env bn
    pub reads : get_consensus_data env bn start.previous.consensus_data ≡ ok tip
    pub work : ℕ
    pub counted : tip.total_work ≡ pos work

  -- What the loop works with, for a generated block
  pub record IsReady (job : Job env bn pow_function calculate_target) : Type 0 where
    pub start : Template env bn pow_function calculate_target
    pub from : IsGenerated start
    pub same_block : job.block ≡ start.block
    pub target_is : job.target ≡ pos from.target
    pub container : IsContainer env.json members job.consensus_data
    pub has_target :
        try_member env.json job.consensus_data target_name
        ≡ some (of_text (signed_to_string bn (pos from.target)))
    pub has_work :
        try_member env.json job.consensus_data total_work_name
        ≡ some (
            of_text (
              signed_to_string bn (plus bn (inverse env bn (pos from.target)) from.tip.total_work)))

  read_text-of_text :
      (j : Json) (name s : Text)
      → try_member env.json j name ≡ some (of_text s)
      → read_text env bn j name ≡ some s
  unfolding read_text
  read_text-of_text j name s has = ground (arith, has, members.text_of_text s)

  module _ (start : Template env bn pow_function calculate_target) (from : IsGenerated start) where
    -- The consensus data that the block was generated with
    abbrev first_data : ConsensusData env bn
    first_data = record { total_work = pos 0; target = pos from.target; nonce = from.unset_nonce }

    generated_json : consensus_data_to_json env bn first_data ≡ start.block.fields.consensus_data
    unfolding generate_consensus_data
    generated_json = ground (arith, from.generated, from.retargets)

    abbrev total : ℤ
    total = plus bn (inverse env bn (pos from.target)) from.tip.total_work

    abbrev job_of : Job env bn pow_function calculate_target
    job_of = record {
      block = start.block;
      target = pos from.target;
      consensus_data =
          set_member start.block.fields.consensus_data total_work_name
            (of_text (signed_to_string bn total));
    }

    abbrev HasTargetText : Json → Type 0
    HasTargetText j =
        IsContainer env.json members j
        × (try_member env.json j target_name
            ≡ some (of_text (signed_to_string bn (pos from.target))))

    start_target : HasTargetText start.block.fields.consensus_data
    start_target =
        subst HasTargetText generated_json (written_target env bn exact members first_data)

    prepare-eq : prepare env bn pow_function calculate_target start ≡ ok job_of
    unfolding prepare
    prepare-eq =
        let (w, has_work, w_is) =
          work_read env bn exact members start.previous.consensus_data from.reads in
        rw
          (
            read_text-of_text start.block.fields.consensus_data target_name
                (signed_to_string bn (pos from.target)) start_target.1,
            has_work,
            of_hex_string-signed_to_string bn exact from.target,
            w_is,
          )
          refl

    job_of-IsReady : IsReady job_of
    unfolding text_eq
    job_of-IsReady = record {
      start = start;
      from = from;
      same_block = refl;
      target_is = refl;
      container =
          set_member-IsContainer env.json members start.block.fields.consensus_data _
            total_work_name start_target.0;
      has_target =
          try_member-set_other env.json members start.block.fields.consensus_data _ total_work_name
            target_name start_target.0 refl
          ∙ start_target.1;
      has_work =
          try_member-set_same env.json members start.block.fields.consensus_data _ total_work_name
            start_target.0;
    }

    pub prepare-IsReady :
        (job : Job env bn pow_function calculate_target)
        → prepare env bn pow_function calculate_target start ≡ ok job
        → IsReady job
    prepare-IsReady job e = subst IsReady (ok-injective (sym prepare-eq ∙ e)) job_of-IsReady

  pub nonce-IsReady :
      (job : Job env bn pow_function calculate_target) (nonce : ℕ)
      → IsReady job
      → IsReady
          (record job { consensus_data = set_member job.consensus_data nonce_name (of_uint nonce) })
  unfolding text_eq
  nonce-IsReady job nonce ready = record {
    start = ready.start;
    from = ready.from;
    same_block = ready.same_block;
    target_is = ready.target_is;
    container =
        set_member-IsContainer env.json members job.consensus_data _ nonce_name ready.container;
    has_target =
        try_member-set_other env.json members job.consensus_data _ nonce_name target_name
          ready.container refl
        ∙ ready.has_target;
    has_work =
        try_member-set_other env.json members job.consensus_data _ nonce_name total_work_name
          ready.container refl
        ∙ ready.has_work;
  }
