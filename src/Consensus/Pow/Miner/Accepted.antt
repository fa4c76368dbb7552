-- ===== src/Consensus/Pow/Miner/Accepted.antt =====
-- What `PoW::miner` submits, `PoW::checkConsensusRules` accepts (src/kernel/consensus/PoW.cpp).
use crypto_kernel.Prelude.{
  ◌-◌, ◌⊎◌, subst, ℕ, ◌+◌, ◌%◌, ◌≡◌, refl, sym, ◌∙◌, ap, Bool, true, false, ◌&&◌, some, List, [],
  ◌∷◌, All, arith, if◌then◌else◌, inl, inr,
}
use crypto_kernel.Prelude.Int.{ℤ, pos, ltb_ℤ}
use crypto_kernel.BigNum.{Text}
use crypto_kernel.BigNum.Arithmetic.{
  BnLib, IsExact, of_hex_string, signed_to_string, plus, is_at_least, is_at_least-ltb,
}
use crypto_kernel.Chain.{Tables, get_block_db}
use crypto_kernel.Env.{Env}
use crypto_kernel.Json.{HasMembers}
use crypto_kernel.Json.Objects.{try_member-set_same, try_member-set_other}
use crypto_kernel.KeyMap.{text_eq}
use crypto_kernel.Outcome.{Outcome, ok, returned, ok-injective}
use crypto_kernel.Types.Block.{Block}
use crypto_kernel.Types.Stored.{DbBlock}
use crypto_kernel.Types.Transaction.{u64}
use crypto_kernel.Consensus.Pow.{
  ConsensusData, get_consensus_data, target_name, total_work_name, nonce_name, inverse,
  set_consensus_data, calculate_pow, consensus_data_to_json, check_consensus_rules, check_work,
  false_if_invalid,
}
use crypto_kernel.Consensus.Pow.Form.{
  read_members, read_signed, get_consensus_data-consensus_data_to_json,
}
use crypto_kernel.Consensus.Pow.Work.{total_work_value, max_hash, mined, check_work-eq}
use crypto_kernel.Consensus.Pow.Miner.{
  Template, Tick, Job, prepare, Round, solved, sealed, mine, miner_round, is_stale, stopped,
}
use crypto_kernel.Consensus.Pow.Miner.Ready.{IsGenerated, IsReady, prepare-IsReady, nonce-IsReady}

module _ (env : Env) (bn : BnLib) (exact : IsExact bn) (members : HasMembers env.json)
    (pow_function : Text → ℤ) (calculate_target : Tables env → ℕ → Outcome ℤ) (t : Tables env) where
  open env.json use {Json, set_member, of_text, of_uint, as_text}

  -- What a block that was found has: a job that was ready, and a nonce that serves.
  record IsSealed (block : Block env) : Type 0 where
    job : Job env bn pow_function calculate_target
    ready : IsReady env bn exact members pow_function calculate_target t job
    nonce : ℕ
    is_block : block ≡ sealed env bn pow_function calculate_target job nonce
    below :
        ltb_ℤ (calculate_pow env bn pow_function calculate_target job.block nonce) job.target ≡ true

  current-IsReady :
      (stale : Bool) (fresh : Template env bn pow_function calculate_target)
      (job current : Job env bn pow_function calculate_target)
      → IsReady env bn exact members pow_function calculate_target t job
      → IsGenerated env bn exact members pow_function calculate_target t fresh
      → (if stale then prepare env bn pow_function calculate_target fresh else ok job) ≡ ok current
      → IsReady env bn exact members pow_function calculate_target t current
  current-IsReady true fresh job current ready from e =
      prepare-IsReady env bn exact members pow_function calculate_target t fresh from current e
  current-IsReady false fresh job current ready from e =
      subst (IsReady env bn exact members pow_function calculate_target t) (ok-injective e) ready

  abbrev Answer : Type 0
  Answer = Outcome (Round env bn pow_function calculate_target)

  -- How a turn of the loop ends with a block: a later turn found it, or this one's hash is below the
  -- target.
  turn :
      (at_least running : Bool) (rest : Answer) (here block : Block env)
      → (if at_least && running then rest else ok (if running then solved here else stopped))
        ≡ ok (solved block)
      → (rest ≡ ok (solved block)) ⊎ ((at_least ≡ false) × (here ≡ block))
  turn true true rest here block e = inl e
  turn true false rest here block e = absurd (ground arith)
  turn false true rest here block e = inr (refl, ground arith)
  turn false false rest here block e = absurd (ground arith)

  mine-IsSealed :
      (ticks : List (Tick env bn pow_function calculate_target)) (now nonce : ℕ)
      (job : Job env bn pow_function calculate_target) (block : Block env)
      → IsReady env bn exact members pow_function calculate_target t job
      → All
          (λ tick. IsGenerated env bn exact members pow_function calculate_target t tick.fresh)
          ticks
      → mine env bn pow_function calculate_target ticks now nonce job ≡ ok (solved block)
      → IsSealed block
  unfolding mine
  mine-IsSealed [] now nonce job block ready fresh e = absurd (ground arith)
  mine-IsSealed (tick ∷ ticks) now nonce job block ready (first, fresh) e =
      let stale = is_stale env bn pow_function calculate_target tick.time now in
      let next = (nonce + 1) % u64 in
      let (current, after, is_current) =
        returned {result = solved block}
          (if stale then prepare env bn pow_function calculate_target tick.fresh else ok job) _ e in
      let current_ready = current-IsReady stale tick.fresh job current ready first is_current in
      let pow = calculate_pow env bn pow_function calculate_target current.block next in
      elim (turn (is_at_least bn pow current.target) tick.running
        (mine env bn pow_function calculate_target ticks (if stale then tick.time else now) next
          current)
        (sealed env bn pow_function calculate_target current next) block after) [
          | inl later ↦
              mine-IsSealed ticks (if stale then tick.time else now) next current block
                current_ready fresh later
          | inr (less, here) ↦ record {
            job = current;
            ready = current_ready;
            nonce = next;
            is_block = sym here;
            below = ground (arith, is_at_least-ltb bn exact pow current.target);
          }
        ]

  miner_round-IsSealed :
      (start : Template env bn pow_function calculate_target) (now : ℕ)
      (ticks : List (Tick env bn pow_function calculate_target)) (block : Block env)
      → IsGenerated env bn exact members pow_function calculate_target t start
      → All
          (λ tick. IsGenerated env bn exact members pow_function calculate_target t tick.fresh)
          ticks
      → miner_round env bn pow_function calculate_target start now ticks ≡ ok (solved block)
      → IsSealed block
  unfolding miner_round
  miner_round-IsSealed start now ticks block from fresh e =
      let (job, mines, prepared) =
        returned {result = solved block} (prepare env bn pow_function calculate_target start) _ e in
      mine-IsSealed ticks now 0
        (record job { consensus_data = set_member job.consensus_data nonce_name (of_uint 0) }) block
        (nonce-IsReady env bn exact members pow_function calculate_target t job 0 (
          prepare-IsReady env bn exact members pow_function calculate_target t start from job
            prepared))
        fresh mines

  -- The checker on the block that was found
  pub record IsAccepted (block : Block env) : Type 0 where
    pub previous : DbBlock env
    pub is_parent : get_block_db env t block.fields.previous_block_id false ≡ ok previous
    pub checked : Block env
    pub accepts :
        check_consensus_rules env bn pow_function calculate_target t block previous
        ≡ ok (some checked)
    pub same_data :
        get_consensus_data env bn checked.fields.consensus_data
        ≡ get_consensus_data env bn block.fields.consensus_data

  -- What a ready job is worth
  abbrev data_of :
      (job : Job env bn pow_function calculate_target)
      → IsReady env bn exact members pow_function calculate_target t job
      → ℕ
      → ConsensusData env bn
  data_of job ready nonce = record {
    total_work = plus bn (inverse env bn (pos ready.from.target)) ready.from.tip.total_work;
    target = pos ready.from.target;
    nonce = nonce;
  }

  total_is :
      (job : Job env bn pow_function calculate_target)
      (ready : IsReady env bn exact members pow_function calculate_target t job)
      → plus bn (inverse env bn (pos ready.from.target)) ready.from.tip.total_work
        ≡ pos (ready.from.work + (max_hash - ready.from.target))
  total_is job ready =
      rw (ready.from.counted)
        (total_work_value env bn exact members ready.from.target ready.from.work ready.from.small)

  -- What the miner wrote into a block, as it is read
  sealed_data :
      (job : Job env bn pow_function calculate_target)
      (ready : IsReady env bn exact members pow_function calculate_target t job) (nonce : ℕ)
      → get_consensus_data env bn (set_member job.consensus_data nonce_name (of_uint nonce))
        ≡ ok (data_of job ready nonce)
  unfolding text_eq
  sealed_data job ready nonce =
      let d = data_of job ready nonce in
      let n = of_uint nonce in
      let other = try_member-set_other env.json members job.consensus_data n nonce_name in
      let read =
        read_members env bn exact members (set_member job.consensus_data nonce_name n)
          (of_text (signed_to_string bn d.target)) (of_text (signed_to_string bn d.total_work)) n _
          _ nonce (other target_name ready.container refl ∙ ready.has_target)
          (other total_work_name ready.container refl ∙ ready.has_work)
          (try_member-set_same env.json members job.consensus_data n nonce_name ready.container)
          (members.text_of_text _) (members.text_of_text _) (members.uint_of_uint nonce) in
      let worth = ready.from.work + (max_hash - ready.from.target) in
      let same_data : record {
        total_work = of_hex_string bn (signed_to_string bn d.total_work);
        target = of_hex_string bn (signed_to_string bn d.target);
        nonce = nonce;
      }
          ≡ d =
        λ i. record {
          total_work = read_signed env bn exact members d.total_work worth (total_is job ready) i;
          target = read_signed env bn exact members d.target ready.from.target refl i;
          nonce = nonce;
        } in
      read ∙ ap ok same_data

  -- The checker on what the miner seals
  sealed-IsAccepted :
      (job : Job env bn pow_function calculate_target)
      (ready : IsReady env bn exact members pow_function calculate_target t job) (nonce : ℕ)
      → ltb_ℤ (calculate_pow env bn pow_function calculate_target job.block nonce) job.target ≡ true
      → IsAccepted (sealed env bn pow_function calculate_target job nonce)
  unfolding sealed check_consensus_rules set_consensus_data calculate_pow
  sealed-IsAccepted job ready nonce below =
      let block = sealed env bn pow_function calculate_target job nonce in
      let from = ready.from in
      let d = data_of job ready nonce in
      let parent_id = ap (λ b. b.fields.previous_block_id) ready.same_block in
      let judged =
        check_work-eq env bn exact members pow_function calculate_target t block
          ready.start.previous d from.tip from.target (sealed_data job ready nonce) from.reads
          (ap (calculate_target t) parent_id ∙ from.retargets) in
      let is_mined : mined env bn exact members pow_function calculate_target block d from.target
          ≡ true =
        ap (ltb_ℤ (calculate_pow env bn pow_function calculate_target job.block nonce))
          (sym ready.target_is)
        ∙ below in
      let answered : check_work env bn pow_function calculate_target t block ready.start.previous
          ≡ ok (some (set_consensus_data env bn block (consensus_data_to_json env bn d))) =
        judged ∙ rw is_mined refl in
      record {
        previous = ready.start.previous;
        is_parent = ap (λ i. get_block_db env t i false) parent_id ∙ from.parent;
        checked = set_consensus_data env bn block (consensus_data_to_json env bn d);
        accepts = ap (false_if_invalid env bn) answered;
        same_data =
            get_consensus_data-consensus_data_to_json env bn exact members d
              (from.work + (max_hash - from.target)) from.target (total_is job ready) refl
            ∙ sym (sealed_data job ready nonce);
      }

  -- A block that the miner finds passes `checkConsensusRules` on the chain on which it was generated:
  -- with the stored block that it names as its parent the answer is yes, and the consensus data that
  -- the check writes into it reads as what the miner wrote. It is assumed that the consensus data of
  -- the blocks that the miner is given, the first and the fresh ones, comes from
  -- `generateConsensusData`, with a target that is not negative and at most 59 digits "f".
  pub miner_round-IsAccepted :
      (start : Template env bn pow_function calculate_target) (now : ℕ)
      (ticks : List (Tick env bn pow_function calculate_target)) (block : Block env)
      → IsGenerated env bn exact members pow_function calculate_target t start
      → All
          (λ tick. IsGenerated env bn exact members pow_function calculate_target t tick.fresh)
          ticks
      → miner_round env bn pow_function calculate_target start now ticks ≡ ok (solved block)
      → IsAccepted block
  miner_round-IsAccepted start now ticks block from fresh e =
      let s = miner_round-IsSealed start now ticks block from fresh e in
      subst IsAccepted (sym s.is_block) (sealed-IsAccepted s.job s.ready s.nonce s.below)
