-- ===== src/Consensus/Pow/Retarget.antt =====
-- `KGW_SHA256` and `KGW_LYRA2REV2` of src/kernel/consensus/PoW.cpp: the target by Kimoto's gravity well,
-- and the two proof-of-work functions. The floating-point numbers that end the scan are a parameter.
pub mod Targets
pub mod Bounds
use crypto_kernel.Prelude.{
  ℕ, zero, suc, ◌+◌, ◌-◌, ◌*◌, ◌%◌, ◌^◌, ◌≡◌, Bool, true, false, not, ◌&&◌, ◌||◌, List, [], ◌∷◌,
  ◌++◌, ltb, leb, ◌==◌, if◌then◌else◌,
}
use crypto_kernel.Prelude.Int.{ℤ, pos, negsuc}
use crypto_kernel.BigNum.{Text}
use crypto_kernel.BigNum.Arithmetic.{
  BnLib, of_hex_string, plus, minus, times, divided_by, is_greater,
}
use crypto_kernel.Chain.{Tables, get_block_db}
use crypto_kernel.Env.{Env}
use crypto_kernel.Hex.{to_hex}
use crypto_kernel.Outcome.{Outcome, ok, out_of_fuel, ◌>>=◌}
use crypto_kernel.Types.Stored.{DbBlock}
use crypto_kernel.Types.Transaction.{u64}
use crypto_kernel.Consensus.Pow.{ConsensusData, get_consensus_data, digits_f}

-- `double` and what the source does with it; `literal 7084 4` is 0.7084.
pub record Doubles : Type 1 where
  pub Double : Type 0
  pub of_int : ℤ → Double
  pub literal : ℕ → ℕ → Double
  pub negate : Double → Double
  pub add : Double → Double → Double
  pub multiply : Double → Double → Double
  pub divide : Double → Double → Double
  pub power : Double → Double → Double
  pub at_most : Double → Double → Bool

-- The `int64_t` of 64 bits, and back
abbrev pub to_int64 : ℕ → ℤ
to_int64 n = if ltb n (2 ^ 63) then pos n else negsuc (u64 - n - 1)

abbrev pub min_blocks : ℕ
min_blocks = 144

abbrev pub max_blocks : ℕ
max_blocks = 4032

module _ (env : Env) (bn : BnLib) (doubles : Doubles) (block_target : ℕ) where
  open doubles use {Double, of_int, literal, negate, add, multiply, divide, power, at_most}

  -- The variables of the scan. `actual_rate` is an `int64_t` that is not negative, and
  -- `target_rate` the 64 bits of one.
  pub record Scan : Type 0 where
    pub current_block : DbBlock env
    pub current_data : ConsensusData env bn
    pub blocks_scanned : ℕ
    pub difficulty_average : ℤ
    pub previous_difficulty_average : ℤ
    pub actual_rate : ℕ
    pub target_rate : ℕ

  pub min_difficulty : ℤ
  min_difficulty = of_hex_string bn (digits_f 59)

  -- The average of the targets up to the `i`th
  pub next_average : ℕ → ℤ → ℤ → ℤ
  next_average i target previous =
      if i == 1
      then target
      else plus bn (divided_by bn (minus bn target previous) (of_hex_string bn (to_hex i))) previous

  -- The difference of the timestamps as an `int64_t`, or 0 if that is negative
  pub elapsed : ℕ → ℕ → ℕ
  elapsed later earlier =
      let bits = (later + u64 - earlier) % u64 in if ltb bits (2 ^ 63) then bits else 0

  -- The first part of the loop's body
  pub measure : ℕ → ℕ → Scan → Scan
  unfolding next_average elapsed
  measure last_solved i s =
      let average = next_average i s.current_data.target s.previous_difficulty_average in
      let scanned = s.blocks_scanned + 1 in
      record s {
        blocks_scanned = scanned;
        difficulty_average = average;
        previous_difficulty_average = average;
        actual_rate = elapsed last_solved s.current_block.timestamp;
        target_rate = block_target * scanned % u64;
      }

  rate_adjustment_ratio : Scan → Double
  rate_adjustment_ratio s =
      if not (s.actual_rate == 0) && not (s.target_rate == 0)
      then divide (of_int (to_int64 s.target_rate)) (of_int (pos s.actual_rate))
      else literal 10 1

  event_horizon_deviation : ℕ → Double
  event_horizon_deviation scanned = add (of_int (pos 1)) (
      multiply (literal 7084 4)
        (power (divide (of_int (pos scanned)) (of_int (pos min_blocks))) (negate (literal 1228 3))))

  -- Whether the rates leave the event horizon, once enough blocks are scanned
  pub leaves_horizon : Scan → Bool
  unfolding rate_adjustment_ratio event_horizon_deviation
  leaves_horizon s =
      let ratio = rate_adjustment_ratio s in
      let fast = event_horizon_deviation s.blocks_scanned in
      let slow = divide (of_int (pos 1)) fast in
      leb min_blocks s.blocks_scanned && (at_most ratio slow || at_most fast ratio)

  -- The loop
  unfoldable pub scan : ℕ → ℕ → ℕ → Tables env → Scan → Outcome Scan
  unfolding measure leaves_horizon
  scan zero last_solved i t s = out_of_fuel
  scan (suc fuel) last_solved i t s =
      let m = measure last_solved i s in
      let rest = get_block_db env t m.current_block.previous_block_id false >>= λ block.
      get_consensus_data env bn block.consensus_data >>= λ block_data.
      scan fuel last_solved (i + 1) t
        (record m { current_block = block; current_data = block_data }) in
      if s.current_block.height == 1 || ltb max_blocks i
      then ok s
      else if leaves_horizon m || m.current_block.height == 1
      then ok m
      else rest

  -- The average, scaled by the rates and capped
  pub new_target : Scan → ℤ
  unfolding min_difficulty
  new_target s =
      let scaled =
        if not (s.actual_rate == 0) && not (s.target_rate == 0)
        then divided_by bn (times bn s.difficulty_average (of_hex_string bn (to_hex s.actual_rate)))
            (of_hex_string bn (to_hex s.target_rate))
        else s.difficulty_average in
      if is_greater bn scaled min_difficulty then min_difficulty else scaled

  -- The scan's first state
  pub start_scan : DbBlock env → ConsensusData env bn → Scan
  start_scan block block_data = record {
    current_block = block;
    current_data = block_data;
    blocks_scanned = 0;
    difficulty_average = of_hex_string bn (b'0' ∷ []);
    previous_difficulty_average = of_hex_string bn (b'0' ∷ []);
    actual_rate = 0;
    target_rate = 0;
  }

  -- `KGW_SHA256::calculateTarget`
  unfoldable pub calculate_target : Tables env → ℕ → Outcome ℤ
  unfolding new_target start_scan min_difficulty
  calculate_target t previous_block_id = get_block_db env t previous_block_id false >>= λ block.
      get_consensus_data env bn block.consensus_data >>= λ block_data.
      if ltb block.height min_blocks
      then ok min_difficulty
      else if not (block.height % 12 == 0)
      then ok block_data.target
      else (scan (max_blocks + 1) block.timestamp 1 t (start_scan block block_data) >>= λ s.
          ok (new_target s))

-- `KGW_SHA256::powFunction`
pub sha256_pow : Env → BnLib → Text → ℤ
sha256_pow env bn input = of_hex_string bn (env.hashing.sha256 input)

-- `base16_encode` of src/kernel/crypto.cpp, of bytes
pub base16_encode : List ℕ → Text
base16_encode [] = []
base16_encode (byte ∷ bytes) =
    (if ltb byte 16 then b'0' ∷ to_hex byte else to_hex byte) ++ base16_encode bytes

-- `KGW_LYRA2REV2::powFunction`; the 32 bytes of `lyra2re2_hash` are an argument.
pub lyra2_pow : (Text → List ℕ) → BnLib → Text → ℤ
unfolding base16_encode
lyra2_pow lyra2re2_hash bn input = of_hex_string bn (base16_encode (lyra2re2_hash input))
