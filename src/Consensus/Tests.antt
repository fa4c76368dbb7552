-- ===== src/Consensus/Tests.antt =====
-- The consensus methods of src/kernel/consensus on a chain of two blocks, with concrete parameters.
use crypto_kernel.Prelude.{
  ℕ, ◌≤◌, ◌≡◌, ◌*◌, Bool-cases, ◌⊎◌, inl, inr, refl, sym, ap, subst, true, false, some, [], ◌∷◌,
  arith, if◌then◌else◌, ◌==◌,
}
use crypto_kernel.Prelude.Int.{ℤ, pos, ◌+ℤ◌, ◌-ℤ◌, ◌*ℤ◌}
use crypto_kernel.BigNum.{Text}
use crypto_kernel.BigNum.Arithmetic.{of_hex_string, signed_to_string}
use crypto_kernel.BigNum.ReadBack.{sample_bn as bn, sample_bn-IsExact}
use crypto_kernel.Chain.{Tables, Chain, get_block_db}
use crypto_kernel.Chain.Reorganise.{submit_block}
use crypto_kernel.Mempool.{empty_mempool}
use crypto_kernel.OrderedMap.{lookup}
use crypto_kernel.Outcome.{Outcome, ok}
use crypto_kernel.Sample.{sample_env as env, sample_json-HasMembers, nothing}
use crypto_kernel.Types.Block.{Block}
use crypto_kernel.Types.Stored.{DbBlock}
use crypto_kernel.Consensus.Pow.{
  ConsensusData, get_consensus_data, consensus_data_to_json, generate_consensus_data,
}
use crypto_kernel.Consensus.Pow.Form.{get_consensus_data-consensus_data_to_json}
use crypto_kernel.Consensus.Pow.Growth.{Setting, kgw_rules, HasGrown, submit_block-HasGrown}
use crypto_kernel.Consensus.Pow.Miner.{Template, Tick, solved, miner_round}
use crypto_kernel.Consensus.Pow.Miner.Accepted.{IsAccepted, miner_round-IsAccepted}
use crypto_kernel.Consensus.Pow.Miner.Ready.{IsGenerated}
use crypto_kernel.Consensus.Pow.Retarget.{Doubles, calculate_target}
use crypto_kernel.Consensus.Pow.Retarget.Bounds.{calculate_target-IsTarget}
use crypto_kernel.Consensus.Pow.Retarget.Targets.{HasTarget, IsChained, max_target}

-- Whole numbers in place of floating-point ones.
abbrev whole : Doubles
whole = record {
  Double = ℤ;
  of_int = λ z. z;
  literal = λ n k. pos n;
  negate = λ z. pos 0 -ℤ z;
  add = λ a b. a +ℤ b;
  multiply = λ a b. a *ℤ b;
  divide = λ a b. a;
  power = λ a b. a;
  at_most = λ a b. false;
}

abbrev written : ℕ → ℕ → ConsensusData env bn
written work target = record { total_work = pos work; target = pos target; nonce = 3 }

abbrev stored : ℕ → ℕ → ℕ → ℕ → DbBlock env
stored id previous height work = record {
  transactions = [];
  coinbase_tx = 1;
  previous_block_id = previous;
  timestamp = 600 * height;
  consensus_data = consensus_data_to_json env bn (written work 5000);
  content = nothing;
  height = height;
  transaction_merkle_root = 0;
  id = id;
}

abbrev first : DbBlock env
first = stored 70 0 1 0

abbrev tip : DbBlock env
tip = stored 71 70 156 900

abbrev tables : Tables env
tables = record {
  blocks = (70, first) ∷ (71, tip) ∷ [];
  tip = some tip;
  heights = (1, 70) ∷ (156, 71) ∷ [];
  transactions = [];
  utxos = [];
  utxo_keys = [];
  stxos = [];
  stxo_keys = [];
  inputs = [];
  candidates = [];
}

stored_reads :
    (id previous height work : ℕ)
    → get_consensus_data env bn (stored id previous height work).consensus_data
      ≡ ok (written work 5000)
stored_reads id previous height work =
    get_consensus_data-consensus_data_to_json env bn sample_bn-IsExact sample_json-HasMembers
      (written work 5000) work 5000 refl refl

stored-HasTarget : (id previous height work : ℕ) → HasTarget env bn (stored id previous height work)
stored-HasTarget id previous height work = record {
  found = written work 5000;
  reads = stored_reads id previous height work;
  proper = (5000, refl, omega arith);
  counted = (work, refl);
}

either :
    {V : Type 0} (id a b : ℕ) (x y v : V)
    → lookup id ((a, x) ∷ (b, y) ∷ []) ≡ some v
    → (x ≡ v) ⊎ (y ≡ v)
either id a b x y v found = elim (Bool-cases (id == a)) [
  | inl here ↦ inl (ground arith)
  | inr above ↦ inr (ground arith)
]

tables-IsChained : IsChained env bn tables
tables-IsChained = record {
  has_target = λ id block found. elim (either id 70 71 first tip block found) [
    | inl is_first ↦ subst (HasTarget env bn) is_first (stored-HasTarget 70 0 1 0)
    | inr is_tip ↦ subst (HasTarget env bn) is_tip (stored-HasTarget 71 70 156 900)
  ];
  has_parent = λ id block found not_first. elim (either id 70 71 first tip block found) [
    | inl is_first ↦ absurd (not_first (ap (λ b. b.height) (sym is_first)))
    | inr is_tip ↦ (first, ap (λ b. lookup b.previous_block_id tables.blocks) (sym is_tip))
  ];
}

calculate_target-IsTarget_example :
    (target : ℕ) × (calculate_target env bn whole 600 tables 71 ≡ ok (pos target))
    × (target ≤ max_target)
calculate_target-IsTarget_example =
    calculate_target-IsTarget env bn whole 600 sample_bn-IsExact tables tables-IsChained 71 tip refl

abbrev setting : Setting env
setting = record { evaluate_script = λ t tx inp script. some true; block_reward = λ height. 50 }

-- A hash that is below every target
abbrev low : Text → ℤ
low s = pos 7

abbrev chain : Chain env
chain = record { tables = tables; unconfirmed = empty_mempool env; genesis_block_id = 70 }

abbrev arriving : Block env
arriving = record {
  fields = record {
    transactions = [];
    coinbase_tx = record {
      inputs = [];
      outputs = record { value = 50; nonce = 0; content = nothing; id = 21 } ∷ [];
      timestamp = 1;
      bytes = 90;
      id = 41;
    };
    previous_block_id = 71;
    timestamp = 2;
    consensus_data = consensus_data_to_json env bn (written 0 0);
    content = nothing;
    height = 3;
    transaction_merkle_root = 0;
  };
  id = 78;
}

abbrev grown : Chain env
grown = elim (submit_block env (kgw_rules env bn whole 600 low setting) 4 arriving false chain) [
  | ok (c, v) ↦ c
  | _ ↦ chain
]

arriving_accepted :
    submit_block env (kgw_rules env bn whole 600 low setting) 4 arriving false chain
    ≡ ok (grown, (true, false))
unfolding submit_block kgw_rules crypto_kernel.Consensus.Pow.check_consensus_rules
    get_consensus_data crypto_kernel.Json.try_member consensus_data_to_json
    crypto_kernel.KeyMap.text_eq calculate_target crypto_kernel.Chain.get_block_db
    crypto_kernel.Consensus.Pow.Retarget.scan crypto_kernel.BigNum.Arithmetic.is_at_most
    crypto_kernel.BigNum.Arithmetic.is_greater crypto_kernel.BigNum.Arithmetic.of_hex_string
    crypto_kernel.BigNum.Arithmetic.signed_to_string crypto_kernel.BigNum.zeros_to_erase
    crypto_kernel.Hex.to_hex crypto_kernel.BigNum.to_lower crypto_kernel.Hex.of_hex_from
    crypto_kernel.Chain.get_tip crypto_kernel.Chain.Submit.extend_chain
    crypto_kernel.Chain.Verify.verify_transaction crypto_kernel.Types.Transaction.get_output_set_id
    crypto_kernel.Merkle.Build.make_merkle_tree crypto_kernel.OrderedSet.elements
    crypto_kernel.OrderedSet.insert_ids crypto_kernel.OrderedMap.insert
    crypto_kernel.Chain.Aggregate.check_aggregates crypto_kernel.Chain.output_total
    crypto_kernel.Chain.Confirm.confirm_transaction crypto_kernel.Types.Stored.new_db_transaction
    crypto_kernel.Types.Stored.new_db_block crypto_kernel.Json.to_string
    crypto_kernel.Mempool.remove crypto_kernel.OrderedMap.assign
arriving_accepted = refl

submit_block-HasGrown_example :
    HasGrown env bn whole 600 low setting sample_bn-IsExact sample_json-HasMembers 900 grown.tables
    × IsChained env bn grown.tables
submit_block-HasGrown_example =
    submit_block-HasGrown env bn whole 600 low setting sample_bn-IsExact sample_json-HasMembers 4
      arriving tip chain grown false (written 900 5000) 900 tables-IsChained refl refl refl
      (stored_reads 71 70 156 900) refl arriving_accepted

get_consensus_data-consensus_data_to_json_example :
    get_consensus_data env bn (consensus_data_to_json env bn (written 900 5000))
    ≡ ok (written 900 5000)
get_consensus_data-consensus_data_to_json_example =
    get_consensus_data-consensus_data_to_json env bn sample_bn-IsExact sample_json-HasMembers
      (written 900 5000) 900 5000 refl refl

abbrev target_5000 : Tables env → ℕ → Outcome ℤ
target_5000 t id = ok (pos 5000)

-- A hash that depends on the nonce: it serves if the text ends in 2.
abbrev by_nonce : Text → ℤ
by_nonce [] = pos 9000
by_nonce (c ∷ []) = if c == b'2' then pos 7 else pos 9000
by_nonce (c ∷ d ∷ s) = by_nonce (d ∷ s)

abbrev template : Template env bn by_nonce target_5000
template = record {
  block = record arriving {
    fields = record arriving.fields {
      consensus_data = consensus_data_to_json env bn (written 0 5000);
    };
  };
  previous = tip;
}

abbrev tick : ℕ → Tick env bn by_nonce target_5000
tick time = record { time = time; running = true; fresh = template }

template-IsGenerated :
    IsGenerated env bn sample_bn-IsExact sample_json-HasMembers by_nonce target_5000 tables template
unfolding generate_consensus_data get_block_db
template-IsGenerated = record {
  unset_nonce = 3;
  generated = refl;
  parent = refl;
  target = 5000;
  small = omega arith;
  retargets = refl;
  tip = written 900 5000;
  reads = stored_reads 71 70 156 900;
  work = 900;
  counted = refl;
}

-- The first hash is too large, and the second serves.
abbrev mined_block : Block env
mined_block = elim (miner_round env bn by_nonce target_5000 template 0 (tick 1 ∷ tick 2 ∷ [])) [
  | ok (solved block) ↦ block
  | _ ↦ arriving
]

block_is_mined :
    miner_round env bn by_nonce target_5000 template 0 (tick 1 ∷ tick 2 ∷ [])
    ≡ ok (solved mined_block)
unfolding miner_round crypto_kernel.Consensus.Pow.read_text crypto_kernel.Json.try_member
    consensus_data_to_json crypto_kernel.KeyMap.text_eq crypto_kernel.BigNum.Arithmetic.is_at_least
    crypto_kernel.Consensus.Pow.calculate_pow crypto_kernel.BigNum.to_string
    crypto_kernel.Decimal.to_decimal of_hex_string signed_to_string crypto_kernel.Hex.to_hex
    crypto_kernel.Hex.of_hex_from
block_is_mined = refl

miner_round-IsAccepted_example :
    IsAccepted env bn sample_bn-IsExact sample_json-HasMembers by_nonce target_5000 tables
      mined_block
miner_round-IsAccepted_example =
    miner_round-IsAccepted env bn sample_bn-IsExact sample_json-HasMembers by_nonce target_5000
      tables template 0 (tick 1 ∷ tick 2 ∷ []) mined_block template-IsGenerated
      (template-IsGenerated, (template-IsGenerated, tt)) block_is_mined
