-- ===== src/Lib.antt =====
-- CryptoKernel: the part of the kernel that keeps a chain of blocks, proof of work, and the wallet.
--
-- The parts, and how they interact. A `Blockchain` (src/kernel/blockchain.cpp) keeps its tables in a
-- `Storage` (src/kernel/storage.cpp) and its unconfirmed transactions in a `Mempool`. Blocks,
-- transactions, inputs and outputs (src/kernel/blockchaintypes.cpp) have identifiers that are hashes;
-- Merkle trees (src/kernel/merkletree.cpp) make one hash of a set of identifiers.
-- `verifyTransaction` decides on a transaction, `confirmTransaction` moves its outputs, `submitBlock`
-- puts a block on the chain or aside, and `reorgChain` and `reverseBlock` change the chain's end.
-- They ask a consensus method for its rules; `Consensus::PoW` (src/kernel/consensus/PoW.cpp) is the
-- main one, with its miner, which submits blocks. The wallet (src/client/wallet.cpp) follows the
-- chain, keeps the outputs and balances of its accounts, and submits transactions.
--
-- The files.
--   Prelude: Boolean tests, and lists over the native numbers. Outcome: how a call ends, with the
--     exceptions as values, with Ends (fuel is not used up). OrderedMap and OrderedSet: `std::map`
--     and `std::set` over identifiers. KeyMap: a map over texts. Decimal: the decimal form of a
--     number.
--   BigNum: src/kernel/math.cpp, `BigNum::toString`, and the hash functions, which are parameters.
--   Json: JsonCpp, which is a parameter, with `Storage::toString` and `Storage::toJson`.
--   Env: hashing, JSON and signatures together. src/kernel/crypto.cpp and src/kernel/schnorr.cpp
--     only call OpenSSL, so signatures are a parameter too.
--   Storage: `Storage::Transaction`, with View (what a transaction reads), Schedule (transactions
--     of several threads as a step relation) and Table (`Storage::Table`).
--   Merkle: `MerkleNode`, with Build (`makeMerkleTree`), Proof (`makeProof`,
--     `makeMerkleTreeFromProof`) and Proof/Form (the JSON of a proof).
--   Types: `output` and `input`, with Transaction, Block and Stored (`dbTransaction`, `dbBlock`).
--   Mempool: `Blockchain::Mempool`, with Reachable (the states that its operations come to).
--   Chain: the tables, the rules that a consensus method adds, fees, and lookups. Spend, Aggregate
--     and Verify are `verifyTransaction`, with Spend/ByKey (a spend by public key), Spend/Malformed
--     and Verify/Hollow (a malformed proof), Verify/Scalar (data that is no object) and
--     Verify/Skipped (what the loop leaves out); Confirm is `confirmTransaction` and its reversal;
--     Submit is `submitTransaction` and the part of `submitBlock` that puts a block on the chain;
--     Build is `getTransaction` and `buildBlock`; Generate is `generateVerifyingBlock`; Reorganise
--     is `reverseBlock`, `reorgChain` and `submitBlock`.
--   Hex, Prelude/Int and BigNum/Arithmetic: hexadecimal texts, integers, and the operators of
--     `BigNum` over OpenSSL's BN, with ReadBack (what is printed is read back).
--   Consensus/Pow: src/kernel/consensus/PoW.cpp: the consensus data and the rules, with Retarget
--     (`calculateTarget`) and Miner (`miner`); Form, Work, Growth, Retarget/Bounds and
--     Miner/Accepted hold the proofs. Consensus/Avrr: src/kernel/consensus/AVRR.cpp, with Slots
--     (what it accepts). Consensus/Regtest: src/kernel/consensus/regtest.cpp.
--   Wallet: src/client/wallet.cpp: `digestTx` and `rewindTx`, with Balance (the balances and the
--     outputs agree), Sync (`digestBlock`, `rewindBlock`, `clearDB`, `watchFunc`, with Terminates
--     on its fuel), Spend (`sendToAddress`, `newAccount`, `checkPassword`) and Keys
--     (`importPrivKey`, `signMessage`, `signTransaction`).
--   Example and Sample: concrete parameters for the tests, which stand in the files named Tests.
--
-- What stands for what. A `uint64_t` or `unsigned int` is a number with its wrap-around written out.
-- A `BigNum` is a number, since hashes are never negative. A set of transactions, inputs or outputs is
-- a list in increasing order of the identifiers. A table is a map to what the stored JSON reads back
-- as. An `InvalidElementException`, a `NotFoundException`, a `Json::Exception` or other exception that
-- nothing catches, and undefined behaviour are each a result of their own. Log messages are left out.
-- A callback of the consensus method reads the tables and does not change them, but for the consensus
-- data that `checkConsensusRules` writes into the block. Floating-point numbers of `calculateTarget` are
-- a parameter without laws. `BnLib`, `Cipher`, `Signer` and `Doubles` stand for OpenSSL's numbers, its
-- cipher, its keys, and the machine's numbers; `IsExact` says that BN calculates and prints exactly, and
-- `HasMembers` that JsonCpp's objects hold what was set. What the program draws at random, the time and
-- the miner's flag are arguments.
--
-- Loops with fuel. The levels of a Merkle tree take as many rounds as there are leaves, of which each
-- level leaves half. The digits of a number take as many rounds as its value. `reorgChain` and the calls
-- of `submitBlock` in it take fuel that the caller gives. The loop of `calculateTarget` takes 4033
-- rounds, one more than `maxBlocks`. The miner takes as many rounds as its list of ticks is long. The
-- loops of `watchFunc` take as many rounds as the wallet is behind, and one more than it is high.
--
-- Not modelled: LevelDB, OpenSSL, JsonCpp, the hash functions of src/kernel/consensus/Lyra2REv2 and Lua,
-- which are parameters or copies of other projects; the network, the handshake, the RPC server and the
-- client's start, which are input and output for the most part; the iterators of a table; the
-- construction of blocks, transactions, inputs and outputs from JSON; and the wallet's upgrade of old
-- files, its lists for the user interface and its JSON.
pub mod Prelude
pub mod OrderedMap
pub mod BigNum
pub mod Merkle
pub mod KeyMap
pub mod Json
pub mod Storage
pub mod Decimal
pub mod Outcome
pub mod OrderedSet
pub mod Env
pub mod Types
pub mod Mempool
mod Example
pub mod Chain
mod Sample
pub mod Hex
pub mod Consensus
pub mod Wallet
