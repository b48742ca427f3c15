-- ===== src/Lib.antt =====
-- The core of the node: how a transaction is checked, carried out and stored, and how money comes
-- into being. A transaction enters at one place, `TransactionProcessor::process`
-- (src/transaction_processor.rs). It is validated against the graph and the ledger
-- (src/validation.rs), moves the money and takes the nonce in the ledger (src/ledger.rs), is put
-- into the graph (src/parent_selection.rs), raises the height and queues a block reward in the
-- consensus state (src/consensus.rs), is put into the mempool (src/rpc.rs), and the ledger is
-- saved. Around it stand the calls that submit a transaction and keep it while its parents are
-- missing, and the faucet, which submits one of its own (src/rpc.rs), the choice of the parents
-- that a new transaction names (src/parent_selection.rs), the database (src/storage.rs), the
-- stakes, which move money past the processor (src/rpc.rs, src/storage.rs), and the start of a
-- node, which rebuilds the graph and the ledger from what was stored (src/node.rs).
--
-- Which file models what:
--   Prelude     shared names, Boolean tests, 64-bit words, lists, `Result`
--   Dict        `HashMap` and `HashSet`, as association lists
--   Reward      `calculate_reward` and the supply constants of src/ledger.rs and src/genesis.rs;
--               Bounds one reward, Issuance all of them
--   Consensus   `ConsensusState` of src/consensus.rs; Queue the queue of block rewards
--   Ledger      `Ledger` of src/ledger.rs; Sums the invariant, Transfer `transfer_internal`, Nonces
--               the account nonces, Rewards `apply_block_reward` and `rollback_block_reward`, Restart
--               `save` and `new_with_storage`
--   Transaction `Transaction` of src/transaction.rs and `Wallet::verify_transaction` of
--               src/wallet.rs; Work the proof of work, Decode and Decode/RoundTrip `deserialize`, with
--               Decode/Bytes on bytes and positions
--   Dag         `DAG` of src/parent_selection.rs; Shape its invariant, Add and Remove its operations,
--               Walk the search over parents, Acyclic that there is no cycle, Parents that parents are
--               used once, Ancestors `get_ancestors`, Children what the children lists name
--   Weight      the cumulative weight of src/parent_selection.rs and its cache; Counts what it counts
--   Selection   `ParentSelectionAlgorithm` of src/parent_selection.rs; Tips `TipSet`, Walk where the
--               random walk ends, Conflicts which tips are in conflict, Parents what is selected
--   Validation  `TransactionValidator` of src/validation.rs; Accepts what it accepts,
--               Malleable what it does not bind
--   Mempool     `Mempool` of src/rpc.rs; Evict what a full queue does, Queue what it holds
--   Processor   `process` of src/transaction_processor.rs; Steps the steps behind the locks, Safety
--               what each outcome has written, Progress when it succeeds, Once that it happens once,
--               Conservation money and the graph, Rewards the consensus state
--   Economics   `EmissionCurve` and `TokenBalance` of src/economics.rs and
--               `distribute_mining_reward` of src/consensus.rs; Emission, Distribution
--   Difficulty  `AdaptiveDifficulty` of src/transaction.rs; Range
--   Quorum      `VQVConsensus` of src/consensus.rs; Members quorums and votes
--   Storage     `Storage` of src/storage.rs; Index the index of addresses, Writes a batch of writes
--   Staking     the staking positions of src/storage.rs, `stake_tokens` and `unstake_tokens` of
--               src/rpc.rs; Money where the money of a stake goes
--   Pow         `MicroPoW` of src/pow.rs; Target what it accepts and what mining finds
--   Node        `run_node` of src/node.rs: the genesis balances, the rebuilding of the graph,
--               `--repair-ledger`; Rebuild that it ends, Restores and Restart that it brings the graph
--               back, Repair the ledger
--   Rpc         `process_transaction` and `process_orphans` of src/rpc.rs; Status the status of a
--               transaction and a round of the mining task of src/node.rs, Accepted and Mining what
--               becomes of an accepted transaction, Orphans and Waiting of one that waits, Limiter
--               `RateLimiter`, Faucet `faucet` with its transaction (Faucet/Authentic) and its
--               cooldown (Faucet/Cooldown),
--               Receiver what the tasks of src/node.rs do with transactions and orphans
--   P2p         the messages of `P2PNetwork` in src/p2p.rs; Pages a page of transactions, Sync an
--               exchange of two nodes
--   Runs        runs of a node: calls of `process_transaction` and `process_orphans` and rounds of
--               mining, in any order and in each other's waits; Steps the steps, Induction over
--               them, Keeps what is never taken back, Sound the invariants, Once what is accepted
--               once, Orphans that `process_orphans` is a run, Mirrors the transactions of the
--               database, Restart a start after a run, Forged an orphan on disk at a start
--   Audit       the double spends of `SecurityAuditor` in src/security_audit.rs; Detects which are
--               reported, Confirms what a confirmation takes away, Chains the parasite
--               chains, Misses what their detection misses
--   Tests       runs at concrete inputs: Money, Graph, Calls, Rest, Starts, Asks, Keeps, Spans,
--               Chooses, Meets
--
-- How the code is rendered. A function carries the name of the one that it models. A struct is a
-- record and an enum a data type; an error string is a constructor with the values that the
-- string prints. A method on `&mut self` returns its result and the new state. Numbers are
-- natural numbers: plain operators on `u64` and `u8` wrap around, as a release build compiles
-- them, and the checked and saturating ones are written out. A 32-byte identifier or address is
-- the number that its bytes spell, and stands for the hex string too; the weight and the
-- reputation, each an `f64`, are bit patterns. The order of an association list stands for the
-- order of iteration of a map.
--
-- What is a parameter. `Crypto` is blake3 and ed25519-dalek; all that is assumed of the hash is
-- that it fits 32 bytes. `Environment` is what other tasks write between the validation and the
-- locks, whether each lock is free, and whether the database takes the ledger, the transaction
-- and the consensus state. `Lottery` is the seed, the shuffle of the crate rand, of which only
-- that it reorders is assumed, and what src/consensus.rs computes in `f64`. `Terms` is the reward
-- of a stake, computed in `f64`, whether the ledger can be saved, and what other tasks do between
-- the locks of a stake; `Call` is the same for the submission of a transaction, with the fee of
-- the oracle, computed in `f64`. What dag.json spells is an argument, and so are the clock, the
-- draws of the random walk, of which only that they are within their range is assumed, and the
-- key of the faucet, of which only what ed25519-dalek documents of a key is assumed. `Codec` is
-- bincode between the nodes.
--
-- Fuel. Six loops need it. That of `mine_nonce` runs until a nonce fits: one round for each nonce
-- up to the first that fits is enough. That of `is_reachable_from` runs until its stack is empty:
-- two rounds for each stored transaction and two more are enough, since each visited transaction
-- pushes two parents, and so they are for the chains of the audit. That of the cumulative weight
-- needs one round for each entry of the children lists and two more, and so does each weight of a
-- random walk. Those of the rebuilding and of the replay at the start of a node run as long as a
-- round makes progress: one round for each transaction and one more are enough, since a round
-- with progress leaves less to do. All other loops run over a list or a number.
--
-- Not modelled: what is computed in `f64`; the database sled itself, whose trees are maps that
-- take every write, with its metadata and the migration from JSON; JSON files; the scores of the
-- graph; the wallet's keys and files; the handlers of the RPC server; the slashing of
-- src/security_audit.rs; the connections of the network, their encryption and the discovery of
-- peers, and the other tasks of a node; the explorer, the GUI and the command line, which call
-- what is modelled or do input and output.
pub mod Prelude
pub mod Dict
pub mod Reward
pub mod Consensus
pub mod Ledger
pub mod Transaction
pub mod Dag
pub mod Validation
pub mod Mempool
pub mod Processor
pub mod Economics
pub mod Difficulty
pub mod Quorum
pub mod Storage
pub mod Staking
pub mod P2p
pub mod Pow
pub mod Node
pub mod Rpc
pub mod Selection
pub mod Runs
pub mod Audit
pub mod Weight
pub mod Tests
