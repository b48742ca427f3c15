-- ===== src/Tests.antt =====
-- Runs of the code at concrete inputs: the ledger and its persistence (src/ledger.rs), the graph and
-- proof of work (src/parent_selection.rs, src/transaction.rs), `process`
-- (src/transaction_processor.rs), and the rest. Here is the data that they share.
pub mod Money
pub mod Graph
pub mod Calls
pub mod Rest
pub mod Starts
pub mod Asks
pub mod Keeps
pub mod Spans
pub mod Chooses
pub mod Meets
use aether_sedc.Prelude.{ℕ, zero, suc, ◌+◌, ◌*◌, ◌%◌, ◌<◌, ◌^◌, List, [], ◌∷◌, true, arith}
use aether_sedc.Consensus.{ConsensusState}
use aether_sedc.Ledger.{Ledger}
use aether_sedc.Transaction.{Transaction, Crypto}
use aether_sedc.Dag.{Dag}

abbrev pub alice : ℕ
alice = 5

abbrev pub bob : ℕ
bob = 6

-- `k` zero bytes before the rest
abbrev zeros : ℕ → List ℕ → List ℕ
zeros zero rest = rest
zeros (suc k) rest = 0 ∷ zeros k rest

abbrev pub transaction : ℕ → ℕ × ℕ → ℕ → Transaction
transaction id parents account_nonce = record {
  id = id;
  parents = parents;
  sender = alice;
  receiver = bob;
  amount = 10;
  fee = 2;
  timestamp = 1000;
  nonce = 3;
  account_nonce = account_nonce;
  weight = 0;
  signature = 7 ∷ [];
  public_key = zeros 31 (alice ∷ []);
}

abbrev pub payment : Transaction
payment = transaction 100 (0, 0) 1

abbrev pub ledger : Ledger
ledger = record {
  balances = (alice, 100) ∷ (bob, 1) ∷ [];
  nonces = [];
  total_fees_burned = 0;
  total_supply = 101;
}

abbrev checksum : ℕ → List ℕ → ℕ
checksum acc [] = acc
checksum acc (b ∷ bytes) = checksum ((acc * 31 + b) % 65536) bytes

-- A hash of 16 bits, and a scheme that accepts every signature.
abbrev pub toy : Crypto
toy = record {
  blake3 = λ bytes. checksum 0 bytes % 65536;
  blake3_fits = λ bytes. omega arith;
  key_parses = λ key. true;
  signature_parses = λ signature. true;
  verify = λ key message signature. true;
}
