-- ===== src/Runs.antt =====
-- Runs of the node: calls of `process_transaction` and `process_orphans` (src/rpc.rs) and rounds of
-- mining (src/node.rs), in any order. What other tasks do while a call waits is a run itself.
pub mod Steps
pub mod Induction
pub mod Keeps
pub mod Sound
pub mod Once
pub mod Orphans
pub mod Mirrors
pub mod Restart
pub mod Forged
