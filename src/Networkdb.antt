-- ===== src/Networkdb.antt =====
-- networkdb/: the gossip database of the cluster. `Names` has names and Go maps keyed by them, `Radix`
-- what the sources use of go-radix and of serf's clock, `State` the database, and the other modules
-- the operations with their proofs below them.
pub mod Names
pub mod Assoc
pub mod Radix
pub mod State
pub mod Entries
pub mod Nodes
pub mod Delegate
pub mod Reap
pub mod Steps
mod Tests
