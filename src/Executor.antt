-- ===== src/Executor.antt =====
-- CloudCommandExecutor (apps/desktop/src/main/cloud-command-executor.ts): the queue of commands that
-- the cloud sends to this desktop, one module for each group of its methods.
pub mod State
pub mod Keys
pub mod Emit
pub mod Prune
pub mod Schedule
pub mod Calls
pub mod Stream
pub mod Settle
pub mod Frame
pub mod Locks
pub mod Queue
pub mod Saturation
pub mod Changes
pub mod Endings
pub mod Pruning
pub mod Retention
pub mod Steps
pub mod Safety
pub mod Enqueue
pub mod Duplicates
pub mod LockKeys
pub mod Soundness
pub mod Reachable
pub mod Guarantees
pub mod Window
pub mod Buffers
pub mod Replay
pub mod Gapless
pub mod Pieces
pub mod StreamEnd
pub mod Endpoint
mod Tests
mod EventTests
