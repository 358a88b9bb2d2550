-- ===== src/Kernel.antt =====
-- The incremental query kernel of runtime.py and core.py.
pub mod Node
pub mod Program
pub mod State
pub mod Verify
pub mod Execute
pub mod Inputs
pub mod Requests
pub mod Fresh
pub mod Invariant
pub mod Settled
pub mod Run
pub mod Evaluate
pub mod Recheck
pub mod Order
pub mod Commit
pub mod Ensure
pub mod Evict
pub mod Serve
pub mod SetInput
pub mod Serving
pub mod SetSteps
pub mod BatchPhases
pub mod BatchChanges
pub mod BatchWorld
pub mod BatchServed
pub mod BatchRead
pub mod History
pub mod Answers
mod Samples
mod Tests
pub mod Steps
pub mod Keeps
pub mod Limit
pub mod KeySets
pub mod Eviction
pub mod Recent
pub mod Indexed
pub mod Growth
pub mod Stored
pub mod SetRead
mod RaiseTests
mod EvictTests
pub mod Batch
pub mod BatchLaws
pub mod BatchOne
pub mod ColdFailure
