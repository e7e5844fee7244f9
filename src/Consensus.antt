-- ===== src/Consensus.antt =====
-- src/raft/consensus_module.{h,cpp}: the Raft node, as operations on its state.
mod Tests
pub mod RaftLog
pub mod State
pub mod Roles
pub mod Replication
pub mod Commit
pub mod Elections
pub mod Voting
pub mod Votes
pub mod Winning
pub mod Frame
pub mod Turns
pub mod LeaderTurns
pub mod FollowerTurns
pub mod CandidateTurns
pub mod ClientTurns
pub mod Starting
pub mod Steps
pub mod Runs
pub mod Following
pub mod Merge
pub mod Merged
pub mod Matching
pub mod Sent
pub mod Unmoved
pub mod Replicated
pub mod Indices
pub mod Counting
pub mod Growth
pub mod Quiet
pub mod Retries
pub mod Outcomes
pub mod Leading
pub mod Membership
pub mod Clients
