-- ===== src/Rpc.antt =====
-- src/raft/raft_server.{h,cpp}, raft_client.{h,cpp} and leader_proxy.{h,cpp}: the calls over gRPC.
mod Tests
pub mod Server
pub mod Waiting
pub mod Calls
pub mod Client
pub mod Proxy
pub mod Requests
