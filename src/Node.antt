-- ===== src/Node.antt =====
-- global_ctx_manager.{h,cpp}, the instances of a node, and `Create::InitializeNode` of
-- cli/create.cpp, which starts one.
--
-- The client and the timers are in their modules. The consensus module works on the log as it sees
-- it.
use maelstromdb.Base.{ℕ, ℤ, ◌*◌, Option, none, some, Bool, if◌then◌else◌, Text, List}
use maelstromdb.Base.Result.{Result, ok, ◌>>=◌}
use maelstromdb.Protos.{Configuration}
use maelstromdb.Storage.{PersistedLog}
use maelstromdb.Storage.Entries.{latest_configuration}
use maelstromdb.Storage.Refinement.{raft_log}
use maelstromdb.Storage.Restore.{StoredFile, restored_log}
use maelstromdb.Consensus.State.{Env, Consensus, new_consensus}
use maelstromdb.Consensus.Roles.{state_machine_init, initialize_configuration}
use maelstromdb.Rpc.Server.{ConsensusInstance, RaftServer, start_calls}
mod Tests
pub mod Restart
pub mod Lives
pub mod Elections

pub record GlobalCtxManager : Type 0 where
  pub address : Text
  pub m_consensus : Consensus
  pub m_log : PersistedLog

-- The default of the size of a file.
abbrev pub max_file_size : ℕ
max_file_size = 1024 * 8

-- `LatestConfiguration`, with the index as an `int`.
unfoldable pub latest_of : PersistedLog → Option (ℤ × Configuration)
unfolding latest_configuration
latest_of l = elim (latest_configuration l) [
  | none ↦ none
  | some (log_index, c) ↦ some (ℤ.pos log_index, c)
]

-- The constructor: the log is restored from the files of the directory.
unfoldable pub new_context : Env → List StoredFile → Text → Result GlobalCtxManager
unfolding raft_log new_consensus
new_context env files address = do
  log ← restored_log max_file_size files
  ok (record {
    address = address;
    m_consensus = new_consensus env address (raft_log log);
    m_log = log;
  })

-- `InitializeNode` up to `ServerInit`.
unfoldable pub initialize_consensus : Env → List StoredFile → Text → Bool → Result Consensus
unfolding new_context latest_of state_machine_init
initialize_consensus env files address leader = do
  ctx ← new_context env files address
  s ← state_machine_init (latest_of ctx.m_log) ctx.m_consensus
  if leader then initialize_configuration s else ok s

-- `InitializeNode`, over the handlers that the server calls: the loop of the server starts.
unfoldable pub initialize_node :
    ConsensusInstance Consensus
    → Env
    → List StoredFile
    → Text
    → Bool
    → Result (RaftServer Consensus)
unfolding initialize_consensus start_calls
initialize_node handlers env files address leader = do
  s ← initialize_consensus env files address leader
  ok (start_calls handlers s)
