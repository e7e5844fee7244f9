-- ===== src/Lib.antt =====
-- A replicated key-value store on the Raft protocol, in C++: a model of its core and what is
-- proved of it.
--
-- A node is a `ConsensusModule` (src/raft/consensus_module.cpp). It votes, leads or follows, and
-- keeps its entries in a `PersistedLog` (src/raft/storage.cpp), the members of the cluster in a
-- `ClusterConfiguration` (src/raft/cluster_configuration.cpp), and what clients see in a
-- `StateMachine` (src/raft/state_machine.cpp), which shares a `SessionCache`
-- (src/raft/session_cache.cpp) and an `InmemoryStore` (src/core/inmemory_store.cpp) with it.
-- Timers run its callbacks, the RPC server its handlers, and the RPC client sends its requests
-- and brings the replies back.
--
-- * Base has what the other modules share: Boolean tests, integers, lists, sets and maps.
--   Base.Result is the outcome of C++ code: a value, an exception, or undefined behaviour, such
--   as an access past the end of a container. Base.SortedMap is `std::map`.
-- * Protos has the messages of src/protos/log.proto and src/protos/raft.proto.
-- * Config is `ClusterConfiguration`: one function per method, under its name in snake case.
--   Config.Quorum is about quorums, Config.Members about the addresses that are known,
--   Config.Sync about the log sync of new servers, Config.History and Config.Current about the
--   configurations by log index.
-- * Storage is `PersistedLog`, Storage.Entries, Writes and Suffix its reads, appends and
--   truncation, and Storage.Pages its `Page`. A page is shared by the map and by `m_open_page`;
--   `OpenPage` says which page of the map is the open one. Storage.Chain says when the pages make
--   up a log and which list of entries that is; Storage.Read, Reopened, Append, Dropping,
--   Branches, Truncate and Orphan are about the operations, and Storage.Refinement compares them
--   with Consensus.RaftLog. Storage.Restore is `RestoreState`; Saved and Restart are about it.
--   Storage.MetadataFiles has the two files that `SetMetadata` writes in turn, and what
--   `LoadMetadata` takes from them.
-- * Session is `SessionCache` with its LRU cache, and Session.Eviction and Cached are about it.
-- * Machine is `StateMachine` with `InmemoryStore`, and Machine.Store is about committed writes.
-- * Consensus is `ConsensusModule`. Consensus.RaftLog is the class `Log` as it sees it, State its
--   members, Roles the changes of role and `Append`, Replication `CommitEntries` and
--   `UpdateCommitIndex`, Elections the callbacks of the election timer and the heartbeat timer,
--   Voting the two handlers of RequestVote (`handle_request_vote` is
--   `ProcessRequestVoteClientRequest`, `handle_vote_response` is
--   `ProcessRequestVoteServerResponse`), Following and Leading the two of AppendEntries
--   (`handle_append_entries`, `handle_append_response`), Membership and Clients the handlers of
--   clients' requests. Votes, Winning, Merge, Merged and Commit are about them. Matching, Sent,
--   Unmoved and Replicated are about a log that is sent from a leader to a follower, Indices and
--   Counting about how the leader counts the replies, and Growth with its modules about what a
--   leader does to its log, and Retries about clients that ask again. Outcomes is about the
--   branches of the longer operations, and Quiet about those that send and schedule. Frame,
--   Turns, LeaderTurns, FollowerTurns, CandidateTurns and ClientTurns say what each handler does
--   to the term and the vote; Steps is the relation of all the handlers, and Runs is about their
--   runs.
-- * Timers is `TimerQueue` with its timers (src/core/timer.cpp); Timers.Order, Expiry, Deadlines
--   and Resets are about it.
-- * Executors.Strand is `Strand` and Executors.Pool `ThreadPoolExecutor`
--   (src/core/async_executor.cpp); Executors.Order and Idle are about them.
-- * Rpc.Server is `RaftServerImpl` (src/raft/raft_server.cpp), over an interface of the handlers,
--   and Rpc.Waiting and Calls about it; Rpc.Client is `RaftClientImpl` (src/raft/raft_client.cpp)
--   with Client.Stubs and Client.Replies, and Rpc.Proxy is the redirection of `LeaderProxy`
--   (src/raft/leader_proxy.cpp) with Proxy.Redirects; Rpc.Requests has its requests.
-- * Node is `GlobalCtxManager` (src/raft/global_ctx_manager.cpp) with the start of a node
--   (`Create::InitializeNode` of src/cli/create.cpp). Consensus.Starting and Node.Restart are
--   about a restart, Node.Lives about nodes that handle requests, crash and restart, and
--   Node.Elections about a cluster of them.
-- * Cli is `CommandParser` and the parsing of options, Cli.Commands the commands of src/cli/, and
--   Cli.Split is about comma separated lists. The commands use the proxy through an interface.
-- * Logger is src/utils/logger.h, and Logger.Levels is about it.
-- * The modules named Tests have concrete runs.
--
-- An operation takes the state and returns the next one, in `Result` where it can throw or leave
-- a container. A handler that waits on a condition variable is cut at the wait: `begin_register`
-- runs up to it, and `finish_register` from each wake-up on, on the state that other handlers
-- have left. Messages that are sent and conditions that are notified are collected in `effects`.
-- `Env` supplies the readings of the clock and the random timeouts, and `Serializer` the size of
-- a serialised entry and the success of writes; both are arguments, of which nothing is assumed
-- but what a theorem names.
--
-- An `int` of the source is an unbounded integer. The comparison of a `size_t` with a negative
-- `int` in `PersistLogEntries` is written out at 64 bits. The loop of `Entries` runs on fuel, as
-- much as there are entries to read and one more: on a well-formed log every round but the last
-- reads one at least. The loop of `Retry` runs on fuel too, as much as there are calls. An
-- unordered set is a list without repetitions.
--
-- The class `Log` that the consensus module sees is taken for its list of entries: `truncate`
-- leaves the entries below an index and appends go on from there. The `PersistedLog` loses its
-- open page where it is truncated at or below the start of that page, which only the theorems on
-- Storage show. A node that restarts reads a directory whose metadata files are as `SetMetadata`
-- leaves them; that no write of one is cut short is taken for granted.
--
-- A multiset of timers is a list in its order, and an operation on one that is out of order is
-- undefined. Where timers have the same deadline, `std::multiset::find` may return any of them,
-- and the model takes the first. The calls of the servers and of the client, the timers and the
-- callbacks are numbers or plain data; gRPC is what it answers, an argument.
--
-- Not modelled: the parsing of files, which protobuf does, and the listing of a directory: the
-- files with what is parsed of them are an argument of `restored_log`; threads and locks (each
-- operation runs to its end or to its wait); the start of the gRPC server; getopt, and the
-- printing of the clock.
pub mod Base
pub mod Protos
pub mod Config
pub mod Storage
pub mod Session
pub mod Machine
pub mod Consensus
pub mod Timers
pub mod Executors
pub mod Rpc
pub mod Node
pub mod Cli
pub mod Logger
