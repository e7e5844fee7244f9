-- ===== src/Rpc/Client.antt =====
-- raft_client.{h,cpp}: the connections to the other servers, and the calls to them.
use maelstromdb.Base.{
  ℕ, ℤ, List, [], ◌∷◌, ◌++◌, Bool, true, false, Option, none, some, not, ◌&&◌, if◌then◌else◌, Text,
  text_eq, ◌==◌, find, assign, erase_key, contains,
}
use maelstromdb.Base.Result.{Result, ok}
use maelstromdb.Protos.{
  LogEntry, RequestVoteRequest, RequestVoteResponse, AppendEntriesRequest, AppendEntriesResponse,
}
use maelstromdb.Consensus.State
use maelstromdb.Consensus.State.{Env, Consensus, Effect}
use maelstromdb.Consensus.Voting.{handle_vote_response}
use maelstromdb.Consensus.Leading.{handle_append_response}
pub mod Stubs
pub mod Replies

-- `AsyncClientCall` of each kind, with its peer: a call that gRPC has not completed.
pub data AsyncClientCall : Type 0 where
  vote_call : RequestVoteRequest → Text → AsyncClientCall
  entries_call : AppendEntriesRequest → Text → AsyncClientCall

-- `m_stubs` tells for each entry whether it holds a stub.
pub record Client : Type 0 where
  pub address : Text
  pub m_stubs : List (Text × Bool)
  pub calls : List AsyncClientCall

-- The first loop of `CreateConnections`.
unfoldable pub new_addresses : List Text → List (Text × Bool) → List Text
new_addresses [] stubs = []
new_addresses (peer ∷ peers) stubs = elim (find peer stubs) [
  | none ↦ peer ∷ new_addresses peers stubs
  | some stub ↦ new_addresses peers stubs
]

-- The second loop.
unfoldable pub removed_addresses : List Text → List (Text × Bool) → List Text
removed_addresses peers [] = []
removed_addresses peers ((peer, stub) ∷ stubs) =
    if contains peer peers
    then removed_addresses peers stubs
    else peer ∷ removed_addresses peers stubs

unfoldable pub erase_all : List Text → List (Text × Bool) → List (Text × Bool)
erase_all [] stubs = stubs
erase_all (peer ∷ peers) stubs = erase_all peers (erase_key peer stubs)

unfoldable pub connect_all : Text → List Text → List (Text × Bool) → List (Text × Bool)
connect_all self [] stubs = stubs
connect_all self (peer ∷ peers) stubs =
    connect_all self peers (if peer == self then stubs else assign peer true stubs)

unfoldable pub create_connections : List Text → Client → Client
unfolding new_addresses removed_addresses erase_all connect_all
create_connections peer_addresses c =
    let added = new_addresses peer_addresses c.m_stubs in
    let removed = removed_addresses peer_addresses c.m_stubs in
    record c { m_stubs = connect_all c.address added (erase_all removed c.m_stubs) }

-- `m_stubs[peer_id]`: a peer without an entry gets one, without a stub.
unfoldable pub stub_of : Text → Client → Bool × Client
stub_of peer_id c = elim (find peer_id c.m_stubs) [
  | some stub ↦ (stub, c)
  | none ↦ (false, record c { m_stubs = assign peer_id false c.m_stubs })
]

-- A call is started where there is a stub.
unfoldable pub start_call : Text → AsyncClientCall → Client → Client
unfolding stub_of
start_call peer_id call c =
    let (connected, looked_up) = stub_of peer_id c in
    if not connected then looked_up else record looked_up { calls = looked_up.calls ++ (call ∷ []) }

unfoldable pub request_vote : Text → ℤ → ℤ → ℤ → Client → Client
unfolding start_call
request_vote peer_id term last_log_index last_log_term c =
    start_call peer_id
      (vote_call
        (record {
          term = term;
          candidate_id = c.address;
          last_log_index = last_log_index;
          last_log_term = last_log_term;
        })
        peer_id)
      c

unfoldable pub append_entries : Text → ℤ → ℤ → ℤ → List LogEntry → ℤ → Client → Client
unfolding start_call
append_entries peer_id term prev_log_index prev_log_term entries leader_commit c =
    start_call peer_id
      (entries_call
        (record {
          term = term;
          leader_id = c.address;
          prev_log_index = prev_log_index;
          prev_log_term = prev_log_term;
          entries = entries;
          leader_commit = leader_commit;
        })
        peer_id)
      c

-- What the consensus module asks of the client.
unfoldable pub perform : Effect → Client → Client
unfolding create_connections request_vote append_entries
perform (State.create_connections peers) c = create_connections peers c
perform (State.request_vote peer term last_log_index last_log_term) c =
    request_vote peer term last_log_index last_log_term c
perform (State.append_entries peer term prev_log_index prev_log_term entries leader_commit) c =
    append_entries peer term prev_log_index prev_log_term entries leader_commit c
perform _ c = c

-- All of it, from the oldest on.
unfoldable pub perform_all : List Effect → Client → Client
unfolding perform
perform_all [] c = c
perform_all (e ∷ es) c = perform e (perform_all es c)

-- `HandleRequestVoteReply`; `none` is a call that has failed.
unfoldable pub handle_request_vote_reply :
    Env → RequestVoteRequest → Option RequestVoteResponse → Consensus → Result Consensus
handle_request_vote_reply env request none s = ok s
handle_request_vote_reply env request (some reply) s = handle_vote_response env request reply s

-- `HandleAppendEntriesReply`
unfoldable pub handle_append_entries_reply :
    Env → AppendEntriesRequest → Option AppendEntriesResponse → Text → Consensus → Result Consensus
handle_append_entries_reply env request none peer_address s = ok s
handle_append_entries_reply env request (some reply) peer_address s =
    handle_append_response env request reply peer_address s

-- A turn of `AsyncCompleteRPC`: gRPC returns a call, with the reply of its kind or a failure.
unfoldable pub complete_rpc :
    Env
    → AsyncClientCall
    → Option RequestVoteResponse
    → Option AppendEntriesResponse
    → Consensus
    → Result Consensus
unfolding handle_request_vote_reply handle_append_entries_reply
complete_rpc env (vote_call request peer) vote entries s =
    handle_request_vote_reply env request vote s
complete_rpc env (entries_call request peer) vote entries s =
    handle_append_entries_reply env request entries peer s
