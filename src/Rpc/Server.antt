-- ===== src/Rpc/Server.antt =====
-- raft_server.{h,cpp}: the calls of the server, and what gRPC makes them do.
--
-- The section's parameter is the consensus module as the server calls it.
use maelstromdb.Base.{
  ℕ, ℤ, ◌+◌, List, [], ◌∷◌, ◌++◌, Bool, Option, none, some, not, if◌then◌else◌, eqb, Text, find,
  nat_eq,
}
use maelstromdb.Base.Result.{Result, ok, undefined}
use maelstromdb.Protos.{
  Server, Status, RequestVoteRequest, RequestVoteResponse, AppendEntriesRequest,
  AppendEntriesResponse,
}
use maelstromdb.Session.{ClientRequestResponse}
use maelstromdb.Consensus.Membership.{SetConfigurationRequest}
use maelstromdb.Consensus.Clients.{RegisterClientResponse, ClientRequestRequest}

-- `RaftClientImpl::ClientCommandID`
pub data ClientCommandId : Type 0 where
  request_vote append_entries get_configuration set_configuration register_client client_request
        client_query :
      ClientCommandId

pub data CallStatus : Type 0 where
  create process finish : CallStatus

-- What a call reads, by its kind.
abbrev pub Request : ClientCommandId → Type 0
Request request_vote = RequestVoteRequest
Request append_entries = AppendEntriesRequest
Request get_configuration = Unit
Request set_configuration = SetConfigurationRequest
Request register_client = Unit
Request client_request = ClientRequestRequest
Request client_query = Text

-- What a call answers, by its kind.
abbrev pub Response : ClientCommandId → Type 0
Response request_vote = RequestVoteResponse
Response append_entries = AppendEntriesResponse
Response get_configuration = ℤ × List Server
Response set_configuration = Bool
Response register_client = RegisterClientResponse
Response client_request = ClientRequestResponse
Response client_query = Option Text

-- The handlers of the consensus module, from a call to its return.
pub record ConsensusInstance (S : Type 0) : Type 0 where
  pub process_request_vote : RequestVoteRequest → S → S × RequestVoteResponse × Status
  pub process_append_entries : AppendEntriesRequest → S → S × AppendEntriesResponse × Status
  pub process_get_configuration : S → S × (ℤ × List Server) × Status
  pub process_set_configuration : SetConfigurationRequest → S → S × Bool × Status
  pub process_register_client : S → S × RegisterClientResponse × Status
  pub process_client_request : ClientRequestRequest → S → S × ClientRequestResponse × Status
  pub process_client_query : Text → S → S × Option Text × Status

-- A call, with the kind in its tag.
pub record CallData : Type 0 where
  pub id : ClientCommandId
  pub m_status : CallStatus

-- `calls` are the calls that are not deleted, by their addresses; `sent` the answers, in order,
-- with the addresses of their calls.
pub record RaftServer (S : Type 0) : Type 0 where
  pub consensus : S
  pub calls : List (ℕ × CallData)
  pub next_call : ℕ
  pub sent : List (ℕ × ((id : ClientCommandId) × Response id) × Status)

unfoldable pub set_status : ℕ → CallStatus → List (ℕ × CallData) → List (ℕ × CallData)
set_status address status [] = []
set_status address status ((a, c) ∷ calls) =
    if eqb a address
    then (a, record c { m_status = status }) ∷ calls
    else (a, c) ∷ set_status address status calls

-- `delete this`
unfoldable pub delete_call : ℕ → List (ℕ × CallData) → List (ℕ × CallData)
delete_call address [] = []
delete_call address ((a, c) ∷ calls) =
    if eqb a address then calls else (a, c) ∷ delete_call address calls

module _ {S : Type 0} where
  -- The constructor of a call, whose `Proceed` asks gRPC for a request of its kind.
  unfoldable pub new_call : ClientCommandId → RaftServer S → RaftServer S
  new_call id server = record server {
    calls = (server.next_call, record { id = id; m_status = process }) ∷ server.calls;
    next_call = server.next_call + 1;
  }

  -- `Proceed` of a call that has a request: a new call of the kind, the handler, and the answer.
  unfoldable pub answer :
      (id : ClientCommandId) → ℕ → (S → S × Response id × Status) → RaftServer S → RaftServer S
  unfolding new_call
  answer id address handler server =
      let renewed = new_call id server in
      let (consensus, response, status) = handler renewed.consensus in
      record renewed {
        consensus = consensus;
        calls = set_status address finish renewed.calls;
        sent = renewed.sent ++ ((address, (id, response), status) ∷ []);
      }

module _ {S : Type 0} (handlers : ConsensusInstance S) where
  unfoldable pub proceed_request_vote : ℕ → RequestVoteRequest → RaftServer S → RaftServer S
  unfolding answer
  proceed_request_vote address request =
      answer request_vote address (handlers.process_request_vote request)

  unfoldable pub proceed_append_entries : ℕ → AppendEntriesRequest → RaftServer S → RaftServer S
  unfolding answer
  proceed_append_entries address request =
      answer append_entries address (handlers.process_append_entries request)

  unfoldable pub proceed_set_configuration :
      ℕ → SetConfigurationRequest → RaftServer S → RaftServer S
  unfolding answer
  proceed_set_configuration address request =
      answer set_configuration address (handlers.process_set_configuration request)

  unfoldable pub proceed_get_configuration : ℕ → RaftServer S → RaftServer S
  unfolding answer
  proceed_get_configuration address =
      answer get_configuration address handlers.process_get_configuration

  unfoldable pub proceed_register_client : ℕ → RaftServer S → RaftServer S
  unfolding answer
  proceed_register_client address = answer register_client address handlers.process_register_client

  unfoldable pub proceed_client_request : ℕ → ClientRequestRequest → RaftServer S → RaftServer S
  unfolding answer
  proceed_client_request address request =
      answer client_request address (handlers.process_client_request request)

  unfoldable pub proceed_client_query : ℕ → Text → RaftServer S → RaftServer S
  unfolding answer
  proceed_client_query address query =
      answer client_query address (handlers.process_client_query query)

  -- The `switch` of `RPCEventLoop` over the kind of a call that has a request.
  unfoldable pub proceed : (id : ClientCommandId) → ℕ → Request id → RaftServer S → RaftServer S
  unfolding proceed_request_vote proceed_append_entries proceed_set_configuration
      proceed_get_configuration proceed_register_client proceed_client_request proceed_client_query
  proceed request_vote address request = proceed_request_vote address request
  proceed append_entries address request = proceed_append_entries address request
  proceed get_configuration address request = proceed_get_configuration address
  proceed set_configuration address request = proceed_set_configuration address request
  proceed register_client address request = proceed_register_client address
  proceed client_request address request = proceed_client_request address request
  proceed client_query address query = proceed_client_query address query

  -- The calls that `RPCEventLoop` starts with.
  unfoldable pub start_calls : S → RaftServer S
  unfolding new_call
  start_calls consensus = new_call client_query (
      new_call client_request (
        new_call register_client (
          new_call set_configuration (
            new_call get_configuration (
              new_call append_entries (
                new_call request_vote
                  (record { consensus = consensus; calls = []; next_call = 0; sent = [] })))))))

  -- A turn of `RPCEventLoop`: gRPC returns the tag of a call, with whether it succeeded, and fills
  -- in a request of the kind of a call that waits for one. A call that is deleted has no tag.
  unfoldable pub event_loop_turn :
      ℕ → Bool → ((id : ClientCommandId) → Request id) → RaftServer S → Result (RaftServer S)
  unfolding proceed delete_call
  event_loop_turn address succeeded requests server =
      if not succeeded then ok server else elim (find address server.calls) [
        | none ↦ undefined
        | some c ↦ elim c.m_status [
          | create ↦ ok (record server { calls = set_status address process server.calls })
          | process ↦ ok (proceed c.id address (requests c.id) server)
          | finish ↦ ok (record server { calls = delete_call address server.calls })
        ]
      ]
