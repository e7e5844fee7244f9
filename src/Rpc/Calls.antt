-- ===== src/Rpc/Calls.antt =====
-- The calls that raft_server.cpp keeps open.
use maelstromdb.Base.{
  ℕ, ◌+◌, ◌≡◌, refl, Bool, true, false, some, eqb, find, nat_eq, arith, Option-cases, inl, inr,
}
use maelstromdb.Base.Result.{ok, undefined, ok-injective}
use maelstromdb.Protos.{Status}
use maelstromdb.Rpc.Server.{
  ClientCommandId, request_vote, append_entries, get_configuration, set_configuration,
  register_client, client_request, client_query, CallStatus, create, process, finish, Request,
  Response, ConsensusInstance, CallData, RaftServer, set_status, delete_call, new_call, answer,
  proceed, proceed_request_vote, proceed_append_entries, proceed_set_configuration,
  proceed_get_configuration, proceed_register_client, proceed_client_request, proceed_client_query,
  start_calls, event_loop_turn,
}
use maelstromdb.Rpc.Waiting.{
  waiting, waits, is_created, AreLive, waiting-finished, waits-set_status, waits-delete_call,
  find-AreLive, set_status-AreLive, delete_call-AreLive, AreLive-more, waiting-process,
}

-- Every call is live, and one call of each kind waits for a request.
pub record IsOpen {S : Type 0} (server : RaftServer S) : Type 0 where
  pub live : AreLive server.next_call server.calls
  pub one : (id : ClientCommandId) → waits id server.calls ≡ 1

module _ {S : Type 0} where
  answer-IsOpen :
      (c : CallData) (address : ℕ) (handler : S → S × Response c.id × Status)
      (server : RaftServer S)
      → find address server.calls ≡ some c
      → c.m_status ≡ process
      → IsOpen server
      → IsOpen (answer c.id address handler server)
  unfolding answer new_call AreLive set_status is_created waits
  answer-IsOpen c address handler server h status opened =
      let below = (find-AreLive server.next_call address c server.calls opened.live h).0 in
      let another : eqb server.next_call address ≡ false = ground arith in
      rw another (record {
        live = (
          omega arith,
          refl,
          set_status-AreLive (server.next_call + 1) address server.calls
              (AreLive-more server.next_call server.calls opened.live),
        );
        one = λ id.
            let left = waits-set_status id address c server.calls h in
            let before = opened.one id in let same = waiting-process id c status in omega arith;
      })

module _ {S : Type 0} (handlers : ConsensusInstance S) where
  proceed-answer :
      (id : ClientCommandId) (address : ℕ) (request : Request id) (server : RaftServer S)
      → (handler : S → S × Response id × Status) × (proceed handlers id address request server
          ≡ answer id address handler server)
  unfolding proceed proceed_request_vote proceed_append_entries proceed_set_configuration
      proceed_get_configuration proceed_register_client proceed_client_request proceed_client_query
  proceed-answer request_vote address request server = (handlers.process_request_vote request, refl)
  proceed-answer append_entries address request server =
      (handlers.process_append_entries request, refl)
  proceed-answer get_configuration address request server =
      (handlers.process_get_configuration, refl)
  proceed-answer set_configuration address request server =
      (handlers.process_set_configuration request, refl)
  proceed-answer register_client address request server = (handlers.process_register_client, refl)
  proceed-answer client_request address request server =
      (handlers.process_client_request request, refl)
  proceed-answer client_query address query server = (handlers.process_client_query query, refl)

  -- A call that has finished is deleted.
  delete_call-IsOpen :
      (c : CallData) (address : ℕ) (server : RaftServer S)
      → find address server.calls ≡ some c
      → c.m_status ≡ finish
      → IsOpen server
      → IsOpen (record server { calls = delete_call address server.calls })
  delete_call-IsOpen c address server h status opened = record {
    live = delete_call-AreLive server.next_call address server.calls opened.live;
    one = λ id.
        let left = waits-delete_call id address c server.calls h in
        let before = opened.one id in let none = waiting-finished id c status in omega arith;
  }

  -- What a turn does with the call that it finds.
  found-IsOpen :
      (address : ℕ) (requests : (id : ClientCommandId) → Request id) (server t : RaftServer S)
      (id : ClientCommandId) (status : CallStatus)
      → find address server.calls ≡ some (record { id = id; m_status = status })
      → (elim status [
        | create ↦ ok (record server { calls = set_status address process server.calls })
        | process ↦ ok (proceed handlers id address (requests id) server)
        | finish ↦ ok (record server { calls = delete_call address server.calls })
      ])
        ≡ ok t
      → IsOpen server
      → IsOpen t
  unfolding is_created
  found-IsOpen address requests server t id create h turned opened =
      let created =
        (find-AreLive server.next_call address (record { id = id; m_status = create }) server.calls
          opened.live h).1 in
      cc
  found-IsOpen address requests server t id process h turned opened =
      let (handler, same) = proceed-answer id address (requests id) server in
      rw⁻¹ (ok-injective turned) (
        rw same (
          answer-IsOpen (record { id = id; m_status = process }) address handler server h refl
            opened))
  found-IsOpen address requests server t id finish h turned opened =
      rw⁻¹ (ok-injective turned)
        (delete_call-IsOpen (record { id = id; m_status = finish }) address server h refl opened)

  event_loop_turn-IsOpen :
      (address : ℕ) (succeeded : Bool) (requests : (id : ClientCommandId) → Request id)
      (server t : RaftServer S)
      → event_loop_turn handlers address succeeded requests server ≡ ok t
      → IsOpen server
      → IsOpen t
  unfolding event_loop_turn
  event_loop_turn-IsOpen address false requests server t h opened = rw⁻¹ (ok-injective h) opened
  event_loop_turn-IsOpen address true requests server t h opened =
      elim (Option-cases (find address server.calls)) [
        | inl q ↦ let lost : undefined ≡ ok t = rw q at h in cc
        | inr (c, q) ↦ found-IsOpen address requests server t c.id c.m_status q (rw q at h) opened
      ]

  start_calls-IsOpen : (consensus : S) → IsOpen (start_calls handlers consensus)
  unfolding start_calls new_call AreLive waits waiting is_created
  start_calls-IsOpen consensus = record {
    live = (
      omega arith,
      refl,
      (
        omega arith,
        refl,
        (
          omega arith,
          refl,
          (omega arith, refl, (omega arith, refl, (omega arith, refl, (omega arith, refl, tt)))),
        ),
      ),
    );
    one = one_each;
  }
    where
      one_each : (id : ClientCommandId) → waits id (start_calls handlers consensus).calls ≡ 1
      one_each request_vote = refl
      one_each append_entries = refl
      one_each get_configuration = refl
      one_each set_configuration = refl
      one_each register_client = refl
      one_each client_request = refl
      one_each client_query = refl

  -- The server after turns of `RPCEventLoop`.
  pub data Serving (consensus : S) : RaftServer S → Type 0 where
    started : Serving consensus (start_calls handlers consensus)
    turned :
        {server t : RaftServer S} (address : ℕ) (succeeded : Bool)
        (requests : (id : ClientCommandId) → Request id)
        → Serving consensus server
        → event_loop_turn handlers address succeeded requests server ≡ ok t
        → Serving consensus t

-- Whatever gRPC returns, and whatever the handlers do, exactly one call of each of the seven kinds
-- waits for a request after each turn of the loop.
pub Serving-IsOpen :
    {S : Type 0} {handlers : ConsensusInstance S} {consensus : S} {server : RaftServer S}
    → Serving handlers consensus server
    → IsOpen server
Serving-IsOpen {S} {handlers} {consensus} started = start_calls-IsOpen handlers consensus
Serving-IsOpen {S} {handlers} {consensus}
      (turned {server} {t} address succeeded requests serving h) =
    event_loop_turn-IsOpen handlers address succeeded requests server t h (Serving-IsOpen serving)
