-- ===== src/Rpc/Tests.antt =====
-- A server over a consensus module that counts its calls.
use maelstromdb.Base.{
  minus_one, ◌+ℤ◌, ◌-ℤ◌, ℕ, ℤ, ◌+◌, ◌≡◌, refl, [], true, some, find, assign, contains, text_eqb,
  zero, suc, Text, text_eq, ◌∷◌,
}
use maelstromdb.Base.Result.{ok}
use maelstromdb.Protos.{status_ok, Status, status_error, retry, not_leader, timeout}
use maelstromdb.Rpc.Server.{
  ClientCommandId, request_vote, append_entries, get_configuration, set_configuration,
  register_client, client_request, client_query, Request, ConsensusInstance, RaftServer, proceed,
  proceed_request_vote, proceed_client_query, answer, new_call, start_calls, event_loop_turn,
  set_status, delete_call,
}
use maelstromdb.Rpc.Calls.{Serving, started, turned, IsOpen, Serving-IsOpen}
use maelstromdb.Consensus.State.{Env, Consensus, new_consensus}
use maelstromdb.Consensus.RaftLog.{last_index, last_term, last_term_of, size}
use maelstromdb.Config
use maelstromdb.Consensus.Elections
use maelstromdb.Rpc.Client.{Client, perform_all}
use maelstromdb.Rpc.Client.Replies.{AreConnected, vote_calls, run_election-vote_calls}
use maelstromdb.Rpc.Proxy.{is_ok, is_retry, leader_hint, redirect_to_leader}
use maelstromdb.Rpc.Proxy.Redirects.{success_is_dropped}

program : Unit {0}
unfolding proceed proceed_request_vote proceed_client_query answer new_call start_calls
    event_loop_turn set_status delete_call find assign contains text_eqb is_ok is_retry leader_hint
    new_consensus perform_all AreConnected Config.server_addresses Config.known_server
program = tt

abbrev counting : ConsensusInstance ℕ
counting = record {
  process_request_vote =
      λ request n. (n + 1, record { term = request.term; vote_granted = true }, status_ok);
  process_append_entries =
      λ request n. (n + 1, record { term = request.term; success = true }, status_ok);
  process_get_configuration = λ n. (n + 1, (ℤ.pos 0, []), status_ok);
  process_set_configuration = λ request n. (n + 1, true, status_ok);
  process_register_client = λ n. (n + 1, record { status = true; client_id = ℤ.pos 1 }, status_ok);
  process_client_request =
      λ request n. (n + 1, record { status = true; response = []; leader_hint = [] }, status_ok);
  process_client_query = λ query n. (n + 1, some query, status_ok);
}

abbrev requests : (id : ClientCommandId) → Request id
requests request_vote = record {
  term = ℤ.pos 1;
  candidate_id = [];
  last_log_index = ℤ.pos 0;
  last_log_term = ℤ.pos 0;
}
requests append_entries = record {
  term = ℤ.pos 1;
  leader_id = [];
  prev_log_index = ℤ.pos 0;
  prev_log_term = ℤ.pos 0;
  entries = [];
  leader_commit = ℤ.pos 0;
}
requests get_configuration = tt
requests set_configuration = record { old_id = ℤ.pos 0; new_servers = [] }
requests register_client = tt
requests client_request = record { client_id = ℤ.pos 1; sequence_num = ℤ.pos 0; command = [] }
requests client_query = []

-- The call for a vote is answered.
abbrev answered : RaftServer ℕ
unfolding program
answered = proceed_request_vote counting 0 (requests request_vote) (start_calls counting 0)

-- It is deleted.
abbrev deleted : RaftServer ℕ
unfolding program
deleted = record answered { calls = delete_call 0 answered.calls }

abbrev serving : Serving counting 0 deleted
unfolding program
serving = turned 0 true requests (turned 0 true requests started refl) refl

Serving-IsOpen_example : IsOpen deleted
Serving-IsOpen_example = Serving-IsOpen serving

abbrev a : Text
a = b'a' ∷ []

abbrev b : Text
b = b'b' ∷ []

abbrev c : Text
c = b'c' ∷ []

-- A client of `a` that is connected to `b`.
abbrev client : Client
client = record { address = a; m_stubs = (b, true) ∷ []; calls = [] }

abbrev clocks : Env
clocks = record { clock = λ n. n; distr = λ n. n }

-- The consensus module of `a`, with nothing asked of the client yet.
abbrev node : Consensus
unfolding program
node = new_consensus clocks a (record {
  log_entries = [];
  log_metadata = record { version = ℤ.pos 0; term = ℤ.pos 0; vote = [] };
})

-- The node with both servers in its configuration.
abbrev grouped : Consensus
unfolding program
grouped = record node { m_configuration = record Config.initial { m_addresses = a ∷ b ∷ [] } }

run_election-vote_calls_example :
    (t : Consensus) × (Elections.run_election clocks (Elections.stand_for_election grouped) ≡ ok t)
    × (perform_all t.effects client
        ≡ record client { calls = vote_calls a (a ∷ b ∷ []) (ℤ.pos 1) minus_one minus_one })
unfolding program ◌+ℤ◌ ◌-ℤ◌ last_index last_term last_term_of size
run_election-vote_calls_example =
    run_election-vote_calls clocks grouped client (a ∷ b ∷ []) true refl refl refl refl
      ((λ h. cc), ((λ h. refl), tt))

-- Two servers that answer RETRY twice, and then success.
abbrev slow : ℕ → Text → Status
slow zero server = status_error retry []
slow (suc zero) server = status_error retry []
slow (suc (suc n)) server = status_ok

-- Three servers of which `b` leads.
abbrev led : ℕ → Text → Status
led zero server = status_error not_leader b
led (suc zero) server = status_ok
led (suc (suc n)) server = status_error timeout []

success_is_dropped_example :
    redirect_to_leader (a ∷ b ∷ c ∷ []) led 1 ≡ ok (some (status_error timeout [], 3))
unfolding program
success_is_dropped_example =
    success_is_dropped a b c led 0 refl refl refl refl refl refl refl refl refl
