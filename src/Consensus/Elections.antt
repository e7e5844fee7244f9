-- ===== src/Consensus/Elections.antt =====
-- consensus_module.cpp: what the election timer and the heartbeat timer run.
use maelstromdb.Base.{
  ℤ, List, [], ◌∷◌, true, if◌then◌else◌, ◌+ℤ◌, ◌-ℤ◌, leb_ℤ, eqb, length, not, ◌==◌, ◌&&◌, text_eq,
  int_eq, minus_one, Text,
}
use maelstromdb.Base.Result.{Result, ok, ◌>>=◌}
use maelstromdb.Config
use maelstromdb.Consensus.RaftLog
use maelstromdb.Consensus.State.{
  Env, Consensus, candidate, emit, now, is_leader, is_candidate, is_follower, index_of,
  request_vote, append_entries,
}
use maelstromdb.Consensus.Roles.{
  store_state, promote_to_leader, schedule_election, schedule_heartbeat,
}
use maelstromdb.Consensus.Replication.{update_commit_index}

-- A request for a vote to each peer.
unfoldable pub request_votes : List Text → ℤ → ℤ → ℤ → Consensus → Consensus
request_votes [] term last_log_index last_log_term s = s
request_votes (peer ∷ peers) term last_log_index last_log_term s =
    request_votes peers term last_log_index last_log_term (
      if peer == s.address then s else emit (request_vote peer term last_log_index last_log_term) s)

-- The node becomes a candidate of the next term, and votes for itself.
unfoldable pub stand_for_election : Consensus → Consensus
stand_for_election s = store_state (record s {
  m_state = candidate;
  m_term = s.m_term +ℤ ℤ.pos 1;
  m_vote = s.address;
  m_votes_received = 1;
})

-- The rest of `ElectionCallback`, from the test for a cluster of one server.
unfoldable pub run_election : Env → Consensus → Result Consensus
unfolding request_votes
run_election env s = do
  addresses ← Config.server_addresses s.m_configuration
  known ← Config.known_server s.address s.m_configuration
  if eqb (length addresses) 1 && known
      then promote_to_leader s
      else ok (
          schedule_election env s.m_term (
            request_votes addresses s.m_term (RaftLog.last_index s.log) (RaftLog.last_term s.log)
              s))

unfoldable pub election_callback : Env → ℤ → Consensus → Result Consensus
unfolding stand_for_election run_election
election_callback env term s =
    if not (is_candidate s.m_state) && not (is_follower s.m_state)
    then ok s
    else if not (s.m_term == term)
    then ok s
    else (do
      known ← Config.known_server s.address s.m_configuration
      if leb_ℤ s.m_configuration.m_id s.m_commit_index && not known
          then ok (schedule_election env term s)
          else run_election env (stand_for_election s))

-- `prev_log_term`
unfoldable pub previous_term : ℤ → Consensus → Result ℤ
previous_term prev_log_index s =
    if leb_ℤ (ℤ.pos 0) prev_log_index
    then (do e ← RaftLog.entry prev_log_index s.log; ok e.term)
    else ok minus_one

-- A request to append to each peer, from its next index to the end of the log.
unfoldable pub send_heartbeats : List Text → Consensus → Result Consensus
unfolding previous_term
send_heartbeats [] s = ok s
send_heartbeats (peer ∷ peers) s = if peer == s.address then send_heartbeats peers s else (do
  let next = index_of peer s.m_next_index
  let prev_log_index = next -ℤ ℤ.pos 1
  prev_log_term ← previous_term prev_log_index s
  es ← RaftLog.range next (RaftLog.size s.log) s.log
  send_heartbeats peers
      (emit (append_entries peer s.m_term prev_log_index prev_log_term es s.m_commit_index) s))

-- A round of heartbeats begins: the lease may be renewed, and the node has answered itself.
unfoldable pub begin_round : Env → Consensus → Consensus
begin_round env s =
    let (time, after) = now env s in
    record after {
      m_heartbeat_time = time;
      m_renew_lease = true;
      m_responding_peers = s.address ∷ [];
    }

unfoldable pub heartbeat_callback : Env → Consensus → Result Consensus
unfolding send_heartbeats begin_round
heartbeat_callback env s = if not (is_leader s.m_state) then ok s else (do
  addresses ← Config.server_addresses s.m_configuration
  sent ← send_heartbeats addresses (begin_round env s)
  known ← Config.known_server s.address sent.m_configuration
  updated ← (if eqb (length addresses) 1 && known then update_commit_index env sent else ok sent)
  ok (schedule_heartbeat updated))
