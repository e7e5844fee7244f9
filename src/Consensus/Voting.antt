-- ===== src/Consensus/Voting.antt =====
-- consensus_module.cpp: the handlers of the RequestVote RPC.
use maelstromdb.Base.{
  ℤ, ◌+◌, ◌*◌, [], Bool, true, false, if◌then◌else◌, leb, ltb, ltb_ℤ, leb_ℤ, eqb_ℤ, length, not,
  ◌==◌, ◌&&◌, ◌||◌, text_eq, int_eq,
}
use maelstromdb.Base.Result.{Result, ok, ◌>>=◌}
use maelstromdb.Protos.{
  Status, status_ok, status_cancelled, RequestVoteRequest, RequestVoteResponse,
}
use maelstromdb.Config
use maelstromdb.Consensus.RaftLog
use maelstromdb.Consensus.State.{Env, Consensus, now, is_leader, is_candidate, is_dead}
use maelstromdb.Consensus.Roles.{
  reset_to_follower, store_state, promote_to_leader, schedule_election,
}

-- The last entry of the candidate is not behind the last entry of the log.
unfoldable pub is_up_to_date : RequestVoteRequest → RaftLog.RaftLog → Bool
is_up_to_date request l =
    ltb_ℤ (RaftLog.last_term l) request.last_log_term
    || eqb_ℤ request.last_log_term (RaftLog.last_term l)
      && leb_ℤ (RaftLog.last_index l) request.last_log_index

unfoldable pub may_grant : RequestVoteRequest → Consensus → Bool
unfolding is_up_to_date
may_grant request s =
    eqb_ℤ request.term s.m_term
    && (s.m_vote == [] || s.m_vote == request.candidate_id)
    && is_up_to_date request s.log

-- The vote, from the test of the log on.
unfoldable pub decide_vote : Env → RequestVoteRequest → Consensus → Consensus × RequestVoteResponse
unfolding may_grant
decide_vote env request s =
    if may_grant request s
    then (
      schedule_election env request.term (store_state (record s { m_vote = request.candidate_id })),
      record { term = s.m_term; vote_granted = true },
    )
    else (s, record { term = s.m_term; vote_granted = false })

-- `ResetToFollower` where the term of a request is newer.
unfoldable pub follow_term : Env → ℤ → Consensus → Consensus
follow_term env term s = if ltb_ℤ s.m_term term then reset_to_follower env term s else s

abbrev pub default_response : RequestVoteResponse
default_response = record { term = ℤ.pos 0; vote_granted = false }

-- `ProcessRequestVoteClientRequest`
unfoldable pub handle_request_vote :
    Env → RequestVoteRequest → Consensus → Consensus × RequestVoteResponse × Status
unfolding decide_vote follow_term
handle_request_vote env request s =
    let (time, after) = now env s in
    let (voted, reply) = decide_vote env request (follow_term env request.term after) in
    if is_dead s.m_state
    then (s, default_response, status_cancelled)
    else if leb time s.m_election_deadline || is_leader s.m_state
    then (after, record { term = s.m_term; vote_granted = false }, status_ok)
    else (voted, reply, status_ok)

-- `ProcessRequestVoteServerResponse`
unfoldable pub handle_vote_response :
    Env → RequestVoteRequest → RequestVoteResponse → Consensus → Result Consensus
handle_vote_response env request reply s =
    if not (is_candidate s.m_state)
    then ok s
    else if ltb_ℤ request.term reply.term
    then ok (reset_to_follower env reply.term s)
    else if eqb_ℤ reply.term request.term && reply.vote_granted
    then (do
      let counted = record s { m_votes_received = s.m_votes_received + 1 }
      addresses ← Config.server_addresses s.m_configuration
      if ltb (length addresses) (counted.m_votes_received * 2)
          then promote_to_leader counted
          else ok counted)
    else ok s
