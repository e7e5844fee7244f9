-- ===== src/Consensus/Leading.antt =====
-- consensus_module.cpp: the answers to the AppendEntries RPC, on the side of the leader.
use maelstromdb.Base.{
  ℕ, ℤ, [], true, false, some, if◌then◌else◌, ◌+ℤ◌, ◌-ℤ◌, ltb_ℤ, eqb_ℤ, length, ◌&&◌, text_eq,
  int_eq, assign, Text, insert_set,
}
use maelstromdb.Base.Result.{Result, ok, ◌>>=◌}
use maelstromdb.Protos.{AppendEntriesRequest, AppendEntriesResponse}
use maelstromdb.Config
use maelstromdb.Consensus.State.{
  Env, Consensus, emit, now, is_leader, lease_ms, index_of, notify_membership,
}
use maelstromdb.Consensus.Roles.{reset_to_follower}
use maelstromdb.Consensus.Replication.{update_commit_index}

-- The lease is taken once a quorum has answered the round of heartbeats.
unfoldable pub renew_lease : Env → Text → Consensus → Consensus
renew_lease env address s =
    let responding = record s { m_responding_peers = insert_set address s.m_responding_peers } in
    let (time, after) = now env responding in
    if s.m_renew_lease && Config.check_quorum responding.m_responding_peers s.m_configuration
    then record after {
      m_lease_timer = some (ℤ.pos lease_ms -ℤ (ℤ.pos time -ℤ ℤ.pos s.m_heartbeat_time));
      m_lease_holder = true;
      m_renew_lease = false;
    }
    else responding

-- The indices of a peer that has appended `count` entries.
unfoldable pub record_match : Text → ℕ → Consensus → Consensus
record_match address count s =
    let next = index_of address s.m_next_index in
    record s {
      m_next_index = assign address (next +ℤ ℤ.pos count) s.m_next_index;
      m_match_index = assign address (next +ℤ ℤ.pos count -ℤ ℤ.pos 1) s.m_match_index;
    }

-- `UpdateSyncProgress`, with the match index of the peer.
unfoldable pub report_sync : Text → Consensus → Result Consensus
report_sync address s = do
  (progress, c) ←
      Config.update_sync_progress address (index_of address s.m_match_index) s.m_configuration
  let updated = record s { m_configuration = c }
  ok (if progress then emit notify_membership updated else updated)

-- A peer that did not agree: its next index goes back by one.
unfoldable pub step_back : Text → Consensus → Consensus
step_back address s =
    let next = index_of address s.m_next_index in
    record s { m_next_index = assign address (next -ℤ ℤ.pos 1) s.m_next_index }

-- A newer term in the reply.
unfoldable pub leave_term : Env → ℤ → ℤ → Consensus → Consensus
leave_term env request_term reply_term s =
    if ltb_ℤ request_term reply_term
    then reset_to_follower env reply_term (record s { m_leader_id = [] })
    else s

-- `ProcessAppendEntriesServerResponse`
unfoldable pub handle_append_response :
    Env → AppendEntriesRequest → AppendEntriesResponse → Text → Consensus → Result Consensus
unfolding renew_lease record_match report_sync step_back leave_term
handle_append_response env request reply address s =
    let current = leave_term env request.term reply.term s in
    if is_leader current.m_state && eqb_ℤ reply.term current.m_term
    then if reply.success
      then (do
        let matched =
            record_match address (length request.entries) (renew_lease env address current)
        reported ← report_sync address matched
        update_commit_index env reported)
      else ok (step_back address current)
    else ok current
