-- ===== src/Consensus/Following.antt =====
-- consensus_module.cpp: the handler of the AppendEntries RPC, on the side of the follower.
use maelstromdb.Base.{
  ℤ, ◌+◌, List, [], ◌∷◌, Bool, true, false, Option, none, some, if◌then◌else◌, ◌+ℤ◌, ltb_ℤ, leb_ℤ,
  eqb_ℤ, eqb, length, not, text_eq, int_eq, minus_one,
}
use maelstromdb.Base.Result.{Result, ok, ◌>>=◌}
use maelstromdb.Protos.{
  LogEntry, Status, status_ok, status_cancelled, AppendEntriesRequest, AppendEntriesResponse,
}
use maelstromdb.Config
use maelstromdb.Machine
use maelstromdb.Consensus.RaftLog
use maelstromdb.Consensus.State.{Env, Consensus, now, is_follower, is_dead}
use maelstromdb.Consensus.Roles.{reset_to_follower, schedule_election, append_entries}
use maelstromdb.Consensus.Voting.{follow_term}
use maelstromdb.Consensus.Replication.{uncommitted, commit_entries}

-- The loop of the merge from an index on: whether an entry of another term was met, with its index,
-- and the entries of the request that are left.
unfoldable pub find_conflict :
    ℤ → List LogEntry → RaftLog.RaftLog → Result (Option ℤ × List LogEntry)
find_conflict i [] l = ok (none, [])
find_conflict i (e ∷ es) l =
    if ltb_ℤ i (RaftLog.size l)
    then (do
      present ← RaftLog.entry i l
      if eqb_ℤ present.term e.term then find_conflict (i +ℤ ℤ.pos 1) es l else ok (some i, e ∷ es))
    else ok (none, e ∷ es)

-- Both `TruncateSuffix`.
unfoldable pub truncate_at : Option ℤ → Consensus → Result Consensus
truncate_at none s = ok s
truncate_at (some i) s = do
  c ← Config.truncate_suffix i s.m_configuration
  ok (record s { log = RaftLog.truncate i s.log; m_configuration = c })

-- The entries of the request become entries of the log.
unfoldable pub merge_entries : ℤ → List LogEntry → Consensus → Result Consensus
unfolding find_conflict truncate_at
merge_entries i es s = do
  (conflict, left) ← find_conflict i es s.log
  truncated ← truncate_at conflict s
  if eqb (length left) 0 then ok truncated else append_entries left truncated

-- The loop of `ApplyCommand`, over entries whose first is applied with the index `i`.
unfoldable pub apply_commands : ℤ → List LogEntry → Consensus → Result Consensus
apply_commands i [] s = ok s
apply_commands i (e ∷ es) s = do
  machine ← Machine.apply_command i e s.m_state_machine
  apply_commands (i +ℤ ℤ.pos 1) es (record s { m_state_machine = machine })

-- The commit index of the leader is followed, up to the size of the log.
unfoldable pub follow_commit_index : ℤ → Consensus → Result Consensus
unfolding apply_commands
follow_commit_index leader_commit s =
    let size = RaftLog.size s.log in
    let new_commit_index = if leb_ℤ leader_commit size then leader_commit else size in
    if ltb_ℤ s.m_commit_index leader_commit
    then (do
      let moved = record s { m_commit_index = new_commit_index }
      es ← uncommitted new_commit_index moved
      apply_commands s.m_commit_index es (commit_entries es moved))
    else ok s

-- `clock_type::now() + m_election_timeout`
unfoldable pub defer_deadline : Env → Consensus → Consensus
defer_deadline env s =
    let (time, after) = now env s in
    record after { m_election_deadline = time + s.m_election_timeout }

unfoldable pub acknowledge_leader : Env → ℤ → Consensus → Consensus
unfolding defer_deadline
acknowledge_leader env term s =
    if not (is_follower s.m_state)
    then reset_to_follower env term s
    else defer_deadline env (schedule_election env term s)

-- Whether the two logs agree at the index before the entries.
unfoldable pub agrees_at : ℤ → ℤ → RaftLog.RaftLog → Result Bool
agrees_at prev_log_index prev_log_term l =
    if eqb_ℤ prev_log_index minus_one
    then ok true
    else if ltb_ℤ prev_log_index (RaftLog.size l)
    then (do e ← RaftLog.entry prev_log_index l; ok (eqb_ℤ prev_log_term e.term))
    else ok false

-- The branch for a request of the term of the node; with `success`.
unfoldable pub accept_entries : Env → AppendEntriesRequest → Consensus → Result (Bool × Consensus)
unfolding acknowledge_leader agrees_at merge_entries follow_commit_index
accept_entries env request s = do
  let acknowledged = acknowledge_leader env request.term s
  agreed ← agrees_at request.prev_log_index request.prev_log_term acknowledged.log
  if not agreed then ok (false, acknowledged) else (do
    merged ←
        merge_entries (request.prev_log_index +ℤ ℤ.pos 1) request.entries
          (record acknowledged { m_leader_id = request.leader_id })
    committed ← follow_commit_index request.leader_commit merged
    ok (true, committed))

-- `ProcessAppendEntriesClientRequest`
unfoldable pub handle_append_entries :
    Env → AppendEntriesRequest → Consensus → Result (Consensus × AppendEntriesResponse × Status)
unfolding accept_entries
handle_append_entries env request s =
    if is_dead s.m_state
    then ok (s, record { term = ℤ.pos 0; success = false }, status_cancelled)
    else (do
      let followed = follow_term env request.term s
      (success, accepted) ←
          (if eqb_ℤ request.term followed.m_term
            then accept_entries env request followed
            else ok (false, followed))
      let deferred = defer_deadline env (schedule_election env request.term accepted)
      ok (deferred, record { term = deferred.m_term; success = success }, status_ok))
