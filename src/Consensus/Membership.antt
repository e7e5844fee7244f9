-- ===== src/Consensus/Membership.antt =====
-- consensus_module.cpp: the handlers that read and change the cluster. A handler that waits on a
-- condition variable is cut there: each piece runs from one wait to the next, on the state that the
-- other handlers have left.
use maelstromdb.Base.{
  ℤ, List, [], Bool, true, false, if◌then◌else◌, ltb_ℤ, leb_ℤ, not, ◌==◌, ◌&&◌, ◌||◌, text_eq,
  int_eq, Text, map,
}
use maelstromdb.Base.Result.{Result, ok, ◌>>=◌}
use maelstromdb.Protos.{
  Configuration, Server, configuration_set, configuration, Status, status_ok, status_error,
  ErrorCode, not_leader, timeout, out_of_date,
}
use maelstromdb.Config
use maelstromdb.Consensus.State.{Consensus, connect, is_leader}
use maelstromdb.Consensus.Roles.{append_entry}

-- `ConstructError`
unfoldable pub construct_error : ErrorCode → Consensus → Status
construct_error code s = status_error code (elim code [ not_leader ↦ s.m_leader_id | _ ↦ [] ])

-- `ProcessGetConfigurationClientRequest`: the two guards make a tuple and do not return it.
unfoldable pub handle_get_configuration : Consensus → (ℤ × List Server) × Status
handle_get_configuration s = (
  (s.m_configuration.m_id, s.m_configuration.m_current_configuration.prev_configuration),
  status_ok,
)

-- raft.proto: SetConfiguration.Request
pub record SetConfigurationRequest : Type 0 where
  pub old_id : ℤ
  pub new_servers : List Server

-- Where a call of `ProcessSetConfigurationClientRequest` stands: it has replied, it is at the
-- head of the loop that waits for the log sync, or it waits for the commit of the configuration
-- after the one with the index `joint_id`.
pub data ChangeStage : Type 0 where
  replied : Bool → Status → ChangeStage
  syncing : ℤ → Configuration → ChangeStage
  committing : ℤ → ℤ → ChangeStage

unfoldable pub server_address : Server → Text
server_address server = server.address

-- `new_configuration`: the servers of the current configuration and those of the request.
unfoldable pub joint_configuration : SetConfigurationRequest → Consensus → Configuration
joint_configuration request s = record {
  prev_configuration = s.m_configuration.m_current_configuration.prev_configuration;
  next_configuration = request.new_servers;
}

unfoldable pub begin_change : SetConfigurationRequest → Consensus → Result (ChangeStage × Consensus)
unfolding construct_error server_address joint_configuration
begin_change request s =
    if not (is_leader s.m_state)
    then ok (replied false (construct_error not_leader s), s)
    else if not (s.m_configuration.m_id == request.old_id)
    then ok (replied false (construct_error out_of_date s), s)
    else (do
      c ←
          Config.start_log_sync s.m_commit_index (map server_address request.new_servers)
            s.m_configuration
      connected ← connect (record s { m_configuration = c })
      ok (syncing s.m_term (joint_configuration request s), connected))

-- The log sync is given up.
unfoldable pub give_up : ErrorCode → Consensus → ChangeStage × Consensus
unfolding construct_error
give_up code s = (
  replied false (construct_error code s),
  record s { m_configuration = Config.cancel_log_sync s.m_configuration },
)

-- The head of the loop: the end of the sync, the loss of the leadership, or a wait.
unfoldable pub head_of_sync : ℤ → Configuration → Consensus → Result (ChangeStage × Consensus)
unfolding give_up
head_of_sync saved_term joint s = do
  complete ← Config.sync_complete s.m_configuration
  if complete
      then (do
        (joint_id, appended) ←
            append_entry
              (record { term = s.m_term; type = configuration; log_data = configuration_set joint })
              s
        ok (committing joint_id saved_term, appended))
      else if not (s.m_term == saved_term)
      then ok (give_up not_leader s)
      else ok (syncing saved_term joint, s)

-- The end of `wait_for`, by a notification or by the timeout.
unfoldable pub after_wait : ℤ → Configuration → Consensus → Result (ChangeStage × Consensus)
unfolding head_of_sync
after_wait saved_term joint s = do
  progress ← Config.sync_progress s.m_configuration
  if not progress then ok (give_up timeout s) else head_of_sync saved_term joint s

-- A later configuration than the one with the index `joint_id` is committed.
unfoldable pub is_handed_over : ℤ → Consensus → Bool
is_handed_over joint_id s =
    ltb_ℤ joint_id s.m_configuration.m_id && leb_ℤ s.m_configuration.m_id s.m_commit_index

-- A wake-up in the wait for the commit: the handler waits on where the condition does not hold.
unfoldable pub after_commit : ℤ → ℤ → Consensus → ChangeStage
unfolding is_handed_over construct_error
after_commit joint_id saved_term s =
    if not (is_handed_over joint_id s || not (s.m_term == saved_term))
    then committing joint_id saved_term
    else if is_handed_over joint_id s
    then replied true status_ok
    else replied false (construct_error not_leader s)
