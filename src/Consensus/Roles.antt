-- ===== src/Consensus/Roles.antt =====
-- The changes of role in consensus_module.cpp, and what they store and schedule.
use maelstromdb.Base.{
  ℤ, ◌+◌, List, [], ◌∷◌, true, false, Option, none, some, if◌then◌else◌, ◌+ℤ◌, eqb_ℤ, eqb, length,
  not, ◌==◌, ◌||◌, text_eq, minus_one, assign, Text,
}
use maelstromdb.Base.Result.{Result, ok, ◌>>=◌}
use maelstromdb.Protos.{
  LogEntry, Configuration, not_set, configuration_set, no_op, configuration, has_configuration,
  configuration_of,
}
use maelstromdb.Config
use maelstromdb.Consensus.RaftLog
use maelstromdb.Consensus.State.{Env, Consensus, leader, follower, dead, connect}

unfoldable pub store_state : Consensus → Consensus
store_state s = record s {
  log = RaftLog.set_metadata (record { version = ℤ.pos 0; term = s.m_term; vote = s.m_vote }) s.log;
}

module _ (env : Env) where
  unfoldable pub schedule_election : ℤ → Consensus → Consensus
  schedule_election term s =
      let random_timeout = env.distr s.draws in
      record s {
        m_election_timer = some (term, random_timeout);
        m_election_timeout = random_timeout;
        draws = s.draws + 1;
      }

  unfoldable pub reset_to_follower : ℤ → Consensus → Consensus
  unfolding schedule_election store_state
  reset_to_follower term s = schedule_election term (
      store_state (record s {
        m_state = follower;
        m_renew_lease = false;
        m_lease_holder = false;
        m_term = term;
        m_vote = [];
        m_votes_received = 0;
        m_heartbeat_timer = false;
        m_lease_timer = none;
      }))

unfoldable pub schedule_heartbeat : Consensus → Consensus
schedule_heartbeat s = record s { m_heartbeat_timer = true }

unfoldable pub shutdown : Consensus → Consensus
shutdown s = record s { m_election_timer = none; m_heartbeat_timer = false; m_state = dead }

-- `Append(log_entry)`, with the index of the entry.
unfoldable pub append_entry : LogEntry → Consensus → Result (ℤ × Consensus)
append_entry e s =
    let log_index = RaftLog.size s.log in
    let appended = record s { log = RaftLog.append (e ∷ []) s.log } in
    if has_configuration e
    then (do
      c ← Config.insert_new_configuration log_index (configuration_of e) s.m_configuration
      connected ← connect (record appended { m_configuration = c })
      ok (log_index, connected))
    else ok (log_index, appended)

-- The loop of `Append(log_entries)` over entries whose first has the index `log_index`.
unfoldable pub insert_configurations : ℤ → List LogEntry → Consensus → Result Consensus
insert_configurations log_index [] s = ok s
insert_configurations log_index (e ∷ es) s =
    if has_configuration e
    then (do
      c ← Config.insert_new_configuration log_index (configuration_of e) s.m_configuration
      connected ← connect (record s { m_configuration = c })
      insert_configurations (log_index +ℤ ℤ.pos 1) es connected)
    else insert_configurations (log_index +ℤ ℤ.pos 1) es s

-- `Append(log_entries)`
unfoldable pub append_entries : List LogEntry → Consensus → Result Consensus
unfolding insert_configurations
append_entries es s =
    insert_configurations (RaftLog.size s.log) es (record s { log = RaftLog.append es s.log })

unfoldable pub promote_to_leader : Consensus → Result Consensus
unfolding append_entry schedule_heartbeat
promote_to_leader s = do
  (_, promoted) ←
      append_entry (record { term = s.m_term; type = no_op; log_data = not_set })
        (record s {
          m_state = leader;
          m_votes_received = 0;
          m_leader_id = s.address;
          m_election_timer = none;
        })
  ok (schedule_heartbeat promoted)

-- The loop of `StateMachineInit` over the peers.
unfoldable pub init_indices : List Text → Consensus → Consensus
init_indices [] s = s
init_indices (peer ∷ peers) s = init_indices peers (
    if peer == s.address then s else record s {
      m_next_index = assign peer (ℤ.pos 0) s.m_next_index;
      m_match_index = assign peer minus_one s.m_match_index;
    })

-- `m_term.store(metadata.term())` and the vote, where metadata are restored.
unfoldable pub restore_metadata : Consensus → Consensus
restore_metadata s = elim (RaftLog.restored s.log) [
  | none ↦ s
  | some m ↦ record s { m_term = m.term; m_vote = m.vote }
]

-- The three timers: `CreateTimer` starts none of them.
unfoldable pub create_timers : Consensus → Consensus
create_timers s = record s {
  m_election_timer = none;
  m_heartbeat_timer = false;
  m_lease_timer = none;
  lease_term = s.m_term;
}

unfoldable pub restore_configuration : Option (ℤ × Configuration) → Consensus → Consensus
restore_configuration none s = s
restore_configuration (some (log_index, c)) s = record s {
  m_configuration = Config.set_configuration log_index c s.m_configuration;
}

-- `StateMachineInit`; `latest` is what `LatestConfiguration` of the log returns.
unfoldable pub state_machine_init : Option (ℤ × Configuration) → Consensus → Result Consensus
unfolding init_indices restore_metadata create_timers restore_configuration
state_machine_init latest s =
    let restored = restore_metadata s in
    (do
      connected ← connect (restore_configuration latest restored)
      peers ← Config.server_addresses connected.m_configuration
      ok (create_timers (init_indices peers connected)))

-- The entry of the first configuration.
unfoldable pub bootstrap_entry : Text → LogEntry
bootstrap_entry address = record {
  term = ℤ.pos 0;
  type = configuration;
  log_data =
      configuration_set (record {
        prev_configuration = record { address = address } ∷ [];
        next_configuration = [];
      });
}

unfoldable pub initialize_configuration : Consensus → Result Consensus
unfolding promote_to_leader append_entry bootstrap_entry
initialize_configuration s = do
  addresses ← Config.server_addresses s.m_configuration
  let used = not (eqb_ℤ s.m_term (ℤ.pos 0)) || not (eqb_ℤ (RaftLog.last_index s.log) minus_one)
  promoted ← promote_to_leader s
  if used || not (eqb (length addresses) 0)
      then ok promoted
      else (do (_, initialized) ← append_entry (bootstrap_entry s.address) promoted; ok initialized)
