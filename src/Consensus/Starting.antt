-- ===== src/Consensus/Starting.antt =====
-- `StateMachineInit` of consensus_module.cpp, over a log.
use maelstromdb.Base.{
  ℤ, ◌≡◌, refl, ◌∙◌, List, [], ◌∷◌, Option, none, some, false, Text, arith, Bool-cases, inl, inr,
  ◌⊎◌, ◌==◌, text_eq, assign, minus_one, ◌≢◌, eqb_ℤ, eqb_ℤ-sound,
}
use maelstromdb.Base.Result.{ok}
use maelstromdb.Protos.{Configuration, LogMetadata, has_configuration, LogEntry, no_op, not_set}
use maelstromdb.Config
use maelstromdb.Config.{is_sync, server_addresses, log_sync}
use maelstromdb.Consensus.RaftLog
use maelstromdb.Consensus.RaftLog.{RaftLog}
use maelstromdb.Consensus.State.{
  Env, Consensus, new_consensus, connect, emit, create_connections, candidate, leader,
}
use maelstromdb.Consensus.Roles.{
  state_machine_init, init_indices, restore_metadata, restore_configuration, create_timers,
  initialize_configuration, promote_to_leader, append_entry, schedule_heartbeat,
}

-- What the start of a node leaves of a state.
record Kept (s t : Consensus) : Type 0 where
  pub term : t.m_term ≡ s.m_term
  pub vote : t.m_vote ≡ s.m_vote
  pub log : t.log ≡ s.log
  pub state : t.m_state ≡ s.m_state
  pub sync : is_sync t.m_configuration.m_state ≡ is_sync s.m_configuration.m_state

init_indices-Kept : (peers : List Text) (s : Consensus) → Kept s (init_indices peers s)
unfolding init_indices
init_indices-Kept [] s = record { term = refl; vote = refl; log = refl; state = refl; sync = refl }
init_indices-Kept (peer ∷ peers) s = elim (Bool-cases (peer == s.address)) [
  | inl own ↦ rw own (init_indices-Kept peers s)
  | inr other ↦
      let next = record s {
        m_next_index = assign peer (ℤ.pos 0) s.m_next_index;
        m_match_index = assign peer minus_one s.m_match_index;
      } in
      let h = init_indices-Kept peers next in
      rw other
        (record { term = h.term; vote = h.vote; log = h.log; state = h.state; sync = h.sync })
]

restore_configuration-Kept :
    (latest : Option (ℤ × Configuration)) (s : Consensus)
    → is_sync s.m_configuration.m_state ≡ false
    → Kept s (restore_configuration latest s)
unfolding restore_configuration is_sync Config.set_configuration
restore_configuration-Kept none s h = record {
  term = refl;
  vote = refl;
  log = refl;
  state = refl;
  sync = refl;
}
restore_configuration-Kept (some (log_index, c)) s h = record {
  term = refl;
  vote = refl;
  log = refl;
  state = refl;
  sync = ground arith;
}

-- A node that starts over a log with the metadata.
pub record IsStarted (log : RaftLog) (m : LogMetadata) (t : Consensus) : Type 0 where
  pub in_term : t.m_term ≡ m.term
  pub voted : t.m_vote ≡ m.vote
  pub same_log : t.log ≡ log
  pub no_leader : t.m_state ≡ candidate
  pub no_election : t.m_election_timer ≡ none
  pub no_heartbeat : t.m_heartbeat_timer ≡ false
  pub no_lease : t.m_lease_timer ≡ none
  pub no_sync : is_sync t.m_configuration.m_state ≡ false

-- The log returns the metadata, or was never given any.
abbrev pub Restores : LogMetadata → RaftLog → Type 0
Restores m log =
    (RaftLog.restored log ≡ some m)
    ⊎ ((RaftLog.restored log ≡ none) × (m.term ≡ ℤ.pos 0) × (m.vote ≡ []))

metadata_restored :
    (env : Env) (address : Text) (log : RaftLog) (m : LogMetadata)
    → Restores m log
    → restore_metadata (new_consensus env address log)
      ≡ record (new_consensus env address log) { m_term = m.term; m_vote = m.vote }
unfolding restore_metadata new_consensus
metadata_restored env address log m (inl found) = rw (restore_metadata, found) refl
metadata_restored env address log m (inr (absent, term, vote)) =
    rw (restore_metadata, absent, term, vote) refl

pub state_machine_init-IsStarted :
    (env : Env) (latest : Option (ℤ × Configuration)) (address : Text) (log : RaftLog)
    (m : LogMetadata)
    → Restores m log
    → (t : Consensus) × (state_machine_init latest (new_consensus env address log) ≡ ok t)
      × IsStarted log m t
unfolding state_machine_init restore_metadata new_consensus connect emit create_timers is_sync
    server_addresses
state_machine_init-IsStarted env latest address log m stored =
    let s = record (new_consensus env address log) { m_term = m.term; m_vote = m.vote } in
    let restored = restore_configuration-Kept latest s refl in
    let still : is_sync (restore_configuration latest s).m_configuration.m_state ≡ false =
      restored.sync in
    let begun = restore_configuration latest s in
    let peers = begun.m_configuration.m_addresses in
    let connected = emit (create_connections peers) begun in
    let indexed = init_indices-Kept peers connected in
    (
      create_timers (init_indices peers connected),
      rw (metadata_restored env address log m stored) (rw still (rw still refl)),
      record {
        in_term = indexed.term ∙ restored.term;
        voted = indexed.vote ∙ restored.vote;
        same_log = indexed.log ∙ restored.log;
        no_leader = indexed.state ∙ restored.state;
        no_election = refl;
        no_heartbeat = refl;
        no_lease = refl;
        no_sync = indexed.sync ∙ still;
      },
    )

-- In a term other than 0, `InitializeConfiguration` makes the node the leader of it.
pub initialize_configuration-leads :
    (s : Consensus)
    → is_sync s.m_configuration.m_state ≡ false
    → s.m_term ≢ ℤ.pos 0
    → (t : Consensus) × (initialize_configuration s ≡ ok t)
      × (t.m_state ≡ leader)
      × (t.m_term ≡ s.m_term)
      × (t.m_vote ≡ s.m_vote)
unfolding initialize_configuration promote_to_leader append_entry schedule_heartbeat
    server_addresses has_configuration
initialize_configuration-leads s alone used =
    let entered : eqb_ℤ s.m_term (ℤ.pos 0) ≡ false = elim (Bool-cases (eqb_ℤ s.m_term (ℤ.pos 0))) [
      | inl zero ↦ absurd (used (eqb_ℤ-sound s.m_term (ℤ.pos 0) zero))
      | inr other ↦ other
    ] in
    let first : LogEntry = record { term = s.m_term; type = no_op; log_data = not_set } in
    let promoted = schedule_heartbeat (record s {
      m_state = leader;
      m_votes_received = 0;
      m_leader_id = s.address;
      m_election_timer = none;
      log = RaftLog.append (first ∷ []) s.log;
    }) in
    (promoted, rw (alone, entered) refl, refl, refl, refl)
