-- ===== src/Consensus/Replication.antt =====
-- consensus_module.cpp: which entries are committed, and what a commit wakes and applies.
use maelstromdb.Base.{
  ℕ, zero, suc, ℤ, List, [], ◌∷◌, Bool, if◌then◌else◌, ◌+ℤ◌, ◌-ℤ◌, leb_ℤ, eqb_ℤ, not, ◌==◌, ◌&&◌,
  text_eq, int_eq, Text, insert_set, pos_part,
}
use maelstromdb.Base.Result.{Result, ok, ◌>>=◌}
use maelstromdb.Protos.{LogEntry, configuration_set, configuration, register_client, write}
use maelstromdb.Config
use maelstromdb.Consensus.RaftLog
use maelstromdb.Consensus.State.{
  Env, Consensus, emit, index_of, notify_membership, notify_write, notify_session,
}
use maelstromdb.Consensus.Roles.{append_entry, reset_to_follower}

unfoldable pub commit_entry : LogEntry → Consensus → Consensus
commit_entry e s = elim e.type [
  | write ↦ emit notify_write s
  | register_client ↦ emit notify_session s
  | _ ↦ s
]

unfoldable pub commit_entries : List LogEntry → Consensus → Consensus
commit_entries [] s = s
commit_entries (e ∷ es) s = commit_entries es (commit_entry e s)

-- The `count` entries that follow the index `last`.
unfoldable pub next_entries : ℕ → ℤ → RaftLog.RaftLog → Result (List LogEntry)
next_entries zero last l = ok []
next_entries (suc count) last l = do
  e ← RaftLog.entry (last +ℤ ℤ.pos 1) l
  es ← next_entries count (last +ℤ ℤ.pos 1) l
  ok (e ∷ es)

-- The loop from the last applied entry to the new commit index.
unfoldable pub uncommitted : ℤ → Consensus → Result (List LogEntry)
unfolding next_entries
uncommitted new_commit_index s =
    let last_applied = s.m_state_machine.m_last_applied in
    next_entries (pos_part (new_commit_index -ℤ last_applied)) last_applied s.log

-- The servers whose logs match up to the index.
unfoldable pub insert_matching : Consensus → ℤ → List Text → List Text → List Text
insert_matching s i [] peers = peers
insert_matching s i (peer ∷ rest) peers =
    insert_matching s i rest
      (if leb_ℤ i (index_of peer s.m_match_index) then insert_set peer peers else peers)

unfoldable pub match_peers : Consensus → List Text → ℤ → List Text
unfolding insert_matching
match_peers s addresses i = insert_matching s i addresses (s.address ∷ [])

-- Whether the entry with the index `i` is to be committed.
unfoldable pub is_committed : Consensus → List Text → ℤ → LogEntry → Bool
unfolding match_peers
is_committed s addresses i e =
    eqb_ℤ e.term s.m_term && Config.check_quorum (match_peers s addresses i) s.m_configuration

-- The first loop of `UpdateCommitIndex`, over entries whose first has the index `i`.
unfoldable pub scan_commit : Consensus → List Text → ℤ → List LogEntry → ℤ → ℤ
scan_commit s addresses i [] new_commit_index = new_commit_index
scan_commit s addresses i (e ∷ es) new_commit_index =
    scan_commit s addresses (i +ℤ ℤ.pos 1) es
      (if is_committed s addresses i e then i else new_commit_index)

-- The commit index moves, and the waiting handlers wake.
unfoldable pub advance_commit_index : ℤ → Consensus → Result Consensus
unfolding commit_entries uncommitted
advance_commit_index new_commit_index s =
    if not (new_commit_index == s.m_commit_index)
    then (do
      es ← uncommitted new_commit_index s
      ok (commit_entries es (record s { m_commit_index = new_commit_index })))
    else ok s

-- The second half of a change of the cluster: the servers of the next configuration alone.
unfoldable pub handover_entry : Consensus → LogEntry
handover_entry s = record {
  term = s.m_term;
  type = configuration;
  log_data = configuration_set (record {
    prev_configuration = s.m_configuration.m_current_configuration.next_configuration;
    next_configuration = [];
  });
}

-- The end of `UpdateCommitIndex`.
unfoldable pub complete_configuration : Env → Consensus → Result Consensus
unfolding handover_entry
complete_configuration env s =
    if not (leb_ℤ s.m_configuration.m_id s.m_commit_index) then ok s else (do
      let notified = emit notify_membership s
      known ← Config.known_server s.address s.m_configuration
      if not known
          then ok (reset_to_follower env (s.m_term +ℤ ℤ.pos 1) notified)
          else if Config.is_joint s.m_configuration.m_state
          then (do (_, appended) ← append_entry (handover_entry s) notified; ok appended)
          else ok notified)

unfoldable pub update_commit_index : Env → Consensus → Result Consensus
unfolding scan_commit advance_commit_index complete_configuration
update_commit_index env s = do
  let start = s.m_commit_index +ℤ ℤ.pos 1
  es ← RaftLog.range start (RaftLog.size s.log) s.log
  addresses ← Config.server_addresses s.m_configuration
  advanced ← advance_commit_index (scan_commit s addresses start es s.m_commit_index) s
  complete_configuration env advanced
