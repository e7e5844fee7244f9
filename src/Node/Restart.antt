-- ===== src/Node/Restart.antt =====
-- What a node is after a crash and a restart from its files.
use maelstromdb.Base.{
  inl, inr, refl, ℤ, ◌≡◌, sym, ap, ◌∙◌, none, Bool, false, true, ◌≢◌, Text, if◌then◌else◌, arith,
  List,
}
use maelstromdb.Base.Result.{ok, ◌>>=◌}
use maelstromdb.Storage.{PersistedLog}
use maelstromdb.Storage.Chain.{IsWellFormed}
use maelstromdb.Storage.Refinement.{raft_log}
use maelstromdb.Storage.Restore.{StoredFile, restored_log}
use maelstromdb.Storage.MetadataFiles.{MetadataFiles, IsCurrent, never_set, in_first, in_second}
use maelstromdb.Storage.Saved.{stored_files, restored_log-stored_files}
use maelstromdb.Consensus.RaftLog
use maelstromdb.Consensus.RaftLog.{RaftLog}
use maelstromdb.Consensus.State.{Env, Consensus, candidate, leader}
use maelstromdb.Config.{is_sync}
use maelstromdb.Consensus.Roles.{initialize_configuration}
use maelstromdb.Consensus.Starting.{
  Restores, state_machine_init-IsStarted, initialize_configuration-leads,
}
use maelstromdb.Consensus.Votes.{IsPersisted}
use maelstromdb.Node.{initialize_consensus, new_context, latest_of, max_file_size}

-- The node's log is a well-formed one, with a directory that has a file for each of its pages, with
-- the entries of the page, and the two metadata files, and no other.
pub record IsOnDisk (s : Consensus) (files : List StoredFile) : Type 0 where
  pub log : PersistedLog
  pub wf : IsWellFormed log
  pub same_log : raft_log log ≡ s.log
  pub metadata_files : MetadataFiles
  pub current : IsCurrent log.m_metadata metadata_files
  pub same_files : files ≡ stored_files metadata_files wf.page wf.closed

-- A node that starts from the files of another, before it may lead.
pub record IsRestarted (s t : Consensus) : Type 0 where
  pub same_term : t.m_term ≡ s.m_term
  pub same_vote : t.m_vote ≡ s.m_vote
  pub no_leader : t.m_state ≡ candidate
  pub no_election : t.m_election_timer ≡ none
  pub no_heartbeat : t.m_heartbeat_timer ≡ false
  pub no_lease : t.m_lease_timer ≡ none
  pub no_sync : is_sync t.m_configuration.m_state ≡ false

IsCurrent-Restores :
    (fs : MetadataFiles) (l : PersistedLog)
    → IsCurrent l.m_metadata fs
    → Restores l.m_metadata (raft_log l)
unfolding RaftLog.restored raft_log
IsCurrent-Restores fs l (never_set same first second) =
    inr ((rw same refl, ap (λ m. m.term) same, ap (λ m. m.vote) same))
IsCurrent-Restores fs l (in_first n version even first second) = inl (ground arith)
IsCurrent-Restores fs l (in_second n version odd second first) = inl (ground arith)

-- The node that `initialize_configuration` is called on, if it starts as the leader, over any log
-- that was restored with the metadata of the node.
pub restart :
    (env : Env) (files : List StoredFile) (address : Text) (s : Consensus) (fs : MetadataFiles)
    (l : PersistedLog)
    → IsPersisted s
    → IsCurrent s.log.log_metadata fs
    → restored_log max_file_size files ≡ ok l
    → l.m_metadata ≡ s.log.log_metadata
    → (t : Consensus) × ((leads : Bool)
        → initialize_consensus env files address leads
          ≡ (if leads then initialize_configuration t else ok t))
      × IsRestarted s t
      × (t.log ≡ raft_log l)
unfolding initialize_consensus new_context
restart env files address s fs l persisted current restored kept =
    let begun =
      state_machine_init-IsStarted env (latest_of l) address (raft_log l) l.m_metadata
        (IsCurrent-Restores fs l (rw kept current)) in
    (
      begun.0,
      λ leads.
          rw restored
            (ap (λ q. q >>= (λ t. if leads then initialize_configuration t else ok t)) begun.1),
      record {
        same_term = begun.2.in_term ∙ ap (λ m. m.term) kept ∙ persisted.term_stored;
        same_vote = begun.2.voted ∙ ap (λ m. m.vote) kept ∙ persisted.vote_stored;
        no_leader = begun.2.no_leader;
        no_election = begun.2.no_election;
        no_heartbeat = begun.2.no_heartbeat;
        no_lease = begun.2.no_lease;
        no_sync = begun.2.no_sync;
      },
      begun.2.same_log,
    )

restart_on_disk :
    (env : Env) (files : List StoredFile) (address : Text) (s : Consensus)
    → IsPersisted s
    → IsOnDisk s files
    → (t : Consensus) × ((leads : Bool)
        → initialize_consensus env files address leads
          ≡ (if leads then initialize_configuration t else ok t))
      × IsRestarted s t
      × (t.log ≡ s.log)
unfolding raft_log
restart_on_disk env files address s persisted disk =
    let l = disk.log in
    let fs = disk.metadata_files in
    let (r, restored, entries, size, metadata, page, wf) =
      restored_log-stored_files max_file_size l disk.wf fs disk.current in
    let view : raft_log r ≡ raft_log l =
      λ i. record { log_entries = entries i; log_metadata = metadata i } in
    let kept : l.m_metadata ≡ s.log.log_metadata = ap (λ d. d.log_metadata) disk.same_log in
    let (t, started, again, log) =
      restart env files address s fs r persisted (rw⁻¹ kept disk.current)
        (rw disk.same_files restored) (metadata ∙ kept) in
    (t, started, again, log ∙ view ∙ disk.same_log)

-- A node whose term and vote are on disk, and that starts again, not as the leader, from a
-- directory with a file for each page of its log, that holds the entries of the page, with its two
-- metadata files, of which the newer one counts, and with no other file, succeeds: it has the term,
-- the vote and the log that it had, and it is a candidate whose three timers do not run.
pub initialize_consensus-IsRestarted :
    (env : Env) (files : List StoredFile) (address : Text) (s : Consensus)
    → IsPersisted s
    → IsOnDisk s files
    → (t : Consensus) × (initialize_consensus env files address false ≡ ok t)
      × IsRestarted s t
      × (t.log ≡ s.log)
initialize_consensus-IsRestarted env files address s persisted disk =
    let (t, started, restarted, log) = restart_on_disk env files address s persisted disk in
    (t, started false, restarted, log)

-- A node whose term and vote are on disk, and whose term is not 0, and that starts again as the
-- leader from a directory with a file for each page of its log, that holds the entries of the page,
-- with its two metadata files, of which the newer one counts, and with no other file, leads the
-- term that it was in, whatever its vote in it was.
pub initialize_consensus-leads :
    (env : Env) (files : List StoredFile) (address : Text) (s : Consensus)
    → IsPersisted s
    → IsOnDisk s files
    → s.m_term ≢ ℤ.pos 0
    → (t : Consensus) × (initialize_consensus env files address true ≡ ok t)
      × (t.m_state ≡ leader)
      × (t.m_term ≡ s.m_term)
      × (t.m_vote ≡ s.m_vote)
initialize_consensus-leads env files address s persisted disk used =
    let (t, started, restarted, log) = restart_on_disk env files address s persisted disk in
    let (u, led, leads, term, vote) =
      initialize_configuration-leads t restarted.no_sync
        (λ zero. used (sym restarted.same_term ∙ zero)) in
    (u, started true ∙ led, leads, term ∙ restarted.same_term, vote ∙ restarted.same_vote)
