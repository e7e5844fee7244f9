-- ===== src/Node/Tests.antt =====
-- A node that crashes and starts again from its files.
use maelstromdb.Base.{
  ℤ, ◌+◌, ◌≡◌, refl, Text, List, some, [], ◌∷◌, false, true, arith, minus_one, inl, inr, text_eqb,
  contains, find, ◌-ℤ◌,
}
use maelstromdb.Base.Result.{ok}
use maelstromdb.Base.SortedMap
use maelstromdb.Protos.{Server, RequestVoteRequest}
use maelstromdb.Storage.{PersistedLog, in_map}
use maelstromdb.Storage.Chain.{IsWellFormed, contents}
use maelstromdb.Storage.Pages.{new_page}
use maelstromdb.Storage.Refinement.{raft_log}
use maelstromdb.Storage.Restore.{StoredFile, restored_log}
use maelstromdb.Storage.Saved.{stored_files}
use maelstromdb.Storage.MetadataFiles.{
  MetadataFiles, IsCurrent, in_first, earlier, metadata_of, stored_metadata, stored,
}
use maelstromdb.Config.{server_addresses, count_votes}
use maelstromdb.Consensus.RaftLog
use maelstromdb.Consensus.State.{
  Env, Consensus, new_consensus, create_connections, is_dead, now, is_leader, connect, emit, leader,
}
use maelstromdb.Consensus.Roles.{schedule_election, store_state}
use maelstromdb.Consensus.Steps.{request_vote, IsVoteSafe}
use maelstromdb.Consensus.Voting.{handle_request_vote}
use maelstromdb.Consensus.Votes.{IsPersisted}
use maelstromdb.Node.{initialize_consensus, max_file_size}
use maelstromdb.Node.Restart.{
  IsOnDisk, IsRestarted, initialize_consensus-IsRestarted, initialize_consensus-leads,
}
use maelstromdb.Node.Lives.{
  Life, born, next, handled, restarted, AreSafeEvents, IsSafeEvent, Held, Life-IsPersisted,
  single_vote_in_life,
}
use maelstromdb.Node.Elections.{Cluster, single_winner}

program : Unit {0}
unfolding new_consensus raft_log initialize_consensus handle_request_vote restored_log stored_files
    metadata_of stored_metadata stored connect emit server_addresses SortedMap.insert
    RaftLog.restored count_votes contains text_eqb find is_dead now is_leader RaftLog.last_term
    RaftLog.last_term_of contents RaftLog.last_index ◌-ℤ◌ RaftLog.size schedule_election store_state
    AreSafeEvents IsSafeEvent IsVoteSafe Held
program = tt

abbrev clocks : Env
clocks = record { clock = λ n. n + 5000; distr = λ n. 1000 }

abbrev a : Text
a = b'a' ∷ []

abbrev b : Text
b = b'b' ∷ []

-- The log of a node that has voted for `b` in term 2.
abbrev log : PersistedLog
log = record {
  m_metadata = record { version = ℤ.pos 2; term = ℤ.pos 2; vote = b };
  m_log_size = 0;
  m_open_page = in_map 0;
  m_log_indices = (0, new_page 0 max_file_size) ∷ [];
  m_max_file_size = max_file_size;
  m_disk = [];
}

abbrev log-IsWellFormed : IsWellFormed log
log-IsWellFormed = record {
  start = 0;
  page = new_page 0 max_file_size;
  closed = [];
  indices = refl;
  open_in_map = refl;
  shape = record {
    is_open = refl;
    paged = record {
      chain = (record { start = refl; end = refl; count = refl }, refl);
      nonempty = tt;
    };
    limit = refl;
    fits = omega arith;
    blank = λ h. refl;
  };
}

abbrev voter : Consensus
voter = record (new_consensus clocks a (raft_log log)) { m_term = ℤ.pos 2; m_vote = b }

-- The second version is in the first file, and the first one in the second.
abbrev metadata_files : MetadataFiles
metadata_files = record {
  first = some log.m_metadata;
  second = some (record { version = ℤ.pos 1; term = ℤ.pos 1; vote = a });
}

log-IsCurrent : IsCurrent log.m_metadata metadata_files
log-IsCurrent = in_first 1 refl refl refl (earlier _ (omega arith))

abbrev files : List StoredFile
files = stored_files metadata_files (new_page 0 max_file_size) []

voter-IsPersisted : IsPersisted voter
unfolding program
voter-IsPersisted = record { term_stored = refl; vote_stored = refl }

voter-IsOnDisk : IsOnDisk voter files
unfolding program
voter-IsOnDisk = record {
  log = log;
  wf = log-IsWellFormed;
  same_log = refl;
  metadata_files = metadata_files;
  current = log-IsCurrent;
  same_files = refl;
}

initialize_consensus-IsRestarted_example :
    (t : Consensus) × (initialize_consensus clocks files a false ≡ ok t)
    × IsRestarted voter t
    × (t.log ≡ voter.log)
initialize_consensus-IsRestarted_example =
    initialize_consensus-IsRestarted clocks files a voter voter-IsPersisted voter-IsOnDisk

initialize_consensus-leads_example :
    (t : Consensus) × (initialize_consensus clocks files a true ≡ ok t)
    × (t.m_state ≡ leader)
    × (t.m_term ≡ ℤ.pos 2)
    × (t.m_vote ≡ b)
initialize_consensus-leads_example =
    initialize_consensus-leads clocks files a voter voter-IsPersisted voter-IsOnDisk (λ h. cc)

-- The node after its restart.
abbrev again : Consensus
again = record voter { lease_term = ℤ.pos 2; effects = create_connections [] ∷ [] }

-- A candidate of term 2, and a heartbeat of its leader later.
abbrev request : RequestVoteRequest
request = record {
  term = ℤ.pos 2;
  candidate_id = b;
  last_log_index = minus_one;
  last_log_term = minus_one;
}

abbrev voted : Consensus
voted = (handle_request_vote clocks request again).0

-- The node restarts, and is asked once more for its vote in term 2.
abbrev life : Life clocks voter voted
unfolding program
life =
    next (next born (restarted files metadata_files log-IsCurrent refl refl))
      (handled (request_vote request refl))

single_vote_in_life_example : b ≡ b
unfolding program
single_vote_in_life_example =
    single_vote_in_life clocks voter voted (ℤ.pos 2) b b life ((tt, tt), tt) voter-IsPersisted
      (λ h. cc) (λ h. cc) (inl (inl (refl, refl))) (inr (refl, refl))

Life-IsPersisted_example : IsPersisted voted
Life-IsPersisted_example = Life-IsPersisted life voter-IsPersisted

-- Three nodes with the same life.
abbrev cluster : Cluster
unfolding program
cluster = record { env = λ t. clocks; first = λ t. voter; last = λ t. voted; life = λ t. life }

abbrev server : Text → Server
server t = record { address = t }

single_winner_example : b ≡ b
unfolding program
single_winner_example =
    single_winner cluster (server a ∷ server b ∷ server (b'c' ∷ []) ∷ []) (ℤ.pos 2) b b (a ∷ b ∷ [])
      (b ∷ (b'c' ∷ []) ∷ []) (λ t. ((tt, tt), tt)) (λ t. voter-IsPersisted) (λ h. cc) (λ h. cc)
      (omega arith) (omega arith) (λ t h. inl (inl (refl, refl))) (λ t h. inr (refl, refl))
