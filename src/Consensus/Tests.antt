-- ===== src/Consensus/Tests.antt =====
-- A cluster of three servers, and what the consensus module does in it.
mod RunTests
mod EntryTests
mod ReplyTests
mod RetryTests
use maelstromdb.Base.{
  ℕ, ℤ, ◌+◌, ◌%◌, ◌≤ℤ◌, arith, text_eqb, ◌≡◌, refl, ◌⊎◌, Text, List, [], ◌∷◌, ◌+ℤ◌, ◌-ℤ◌, contains,
  insert_set, find, assign, ◌==◌, ◌&&◌, ◌||◌, leb_ℤ, text_eq, int_eq, true,
}
use maelstromdb.Base.Result.{ok}
use maelstromdb.Protos.{
  LogEntry, RequestVoteRequest, Server, Configuration, configuration, configuration_set, write,
  data_set, RequestVoteResponse,
}
use maelstromdb.Config
use maelstromdb.Config.{ClusterConfiguration, is_sync, is_joint}
use maelstromdb.Consensus.RaftLog
use maelstromdb.Consensus.State.{
  Env, Consensus, Effect, new_consensus, follower, leader, is_dead, is_leader, now, index_of,
  candidate, is_candidate,
}
use maelstromdb.Consensus.Roles.{store_state, schedule_election, reset_to_follower}
use maelstromdb.Consensus.Voting.{
  is_up_to_date, may_grant, decide_vote, follow_term, handle_request_vote, handle_vote_response,
}
use maelstromdb.Consensus.Votes.{IsPersisted, Granted, after_requests, handle_request_vote-Granted}
use maelstromdb.Consensus.Following.{merge_entries}
use maelstromdb.Consensus.Merge.{overlay}
use maelstromdb.Consensus.Merged.{HasEarlier, merge_entries-overlay}
use maelstromdb.Consensus.Replication.{is_committed, scan_commit, match_peers, insert_matching}
use maelstromdb.Consensus.Winning.{IsOutdated, IsWon, IsOpen, IsVoid, handle_vote_response_lem}
use maelstromdb.Consensus.Commit.{NoneFrom, IsLast, scan_commit-IsLast}

program : Unit {0}
unfolding text_eqb is_up_to_date may_grant decide_vote follow_term handle_request_vote
    after_requests store_state schedule_election reset_to_follower now is_dead is_leader
    RaftLog.set_metadata RaftLog.last_term RaftLog.last_term_of RaftLog.last_index RaftLog.size ◌+ℤ◌
    ◌-ℤ◌ new_consensus is_sync is_joint find contains insert_set index_of assign overlay
    is_committed scan_commit match_peers insert_matching Config.check_quorum Config.count_votes
    HasEarlier
program = tt

abbrev clocks : Env
clocks = record { clock = λ n. n + 5000; distr = λ n. 1000 + n % 151 }

abbrev a : Text
a = b'a' ∷ []

abbrev b : Text
b = b'b' ∷ []

abbrev c : Text
c = b'c' ∷ []

abbrev server : Text → Server
server t = record { address = t }

abbrev three : Configuration
three = record { prev_configuration = server a ∷ server b ∷ server c ∷ []; next_configuration = [] }

abbrev configuration_entry : LogEntry
configuration_entry = record {
  term = ℤ.pos 0;
  type = configuration;
  log_data = configuration_set three;
}

abbrev write_entry : ℕ → LogEntry
write_entry t = record {
  term = ℤ.pos t;
  type = write;
  log_data = data_set (b'k' ∷ b':' ∷ b'v' ∷ []);
}

abbrev log : RaftLog.RaftLog
log = record {
  log_entries = configuration_entry ∷ write_entry 1 ∷ write_entry 1 ∷ [];
  log_metadata = record { version = ℤ.pos 1; term = ℤ.pos 1; vote = [] };
}

-- A follower of term 1 whose election deadline is past.
abbrev node : Consensus
node = record (new_consensus clocks a log) {
  m_state = follower;
  m_term = ℤ.pos 1;
  m_election_deadline = 100;
  m_configuration = record Config.initial {
    m_id = ℤ.pos 0;
    m_state = Config.stable;
    m_current_configuration = three;
    m_addresses = a ∷ b ∷ c ∷ [];
    m_configurations = (ℤ.pos 0, three) ∷ [];
  };
}

abbrev request : Text → RequestVoteRequest
request candidate_id = record {
  term = ℤ.pos 2;
  candidate_id = candidate_id;
  last_log_index = ℤ.pos 2;
  last_log_term = ℤ.pos 1;
}

-- The node of term 1 as the leader, with both peers known to have the log up to index 1, and one of
-- them up to index 2.
abbrev leading : Consensus
leading = record node { m_state = leader; m_match_index = (b, ℤ.pos 2) ∷ (c, ℤ.pos 1) ∷ [] }

handle_request_vote-Granted_example :
    Granted clocks (request b) node (handle_request_vote clocks (request b) node).0
unfolding program
handle_request_vote-Granted_example = handle_request_vote-Granted clocks (request b) node refl

merge_entries-overlay_example :
    (d : ClusterConfiguration) × (effects : List Effect) × (merge_entries
        (ℤ.pos 1)
        (write_entry 1 ∷ write_entry 2 ∷ [])
        node
      ≡ ok (record node {
        m_configuration = d;
        effects = effects;
        log = record log { log_entries = configuration_entry ∷ write_entry 1 ∷ write_entry 2 ∷ [] };
      }))
unfolding program
merge_entries-overlay_example =
    merge_entries-overlay (configuration_entry ∷ []) (write_entry 1 ∷ write_entry 1 ∷ [])
      (write_entry 1 ∷ write_entry 2 ∷ []) node refl refl (ℤ.pos 0, three, refl, omega arith)

scan_commit-IsLast_example :
    (((scan_commit leading (a ∷ b ∷ c ∷ []) (ℤ.pos 1) (write_entry 1 ∷ write_entry 1 ∷ []) (ℤ.pos 0)
          ≡ ℤ.pos 0)
        × NoneFrom leading (a ∷ b ∷ c ∷ []) 1 (write_entry 1 ∷ write_entry 1 ∷ []))
      ⊎ IsLast leading (a ∷ b ∷ c ∷ []) 1 (write_entry 1 ∷ write_entry 1 ∷ []) (
          scan_commit leading
            (a ∷ b ∷ c ∷ [])
            (ℤ.pos 1)
            (write_entry 1 ∷ write_entry 1 ∷ [])
            (ℤ.pos 0)))
    × ((j : ℤ) (t : Text)
        → contains t (match_peers leading (a ∷ b ∷ c ∷ []) j)
          ≡ (a == t || (contains t (a ∷ b ∷ c ∷ []) && leb_ℤ j (index_of t leading.m_match_index))))
unfolding program
scan_commit-IsLast_example =
    scan_commit-IsLast leading (a ∷ b ∷ c ∷ []) 1 (write_entry 1 ∷ write_entry 1 ∷ []) (ℤ.pos 0)

-- Two of the three servers have the entry with index 2.
commits_two :
    scan_commit leading (a ∷ b ∷ c ∷ []) (ℤ.pos 1) (write_entry 1 ∷ write_entry 1 ∷ []) (ℤ.pos 0)
    ≡ ℤ.pos 2
unfolding program
commits_two = refl

-- The node as a candidate of term 1, with its own vote.
abbrev standing : Consensus
standing = record node { m_state = candidate; m_votes_received = 1 }

abbrev first_request : RequestVoteRequest
first_request = record {
  term = ℤ.pos 1;
  candidate_id = a;
  last_log_index = ℤ.pos 2;
  last_log_term = ℤ.pos 1;
}

abbrev granted : RequestVoteResponse
granted = record { term = ℤ.pos 1; vote_granted = true }

handle_vote_response_lem_example :
    (t : Consensus) × (handle_vote_response clocks first_request granted standing ≡ ok t)
    × (IsOutdated first_request granted t
        ⊎ ((IsWon first_request granted standing t ⊎ IsOpen first_request granted standing t)
            ⊎ IsVoid first_request granted standing t))
unfolding program is_candidate
handle_vote_response_lem_example =
    handle_vote_response_lem clocks first_request granted standing refl refl
