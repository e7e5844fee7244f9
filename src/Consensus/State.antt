-- ===== src/Consensus/State.antt =====
-- The members of `ConsensusModule`, the messages it sends, and the clock and the random numbers it
-- reads.
use maelstromdb.Base.{
  ℕ, ℤ, ◌+◌, Text, List, [], ◌∷◌, Bool, true, false, Option, none, some, minus_one, find, text_eq,
}
use maelstromdb.Base.Result.{Result, ok, ◌>>=◌}
use maelstromdb.Protos.{LogEntry}
use maelstromdb.Config
use maelstromdb.Config.{ClusterConfiguration}
use maelstromdb.Machine.{StateMachine}
use maelstromdb.Session.{new_cache}
use maelstromdb.Consensus.RaftLog.{RaftLog}

pub data RaftState : Type 0 where
  leader candidate follower dead : RaftState

unfoldable pub is_leader : RaftState → Bool
is_leader leader = true
is_leader _ = false

unfoldable pub is_candidate : RaftState → Bool
is_candidate candidate = true
is_candidate _ = false

unfoldable pub is_follower : RaftState → Bool
is_follower follower = true
is_follower _ = false

unfoldable pub is_dead : RaftState → Bool
is_dead dead = true
is_dead _ = false

abbrev pub election_ms : ℕ
election_ms = 1000

abbrev pub lease_ms : ℕ
lease_ms = 900

-- The `n`th reading of `steady_clock`, in milliseconds, and the `n`th number drawn between
-- ELECTION_TIMEOUT and ELECTION_TIMEOUT + 150.
pub record Env : Type 0 where
  pub clock : ℕ → ℕ
  pub distr : ℕ → ℕ

-- What the module asks of the client side of the RPCs and of its condition variables.
pub data Effect : Type 0 where
  create_connections : List Text → Effect
  -- peer, term, last log index, last log term
  request_vote : Text → ℤ → ℤ → ℤ → Effect
  -- peer, term, previous index, previous term, entries, commit index
  append_entries : Text → ℤ → ℤ → ℤ → List LogEntry → ℤ → Effect
  notify_membership notify_write notify_session : Effect

-- The timers hold what they run when they expire: the election timer the term of its callback and
-- the timeout, `none` while it is cancelled. The callback of the lease timer has its term from its
-- creation.
pub record Consensus : Type 0 where
  pub address : Text
  pub m_vote : Text
  pub m_votes_received : ℕ
  pub m_term : ℤ
  pub m_state : RaftState
  pub m_commit_index : ℤ
  pub m_next_index : List (Text × ℤ)
  pub m_match_index : List (Text × ℤ)
  pub m_leader_id : Text
  pub m_configuration : ClusterConfiguration
  pub m_election_timer : Option (ℤ × ℕ)
  pub m_heartbeat_timer : Bool
  pub m_lease_timer : Option ℤ
  pub lease_term : ℤ
  pub m_election_timeout : ℕ
  pub m_election_deadline : ℕ
  pub m_heartbeat_time : ℕ
  pub m_lease_holder : Bool
  pub m_renew_lease : Bool
  pub m_responding_peers : List Text
  -- with `m_session` and `m_store`, which the state machine shares
  pub m_state_machine : StateMachine
  pub log : RaftLog
  pub draws : ℕ
  pub readings : ℕ
  -- newest first
  pub effects : List Effect

unfoldable pub emit : Effect → Consensus → Consensus
emit e s = record s { effects = e ∷ s.effects }

-- `clock_type::now()`
unfoldable pub now : Env → Consensus → ℕ × Consensus
now env s = (env.clock s.readings, record s { readings = s.readings + 1 })

-- `m_next_index[peer]` and `m_match_index[peer]`, 0 for a peer without an entry. The entry that
-- such a read makes holds the same 0, so it is not kept.
unfoldable pub index_of : Text → List (Text × ℤ) → ℤ
index_of peer m = elim (find peer m) [ none ↦ ℤ.pos 0 | some i ↦ i ]

-- The constructor, over a log.
unfoldable pub new_consensus : Env → Text → RaftLog → Consensus
new_consensus env address log = record {
  address = address;
  m_vote = [];
  m_votes_received = 0;
  m_term = ℤ.pos 0;
  m_state = candidate;
  m_commit_index = minus_one;
  m_next_index = [];
  m_match_index = [];
  m_leader_id = [];
  m_configuration = Config.initial;
  m_election_timer = none;
  m_heartbeat_timer = false;
  m_lease_timer = none;
  lease_term = ℤ.pos 0;
  m_election_timeout = election_ms;
  m_election_deadline = env.clock 0;
  m_heartbeat_time = 0;
  m_lease_holder = false;
  m_renew_lease = false;
  m_responding_peers = [];
  m_state_machine = record {
    m_last_applied = minus_one;
    m_sessions = new_cache 1000;
    m_store = [];
  };
  log = log;
  draws = 0;
  readings = 1;
  effects = [];
}

-- `CreateConnections(m_configuration->ServerAddresses())`
unfoldable pub connect : Consensus → Result Consensus
connect s = do
  addresses ← Config.server_addresses s.m_configuration
  ok (emit (create_connections addresses) s)
