-- ===== src/Config.antt =====
-- src/raft/cluster_configuration.{h,cpp}: the membership of the cluster, its history by log index,
-- and the log sync of servers that are about to join.
mod Tests
pub mod Quorum
pub mod Members
pub mod History
pub mod Current
pub mod Sync
use maelstromdb.Base.{
  ℕ, ℤ, Text, List, [], ◌∷◌, ◌*◌, ◌+◌, Bool, true, false, not, ◌&&◌, ◌||◌, Option, none, some,
  if◌then◌else◌, eqb, ltb, ltb_ℤ, leb_ℤ, ◌==◌, length, contains, insert_set, find, assign,
  minus_one, int_eq, text_eq,
}
use maelstromdb.Base.Result.{Result, ok, throw, undefined, out_of_range, ◌>>=◌}
use maelstromdb.Base.SortedMap
use maelstromdb.Protos.{Server, Configuration, empty_configuration}

pub data ConfigurationState : Type 0 where
  empty sync joint stable : ConfigurationState

unfoldable pub is_sync : ConfigurationState → Bool
is_sync sync = true
is_sync _ = false

unfoldable pub is_joint : ConfigurationState → Bool
is_joint joint = true
is_joint _ = false

pub record SyncState : Type 0 where
  pub sync_index : ℤ
  pub done : Bool
  pub progress : Bool
  pub state_diff : List (Text × (ℤ × ℤ))
  pub sync_addresses : List Text

pub record ClusterConfiguration : Type 0 where
  pub m_id : ℤ
  pub m_state : ConfigurationState
  pub m_current_configuration : Configuration
  pub m_addresses : List Text
  pub m_configurations : List (ℤ × Configuration)
  pub m_log_sync : Option SyncState

-- The constructor.
abbrev pub initial : ClusterConfiguration
initial = record {
  m_id = minus_one;
  m_state = empty;
  m_current_configuration = empty_configuration;
  m_addresses = [];
  m_configurations = [];
  m_log_sync = none;
}

-- `Configuration(int id)`
unfoldable pub configuration_at : ℤ → ClusterConfiguration → Result Configuration
configuration_at id c = elim (find id c.m_configurations) [
  | none ↦ throw out_of_range
  | some configuration ↦ ok configuration
]

-- `m_addresses.insert` for each server in turn.
unfoldable pub insert_addresses : List Server → List Text → List Text
insert_addresses [] addresses = addresses
insert_addresses (s ∷ servers) addresses = insert_addresses servers (insert_set s.address addresses)

unfoldable pub set_configuration : ℤ → Configuration → ClusterConfiguration → ClusterConfiguration
unfolding insert_addresses
set_configuration new_id configuration c = record c {
  m_id = new_id;
  m_state = if eqb (length configuration.next_configuration) 0 then stable else joint;
  m_current_configuration = configuration;
  m_addresses =
      insert_addresses configuration.next_configuration
        (insert_addresses configuration.prev_configuration []);
}

-- `if (Id() != it->first) SetConfiguration(it->first, it->second)` at `rbegin()`, which an empty
-- map does not have.
unfoldable pub follow_last : ClusterConfiguration → Result ClusterConfiguration
follow_last c = elim c.m_configurations [
  | [] ↦ undefined
  | (k, configuration) ∷ rest ↦
      ok (if not (c.m_id == k) then set_configuration k configuration c else c)
]

unfoldable pub insert_new_configuration :
    ℤ → Configuration → ClusterConfiguration → Result ClusterConfiguration
unfolding follow_last
insert_new_configuration new_id configuration c =
    follow_last (record c {
      m_configurations = SortedMap.insert ltb_ℤ new_id configuration c.m_configurations;
    })

unfoldable pub truncate_suffix : ℤ → ClusterConfiguration → Result ClusterConfiguration
unfolding follow_last
truncate_suffix removal_index c =
    follow_last
      (record c { m_configurations = SortedMap.erase_above ltb_ℤ removal_index c.m_configurations })

-- A use of `*m_log_sync`.
unfoldable pub log_sync : ClusterConfiguration → Result SyncState
log_sync c = elim c.m_log_sync [ none ↦ undefined | some s ↦ ok s ]

unfoldable pub insert_texts : List Text → List Text → List Text
insert_texts [] addresses = addresses
insert_texts (a ∷ rest) addresses = insert_texts rest (insert_set a addresses)

unfoldable pub server_addresses : ClusterConfiguration → Result (List Text)
unfolding log_sync is_sync
server_addresses c =
    if is_sync c.m_state
    then (do s ← log_sync c; ok (insert_texts s.sync_addresses c.m_addresses))
    else ok c.m_addresses

unfoldable pub known_server : Text → ClusterConfiguration → Result Bool
unfolding log_sync is_sync
known_server address c =
    let found = contains address c.m_addresses in
    if is_sync c.m_state
    then (do s ← log_sync c; ok (found || contains address s.sync_addresses))
    else ok found

-- The loops of `CheckQuorum` that count the votes of listed servers.
unfoldable pub count_votes : List Server → List Text → ℕ
count_votes [] votes = 0
count_votes (s ∷ servers) votes =
    (if contains s.address votes then 1 else 0) + count_votes servers votes

unfoldable pub check_quorum : List Text → ClusterConfiguration → Bool
unfolding is_joint
check_quorum peer_votes c =
    let prev = c.m_current_configuration.prev_configuration in
    let next = c.m_current_configuration.next_configuration in
    if is_joint c.m_state
    then ltb (length prev) (count_votes prev peer_votes * 2)
      && ltb (length next) (count_votes next peer_votes * 2)
    else ltb (length prev) (length peer_votes * 2)

-- The loop of `StartLogSync`, which collects the servers that are not known yet.
unfoldable pub unknown_servers : List Text → ClusterConfiguration → Result (List Text)
unknown_servers [] c = ok []
unknown_servers (s ∷ servers) c = do
  known ← known_server s c
  rest ← unknown_servers servers c
  ok (if known then rest else s ∷ rest)

-- `state_diff[address] = {0, 0}` for each server in turn.
unfoldable pub assign_zeros : List Text → List (Text × (ℤ × ℤ)) → List (Text × (ℤ × ℤ))
assign_zeros [] diff = diff
assign_zeros (a ∷ rest) diff = assign_zeros rest (assign a (ℤ.pos 0, ℤ.pos 0) diff)

-- The constructor of `SyncState`.
unfoldable pub new_sync_state : ℤ → List Text → SyncState
unfolding assign_zeros
new_sync_state commit_index new_servers = record {
  sync_index = commit_index;
  done = false;
  progress = false;
  state_diff = assign_zeros new_servers [];
  sync_addresses = insert_texts new_servers [];
}

unfoldable pub start_log_sync : ℤ → List Text → ClusterConfiguration → Result ClusterConfiguration
unfolding unknown_servers new_sync_state
start_log_sync commit_index new_servers c = do
  sync_servers ← unknown_servers new_servers c
  ok (record c { m_log_sync = some (new_sync_state commit_index sync_servers); m_state = sync })

unfoldable pub cancel_log_sync : ClusterConfiguration → ClusterConfiguration
cancel_log_sync c = record c { m_log_sync = none; m_state = stable }

unfoldable pub sync_progress : ClusterConfiguration → Result Bool
unfolding log_sync
sync_progress c = do s ← log_sync c; ok s.progress

unfoldable pub sync_complete : ClusterConfiguration → Result Bool
unfolding log_sync
sync_complete c = do s ← log_sync c; ok s.done

-- The loop of `UpdateSyncProgress`: `progress` and `done` at its end, with its `break`.
unfoldable pub scan_diff : ℤ → List (Text × (ℤ × ℤ)) → Bool → Bool × Bool
scan_diff sync_index [] done = (true, done)
scan_diff sync_index ((address, (prev_index, curr_index)) ∷ rest) done =
    let next = scan_diff sync_index rest (if ltb_ℤ curr_index sync_index then false else done) in
    if leb_ℤ curr_index prev_index then (false, false) else next

-- `state_diff[address]`, which makes a missing entry `{0, 0}`.
unfoldable pub diff_entry : Text → List (Text × (ℤ × ℤ)) → ℤ × ℤ
diff_entry address diff = elim (find address diff) [ none ↦ (ℤ.pos 0, ℤ.pos 0) | some d ↦ d ]

unfoldable pub update_sync_progress :
    Text → ℤ → ClusterConfiguration → Result (Bool × ClusterConfiguration)
unfolding log_sync diff_entry is_sync
update_sync_progress address new_match_index c =
    if not (is_sync c.m_state) then ok (false, c) else (do
      s ← log_sync c
      let prev = (diff_entry address s.state_diff).0
      let diff = assign address (prev, new_match_index) s.state_diff
      let flags = scan_diff s.sync_index diff true
      let after = record s { state_diff = diff; progress = flags.0; done = flags.1 }
      ok (flags.0, record c { m_log_sync = some after }))
