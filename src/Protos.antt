-- ===== src/Protos.antt =====
-- The messages of src/protos/log.proto and src/protos/raft.proto that the modules of src/raft/
-- exchange.
use maelstromdb.Base.{ℤ, Text, List, Bool, false, true, []}

-- log.proto: LogOpCode. `write` is DATA.
pub data LogOpCode : Type 0 where
  no_op configuration register_client write : LogOpCode

pub record Server : Type 0 where
  pub address : Text

pub record Configuration : Type 0 where
  pub prev_configuration : List Server
  pub next_configuration : List Server

-- The `oneof` of a log entry.
pub data LogData : Type 0 where
  not_set : LogData
  configuration_set : Configuration → LogData
  data_set : Text → LogData

pub record LogEntry : Type 0 where
  pub term : ℤ
  pub type : LogOpCode
  pub log_data : LogData

pub record LogMetadata : Type 0 where
  pub version : ℤ
  pub term : ℤ
  pub vote : Text

abbrev pub empty_configuration : Configuration
empty_configuration = record { prev_configuration = []; next_configuration = [] }

-- `entry.has_configuration()`
unfoldable pub has_configuration : LogEntry → Bool
has_configuration e = elim e.log_data [ configuration_set c ↦ true | _ ↦ false ]

-- `entry.configuration()`, the default message where it is not set.
unfoldable pub configuration_of : LogEntry → Configuration
configuration_of e = elim e.log_data [ configuration_set c ↦ c | _ ↦ empty_configuration ]

-- raft.proto: Error.Code
pub data ErrorCode : Type 0 where
  not_leader retry timeout cancelled out_of_date session_expired lease_expired : ErrorCode
  unexpected_error : ErrorCode

-- `grpc::Status`: OK, CANCELLED, or the details that `ConstructError` serialises.
pub data Status : Type 0 where
  status_ok : Status
  status_cancelled : Status
  status_error : ErrorCode → Text → Status

pub record RequestVoteRequest : Type 0 where
  pub term : ℤ
  pub candidate_id : Text
  pub last_log_index : ℤ
  pub last_log_term : ℤ

pub record RequestVoteResponse : Type 0 where
  pub term : ℤ
  pub vote_granted : Bool

pub record AppendEntriesRequest : Type 0 where
  pub term : ℤ
  pub leader_id : Text
  pub prev_log_index : ℤ
  pub prev_log_term : ℤ
  pub entries : List LogEntry
  pub leader_commit : ℤ

pub record AppendEntriesResponse : Type 0 where
  pub term : ℤ
  pub success : Bool
