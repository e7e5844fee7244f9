-- ===== src/Machine.antt =====
-- src/raft/state_machine.{h,cpp} and src/core/inmemory_store.{h,cpp}: committed entries applied to
-- the sessions and to the store of keys and values.
mod Tests
pub mod Store
use maelstromdb.Base.{
  ℕ, ℤ, Text, List, [], ◌∷◌, Bool, Option, none, some, if◌then◌else◌, eqb, ◌+ℤ◌, find, assign,
  text_eq, minus_one,
}
use maelstromdb.Base.Result.{Result, ok, throw, out_of_range, ◌>>=◌}
use maelstromdb.Protos.{LogEntry, LogOpCode, no_op, configuration, register_client, write, data_set}
use maelstromdb.Session.{SessionCache, add_session}

-- `InmemoryStore::m_store`
abbrev pub InmemoryStore : Type 0
InmemoryStore = List (Text × Text)

-- `Read`, by `at`.
unfoldable pub read : Text → InmemoryStore → Result Text
read key store = elim (find key store) [ none ↦ throw out_of_range | some value ↦ ok value ]

-- `Write`
unfoldable pub write_key : Text → Text → InmemoryStore → InmemoryStore
write_key key value store = assign key value store

pub record StateMachine : Type 0 where
  pub m_last_applied : ℤ
  pub m_sessions : SessionCache
  pub m_store : InmemoryStore

unfoldable pub increment_last_applied : StateMachine → StateMachine
increment_last_applied m = record m { m_last_applied = m.m_last_applied +ℤ ℤ.pos 1 }

-- The text up to the first byte `c`, and the text behind it; `none` where it does not occur.
unfoldable pub split_at : ℕ → Text → Option (Text × Text)
split_at c [] = none
split_at c (b ∷ text) =
    let rest = split_at c text in
    if eqb b c
    then some ([], text)
    else elim rest [ none ↦ none | some (key, value) ↦ some (b ∷ key, value) ]

-- The key and the value of a command; without a colon both are the whole command, since `find`
-- then returns -1 as an `int`.
unfoldable pub parse_command : Text → Text × Text
parse_command command = elim (split_at b':' command) [
  | none ↦ (command, command)
  | some parts ↦ parts
]

-- `log_entry.data()`, empty where it is not set.
unfoldable pub data_of : LogEntry → Text
data_of e = elim e.log_data [ data_set command ↦ command | _ ↦ [] ]

-- `ApplyCommand`, whose result is always "SUCCESS".
unfoldable pub apply_command : ℤ → LogEntry → StateMachine → Result StateMachine
apply_command log_index e m = elim e.type [
  | register_client ↦ (do
    sessions ← add_session log_index m.m_sessions
    ok (increment_last_applied (record m { m_sessions = sessions })))
  | write ↦
      let (key, value) = parse_command (data_of e) in
      ok (increment_last_applied (record m { m_store = write_key key value m.m_store }))
  | _ ↦ ok (increment_last_applied m)
]
