-- ===== src/Storage/Writes.antt =====
-- src/raft/storage.cpp: `Append`, and how it writes to the pages.
use maelstromdb.Base.{ℕ, ◌+◌, List, [], ◌∷◌, Bool, if◌then◌else◌, ltb, nat_eq}
use maelstromdb.Base.Result.{Result, ok, throw, runtime_error, ◌>>=◌}
use maelstromdb.Protos.{LogEntry}
use maelstromdb.Storage.Pages.{append_entry, Page, remaining_space, to_size_t, write_log_entry}
use maelstromdb.Storage.{PersistedLog, Serializer, open_page, set_open_page, create_open_file}

module _ (io : Serializer) where
  -- The end of a round of the loop of `PersistLogEntries`: the write to the page that is open then.
  unfoldable pub write_entry : LogEntry → Page → PersistedLog → Result PersistedLog
  write_entry e p l =
      let after = set_open_page (write_log_entry (io.byte_size e) e p) l in
      if io.write_succeeds l.m_disk e
      then ok (record after {
        m_log_size = after.m_log_size + 1;
        m_disk = append_entry p.filename e ∷ after.m_disk;
      })
      else throw runtime_error

  -- No room for the entry in the open file, by a comparison of a `size_t` with an `int`.
  unfoldable pub is_full : LogEntry → Page → Bool
  is_full e p = ltb (to_size_t (remaining_space p)) (io.byte_size e)

  -- A round of the loop of `PersistLogEntries`.
  unfoldable pub persist_entry : LogEntry → PersistedLog → Result PersistedLog
  persist_entry e l = do
    p ← open_page l
    l' ← if is_full e p then create_open_file l else ok l
    p' ← open_page l'
    write_entry e p' l'

  unfoldable pub persist_log_entries : List LogEntry → PersistedLog → Result PersistedLog
  persist_log_entries [] l = ok l
  persist_log_entries (e ∷ new_entries) l = do
    l' ← persist_entry e l
    persist_log_entries new_entries l'

  -- `Append` of one entry: its index.
  unfoldable pub append_one : LogEntry → PersistedLog → Result (ℕ × PersistedLog)
  append_one e l = do l' ← persist_log_entries (e ∷ []) l; ok (l.m_log_size, l')

  -- `Append` of several entries: the first index, and the one behind the last.
  unfoldable pub append : List LogEntry → PersistedLog → Result (ℕ × ℕ × PersistedLog)
  append new_entries l = do
    l' ← persist_log_entries new_entries l
    ok (l.m_log_size, l'.m_log_size, l')
