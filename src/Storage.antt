-- ===== src/Storage.antt =====
-- src/raft/storage.{h,cpp}: the raft log in pages, one to a file, with an index by first entry.
-- A page is shared by `m_log_indices` and `m_open_page`; `OpenPage` says whether the open page is
-- one of the map (under which key) or is held by `m_open_page` alone. What is written to the
-- directory stands in `m_disk`, the last operation first.
mod Tests
pub mod Pages
pub mod Entries
pub mod Writes
pub mod Suffix
pub mod Chain
pub mod Read
pub mod Reopened
pub mod Append
pub mod Dropping
pub mod Branches
pub mod Truncate
pub mod Orphan
pub mod Refinement
pub mod Restore
pub mod MetadataFiles
pub mod Restart
pub mod Saved
use maelstromdb.Base.{
  eqb_ℤ, ℕ, ℤ, zero, suc, ◌+◌, ◌-◌, Text, List, [], ◌∷◌, ◌++◌, map, Bool, true, false, not, ◌||◌,
  ◌&&◌, Option, none, some, if◌then◌else◌, ltb, leb, eqb, ltb_ℤ, ◌+ℤ◌, length, get_elem?, take,
  drop, find, assign, erase_key, minus_one, pos_part, neg_part, ◌%◌, nat_eq,
}
use maelstromdb.Base.Result.{Result, ok, throw, undefined, out_of_range, runtime_error, ◌>>=◌}
use maelstromdb.Base.SortedMap
use maelstromdb.Protos.{LogEntry, LogMetadata, Configuration, has_configuration, configuration_of}
use maelstromdb.Storage.Pages.{
  FileName, open_file, metadata_file, DiskOp, create, remove_file, append_entry, write_metadata,
  PageRecord, Page, new_page, close, remaining_space, to_size_t, write_log_entry,
  page_truncate_suffix,
}

-- What `m_open_page` points to.
pub data OpenPage : Type 0 where
  -- The page that the map holds under the key.
  in_map : ℕ → OpenPage
  -- A page that no key of the map leads to.
  detached : Page → OpenPage

pub record PersistedLog : Type 0 where
  pub m_metadata : LogMetadata
  pub m_log_size : ℕ
  pub m_open_page : OpenPage
  pub m_log_indices : List (ℕ × Page)
  pub m_max_file_size : ℕ
  pub m_disk : List DiskOp

-- What the log takes from protobuf: `ByteSizeLong`, and whether a write succeeds, which may depend
-- on all that was written before.
pub record Serializer : Type 0 where
  pub byte_size : LogEntry → ℕ
  pub write_succeeds : List DiskOp → LogEntry → Bool

-- The constructor with `restore` false.
unfoldable pub new_log : ℕ → PersistedLog
new_log max_file_size = record {
  m_metadata = record { version = ℤ.pos 0; term = ℤ.pos 0; vote = [] };
  m_log_size = 0;
  m_open_page = in_map 0;
  m_log_indices = (0, new_page 0 max_file_size) ∷ [];
  m_max_file_size = max_file_size;
  m_disk = create (open_file 0) ∷ [];
}

-- `Metadata`: the metadata, and whether it has been set.
unfoldable pub metadata : PersistedLog → LogMetadata × Bool
metadata l = (l.m_metadata, not (eqb_ℤ l.m_metadata.version (ℤ.pos 0)))

-- `SetMetadata`: two files take the versions in turn.
unfoldable pub set_metadata : LogMetadata → PersistedLog → PersistedLog
set_metadata new_metadata l =
    let version = l.m_metadata.version +ℤ ℤ.pos 1 in
    let stored = record new_metadata { version = version } in
    let file =
      if eqb ((pos_part version + neg_part version) % 2) 0
      then metadata_file 1
      else metadata_file 2 in
    record l { m_metadata = stored; m_disk = write_metadata file stored ∷ l.m_disk }

unfoldable pub log_size : PersistedLog → ℕ
log_size l = l.m_log_size

unfoldable pub last_log_index : PersistedLog → ℤ
last_log_index l = ℤ.pos l.m_log_size +ℤ minus_one

-- `*m_open_page`
unfoldable pub open_page : PersistedLog → Result Page
open_page l = elim l.m_open_page [
  | in_map k ↦ elim (find k l.m_log_indices) [ none ↦ undefined | some p ↦ ok p ]
  | detached p ↦ ok p
]

-- A write through `m_open_page`.
unfoldable pub set_open_page : Page → PersistedLog → PersistedLog
set_open_page p l = elim l.m_open_page [
  | in_map k ↦ record l { m_log_indices = assign k p l.m_log_indices }
  | detached _ ↦ record l { m_open_page = detached p }
]

-- `m_log_indices.insert({start, m_open_page})` for a new page, which has no effect on the map
-- where the key is taken.
unfoldable pub add_open_page : Page → PersistedLog → PersistedLog
add_open_page p l = elim (find p.start_index l.m_log_indices) [
  | none ↦ record l {
    m_open_page = in_map p.start_index;
    m_log_indices = SortedMap.insert ltb p.start_index p l.m_log_indices;
  }
  | some _ ↦ record l { m_open_page = detached p }
]

-- `CreateOpenFile`, where `m_open_page` points to the page.
unfoldable pub replace_open_page : Page → PersistedLog → PersistedLog
replace_open_page p l =
    let (closed, ops) = close p in
    let l' = set_open_page closed l in
    let page = new_page l'.m_log_size l'.m_max_file_size in
    add_open_page page (record l' { m_disk = create page.filename ∷ (ops ++ l'.m_disk) })

unfoldable pub create_open_file : PersistedLog → Result PersistedLog
create_open_file l = do p ← open_page l; ok (replace_open_page p l)
