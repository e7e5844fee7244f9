-- ===== src/Storage/Restore.antt =====
-- `RestoreState`, `LoadMetadata` and the constructor with `restore` true.
--
-- The directory is the list of its files, in the order of their names: closed files, whose numbers
-- have twenty digits, then metadata, then open files. What protobuf parses of a file is data.
use maelstromdb.Base.{
  ℕ, ℤ, ◌+◌, List, [], ◌∷◌, Bool, true, false, Option, none, some, if◌then◌else◌, ltb, ltb_ℤ,
  length, find, nat_eq,
}
use maelstromdb.Base.Result.{Result, ok, throw, runtime_error, ◌>>=◌}
use maelstromdb.Base.SortedMap
use maelstromdb.Protos.{LogMetadata}
use maelstromdb.Storage.{PersistedLog, OpenPage, in_map, detached}
use maelstromdb.Storage.Pages.{DiskOp, create, open_file, PageRecord, Page, new_page}

-- A file, with what `LoadLogEntries` or `LoadMetadata` parses of it; `none` is a parse that fails.
pub data StoredFile : Type 0 where
  -- with the start in its name
  closed : ℕ → List PageRecord → StoredFile
  metadata : Option LogMetadata → StoredFile
  opened : List PageRecord → StoredFile

-- The log while it is restored: `m_open_page` is null at first.
pub record Restoring : Type 0 where
  pub m_metadata : LogMetadata
  pub m_log_size : ℕ
  pub m_open_page : Option OpenPage
  pub m_log_indices : List (ℕ × Page)
  pub m_disk : List DiskOp

-- The page of a file. Its constructor names it, and makes a file of the name, as for an open page.
unfoldable pub restored_page : ℕ → Bool → ℕ → List PageRecord → Page
restored_page start is_open max_file_size records = record (new_page start max_file_size) {
  is_open = is_open;
  end_index = start + length records;
  log_entries = records;
}

-- `m_open_page`, for a page that `insert` puts into the map unless its key is taken.
unfoldable pub open_page_at : ℕ → Page → List (ℕ × Page) → OpenPage
open_page_at start page indices = elim (find start indices) [
  | none ↦ in_map start
  | some other ↦ detached page
]

-- The metadata with the higher version; of two with the same one, the later.
unfoldable pub newer_metadata : LogMetadata → LogMetadata → LogMetadata
newer_metadata loaded present = if ltb_ℤ loaded.version present.version then present else loaded

-- A turn of the loop of `RestoreState`.
unfoldable pub restore_file : ℕ → StoredFile → Restoring → Result Restoring
unfolding restored_page open_page_at newer_metadata
restore_file max_file_size (closed start records) r =
    let page = restored_page start false max_file_size records in
    ok (record r {
      m_log_size = r.m_log_size + length records;
      m_log_indices = SortedMap.insert ltb start page r.m_log_indices;
      m_disk = create (open_file start) ∷ r.m_disk;
    })
restore_file max_file_size (metadata none) r = throw runtime_error
restore_file max_file_size (metadata (some loaded)) r =
    ok (record r { m_metadata = newer_metadata loaded r.m_metadata })
restore_file max_file_size (opened records) r =
    let start = r.m_log_size in
    let page = restored_page start true max_file_size records in
    ok (record r {
      m_log_size = start + length records;
      m_open_page = some (open_page_at start page r.m_log_indices);
      m_log_indices = SortedMap.insert ltb start page r.m_log_indices;
      m_disk = create (open_file start) ∷ r.m_disk;
    })

unfoldable pub restore_files : ℕ → List StoredFile → Restoring → Result Restoring
unfolding restore_file
restore_files max_file_size [] r = ok r
restore_files max_file_size (file ∷ files) r = do
  restored ← restore_file max_file_size file r
  restore_files max_file_size files restored

-- The end of the constructor: without an open page, one is made at 0.
unfoldable pub with_open_page : ℕ → Restoring → PersistedLog
unfolding open_page_at
with_open_page max_file_size r = elim r.m_open_page [
  | some page ↦ record {
    m_metadata = r.m_metadata;
    m_log_size = r.m_log_size;
    m_open_page = page;
    m_log_indices = r.m_log_indices;
    m_max_file_size = max_file_size;
    m_disk = r.m_disk;
  }
  | none ↦ record {
    m_metadata = r.m_metadata;
    m_log_size = r.m_log_size;
    m_open_page = open_page_at 0 (new_page 0 max_file_size) r.m_log_indices;
    m_log_indices = SortedMap.insert ltb 0 (new_page 0 max_file_size) r.m_log_indices;
    m_max_file_size = max_file_size;
    m_disk = create (open_file 0) ∷ r.m_disk;
  }
]

-- The constructor with `restore` true.
unfoldable pub restored_log : ℕ → List StoredFile → Result PersistedLog
unfolding restore_files with_open_page
restored_log max_file_size files = do
  restored ← restore_files max_file_size files (record {
    m_metadata = record { version = ℤ.pos 0; term = ℤ.pos 0; vote = [] };
    m_log_size = 0;
    m_open_page = none;
    m_log_indices = [];
    m_disk = [];
  })
  ok (with_open_page max_file_size restored)
