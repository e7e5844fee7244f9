-- ===== src/Storage/Tests.antt =====
-- A log of two files, and what the storage does with it.
use maelstromdb.Base.{◌+ℤ◌, some, List, ℤ, ◌≡◌, refl, ◌⊎◌, ◌≤◌, [], ◌∷◌, false, true, arith}
use maelstromdb.Base.Result.{Result, ok, undefined}
use maelstromdb.Base.SortedMap
use maelstromdb.Consensus.RaftLog
use maelstromdb.Protos.{LogEntry, LogMetadata, no_op, write, data_set, not_set}
use maelstromdb.Storage.{PersistedLog, Serializer, in_map, detached, set_metadata}
use maelstromdb.Storage.Entries.{
  entry_at, entries, entry_of, entry_in, page_slice, slice, entries_loop,
}
use maelstromdb.Storage.Writes.{append, append_one}
use maelstromdb.Storage.Suffix.{truncate_suffix}
use maelstromdb.Storage.Append.{append-contents, IsWritable}
use maelstromdb.Storage.Chain.{IsWellFormed, contents}
use maelstromdb.Storage.Orphan.{entry_at-truncate_suffix}
use maelstromdb.Storage.Pages.{Page, PageRecord, open_file, closed_file, create}
use maelstromdb.Storage.Refinement.{raft_log, entry_at-entry, entries-range}
use maelstromdb.Storage.Restart.{second_restart}
use maelstromdb.Storage.Restore.{StoredFile, restored_page, metadata, restored_log, closed, opened}
use maelstromdb.Storage.MetadataFiles.{
  MetadataFiles, IsCurrent, in_second, earlier, metadata_of, stored_metadata, stored, all_written,
  written, set_metadata-restored,
}
use maelstromdb.Storage.Saved.{stored_files, restored_log-stored_files}
use maelstromdb.Storage.Truncate.{truncate_suffix-contents}

program : Unit {0}
unfolding contents raft_log RaftLog.entry RaftLog.range entry_of entry_at entry_in
    SortedMap.last_at_most entries entries_loop page_slice slice
program = tt

-- Every entry takes a hundred bytes, and every write succeeds.
abbrev hundred : Serializer
hundred = record { byte_size = λ e. 100; write_succeeds = λ ops e. true }

abbrev no_operation : LogEntry
no_operation = record { term = ℤ.pos 1; type = no_op; log_data = not_set }

abbrev a_write : LogEntry
a_write = record { term = ℤ.pos 1; type = write; log_data = data_set (b'k' ∷ b':' ∷ b'v' ∷ []) }

abbrev closed_page : Page
closed_page = record {
  is_open = false;
  byte_offset = 200;
  start_index = 0;
  end_index = 2;
  filename = closed_file 0 2;
  log_entries =
      record { offset = 0; entry = no_operation } ∷ record { offset = 100; entry = a_write } ∷ [];
  max_file_size = 250;
}

abbrev last_page : Page
last_page = record {
  is_open = true;
  byte_offset = 100;
  start_index = 2;
  end_index = 3;
  filename = open_file 2;
  log_entries = record { offset = 0; entry = a_write } ∷ [];
  max_file_size = 250;
}

abbrev two_files : PersistedLog
two_files = record {
  m_metadata = record { version = ℤ.pos 3; term = ℤ.pos 2; vote = [] };
  m_log_size = 3;
  m_open_page = in_map 2;
  m_log_indices = (2, last_page) ∷ (0, closed_page) ∷ [];
  m_max_file_size = 250;
  m_disk = [];
}

blank : last_page.log_entries ≡ [] → last_page.byte_offset ≡ 0
blank h = cc

abbrev two_files-IsWellFormed : IsWellFormed two_files
two_files-IsWellFormed = record {
  start = 2;
  page = last_page;
  closed = (0, closed_page) ∷ [];
  indices = refl;
  open_in_map = refl;
  shape = record {
    is_open = refl;
    paged = record {
      chain = (
        record { start = refl; end = refl; count = refl },
        (record { start = refl; end = refl; count = refl }, refl),
      );
      nonempty = (omega arith, tt);
    };
    limit = refl;
    fits = omega arith;
    blank = blank;
  };
}

writable : (e : LogEntry) → IsWritable hundred 250 e
writable e = record { small = omega arith; written = λ ops. refl }

entry_at-entry_example : entry_at (ℤ.pos 2) two_files ≡ RaftLog.entry (ℤ.pos 2) (raft_log two_files)
entry_at-entry_example = entry_at-entry two_files (ℤ.pos 2) two_files-IsWellFormed

last_entry : entry_at (ℤ.pos 2) two_files ≡ ok a_write
unfolding program
last_entry = refl

entries-range_example :
    entries (ℤ.pos 1) (ℤ.pos 3) two_files ≡ RaftLog.range (ℤ.pos 1) (ℤ.pos 3) (raft_log two_files)
entries-range_example = entries-range two_files (ℤ.pos 1) (ℤ.pos 3) two_files-IsWellFormed

last_entries : entries (ℤ.pos 1) (ℤ.pos 3) two_files ≡ ok (a_write ∷ a_write ∷ [])
unfolding program
last_entries = refl

append-contents_example :
    (l' : PersistedLog) × (append hundred (no_operation ∷ a_write ∷ []) two_files ≡ ok (3, 5, l'))
    × IsWellFormed l'
    × (contents l'.m_log_indices ≡ no_operation ∷ a_write ∷ a_write ∷ no_operation ∷ a_write ∷ [])
unfolding program
append-contents_example =
    append-contents hundred (no_operation ∷ a_write ∷ []) two_files two_files-IsWellFormed
      (writable no_operation, (writable a_write, tt))

truncate_suffix-contents_example :
    (l' : PersistedLog) × (truncate_suffix 1 two_files ≡ ok l')
    × ((contents l'.m_log_indices ≡ no_operation ∷ []) × (l'.m_log_size ≡ 1))
    × ((1 ≤ 2) ⊎ IsWellFormed l')
unfolding program
truncate_suffix-contents_example = truncate_suffix-contents two_files 1 two_files-IsWellFormed

entry_at-truncate_suffix_example :
    (l' : PersistedLog) × (l'' : PersistedLog) × (truncate_suffix 1 two_files ≡ ok l')
    × (append_one hundred a_write l' ≡ ok (1, l''))
    × (l''.m_log_size ≡ 2)
    × (contents l''.m_log_indices ≡ no_operation ∷ [])
    × (entry_at (ℤ.pos 1) l'' ≡ undefined)
unfolding program
entry_at-truncate_suffix_example =
    entry_at-truncate_suffix hundred a_write two_files 1 two_files-IsWellFormed (omega arith)
      (omega arith) (writable a_write)

-- The third version is in the second file, and the second one in the first.
abbrev two_files_metadata : MetadataFiles
two_files_metadata = record {
  first = some (record { version = ℤ.pos 2; term = ℤ.pos 1; vote = b'a' ∷ [] });
  second = some two_files.m_metadata;
}

two_files-IsCurrent : IsCurrent two_files.m_metadata two_files_metadata
two_files-IsCurrent = in_second 2 refl refl refl (earlier _ (omega arith))

restored_log-stored_files_example :
    (restored : PersistedLog) × (restored_log 250
        (stored_files two_files_metadata last_page ((0, closed_page) ∷ []))
      ≡ ok restored)
    × (contents restored.m_log_indices ≡ no_operation ∷ a_write ∷ a_write ∷ [])
    × (restored.m_log_size ≡ 3)
    × (restored.m_metadata ≡ two_files.m_metadata)
    × (restored.m_open_page ≡ in_map 2)
    × IsWellFormed restored
unfolding program
restored_log-stored_files_example =
    restored_log-stored_files 250 two_files two_files-IsWellFormed two_files_metadata
      two_files-IsCurrent

abbrev first_record : PageRecord
first_record = record { offset = 0; entry = no_operation }

abbrev second_record : PageRecord
second_record = record { offset = 0; entry = a_write }

second_restart_example :
    (k : PersistedLog) × (l : PersistedLog) × (restored_log 250
        (closed 0 (first_record ∷ []) ∷ opened (second_record ∷ []) ∷ [])
      ≡ ok k)
    × (k.m_disk ≡ create (open_file 1) ∷ create (open_file 0) ∷ [])
    × (restored_log 250
          (closed 0 (first_record ∷ []) ∷ opened [] ∷ opened (second_record ∷ []) ∷ [])
        ≡ ok l)
    × (l.m_log_size ≡ 2)
    × (l.m_open_page ≡ detached (restored_page 1 true 250 (second_record ∷ [])))
    × (entry_at (ℤ.pos 1) l ≡ undefined)
second_restart_example = second_restart 250 first_record [] second_record []

abbrev next_vote : LogMetadata
next_vote = record { version = ℤ.pos 0; term = ℤ.pos 3; vote = b'b' ∷ [] }

-- The fourth version goes to the first file. One of the log's files is lost, and its open file is
-- there.
abbrev left_files : List StoredFile
left_files =
    metadata (some (record { version = ℤ.pos 4; term = ℤ.pos 3; vote = b'b' ∷ [] }))
    ∷ metadata (some two_files.m_metadata)
    ∷ opened (first_record ∷ [])
    ∷ []

abbrev or_else : PersistedLog → Result PersistedLog → PersistedLog
or_else l (ok r) = r
or_else l _ = l

abbrev restored_again : PersistedLog
restored_again = or_else two_files (restored_log 250 left_files)

set_metadata-restored_example :
    (restored_again.m_metadata.term ≡ ℤ.pos 3)
    × (restored_again.m_metadata.vote ≡ b'b' ∷ [])
    × (restored_again.m_metadata.version ≡ ℤ.pos 4)
unfolding set_metadata metadata_of stored_metadata stored all_written written restored_log ◌+ℤ◌
set_metadata-restored_example =
    set_metadata-restored 250 next_vote (record two_files { m_disk = [] }) two_files_metadata
      left_files restored_again two_files-IsCurrent refl refl
