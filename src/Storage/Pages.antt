-- ===== src/Storage/Pages.antt =====
-- `PersistedLog::Page` of src/raft/storage.{h,cpp}: the entries of one file, and its name.
use maelstromdb.Base.{
  ℕ, ℤ, ◌+◌, ◌-◌, ◌^◌, List, [], ◌∷◌, ◌++◌, Bool, true, false, not, none, some, if◌then◌else◌, eqb,
  get_elem?, take, ◌-ℤ◌,
}
use maelstromdb.Base.Result.{Result, ok, undefined}
use maelstromdb.Protos.{LogEntry, LogMetadata}

-- The names of files: `open-N`, `M-N` with both numbers at twenty digits, `metadata1`, `metadata2`.
pub data FileName : Type 0 where
  open_file : ℕ → FileName
  closed_file : ℕ → ℕ → FileName
  metadata_file : ℕ → FileName

-- The operations on the directory.
pub data DiskOp : Type 0 where
  create : FileName → DiskOp
  remove_file : FileName → DiskOp
  rename : FileName → FileName → DiskOp
  resize_file : FileName → ℕ → DiskOp
  append_entry : FileName → LogEntry → DiskOp
  write_metadata : FileName → LogMetadata → DiskOp

-- `Page::Record`
pub record PageRecord : Type 0 where
  pub offset : ℕ
  pub entry : LogEntry

pub record Page : Type 0 where
  pub is_open : Bool
  pub byte_offset : ℕ
  pub start_index : ℕ
  pub end_index : ℕ
  pub filename : FileName
  pub log_entries : List PageRecord
  pub max_file_size : ℕ

-- The constructor, for an open page.
abbrev pub new_page : ℕ → ℕ → Page
new_page start max_file_size = record {
  is_open = true;
  byte_offset = 0;
  start_index = start;
  end_index = start;
  filename = open_file start;
  log_entries = [];
  max_file_size = max_file_size;
}

unfoldable pub closed_filename : Page → FileName
closed_filename p = closed_file p.start_index p.end_index

-- `Close`: an empty file is removed, any other gets the name of a closed file.
unfoldable pub close : Page → Page × List DiskOp
unfolding closed_filename
close p =
    if not p.is_open
    then (p, [])
    else (if eqb p.start_index p.end_index
        then (record p { is_open = false }, remove_file p.filename ∷ [])
        else (
          record p { is_open = false; filename = closed_filename p },
          rename p.filename (closed_filename p) ∷ [],
        ))

unfoldable pub remaining_space : Page → ℤ
remaining_space p = ℤ.pos p.max_file_size -ℤ ℤ.pos p.byte_offset

-- The conversion of an `int` that a comparison with a `size_t` makes.
unfoldable pub to_size_t : ℤ → ℕ
to_size_t (ℤ.pos n) = n
to_size_t (ℤ.negsuc n) = 2 ^ 64 - (n + 1)

-- `WriteLogEntry` where the serialisation succeeds.
unfoldable pub write_log_entry : ℕ → LogEntry → Page → Page
write_log_entry byte_size new_entry p = record p {
  log_entries = p.log_entries ++ record { offset = p.byte_offset; entry = new_entry } ∷ [];
  byte_offset = p.byte_offset + byte_size;
  end_index = p.end_index + 1;
}

-- The page cut to `count` records, where the file is cut at `offset`; a closed file is renamed.
unfoldable pub cut_page : ℕ → ℕ → ℕ → Page → Page × List DiskOp
unfolding closed_filename
cut_page removal_index count offset p =
    let p' = record p {
      log_entries = take count p.log_entries;
      byte_offset = offset;
      end_index = removal_index;
    } in
    let resized = resize_file p.filename offset in
    if p.is_open then (p', resized ∷ []) else (
      record p' { filename = closed_filename p' },
      rename p.filename (closed_filename p') ∷ resized ∷ [],
    )

-- `Page::TruncateSuffix`, which reads the offset of the first record that it removes.
unfoldable pub page_truncate_suffix : ℕ → Page → Result (Page × List DiskOp)
page_truncate_suffix removal_index p =
    let last_record_index = removal_index - p.start_index in
    elim (get_elem? p.log_entries last_record_index) [
      | none ↦ undefined
      | some r ↦ ok (cut_page removal_index last_record_index r.offset p)
    ]
