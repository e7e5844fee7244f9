-- ===== src/Consensus/RaftLog.antt =====
-- The class `Log` of src/raft/storage.h as the consensus module uses it: a list of entries and the
-- metadata. The modules of Storage are about the class that implements it.
use maelstromdb.Base.{
  ℤ, List, [], ◌∷◌, ◌++◌, ◌-◌, ◌&&◌, ◌||◌, Option, none, some, if◌then◌else◌, ltb, leb_ℤ, ◌+ℤ◌,
  ◌-ℤ◌, length, take, drop, get_elem?, minus_one,
}
use maelstromdb.Base.Result.{Result, ok, throw, out_of_range}
use maelstromdb.Protos.{LogEntry, LogMetadata}

pub record RaftLog : Type 0 where
  pub log_entries : List LogEntry
  pub log_metadata : LogMetadata

-- `LogSize`
unfoldable pub size : RaftLog → ℤ
size l = ℤ.pos (length l.log_entries)

unfoldable pub last_index : RaftLog → ℤ
last_index l = size l -ℤ ℤ.pos 1

unfoldable pub entry : ℤ → RaftLog → Result LogEntry
entry (ℤ.pos idx) l = elim (get_elem? l.log_entries idx) [
  | none ↦ throw out_of_range
  | some e ↦ ok e
]
entry (ℤ.negsuc _) l = throw out_of_range

unfoldable pub last_term_of : List LogEntry → ℤ
last_term_of [] = minus_one
last_term_of (e ∷ []) = e.term
last_term_of (e ∷ e' ∷ es) = last_term_of (e' ∷ es)

-- `LastLogTerm`
unfoldable pub last_term : RaftLog → ℤ
last_term l = last_term_of l.log_entries

-- `Entries`
unfoldable pub range : ℤ → ℤ → RaftLog → Result (List LogEntry)
range (ℤ.pos start) (ℤ.pos end) l =
    if ltb end start || ltb (length l.log_entries) end
    then throw out_of_range
    else ok (take (end - start) (drop start l.log_entries))
range _ _ l = throw out_of_range

-- `Append`, of one entry or several.
unfoldable pub append : List LogEntry → RaftLog → RaftLog
append es l = record l { log_entries = l.log_entries ++ es }

-- `TruncateSuffix`, as the class promises it. `PersistedLog` keeps the promise above the start of
-- its open page; at or below it, the open page is lost from its index (Storage.Truncate,
-- Storage.Orphan).
unfoldable pub truncate : ℤ → RaftLog → RaftLog
truncate (ℤ.pos idx) l = record l { log_entries = take idx l.log_entries }
truncate (ℤ.negsuc _) l = record l { log_entries = [] }

-- `Metadata`; `none` is the result `false`.
unfoldable pub restored : RaftLog → Option LogMetadata
restored l =
    let m = l.log_metadata in
    if leb_ℤ m.version (ℤ.pos 0) && leb_ℤ (ℤ.pos 0) m.version then none else some m

-- `SetMetadata`
unfoldable pub set_metadata : LogMetadata → RaftLog → RaftLog
set_metadata m l = record l {
  log_metadata = record m { version = l.log_metadata.version +ℤ ℤ.pos 1 };
}
