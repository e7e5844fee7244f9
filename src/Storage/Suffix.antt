-- ===== src/Storage/Suffix.antt =====
-- src/raft/storage.cpp: `TruncateSuffix`, and the pages that it drops.
use maelstromdb.Base.{
  ℕ, ◌-◌, List, [], ◌∷◌, ◌++◌, none, some, if◌then◌else◌, ltb, leb, find, erase_key, nat_eq,
}
use maelstromdb.Base.Result.{Result, ok, ◌>>=◌}
use maelstromdb.Storage.Pages.{DiskOp, remove_file, Page, page_truncate_suffix}
use maelstromdb.Storage.{
  OpenPage, PersistedLog, open_page, set_open_page, create_open_file, in_map, detached,
}

-- What the loop of `TruncateSuffix` over `m_log_indices` leaves: the map and the size.
pub record Dropped : Type 0 where
  pub indices : List (ℕ × Page)
  pub size : ℕ
  pub ops : List DiskOp

-- That loop. A page stands under its start index, so what is erased is the page at `rbegin()`.
unfoldable pub drop_pages : ℕ → List (ℕ × Page) → ℕ → List DiskOp → Result Dropped
drop_pages removal_index [] size ops = ok (record { indices = []; size = size; ops = ops })
drop_pages removal_index ((k, p) ∷ indices) size ops =
    let rest =
      drop_pages removal_index indices (size - (p.end_index - p.start_index))
        (remove_file p.filename ∷ ops) in
    if leb removal_index p.start_index
    then rest
    else (if ltb removal_index p.end_index
        then (do
          (p', op) ← page_truncate_suffix removal_index p
          ok (record {
            indices = (k, p') ∷ indices;
            size = size - (p.end_index - removal_index);
            ops = op ++ ops;
          }))
        else ok (record { indices = (k, p) ∷ indices; size = size; ops = ops }))

-- `m_open_page` after pages were erased from the map: an erased page lives on.
unfoldable pub still_open : Page → OpenPage → List (ℕ × Page) → OpenPage
still_open p (in_map k) indices = elim (find k indices) [ none ↦ detached p | some _ ↦ in_map k ]
still_open p (detached q) indices = detached q

-- The branch of `TruncateSuffix` that cuts the open page.
unfoldable pub truncate_open_page : ℕ → Page → PersistedLog → Result PersistedLog
truncate_open_page removal_index p l = do
  (p', op) ← page_truncate_suffix removal_index p
  create_open_file (
      set_open_page p' (record l {
        m_log_size = l.m_log_size - (p.end_index - removal_index);
        m_disk = op ++ l.m_disk;
      }))

-- The log without its open page, which `m_open_page` still points to.
unfoldable pub without_open_page : Page → PersistedLog → PersistedLog
without_open_page p l =
    let left = erase_key p.start_index l.m_log_indices in
    let emptied = record p { end_index = p.start_index; byte_offset = 0; log_entries = [] } in
    set_open_page emptied (record l {
      m_log_indices = left;
      m_log_size = l.m_log_size - (p.end_index - p.start_index);
      m_open_page = still_open p l.m_open_page left;
    })

-- The `while` loop of `TruncateSuffix`, which also erases the page that `m_open_page` points to.
unfoldable pub drop_closed_pages : ℕ → PersistedLog → Result PersistedLog
drop_closed_pages removal_index l = do
  p ← open_page l
  dropped ← drop_pages removal_index l.m_log_indices l.m_log_size l.m_disk
  ok (record l {
    m_log_indices = dropped.indices;
    m_log_size = dropped.size;
    m_disk = dropped.ops;
    m_open_page = still_open p l.m_open_page dropped.indices;
  })

-- The branch of `TruncateSuffix` that deletes the open page.
unfoldable pub drop_open_page : ℕ → Page → PersistedLog → Result PersistedLog
drop_open_page removal_index p l = do
  l' ← create_open_file (without_open_page p l)
  drop_closed_pages removal_index l'

-- `TruncateSuffix`, at an index that is not negative.
unfoldable pub truncate_suffix : ℕ → PersistedLog → Result PersistedLog
truncate_suffix removal_index l = if leb l.m_log_size removal_index then ok l else (do
  p ← open_page l
  if ltb p.start_index removal_index
      then truncate_open_page removal_index p l
      else drop_open_page removal_index p l)
