-- ===== src/Storage/Orphan.antt =====
-- `TruncateSuffix` at or below the start of the open page: the new open page leaves the map, and
-- what is appended to it cannot be read.
use maelstromdb.Base.{
  ℕ, ℤ, ◌+◌, ◌-◌, ◌≤◌, ◌<◌, ◌≡◌, refl, ◌∙◌, ap, [], ◌∷◌, false, arith, ltb, get_elem?_past, take,
  ◌-ℤ◌, nat_eq,
}
use maelstromdb.Base.Result.{ok, undefined}
use maelstromdb.Base.SortedMap
use maelstromdb.Protos.{LogEntry}
use maelstromdb.Storage.{PersistedLog, Serializer, detached, open_page, set_open_page}
use maelstromdb.Storage.Suffix.{truncate_suffix}
use maelstromdb.Storage.Writes.{
  append_one, persist_log_entries, persist_entry, write_entry, is_full,
}
use maelstromdb.Storage.Entries.{entry_at, entry_in}
use maelstromdb.Storage.Append.{IsWritable}
use maelstromdb.Storage.Branches.{truncate_choice, drop_open_page_lem}
use maelstromdb.Storage.Chain.{
  Indices, Chain, IsShape, IsWellFormed, contents, with_pages, with_pages_lem,
}
use maelstromdb.Storage.Pages.{
  Page, new_page, remaining_space, to_size_t, write_log_entry, append_entry,
}

-- Past the end of the pages, a read leaves the vector of the last page, or the map.
entry_past :
    (m : Indices) (n i : ℕ)
    → Chain m n
    → n ≤ i
    → entry_in i (SortedMap.last_at_most ltb i m) ≡ undefined
unfolding entry_in SortedMap.last_at_most
entry_past [] n i c le = refl
entry_past ((k, p) ∷ m) n i c le =
    ground (arith, c.0.start, c.0.count, get_elem?_past p.log_entries (i - p.start_index))

module _ (io : Serializer) (e : LogEntry) where
  -- An append to an empty page that only `m_open_page` leads to.
  append_detached :
      (l : PersistedLog) (start : ℕ)
      → l.m_open_page ≡ detached (new_page start l.m_max_file_size)
      → IsWritable io l.m_max_file_size e
      → (l' : PersistedLog) × (append_one io e l ≡ ok (l.m_log_size, l'))
        × (l'.m_log_indices ≡ l.m_log_indices)
        × (l'.m_log_size ≡ l.m_log_size + 1)
  unfolding append_one persist_log_entries persist_entry write_entry is_full open_page set_open_page
      to_size_t remaining_space ◌-ℤ◌
  append_detached l start at w = (
    record l {
      m_open_page =
          detached (write_log_entry (io.byte_size e) e (new_page start l.m_max_file_size));
      m_log_size = l.m_log_size + 1;
      m_disk = append_entry (new_page start l.m_max_file_size).filename e ∷ l.m_disk;
    },
    ground (arith, w.small, w.written l.m_disk),
    refl,
    refl,
  )

  orphan_at :
      (start : ℕ) (page : Page) (closed : Indices) (l : PersistedLog) (r : ℕ)
      → IsShape start page closed l.m_log_size l.m_max_file_size
      → r ≤ start
      → r < l.m_log_size
      → IsWritable io l.m_max_file_size e
      → (l' : PersistedLog) × (l'' : PersistedLog) × (truncate_suffix r
            (with_pages start page closed l)
          ≡ ok l')
        × (append_one io e l' ≡ ok (r, l''))
        × (l''.m_log_size ≡ r + 1)
        × (contents l''.m_log_indices ≡ take r (contents ((start, page) ∷ closed)))
        × (entry_at (ℤ.pos r) l'' ≡ undefined)
  unfolding entry_at
  orphan_at start page closed l r sh le below w =
      let (l', done, o) = drop_open_page_lem start page closed l r sh le in
      let test : ltb start r ≡ false = ground arith in
      let (l'', appended, same, size) =
        append_detached l' start (rw o.limit o.orphan) (rw o.limit w) in
      let past = entry_past l'.m_log_indices r r o.chain (omega arith) in
      (
        l',
        l'',
        truncate_choice start page closed l r sh below ∙ rw test done,
        rw (← o.size) appended,
        omega (arith, size, o.size),
        ap contents same ∙ o.entries,
        ground (arith, past, same, size, o.size),
      )

  -- On a well-formed log, after a truncation inside the log and at or below the start of the open
  -- page, an entry that fits is appended with success and under the right index, but the index of
  -- pages does not get it, and `Entry` at that index reads outside a vector or the map.
  pub entry_at-truncate_suffix :
      (l : PersistedLog) (r : ℕ) (wf : IsWellFormed l)
      → r ≤ wf.start
      → r < l.m_log_size
      → IsWritable io l.m_max_file_size e
      → (l' : PersistedLog) × (l'' : PersistedLog) × (truncate_suffix r l ≡ ok l')
        × (append_one io e l' ≡ ok (r, l''))
        × (l''.m_log_size ≡ r + 1)
        × (contents l''.m_log_indices ≡ take r (contents l.m_log_indices))
        × (entry_at (ℤ.pos r) l'' ≡ undefined)
  entry_at-truncate_suffix l r wf le below w =
      rw (with_pages_lem l wf) (orphan_at wf.start wf.page wf.closed l r wf.shape le below w)
