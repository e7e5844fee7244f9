-- ===== src/Storage/Entries.antt =====
-- src/raft/storage.cpp: the entries, the last term and the latest configuration, read from the
-- pages.
use maelstromdb.Base.{
  ℕ, ℤ, zero, suc, ◌+◌, ◌-◌, List, [], ◌∷◌, ◌++◌, map, ◌||◌, ◌&&◌, Option, none, some,
  if◌then◌else◌, ltb, leb, length, get_elem?, take, drop, minus_one, nat_eq,
}
use maelstromdb.Base.Result.{Result, ok, throw, undefined, out_of_range, ◌>>=◌}
use maelstromdb.Base.SortedMap
use maelstromdb.Protos.{LogEntry, Configuration, has_configuration, configuration_of}
use maelstromdb.Storage.Pages.{PageRecord, Page}
use maelstromdb.Storage.{PersistedLog, last_log_index}

-- `Entry`
unfoldable pub entry_in : ℕ → Option (ℕ × Page) → Result LogEntry
entry_in idx none = undefined
entry_in idx (some (k, p)) =
    if ltb idx p.start_index
    then undefined
    else elim (get_elem? p.log_entries (idx - p.start_index)) [
      | none ↦ undefined
      | some r ↦ ok r.entry
    ]

unfoldable pub entry_at : ℤ → PersistedLog → Result LogEntry
unfolding entry_in
entry_at (ℤ.pos idx) l =
    if leb l.m_log_size idx
    then throw out_of_range
    else entry_in idx (SortedMap.last_at_most ltb idx l.m_log_indices)
entry_at (ℤ.negsuc _) l = throw out_of_range

-- `LastLogTerm`
unfoldable pub last_log_term : PersistedLog → Result ℤ
last_log_term l =
    if ltb 0 l.m_log_size then (do e ← entry_at (last_log_index l) l; ok e.term) else ok minus_one

-- The range of a vector from one iterator to another, which must lie within the vector.
unfoldable pub slice {ℓ} : {A : Type ℓ} → ℕ → ℕ → List A → Result (List A)
slice first last xs =
    if leb first last && leb last (length xs)
    then ok (take (last - first) (drop first xs))
    else undefined

-- The records that one round of the loop of `Entries` reads from the page, from `start` as the
-- round has changed it.
unfoldable pub page_slice : ℕ → ℕ → Page → Result (List PageRecord)
page_slice start end p =
    if leb end p.end_index
    then slice start (end - p.start_index) p.log_entries
    else slice start (length p.log_entries) p.log_entries

-- The loop of `Entries`; `undefined` also stands for a loop that does not end within the fuel.
unfoldable pub entries_loop :
    ℕ → ℕ → ℕ → ℕ → List (ℕ × Page) → List PageRecord → Result (List PageRecord)
entries_loop zero start curr end indices records = undefined
entries_loop (suc fuel) start curr end indices records =
    if leb end curr then ok records else elim (SortedMap.last_at_most ltb curr indices) [
      | none ↦ undefined
      | some (k, p) ↦
          let start' = if leb p.start_index start then start - p.start_index else 0 in
          elim (page_slice start' end p) [
            | ok read ↦ entries_loop fuel start' p.end_index end indices (records ++ read)
            | throw e ↦ throw e
            | undefined ↦ undefined
          ]
    ]

unfoldable pub entry_of : PageRecord → LogEntry
entry_of r = r.entry

-- `Entries`, with as much fuel as there are entries to read and one more for the last test.
unfoldable pub entries : ℤ → ℤ → PersistedLog → Result (List LogEntry)
entries (ℤ.pos start) (ℤ.pos end) l =
    if ltb end start || ltb l.m_log_size end then throw out_of_range else (do
      records ← entries_loop (suc (end - start)) start start end l.m_log_indices []
      ok (map entry_of records))
entries _ _ l = throw out_of_range

-- The inner loop of `LatestConfiguration`.
unfoldable pub first_configuration : ℕ → List PageRecord → Option (ℕ × Configuration)
first_configuration log_index [] = none
first_configuration log_index (r ∷ records) =
    if has_configuration r.entry
    then some (log_index, configuration_of r.entry)
    else first_configuration (log_index + 1) records

-- `LatestConfiguration`, from the last page to the first; `none` is `(0, false)`.
unfoldable pub latest_configuration_in : List (ℕ × Page) → Option (ℕ × Configuration)
unfolding first_configuration
latest_configuration_in [] = none
latest_configuration_in ((k, p) ∷ indices) =
    let earlier = latest_configuration_in indices in
    elim (first_configuration p.start_index p.log_entries) [
      | none ↦ earlier
      | some found ↦ some found
    ]

unfoldable pub latest_configuration : PersistedLog → Option (ℕ × Configuration)
unfolding latest_configuration_in
latest_configuration l = latest_configuration_in l.m_log_indices
