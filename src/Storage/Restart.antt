-- ===== src/Storage/Restart.antt =====
-- What restarts of the log leave of its entries.
use maelstromdb.Base.{
  ap, ℕ, ℤ, ◌+◌, ◌≡◌, refl, List, [], ◌∷◌, true, false, ltb, eqb, leb, length, find, arith,
}
use maelstromdb.Base.Result.{ok, undefined}
use maelstromdb.Base.SortedMap
use maelstromdb.Storage.{PersistedLog, detached}
use maelstromdb.Storage.Entries.{entry_at, entry_in}
use maelstromdb.Storage.Pages.{PageRecord, create, open_file}
use maelstromdb.Storage.Restore.{
  closed, opened, restored_page, open_page_at, restore_file, restore_files, with_open_page,
  restored_log,
}

-- A restart from a closed file that starts at 0 and an open one makes files of the names of both
-- pages as open ones, among them `open-0`, which was not there. A restart from these files and an
-- empty `open-0` keeps the page of the open file's entries in `m_open_page` alone, under no key of
-- the map: the log counts these entries, and reading the first of them is undefined.
pub second_restart :
    (max : ℕ) (r : PageRecord) (rs : List PageRecord) (e : PageRecord) (es : List PageRecord)
    → (k : PersistedLog) × (l : PersistedLog) × (restored_log max
          (closed 0 (r ∷ rs) ∷ opened (e ∷ es) ∷ [])
        ≡ ok k)
      × (k.m_disk ≡ create (open_file (length (r ∷ rs))) ∷ create (open_file 0) ∷ [])
      × (restored_log max (closed 0 (r ∷ rs) ∷ opened [] ∷ opened (e ∷ es) ∷ []) ≡ ok l)
      × (l.m_log_size ≡ length (r ∷ rs) + length (e ∷ es))
      × (l.m_open_page ≡ detached (restored_page (length (r ∷ rs)) true max (e ∷ es)))
      × (entry_at (ℤ.pos (length (r ∷ rs))) l ≡ undefined)
unfolding restored_log restore_files restore_file restored_page open_page_at with_open_page entry_at
    entry_in SortedMap.insert SortedMap.last_at_most find
second_restart max r rs e es =
    let n = length (r ∷ rs) in
    let k = length (e ∷ es) in
    let after : ltb 0 (0 + n) ≡ true = ground arith in
    let past : ltb (0 + n) (0 + n + 0) ≡ false = ground arith in
    let same : eqb (0 + n) (0 + n + 0) ≡ true = ground arith in
    let inside : leb (0 + n + 0 + k) n ≡ false = ground arith in
    let found : ltb n (0 + n) ≡ false = ground arith in
    let start : 0 + n ≡ n = omega arith in
    let start_page : 0 + n + 0 ≡ n = omega arith in
    (
      _,
      _,
      refl,
      ap (λ m. create (open_file m) ∷ create (open_file 0) ∷ []) start,
      refl,
      omega arith,
      rw (open_page_at, after, same)
          (ap (λ m. detached (restored_page m true max (e ∷ es))) start_page),
      rw (after, past, same, inside, found) (rw found refl),
    )
