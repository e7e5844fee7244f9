-- ===== src/Storage/Saved.antt =====
-- A log that is written to files and restored from them.
use maelstromdb.Base.{
  ℕ, ℤ, ◌+◌, ◌≡◌, refl, sym, ap, ◌∙◌, List, [], ◌∷◌, ◌++◌, true, false, none, length, arith,
}
use maelstromdb.Base.Result.{Result, ok, throw, undefined, ◌>>=◌}
use maelstromdb.Storage.{PersistedLog, OpenPage, in_map}
use maelstromdb.Storage.Pages.{DiskOp, create, open_file, Page}
use maelstromdb.Storage.Chain.{
  Indices, page_entries, contents, Chain, NonEmpty, IsWellFormed, find_past,
}
use maelstromdb.Storage.Branches.{insert_past}
use maelstromdb.Storage.MetadataFiles.{
  MetadataFiles, stored_metadata, IsCurrent, loaded-IsCurrent, restore_stored_metadata,
}
use maelstromdb.Storage.Restore.{
  StoredFile, closed, opened, Restoring, restored_page, open_page_at, newer_metadata, restore_file,
  restore_files, with_open_page, restored_log,
}

-- The files of closed pages, in the order of their names.
unfoldable pub closed_files : Indices → List StoredFile
closed_files [] = []
closed_files ((k, p) ∷ m) = closed_files m ++ closed k p.log_entries ∷ []

-- A directory with a file for each page, that holds the entries of the page, with the metadata
-- files, and with no other file.
unfoldable pub stored_files : MetadataFiles → Page → Indices → List StoredFile
unfolding closed_files
stored_files fs page pages =
    closed_files pages ++ (stored_metadata fs ++ (opened page.log_entries ∷ []))

-- Two chains, where the second part of the first does what two parts of the other do.
>>=_nested :
    {X : Type 0} {Y : Type 0} {Z : Type 0} (q : Result X) (f : X → Result Y) (g : Y → Result Z)
    {h : X → Result Z}
    → ((x : X) → h x ≡ (f x >>= g))
    → (q >>= h) ≡ ((q >>= f) >>= g)
>>=_nested (ok x) f g same = same x
>>=_nested (throw error) f g same = refl
>>=_nested undefined f g same = refl

module _ (max : ℕ) where
  -- What the restored log holds for closed pages.
  unfoldable restored_pages : Indices → Indices
  restored_pages [] = []
  restored_pages ((k, p) ∷ m) = (k, restored_page k false max p.log_entries) ∷ restored_pages m

  restore_files_append :
      (fs gs : List StoredFile) (r : Restoring)
      → restore_files max (fs ++ gs) r ≡ (restore_files max fs r >>= restore_files max gs)
  unfolding restore_files
  restore_files_append [] gs r = refl
  restore_files_append (f ∷ fs) gs r =
      >>=_nested (restore_file max f r) (restore_files max fs) (restore_files max gs)
        (restore_files_append fs gs)

  restored_pages-Chain : (m : Indices) (n : ℕ) → Chain m n → Chain (restored_pages m) n
  unfolding restored_pages restored_page
  restored_pages-Chain [] n c = c
  restored_pages-Chain ((k, p) ∷ m) n c = (
    record { start = refl; end = omega (arith, c.0.count); count = c.0.count },
    restored_pages-Chain m k c.1,
  )

  restored_pages-NonEmpty : (m : Indices) → NonEmpty m → NonEmpty (restored_pages m)
  unfolding restored_pages restored_page
  restored_pages-NonEmpty [] f = f
  restored_pages-NonEmpty ((k, p) ∷ m) f = (f.0, restored_pages-NonEmpty m f.1)

  contents-restored_pages : (m : Indices) → contents (restored_pages m) ≡ contents m
  unfolding restored_pages restored_page contents
  contents-restored_pages [] = refl
  contents-restored_pages ((k, p) ∷ m) = ap (λ t. t ++ page_entries p) (contents-restored_pages m)

  -- Closed pages as they are restored.
  abbrev restoring : Indices → ℕ → List DiskOp → Restoring
  restoring m n disk = record {
    m_metadata = record { version = ℤ.pos 0; term = ℤ.pos 0; vote = [] };
    m_log_size = n;
    m_open_page = none;
    m_log_indices = restored_pages m;
    m_disk = disk;
  }

  restore_closed_files :
      (m : Indices) (n : ℕ)
      → Chain m n
      → NonEmpty m
      → (disk : List DiskOp) × (restore_files max (closed_files m) (restoring [] 0 [])
          ≡ ok (restoring m n disk))
  unfolding restore_files restore_file closed_files restored_pages
  restore_closed_files [] n c f = ([], rw c refl)
  restore_closed_files ((k, p) ∷ m) n c f =
      let r = restore_closed_files m k c.1 f.1 in
      let page = restored_page k false max p.log_entries in
      let past =
        insert_past (restored_pages m) k page (restored_pages-Chain m k c.1)
          (restored_pages-NonEmpty m f.1) in
      (
        create (open_file k) ∷ r.0,
        restore_files_append (closed_files m) (closed k p.log_entries ∷ []) (restoring [] 0 [])
            ∙ rw (r.1, past) (rw (c.0.count) refl),
      )

-- From a directory with a file for each page of a well-formed log, that holds the entries of the
-- page, with the two metadata files of which the newer one holds the metadata, or none where they
-- were never set, and with no other file, the constructor restores a well-formed log with the same
-- entries, size and metadata, and with the open page at the same index.
pub restored_log-stored_files :
    (max : ℕ) (l : PersistedLog) (wf : IsWellFormed l) (fs : MetadataFiles)
    → IsCurrent l.m_metadata fs
    → (restored : PersistedLog) × (restored_log max (stored_files fs wf.page wf.closed)
        ≡ ok restored)
      × (contents restored.m_log_indices ≡ contents l.m_log_indices)
      × (restored.m_log_size ≡ l.m_log_size)
      × (restored.m_metadata ≡ l.m_metadata)
      × (restored.m_open_page ≡ l.m_open_page)
      × IsWellFormed restored
unfolding restored_log restore_files restore_file open_page_at newer_metadata with_open_page
    stored_files contents restored_page restored_pages
restored_log-stored_files max l wf fs current =
    let r = restore_closed_files max wf.closed wf.start wf.shape.chain.1 wf.shape.nonempty in
    let start = wf.start in
    let records = wf.page.log_entries in
    let page = restored_page start true max records in
    let pages = restored_pages max wf.closed in
    let chain = restored_pages-Chain max wf.closed start wf.shape.chain.1 in
    let nonempty = restored_pages-NonEmpty max wf.closed wf.shape.nonempty in
    let no_page = find_past pages start start chain nonempty (omega arith) in
    let past = insert_past pages start page chain nonempty in
    let opening = opened records ∷ [] in
    let closed_log = restoring max wf.closed start r.0 in
    let read : restore_files max (stored_metadata fs) closed_log
        ≡ ok (record closed_log { m_metadata = l.m_metadata }) =
      restore_stored_metadata max fs closed_log
      ∙ ap (λ m. ok (record closed_log { m_metadata = m }))
          (loaded-IsCurrent l.m_metadata fs current) in
    let initial = restoring max [] 0 [] in
    let all : restore_files max (stored_files fs wf.page wf.closed) initial
        ≡ restore_files max opening (record closed_log { m_metadata = l.m_metadata }) =
      restore_files_append max (closed_files wf.closed) (stored_metadata fs ++ opening) initial
      ∙ ap (λ q. q >>= restore_files max (stored_metadata fs ++ opening)) r.1
      ∙ restore_files_append max (stored_metadata fs) opening closed_log
      ∙ ap (λ q. q >>= restore_files max opening) read in
    let result : OpenPage → Indices → PersistedLog = λ open_page indices. record {
      m_metadata = l.m_metadata;
      m_log_size = start + length records;
      m_open_page = open_page;
      m_log_indices = indices;
      m_max_file_size = max;
      m_disk = create (open_file start) ∷ r.0;
    } in
    let is_in_map : open_page_at start page pages ≡ in_map start =
      rw (open_page_at, no_page) refl in
    (
      result (in_map start) ((start, page) ∷ pages),
      ap (λ q. q >>= (λ restored. ok (with_open_page max restored))) all
          ∙ (λ i. ok (result (is_in_map i) (past i))),
      rw wf.indices (ap (λ t. t ++ page_entries wf.page) (contents-restored_pages max wf.closed)),
      omega (arith, wf.shape.chain.0.end, wf.shape.chain.0.count),
      refl,
      sym wf.open_in_map,
      record {
        start = start;
        page = page;
        closed = pages;
        indices = refl;
        open_in_map = refl;
        shape = record {
          is_open = refl;
          paged = record {
            chain = (record { start = refl; end = refl; count = refl }, chain);
            nonempty = nonempty;
          };
          limit = refl;
          fits = omega arith;
          blank = λ _. refl;
        };
      },
    )
