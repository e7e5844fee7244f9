-- ===== src/Storage/MetadataFiles.antt =====
-- src/raft/storage.cpp: the files `metadata1` and `metadata2`, which `SetMetadata` writes in turn
-- and `LoadMetadata` reads.
use maelstromdb.Base.{
  ℕ, ℤ, ◌≡◌, ◌∙◌, refl, sym, ap, List, [], ◌∷◌, ◌++◌, Bool, true, false, Bool-cases, inl, inr,
  Option, none, some, ◌<ℤ◌, ◌%◌, ◌+◌, ◌+ℤ◌, pos_part, neg_part, if◌then◌else◌, eqb, arith, ltb_ℤ,
  nat_eq,
}
use maelstromdb.Base.Result.{ok, >>=_inversion, ok-injective}
use maelstromdb.Protos.{LogMetadata}
use maelstromdb.Storage.{PersistedLog, set_metadata}
use maelstromdb.Storage.Pages.{DiskOp, metadata_file, write_metadata}
use maelstromdb.Storage.Restore.{
  StoredFile, metadata, closed, opened, Restoring, newer_metadata, restore_file, restore_files,
  with_open_page, restored_log,
}

-- What the two files hold, where they are there.
pub record MetadataFiles : Type 0 where
  pub first : Option LogMetadata
  pub second : Option LogMetadata

-- The two files after an operation on the directory.
unfoldable pub written : DiskOp → MetadataFiles → MetadataFiles
written (write_metadata (metadata_file n) m) fs =
    if eqb n 1 then record fs { first = some m } else record fs { second = some m }
written _ fs = fs

-- The two files after operations, of which the last stands first.
unfoldable pub all_written : List DiskOp → MetadataFiles → MetadataFiles
all_written [] fs = fs
all_written (op ∷ ops) fs = written op (all_written ops fs)

unfoldable pub stored : Option LogMetadata → List StoredFile
stored none = []
stored (some m) = metadata (some m) ∷ []

-- The metadata files of the directory, in the order of their names.
unfoldable pub stored_metadata : MetadataFiles → List StoredFile
stored_metadata fs = stored fs.first ++ stored fs.second

-- The metadata files among files.
unfoldable pub metadata_of : List StoredFile → List StoredFile
metadata_of [] = []
metadata_of (closed start records ∷ files) = metadata_of files
metadata_of (opened records ∷ files) = metadata_of files
metadata_of (metadata m ∷ files) = metadata m ∷ metadata_of files

abbrev pub unset : LogMetadata
unset = record { version = ℤ.pos 0; term = ℤ.pos 0; vote = [] }

-- A file that is not there, or holds an earlier version than `v`.
pub data IsEarlier (v : ℤ) : Option LogMetadata → Type 0 where
  absent : IsEarlier v none
  earlier : (m : LogMetadata) → m.version <ℤ v → IsEarlier v (some m)

-- Whether the metadata of the version is in `metadata1`.
abbrev is_even : ℕ → Bool
is_even n = eqb (n % 2) 0

-- The metadata of the log are in the file of their version, and the other file is older, or there
-- is no file for metadata that were never set.
pub data IsCurrent (m : LogMetadata) (fs : MetadataFiles) : Type 0 where
  never_set : m ≡ unset → fs.first ≡ none → fs.second ≡ none → IsCurrent m fs
  in_first :
      (n : ℕ)
      → m.version ≡ ℤ.pos (n + 1)
      → is_even (n + 1) ≡ true
      → fs.first ≡ some m
      → IsEarlier m.version fs.second
      → IsCurrent m fs
  in_second :
      (n : ℕ)
      → m.version ≡ ℤ.pos (n + 1)
      → is_even (n + 1) ≡ false
      → fs.second ≡ some m
      → IsEarlier m.version fs.first
      → IsCurrent m fs

flip_even : (n : ℕ) → is_even (n + 1) ≡ (if is_even n then false else true)
flip_even n = ground arith

newly_first :
    (k : ℕ) (old new : LogMetadata) (fs : MetadataFiles)
    → old.version ≡ ℤ.pos k
    → new.version ≡ ℤ.pos (k + 1)
    → is_even (k + 1) ≡ true
    → IsCurrent old fs
    → IsCurrent new (record fs { first = some new })
newly_first k old new fs before after even (never_set same first second) =
    in_first k after even refl (rw second absent)
newly_first k old new fs before after even (in_first n version flag first second) =
    absurd (ground arith)
newly_first k old new fs before after even (in_second n version flag second first) =
    in_first k after even refl (rw second (earlier old (rw (before, after) (omega arith))))

newly_second :
    (k : ℕ) (old new : LogMetadata) (fs : MetadataFiles)
    → old.version ≡ ℤ.pos k
    → new.version ≡ ℤ.pos (k + 1)
    → is_even (k + 1) ≡ false
    → IsCurrent old fs
    → IsCurrent new (record fs { second = some new })
newly_second k old new fs before after odd (never_set same first second) =
    in_second k after odd refl (rw first absent)
newly_second k old new fs before after odd (in_first n version flag first second) =
    in_second k after odd refl (rw first (earlier old (rw (before, after) (omega arith))))
newly_second k old new fs before after odd (in_second n version flag second first) =
    absurd (ground arith)

IsCurrent-version :
    (m : LogMetadata) (fs : MetadataFiles) → IsCurrent m fs → (k : ℕ) × (m.version ≡ ℤ.pos k)
IsCurrent-version m fs (never_set same first second) = (0, ap (λ x. x.version) same)
IsCurrent-version m fs (in_first n version flag first second) = (n + 1, version)
IsCurrent-version m fs (in_second n version flag second first) = (n + 1, version)

pos_next : (k : ℕ) (v : ℤ) → v ≡ ℤ.pos k → (v +ℤ ℤ.pos 1) ≡ ℤ.pos (k + 1)
unfolding ◌+ℤ◌
pos_next k v h = rw h (ground arith)

-- `SetMetadata` keeps the files current.
pub set_metadata-IsCurrent :
    (new : LogMetadata) (l : PersistedLog) (fs : MetadataFiles)
    → IsCurrent l.m_metadata (all_written l.m_disk fs)
    → IsCurrent (set_metadata new l).m_metadata (all_written (set_metadata new l).m_disk fs)
unfolding set_metadata all_written written
set_metadata-IsCurrent new l fs current =
    let (k, before) = IsCurrent-version l.m_metadata (all_written l.m_disk fs) current in
    let after = pos_next k l.m_metadata.version before in
    let stored_now : LogMetadata = record new { version = l.m_metadata.version +ℤ ℤ.pos 1 } in
    elim (Bool-cases (is_even (k + 1))) [
      | inl even ↦
          let test : is_even (pos_part stored_now.version + neg_part stored_now.version) ≡ true =
            rw after (ground arith) in
          rw test (
            newly_first k l.m_metadata stored_now (all_written l.m_disk fs) before after even
              current)
      | inr odd ↦
          let test : is_even (pos_part stored_now.version + neg_part stored_now.version) ≡ false =
            rw after (ground arith) in
          rw test (
            newly_second k l.m_metadata stored_now (all_written l.m_disk fs) before after odd
              current)
    ]

-- The metadata after the metadata files among files are read.
unfoldable pub loaded : List StoredFile → LogMetadata → LogMetadata
loaded [] m = m
loaded (metadata (some x) ∷ files) m = loaded files (newer_metadata x m)
loaded (_ ∷ files) m = loaded files m

loaded-metadata_of :
    (files : List StoredFile) (m : LogMetadata) → loaded files m ≡ loaded (metadata_of files) m
unfolding loaded metadata_of
loaded-metadata_of [] m = refl
loaded-metadata_of (closed start records ∷ files) m = loaded-metadata_of files m
loaded-metadata_of (opened records ∷ files) m = loaded-metadata_of files m
loaded-metadata_of (metadata none ∷ files) m = loaded-metadata_of files m
loaded-metadata_of (metadata (some x) ∷ files) m = loaded-metadata_of files (newer_metadata x m)

one_loaded :
    (max : ℕ) (file : StoredFile) (files : List StoredFile) (r t : Restoring)
    → restore_file max file r ≡ ok t
    → loaded files t.m_metadata ≡ loaded (file ∷ files) r.m_metadata
unfolding restore_file loaded
one_loaded max (closed start records) files r t h =
    ap (λ u. loaded files u.m_metadata) (sym (ok-injective h))
one_loaded max (opened records) files r t h =
    ap (λ u. loaded files u.m_metadata) (sym (ok-injective h))
one_loaded max (metadata none) files r t h = cc
one_loaded max (metadata (some x)) files r t h =
    ap (λ u. loaded files u.m_metadata) (sym (ok-injective h))

restore_files-loaded :
    (max : ℕ) (files : List StoredFile) (r t : Restoring)
    → restore_files max files r ≡ ok t
    → t.m_metadata ≡ loaded files r.m_metadata
unfolding restore_files loaded
restore_files-loaded max [] r t h = ap (λ u. u.m_metadata) (sym (ok-injective h))
restore_files-loaded max (file ∷ files) r t h =
    let (u, restored, left) =
      >>=_inversion (restore_file max file r) (restore_files max files) t h in
    restore_files-loaded max files u t left ∙ one_loaded max file files r u restored

set_after_unset :
    (n : ℕ) (m : LogMetadata) → m.version ≡ ℤ.pos (n + 1) → ltb_ℤ m.version (ℤ.pos 0) ≡ false
set_after_unset n m version = rw version (ground arith)

loaded_last :
    (m : LogMetadata) (o : Option LogMetadata) → IsEarlier m.version o → loaded (stored o) m ≡ m
unfolding loaded stored newer_metadata
loaded_last m none absent = refl
loaded_last m (some x) (earlier _ old) =
    let lower : ltb_ℤ x.version m.version ≡ true = ground arith in rw lower refl

loaded_first :
    (n : ℕ) (m : LogMetadata) (o : Option LogMetadata)
    → m.version ≡ ℤ.pos (n + 1)
    → IsEarlier m.version o
    → loaded (stored o ++ metadata (some m) ∷ []) unset ≡ m
unfolding loaded stored newer_metadata
loaded_first n m none version absent = rw (set_after_unset n m version) refl
loaded_first n m (some x) version (earlier _ old) = elim (Bool-cases (ltb_ℤ x.version (ℤ.pos 0))) [
  | inl negative ↦ rw (negative, set_after_unset n m version) refl
  | inr other ↦
      let higher : ltb_ℤ m.version x.version ≡ false = ground arith in rw (other, higher) refl
]

-- The newer of the two files counts, in either order.
pub loaded-IsCurrent :
    (m : LogMetadata) (fs : MetadataFiles) → IsCurrent m fs → loaded (stored_metadata fs) unset ≡ m
unfolding loaded stored_metadata stored newer_metadata
loaded-IsCurrent m fs (never_set same first second) = rw (first, second) (sym same)
loaded-IsCurrent m fs (in_first n version flag first second) =
    let read : newer_metadata m unset ≡ m = rw (newer_metadata, set_after_unset n m version) refl in
    rw first (ap (loaded (stored fs.second)) read ∙ loaded_last m fs.second second)
loaded-IsCurrent m fs (in_second n version flag second first) =
    rw second (loaded_first n m fs.first version first)

-- The constructor, from any files of the log, restores the metadata of the two files.
pub restored_log-metadata :
    (max : ℕ) (files : List StoredFile) (m : LogMetadata) (fs : MetadataFiles) (l : PersistedLog)
    → IsCurrent m fs
    → metadata_of files ≡ stored_metadata fs
    → restored_log max files ≡ ok l
    → l.m_metadata ≡ m
unfolding restored_log with_open_page
restored_log-metadata max files m fs l current same h =
    let initial : Restoring = record {
      m_metadata = unset;
      m_log_size = 0;
      m_open_page = none;
      m_log_indices = [];
      m_disk = [];
    } in
    let (r, restored, h') =
      >>=_inversion (restore_files max files initial) (λ r. ok (with_open_page max r)) l h in
    let kept : l.m_metadata ≡ r.m_metadata =
      ap (λ u. u.m_metadata) (sym (ok-injective h')) ∙ ground arith in
    kept
    ∙ restore_files-loaded max files initial r restored
    ∙ loaded-metadata_of files unset
    ∙ ap (λ ms. loaded ms unset) same
    ∙ loaded-IsCurrent m fs current

pub restore_stored_metadata :
    (max : ℕ) (fs : MetadataFiles) (r : Restoring)
    → restore_files max (stored_metadata fs) r
      ≡ ok (record r { m_metadata = loaded (stored_metadata fs) r.m_metadata })
unfolding restore_files restore_file stored_metadata loaded stored
restore_stored_metadata max fs r = restore_both fs.first fs.second
  where
    restore_both :
        (first second : Option LogMetadata)
        → restore_files max (stored first ++ stored second) r
          ≡ ok (record r { m_metadata = loaded (stored first ++ stored second) r.m_metadata })
    restore_both none none = refl
    restore_both none (some x) = refl
    restore_both (some x) none = refl
    restore_both (some x) (some y) = refl

-- Where the newer of the two metadata files holds the metadata of the log, or there are none and
-- none were set, and `SetMetadata` sets new ones, a restart that succeeds, from any files among
-- which these two are as the operations on the directory have left them, restores the new metadata,
-- with the next version.
pub set_metadata-restored :
    (max : ℕ) (new : LogMetadata) (l : PersistedLog) (fs : MetadataFiles) (files : List StoredFile)
    (restored : PersistedLog)
    → IsCurrent l.m_metadata (all_written l.m_disk fs)
    → metadata_of files ≡ stored_metadata (all_written (set_metadata new l).m_disk fs)
    → restored_log max files ≡ ok restored
    → (restored.m_metadata.term ≡ new.term)
      × (restored.m_metadata.vote ≡ new.vote)
      × (restored.m_metadata.version ≡ l.m_metadata.version +ℤ ℤ.pos 1)
unfolding set_metadata
set_metadata-restored max new l fs files restored current same h =
    let after = set_metadata-IsCurrent new l fs current in
    let kept =
      restored_log-metadata max files (set_metadata new l).m_metadata
        (all_written (set_metadata new l).m_disk fs) restored after same h in
    (ap (λ m. m.term) kept, ap (λ m. m.vote) kept, ap (λ m. m.version) kept)
