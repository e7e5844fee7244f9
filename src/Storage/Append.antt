-- ===== src/Storage/Append.antt =====
-- `Append` and `PersistLogEntries`: a well-formed log grows by the new entries.
use maelstromdb.Base.{
  ℕ, ◌+◌, ◌≤◌, ◌≡◌, ◌≢◌, refl, sym, ap, ◌∙◌, List, [], ◌∷◌, ◌++◌, true, false, inl, inr, Bool-cases,
  arith, length, append_assoc, append-nil, length-append, map-append, nat_eq, ◌-ℤ◌,
}
use maelstromdb.Base.Result.{ok}
use maelstromdb.Protos.{LogEntry}
use maelstromdb.Storage.{PersistedLog, Serializer}
use maelstromdb.Storage.Writes.{persist_entry, persist_log_entries, write_entry, is_full, append}
use maelstromdb.Storage.Entries.{entry_of}
use maelstromdb.Storage.Chain.{
  Indices, IsShape, IsWellFormed, contents, with_pages, with_pages_lem, page_entries,
}
use maelstromdb.Storage.Pages.{
  Page, new_page, close, remaining_space, to_size_t, write_log_entry, append_entry, DiskOp,
}
use maelstromdb.Storage.Reopened.{
  append-ne-nil, create_open_file_lem, open_page_lem, set_open_page_lem, reopened, reopened-IsShape,
  reopened-contents,
}

-- What the serializer must provide for a new entry: it fits into an empty file, and is written.
pub record IsWritable (io : Serializer) (max : ℕ) (e : LogEntry) : Type 0 where
  pub small : io.byte_size e ≤ max
  pub written : (ops : List DiskOp) → io.write_succeeds ops e ≡ true

module _ (io : Serializer) where
  -- The log after one entry: it is well formed and has the entry at its end.
  pub record Grown (l l' : PersistedLog) (es : List LogEntry) : Type 0 where
    pub well_formed : IsWellFormed l'
    pub grown : contents l'.m_log_indices ≡ contents l.m_log_indices ++ es
    pub size : l'.m_log_size ≡ l.m_log_size + length es
    pub limit : l'.m_max_file_size ≡ l.m_max_file_size

  -- A page with room for the entry: the entry is written to it.
  room-Grown :
      (start : ℕ) (page : Page) (closed : Indices) (l : PersistedLog) (e : LogEntry)
      (ops : List DiskOp)
      → IsShape start page closed l.m_log_size l.m_max_file_size
      → page.byte_offset + io.byte_size e ≤ page.max_file_size
      → Grown
          (with_pages start page closed l)
          (record (with_pages start (write_log_entry (io.byte_size e) e page) closed l) {
            m_log_size = l.m_log_size + 1;
            m_disk = ops;
          })
          (e ∷ [])
  unfolding write_log_entry contents entry_of
  room-Grown start page closed l e ops sh room = record {
    well_formed = record {
      start = start;
      page = write_log_entry (io.byte_size e) e page;
      closed = closed;
      indices = refl;
      open_in_map = refl;
      shape = record {
        is_open = sh.is_open;
        paged = record {
          chain = (
            record {
              start = sh.chain.0.start;
              end = omega (arith, sh.chain.0.end);
              count = omega (
                arith,
                sh.chain.0.count,
                length-append page.log_entries
                    (record { offset = page.byte_offset; entry = e } ∷ []),
              );
            },
            sh.chain.1,
          );
          nonempty = sh.nonempty;
        };
        limit = sh.limit;
        fits = room;
        blank = λ none_left. absurd (append-ne-nil page.log_entries _ none_left);
      };
    };
    grown =
        rw (map-append entry_of page.log_entries)
          (sym (append_assoc (contents closed) (page_entries page) (e ∷ [])));
    size = refl;
    limit = refl;
  }

  write_entry-Grown :
      (start : ℕ) (page : Page) (closed : Indices) (l : PersistedLog) (e : LogEntry)
      → IsShape start page closed l.m_log_size l.m_max_file_size
      → page.byte_offset + io.byte_size e ≤ page.max_file_size
      → IsWritable io l.m_max_file_size e
      → (l' : PersistedLog) × (write_entry io e page (with_pages start page closed l) ≡ ok l')
        × Grown (with_pages start page closed l) l' (e ∷ [])
  unfolding write_entry
  write_entry-Grown start page closed l e sh room w = (
    record (with_pages start (write_log_entry (io.byte_size e) e page) closed l) {
      m_log_size = l.m_log_size + 1;
      m_disk = append_entry page.filename e ∷ l.m_disk;
    },
    rw (w.written l.m_disk, set_open_page_lem),
    room-Grown start page closed l e (append_entry page.filename e ∷ l.m_disk) sh room,
  )

  space_lem :
      (p : Page)
      → p.byte_offset ≤ p.max_file_size
      → to_size_t (remaining_space p) + p.byte_offset ≡ p.max_file_size
  unfolding to_size_t remaining_space ◌-ℤ◌
  space_lem p le = ground arith

  room_of_not_full :
      (e : LogEntry) (p : Page)
      → p.byte_offset ≤ p.max_file_size
      → is_full io e p ≡ false
      → p.byte_offset + io.byte_size e ≤ p.max_file_size
  unfolding is_full
  room_of_not_full e p le room = ground (arith, space_lem p le)

  some_of_full :
      (start size max : ℕ) (e : LogEntry) (p : Page) (closed : Indices)
      → IsShape start p closed size max
      → io.byte_size e ≤ max
      → is_full io e p ≡ true
      → p.log_entries ≢ []
  unfolding is_full
  some_of_full start size max e p closed sh small full none_left =
      ground (arith, space_lem p sh.fits, sh.blank none_left, sh.limit)

  -- What `persist_entry` of a writable entry does.
  abbrev Persists : PersistedLog → LogEntry → Type 0
  Persists l e = (l' : PersistedLog) × (persist_entry io e l ≡ ok l') × Grown l l' (e ∷ [])

  persist_entry-Grown_at :
      (start : ℕ) (page : Page) (closed : Indices) (l : PersistedLog) (e : LogEntry)
      → IsShape start page closed l.m_log_size l.m_max_file_size
      → IsWritable io l.m_max_file_size e
      → Persists (with_pages start page closed l) e
  unfolding persist_entry reopened
  persist_entry-Grown_at start page closed l e sh w = elim (Bool-cases (is_full io e page)) [
    | inl full ↦
        let n = l.m_log_size in
        let new = new_page n l.m_max_file_size in
        let some' = some_of_full start n l.m_max_file_size e page closed sh w.small full in
        let shape = reopened-IsShape start page closed n l.m_max_file_size sh.paged some' in
        let (l', done, grown) =
          write_entry-Grown n new ((start, (close page).0) ∷ closed) (reopened start page closed l)
            e shape (omega (arith, w.small)) w in
        (
          l',
          rw open_page_lem (
              rw full (
                rw (create_open_file_lem start page closed l sh.paged some')
                  (rw open_page_lem done))),
          record {
            well_formed = grown.well_formed;
            grown =
                grown.grown
                ∙ ap (λ t. t ++ e ∷ []) (reopened-contents start n l.m_max_file_size page closed);
            size = grown.size;
            limit = grown.limit;
          },
        )
    | inr room ↦
        let fits = room_of_not_full e page sh.fits room in
        let (l', done, grown) = write_entry-Grown start page closed l e sh fits w in
        (l', rw open_page_lem (rw room (rw open_page_lem done)), grown)
  ]

  -- A round of the loop of `PersistLogEntries` adds the entry.
  pub persist_entry-Grown :
      (l : PersistedLog) (e : LogEntry)
      → IsWellFormed l
      → IsWritable io l.m_max_file_size e
      → Persists l e
  persist_entry-Grown l e wf w =
      rw (with_pages_lem l wf) (persist_entry-Grown_at wf.start wf.page wf.closed l e wf.shape w)

  abbrev pub AreWritable : ℕ → List LogEntry → Type 0
  AreWritable max [] = Unit
  AreWritable max (e ∷ es) = IsWritable io max e × AreWritable max es

  persist_log_entries-Grown :
      (es : List LogEntry) (l : PersistedLog)
      → IsWellFormed l
      → AreWritable l.m_max_file_size es
      → (l' : PersistedLog) × (persist_log_entries io es l ≡ ok l') × Grown l l' es
  unfolding persist_log_entries
  persist_log_entries-Grown [] l wf w = (
    l,
    refl,
    record { well_formed = wf; grown = sym (append-nil _); size = omega arith; limit = refl },
  )
  persist_log_entries-Grown (e ∷ es) l wf w =
      let (l', done, g) = persist_entry-Grown l e wf w.0 in
      let (l'', rest, h) = persist_log_entries-Grown es l' g.well_formed (rw g.limit w.1) in
      (
        l'',
        rw done rest,
        record {
          well_formed = h.well_formed;
          grown =
              h.grown
              ∙ ap (λ t. t ++ es) g.grown
              ∙ append_assoc (contents l.m_log_indices) (e ∷ []) es;
          size = omega (arith, h.size, g.size);
          limit = h.limit ∙ g.limit;
        },
      )

  -- On a well-formed log, where each new entry fits into an empty file and its write succeeds,
  -- `Append` succeeds; the log is well formed again and is the old one followed by the new entries,
  -- and the result is the range of their indices.
  pub append-contents :
      (es : List LogEntry) (l : PersistedLog)
      → IsWellFormed l
      → AreWritable l.m_max_file_size es
      → (l' : PersistedLog) × (append io es l ≡ ok (l.m_log_size, l.m_log_size + length es, l'))
        × IsWellFormed l'
        × (contents l'.m_log_indices ≡ contents l.m_log_indices ++ es)
  unfolding append
  append-contents es l wf w =
      let (l', done, g) = persist_log_entries-Grown es l wf w in
      (l', rw done (rw g.size), g.well_formed, g.grown)
