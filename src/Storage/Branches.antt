-- ===== src/Storage/Branches.antt =====
-- The two branches of `TruncateSuffix` on a log with a given open page.
use maelstromdb.Base.{
  ℕ, ◌-◌, ◌≤◌, ◌<◌, ◌≡◌, ◌≢◌, refl, sym, ap, ◌∙◌, [], ◌∷◌, ◌++◌, false, none, if◌then◌else◌, arith,
  ltb, leb, find, erase_key, take, take-append_le, nat_eq,
}
use maelstromdb.Base.Result.{ok, ◌>>=◌}
use maelstromdb.Base.SortedMap
use maelstromdb.Storage.{
  PersistedLog, detached, open_page, set_open_page, create_open_file, replace_open_page,
  add_open_page,
}
use maelstromdb.Storage.Suffix.{
  truncate_suffix, truncate_open_page, without_open_page, drop_closed_pages, drop_open_page,
  drop_pages, Dropped, still_open,
}
use maelstromdb.Storage.Reopened.{
  create_open_file_lem, open_page_lem, set_open_page_lem, reopened, reopened-IsShape,
  reopened-contents,
}
use maelstromdb.Storage.Chain.{
  Indices, Chain, NonEmpty, IsPage, IsPaged, IsShape, IsWellFormed, contents, with_pages, find_past,
  page_entries, length-contents,
}
use maelstromdb.Storage.Pages.{Page, new_page, close, remove_file, create, open_file}
use maelstromdb.Storage.Dropping.{
  page_truncate_suffix-Cut, drop_pages-IsPrefix, drop_page, Cut-contents,
}

erase_key_past : (m : Indices) (n j : ℕ) → Chain m n → NonEmpty m → n ≤ j → erase_key j m ≡ m
unfolding erase_key
erase_key_past [] n j c f le = refl
erase_key_past ((k, p) ∷ m) n j c f le = ground (arith, erase_key_past m k j c.1 f.1)

pub insert_past :
    (m : Indices) (n : ℕ) (q : Page)
    → Chain m n
    → NonEmpty m
    → SortedMap.insert ltb n q m ≡ (n, q) ∷ m
unfolding SortedMap.insert
insert_past [] n q c f = refl
insert_past ((k, p) ∷ m) n q c f = ground arith

module _ (start : ℕ) (page : Page) (closed : Indices) (l : PersistedLog) (r : ℕ) where
  abbrev pub before : PersistedLog
  before = with_pages start page closed l

  pub truncate_choice :
      IsShape start page closed l.m_log_size l.m_max_file_size
      → r < l.m_log_size
      → truncate_suffix r before
        ≡ (if ltb start r then truncate_open_page r page before else drop_open_page r page before)
  unfolding truncate_suffix
  truncate_choice sh below =
      let test : leb l.m_log_size r ≡ false = ground arith in
      rw (test, open_page_lem) (rw sh.chain.0.start)

  -- What a truncation inside the open page leaves: the page is cut and closed, and a new one
  -- opened.
  pub record Reopened (l' : PersistedLog) : Type 0 where
    pub well_formed : IsWellFormed l'
    pub entries : contents l'.m_log_indices ≡ take r (contents before.m_log_indices)
    pub size : l'.m_log_size ≡ r
    pub limit : l'.m_max_file_size ≡ l.m_max_file_size

  pub truncate_open_page_lem :
      IsShape start page closed l.m_log_size l.m_max_file_size
      → start < r
      → r < l.m_log_size
      → (l' : PersistedLog) × (truncate_open_page r page before ≡ ok l') × Reopened l'
  unfolding truncate_open_page reopened
  truncate_open_page_lem sh above below =
      let (p', op, cut, is) =
        page_truncate_suffix-Cut start r l.m_log_size page sh.chain.0 above below in
      let shorter : PersistedLog = record l {
        m_log_size = l.m_log_size - (page.end_index - r);
        m_disk = op ++ l.m_disk;
      } in
      let size : shorter.m_log_size ≡ r = omega (arith, sh.chain.0.end) in
      let paged : IsPaged start p' closed shorter.m_log_size = record {
        chain = rw size (is.page, sh.chain.1);
        nonempty = sh.nonempty;
      } in
      let some' : p'.log_entries ≢ [] =
        λ none_left. absurd (ground (arith, is.page.count, none_left)) in
      (
        with_pages shorter.m_log_size (new_page shorter.m_log_size l.m_max_file_size)
            ((start, (close p').0) ∷ closed) (reopened start p' closed shorter),
        rw cut (
            ap create_open_file (set_open_page_lem start page closed shorter p')
            ∙ create_open_file_lem start p' closed shorter paged some'),
        record {
          well_formed = record {
            start = shorter.m_log_size;
            page = new_page shorter.m_log_size l.m_max_file_size;
            closed = (start, (close p').0) ∷ closed;
            indices = refl;
            open_in_map = refl;
            shape =
                reopened-IsShape start p' closed shorter.m_log_size l.m_max_file_size paged some';
          };
          entries =
              reopened-contents start shorter.m_log_size l.m_max_file_size p' closed
              ∙ Cut-contents r start l.m_log_size page closed [] sh.chain.0 p' sh.chain.1 is above;
          size = size;
          limit = refl;
        },
      )

  -- What a truncation at or below the open page leaves: the map without it, which `m_open_page`
  -- alone still leads to.
  pub record Orphaned (l' : PersistedLog) : Type 0 where
    pub chain : Chain l'.m_log_indices r
    pub nonempty : NonEmpty l'.m_log_indices
    pub entries : contents l'.m_log_indices ≡ take r (contents before.m_log_indices)
    pub size : l'.m_log_size ≡ r
    pub limit : l'.m_max_file_size ≡ l.m_max_file_size
    pub orphan : l'.m_open_page ≡ detached (new_page start l.m_max_file_size)

  -- The log before the new open page is made.
  emptied_page : Page
  emptied_page = record page { end_index = page.start_index; byte_offset = 0; log_entries = [] }

  emptied : PersistedLog
  emptied = record l {
    m_log_indices = closed;
    m_log_size = start;
    m_open_page = detached emptied_page;
  }

  without_open_page_lem :
      IsShape start page closed l.m_log_size l.m_max_file_size
      → without_open_page page before ≡ emptied
  unfolding without_open_page emptied emptied_page still_open erase_key set_open_page
  without_open_page_lem sh =
      let gone = erase_key_past closed start start sh.chain.1 sh.nonempty (omega arith) in
      let absent = find_past closed start start sh.chain.1 sh.nonempty (omega arith) in
      let size : l.m_log_size - (page.end_index - start) ≡ start =
        omega (arith, sh.chain.0.end, sh.chain.0.count) in
      ground (arith, gone, absent, size, sh.chain.0.start)

  renewed : PersistedLog
  renewed = record emptied {
    m_disk = create (open_file start) ∷ ((close emptied_page).1 ++ l.m_disk);
  }

  reopen_emptied :
      IsShape start page closed l.m_log_size l.m_max_file_size
      → create_open_file emptied
        ≡ ok (with_pages start (new_page start l.m_max_file_size) closed renewed)
  unfolding create_open_file open_page replace_open_page emptied renewed set_open_page add_open_page
  reopen_emptied sh =
      let absent = find_past closed start start sh.chain.1 sh.nonempty (omega arith) in
      let inserted =
        insert_past closed start (new_page start l.m_max_file_size) sh.chain.1 sh.nonempty in
      ground (arith, absent, inserted)

  drop_closed_pages_lem :
      (d : Dropped)
      → drop_pages r ((start, new_page start l.m_max_file_size) ∷ closed) start renewed.m_disk
        ≡ ok d
      → find start d.indices ≡ none
      → drop_closed_pages r (with_pages start (new_page start l.m_max_file_size) closed renewed)
        ≡ ok (record renewed {
          m_log_indices = d.indices;
          m_log_size = d.size;
          m_disk = d.ops;
          m_open_page = detached (new_page start l.m_max_file_size);
        })
  unfolding drop_closed_pages renewed emptied still_open
  drop_closed_pages_lem d done absent = rw open_page_lem (rw done (rw (absent, still_open)))

  pub drop_open_page_lem :
      IsShape start page closed l.m_log_size l.m_max_file_size
      → r ≤ start
      → (l' : PersistedLog) × (drop_open_page r page before ≡ ok l') × Orphaned l'
  unfolding drop_open_page renewed emptied contents
  drop_open_page_lem sh le =
      let (d, done, prefix) =
        drop_pages-IsPrefix r closed start (remove_file (open_file start) ∷ renewed.m_disk)
          sh.chain.1 sh.nonempty le in
      let new = new_page start l.m_max_file_size in
      let new_is : IsPage start new start = record {
        start = refl;
        end = refl;
        count = omega arith;
      } in
      let dropped = drop_page r start start new closed renewed.m_disk new_is d le done in
      (
        record renewed {
          m_log_indices = d.indices;
          m_log_size = d.size;
          m_disk = d.ops;
          m_open_page = detached new;
        },
        ap (λ t. create_open_file t >>= drop_closed_pages r) (without_open_page_lem sh)
            ∙ ap (λ t. t >>= drop_closed_pages r) (reopen_emptied sh)
            ∙ drop_closed_pages_lem d dropped
                (find_past d.indices r start prefix.chain prefix.nonempty le),
        record {
          chain = prefix.chain;
          nonempty = prefix.nonempty;
          entries =
              prefix.entries
              ∙ sym (
                  take-append_le r (contents closed) (page_entries page)
                    (omega (arith, length-contents closed start sh.chain.1)));
          size = prefix.size;
          limit = refl;
          orphan = refl;
        },
      )
