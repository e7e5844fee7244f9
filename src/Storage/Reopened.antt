-- ===== src/Storage/Reopened.antt =====
-- `CreateOpenFile`: the open page is closed and a new one takes its place.
use maelstromdb.Base.{
  ℕ, ◌<◌, ◌≡◌, ◌≢◌, refl, ap, ◌∙◌, ◌⊎◌, List, [], ◌∷◌, ◌++◌, map, inl, inr, arith, length, find,
  assign, append-nil, nat_eq,
}
use maelstromdb.Base.Result.{ok}
use maelstromdb.Base.SortedMap
use maelstromdb.Storage.{
  PersistedLog, open_page, set_open_page, create_open_file, replace_open_page, add_open_page,
}
use maelstromdb.Storage.Entries.{entry_of}
use maelstromdb.Storage.Chain.{Indices, IsPaged, IsShape, contents, with_pages, find_past}
use maelstromdb.Storage.Pages.{Page, new_page, close, create, open_file}

pub List-cases {ℓ} : {A : Type ℓ} (xs : List A) → (xs ≡ []) ⊎ (0 < length xs)
List-cases [] = inl refl
List-cases (x ∷ xs) = inr (omega arith)

pub length_pos {ℓ} : {A : Type ℓ} (xs : List A) → xs ≢ [] → 0 < length xs
length_pos [] h = absurd (h refl)
length_pos (x ∷ xs) h = omega arith

pub append-ne-nil {ℓ} : {A : Type ℓ} (xs : List A) (x : A) → xs ++ x ∷ [] ≢ []
append-ne-nil [] x e = cc
append-ne-nil (y ∷ xs) x e = cc

module _ (start : ℕ) (page : Page) (closed : Indices) (l : PersistedLog) where
  pub open_page_lem : open_page (with_pages start page closed l) ≡ ok page
  unfolding open_page find
  open_page_lem = ground arith

  pub set_open_page_lem :
      (p : Page) → set_open_page p (with_pages start page closed l) ≡ with_pages start p closed l
  unfolding set_open_page assign
  set_open_page_lem p = ground arith

  start-lt-size :
      IsPaged start page closed l.m_log_size → page.log_entries ≢ [] → start < l.m_log_size
  start-lt-size sh some' = elim (List-cases page.log_entries) [
    | inl blank ↦ absurd (some' blank)
    | inr pos ↦ omega (arith, sh.chain.0.count)
  ]

  add_open_page_lem :
      (q : Page) (l' : PersistedLog)
      → IsPaged start page closed l.m_log_size
      → page.log_entries ≢ []
      → l'.m_log_size ≡ l.m_log_size
      → l'.m_log_indices ≡ (start, q) ∷ closed
      → add_open_page (new_page l.m_log_size l.m_max_file_size) l'
        ≡ with_pages l.m_log_size (new_page l.m_log_size l.m_max_file_size) ((start, q) ∷ closed) l'
  unfolding add_open_page find SortedMap.insert
  add_open_page_lem q l' sh some' size e =
      ground
        (arith, start-lt-size sh some', find_past closed start l.m_log_size sh.chain.1 sh.nonempty)

  -- The log after `CreateOpenFile`, where the open page is not empty.
  unfoldable pub reopened : PersistedLog
  reopened = record (with_pages start (close page).0 closed l) {
    m_disk = create (open_file l.m_log_size) ∷ ((close page).1 ++ l.m_disk);
  }

  replace_open_page_lem :
      IsPaged start page closed l.m_log_size
      → page.log_entries ≢ []
      → replace_open_page page (with_pages start page closed l)
        ≡ with_pages l.m_log_size
            (new_page l.m_log_size l.m_max_file_size)
            ((start, (close page).0) ∷ closed)
            reopened
  unfolding replace_open_page reopened
  replace_open_page_lem sh some' =
      rw (set_open_page_lem (close page).0) (add_open_page_lem (close page).0 _ sh some' refl refl)

  pub create_open_file_lem :
      IsPaged start page closed l.m_log_size
      → page.log_entries ≢ []
      → create_open_file (with_pages start page closed l)
        ≡ ok (
            with_pages l.m_log_size
              (new_page l.m_log_size l.m_max_file_size)
              ((start, (close page).0) ∷ closed)
              reopened)
  unfolding create_open_file
  create_open_file_lem sh some' = rw open_page_lem (ap ok (replace_open_page_lem sh some'))

close-log_entries :
    (p : Page)
    → ((close p).0.log_entries ≡ p.log_entries)
      × ((close p).0.start_index ≡ p.start_index)
      × ((close p).0.end_index ≡ p.end_index)
unfolding close
close-log_entries p = ground arith

pub reopened-IsShape :
    (start : ℕ) (page : Page) (closed : Indices) (size max : ℕ)
    → IsPaged start page closed size
    → page.log_entries ≢ []
    → IsShape size (new_page size max) ((start, (close page).0) ∷ closed) size max
reopened-IsShape start page closed size max sh some' =
    let (same, starts, ends) = close-log_entries page in
    record {
      is_open = refl;
      paged = record {
        chain = (
          record { start = refl; end = refl; count = omega arith },
          (
            record {
              start = starts ∙ sh.chain.0.start;
              end = ends ∙ sh.chain.0.end;
              count = rw same sh.chain.0.count;
            },
            sh.chain.1,
          ),
        );
        nonempty = (rw same (length_pos page.log_entries some'), sh.nonempty);
      };
      limit = refl;
      fits = omega arith;
      blank = λ _. refl;
    }

pub reopened-contents :
    (start n max : ℕ) (page : Page) (closed : Indices)
    → contents ((n, new_page n max) ∷ (start, (close page).0) ∷ closed)
      ≡ contents ((start, page) ∷ closed)
unfolding contents
reopened-contents start n max page closed =
    append-nil _ ∙ ap (λ rs. contents closed ++ map entry_of rs) (close-log_entries page).0
