-- ===== src/Storage/Chain.antt =====
-- The index of pages as one sequence of entries: adjoining pages from 0 to the size of the log.
use maelstromdb.Base.{
  ℕ, ◌+◌, ◌≤◌, ◌<◌, ◌≡◌, refl, ap, ◌∙◌, List, [], ◌∷◌, ◌++◌, map, true, none, some, inl, inr,
  Bool-cases, arith, ltb, length, find, append_assoc, append-nil, length-append, length-map, nat_eq,
}
use maelstromdb.Base.SortedMap
use maelstromdb.Protos.{LogEntry}
use maelstromdb.Storage.{PersistedLog, in_map}
use maelstromdb.Storage.Entries.{entry_of}
use maelstromdb.Storage.Pages.{Page}

abbrev pub Indices : Type 0
Indices = List (ℕ × Page)

-- The entries of a page.
abbrev pub page_entries : Page → List LogEntry
page_entries p = map entry_of p.log_entries

-- The log as one list.
unfoldable pub contents : Indices → List LogEntry
contents [] = []
contents ((k, p) ∷ m) = contents m ++ page_entries p

-- The page stands under its start index and ends where its records do.
pub record IsPage (k : ℕ) (p : Page) (n : ℕ) : Type 0 where
  pub start : p.start_index ≡ k
  pub end : p.end_index ≡ n
  pub count : n ≡ k + length p.log_entries

-- The pages adjoin, from 0 to `n`.
abbrev pub Chain : Indices → ℕ → Type 0
Chain [] n = n ≡ 0
Chain ((k, p) ∷ m) n = IsPage k p n × Chain m k

-- Pages that are not empty, as closed pages are.
abbrev pub NonEmpty : Indices → Type 0
NonEmpty [] = Unit
NonEmpty ((k, p) ∷ m) = (0 < length p.log_entries) × NonEmpty m

-- The open page and the closed ones adjoin, and no closed page is empty.
pub record IsPaged (start : ℕ) (page : Page) (closed : Indices) (size : ℕ) : Type 0 where
  pub chain : Chain ((start, page) ∷ closed) size
  pub nonempty : NonEmpty closed

-- The open page and the closed ones make up a log of `size` entries, with files up to `max`.
pub record IsShape (start : ℕ) (page : Page) (closed : Indices) (size max : ℕ) : Type 0 where
  pub is_open : page.is_open ≡ true
  pub paged : IsPaged start page closed size
  pub open paged use *
  pub limit : page.max_file_size ≡ max
  pub fits : page.byte_offset ≤ page.max_file_size
  pub blank : page.log_entries ≡ [] → page.byte_offset ≡ 0

-- The open page is the last of the map.
pub record IsWellFormed (l : PersistedLog) : Type 0 where
  pub start : ℕ
  pub page : Page
  pub closed : Indices
  pub indices : l.m_log_indices ≡ (start, page) ∷ closed
  pub open_in_map : l.m_open_page ≡ in_map start
  pub shape : IsShape start page closed l.m_log_size l.m_max_file_size

-- A log with the given open page and closed pages.
abbrev pub with_pages : ℕ → Page → Indices → PersistedLog → PersistedLog
with_pages start page closed l = record l {
  m_log_indices = (start, page) ∷ closed;
  m_open_page = in_map start;
}

pub with_pages_lem :
    (l : PersistedLog) (wf : IsWellFormed l) → l ≡ with_pages wf.start wf.page wf.closed l
with_pages_lem l wf = λ i. record l { m_log_indices = wf.indices i; m_open_page = wf.open_in_map i }

pub length-contents : (m : Indices) (n : ℕ) → Chain m n → length (contents m) ≡ n
unfolding contents
length-contents [] n c = omega arith
length-contents ((k, p) ∷ m) n c = omega (
  arith,
  length-append (contents m) (page_entries p),
  length-map entry_of p.log_entries,
  length-contents m k c.1,
)

-- No key at or above the end of a chain of pages that are not empty.
pub find_past : (m : Indices) (n j : ℕ) → Chain m n → NonEmpty m → n ≤ j → find j m ≡ none
unfolding find
find_past [] n j c f le = refl
find_past ((k, p) ∷ m) n j c f le = ground (arith, find_past m k j c.1 f.1)

-- A page begins at the index, if one is found for it.
abbrev pub IsBoundary : ℕ → Indices → Type 0
IsBoundary i m = (k : ℕ) (p : Page) → SortedMap.last_at_most ltb i m ≡ some (k, p) → k ≡ i

-- The page that holds index `i`, and where its entries stand in the log.
pub record Located (m : Indices) (i n : ℕ) : Type 0 where
  pub key : ℕ
  pub page : Page
  pub found : SortedMap.last_at_most ltb i m ≡ some (key, page)
  pub start : page.start_index ≡ key
  pub from : key ≤ i
  pub to : i < page.end_index
  pub within : page.end_index ≤ n
  pub count : page.end_index ≡ key + length page.log_entries
  pub before : List LogEntry
  pub after : List LogEntry
  pub split : contents m ≡ before ++ (page_entries page ++ after)
  pub length_before : length before ≡ key
  -- Where the page ends, the next one begins.
  pub boundary : page.end_index < n → IsBoundary page.end_index m

IsBoundary-cons :
    (k : ℕ) (p : Page) (m : Indices) (e : ℕ)
    → e ≤ k
    → (e < k → IsBoundary e m)
    → IsBoundary e ((k, p) ∷ m)
unfolding SortedMap.last_at_most
IsBoundary-cons k p m e le inner = λ j q h. elim (Bool-cases (ltb e k)) [
  | inl below ↦ inner (ground arith) j q (rw below at h)
  | inr here ↦ ground arith
]

module _ (i : ℕ) where
  pub locate : (m : Indices) (n : ℕ) → Chain m n → i < n → Located m i n
  unfolding SortedMap.last_at_most contents
  locate [] n c lt = absurd (omega arith)
  locate ((k, p) ∷ m) n c lt = elim (Bool-cases (ltb i k)) [
    | inl below ↦
        let r = locate m k c.1 (ground arith) in
        record {
          key = r.key;
          page = r.page;
          found = rw below r.found;
          start = r.start;
          from = r.from;
          to = r.to;
          within = omega (arith, c.0.count, r.within);
          count = r.count;
          before = r.before;
          after = r.after ++ page_entries p;
          split = rw r.split (
              append_assoc r.before (page_entries r.page ++ r.after) (page_entries p)
              ∙ ap (λ t. r.before ++ t)
                  (append_assoc (page_entries r.page) r.after (page_entries p)));
          length_before = r.length_before;
          boundary = λ _. IsBoundary-cons k p m r.page.end_index r.within r.boundary;
        }
    | inr here ↦ record {
      key = k;
      page = p;
      found = rw here;
      start = c.0.start;
      from = ground arith;
      to = omega (arith, c.0.end);
      within = omega (arith, c.0.end);
      count = omega (arith, c.0.end, c.0.count);
      before = contents m;
      after = [];
      split = rw append-nil;
      length_before = length-contents m k c.1;
      boundary = λ less. absurd (omega (arith, c.0.end));
    }
  ]
