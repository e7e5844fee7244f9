-- ===== src/Storage/Dropping.antt =====
-- The parts of `TruncateSuffix`: a page that is cut, and the loop over the pages of the index.
use maelstromdb.Base.{
  ℕ, ◌-◌, ◌≤◌, ◌<◌, ◌≡◌, refl, sym, ap, ◌∙◌, List, [], ◌∷◌, ◌++◌, true, false, some, inl, inr,
  Bool-cases, arith, ltb, leb, length, get_elem?, get_elem?-lt, take, take_of_length-le,
  take-append_le, take-append_ge, map-take, length-take, nat_eq,
}
use native.Mathlib.Decide.{dec_lt}
use maelstromdb.Base.Result.{ok}
use maelstromdb.Storage.Entries.{entry_of}
use maelstromdb.Storage.Suffix.{drop_pages, Dropped}
use maelstromdb.Storage.Chain.{
  Indices, Chain, NonEmpty, IsPage, contents, page_entries, length-contents,
}
use maelstromdb.Storage.Pages.{
  Page, PageRecord, DiskOp, page_truncate_suffix, cut_page, remove_file,
}

-- A page cut at an index inside it.
pub record Cut (k r : ℕ) (p p' : Page) : Type 0 where
  pub page : IsPage k p' r
  pub entries : page_entries p' ≡ take (r - k) (page_entries p)
  pub limit : p'.max_file_size ≡ p.max_file_size

cut_page-Cut :
    (k r n offset : ℕ) (p : Page)
    → IsPage k p n
    → k < r
    → r < n
    → Cut k r p (cut_page r (r - p.start_index) offset p).0
unfolding cut_page
cut_page-Cut k r n offset p ip above below =
    let count = length-take (r - p.start_index) p.log_entries in
    let same = ap (λ s. take (r - s) (page_entries p)) ip.start in
    let entries = map-take entry_of (r - p.start_index) p.log_entries ∙ same in
    elim (Bool-cases p.is_open) [
      | inl opened ↦
          rw (opened, cut_page)
            (record {
              page = record {
                start = ip.start;
                end = refl;
                count = omega (arith, count, ip.count, ip.start);
              };
              entries = entries;
              limit = refl;
            })
      | inr closed ↦
          rw (closed, cut_page)
            (record {
              page = record {
                start = ip.start;
                end = refl;
                count = omega (arith, count, ip.count, ip.start);
              };
              entries = entries;
              limit = refl;
            })
    ]

page_truncate_suffix_lem :
    (r : ℕ) (p : Page) (rec : PageRecord)
    → get_elem? p.log_entries (r - p.start_index) ≡ some rec
    → page_truncate_suffix r p ≡ ok (cut_page r (r - p.start_index) rec.offset p)
unfolding page_truncate_suffix
page_truncate_suffix_lem r p rec got = rw (got, page_truncate_suffix)

-- A page that is truncated inside.
abbrev pub Truncates : ℕ → ℕ → Page → Type 0
Truncates k r p =
    (p' : Page) × (ops : List DiskOp) × (page_truncate_suffix r p ≡ ok (p', ops)) × Cut k r p p'

pub page_truncate_suffix-Cut :
    (k r n : ℕ) (p : Page) → IsPage k p n → k < r → r < n → Truncates k r p
page_truncate_suffix-Cut k r n p ip above below =
    let inside : r - p.start_index < length p.log_entries = omega (arith, ip.count, ip.start) in
    let (rec, got) = get_elem?-lt p.log_entries (r - p.start_index) inside in
    let cut = cut_page r (r - p.start_index) rec.offset p in
    (
      cut.0,
      cut.1,
      page_truncate_suffix_lem r p rec got,
      cut_page-Cut k r n rec.offset p ip above below,
    )

-- What the loop of `TruncateSuffix` leaves: the pages of the prefix.
pub record IsPrefix (r : ℕ) (m : Indices) (d : Dropped) : Type 0 where
  pub chain : Chain d.indices r
  pub nonempty : NonEmpty d.indices
  pub entries : contents d.indices ≡ take r (contents m)
  pub size : d.size ≡ r

module _ (r k n : ℕ) (p : Page) (m : Indices) (ops : List DiskOp) (ip : IsPage k p n) where
  pub drop_page :
      (d : Dropped)
      → r ≤ k
      → drop_pages r m k (remove_file p.filename ∷ ops) ≡ ok d
      → drop_pages r ((k, p) ∷ m) n ops ≡ ok d
  unfolding drop_pages
  drop_page d le done =
      let keep : leb r p.start_index ≡ true = ground (arith, ip.start) in
      let size : n - (p.end_index - p.start_index) ≡ k =
        ground (arith, ip.start, ip.end, ip.count) in
      rw (size, keep) done

  drop_part :
      (p' : Page) (op : List DiskOp)
      → k < r
      → r < n
      → page_truncate_suffix r p ≡ ok (p', op)
      → drop_pages r ((k, p) ∷ m) n ops
        ≡ ok (record { indices = (k, p') ∷ m; size = n - (p.end_index - r); ops = op ++ ops })
  unfolding drop_pages
  drop_part p' op above below cut =
      let keep : leb r p.start_index ≡ false = ground (arith, ip.start) in
      let part : ltb r p.end_index ≡ true = ground (arith, ip.end) in rw (keep, part, cut)

  drop_none :
      k < r
      → n ≤ r
      → drop_pages r ((k, p) ∷ m) n ops ≡ ok (record { indices = (k, p) ∷ m; size = n; ops = ops })
  unfolding drop_pages
  drop_none above le =
      let keep : leb r p.start_index ≡ false = ground (arith, ip.start) in
      let part : ltb r p.end_index ≡ false = ground (arith, ip.end) in rw (keep, part)

  -- The entries of a log whose last page is cut at `r`.
  pub Cut-contents :
      (p' : Page)
      → Chain m k
      → Cut k r p p'
      → k < r
      → contents ((k, p') ∷ m) ≡ take r (contents ((k, p) ∷ m))
  unfolding contents
  Cut-contents p' c cut above =
      let len = length-contents m k c in
      ap (λ t. contents m ++ t) cut.entries
      ∙ ap (λ i. contents m ++ take i (page_entries p)) (omega (arith, len))
      ∙ sym (take-append_ge r (contents m) (page_entries p) (omega (arith, len)))

pub drop_pages-IsPrefix :
    (r : ℕ) (m : Indices) (n : ℕ) (ops : List DiskOp)
    → Chain m n
    → NonEmpty m
    → r ≤ n
    → (d : Dropped) × (drop_pages r m n ops ≡ ok d) × IsPrefix r m d
unfolding drop_pages contents
drop_pages-IsPrefix r [] n ops c f le =
    let none_left : r ≡ 0 = omega arith in
    (
      record { indices = []; size = n; ops = ops },
      refl,
      record { chain = none_left; nonempty = tt; entries = rw none_left; size = omega arith },
    )
drop_pages-IsPrefix r ((k, p) ∷ m) n ops c f le = elim (dec_lt k r) [
  | no below ↦
      let (d, done, prefix) =
        drop_pages-IsPrefix r m k (remove_file p.filename ∷ ops) c.1 f.1 (omega arith) in
      (
        d,
        drop_page r k n p m ops c.0 d (omega arith) done,
        record {
          chain = prefix.chain;
          nonempty = prefix.nonempty;
          entries =
              prefix.entries
              ∙ sym (
                  take-append_le r (contents m) (page_entries p)
                    (omega (arith, length-contents m k c.1)));
          size = prefix.size;
        },
      )
  | yes above ↦ elim (dec_lt r n) [
    | yes inside ↦
        let (p', op, cut, is) = page_truncate_suffix-Cut k r n p c.0 above inside in
        (
          record { indices = (k, p') ∷ m; size = n - (p.end_index - r); ops = op ++ ops },
          drop_part r k n p m ops c.0 p' op above inside cut,
          record {
            chain = (is.page, c.1);
            nonempty = (omega (arith, is.page.count), f.1);
            entries = Cut-contents r k n p m ops c.0 p' c.1 is above;
            size = omega (arith, c.0.end);
          },
        )
    | no all ↦
        let same : n ≡ r = omega arith in
        (
          record { indices = (k, p) ∷ m; size = n; ops = ops },
          drop_none r k n p m ops c.0 above (omega arith),
          record {
            chain = rw (← same) c;
            nonempty = f;
            entries = sym (
                take_of_length-le r (contents ((k, p) ∷ m))
                  (omega (arith, length-contents ((k, p) ∷ m) n c)));
            size = same;
          },
        )
  ]
]
