-- ===== src/Storage/Truncate.antt =====
-- `TruncateSuffix`: the log becomes its prefix; what that does to the open page.
use maelstromdb.Base.{
  ◌⊎◌, inl, inr, ℕ, ◌≤◌, ◌≡◌, refl, sym, ◌∙◌, List, ◌∷◌, true, false, arith, ltb, leb, take,
  take_of_length-le, nat_eq, min,
}
use native.Mathlib.Decide.{dec_lt}
use maelstromdb.Base.Result.{ok}
use maelstromdb.Storage.{PersistedLog}
use maelstromdb.Storage.Suffix.{truncate_suffix}
use maelstromdb.Storage.Branches.{truncate_choice, truncate_open_page_lem, drop_open_page_lem}
use maelstromdb.Storage.Chain.{
  IsShape, IsWellFormed, contents, with_pages, with_pages_lem, length-contents,
}
use maelstromdb.Storage.Pages.{Page}

-- The log is cut to its first `r` entries, and its size says so.
abbrev Cuts : ℕ → PersistedLog → PersistedLog → Type 0
Cuts r l l' =
    (contents l'.m_log_indices ≡ take r (contents l.m_log_indices))
    × (l'.m_log_size ≡ min r l.m_log_size)

truncate_at :
    (start : ℕ) (page : Page) (closed : List (ℕ × Page)) (l : PersistedLog) (r : ℕ)
    → IsShape start page closed l.m_log_size l.m_max_file_size
    → (l' : PersistedLog) × (truncate_suffix r (with_pages start page closed l) ≡ ok l')
      × Cuts r (with_pages start page closed l) l'
      × ((r ≤ start) ⊎ IsWellFormed l')
unfolding truncate_suffix
truncate_at start page closed l r sh = elim (dec_lt r l.m_log_size) [
  | yes below ↦ elim (dec_lt start r) [
    | yes above ↦
        let (l', done, re) = truncate_open_page_lem start page closed l r sh above below in
        let test : ltb start r ≡ true = ground arith in
        (
          l',
          truncate_choice start page closed l r sh below ∙ rw test done,
          (re.entries, omega (arith, re.size)),
          inr re.well_formed,
        )
    | no under ↦
        let (l', done, orphaned) = drop_open_page_lem start page closed l r sh (omega arith) in
        let test : ltb start r ≡ false = ground arith in
        (
          l',
          truncate_choice start page closed l r sh below ∙ rw test done,
          (orphaned.entries, omega (arith, orphaned.size)),
          inl (omega arith),
        )
  ]
  | no beyond ↦
      let test : leb l.m_log_size r ≡ true = ground arith in
      (
        with_pages start page closed l,
        rw test,
        (
          sym (
              take_of_length-le r (contents ((start, page) ∷ closed))
                (omega (arith, length-contents ((start, page) ∷ closed) l.m_log_size sh.chain))),
          omega arith,
        ),
        inr (record {
          start = start;
          page = page;
          closed = closed;
          indices = refl;
          open_in_map = refl;
          shape = sh;
        }),
      )
]

-- On a well-formed log, `TruncateSuffix` succeeds at every index, keeps exactly the entries below
-- the index and sets the size to their number; the log is well formed again unless the
-- index is at or below the start of the open page.
pub truncate_suffix-contents :
    (l : PersistedLog) (r : ℕ) (wf : IsWellFormed l)
    → (l' : PersistedLog) × (truncate_suffix r l ≡ ok l')
      × ((contents l'.m_log_indices ≡ take r (contents l.m_log_indices))
          × (l'.m_log_size ≡ min r l.m_log_size))
      × ((r ≤ wf.start) ⊎ IsWellFormed l')
truncate_suffix-contents l r wf =
    rw (with_pages_lem l wf) (truncate_at wf.start wf.page wf.closed l r wf.shape)
