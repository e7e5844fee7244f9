-- ===== src/Storage/Read.antt =====
-- Reads: `Entry` and `Entries` against the log as one list.
use native.Mathlib.Decide.{dec_lt}
use maelstromdb.Base.{
  ℕ, ℤ, zero, suc, ◌+◌, ◌-◌, ◌≤◌, ◌<◌, ◌≡◌, refl, sym, ap, ◌∙◌, ◌⊎◌, List, [], ◌++◌, map, true,
  false, some, if◌then◌else◌, inl, inr, Bool-cases, arith, ltb, leb, length, get_elem?,
  get_elem?-lt, get_elem?-append_ge, get_elem?-append_lt, get_elem?-map, drop-append_ge,
  drop-append_le, length-drop, length-map, map-take, map-drop, map-append, take, drop, append_assoc,
  append-nil, nat_eq, take-append_ge, take-append_le, take_of_length-le,
}
use maelstromdb.Base.Result.{ok, throw, out_of_range}
use maelstromdb.Base.SortedMap
use maelstromdb.Protos.{LogEntry}
use maelstromdb.Storage.{PersistedLog}
use maelstromdb.Storage.Entries.{
  entry_at, entry_in, entry_of, entries, entries_loop, page_slice, slice,
}
use maelstromdb.Storage.Chain.{
  Indices, Chain, IsWellFormed, contents, Located, locate, page_entries, IsBoundary,
}
use maelstromdb.Storage.Pages.{PageRecord, Page}

-- The chain of a well-formed log.
pub whole : {l : PersistedLog} → (wf : IsWellFormed l) → Chain l.m_log_indices l.m_log_size
whole wf = rw wf.indices wf.shape.chain

module _ {m : Indices} {i n : ℕ} (r : Located m i n) where
  located_entry :
      (x : PageRecord) × (entry_in i (SortedMap.last_at_most ltb i m) ≡ ok x.entry)
      × (get_elem? (contents m) i ≡ some x.entry)
  unfolding entry_in entry_of
  located_entry =
      let there : i - r.key < length r.page.log_entries = omega (arith, r.from, r.to, r.count) in
      let (x, got) = get_elem?-lt r.page.log_entries (i - r.key) there in
      let in_page : get_elem? (page_entries r.page) (i - r.key) ≡ some x.entry =
        get_elem?-map entry_of r.page.log_entries (i - r.key) got in
      (
        x,
        rw (r.found, r.start) (ground (arith, r.from, got)),
        rw r.split (
            get_elem?-append_ge r.before (page_entries r.page ++ r.after) i
              (omega (arith, r.length_before, r.from))
            ∙ ap (get_elem? (page_entries r.page ++ r.after)) (omega (arith, r.length_before))
            ∙ get_elem?-append_lt (page_entries r.page) r.after (i - r.key)
                (omega (arith, there, length-map entry_of r.page.log_entries))
            ∙ in_page),
      )

-- On a well-formed log, `Entry` returns the entry at every index of the log and throws
-- `out_of_range` at every other index.
pub entry_at-contents :
    (l : PersistedLog)
    → IsWellFormed l
    → ((i : ℕ)
        → i < l.m_log_size
        → (e : LogEntry) × (entry_at (ℤ.pos i) l ≡ ok e)
          × (get_elem? (contents l.m_log_indices) i ≡ some e))
      × ((i : ℕ) → l.m_log_size ≤ i → entry_at (ℤ.pos i) l ≡ throw out_of_range)
      × ((i : ℕ) → entry_at (ℤ.negsuc i) l ≡ throw out_of_range)
unfolding entry_at
entry_at-contents l wf = (
  λ i lt.
      let (x, read, same) = located_entry (locate i l.m_log_indices l.m_log_size (whole wf) lt) in
      (x.entry, ground arith, same),
  λ i h. ground arith,
  λ i. refl,
)

-- The records that a round of the loop reads from the page that holds `curr`.
read_part : ℕ → ℕ → Page → List PageRecord
read_part off end p =
    if leb end p.end_index
    then take (end - p.start_index - off) (drop off p.log_entries)
    else take (length p.log_entries - off) (drop off p.log_entries)

module _ {m : Indices} {curr n : ℕ} (r : Located m curr n) (end : ℕ) where
  abbrev offset : ℕ
  offset = curr - r.key

  page_slice_lem : curr < end → page_slice offset end r.page ≡ ok (read_part offset end r.page)
  unfolding page_slice slice read_part
  page_slice_lem lt = ground (arith, r.from, r.to, r.count, r.start)

  drop-contents : drop curr (contents m) ≡ drop offset (page_entries r.page) ++ r.after
  drop-contents = rw r.split (
      drop-append_ge curr r.before (page_entries r.page ++ r.after)
        (omega (arith, r.length_before, r.from))
      ∙ ap (λ k. drop k (page_entries r.page ++ r.after)) (omega (arith, r.length_before))
      ∙ drop-append_le offset (page_entries r.page) r.after
          (omega (arith, r.to, r.from, r.count, length-map entry_of r.page.log_entries)))

  drop_end : drop r.page.end_index (contents m) ≡ r.after
  drop_end = rw r.split (
      drop-append_ge r.page.end_index r.before (page_entries r.page ++ r.after)
        (omega (arith, r.length_before, r.count))
      ∙ drop-append_ge (r.page.end_index - length r.before) (page_entries r.page) r.after
          (omega (arith, r.length_before, r.count, length-map entry_of r.page.log_entries))
      ∙ ap (λ k. drop k r.after) {y = 0}
          (omega (arith, r.length_before, r.count, length-map entry_of r.page.log_entries)))

  lengths : length (drop offset (page_entries r.page)) + curr ≡ r.page.end_index
  lengths = omega (
    arith,
    length-drop offset (page_entries r.page),
    length-map entry_of r.page.log_entries,
    r.count,
    r.from,
    r.to,
  )

  -- What the round reads, and what is left to read, make up what was to be read.
  read_part_lem :
      curr < end
      → map entry_of (read_part offset end r.page)
          ++ take (end - r.page.end_index) (drop r.page.end_index (contents m))
        ≡ take (end - curr) (drop curr (contents m))
  unfolding read_part
  read_part_lem lt = elim (Bool-cases (leb end r.page.end_index)) [
    | inl last ↦
        let none_left : end - r.page.end_index ≡ 0 = ground arith in
        let count : end - r.page.start_index - offset ≡ end - curr =
          omega (arith, r.start, r.from) in
        rw (last, none_left, append-nil, count, map-take, map-drop, drop-contents)
          (sym (
            take-append_le (end - curr) (drop offset (page_entries r.page)) r.after
              (ground (arith, lengths))))
    | inr more ↦
        rw (more, drop_end, drop-contents, map-take, map-drop)
          (rw
            (take_of_length-le (length r.page.log_entries - offset)
              (drop offset (page_entries r.page)) (omega (arith, lengths)))
            (sym (
              take-append_ge (end - curr) (drop offset (page_entries r.page)) r.after
                (ground (arith, lengths))
              ∙ ap (λ k. drop offset (page_entries r.page) ++ take k r.after)
                  (ground (arith, lengths)))))
  ]

-- Where `start` stands as the loop of `Entries` changes it: at `curr` in the first round, and in
-- each later one below the start of the page that begins at `curr`.
abbrev IsOffset : ℕ → ℕ → Indices → Type 0
IsOffset start curr m = (start ≡ curr) ⊎ ((start < curr) × IsBoundary curr m)

offset_lem :
    (start curr n : ℕ) (m : Indices) (r : Located m curr n)
    → IsOffset start curr m
    → (if leb r.page.start_index start then start - r.page.start_index else 0) ≡ curr - r.key
offset_lem start curr n m r (inl same) = ground (arith, r.start, r.from)
offset_lem start curr n m r (inr (below, boundary)) =
    ground (arith, r.start, boundary r.key r.page r.found)

next-IsOffset :
    (curr end n : ℕ) (m : Indices) (r : Located m curr n)
    → end ≤ n
    → r.page.end_index < end
    → IsOffset (curr - r.key) r.page.end_index m
next-IsOffset curr end n m r le more = inr (omega (arith, r.to), r.boundary (omega arith))

-- The records that the loop reads, and the result that it ends with.
abbrev Reads : ℕ → ℕ → ℕ → ℕ → Indices → List PageRecord → Type 0
Reads fuel start curr end m records =
    (rs : List PageRecord) × (entries_loop fuel start curr end m records ≡ ok (records ++ rs))
    × (map entry_of rs ≡ take (end - curr) (drop curr (contents m)))

-- A round of the loop, given what the rounds after it read.
round :
    (fuel start curr end n : ℕ) (m : Indices) (records : List PageRecord) (r : Located m curr n)
    → curr < end
    → IsOffset start curr m
    → Reads fuel
        (curr - r.key)
        r.page.end_index
        end
        m
        (records ++ read_part (curr - r.key) end r.page)
    → Reads (suc fuel) start curr end m records
unfolding entries_loop
round fuel start curr end n m records r lt at (rs, runs, reads) =
    let part = read_part (curr - r.key) end r.page in
    let open_test : leb end curr ≡ false = ground arith in
    let offset = offset_lem start curr n m r at in
    (
      part ++ rs,
      rw (open_test, r.found, offset, page_slice_lem r end lt, offset)
          (runs ∙ ap ok (append_assoc records part rs)),
      map-append entry_of part rs ∙ ap (λ t. map entry_of part ++ t) reads ∙ read_part_lem r end lt,
    )

-- With more fuel than entries left to read, the loop ends and reads those entries.
loop-contents :
    (fuel start curr end n : ℕ) (m : Indices) (records : List PageRecord)
    → Chain m n
    → end ≤ n
    → end - curr < fuel
    → (curr < end → IsOffset start curr m)
    → Reads fuel start curr end m records
unfolding entries_loop
loop-contents zero start curr end n m records c le enough at = absurd (omega arith)
loop-contents (suc fuel) start curr end n m records c le enough at = elim (dec_lt curr end) [
  | yes lt ↦
      let r : Located m curr n = locate curr m n c (omega arith) in
      let next : end - r.page.end_index < fuel = omega (arith, r.to) in
      round fuel start curr end n m records r lt (at lt) (
        loop-contents fuel (curr - r.key) r.page.end_index end n m
          (records ++ read_part (curr - r.key) end r.page) c le next
          (next-IsOffset curr end n m r le))
  | no over ↦
      let none_left : end - curr ≡ 0 = omega arith in
      let closed_test : leb end curr ≡ true = ground arith in
      ([], rw (closed_test, append-nil), rw none_left)
]

-- On a well-formed log, `Entries` returns the entries from `start` up to `end` where these are in
-- order and within the log, its loop ends with the fuel given, and otherwise it throws
-- `out_of_range`.
pub entries-contents :
    (l : PersistedLog) (start end : ℕ)
    → IsWellFormed l
    → (start ≤ end
        → end ≤ l.m_log_size
        → entries (ℤ.pos start) (ℤ.pos end) l
          ≡ ok (take (end - start) (drop start (contents l.m_log_indices))))
      × (end < start → entries (ℤ.pos start) (ℤ.pos end) l ≡ throw out_of_range)
      × (l.m_log_size < end → entries (ℤ.pos start) (ℤ.pos end) l ≡ throw out_of_range)
unfolding entries
entries-contents l start end wf = (
  λ ordered le.
      let (rs, runs, reads) =
        loop-contents (suc (end - start)) start start end l.m_log_size l.m_log_indices [] (whole wf)
          le (omega arith) (λ _. inl refl) in
      ground (arith, runs, reads),
  λ h. ground arith,
  λ h. ground arith,
)
