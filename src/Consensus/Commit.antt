-- ===== src/Consensus/Commit.antt =====
-- Which index `UpdateCommitIndex` of consensus_module.cpp commits up to, and who counts as a match.
use maelstromdb.Base.{
  eqb_ℤ, eqb_ℤ-sound, ℕ, zero, suc, ◌+◌, ◌<◌, ◌≡◌, refl, ap, ◌∙◌, ◌⊎◌, inl, inr, ℤ, Text, List, [],
  ◌∷◌, true, false, Bool-cases, some, if◌then◌else◌, arith, get_elem?, leb_ℤ, contains, insert_set,
  ◌||◌, ◌&&◌, text_eq, ◌==◌, contains-insert_set, text_eqb_iff,
}
use maelstromdb.Protos.{LogEntry}
use maelstromdb.Config.{check_quorum}
use maelstromdb.Consensus.State.{Consensus, index_of}
use maelstromdb.Consensus.Replication.{is_committed, scan_commit, match_peers, insert_matching}
use maelstromdb.Consensus.Merge.{pos_next}

-- The entry with the index is of the current term, and a quorum of the servers has it.
pub record IsDue (s : Consensus) (addresses : List Text) (i : ℤ) (e : LogEntry) : Type 0 where
  pub current : e.term ≡ s.m_term
  pub quorum : check_quorum (match_peers s addresses i) s.m_configuration ≡ true

is_committed-IsDue :
    (s : Consensus) (addresses : List Text) (i : ℤ) (e : LogEntry)
    → is_committed s addresses i e ≡ true
    → IsDue s addresses i e
unfolding is_committed
is_committed-IsDue s addresses i e h = record {
  current = eqb_ℤ-sound e.term s.m_term (ground arith);
  quorum = ground arith;
}

is_committed-not_IsDue :
    (s : Consensus) (addresses : List Text) (i : ℤ) (e : LogEntry)
    → is_committed s addresses i e ≡ false
    → ¬ IsDue s addresses i e
unfolding is_committed
is_committed-not_IsDue s addresses i e h due =
    let same : eqb_ℤ e.term s.m_term ≡ true = rw due.current (ground arith) in
    let quorum = due.quorum in ground arith

-- None of the entries, whose first has the index `i`, is to be committed.
unfoldable pub NoneFrom : Consensus → List Text → ℕ → List LogEntry → Type 0
NoneFrom s addresses i [] = Unit {0}
NoneFrom s addresses i (e ∷ es) =
    (¬ IsDue s addresses (ℤ.pos i) e) × NoneFrom s addresses (i + 1) es

-- The index `r` is that of the last entry to be committed, among entries whose first has the
-- index `i`.
pub record IsLast (s : Consensus) (addresses : List Text) (i : ℕ) (es : List LogEntry) (r : ℤ)
    : Type 0 where
  pub offset : ℕ
  pub entry : LogEntry
  pub there : get_elem? es offset ≡ some entry
  pub index : r ≡ ℤ.pos (i + offset)
  pub committed : IsDue s addresses r entry
  pub last :
      (k : ℕ) (e : LogEntry)
      → offset < k
      → get_elem? es k ≡ some e
      → ¬ IsDue s addresses (ℤ.pos (i + k)) e

none-elem :
    (s : Consensus) (addresses : List Text) (i : ℕ) (es : List LogEntry)
    → NoneFrom s addresses i es
    → (k : ℕ) (e : LogEntry) → get_elem? es k ≡ some e
    → ¬ IsDue s addresses (ℤ.pos (i + k)) e
unfolding NoneFrom
none-elem s addresses i [] n k e h = cc
none-elem s addresses i (x ∷ es) n zero e h =
    let same : x ≡ e = ground arith in
    let start : i + 0 ≡ i = omega arith in rw start (rw⁻¹ same n.0)
none-elem s addresses i (x ∷ es) n (suc k) e h =
    let shift : i + suc k ≡ i + 1 + k = omega arith in
    rw shift (none-elem s addresses (i + 1) es n.1 k e h)

-- `IsLast` of the tail is `IsLast` of the whole.
IsLast-cons :
    (s : Consensus) (addresses : List Text) (i : ℕ) (x : LogEntry) (es : List LogEntry) (r : ℤ)
    → IsLast s addresses (i + 1) es r
    → IsLast s addresses i (x ∷ es) r
IsLast-cons s addresses i x es r h = record {
  offset = suc h.offset;
  entry = h.entry;
  there = h.there;
  index = h.index ∙ ap ℤ.pos (omega arith);
  committed = h.committed;
  last = go;
}
  where
    go :
        (k : ℕ) (e : LogEntry)
        → suc h.offset < k
        → get_elem? (x ∷ es) k ≡ some e
        → ¬ IsDue s addresses (ℤ.pos (i + k)) e
    go zero e lt there = absurd (omega arith)
    go (suc k) e lt there =
        let shift : i + suc k ≡ i + 1 + k = omega arith in rw shift (h.last k e (omega arith) there)

IsLast-head :
    (s : Consensus) (addresses : List Text) (i : ℕ) (x : LogEntry) (es : List LogEntry)
    → IsDue s addresses (ℤ.pos i) x
    → NoneFrom s addresses (i + 1) es
    → IsLast s addresses i (x ∷ es) (ℤ.pos i)
IsLast-head s addresses i x es committed quiet = record {
  offset = 0;
  entry = x;
  there = refl;
  index = ap ℤ.pos (omega arith);
  committed = committed;
  last = go;
}
  where
    go :
        (k : ℕ) (e : LogEntry)
        → 0 < k
        → get_elem? (x ∷ es) k ≡ some e
        → ¬ IsDue s addresses (ℤ.pos (i + k)) e
    go zero e lt there = absurd (omega arith)
    go (suc k) e lt there =
        let shift : i + suc k ≡ i + 1 + k = omega arith in
        rw shift (none-elem s addresses (i + 1) es quiet k e there)

insert_matching-contains :
    (s : Consensus) (i : ℤ) (addresses peers : List Text) (t : Text)
    → contains t (insert_matching s i addresses peers)
      ≡ (contains t peers || (contains t addresses && leb_ℤ i (index_of t s.m_match_index)))
unfolding insert_matching contains
insert_matching-contains s i [] peers t = ground arith
insert_matching-contains s i (a ∷ addresses) peers t = ground (
  arith,
  insert_matching-contains s i addresses (insert_set a peers) t,
  insert_matching-contains s i addresses peers t,
  contains-insert_set t a peers,
  text_eqb_iff a t,
)

-- The peers that count as matching an index are the node itself and the servers whose match index
-- has reached it.
match_peers-contains :
    (s : Consensus) (addresses : List Text) (i : ℤ) (t : Text)
    → contains t (match_peers s addresses i)
      ≡ (s.address == t || (contains t addresses && leb_ℤ i (index_of t s.m_match_index)))
unfolding match_peers contains
match_peers-contains s addresses i t =
    ground (arith, insert_matching-contains s i addresses (s.address ∷ []) t)

scan-IsLast :
    (s : Consensus) (addresses : List Text) (i : ℕ) (es : List LogEntry) (old : ℤ)
    → ((scan_commit s addresses (ℤ.pos i) es old ≡ old) × NoneFrom s addresses i es)
      ⊎ IsLast s addresses i es (scan_commit s addresses (ℤ.pos i) es old)
unfolding scan_commit NoneFrom
scan-IsLast s addresses i [] old = inl (refl, tt)
scan-IsLast s addresses i (e ∷ es) old =
    let next = if is_committed s addresses (ℤ.pos i) e then ℤ.pos i else old in
    elim (scan-IsLast s addresses (i + 1) es next) [
      | inl (same, quiet) ↦ elim (Bool-cases (is_committed s addresses (ℤ.pos i) e)) [
        | inl committed ↦ inr (
            rw (pos_next i, same, committed)
              (IsLast-head s addresses i e es (is_committed-IsDue s addresses (ℤ.pos i) e committed)
                quiet))
        | inr not_yet ↦ inl (
          rw (pos_next i, same, not_yet) refl,
          (is_committed-not_IsDue s addresses (ℤ.pos i) e not_yet, quiet),
        )
      ]
      | inr r ↦ inr (rw (pos_next i) (IsLast-cons s addresses i e es _ r))
    ]

-- The first loop of `UpdateCommitIndex` returns the old commit index where no entry behind it is to
-- be committed, and otherwise the greatest index of an entry that is: one of the current term, for
-- which the servers that match the index are a quorum. Those are the node itself and the servers
-- whose match index has reached it.
pub scan_commit-IsLast :
    (s : Consensus) (addresses : List Text) (i : ℕ) (es : List LogEntry) (old : ℤ)
    → (((scan_commit s addresses (ℤ.pos i) es old ≡ old) × NoneFrom s addresses i es)
        ⊎ IsLast s addresses i es (scan_commit s addresses (ℤ.pos i) es old))
      × ((j : ℤ) (t : Text)
          → contains t (match_peers s addresses j)
            ≡ (s.address == t || (contains t addresses && leb_ℤ j (index_of t s.m_match_index))))
scan_commit-IsLast s addresses i es old =
    (scan-IsLast s addresses i es old, match_peers-contains s addresses)
