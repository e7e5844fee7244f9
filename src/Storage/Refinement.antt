-- ===== src/Storage/Refinement.antt =====
-- The pages of src/raft/storage.cpp as the log that the consensus module works on.
use maelstromdb.Base.{
  ℤ, ◌≡◌, refl, sym, ◌∙◌, inl, inr, arith, ltb, length, get_elem?_past, Bool-cases, ltb→lt,
}
use maelstromdb.Consensus.RaftLog
use maelstromdb.Consensus.RaftLog.{RaftLog}
use maelstromdb.Storage.{PersistedLog}
use maelstromdb.Storage.Entries.{entry_at, entries}
use maelstromdb.Storage.Chain.{IsWellFormed, contents, length-contents}
use maelstromdb.Storage.Read.{entry_at-contents, entries-contents, whole}

-- What the consensus module sees of the log.
unfoldable pub raft_log : PersistedLog → RaftLog
raft_log l = record { log_entries = contents l.m_log_indices; log_metadata = l.m_metadata }

length-raft_log :
    (l : PersistedLog) → IsWellFormed l → length (contents l.m_log_indices) ≡ l.m_log_size
length-raft_log l wf = length-contents l.m_log_indices l.m_log_size (whole wf)

-- On a well-formed log, `Entry` at every index, in the log or not, does what it does on the list of
-- the entries.
pub entry_at-entry :
    (l : PersistedLog) (i : ℤ) → IsWellFormed l → entry_at i l ≡ RaftLog.entry i (raft_log l)
unfolding raft_log RaftLog.entry
entry_at-entry l (ℤ.negsuc i) wf = (entry_at-contents l wf).2 i
entry_at-entry l (ℤ.pos i) wf = elim (Bool-cases (ltb i l.m_log_size)) [
  | inl inside ↦
      let (e, read, there) = (entry_at-contents l wf).0 i (ltb→lt i l.m_log_size inside) in
      read ∙ sym (rw (RaftLog.entry, raft_log, there) refl)
  | inr outside ↦
      let past =
        get_elem?_past (contents l.m_log_indices) i (rw (length-raft_log l wf) (ground arith)) in
      (entry_at-contents l wf).1 i (ground arith) ∙ sym (rw (RaftLog.entry, raft_log, past) refl)
]

-- On a well-formed log, `Entries` with any two bounds does what it does on the list of the entries;
-- its loop ends within the fuel given.
pub entries-range :
    (l : PersistedLog) (start end : ℤ)
    → IsWellFormed l
    → entries start end l ≡ RaftLog.range start end (raft_log l)
unfolding raft_log RaftLog.range entries
entries-range l (ℤ.negsuc i) end wf = refl
entries-range l (ℤ.pos i) (ℤ.negsuc j) wf = refl
entries-range l (ℤ.pos start) (ℤ.pos end) wf =
    let (inside, reversed, past) = entries-contents l start end wf in
    let size = length-raft_log l wf in
    elim (Bool-cases (ltb end start)) [
      | inl crossed ↦
          reversed (ltb→lt end start crossed) ∙ sym (rw (RaftLog.range, raft_log, crossed) refl)
      | inr ordered ↦ elim (Bool-cases (ltb l.m_log_size end)) [
        | inl beyond ↦
            past (ltb→lt l.m_log_size end beyond)
            ∙ sym (rw (RaftLog.range, raft_log, size, ordered, beyond) refl)
        | inr within ↦
            inside (ground arith) (ground arith)
            ∙ sym (rw (RaftLog.range, raft_log, size, ordered, within) refl)
      ]
    ]
