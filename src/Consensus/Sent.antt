-- ===== src/Consensus/Sent.antt =====
-- What a leader sends of its log in AppendEntries, and what the test before the entries says.
use maelstromdb.Base.{
  ℕ, zero, suc, ℤ, ◌-◌, ◌≤◌, ◌≡◌, refl, ◌∙◌, List, true, Bool-cases, Option-cases, inl, inr, some,
  ◌+ℤ◌, ◌-ℤ◌, eqb_ℤ-sound, take, drop, length, get_elem?, arith, length-drop, take_of_length-le,
  ltb, ◌||◌, get_elem?_past,
}
use maelstromdb.Base.Result.{ok}
use maelstromdb.Protos.{LogEntry, AppendEntriesRequest}
use maelstromdb.Consensus.RaftLog
use maelstromdb.Consensus.RaftLog.{RaftLog}
use maelstromdb.Consensus.State.{Consensus}
use maelstromdb.Consensus.Elections.{previous_term}
use maelstromdb.Consensus.Following.{agrees_at}
use maelstromdb.Consensus.Matching.{AreMatching}

pos_previous : (m : ℕ) → (ℤ.pos (suc m) -ℤ ℤ.pos 1) ≡ ℤ.pos m
unfolding ◌-ℤ◌
pos_previous m = ground arith

pub pos_following : (n : ℕ) → (ℤ.pos n -ℤ ℤ.pos 1 +ℤ ℤ.pos 1) ≡ ℤ.pos n
unfolding ◌-ℤ◌ ◌+ℤ◌
pos_following zero = refl
pos_following (suc n) = ground arith

agrees_at_lem :
    (m : ℕ) (term : ℤ) (l : RaftLog)
    → agrees_at (ℤ.pos m) term l ≡ ok true
    → (y : LogEntry) × (get_elem? l.log_entries m ≡ some y) × (term ≡ y.term)
unfolding agrees_at RaftLog.entry
agrees_at_lem m term l h = elim (Option-cases (get_elem? l.log_entries m)) [
  | inl missing ↦ ground arith
  | inr (y, found) ↦ (y, found, eqb_ℤ-sound term y.term (ground arith))
]

previous_term_lem :
    (m : ℕ) (term : ℤ) (leader : Consensus)
    → previous_term (ℤ.pos m) leader ≡ ok term
    → (x : LogEntry) × (get_elem? leader.log.log_entries m ≡ some x) × (x.term ≡ term)
unfolding previous_term RaftLog.entry
previous_term_lem m term leader h = elim (Option-cases (get_elem? leader.log.log_entries m)) [
  | inl missing ↦ ground arith
  | inr (x, found) ↦ (x, found, (ground arith))
]

-- Where the test before the entries succeeds, the logs have the same entries before them.
pub agreed_prefix :
    (n : ℕ) (term : ℤ) (leader : Consensus) (l : RaftLog)
    → previous_term (ℤ.pos n -ℤ ℤ.pos 1) leader ≡ ok term
    → agrees_at (ℤ.pos n -ℤ ℤ.pos 1) term l ≡ ok true
    → AreMatching leader.log.log_entries l.log_entries
    → (n ≤ length l.log_entries) × (take n leader.log.log_entries ≡ take n l.log_entries)
unfolding AreMatching
agreed_prefix zero term leader l previous agreed matching = (omega arith, refl)
agreed_prefix (suc m) term leader l previous agreed matching =
    let (x, read, same) = previous_term_lem m term leader (rw (pos_previous m) at previous) in
    let (y, there, equal) = agrees_at_lem m term l (rw (pos_previous m) at agreed) in
    (ground (arith, get_elem?_past l.log_entries m), matching m x y read there (same ∙ equal))

pub range_lem :
    (n : ℕ) (l : RaftLog) (es : List LogEntry)
    → RaftLog.range (ℤ.pos n) (RaftLog.size l) l ≡ ok es
    → es ≡ drop n l.log_entries
unfolding RaftLog.range RaftLog.size
range_lem n l es h =
    elim (Bool-cases
      (ltb (length l.log_entries) n || ltb (length l.log_entries) (length l.log_entries))) [
        | inl out ↦ ground arith
        | inr within ↦ ground (
          arith,
          length-drop n l.log_entries,
          take_of_length-le (length l.log_entries - n) (drop n l.log_entries),
        )
      ]

-- A request that the leader makes of its log from the index `n` on.
pub record IsSent (leader : Consensus) (n : ℕ) (request : AppendEntriesRequest) : Type 0 where
  pub index : request.prev_log_index ≡ ℤ.pos n -ℤ ℤ.pos 1
  pub previous : previous_term (ℤ.pos n -ℤ ℤ.pos 1) leader ≡ ok request.prev_log_term
  pub entries : RaftLog.range (ℤ.pos n) (RaftLog.size leader.log) leader.log ≡ ok request.entries
