-- ===== src/Consensus/Counting.antt =====
-- How a leader counts what a peer has appended.
use maelstromdb.Base.{
  ℕ, ℤ, ◌+◌, ◌<◌, ◌≤ℤ◌, ◌<ℤ◌, ◌≡◌, refl, sym, ap, ◌∙◌, List, true, false, ◌+ℤ◌, ◌-ℤ◌, ltb_ℤ, eqb_ℤ,
  Text, text_eq, text_eqb_self, arith, length, assign, find-assign,
}
use maelstromdb.Base.Result.{ok, ◌>>=◌, >>=_inversion}
use mathlib.Core.Path.{subst}
use maelstromdb.Protos.{AppendEntriesRequest, AppendEntriesResponse}
use maelstromdb.Consensus.RaftLog
use maelstromdb.Consensus.State.{Env, Consensus, emit, now, is_leader, index_of}
use maelstromdb.Consensus.Leading.{
  renew_lease, record_match, report_sync, leave_term, handle_append_response,
}
use maelstromdb.Consensus.Replication.{update_commit_index}
use maelstromdb.Consensus.Indices.{SameIndices, SameIndices-trans, update_commit_index-SameIndices}

renew_lease-SameIndices :
    (env : Env) (address : Text) (s : Consensus) → SameIndices s (renew_lease env address s)
unfolding renew_lease now
renew_lease-SameIndices env address s = ground arith

report_sync-SameIndices :
    (address : Text) (s t : Consensus) → report_sync address s ≡ ok t → SameIndices s t
unfolding report_sync emit
report_sync-SameIndices address s t h = ground arith

index_of-assign : (peer : Text) (i : ℤ) (m : List (Text × ℤ)) → index_of peer (assign peer i m) ≡ i
unfolding index_of
index_of-assign peer i m = rw (index_of, find-assign peer peer i m, text_eqb_self peer) refl

-- What follows the count of a reply.
reported-SameIndices :
    (env : Env) (address : Text) (s t : Consensus)
    → (do reported ← report_sync address s; update_commit_index env reported) ≡ ok t
    → SameIndices s t
reported-SameIndices env address s t h =
    let (u, reporting, h') = >>=_inversion (report_sync address s) (update_commit_index env) t h in
    SameIndices-trans {t = u} (report_sync-SameIndices address s u reporting)
      (update_commit_index-SameIndices env u t h')

-- The indices of the peer after it has appended `count` entries to those before `next`.
abbrev pub Counted : Text → ℤ → Consensus → Type 0
Counted address next t =
    (index_of address t.m_next_index ≡ next) × (index_of address t.m_match_index ≡ next -ℤ ℤ.pos 1)

record_match-Counted :
    (address : Text) (count : ℕ) (s t : Consensus)
    → SameIndices (record_match address count s) t
    → Counted address (index_of address s.m_next_index +ℤ ℤ.pos count) t
unfolding record_match
record_match-Counted address count s t kept =
    let counted = index_of address s.m_next_index +ℤ ℤ.pos count in
    (
      ap (index_of address) kept.same_next ∙ index_of-assign address counted s.m_next_index,
      ap (index_of address) kept.same_match
          ∙ index_of-assign address (counted -ℤ ℤ.pos 1) s.m_match_index,
    )

-- A reply of success in the term of a leader moves the next index of the peer by the number of the
-- request's entries, from where it is when the reply comes, and sets the match index before it.
pub handle_append_response-counts :
    (env : Env) (request : AppendEntriesRequest) (reply : AppendEntriesResponse) (address : Text)
    (s t : Consensus)
    → is_leader s.m_state ≡ true
    → reply.term ≡ s.m_term
    → reply.term ≤ℤ request.term
    → reply.success ≡ true
    → handle_append_response env request reply address s ≡ ok t
    → Counted address (index_of address s.m_next_index +ℤ ℤ.pos (length request.entries)) t
unfolding handle_append_response leave_term
handle_append_response-counts env request reply address s t leads current sent success h =
    let older : ltb_ℤ request.term reply.term ≡ false = ground arith in
    let same : eqb_ℤ reply.term s.m_term ≡ true = rw current (ground arith) in
    let renewed = renew_lease env address s in
    let count = length request.entries in
    let kept =
      reported-SameIndices env address (record_match address count renewed) t
        (rw (older, leads, same, success) at h) in
    let from : index_of address renewed.m_next_index ≡ index_of address s.m_next_index =
      ap (index_of address) (renew_lease-SameIndices env address s).same_next in
    subst (λ i. Counted address (i +ℤ ℤ.pos count) t) from
      (record_match-Counted address count renewed t kept)

last_index_of_size :
    (log : RaftLog.RaftLog) (n c : ℕ)
    → n + c ≡ length log.log_entries
    → RaftLog.last_index log ≡ ℤ.pos (n + c) -ℤ ℤ.pos 1
unfolding RaftLog.last_index RaftLog.size
last_index_of_size log n c whole = ap (λ m. ℤ.pos m -ℤ ℤ.pos 1) (sym whole)

pos_sum : (n c : ℕ) → (ℤ.pos n +ℤ ℤ.pos c) ≡ ℤ.pos (n + c)
unfolding ◌+ℤ◌
pos_sum n c = ground arith

pos_before_next : (m c : ℕ) → 0 < c → (ℤ.pos m -ℤ ℤ.pos 1) <ℤ (ℤ.pos (m + c) -ℤ ℤ.pos 1)
unfolding ◌-ℤ◌
pos_before_next m c few = ground arith

past_end :
    (n c : ℕ) → 0 < c → (ℤ.pos (n + c) -ℤ ℤ.pos 1) <ℤ (ℤ.pos n +ℤ ℤ.pos c +ℤ ℤ.pos c -ℤ ℤ.pos 1)
past_end n c few = rw (pos_sum n c, pos_sum (n + c) c) (pos_before_next (n + c) c few)

-- Where a leader has sent its whole log from the peer's next index on, and gets two replies of
-- success to that request, as to two requests with the same entries, it takes the peer's log to go
-- past its own.
pub handle_append_response-overcounts :
    (env : Env) (request : AppendEntriesRequest) (reply : AppendEntriesResponse) (address : Text)
    (n : ℕ) (s t u : Consensus)
    → is_leader s.m_state ≡ true
    → is_leader t.m_state ≡ true
    → reply.term ≡ s.m_term
    → reply.term ≡ t.m_term
    → reply.term ≤ℤ request.term
    → reply.success ≡ true
    → index_of address s.m_next_index ≡ ℤ.pos n
    → n + length request.entries ≡ length s.log.log_entries
    → 0 < length request.entries
    → handle_append_response env request reply address s ≡ ok t
    → handle_append_response env request reply address t ≡ ok u
    → RaftLog.last_index s.log <ℤ index_of address u.m_match_index
handle_append_response-overcounts env request reply address n s t u leads still current same sent
      success next whole some_entries once twice =
    let first =
      (handle_append_response-counts env request reply address s t leads current sent success
        once).0 in
    let second =
      (handle_append_response-counts env request reply address t u still same sent success
        twice).1 in
    rw (second, first, next, last_index_of_size s.log n (length request.entries) whole)
      (past_end n (length request.entries) some_entries)
