-- ===== src/Consensus/FollowerTurns.antt =====
-- The turns of the operations of consensus_module.cpp that a follower runs.
use maelstromdb.Base.{
  ℤ, ◌≡◌, refl, ap, List, Bool, true, false, arith, ◌<ℤ◌, ◌+ℤ◌, if◌then◌else◌, Bool-cases, inl, inr,
  ◌⊎◌, text_eq, int_eq, not, ltb_ℤ, eqb_ℤ, eqb_ℤ-sound, ltb_ℤ→lt, ◌≢◌, [], ◌==◌, text_eqb_iff,
}
use maelstromdb.Base.Result.{Result, ok, ◌>>=◌, >>=_inversion}
use maelstromdb.Protos.{LogEntry, AppendEntriesRequest, AppendEntriesResponse, Status, status_ok}
use maelstromdb.Consensus.State.{Env, Consensus, is_follower, is_dead}
use maelstromdb.Consensus.Roles.{schedule_election, reset_to_follower, store_state}
use maelstromdb.Consensus.Voting.{follow_term}
use maelstromdb.Consensus.Frame.{
  Same, Same-refl, Same-trans, Same-ok, merge_entries-Same, follow_commit_index-Same, Quiet-Same,
}
use maelstromdb.Consensus.Turns.{
  Turn, kept, Turn-trans, Turn-within, reset_to_follower-Turn, reset_to_follower-free,
}
use maelstromdb.Consensus.Following.{
  acknowledge_leader, defer_deadline, agrees_at, merge_entries, follow_commit_index, accept_entries,
  handle_append_entries,
}
use maelstromdb.Consensus.Quiet.{Quiet-trans, schedule_election-Quiet, defer_deadline-Quiet}

reset_to_follower-follower :
    (env : Env) (term : ℤ) (s : Consensus)
    → is_follower (reset_to_follower env term s).m_state ≡ true
unfolding reset_to_follower store_state schedule_election is_follower
reset_to_follower-follower env term s = refl

-- A schedule of the next election, and the deadline that goes with it.
deferred-Same :
    (env : Env) (term : ℤ) (s : Consensus)
    → Same s (defer_deadline env (schedule_election env term s))
deferred-Same env term s = Quiet-Same (
    Quiet-trans (schedule_election-Quiet env term s)
      (defer_deadline-Quiet env (schedule_election env term s)))

-- A follower only defers its election; any other node is reset in the term of the leader.
acknowledge_leader-Turn :
    (env : Env) (term : ℤ) (s : Consensus)
    → Turn ((is_follower s.m_state ≡ true) ⊎ (s.m_term <ℤ term)) s (acknowledge_leader env term s)
unfolding acknowledge_leader
acknowledge_leader-Turn env term s = elim (Bool-cases (not (is_follower s.m_state))) [
  | inl q ↦ rw q (reset_to_follower-Turn env term s (λ safe. ground arith))
  | inr q ↦ rw q (kept (deferred-Same env term s))
]

-- A node that has no vote in the term of the leader has none after it either.
acknowledge_leader-free :
    {Safe : Type 0} (env : Env) (term : ℤ) (s : Consensus)
    → term ≡ s.m_term
    → s.m_vote ≡ []
    → Turn Safe s (acknowledge_leader env term s)
unfolding acknowledge_leader
acknowledge_leader-free env term s same free = elim (Bool-cases (not (is_follower s.m_state))) [
  | inl q ↦ rw q (reset_to_follower-free env term s same free)
  | inr q ↦ rw q (kept (deferred-Same env term s))
]

-- The log is merged and the commit index follows, in the term that the node has.
commit_merged-Same :
    (agreed : Bool) (i leader_commit : ℤ) (es : List LogEntry) (r : Bool) (s t u : Consensus)
    → Same s t
    → if◌then◌else◌ {A = Result (Bool × Consensus)} (not agreed) (ok (false, s)) (do
      merged ← merge_entries i es t
      committed ← follow_commit_index leader_commit merged
      ok (true, committed))
      ≡ ok (r, u)
    → Same s u
commit_merged-Same false i leader_commit es r s t u same h =
    Same-ok (Same-refl s) (ap (λ p. p >>= λ p. ok p.1) h)
commit_merged-Same true i leader_commit es r s t u same h =
    let (merged, merging, h') =
      >>=_inversion (merge_entries i es t)
        (λ merged. do committed ← follow_commit_index leader_commit merged; ok (true, committed))
        (r, u) h in
    let (committed, following, h'') =
      >>=_inversion (follow_commit_index leader_commit merged) (λ committed. ok (true, committed))
        (r, u) h' in
    Same-ok
      (Same-trans same (
        Same-trans (merge_entries-Same i es t merged merging)
          (follow_commit_index-Same leader_commit merged committed following)))
      (ap (λ p. p >>= λ p. ok p.1) h'')

accept_entries-Turn :
    {Safe : Type 0} (env : Env) (request : AppendEntriesRequest) (r : Bool) (s t : Consensus)
    → Turn Safe s (acknowledge_leader env request.term s)
    → accept_entries env request s ≡ ok (r, t)
    → Turn Safe s t
unfolding accept_entries
accept_entries-Turn env request r s t turn h =
    let acknowledged = acknowledge_leader env request.term s in
    let led : Consensus = record acknowledged { m_leader_id = request.leader_id } in
    let (agreed, comparing, h') =
      >>=_inversion (agrees_at request.prev_log_index request.prev_log_term acknowledged.log)
        (λ agreed. if not agreed then ok (false, acknowledged) else (do
          merged ← merge_entries (request.prev_log_index +ℤ ℤ.pos 1) request.entries led
          committed ← follow_commit_index request.leader_commit merged
          ok (true, committed)))
        (r, t) h in
    Turn-trans turn (
      kept (
        commit_merged-Same agreed (request.prev_log_index +ℤ ℤ.pos 1) request.leader_commit
          request.entries r acknowledged led t
          (record { same_term = refl; same_vote = refl; same_metadata = refl }) h'))

-- A node in the term of the request runs the branch of that term.
same_term-Turn :
    (env : Env) (request : AppendEntriesRequest) (r : Bool) (s t : Consensus)
    → if◌then◌else◌ {A = Result (Bool × Consensus)}
        (eqb_ℤ request.term s.m_term)
        (accept_entries env request s)
        (ok (false, s))
      ≡ ok (r, t)
    → Turn ((is_follower s.m_state ≡ true) ⊎ ((request.term ≢ s.m_term) ⊎ (s.m_vote ≡ []))) s t
same_term-Turn env request r s t h = elim (Bool-cases (eqb_ℤ request.term s.m_term)) [
  | inr q ↦ kept (Same-ok (Same-refl s) (ap (λ p. p >>= λ p. ok p.1) (rw q at h)))
  | inl q ↦
      let same = eqb_ℤ-sound request.term s.m_term q in
      accept_entries-Turn env request r s t
        (elim (Bool-cases (s.m_vote == [])) [
          | inl none ↦
              acknowledge_leader-free env request.term s same ((text_eqb_iff s.m_vote []).0 none)
          | inr voted ↦
              Turn-within
                (λ safe. elim safe [
                  | inl following ↦ inl following
                  | inr (inl other) ↦ elim (other same) [ ]
                  | inr (inr none) ↦ absurd (ground (arith, (text_eqb_iff s.m_vote []).1 none))
                ])
                (acknowledge_leader-Turn env request.term s)
        ])
        (rw q at h)
]

-- A node that follows a newer term is a follower in it.
followed-Turn :
    (env : Env) (request : AppendEntriesRequest) (r : Bool) (s t : Consensus)
    → if◌then◌else◌ {A = Result (Bool × Consensus)}
        (eqb_ℤ request.term (follow_term env request.term s).m_term)
        (accept_entries env request (follow_term env request.term s))
        (ok (false, follow_term env request.term s))
      ≡ ok (r, t)
    → Turn ((is_follower s.m_state ≡ true) ⊎ ((request.term ≢ s.m_term) ⊎ (s.m_vote ≡ []))) s t
unfolding follow_term
followed-Turn env request r s t h = elim (Bool-cases (ltb_ℤ s.m_term request.term)) [
  | inr q ↦ same_term-Turn env request r s t (rw q at h)
  | inl q ↦
      let newer : Consensus = reset_to_follower env request.term s in
      Turn-trans
        (reset_to_follower-Turn env request.term s (λ safe. ltb_ℤ→lt s.m_term request.term q))
        (Turn-within (λ safe. inl (reset_to_follower-follower env request.term s))
          (same_term-Turn env request r newer t (rw q at h)))
]

-- A request to append entries is safe where the node follows, the term of the request is another,
-- or the node has no vote.
pub handle_append_entries-Turn :
    (env : Env) (request : AppendEntriesRequest) (s t : Consensus) (reply : AppendEntriesResponse)
    (status : Status)
    → handle_append_entries env request s ≡ ok (t, reply, status)
    → Turn ((is_follower s.m_state ≡ true) ⊎ ((request.term ≢ s.m_term) ⊎ (s.m_vote ≡ []))) s t
unfolding handle_append_entries
handle_append_entries-Turn env request s t reply status h = elim (Bool-cases (is_dead s.m_state)) [
  | inl q ↦ kept (Same-ok (Same-refl s) (ap (λ p. p >>= λ p. ok p.0) (rw q at h)))
  | inr alive ↦
      let followed = follow_term env request.term s in
      let close : Bool × Consensus → Result (Consensus × AppendEntriesResponse × Status) = λ p.
        let deferred = defer_deadline env (schedule_election env request.term p.1) in
        ok (deferred, record { term = deferred.m_term; success = p.0 }, status_ok) in
      let ((success, accepted), accepting, h') =
        >>=_inversion
          (if eqb_ℤ request.term followed.m_term
            then accept_entries env request followed
            else ok (false, followed))
          close (t, reply, status) (rw alive at h) in
      Turn-trans (followed-Turn env request success s accepted accepting)
        (kept (Same-ok (deferred-Same env request.term accepted) (ap (λ p. p >>= λ p. ok p.0) h')))
]
