-- ===== src/Consensus/Replicated.antt =====
-- AppendEntries from the log of the leader to the log of the follower.
use maelstromdb.Base.{
  ℕ, ℤ, ◌≡◌, sym, ap, ◌∙◌, Bool, true, false, Bool-cases, inl, inr, if◌then◌else◌, not, ◌+ℤ◌, eqb_ℤ,
  take, drop, length, arith, length-take,
}
use maelstromdb.Base.Result.{Result, ok, ◌>>=◌, >>=_inversion, ok-injective}
use maelstromdb.Protos.{AppendEntriesRequest, AppendEntriesResponse, Status, status_ok}
use maelstromdb.Config.{is_sync}
use maelstromdb.Consensus.State.{Env, Consensus, is_dead, now}
use maelstromdb.Consensus.Roles.{schedule_election}
use maelstromdb.Consensus.Voting.{follow_term}
use maelstromdb.Consensus.Following.{
  agrees_at, accept_entries, handle_append_entries, follow_commit_index, acknowledge_leader,
  defer_deadline, merge_entries,
}
use maelstromdb.Consensus.Matching.{AreMatching, take-overlay, take-drop}
use maelstromdb.Consensus.Merged.{HasEarlier, merge_entries-overlay}
use maelstromdb.Consensus.Sent.{IsSent, agreed_prefix, range_lem, pos_following}
use maelstromdb.Consensus.Unmoved.{
  follow_commit_index-log, follow_term-Unmoved, acknowledge_leader-Unmoved,
}

module _ (leader : Consensus) (n : ℕ) (request : AppendEntriesRequest)
    (sent : IsSent leader n request) (s : Consensus)
    (matching : AreMatching leader.log.log_entries s.log.log_entries)
    (quiet : is_sync s.m_configuration.m_state ≡ false)
    (earlier : HasEarlier (ℤ.pos n) s.m_configuration.m_configurations) where
  merged_log :
      (t : Consensus)
      → agrees_at request.prev_log_index request.prev_log_term s.log ≡ ok true
      → merge_entries (request.prev_log_index +ℤ ℤ.pos 1) request.entries s ≡ ok t
      → take (length leader.log.log_entries) t.log.log_entries ≡ leader.log.log_entries
  merged_log t agreed h =
      let xs = leader.log.log_entries in
      let ys = s.log.log_entries in
      let (inside, same) =
        agreed_prefix n request.prev_log_term leader s.log sent.previous (rw sent.index at agreed)
          matching in
      let long : length (take n ys) ≡ n = omega (arith, length-take n ys) in
      let (c, effects, merged) =
        merge_entries-overlay (take n ys) (drop n ys) request.entries s (sym (take-drop n ys)) quiet
          (rw long earlier) in
      let given = range_lem n leader.log request.entries sent.entries in
      let place : (request.prev_log_index +ℤ ℤ.pos 1) ≡ ℤ.pos (length (take n ys)) =
        rw (sent.index, long) (pos_following n) in
      let run = rw place at h in
      let state = ok-injective (sym merged ∙ run) in
      ap (λ v. take (length xs) v.log.log_entries) (sym state)
      ∙ rw given (take-overlay n xs ys matching same)

  -- The log after the commit index has followed.
  committed_log :
      (agreed : Bool) (t u : Consensus) (r : Bool)
      → agrees_at request.prev_log_index request.prev_log_term s.log ≡ ok agreed
      → if◌then◌else◌ {A = Result (Bool × Consensus)} (not agreed) (ok (false, u)) (do
        merged ← merge_entries (request.prev_log_index +ℤ ℤ.pos 1) request.entries s
        committed ← follow_commit_index request.leader_commit merged
        ok (true, committed))
        ≡ ok (r, t)
      → r ≡ true
      → take (length leader.log.log_entries) t.log.log_entries ≡ leader.log.log_entries
  committed_log false t u r agreed h accepted =
      let refused : false ≡ r = ap (λ p. p.0) (ok-injective h) in cc
  committed_log true t u r agreed h accepted =
      let (merged, merging, h') =
        >>=_inversion (merge_entries (request.prev_log_index +ℤ ℤ.pos 1) request.entries s)
          (λ merged. do
            committed ← follow_commit_index request.leader_commit merged
            ok (true, committed))
          (r, t) h in
      let (committed, following, h'') =
        >>=_inversion (follow_commit_index request.leader_commit merged)
          (λ committed. ok (true, committed)) (r, t) h' in
      let last : committed ≡ t = ap (λ p. p.1) (ok-injective h'') in
      ap (λ v. take (length leader.log.log_entries) v.log.log_entries) (sym last)
      ∙ ap (λ l. take (length leader.log.log_entries) l.log_entries)
          (follow_commit_index-log request.leader_commit merged committed following)
      ∙ merged_log merged agreed merging

module _ (leader : Consensus) (n : ℕ) (request : AppendEntriesRequest)
    (sent : IsSent leader n request) where
  accepted_log :
      (env : Env) (s t : Consensus) (r : Bool)
      → AreMatching leader.log.log_entries s.log.log_entries
      → is_sync s.m_configuration.m_state ≡ false
      → HasEarlier (ℤ.pos n) s.m_configuration.m_configurations
      → accept_entries env request s ≡ ok (r, t)
      → r ≡ true
      → take (length leader.log.log_entries) t.log.log_entries ≡ leader.log.log_entries
  unfolding accept_entries
  accepted_log env s t r matching quiet earlier h accepted =
      let acknowledged = acknowledge_leader env request.term s in
      let led : Consensus = record acknowledged { m_leader_id = request.leader_id } in
      let unmoved = acknowledge_leader-Unmoved env request.term s in
      let (agreed, comparing, h') =
        >>=_inversion (agrees_at request.prev_log_index request.prev_log_term acknowledged.log)
          (λ agreed. if not agreed then ok (false, acknowledged) else (do
            merged ← merge_entries (request.prev_log_index +ℤ ℤ.pos 1) request.entries led
            committed ← follow_commit_index request.leader_commit merged
            ok (true, committed)))
          (r, t) h in
      committed_log leader n request sent led (rw unmoved.entries matching)
        (rw unmoved.configuration quiet) (rw unmoved.configuration earlier) agreed t acknowledged r
        comparing h' accepted

  -- A request of another term is not a success.
  answered_log :
      (env : Env) (s t : Consensus) (r : Bool)
      → AreMatching leader.log.log_entries s.log.log_entries
      → is_sync s.m_configuration.m_state ≡ false
      → HasEarlier (ℤ.pos n) s.m_configuration.m_configurations
      → if◌then◌else◌ {A = Result (Bool × Consensus)}
          (eqb_ℤ request.term s.m_term)
          (accept_entries env request s)
          (ok (false, s))
        ≡ ok (r, t)
      → r ≡ true
      → take (length leader.log.log_entries) t.log.log_entries ≡ leader.log.log_entries
  answered_log env s t r matching quiet earlier h accepted =
      elim (Bool-cases (eqb_ℤ request.term s.m_term)) [
        | inl current ↦ accepted_log env s t r matching quiet earlier (rw current at h) accepted
        | inr other ↦ let refused : false ≡ r = ap (λ p. p.0) (ok-injective (rw other at h)) in cc
      ]

-- Where a leader sends its log from an index on, the follower's log matches it, and the follower is
-- in no log sync and has a configuration at the index or before it, a success means that the log of
-- the follower begins with the whole log of the leader.
pub handle_append_entries-replicates :
    (env : Env) (leader : Consensus) (n : ℕ) (request : AppendEntriesRequest) (s t : Consensus)
    (reply : AppendEntriesResponse) (status : Status)
    → IsSent leader n request
    → AreMatching leader.log.log_entries s.log.log_entries
    → is_sync s.m_configuration.m_state ≡ false
    → HasEarlier (ℤ.pos n) s.m_configuration.m_configurations
    → handle_append_entries env request s ≡ ok (t, reply, status)
    → reply.success ≡ true
    → take (length leader.log.log_entries) t.log.log_entries ≡ leader.log.log_entries
unfolding handle_append_entries now schedule_election
handle_append_entries-replicates env leader n request s t reply status sent matching quiet earlier h
      success =
    elim (Bool-cases (is_dead s.m_state)) [
      | inl q ↦
          let refused : false ≡ reply.success = ap (λ p. p.1.success) (ok-injective (rw q at h)) in
          cc
      | inr alive ↦
          let followed = follow_term env request.term s in
          let unmoved = follow_term-Unmoved env request.term s in
          let close : Bool × Consensus → Result (Consensus × AppendEntriesResponse × Status) = λ p.
            let deferred = defer_deadline env (schedule_election env request.term p.1) in
            ok (deferred, record { term = deferred.m_term; success = p.0 }, status_ok) in
          let ((r, accepted), accepting, h') =
            >>=_inversion
              (if eqb_ℤ request.term followed.m_term
                then accept_entries env request followed
                else ok (false, followed))
              close (t, reply, status) (rw alive at h) in
          let same = ok-injective h' in
          let succeeded : r ≡ true = ap (λ p. p.1.success) same ∙ success in
          ap (λ p. take (length leader.log.log_entries) p.0.log.log_entries) (sym same)
          ∙ answered_log leader n request sent env followed accepted r (rw unmoved.entries matching)
              (rw unmoved.configuration quiet) (rw unmoved.configuration earlier) accepting
              succeeded
    ]
