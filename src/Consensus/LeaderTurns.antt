-- ===== src/Consensus/LeaderTurns.antt =====
-- The turns of the operations of consensus_module.cpp that a leader runs.
use maelstromdb.Base.{
  ℕ, ℤ, ◌≡◌, refl, [], arith, ◌≤ℤ◌, ◌+ℤ◌, Bool-cases, inl, inr, text_eq, int_eq, length, ltb_ℤ,
  lt_next, Text,
}
use maelstromdb.Base.Result.{ok}
use maelstromdb.Protos.{AppendEntriesRequest, AppendEntriesResponse}
use maelstromdb.Consensus.State.{Env, Consensus, emit, now, notify_membership}
use maelstromdb.Consensus.Replication.{update_commit_index, complete_configuration, handover_entry}
use maelstromdb.Consensus.Elections.{begin_round, heartbeat_callback}
use maelstromdb.Consensus.Leading.{
  report_sync, record_match, renew_lease, leave_term, step_back, handle_append_response,
}
use maelstromdb.Consensus.Frame.{
  Same, Same-refl, Same-trans, append_entry-Same, advance_commit_index-Same, Quiet-Same,
}
use maelstromdb.Consensus.Turns.{Turn, kept, Turn-trans, reset_to_follower-Turn}
use maelstromdb.Consensus.Quiet.{
  Quiet-trans, emit-Quiet, begin_round-Quiet, send_heartbeats-Quiet, schedule_heartbeat-Quiet,
}
use maelstromdb.Consensus.Outcomes.{
  not_reached, left_cluster, handed_over, notified, complete_configuration-outcomes,
  update_commit_index-outcomes,
}
use maelstromdb.Consensus.Outcomes.Rounds.{
  heartbeat_callback-outcomes, handle_append_response-outcomes,
}

complete_configuration-Turn :
    {Safe : Type 0} (env : Env) (s t : Consensus)
    → complete_configuration env s ≡ ok t
    → Turn Safe s t
unfolding emit
complete_configuration-Turn env s t h =
    let woken = emit notify_membership s in
    let quiet = Quiet-Same (emit-Quiet notify_membership s) in
    elim (complete_configuration-outcomes env s t h) [
      | not_reached same ↦ rw⁻¹ same (kept (Same-refl s))
      | left_cluster left ↦ rw⁻¹ left (
          Turn-trans (kept quiet)
            (reset_to_follower-Turn env (s.m_term +ℤ ℤ.pos 1) woken (λ safe. lt_next s.m_term)))
      | handed_over i appended ↦
          kept (Same-trans quiet (append_entry-Same (handover_entry s) woken t i appended))
      | notified same ↦ rw⁻¹ same (kept quiet)
    ]

pub update_commit_index-Turn :
    {Safe : Type 0} (env : Env) (s t : Consensus) → update_commit_index env s ≡ ok t → Turn Safe s t
update_commit_index-Turn env s t h =
    let (i, u, after, moved, left) = update_commit_index-outcomes env s t h in
    Turn-trans (kept (advance_commit_index-Same i s u moved))
      (complete_configuration-Turn env u t left)

pub heartbeat_callback-Turn :
    {Safe : Type 0} (env : Env) (s t : Consensus) → heartbeat_callback env s ≡ ok t → Turn Safe s t
heartbeat_callback-Turn {Safe} env s t h = elim (heartbeat_callback-outcomes env s t h) [
  | inl same ↦ rw⁻¹ same (kept (Same-refl s))
  | inr (addresses, sent, updated, sending, updating, ended) ↦
      let round =
        Quiet-trans (begin_round-Quiet env s)
          (send_heartbeats-Quiet addresses (begin_round env s) sent sending) in
      let moved : Turn Safe sent updated = elim updating [
        | inl same ↦ rw⁻¹ same (kept (Same-refl sent))
        | inr h' ↦ update_commit_index-Turn env sent updated h'
      ] in
      rw⁻¹ ended (
        Turn-trans (kept (Quiet-Same round))
          (Turn-trans moved (kept (Quiet-Same (schedule_heartbeat-Quiet updated)))))
]

-- The answers of a peer move no term, before the commit index is.
matched-Same :
    (env : Env) (address : Text) (count : ℕ) (s t : Consensus)
    → report_sync address (record_match address count (renew_lease env address s)) ≡ ok t
    → Same s t
unfolding report_sync record_match renew_lease now emit
matched-Same env address count s t h = ground arith

leave_term-Turn :
    (env : Env) (request_term reply_term : ℤ) (s : Consensus)
    → Turn (s.m_term ≤ℤ request_term) s (leave_term env request_term reply_term s)
unfolding leave_term
leave_term-Turn env request_term reply_term s = elim (Bool-cases (ltb_ℤ request_term reply_term)) [
  | inl q ↦ rw q (
      Turn-trans (kept (record { same_term = refl; same_vote = refl; same_metadata = refl })) (
        reset_to_follower-Turn env reply_term (record s { m_leader_id = [] })
          (λ safe. ground arith)))
  | inr q ↦ rw q (kept (Same-refl s))
]

step_back-Same : (address : Text) (s : Consensus) → Same s (step_back address s)
unfolding step_back
step_back-Same address s = record { same_term = refl; same_vote = refl; same_metadata = refl }

pub handle_append_response-Turn :
    (env : Env) (request : AppendEntriesRequest) (reply : AppendEntriesResponse) (address : Text)
    (s t : Consensus)
    → handle_append_response env request reply address s ≡ ok t
    → Turn (s.m_term ≤ℤ request.term) s t
handle_append_response-Turn env request reply address s t h =
    let current = leave_term env request.term reply.term s in
    let left = leave_term-Turn env request.term reply.term s in
    elim (handle_append_response-outcomes env request reply address s t h) [
      | inl same ↦ rw⁻¹ same left
      | inr (inl back) ↦ rw⁻¹ back (Turn-trans left (kept (step_back-Same address current)))
      | inr (inr (reported, matched, moved)) ↦ Turn-trans left (
          Turn-trans
            (kept (matched-Same env address (length request.entries) current reported matched))
            (update_commit_index-Turn env reported t moved))
    ]
