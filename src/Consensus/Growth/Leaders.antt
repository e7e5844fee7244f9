-- ===== src/Consensus/Growth/Leaders.antt =====
-- consensus_module.cpp: the log through the heartbeat and the answers to it.
use maelstromdb.Base.{ℕ, ℤ, ◌≡◌, refl, arith, inl, inr, text_eq, int_eq, length, Text}
use maelstromdb.Base.Result.{ok}
use maelstromdb.Protos.{AppendEntriesRequest, AppendEntriesResponse}
use maelstromdb.Consensus.RaftLog
use maelstromdb.Consensus.State.{Env, Consensus, emit, now}
use maelstromdb.Consensus.Roles.{reset_to_follower, schedule_election, store_state}
use maelstromdb.Consensus.Elections.{begin_round, heartbeat_callback}
use maelstromdb.Consensus.Leading.{
  report_sync, record_match, renew_lease, leave_term, step_back, handle_append_response,
}
use maelstromdb.Consensus.Quiet.{
  Quiet-trans, begin_round-Quiet, send_heartbeats-Quiet, schedule_heartbeat-Quiet,
}
use maelstromdb.Consensus.Outcomes.Rounds.{
  heartbeat_callback-outcomes, handle_append_response-outcomes,
}
use maelstromdb.Consensus.Growth.{
  SameLog, SameLog-refl, SameLog-trans, SameLog-Grows, Grows, Grows-trans, Quiet-SameLog,
  update_commit_index-Grows,
}

pub heartbeat_callback-Grows :
    (env : Env) (s t : Consensus) → heartbeat_callback env s ≡ ok t → Grows s t
heartbeat_callback-Grows env s t h = elim (heartbeat_callback-outcomes env s t h) [
  | inl same ↦ rw⁻¹ same (SameLog-Grows (SameLog-refl s))
  | inr (addresses, sent, updated, sending, updating, ended) ↦
      let round =
        Quiet-trans (begin_round-Quiet env s)
          (send_heartbeats-Quiet addresses (begin_round env s) sent sending) in
      let moved : Grows sent updated = elim updating [
        | inl same ↦ rw⁻¹ same (SameLog-Grows (SameLog-refl sent))
        | inr h' ↦ update_commit_index-Grows env sent updated h'
      ] in
      rw⁻¹ ended (
        Grows-trans (SameLog-Grows (Quiet-SameLog round))
          (Grows-trans moved (SameLog-Grows (Quiet-SameLog (schedule_heartbeat-Quiet updated)))))
]

matched-SameLog :
    (env : Env) (address : Text) (count : ℕ) (s t : Consensus)
    → report_sync address (record_match address count (renew_lease env address s)) ≡ ok t
    → SameLog s t
unfolding report_sync record_match renew_lease now emit
matched-SameLog env address count s t h = ground arith

leave_term-SameLog :
    (env : Env) (request_term reply_term : ℤ) (s : Consensus)
    → SameLog s (leave_term env request_term reply_term s)
unfolding leave_term reset_to_follower schedule_election store_state RaftLog.set_metadata
leave_term-SameLog env request_term reply_term s = ground arith

step_back-SameLog : (address : Text) (s : Consensus) → SameLog s (step_back address s)
unfolding step_back
step_back-SameLog address s = record { same_entries = refl; same_commit = refl }

pub handle_append_response-Grows :
    (env : Env) (request : AppendEntriesRequest) (reply : AppendEntriesResponse) (address : Text)
    (s t : Consensus)
    → handle_append_response env request reply address s ≡ ok t
    → Grows s t
handle_append_response-Grows env request reply address s t h =
    let current = leave_term env request.term reply.term s in
    let left = leave_term-SameLog env request.term reply.term s in
    elim (handle_append_response-outcomes env request reply address s t h) [
      | inl same ↦ rw⁻¹ same (SameLog-Grows left)
      | inr (inl back) ↦
          rw⁻¹ back (SameLog-Grows (SameLog-trans left (step_back-SameLog address current)))
      | inr (inr (reported, matched, moved)) ↦
          let counted =
            matched-SameLog env address (length request.entries) current reported matched in
          Grows-trans (SameLog-Grows (SameLog-trans left counted))
            (update_commit_index-Grows env reported t moved)
    ]
