-- ===== src/Consensus/ClientTurns.antt =====
-- The handlers of the clients in consensus_module.cpp leave the term and the vote.
use maelstromdb.Base.{ℤ, ◌≡◌, arith, Bool-cases, inl, inr, not, text_eq, int_eq, if◌then◌else◌}
use maelstromdb.Base.Result.{ok, >>=_inversion}
use maelstromdb.Protos.{Configuration, timeout}
use maelstromdb.Config
use maelstromdb.Session.{ClientRequestResponse}
use maelstromdb.Consensus.State.{Consensus, connect, emit}
use maelstromdb.Consensus.Roles.{append_entry}
use maelstromdb.Consensus.RaftLog
use maelstromdb.Consensus.Membership.{
  SetConfigurationRequest, ChangeStage, begin_change, head_of_sync, after_wait, give_up,
}
use maelstromdb.Consensus.Clients.{
  Stage, RegisterClientResponse, ClientRequestRequest, begin_register, finish_register,
  begin_request, finish_request, skip_entry, apply_entry, apply_request, with_sessions,
}
use maelstromdb.Consensus.Frame.{Same}

pub begin_change-Same :
    (request : SetConfigurationRequest) (stage : ChangeStage) (s t : Consensus)
    → begin_change request s ≡ ok (stage, t)
    → Same s t
unfolding begin_change connect emit
begin_change-Same request stage s t h = ground arith

give_up-Same :
    (stage : ChangeStage) (s t : Consensus) → ok (give_up timeout s) ≡ ok (stage, t) → Same s t
unfolding give_up
give_up-Same stage s t h = ground arith

pub head_of_sync-Same :
    (saved_term : ℤ) (joint : Configuration) (stage : ChangeStage) (s t : Consensus)
    → head_of_sync saved_term joint s ≡ ok (stage, t)
    → Same s t
unfolding head_of_sync give_up append_entry RaftLog.append connect emit
head_of_sync-Same saved_term joint stage s t h = ground arith

pub after_wait-Same :
    (saved_term : ℤ) (joint : Configuration) (stage : ChangeStage) (s t : Consensus)
    → after_wait saved_term joint s ≡ ok (stage, t)
    → Same s t
unfolding after_wait
after_wait-Same saved_term joint stage s t h =
    let (progress, read, h') =
      >>=_inversion (Config.sync_progress s.m_configuration)
        (λ progress.
          if not progress then ok (give_up timeout s) else head_of_sync saved_term joint s)
        (stage, t) h in
    elim (Bool-cases (not progress)) [
      | inl q ↦ give_up-Same stage s t (rw q at h')
      | inr q ↦ head_of_sync-Same saved_term joint stage s t (rw q at h')
    ]

pub begin_register-Same :
    (stage : Stage RegisterClientResponse) (s t : Consensus)
    → begin_register s ≡ ok (stage, t)
    → Same s t
unfolding begin_register append_entry RaftLog.append connect emit
begin_register-Same stage s t h = ground arith

pub begin_request-Same :
    (request : ClientRequestRequest) (stage : Stage ClientRequestResponse) (s t : Consensus)
    → begin_request request s ≡ ok (stage, t)
    → Same s t
unfolding begin_request append_entry RaftLog.append connect emit
begin_request-Same request stage s t h = ground arith

pub finish_register-Same :
    (session_id saved_term : ℤ) (stage : Stage RegisterClientResponse) (s t : Consensus)
    → finish_register session_id saved_term s ≡ ok (stage, t)
    → Same s t
unfolding finish_register skip_entry apply_entry
finish_register-Same session_id saved_term stage s t h = ground arith

pub finish_request-Same :
    (write_id saved_term : ℤ) (request : ClientRequestRequest) (stage : Stage ClientRequestResponse)
    (s t : Consensus)
    → finish_request write_id saved_term request s ≡ ok (stage, t)
    → Same s t
unfolding finish_request skip_entry apply_entry apply_request with_sessions
finish_request-Same write_id saved_term request stage s t h = ground arith
