-- ===== src/Consensus/Steps.antt =====
-- The handlers of consensus_module.cpp as steps of the node, one after the other in any order. Each
-- holds the lock of the module from its start, or from the end of a wait, to its end or to the next
-- wait. A handler that leaves the state as it is, and one that fails, are no step.
use maelstromdb.Base.{[], ℤ, ◌≡◌, ◌≢◌, ◌⊎◌, inl, inr, ◌≤ℤ◌, ◌<ℤ◌, Text, true, refl}
use maelstromdb.Base.Result.{ok}
use maelstromdb.Protos.{
  RequestVoteRequest, RequestVoteResponse, AppendEntriesRequest, AppendEntriesResponse, Status,
  Configuration,
}
use maelstromdb.Consensus.State.{Env, Consensus, is_follower}
use maelstromdb.Consensus.Roles.{reset_to_follower, shutdown}
use maelstromdb.Consensus.Elections.{election_callback, heartbeat_callback}
use maelstromdb.Consensus.Voting.{handle_request_vote, handle_vote_response}
use maelstromdb.Consensus.Following.{handle_append_entries}
use maelstromdb.Consensus.Leading.{handle_append_response}
use maelstromdb.Consensus.Membership.{
  SetConfigurationRequest, ChangeStage, begin_change, head_of_sync, after_wait,
}
use maelstromdb.Consensus.Clients.{
  Stage, RegisterClientResponse, ClientRequestRequest, begin_register, finish_register,
  begin_request, finish_request,
}
use maelstromdb.Session.{ClientRequestResponse}
use maelstromdb.Consensus.Frame.{Same}
use maelstromdb.Consensus.Turns.{
  Turn, kept, reset_to_follower-Turn, handle_request_vote-Turn, handle_vote_response-Turn,
}
use maelstromdb.Consensus.LeaderTurns.{heartbeat_callback-Turn, handle_append_response-Turn}
use maelstromdb.Consensus.FollowerTurns.{handle_append_entries-Turn}
use maelstromdb.Consensus.CandidateTurns.{election_callback-Turn}
use maelstromdb.Consensus.ClientTurns.{
  begin_change-Same, head_of_sync-Same, after_wait-Same, begin_register-Same, begin_request-Same,
  finish_register-Same, finish_request-Same,
}

-- What a handler that succeeds makes of the node. The timers may run their callbacks at any time:
-- one that is cancelled may already be with the executor.
pub data Step (env : Env) (s t : Consensus) : Type 0 where
  request_vote :
      (request : RequestVoteRequest) → (handle_request_vote env request s).0 ≡ t → Step env s t
  vote_response :
      (request : RequestVoteRequest) (reply : RequestVoteResponse)
      → handle_vote_response env request reply s ≡ ok t
      → Step env s t
  append_entries :
      (request : AppendEntriesRequest) (reply : AppendEntriesResponse) (status : Status)
      → handle_append_entries env request s ≡ ok (t, reply, status)
      → Step env s t
  append_response :
      (request : AppendEntriesRequest) (reply : AppendEntriesResponse) (address : Text)
      → handle_append_response env request reply address s ≡ ok t
      → Step env s t
  election_timeout : (term : ℤ) → election_callback env term s ≡ ok t → Step env s t
  heartbeat_timeout : heartbeat_callback env s ≡ ok t → Step env s t
  lease_timeout : reset_to_follower env s.lease_term s ≡ t → Step env s t
  stop : shutdown s ≡ t → Step env s t
  set_configuration :
      (request : SetConfigurationRequest) (stage : ChangeStage)
      → begin_change request s ≡ ok (stage, t)
      → Step env s t
  sync_configuration :
      (saved_term : ℤ) (joint : Configuration) (stage : ChangeStage)
      → (head_of_sync saved_term joint s ≡ ok (stage, t))
        ⊎ (after_wait saved_term joint s ≡ ok (stage, t))
      → Step env s t
  register :
      (stage : Stage RegisterClientResponse) → begin_register s ≡ ok (stage, t) → Step env s t
  registered :
      (session_id saved_term : ℤ) (stage : Stage RegisterClientResponse)
      → finish_register session_id saved_term s ≡ ok (stage, t)
      → Step env s t
  client_request :
      (request : ClientRequestRequest) (stage : Stage ClientRequestResponse)
      → begin_request request s ≡ ok (stage, t)
      → Step env s t
  client_requested :
      (write_id saved_term : ℤ) (request : ClientRequestRequest)
      (stage : Stage ClientRequestResponse)
      → finish_request write_id saved_term request s ≡ ok (stage, t)
      → Step env s t

-- A step that cannot clear the vote within the term, or go back to an earlier one: a reply to a
-- vote or to an append is to a request of the term of the node or a later one; a request to append
-- entries in the node's own term finds it a follower, or without a vote, since
-- `ProcessAppendEntriesClientRequest` resets any other node and clears its vote, also where the
-- request is on time; and the lease timer, whose callback resets the node to the term that the
-- timer was made in, runs out only where that term is later.
unfoldable pub IsVoteSafe : {env : Env} {s t : Consensus} → Step env s t → Type 0
IsVoteSafe {env} {s} {t} (vote_response request reply h) = s.m_term ≤ℤ request.term
IsVoteSafe {env} {s} {t} (append_entries request reply code h) =
    (is_follower s.m_state ≡ true) ⊎ ((request.term ≢ s.m_term) ⊎ (s.m_vote ≡ []))
IsVoteSafe {env} {s} {t} (append_response request reply address h) = s.m_term ≤ℤ request.term
IsVoteSafe {env} {s} {t} (lease_timeout h) = s.m_term <ℤ s.lease_term
IsVoteSafe {env} {s} {t} _ = Unit

shutdown-Same : (s : Consensus) → Same s (shutdown s)
unfolding shutdown
shutdown-Same s = record { same_term = refl; same_vote = refl; same_metadata = refl }

pub Step-Turn : {env : Env} {s t : Consensus} (step : Step env s t) → Turn (IsVoteSafe step) s t
unfolding IsVoteSafe
Step-Turn {env} {s} {t} (request_vote request h) =
    rw⁻¹ h (handle_request_vote-Turn env request s Unit)
Step-Turn {env} {s} {t} (vote_response request reply h) =
    handle_vote_response-Turn env request reply s t h
Step-Turn {env} {s} {t} (append_entries request reply code h) =
    handle_append_entries-Turn env request s t reply code h
Step-Turn {env} {s} {t} (append_response request reply address h) =
    handle_append_response-Turn env request reply address s t h
Step-Turn {env} {s} {t} (election_timeout term h) = election_callback-Turn env term s t h
Step-Turn {env} {s} {t} (heartbeat_timeout h) = heartbeat_callback-Turn env s t h
Step-Turn {env} {s} {t} (lease_timeout h) =
    rw⁻¹ h (reset_to_follower-Turn env s.lease_term s (λ safe. safe))
Step-Turn {env} {s} {t} (stop h) = rw⁻¹ h (kept (shutdown-Same s))
Step-Turn {env} {s} {t} (set_configuration request stage h) =
    kept (begin_change-Same request stage s t h)
Step-Turn {env} {s} {t} (sync_configuration saved_term joint stage (inl h)) =
    kept (head_of_sync-Same saved_term joint stage s t h)
Step-Turn {env} {s} {t} (sync_configuration saved_term joint stage (inr h)) =
    kept (after_wait-Same saved_term joint stage s t h)
Step-Turn {env} {s} {t} (register stage h) = kept (begin_register-Same stage s t h)
Step-Turn {env} {s} {t} (registered session_id saved_term stage h) =
    kept (finish_register-Same session_id saved_term stage s t h)
Step-Turn {env} {s} {t} (client_request request stage h) =
    kept (begin_request-Same request stage s t h)
Step-Turn {env} {s} {t} (client_requested write_id saved_term request stage h) =
    kept (finish_request-Same write_id saved_term request stage s t h)

-- A run of the node.
pub data Run (env : Env) (s : Consensus) : Consensus → Type 0 where
  start : Run env s s
  then : {t u : Consensus} → Run env s t → Step env t u → Run env s u

-- All the steps of the run are such.
unfoldable pub AreVoteSafe : {env : Env} {s t : Consensus} → Run env s t → Type 0
AreVoteSafe start = Unit
AreVoteSafe (then run step) = AreVoteSafe run × IsVoteSafe step
