-- ===== src/Consensus/Growth/AppendOnly.antt =====
-- consensus_module.cpp: the log of a node that leads, through the runs of the handlers.
use maelstromdb.Base.{◌≡◌, refl, true, inl, inr, false, arith}
use maelstromdb.Consensus.State.{Env, Consensus, RaftState, is_leader, is_follower}
use maelstromdb.Consensus.Roles.{shutdown}
use maelstromdb.Consensus.Steps.{
  Step, Run, start, then, request_vote, vote_response, append_entries, append_response,
  election_timeout, heartbeat_timeout, lease_timeout, stop, set_configuration, sync_configuration,
  register, registered, client_request, client_requested,
}
use maelstromdb.Consensus.Growth.{
  SameLog, SameLog-refl, SameLog-Grows, Grows, Grows-trans, reset_to_follower-SameLog,
}
use maelstromdb.Consensus.Growth.Leaders.{heartbeat_callback-Grows, handle_append_response-Grows}
use maelstromdb.Consensus.Growth.Candidates.{
  election_callback-Grows, handle_request_vote-SameLog, handle_vote_response-Grows,
}
use maelstromdb.Consensus.Growth.Clients.{
  begin_change-SameLog, head_of_sync-Grows, after_wait-Grows, begin_register-Grows,
  begin_request-Grows, finish_register-SameLog, finish_request-SameLog,
}
use maelstromdb.Consensus.Growth.Followers.{handle_append_entries-IsLeft}

shutdown-SameLog : (s : Consensus) → SameLog s (shutdown s)
unfolding shutdown
shutdown-SameLog s = record { same_entries = refl; same_commit = refl }

follower_leads_not : (r : RaftState) → is_follower r ≡ true → is_leader r ≡ false
unfolding is_follower is_leader
follower_leads_not r follows = ground arith

-- A step after which the node leads has added to the log, at most.
Step-Grows : {env : Env} {s t : Consensus} → Step env s t → is_leader t.m_state ≡ true → Grows s t
Step-Grows {env} {s} {t} (request_vote request h) leads =
    rw⁻¹ h (SameLog-Grows (handle_request_vote-SameLog env request s))
Step-Grows {env} {s} {t} (vote_response request reply h) leads =
    handle_vote_response-Grows env request reply s t h
Step-Grows {env} {s} {t} (append_entries request reply code h) leads =
    elim (handle_append_entries-IsLeft env request s t reply code h) [
      | inl same ↦ SameLog-Grows same
      | inr follows ↦ let leads_not = follower_leads_not t.m_state follows in cc
    ]
Step-Grows {env} {s} {t} (append_response request reply address h) leads =
    handle_append_response-Grows env request reply address s t h
Step-Grows {env} {s} {t} (election_timeout term h) leads = election_callback-Grows env term s t h
Step-Grows {env} {s} {t} (heartbeat_timeout h) leads = heartbeat_callback-Grows env s t h
Step-Grows {env} {s} {t} (lease_timeout h) leads =
    rw⁻¹ h (SameLog-Grows (reset_to_follower-SameLog env s.lease_term s))
Step-Grows {env} {s} {t} (stop h) leads = rw⁻¹ h (SameLog-Grows (shutdown-SameLog s))
Step-Grows {env} {s} {t} (set_configuration request stage h) leads =
    SameLog-Grows (begin_change-SameLog request stage s t h)
Step-Grows {env} {s} {t} (sync_configuration saved_term joint stage (inl h)) leads =
    head_of_sync-Grows saved_term joint stage s t h
Step-Grows {env} {s} {t} (sync_configuration saved_term joint stage (inr h)) leads =
    after_wait-Grows saved_term joint stage s t h
Step-Grows {env} {s} {t} (register stage h) leads = begin_register-Grows stage s t h
Step-Grows {env} {s} {t} (registered session_id saved_term stage h) leads =
    SameLog-Grows (finish_register-SameLog session_id saved_term stage s t h)
Step-Grows {env} {s} {t} (client_request request stage h) leads =
    begin_request-Grows request stage s t h
Step-Grows {env} {s} {t} (client_requested write_id saved_term request stage h) leads =
    SameLog-Grows (finish_request-SameLog write_id saved_term request stage s t h)

-- The node leads after each step of the run.
unfoldable pub AreLed : {env : Env} {s t : Consensus} → Run env s t → Type 0
AreLed start = Unit
AreLed (then {u = u} run step) = AreLed run × (is_leader u.m_state ≡ true)

-- In a run of handlers after each of which the node leads, entries are only added to its log,
-- behind those it has, and its commit index does not go back.
pub Run-Grows : {env : Env} {s t : Consensus} (run : Run env s t) → AreLed run → Grows s t
unfolding AreLed
Run-Grows {env} {s} {t} start led = SameLog-Grows (SameLog-refl s)
Run-Grows (then run step) (before, leads) =
    Grows-trans (Run-Grows run before) (Step-Grows step leads)
