-- ===== src/Consensus/Growth/Candidates.antt =====
-- consensus_module.cpp: the log through an election, the requests for votes and the answers to
-- them.
use maelstromdb.Base.{
  ℤ, ◌≡◌, refl, if◌then◌else◌, Bool-cases, inl, inr, text_eq, int_eq, length, not, ltb_ℤ, eqb_ℤ,
  ◌&&◌, none, arith, ◌+◌, ◌*◌, ltb, Bool, true, false,
}
use maelstromdb.Base.Result.{ok, >>=_inversion}
use maelstromdb.Config
use maelstromdb.Protos.{LogEntry, not_set, no_op, RequestVoteRequest, RequestVoteResponse}
use maelstromdb.Consensus.RaftLog
use maelstromdb.Consensus.State.{Env, Consensus, is_candidate, leader, now}
use maelstromdb.Consensus.Roles.{
  promote_to_leader, schedule_election, store_state, schedule_heartbeat, append_entry,
  reset_to_follower,
}
use maelstromdb.Consensus.Elections.{
  stand_for_election, run_election, request_votes, election_callback,
}
use maelstromdb.Consensus.Voting.{
  decide_vote, follow_term, handle_request_vote, handle_vote_response,
}
use maelstromdb.Consensus.Quiet.{Quiet-trans, request_votes-Quiet, schedule_election-Quiet}
use maelstromdb.Consensus.Outcomes.Rounds.{run_election-outcomes, election_callback-outcomes}
use maelstromdb.Consensus.Growth.{
  SameLog, SameLog-refl, SameLog-ok, SameLog-Grows, Grows, Grows-trans, Grows-ok, Quiet-SameLog,
  reset_to_follower-SameLog, append_entry-Grows,
}

promote_to_leader-Grows : (s t : Consensus) → promote_to_leader s ≡ ok t → Grows s t
unfolding promote_to_leader schedule_heartbeat
promote_to_leader-Grows s t h =
    let e : LogEntry = record { term = s.m_term; type = no_op; log_data = not_set } in
    let promoted : Consensus = record s {
      m_state = leader;
      m_votes_received = 0;
      m_leader_id = s.address;
      m_election_timer = none;
    } in
    let ((i, u), appended, h') =
      >>=_inversion (append_entry e promoted) (λ r. ok (schedule_heartbeat r.1)) t h in
    let grown = append_entry-Grows e promoted u i appended in
    Grows-ok (record { added = grown.added; entries = grown.entries; commit = grown.commit }) h'

stand_for_election-SameLog : (s : Consensus) → SameLog s (stand_for_election s)
unfolding stand_for_election store_state RaftLog.set_metadata
stand_for_election-SameLog s = record { same_entries = refl; same_commit = refl }

run_election-Grows : (env : Env) (s t : Consensus) → run_election env s ≡ ok t → Grows s t
run_election-Grows env s t h = elim (run_election-outcomes env s t h) [
  | inl won ↦ promote_to_leader-Grows s t won
  | inr (addresses, asked) ↦
      let last_index = RaftLog.last_index s.log in
      let last_term = RaftLog.last_term s.log in
      let quiet = Quiet-trans (request_votes-Quiet addresses s.m_term last_index last_term s) (
        schedule_election-Quiet env s.m_term
          (request_votes addresses s.m_term last_index last_term s)) in
      rw⁻¹ asked (SameLog-Grows (Quiet-SameLog quiet))
]

pub election_callback-Grows :
    (env : Env) (term : ℤ) (s t : Consensus) → election_callback env term s ≡ ok t → Grows s t
election_callback-Grows env term s t h = elim (election_callback-outcomes env term s t h) [
  | inl same ↦ rw⁻¹ same (SameLog-Grows (SameLog-refl s))
  | inr (inl waits) ↦
      rw⁻¹ waits (SameLog-Grows (Quiet-SameLog (schedule_election-Quiet env term s)))
  | inr (inr runs) ↦
      Grows-trans (SameLog-Grows (stand_for_election-SameLog s))
        (run_election-Grows env (stand_for_election s) t runs)
]

pub handle_request_vote-SameLog :
    (env : Env) (request : RequestVoteRequest) (s : Consensus)
    → SameLog s (handle_request_vote env request s).0
unfolding handle_request_vote decide_vote follow_term reset_to_follower schedule_election
    store_state RaftLog.set_metadata now
handle_request_vote-SameLog env request s = ground arith

counted-Grows :
    (s t : Consensus) (won : Bool)
    → (if won
        then promote_to_leader (record s { m_votes_received = s.m_votes_received + 1 })
        else ok (record s { m_votes_received = s.m_votes_received + 1 }))
      ≡ ok t
    → Grows s t
counted-Grows s t true h =
    let grown =
      promote_to_leader-Grows (record s { m_votes_received = s.m_votes_received + 1 }) t h in
    record { added = grown.added; entries = grown.entries; commit = grown.commit }
counted-Grows s t false h =
    Grows-ok (SameLog-Grows (record { same_entries = refl; same_commit = refl })) h

pub handle_vote_response-Grows :
    (env : Env) (request : RequestVoteRequest) (reply : RequestVoteResponse) (s t : Consensus)
    → handle_vote_response env request reply s ≡ ok t
    → Grows s t
unfolding handle_vote_response
handle_vote_response-Grows env request reply s t h =
    elim (Bool-cases (not (is_candidate s.m_state))) [
      | inl q ↦ SameLog-Grows (SameLog-ok (SameLog-refl s) (rw q at h))
      | inr standing ↦ elim (Bool-cases (ltb_ℤ request.term reply.term)) [
        | inl q ↦
            SameLog-Grows
              (SameLog-ok (reset_to_follower-SameLog env reply.term s) (rw (standing, q) at h))
        | inr current ↦ elim (Bool-cases (eqb_ℤ reply.term request.term && reply.vote_granted)) [
          | inr q ↦ SameLog-Grows (SameLog-ok (SameLog-refl s) (rw (standing, current, q) at h))
          | inl q ↦
              let counted : Consensus = record s { m_votes_received = s.m_votes_received + 1 } in
              let (addresses, read, h') =
                >>=_inversion (Config.server_addresses s.m_configuration)
                  (λ addresses.
                    if ltb (length addresses) (counted.m_votes_received * 2)
                    then promote_to_leader counted
                    else ok counted)
                  t (rw (standing, current, q) at h) in
              counted-Grows s t (ltb (length addresses) ((s.m_votes_received + 1) * 2)) h'
        ]
      ]
    ]
