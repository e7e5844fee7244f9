-- ===== src/Consensus/Outcomes/Rounds.antt =====
-- The branches of the callbacks of the timers, and of the answers to the AppendEntries RPC.
use maelstromdb.Base.{
  ℤ, ◌≡◌, List, Bool, true, false, Bool-cases, inl, inr, ◌⊎◌, if◌then◌else◌, not, leb_ℤ, eqb_ℤ,
  ◌==◌, ◌&&◌, int_eq, text_eq, eqb, length, Text,
}
use maelstromdb.Base.Result.{Result, ok, ◌>>=◌, >>=_inversion, ok-injective}
use maelstromdb.Protos.{AppendEntriesRequest, AppendEntriesResponse}
use maelstromdb.Config
use maelstromdb.Consensus.RaftLog
use maelstromdb.Consensus.State.{Env, Consensus, is_leader, is_candidate, is_follower}
use maelstromdb.Consensus.Roles.{schedule_election, schedule_heartbeat, promote_to_leader}
use maelstromdb.Consensus.Replication.{update_commit_index}
use maelstromdb.Consensus.Elections.{
  begin_round, send_heartbeats, heartbeat_callback, stand_for_election, run_election,
  election_callback, request_votes,
}
use maelstromdb.Consensus.Leading.{
  leave_term, step_back, report_sync, record_match, renew_lease, handle_append_response,
}

alone-outcomes :
    (alone : Bool) (env : Env) (s t : Consensus)
    → (if alone then update_commit_index env s else ok s) ≡ ok t
    → (s ≡ t) ⊎ (update_commit_index env s ≡ ok t)
alone-outcomes true env s t h = inr h
alone-outcomes false env s t h = inl (ok-injective h)

-- A round of heartbeats: they are sent, and a leader that is alone moves the commit index.
pub heartbeat_callback-outcomes :
    (env : Env) (s t : Consensus)
    → heartbeat_callback env s ≡ ok t
    → (s ≡ t)
      ⊎ ((addresses : List Text) × (sent : Consensus) × (updated : Consensus) × (send_heartbeats
              addresses
              (begin_round env s)
            ≡ ok sent)
          × ((sent ≡ updated) ⊎ (update_commit_index env sent ≡ ok updated))
          × (schedule_heartbeat updated ≡ t))
unfolding heartbeat_callback
heartbeat_callback-outcomes env s t h = elim (Bool-cases (not (is_leader s.m_state))) [
  | inl q ↦ inl (ok-injective (rw q at h))
  | inr leading ↦
      let finish : List Text → Consensus → Bool → Result Consensus = λ addresses sent known. (do
        updated ←
            (if eqb (length addresses) 1 && known then update_commit_index env sent else ok sent)
        ok (schedule_heartbeat updated)) in
      let (addresses, read, h1) =
        >>=_inversion (Config.server_addresses s.m_configuration)
          (λ addresses. do
            sent ← send_heartbeats addresses (begin_round env s)
            known ← Config.known_server s.address sent.m_configuration
            finish addresses sent known)
          t (rw leading at h) in
      let (sent, sending, h2) =
        >>=_inversion (send_heartbeats addresses (begin_round env s))
          (λ sent. do
            known ← Config.known_server s.address sent.m_configuration
            finish addresses sent known)
          t h1 in
      let (known, asking, h3) =
        >>=_inversion (Config.known_server s.address sent.m_configuration) (finish addresses sent) t
          h2 in
      let alone = eqb (length addresses) 1 && known in
      let (updated, updating, h4) =
        >>=_inversion (if alone then update_commit_index env sent else ok sent)
          (λ updated. ok (schedule_heartbeat updated)) t h3 in
      inr (
        addresses,
        sent,
        updated,
        sending,
        alone-outcomes alone env sent updated updating,
        ok-injective h4,
      )
]

-- The callback of the election timer does nothing, waits on, or runs for the next term.
pub election_callback-outcomes :
    (env : Env) (term : ℤ) (s t : Consensus)
    → election_callback env term s ≡ ok t
    → (s ≡ t)
      ⊎ (schedule_election env term s ≡ t)
      ⊎ (run_election env (stand_for_election s) ≡ ok t)
unfolding election_callback
election_callback-outcomes env term s t h =
    elim (Bool-cases (not (is_candidate s.m_state) && not (is_follower s.m_state))) [
      | inl q ↦ inl (ok-injective (rw q at h))
      | inr eligible ↦ elim (Bool-cases (not (s.m_term == term))) [
        | inl q ↦ inl (ok-injective (rw (eligible, q) at h))
        | inr current ↦
            let (known, read, h') =
              >>=_inversion (Config.known_server s.address s.m_configuration)
                (λ known.
                  if leb_ℤ s.m_configuration.m_id s.m_commit_index && not known
                  then ok (schedule_election env term s)
                  else run_election env (stand_for_election s))
                t (rw (eligible, current) at h) in
            elim (Bool-cases (leb_ℤ s.m_configuration.m_id s.m_commit_index && not known)) [
              | inl q ↦ inr (inl (ok-injective (rw q at h')))
              | inr q ↦ inr (inr (rw q at h'))
            ]
      ]
    ]

-- A run for election wins at once in a cluster of one server, and asks for votes in another.
pub run_election-outcomes :
    (env : Env) (s t : Consensus)
    → run_election env s ≡ ok t
    → (promote_to_leader s ≡ ok t)
      ⊎ ((addresses : List Text) × (schedule_election env s.m_term (
              request_votes addresses s.m_term
                (RaftLog.last_index s.log)
                (RaftLog.last_term s.log)
                s)
            ≡ t))
unfolding run_election
run_election-outcomes env s t h =
    let asked : List Text → Consensus = λ addresses.
      request_votes addresses s.m_term (RaftLog.last_index s.log) (RaftLog.last_term s.log) s in
    let (addresses, read, h') =
      >>=_inversion (Config.server_addresses s.m_configuration)
        (λ addresses. do
          known ← Config.known_server s.address s.m_configuration
          if eqb (length addresses) 1 && known
              then promote_to_leader s
              else ok (schedule_election env s.m_term (asked addresses)))
        t h in
    let (known, asking, h'') =
      >>=_inversion (Config.known_server s.address s.m_configuration)
        (λ known.
          if eqb (length addresses) 1 && known
          then promote_to_leader s
          else ok (schedule_election env s.m_term (asked addresses)))
        t h' in
    elim (Bool-cases (eqb (length addresses) 1 && known)) [
      | inl q ↦ inl (rw q at h'')
      | inr q ↦ inr (addresses, ok-injective (rw q at h''))
    ]

-- A reply that is not counted, one that refuses, and one of success.
pub handle_append_response-outcomes :
    (env : Env) (request : AppendEntriesRequest) (reply : AppendEntriesResponse) (address : Text)
    (s t : Consensus)
    → handle_append_response env request reply address s ≡ ok t
    → (leave_term env request.term reply.term s ≡ t)
      ⊎ (step_back address (leave_term env request.term reply.term s) ≡ t)
      ⊎ ((reported : Consensus) × (report_sync address (
              record_match address
                (length request.entries)
                (renew_lease env address (leave_term env request.term reply.term s)))
            ≡ ok reported)
          × (update_commit_index env reported ≡ ok t))
unfolding handle_append_response
handle_append_response-outcomes env request reply address s t h =
    let current = leave_term env request.term reply.term s in
    elim (Bool-cases (is_leader current.m_state && eqb_ℤ reply.term current.m_term)) [
      | inr q ↦ inl (ok-injective (rw q at h))
      | inl leading ↦ elim (Bool-cases reply.success) [
        | inr q ↦ inr (inl (ok-injective (rw (leading, q) at h)))
        | inl q ↦ inr (
            inr (
              >>=_inversion
                (report_sync address
                  (record_match address (length request.entries) (renew_lease env address current)))
                (update_commit_index env) t (rw (leading, q) at h)))
      ]
    ]
