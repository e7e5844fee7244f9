-- ===== src/Consensus/Outcomes.antt =====
-- The branches by which a commit in consensus_module.cpp succeeds.
pub mod Rounds
use maelstromdb.Base.{
  ℤ, ◌≡◌, refl, sym, List, [], ◌∷◌, Bool, true, false, Bool-cases, inl, inr, ◌⊎◌, if◌then◌else◌,
  not, ◌+ℤ◌, ◌≤ℤ◌, leb_ℤ, eqb_ℤ, arith, lt_next, ◌==◌, ◌&&◌, int_eq, text_eq, eqb, length, Text,
}
use maelstromdb.Base.Result.{Result, ok, ◌>>=◌, >>=_inversion, ok-injective}
use maelstromdb.Protos.{LogEntry, AppendEntriesRequest, AppendEntriesResponse}
use maelstromdb.Config
use maelstromdb.Consensus.RaftLog
use maelstromdb.Consensus.State.{
  Env, Consensus, emit, notify_membership, is_leader, is_candidate, is_follower,
}
use maelstromdb.Consensus.Roles.{
  append_entry, reset_to_follower, schedule_election, schedule_heartbeat, promote_to_leader,
}
use maelstromdb.Consensus.Replication.{
  commit_entries, uncommitted, advance_commit_index, complete_configuration, handover_entry,
  update_commit_index, scan_commit, is_committed,
}
use maelstromdb.Consensus.Elections.{
  begin_round, send_heartbeats, heartbeat_callback, stand_for_election, run_election,
  election_callback, request_votes,
}
use maelstromdb.Consensus.Leading.{
  leave_term, step_back, report_sync, record_match, renew_lease, handle_append_response,
}

-- The index that becomes the commit index, where it is another.
pub advance_commit_index-outcomes :
    (i : ℤ) (s t : Consensus)
    → advance_commit_index i s ≡ ok t
    → (s ≡ t) ⊎ ((es : List LogEntry) × (commit_entries es (record s { m_commit_index = i }) ≡ t))
unfolding advance_commit_index
advance_commit_index-outcomes i s t h = elim (Bool-cases (not (i == s.m_commit_index))) [
  | inr unchanged ↦ inl (ok-injective (rw unchanged at h))
  | inl moved ↦
      let (es, read, h') =
        >>=_inversion (uncommitted i s)
          (λ es. ok (commit_entries es (record s { m_commit_index = i }))) t (rw moved at h) in
      inr (es, ok-injective h')
]

-- How a change of the cluster ends.
pub data Completed (env : Env) (s t : Consensus) : Type 0 where
  not_reached : s ≡ t → Completed env s t
  left_cluster :
      reset_to_follower env (s.m_term +ℤ ℤ.pos 1) (emit notify_membership s) ≡ t → Completed env s t
  handed_over :
      (i : ℤ)
      → append_entry (handover_entry s) (emit notify_membership s) ≡ ok (i, t)
      → Completed env s t
  notified : emit notify_membership s ≡ t → Completed env s t

hand_over-outcomes :
    (env : Env) (known joint : Bool) (s t : Consensus)
    → (if not known
        then ok (reset_to_follower env (s.m_term +ℤ ℤ.pos 1) (emit notify_membership s))
        else if joint
        then (do
          (_, appended) ← append_entry (handover_entry s) (emit notify_membership s)
          ok appended)
        else ok (emit notify_membership s))
      ≡ ok t
    → Completed env s t
hand_over-outcomes env false joint s t h = left_cluster (ok-injective h)
hand_over-outcomes env true true s t h =
    let ((i, u), appended, h') =
      >>=_inversion (append_entry (handover_entry s) (emit notify_membership s)) (λ r. ok r.1) t
        h in
    handed_over i (rw⁻¹ (ok-injective h') appended)
hand_over-outcomes env true false s t h = notified (ok-injective h)

pub complete_configuration-outcomes :
    (env : Env) (s t : Consensus) → complete_configuration env s ≡ ok t → Completed env s t
unfolding complete_configuration
complete_configuration-outcomes env s t h =
    elim (Bool-cases (not (leb_ℤ s.m_configuration.m_id s.m_commit_index))) [
      | inl q ↦ not_reached (ok-injective (rw q at h))
      | inr reached ↦
          let done = emit notify_membership s in
          let (known, read, h') =
            >>=_inversion (Config.known_server s.address s.m_configuration)
              (λ known.
                if not known
                then ok (reset_to_follower env (s.m_term +ℤ ℤ.pos 1) done)
                else if Config.is_joint s.m_configuration.m_state
                then (do (_, appended) ← append_entry (handover_entry s) done; ok appended)
                else ok done)
              t (rw reached at h) in
          hand_over-outcomes env known (Config.is_joint s.m_configuration.m_state) s t h'
    ]

le_next : (n i : ℤ) → n ≤ℤ i → n ≤ℤ (i +ℤ ℤ.pos 1)
le_next n i le = let next = lt_next i in omega arith

-- The scan finds no index before the one that it starts with.
scan_commit_after :
    (s : Consensus) (addresses : List Text) (i : ℤ) (es : List LogEntry) (n : ℤ)
    → n ≤ℤ i
    → n ≤ℤ scan_commit s addresses i es n
unfolding scan_commit
scan_commit_after s addresses i [] n le = omega arith
scan_commit_after s addresses i (e ∷ es) n le = elim (Bool-cases (is_committed s addresses i e)) [
  | inl q ↦
      let further = scan_commit_after s addresses (i +ℤ ℤ.pos 1) es i (le_next i i (omega arith)) in
      rw q (omega arith)
  | inr q ↦ rw q (scan_commit_after s addresses (i +ℤ ℤ.pos 1) es n (le_next n i le))
]

-- The commit index moves to one that is not before it, and then a change of the cluster may end.
pub update_commit_index-outcomes :
    (env : Env) (s t : Consensus)
    → update_commit_index env s ≡ ok t
    → (i : ℤ) × (u : Consensus) × (s.m_commit_index ≤ℤ i)
      × (advance_commit_index i s ≡ ok u)
      × (complete_configuration env u ≡ ok t)
unfolding update_commit_index
update_commit_index-outcomes env s t h =
    let start = s.m_commit_index +ℤ ℤ.pos 1 in
    let (es, ranged, h') =
      >>=_inversion (RaftLog.range start (RaftLog.size s.log) s.log)
        (λ es. do
          addresses ← Config.server_addresses s.m_configuration
          advanced ← advance_commit_index (scan_commit s addresses start es s.m_commit_index) s
          complete_configuration env advanced)
        t h in
    let (addresses, read, h'') =
      >>=_inversion (Config.server_addresses s.m_configuration)
        (λ addresses. do
          advanced ← advance_commit_index (scan_commit s addresses start es s.m_commit_index) s
          complete_configuration env advanced)
        t h' in
    let last = scan_commit s addresses start es s.m_commit_index in
    let (u, moved, left) =
      >>=_inversion (advance_commit_index last s) (complete_configuration env) t h'' in
    (
      last,
      u,
      scan_commit_after s addresses start es s.m_commit_index
          (le_next s.m_commit_index s.m_commit_index (omega arith)),
      moved,
      left,
    )
