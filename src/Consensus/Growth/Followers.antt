-- ===== src/Consensus/Growth/Followers.antt =====
-- consensus_module.cpp: the log and the role through a request to append entries.
use maelstromdb.Base.{
  ℤ, ◌≡◌, refl, sym, ap, ◌∙◌, List, [], ◌∷◌, Bool, true, false, Option, none, some, arith, ◌+ℤ◌,
  if◌then◌else◌, Bool-cases, inl, inr, ◌⊎◌, text_eq, int_eq, eqb, length, not, ltb_ℤ, leb_ℤ, eqb_ℤ,
}
use maelstromdb.Base.Result.{Result, ok, ◌>>=◌, >>=_inversion, ok-injective}
use maelstromdb.Protos.{
  LogEntry, AppendEntriesRequest, AppendEntriesResponse, Status, status_ok, has_configuration,
  configuration_of,
}
use maelstromdb.Config
use mathlib.Core.Path.{subst}
use maelstromdb.Machine
use maelstromdb.Consensus.RaftLog
use maelstromdb.Consensus.State.{Env, Consensus, emit, connect, now, is_follower, is_dead}
use maelstromdb.Consensus.Roles.{
  insert_configurations, append_entries, schedule_election, reset_to_follower, store_state,
}
use maelstromdb.Consensus.Replication.{commit_entries, uncommitted}
use maelstromdb.Consensus.Voting.{follow_term}
use maelstromdb.Consensus.Following.{
  find_conflict, truncate_at, merge_entries, apply_commands, follow_commit_index, defer_deadline,
  acknowledge_leader, agrees_at, accept_entries, handle_append_entries,
}
use maelstromdb.Consensus.Growth.{SameLog, SameLog-refl, SameLog-ok}
use maelstromdb.Consensus.Quiet.{commit_entries-Quiet}

connect-state : (s t : Consensus) → connect s ≡ ok t → t.m_state ≡ s.m_state
unfolding connect emit
connect-state s t h = ground arith

insert_configurations-state :
    (i : ℤ) (es : List LogEntry) (s t : Consensus)
    → insert_configurations i es s ≡ ok t
    → t.m_state ≡ s.m_state
unfolding insert_configurations
insert_configurations-state i [] s t h = ground arith
insert_configurations-state i (e ∷ es) s t h = elim (Bool-cases (has_configuration e)) [
  | inr plain ↦ insert_configurations-state (i +ℤ ℤ.pos 1) es s t (rw plain at h)
  | inl carries ↦
      let rest = insert_configurations (i +ℤ ℤ.pos 1) es in
      let (c, inserted, h') =
        >>=_inversion (Config.insert_new_configuration i (configuration_of e) s.m_configuration)
          (λ c. connect (record s { m_configuration = c }) >>= rest) t (rw carries at h) in
      let (u, connected, left) =
        >>=_inversion (connect (record s { m_configuration = c })) rest t h' in
      insert_configurations-state (i +ℤ ℤ.pos 1) es u t left
      ∙ connect-state (record s { m_configuration = c }) u connected
]

truncate_at-state :
    (conflict : Option ℤ) (s t : Consensus) → truncate_at conflict s ≡ ok t → t.m_state ≡ s.m_state
unfolding truncate_at
truncate_at-state none s t h = ground arith
truncate_at-state (some i) s t h = ground arith

append_left-state :
    (left : List LogEntry) (s t : Consensus)
    → (if eqb (length left) 0 then ok s else append_entries left s) ≡ ok t
    → t.m_state ≡ s.m_state
unfolding append_entries
append_left-state left s t h = elim (Bool-cases (eqb (length left) 0)) [
  | inl q ↦ ap (λ u. u.m_state) (sym (ok-injective (rw q at h)))
  | inr q ↦
      insert_configurations-state (RaftLog.size s.log) left
        (record s { log = RaftLog.append left s.log }) t (rw q at h)
]

merge_entries-state :
    (i : ℤ) (es : List LogEntry) (s t : Consensus)
    → merge_entries i es s ≡ ok t
    → t.m_state ≡ s.m_state
unfolding merge_entries
merge_entries-state i es s t h =
    let (found, same, h') =
      >>=_inversion (find_conflict i es s.log)
        (λ r. do
          truncated ← truncate_at r.0 s
          if eqb (length r.1) 0 then ok truncated else append_entries r.1 truncated)
        t h in
    let (u, truncated, left) =
      >>=_inversion (truncate_at found.0 s)
        (λ u. if eqb (length found.1) 0 then ok u else append_entries found.1 u) t h' in
    append_left-state found.1 u t left ∙ truncate_at-state found.0 s u truncated

apply_commands-state :
    (i : ℤ) (es : List LogEntry) (s t : Consensus)
    → apply_commands i es s ≡ ok t
    → t.m_state ≡ s.m_state
unfolding apply_commands
apply_commands-state i [] s t h = ground arith
apply_commands-state i (e ∷ es) s t h =
    let (m, applied, h') =
      >>=_inversion (Machine.apply_command i e s.m_state_machine)
        (λ m. apply_commands (i +ℤ ℤ.pos 1) es (record s { m_state_machine = m })) t h in
    apply_commands-state (i +ℤ ℤ.pos 1) es (record s { m_state_machine = m }) t h'

follow_commit_index-state :
    (i : ℤ) (s t : Consensus) → follow_commit_index i s ≡ ok t → t.m_state ≡ s.m_state
unfolding follow_commit_index
follow_commit_index-state i s t h = elim (Bool-cases (ltb_ℤ s.m_commit_index i)) [
  | inr q ↦ ap (λ u. u.m_state) (sym (ok-injective (rw q at h)))
  | inl q ↦
      let size = RaftLog.size s.log in
      let moved : Consensus = record s { m_commit_index = if leb_ℤ i size then i else size } in
      let (es, read, h') =
        >>=_inversion (uncommitted moved.m_commit_index moved)
          (λ es. apply_commands s.m_commit_index es (commit_entries es moved)) t (rw q at h) in
      apply_commands-state s.m_commit_index es (commit_entries es moved) t h'
      ∙ (commit_entries-Quiet es moved).role
]

acknowledge_leader-follower :
    (env : Env) (term : ℤ) (s : Consensus)
    → is_follower (acknowledge_leader env term s).m_state ≡ true
unfolding acknowledge_leader reset_to_follower schedule_election store_state defer_deadline now
    is_follower
acknowledge_leader-follower env term s = ground arith

acknowledge_leader-SameLog :
    (env : Env) (term : ℤ) (s : Consensus) → SameLog s (acknowledge_leader env term s)
unfolding acknowledge_leader reset_to_follower schedule_election store_state RaftLog.set_metadata
    defer_deadline now
acknowledge_leader-SameLog env term s = ground arith

follow_term-SameLog : (env : Env) (term : ℤ) (s : Consensus) → SameLog s (follow_term env term s)
unfolding follow_term reset_to_follower schedule_election store_state RaftLog.set_metadata
follow_term-SameLog env term s = ground arith

-- The rest of the handler, where the node has acknowledged the leader.
commit_merged-state :
    (agreed : Bool) (i leader_commit : ℤ) (es : List LogEntry) (r : Bool) (s t u : Consensus)
    → t.m_state ≡ s.m_state
    → if◌then◌else◌ {A = Result (Bool × Consensus)} (not agreed) (ok (false, s)) (do
      merged ← merge_entries i es t
      committed ← follow_commit_index leader_commit merged
      ok (true, committed))
      ≡ ok (r, u)
    → u.m_state ≡ s.m_state
commit_merged-state false i leader_commit es r s t u same h =
    ap (λ u. u.m_state) (sym (ok-injective (ap (λ p. p >>= λ p. ok p.1) h)))
commit_merged-state true i leader_commit es r s t u same h =
    let (merged, merging, h') =
      >>=_inversion (merge_entries i es t)
        (λ merged. do committed ← follow_commit_index leader_commit merged; ok (true, committed))
        (r, u) h in
    let (committed, following, h'') =
      >>=_inversion (follow_commit_index leader_commit merged) (λ committed. ok (true, committed))
        (r, u) h' in
    ap (λ u. u.m_state) (sym (ok-injective (ap (λ p. p >>= λ p. ok p.1) h'')))
    ∙ follow_commit_index-state leader_commit merged committed following
    ∙ merge_entries-state i es t merged merging
    ∙ same

accept_entries-follower :
    (env : Env) (request : AppendEntriesRequest) (r : Bool) (s t : Consensus)
    → accept_entries env request s ≡ ok (r, t)
    → is_follower t.m_state ≡ true
unfolding accept_entries
accept_entries-follower env request r s t h =
    let acknowledged = acknowledge_leader env request.term s in
    let led : Consensus = record acknowledged { m_leader_id = request.leader_id } in
    let (agreed, comparing, h') =
      >>=_inversion (agrees_at request.prev_log_index request.prev_log_term acknowledged.log)
        (λ agreed. if not agreed then ok (false, acknowledged) else (do
          merged ← merge_entries (request.prev_log_index +ℤ ℤ.pos 1) request.entries led
          committed ← follow_commit_index request.leader_commit merged
          ok (true, committed)))
        (r, t) h in
    let kept =
      commit_merged-state agreed (request.prev_log_index +ℤ ℤ.pos 1) request.leader_commit
        request.entries r acknowledged led t refl h' in
    ap is_follower kept ∙ acknowledge_leader-follower env request.term s

-- What a request to append leaves: the same log, or a follower.
abbrev pub IsLeft : Consensus → Consensus → Type 0
IsLeft s t = SameLog s t ⊎ (is_follower t.m_state ≡ true)

same_term-IsLeft :
    (env : Env) (request : AppendEntriesRequest) (r : Bool) (s t u : Consensus)
    → SameLog s t
    → if◌then◌else◌ {A = Result (Bool × Consensus)}
        (eqb_ℤ request.term t.m_term)
        (accept_entries env request t)
        (ok (false, t))
      ≡ ok (r, u)
    → IsLeft s u
same_term-IsLeft env request r s t u same h = elim (Bool-cases (eqb_ℤ request.term t.m_term)) [
  | inl q ↦ inr (accept_entries-follower env request r t u (rw q at h))
  | inr q ↦ inl (SameLog-ok same (ap (λ p. p >>= λ p. ok p.1) (rw q at h)))
]

close-IsLeft :
    (env : Env) (term : ℤ) (s t : Consensus)
    → IsLeft s t
    → IsLeft s (defer_deadline env (schedule_election env term t))
unfolding defer_deadline schedule_election now
close-IsLeft env term s t (inl same) =
    inl (record { same_entries = same.same_entries; same_commit = same.same_commit })
close-IsLeft env term s t (inr follows) = inr follows

pub handle_append_entries-IsLeft :
    (env : Env) (request : AppendEntriesRequest) (s t : Consensus) (reply : AppendEntriesResponse)
    (status : Status)
    → handle_append_entries env request s ≡ ok (t, reply, status)
    → IsLeft s t
unfolding handle_append_entries
handle_append_entries-IsLeft env request s t reply status h =
    elim (Bool-cases (is_dead s.m_state)) [
      | inl q ↦ inl (SameLog-ok (SameLog-refl s) (ap (λ p. p >>= λ p. ok p.0) (rw q at h)))
      | inr alive ↦
          let followed = follow_term env request.term s in
          let close : Bool × Consensus → Result (Consensus × AppendEntriesResponse × Status) = λ p.
            let deferred = defer_deadline env (schedule_election env request.term p.1) in
            ok (deferred, record { term = deferred.m_term; success = p.0 }, status_ok) in
          let ((success, accepted), accepting, h') =
            >>=_inversion
              (if eqb_ℤ request.term followed.m_term
                then accept_entries env request followed
                else ok (false, followed))
              close (t, reply, status) (rw alive at h) in
          let left = close-IsLeft env request.term s accepted (
            same_term-IsLeft env request success s followed accepted
              (follow_term-SameLog env request.term s) accepting) in
          subst (IsLeft s) (ok-injective (ap (λ p. p >>= λ p. ok p.0) h')) left
    ]
