-- ===== src/Consensus/Unmoved.antt =====
-- The operations of a follower that leave the entries of its log.
use maelstromdb.Base.{
  ℤ, ◌≡◌, refl, sym, ap, ◌∙◌, List, [], ◌∷◌, Bool-cases, inl, inr, if◌then◌else◌, not, ◌+ℤ◌, leb_ℤ,
  ltb_ℤ, arith,
}
use maelstromdb.Base.Result.{ok, >>=_inversion, ok-injective}
use maelstromdb.Protos.{LogEntry}
use maelstromdb.Consensus.RaftLog
use maelstromdb.Consensus.RaftLog.{RaftLog}
use maelstromdb.Machine
use maelstromdb.Consensus.State.{Env, Consensus, is_follower, now}
use maelstromdb.Consensus.Roles.{reset_to_follower, schedule_election, store_state}
use maelstromdb.Consensus.Replication.{commit_entries, uncommitted}
use maelstromdb.Consensus.Voting.{follow_term}
use maelstromdb.Consensus.Following.{
  apply_commands, follow_commit_index, acknowledge_leader, defer_deadline,
}
use maelstromdb.Consensus.Quiet.{commit_entries-Quiet}

apply_commands-log :
    (i : ℤ) (es : List LogEntry) (s t : Consensus) → apply_commands i es s ≡ ok t → t.log ≡ s.log
unfolding apply_commands
apply_commands-log i [] s t h = ground arith
apply_commands-log i (e ∷ es) s t h =
    let (m, applied, h') =
      >>=_inversion (Machine.apply_command i e s.m_state_machine)
        (λ m. apply_commands (i +ℤ ℤ.pos 1) es (record s { m_state_machine = m })) t h in
    apply_commands-log (i +ℤ ℤ.pos 1) es (record s { m_state_machine = m }) t h'

pub follow_commit_index-log :
    (i : ℤ) (s t : Consensus) → follow_commit_index i s ≡ ok t → t.log ≡ s.log
unfolding follow_commit_index
follow_commit_index-log i s t h = elim (Bool-cases (ltb_ℤ s.m_commit_index i)) [
  | inr q ↦ ap (λ u. u.log) (sym (ok-injective (rw q at h)))
  | inl q ↦
      let size = RaftLog.size s.log in
      let moved : Consensus = record s { m_commit_index = if leb_ℤ i size then i else size } in
      let (es, read, h') =
        >>=_inversion (uncommitted moved.m_commit_index moved)
          (λ es. apply_commands s.m_commit_index es (commit_entries es moved)) t (rw q at h) in
      apply_commands-log s.m_commit_index es (commit_entries es moved) t h'
      ∙ (commit_entries-Quiet es moved).log
]

-- The entries and the configuration are the same.
pub record Unmoved (s t : Consensus) : Type 0 where
  pub entries : t.log.log_entries ≡ s.log.log_entries
  pub configuration : t.m_configuration ≡ s.m_configuration

pub follow_term-Unmoved :
    (env : Env) (term : ℤ) (s : Consensus) → Unmoved s (follow_term env term s)
unfolding follow_term reset_to_follower schedule_election store_state RaftLog.set_metadata
follow_term-Unmoved env term s = elim (Bool-cases (ltb_ℤ s.m_term term)) [
  | inl q ↦ rw q (record { entries = refl; configuration = refl })
  | inr q ↦ rw q (record { entries = refl; configuration = refl })
]

pub acknowledge_leader-Unmoved :
    (env : Env) (term : ℤ) (s : Consensus) → Unmoved s (acknowledge_leader env term s)
unfolding acknowledge_leader reset_to_follower schedule_election store_state RaftLog.set_metadata
    defer_deadline now
acknowledge_leader-Unmoved env term s = elim (Bool-cases (not (is_follower s.m_state))) [
  | inl q ↦ rw q (record { entries = refl; configuration = refl })
  | inr q ↦ rw q (record { entries = refl; configuration = refl })
]
