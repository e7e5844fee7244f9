-- ===== src/Consensus/Frame.antt =====
-- The operations of consensus_module.cpp that leave the term, the vote and the metadata on disk.
use maelstromdb.Base.{
  ℤ, ◌≡◌, refl, sym, List, [], ◌∷◌, Option, none, some, arith, ◌+ℤ◌, if◌then◌else◌, Bool-cases, inl,
  inr, ◌∙◌, text_eq, eqb, length, ap, ltb_ℤ, leb_ℤ, int_eq,
}
use maelstromdb.Base.Result.{Result, ok, ◌>>=◌, >>=_inversion, ok-injective}
use maelstromdb.Protos.{LogEntry, has_configuration, configuration_of}
use maelstromdb.Config
use maelstromdb.Config.{ClusterConfiguration}
use maelstromdb.Machine
use maelstromdb.Consensus.RaftLog
use maelstromdb.Consensus.State.{Consensus, emit, connect}
use maelstromdb.Consensus.Roles.{
  append_entry, append_entries, insert_configurations, promote_to_leader, schedule_heartbeat,
}
use maelstromdb.Consensus.Replication.{commit_entries, advance_commit_index, uncommitted}
use maelstromdb.Consensus.Following.{
  find_conflict, merge_entries, truncate_at, apply_commands, follow_commit_index,
}
use maelstromdb.Consensus.Quiet.{Quiet, commit_entries-Quiet}
use maelstromdb.Consensus.Outcomes.{advance_commit_index-outcomes}

-- The term, the vote and the metadata are the same.
pub record Same (s t : Consensus) : Type 0 where
  pub same_term : t.m_term ≡ s.m_term
  pub same_vote : t.m_vote ≡ s.m_vote
  pub same_metadata : t.log.log_metadata ≡ s.log.log_metadata

pub Same-refl : (s : Consensus) → Same s s
Same-refl s = record { same_term = refl; same_vote = refl; same_metadata = refl }

pub Same-trans : {s t u : Consensus} → Same s t → Same t u → Same s u
Same-trans h g = record {
  same_term = g.same_term ∙ h.same_term;
  same_vote = g.same_vote ∙ h.same_vote;
  same_metadata = g.same_metadata ∙ h.same_metadata;
}

-- What an operation that succeeds with a known state leaves.
pub Same-ok : {s t u : Consensus} → Same s t → ok t ≡ ok u → Same s u
Same-ok {s} h p =
    let same = ok-injective p in
    record {
      same_term = sym (ap (λ t. t.m_term) same) ∙ h.same_term;
      same_vote = sym (ap (λ t. t.m_vote) same) ∙ h.same_vote;
      same_metadata = sym (ap (λ t. t.log.log_metadata) same) ∙ h.same_metadata;
    }

pub Quiet-Same : {s t : Consensus} → Quiet s t → Same s t
Quiet-Same h = record {
  same_term = h.term;
  same_vote = h.vote;
  same_metadata = ap (λ l. l.log_metadata) h.log;
}

pub connect-Same : (s t : Consensus) → connect s ≡ ok t → Same s t
unfolding connect emit
connect-Same s t h = ground arith

pub append_entry-Same :
    (e : LogEntry) (s t : Consensus) (i : ℤ) → append_entry e s ≡ ok (i, t) → Same s t
unfolding append_entry RaftLog.append connect emit
append_entry-Same e s t i h = ground arith

-- One round of the loop, whatever follows it.
insert_configuration-Same :
    (i : ℤ) (e : LogEntry) (s t : Consensus) (rest : Consensus → Result Consensus)
    → (do
      c ← Config.insert_new_configuration i (configuration_of e) s.m_configuration
      connected ← connect (record s { m_configuration = c })
      rest connected)
      ≡ ok t
    → (u : Consensus) × Same s u × (rest u ≡ ok t)
insert_configuration-Same i e s t rest h =
    let (c, inserted, h') =
      >>=_inversion (Config.insert_new_configuration i (configuration_of e) s.m_configuration)
        (λ c. connect (record s { m_configuration = c }) >>= rest) t h in
    let (u, connected, left) =
      >>=_inversion (connect (record s { m_configuration = c })) rest t h' in
    let kept = connect-Same (record s { m_configuration = c }) u connected in
    (
      u,
      record {
        same_term = kept.same_term;
        same_vote = kept.same_vote;
        same_metadata = kept.same_metadata;
      },
      left,
    )

insert_configurations-Same :
    (i : ℤ) (es : List LogEntry) (s t : Consensus) → insert_configurations i es s ≡ ok t → Same s t
unfolding insert_configurations
insert_configurations-Same i [] s t h = ground arith
insert_configurations-Same i (e ∷ es) s t h = elim (Bool-cases (has_configuration e)) [
  | inr plain ↦ insert_configurations-Same (i +ℤ ℤ.pos 1) es s t (rw plain at h)
  | inl carries ↦
      let (u, kept, left) =
        insert_configuration-Same i e s t (insert_configurations (i +ℤ ℤ.pos 1) es)
          (rw carries at h) in
      Same-trans kept (insert_configurations-Same (i +ℤ ℤ.pos 1) es u t left)
]

append_entries-Same : (es : List LogEntry) (s t : Consensus) → append_entries es s ≡ ok t → Same s t
unfolding append_entries RaftLog.append
append_entries-Same es s t h =
    let kept =
      insert_configurations-Same (RaftLog.size s.log) es
        (record s { log = RaftLog.append es s.log }) t h in
    record {
      same_term = kept.same_term;
      same_vote = kept.same_vote;
      same_metadata = kept.same_metadata;
    }

pub promote_to_leader-Same : (s t : Consensus) → promote_to_leader s ≡ ok t → Same s t
unfolding promote_to_leader schedule_heartbeat append_entry RaftLog.append connect emit
promote_to_leader-Same s t h = ground arith

pub advance_commit_index-Same :
    (new_commit_index : ℤ) (s t : Consensus)
    → advance_commit_index new_commit_index s ≡ ok t
    → Same s t
advance_commit_index-Same i s t h = elim (advance_commit_index-outcomes i s t h) [
  | inl same ↦ rw⁻¹ same (Same-refl s)
  | inr (es, moved) ↦
      let kept = Quiet-Same (commit_entries-Quiet es (record s { m_commit_index = i })) in
      rw⁻¹ moved (record {
        same_term = kept.same_term;
        same_vote = kept.same_vote;
        same_metadata = kept.same_metadata;
      })
]

truncate_at-Same :
    (conflict : Option ℤ) (s t : Consensus) → truncate_at conflict s ≡ ok t → Same s t
unfolding truncate_at RaftLog.truncate
truncate_at-Same none s t h = ground arith
truncate_at-Same (some (ℤ.pos i)) s t h = ground arith
truncate_at-Same (some (ℤ.negsuc i)) s t h = ground arith

append_left-Same :
    (left : List LogEntry) (s t : Consensus)
    → (if eqb (length left) 0 then ok s else append_entries left s) ≡ ok t
    → Same s t
append_left-Same left s t h = elim (Bool-cases (eqb (length left) 0)) [
  | inl q ↦ Same-ok (Same-refl s) (rw q at h)
  | inr q ↦ append_entries-Same left s t (rw q at h)
]

pub merge_entries-Same :
    (i : ℤ) (es : List LogEntry) (s t : Consensus) → merge_entries i es s ≡ ok t → Same s t
unfolding merge_entries
merge_entries-Same i es s t h =
    let (found, same, h') =
      >>=_inversion (find_conflict i es s.log)
        (λ r. do
          truncated ← truncate_at r.0 s
          if eqb (length r.1) 0 then ok truncated else append_entries r.1 truncated)
        t h in
    let (u, truncated, left) =
      >>=_inversion (truncate_at found.0 s)
        (λ u. if eqb (length found.1) 0 then ok u else append_entries found.1 u) t h' in
    Same-trans (truncate_at-Same found.0 s u truncated) (append_left-Same found.1 u t left)

apply_commands-Same :
    (i : ℤ) (es : List LogEntry) (s t : Consensus) → apply_commands i es s ≡ ok t → Same s t
unfolding apply_commands
apply_commands-Same i [] s t h = ground arith
apply_commands-Same i (e ∷ es) s t h =
    let (m, applied, h') =
      >>=_inversion (Machine.apply_command i e s.m_state_machine)
        (λ m. apply_commands (i +ℤ ℤ.pos 1) es (record s { m_state_machine = m })) t h in
    let kept = apply_commands-Same (i +ℤ ℤ.pos 1) es (record s { m_state_machine = m }) t h' in
    record {
      same_term = kept.same_term;
      same_vote = kept.same_vote;
      same_metadata = kept.same_metadata;
    }

pub follow_commit_index-Same :
    (leader_commit : ℤ) (s t : Consensus) → follow_commit_index leader_commit s ≡ ok t → Same s t
unfolding follow_commit_index
follow_commit_index-Same i s t h = elim (Bool-cases (ltb_ℤ s.m_commit_index i)) [
  | inr q ↦ Same-ok (Same-refl s) (rw q at h)
  | inl q ↦
      let size = RaftLog.size s.log in
      let moved : Consensus = record s { m_commit_index = if leb_ℤ i size then i else size } in
      let (es, read, h') =
        >>=_inversion (uncommitted moved.m_commit_index moved)
          (λ es. apply_commands s.m_commit_index es (commit_entries es moved)) t (rw q at h) in
      let committed = Quiet-Same (commit_entries-Quiet es moved) in
      let applied = apply_commands-Same s.m_commit_index es (commit_entries es moved) t h' in
      let kept = Same-trans committed applied in
      record {
        same_term = kept.same_term;
        same_vote = kept.same_vote;
        same_metadata = kept.same_metadata;
      }
]
