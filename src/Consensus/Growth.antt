-- ===== src/Consensus/Growth.antt =====
-- The operations of consensus_module.cpp that keep the entries of the log and the commit index, and
-- those that add to them.
pub mod Leaders
pub mod Candidates
pub mod Clients
pub mod Followers
pub mod AppendOnly
use maelstromdb.Base.{
  ℤ, ◌≡◌, refl, sym, ap, ◌∙◌, List, [], ◌∷◌, ◌++◌, true, false, Bool, Bool-cases, inl, inr,
  if◌then◌else◌, not, ◌+ℤ◌, ◌≤ℤ◌, leb_ℤ, arith, append-nil, append_assoc, lt_next, ◌==◌, int_eq,
  Text,
}
use maelstromdb.Base.Result.{ok, ◌>>=◌, >>=_inversion, ok-injective}
use mathlib.Core.Path.{subst}
use maelstromdb.Protos.{LogEntry}
use maelstromdb.Config
use maelstromdb.Consensus.RaftLog
use maelstromdb.Consensus.State.{Env, Consensus, emit, connect, Effect, notify_membership}
use maelstromdb.Consensus.Roles.{append_entry, reset_to_follower, schedule_election, store_state}
use maelstromdb.Consensus.Replication.{
  commit_entry, commit_entries, uncommitted, advance_commit_index, complete_configuration,
  handover_entry, update_commit_index, scan_commit, is_committed,
}
use maelstromdb.Consensus.Quiet.{Quiet, emit-Quiet, commit_entries-Quiet}
use maelstromdb.Consensus.Outcomes.{
  not_reached, left_cluster, handed_over, notified, advance_commit_index-outcomes,
  complete_configuration-outcomes, update_commit_index-outcomes,
}

-- The entries of the log and the commit index are the same.
pub record SameLog (s t : Consensus) : Type 0 where
  pub same_entries : t.log.log_entries ≡ s.log.log_entries
  pub same_commit : t.m_commit_index ≡ s.m_commit_index

-- Entries are added to the log, and the commit index does not go back.
pub record Grows (s t : Consensus) : Type 0 where
  pub added : List LogEntry
  pub entries : t.log.log_entries ≡ s.log.log_entries ++ added
  pub commit : s.m_commit_index ≤ℤ t.m_commit_index

pub SameLog-Grows : {s t : Consensus} → SameLog s t → Grows s t
SameLog-Grows {s} {t} h = record {
  added = [];
  entries = h.same_entries ∙ sym (append-nil s.log.log_entries);
  commit = rw h.same_commit (omega arith);
}

pub SameLog-refl : (s : Consensus) → SameLog s s
SameLog-refl s = record { same_entries = refl; same_commit = refl }

pub SameLog-trans : {s t u : Consensus} → SameLog s t → SameLog t u → SameLog s u
SameLog-trans h g = record {
  same_entries = g.same_entries ∙ h.same_entries;
  same_commit = g.same_commit ∙ h.same_commit;
}

pub Grows-trans : {s t u : Consensus} → Grows s t → Grows t u → Grows s u
Grows-trans {s} {t} {u} h g =
    let first = h.commit in
    let second = g.commit in
    record {
      added = h.added ++ g.added;
      entries =
          g.entries
          ∙ ap (λ es. es ++ g.added) h.entries
          ∙ append_assoc s.log.log_entries h.added g.added;
      commit = omega arith;
    }

-- What an operation that succeeds with a known state leaves.
pub Grows-ok : {s t u : Consensus} → Grows s t → ok t ≡ ok u → Grows s u
Grows-ok {s} h p = subst (Grows s) (ok-injective p) h

appended_entry :
    (e : LogEntry) (s t : Consensus) (i : ℤ)
    → append_entry e s ≡ ok (i, t)
    → (t.log.log_entries ≡ s.log.log_entries ++ (e ∷ [])) × (t.m_commit_index ≡ s.m_commit_index)
unfolding append_entry RaftLog.append connect emit
appended_entry e s t i h = ground arith

pub SameLog-ok : {s t u : Consensus} → SameLog s t → ok t ≡ ok u → SameLog s u
SameLog-ok {s} h p = subst (SameLog s) (ok-injective p) h

pub append_entry-Grows :
    (e : LogEntry) (s t : Consensus) (i : ℤ) → append_entry e s ≡ ok (i, t) → Grows s t
append_entry-Grows e s t i h =
    let (entries, same) = appended_entry e s t i h in
    record { added = e ∷ []; entries = entries; commit = rw same (omega arith) }

pub Quiet-SameLog : {s t : Consensus} → Quiet s t → SameLog s t
Quiet-SameLog h = record { same_entries = ap (λ l. l.log_entries) h.log; same_commit = h.commit }

-- An index that is not before the commit index becomes the commit index.
advance_commit_index-Grows :
    (i : ℤ) (s t : Consensus) → s.m_commit_index ≤ℤ i → advance_commit_index i s ≡ ok t → Grows s t
advance_commit_index-Grows i s t after h = elim (advance_commit_index-outcomes i s t h) [
  | inl same ↦ rw⁻¹ same (SameLog-Grows (SameLog-refl s))
  | inr (es, moved) ↦
      let kept = Quiet-SameLog (commit_entries-Quiet es (record s { m_commit_index = i })) in
      rw⁻¹ moved (record {
        added = [];
        entries = kept.same_entries ∙ sym (append-nil s.log.log_entries);
        commit = rw kept.same_commit after;
      })
]

pub reset_to_follower-SameLog :
    (env : Env) (term : ℤ) (s : Consensus) → SameLog s (reset_to_follower env term s)
unfolding reset_to_follower schedule_election store_state RaftLog.set_metadata
reset_to_follower-SameLog env term s = record { same_entries = refl; same_commit = refl }

complete_configuration-Grows :
    (env : Env) (s t : Consensus) → complete_configuration env s ≡ ok t → Grows s t
complete_configuration-Grows env s t h =
    let woken = emit notify_membership s in
    let quiet = Quiet-SameLog (emit-Quiet notify_membership s) in
    elim (complete_configuration-outcomes env s t h) [
      | not_reached same ↦ rw⁻¹ same (SameLog-Grows (SameLog-refl s))
      | left_cluster left ↦ rw⁻¹ left (
          SameLog-Grows
            (SameLog-trans quiet (reset_to_follower-SameLog env (s.m_term +ℤ ℤ.pos 1) woken)))
      | handed_over i appended ↦
          Grows-trans (SameLog-Grows quiet)
            (append_entry-Grows (handover_entry s) woken t i appended)
      | notified same ↦ rw⁻¹ same (SameLog-Grows quiet)
    ]

pub update_commit_index-Grows :
    (env : Env) (s t : Consensus) → update_commit_index env s ≡ ok t → Grows s t
update_commit_index-Grows env s t h =
    let (i, u, after, moved, left) = update_commit_index-outcomes env s t h in
    Grows-trans (advance_commit_index-Grows i s u after moved)
      (complete_configuration-Grows env u t left)
