-- ===== src/Consensus/Indices.antt =====
-- The operations of consensus_module.cpp that leave the next and match indices of the peers.
use maelstromdb.Base.{ℤ, ◌≡◌, refl, sym, ap, ◌∙◌, inl, inr, arith, int_eq}
use maelstromdb.Base.Result.{ok, ok-injective}
use maelstromdb.Protos.{LogEntry}
use maelstromdb.Consensus.State.{Env, Consensus, emit, connect, notify_membership}
use maelstromdb.Consensus.Roles.{append_entry, reset_to_follower, schedule_election, store_state}
use maelstromdb.Consensus.Replication.{
  advance_commit_index, complete_configuration, handover_entry, update_commit_index,
}
use maelstromdb.Consensus.Quiet.{Quiet, emit-Quiet, commit_entries-Quiet}
use maelstromdb.Consensus.Outcomes.{
  not_reached, left_cluster, handed_over, notified, advance_commit_index-outcomes,
  complete_configuration-outcomes, update_commit_index-outcomes,
}

-- The next and match indices of the peers are the same.
pub record SameIndices (s t : Consensus) : Type 0 where
  pub same_next : t.m_next_index ≡ s.m_next_index
  pub same_match : t.m_match_index ≡ s.m_match_index

SameIndices-refl : (s : Consensus) → SameIndices s s
SameIndices-refl s = record { same_next = refl; same_match = refl }

pub SameIndices-trans : {s t u : Consensus} → SameIndices s t → SameIndices t u → SameIndices s u
SameIndices-trans h g = record {
  same_next = g.same_next ∙ h.same_next;
  same_match = g.same_match ∙ h.same_match;
}

-- What an operation that succeeds with a known state leaves.
pub SameIndices-ok : {s t u : Consensus} → SameIndices s t → ok t ≡ ok u → SameIndices s u
SameIndices-ok {s} h p =
    let same = ok-injective p in
    record {
      same_next = sym (ap (λ t. t.m_next_index) same) ∙ h.same_next;
      same_match = sym (ap (λ t. t.m_match_index) same) ∙ h.same_match;
    }

append_entry-SameIndices :
    (e : LogEntry) (s t : Consensus) (i : ℤ) → append_entry e s ≡ ok (i, t) → SameIndices s t
unfolding append_entry connect emit
append_entry-SameIndices e s t i h = ground arith

Quiet-SameIndices : {s t : Consensus} → Quiet s t → SameIndices s t
Quiet-SameIndices h = record { same_next = h.next; same_match = h.matched }

advance_commit_index-SameIndices :
    (i : ℤ) (s t : Consensus) → advance_commit_index i s ≡ ok t → SameIndices s t
advance_commit_index-SameIndices i s t h = elim (advance_commit_index-outcomes i s t h) [
  | inl same ↦ rw⁻¹ same (SameIndices-refl s)
  | inr (es, moved) ↦
      let kept = commit_entries-Quiet es (record s { m_commit_index = i }) in
      rw⁻¹ moved (record { same_next = kept.next; same_match = kept.matched })
]

complete_configuration-SameIndices :
    (env : Env) (s t : Consensus) → complete_configuration env s ≡ ok t → SameIndices s t
unfolding reset_to_follower schedule_election store_state emit
complete_configuration-SameIndices env s t h =
    let woken = emit notify_membership s in
    let quiet = Quiet-SameIndices (emit-Quiet notify_membership s) in
    elim (complete_configuration-outcomes env s t h) [
      | not_reached same ↦ rw⁻¹ same (SameIndices-refl s)
      | left_cluster left ↦ rw⁻¹ left (record { same_next = refl; same_match = refl })
      | handed_over i appended ↦
          SameIndices-trans quiet (append_entry-SameIndices (handover_entry s) woken t i appended)
      | notified same ↦ rw⁻¹ same quiet
    ]

pub update_commit_index-SameIndices :
    (env : Env) (s t : Consensus) → update_commit_index env s ≡ ok t → SameIndices s t
update_commit_index-SameIndices env s t h =
    let (i, u, after, moved, left) = update_commit_index-outcomes env s t h in
    SameIndices-trans (advance_commit_index-SameIndices i s u moved)
      (complete_configuration-SameIndices env u t left)
