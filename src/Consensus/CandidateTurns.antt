-- ===== src/Consensus/CandidateTurns.antt =====
-- The turns of the operations of consensus_module.cpp that a candidate runs.
use maelstromdb.Base.{ℤ, ◌≡◌, refl, inl, inr, text_eq, int_eq, lt_next}
use maelstromdb.Base.Result.{ok}
use maelstromdb.Consensus.RaftLog
use maelstromdb.Consensus.State.{Env, Consensus}
use maelstromdb.Consensus.Roles.{store_state}
use maelstromdb.Consensus.Frame.{Same, Same-refl, promote_to_leader-Same, Quiet-Same}
use maelstromdb.Consensus.Turns.{Turn, kept, stored, Turn-trans}
use maelstromdb.Consensus.Elections.{
  stand_for_election, run_election, request_votes, election_callback,
}
use maelstromdb.Consensus.Quiet.{Quiet-trans, request_votes-Quiet, schedule_election-Quiet}
use maelstromdb.Consensus.Outcomes.Rounds.{run_election-outcomes, election_callback-outcomes}

-- A candidacy is in a newer term, with the vote stored.
stand_for_election-Turn : {Safe : Type 0} (s : Consensus) → Turn Safe s (stand_for_election s)
unfolding stand_for_election store_state RaftLog.set_metadata
stand_for_election-Turn s =
    stored (record { term_stored = refl; vote_stored = refl }) (λ safe. lt_next s.m_term)

run_election-Same : (env : Env) (s t : Consensus) → run_election env s ≡ ok t → Same s t
run_election-Same env s t h = elim (run_election-outcomes env s t h) [
  | inl won ↦ promote_to_leader-Same s t won
  | inr (addresses, asked) ↦
      let last_index = RaftLog.last_index s.log in
      let last_term = RaftLog.last_term s.log in
      rw⁻¹ asked (
        Quiet-Same (
          Quiet-trans (request_votes-Quiet addresses s.m_term last_index last_term s) (
            schedule_election-Quiet env s.m_term
              (request_votes addresses s.m_term last_index last_term s))))
]

pub election_callback-Turn :
    {Safe : Type 0} (env : Env) (term : ℤ) (s t : Consensus)
    → election_callback env term s ≡ ok t
    → Turn Safe s t
election_callback-Turn env term s t h = elim (election_callback-outcomes env term s t h) [
  | inl same ↦ rw⁻¹ same (kept (Same-refl s))
  | inr (inl waits) ↦ rw⁻¹ waits (kept (Quiet-Same (schedule_election-Quiet env term s)))
  | inr (inr runs) ↦
      Turn-trans (stand_for_election-Turn s)
        (kept (run_election-Same env (stand_for_election s) t runs))
]
