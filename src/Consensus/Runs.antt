-- ===== src/Consensus/Runs.antt =====
-- Runs of the node of consensus_module.cpp, from a state to another.
use maelstromdb.Base.{
  ℤ, ◌≡◌, ◌≢◌, inl, inr, ◌≤ℤ◌, Text, [], true, arith, ap, pos_part, neg_part, ◌∙◌, sym,
}
use maelstromdb.Protos.{RequestVoteRequest}
use maelstromdb.Consensus.State.{Env, Consensus}
use maelstromdb.Consensus.Voting.{handle_request_vote}
use maelstromdb.Consensus.Votes.{IsPersisted, HasVoted, handle_request_vote-Granted}
use maelstromdb.Consensus.Turns.{Turn, kept, stored, voted, Same-IsPersisted}
use maelstromdb.Consensus.Steps.{Step-Turn, Run, start, then, AreVoteSafe}

pub Turn-IsPersisted : {G : Type 0} {s t : Consensus} → Turn G s t → IsPersisted s → IsPersisted t
Turn-IsPersisted (kept h) persisted = Same-IsPersisted h persisted
Turn-IsPersisted (stored h newer) persisted = h
Turn-IsPersisted (voted h term free) persisted = h

-- Whatever handlers run, in any order, the term and the vote in memory are those on disk after
-- each.
Run-IsPersisted : {env : Env} {s t : Consensus} → Run env s t → IsPersisted s → IsPersisted t
Run-IsPersisted start h = h
Run-IsPersisted (then run step) h = Turn-IsPersisted (Step-Turn step) (Run-IsPersisted run h)

Turn-term : {G : Type 0} {s t : Consensus} → Turn G s t → G → s.m_term ≤ℤ t.m_term
Turn-term {G} {s} {t} (kept h) safe = rw h.same_term (omega arith)
Turn-term {G} {s} {t} (stored h newer) safe = let later = newer safe in omega arith
Turn-term {G} {s} {t} (voted h same free) safe = rw same (omega arith)

-- In a run of which every step is safe for the vote, the term never goes back.
Run-term :
    {env : Env} {s t : Consensus} (run : Run env s t) → AreVoteSafe run → s.m_term ≤ℤ t.m_term
unfolding AreVoteSafe
Run-term start safe = omega arith
Run-term {env} {s} {t} (then run step) (before, last) =
    let first = Run-term run before in let second = Turn-term (Step-Turn step) last in omega arith

pub Turn-HasVoted :
    {G : Type 0} {s t : Consensus} (term : ℤ) (a : Text)
    → a ≢ []
    → Turn G s t
    → G
    → HasVoted term a s
    → HasVoted term a t
unfolding HasVoted
Turn-HasVoted {G} {s} {t} term a named (kept h) safe cast = rw (h.same_term, h.same_vote) cast
Turn-HasVoted {G} {s} {t} term a named (stored h newer) safe cast =
    let later = newer safe in
    inl (elim cast [ inl past ↦ omega arith | inr (same, vote) ↦ rw⁻¹ same later ])
Turn-HasVoted {G} {s} {t} term a named (voted h same free) safe cast = elim cast [
  | inl past ↦ inl (rw same past)
  | inr (term, vote) ↦ elim free [
    | inl none ↦ elim (named (sym vote ∙ none)) [ ]
    | inr again ↦ inr (same ∙ term, again ∙ vote)
  ]
]

Run-HasVoted :
    {env : Env} {s t : Consensus} (term : ℤ) (a : Text)
    → a ≢ []
    → (run : Run env s t) → AreVoteSafe run
    → HasVoted term a s
    → HasVoted term a t
unfolding AreVoteSafe
Run-HasVoted term a named start safe cast = cast
Run-HasVoted term a named (then run step) (before, last) cast =
    Turn-HasVoted term a named (Step-Turn step) last (Run-HasVoted term a named run before cast)

-- A node that has granted its vote to a named candidate, and has then run any handlers, where no
-- reply is to a request of an earlier term than the node's, no request to append entries in the
-- node's own term finds it a candidate or a leader with a vote, and no lease timer runs out but one
-- made in a later term, grants a vote in the same term to the same candidate only.
pub single_vote_in_run :
    (env : Env) (first second : RequestVoteRequest) (s t : Consensus)
    (run : Run env (handle_request_vote env first s).0 t)
    → AreVoteSafe run
    → first.candidate_id ≢ []
    → (handle_request_vote env first s).1.vote_granted ≡ true
    → (handle_request_vote env second t).1.vote_granted ≡ true
    → second.term ≡ first.term
    → second.candidate_id ≡ first.candidate_id
unfolding HasVoted
single_vote_in_run env first second s t run safe named granted again same_term =
    let once = handle_request_vote-Granted env first s granted in
    let twice = handle_request_vote-Granted env second t again in
    let cast =
      Run-HasVoted first.term first.candidate_id named run safe (inr (once.in_term, once.voted)) in
    let same_pos = ap pos_part same_term in
    let same_neg = ap neg_part same_term in
    let not_newer = twice.not_newer in
    let free = twice.free_vote in
    elim cast [ inl past ↦ ground arith | inr (same, vote) ↦ ground arith ]
