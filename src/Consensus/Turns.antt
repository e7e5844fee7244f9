-- ===== src/Consensus/Turns.antt =====
-- How the operations of consensus_module.cpp change the term and the vote, and what they store.
use maelstromdb.Base.{
  ℤ, ◌≡◌, refl, sym, ap, [], arith, ◌≤ℤ◌, ◌<ℤ◌, if◌then◌else◌, Bool-cases, inl, inr, ◌⊎◌, ◌∙◌,
  text_eq, int_eq, ltb, length, text_eqb_iff, ◌+◌, ◌*◌, not, ltb_ℤ, eqb_ℤ, ◌&&◌,
}
use maelstromdb.Base.Result.{ok, ◌>>=◌, >>=_inversion, ok-injective}
use maelstromdb.Protos.{RequestVoteRequest, RequestVoteResponse}
use maelstromdb.Config
use maelstromdb.Consensus.RaftLog
use maelstromdb.Consensus.State.{Env, Consensus, now, is_candidate}
use maelstromdb.Consensus.Roles.{
  promote_to_leader, schedule_election, reset_to_follower, store_state,
}
use maelstromdb.Consensus.Voting.{
  decide_vote, may_grant, follow_term, handle_request_vote, handle_vote_response,
}
use maelstromdb.Consensus.Votes.{IsPersisted, handle_request_vote-cases, asked}
use maelstromdb.Consensus.Frame.{Same, Same-refl, Same-trans, Same-ok, promote_to_leader-Same}

-- How an operation leaves the term and the vote: both are the same, with the metadata; or the node
-- has stored them, and is in a newer term where `Safe` holds; or it has stored a vote in its term,
-- which was free or the same.
pub data Turn (Safe : Type 0) (s t : Consensus) : Type 0 where
  kept : Same s t → Turn Safe s t
  stored : IsPersisted t → (Safe → s.m_term <ℤ t.m_term) → Turn Safe s t
  voted :
      IsPersisted t → t.m_term ≡ s.m_term → (s.m_vote ≡ []) ⊎ (t.m_vote ≡ s.m_vote) → Turn Safe s t

pub Same-IsPersisted : {s t : Consensus} → Same s t → IsPersisted s → IsPersisted t
Same-IsPersisted {s} {t} h g = record {
  term_stored = ap (λ m. m.term) h.same_metadata ∙ g.term_stored ∙ sym h.same_term;
  vote_stored = ap (λ m. m.vote) h.same_metadata ∙ g.vote_stored ∙ sym h.same_vote;
}

pub Turn-trans : {Safe : Type 0} {s t u : Consensus} → Turn Safe s t → Turn Safe t u → Turn Safe s u
Turn-trans (kept h) (kept g) = kept (Same-trans h g)
Turn-trans (kept h) (stored g newer) = stored g (rw⁻¹ h.same_term newer)
Turn-trans (kept h) (voted g term free) = voted g (term ∙ h.same_term) (rw⁻¹ h.same_vote free)
Turn-trans (stored h newer) (kept g) = stored (Same-IsPersisted g h) (rw g.same_term newer)
Turn-trans {Safe} {s} {t} {u} (stored h newer) (stored g later) =
    stored g (λ safe. let first = newer safe in let second = later safe in omega arith)
Turn-trans (stored h newer) (voted g term free) = stored g (rw term newer)
Turn-trans (voted h term free) (kept g) =
    voted (Same-IsPersisted g h) (g.same_term ∙ term) (rw g.same_vote free)
Turn-trans (voted h term free) (stored g newer) = stored g (rw⁻¹ term newer)
Turn-trans (voted h term free) (voted g same taken) = voted g (same ∙ term) (elim free [
  | inl none ↦ inl none
  | inr again ↦ elim taken [ inl none ↦ inl (sym again ∙ none) | inr vote ↦ inr (vote ∙ again) ]
])

-- A turn under a condition is one under any condition that gives it.
pub Turn-within : {G H : Type 0} {s t : Consensus} → (H → G) → Turn G s t → Turn H s t
Turn-within implied (kept h) = kept h
Turn-within implied (stored h newer) = stored h (λ safe. newer (implied safe))
Turn-within implied (voted h term free) = voted h term free

pub reset_to_follower-IsPersisted :
    (env : Env) (term : ℤ) (s : Consensus) → IsPersisted (reset_to_follower env term s)
unfolding reset_to_follower store_state schedule_election RaftLog.set_metadata
reset_to_follower-IsPersisted env term s = record { term_stored = refl; vote_stored = refl }

-- A reset to a term that is newer in time.
pub reset_to_follower-Turn :
    {Safe : Type 0} (env : Env) (term : ℤ) (s : Consensus)
    → (Safe → s.m_term <ℤ term)
    → Turn Safe s (reset_to_follower env term s)
unfolding reset_to_follower store_state schedule_election
reset_to_follower-Turn env term s newer = stored (reset_to_follower-IsPersisted env term s) newer

-- A reset in the term of a node that has no vote.
pub reset_to_follower-free :
    {Safe : Type 0} (env : Env) (term : ℤ) (s : Consensus)
    → term ≡ s.m_term
    → s.m_vote ≡ []
    → Turn Safe s (reset_to_follower env term s)
unfolding reset_to_follower store_state schedule_election
reset_to_follower-free env term s same free =
    voted (reset_to_follower-IsPersisted env term s) same (inl free)

pub now-Same : (env : Env) (s : Consensus) → Same s (now env s).1
unfolding now
now-Same env s = record { same_term = refl; same_vote = refl; same_metadata = refl }

pub follow_term-Turn :
    {Safe : Type 0} (env : Env) (term : ℤ) (s : Consensus) → Turn Safe s (follow_term env term s)
unfolding follow_term
follow_term-Turn env term s = elim (Bool-cases (ltb_ℤ s.m_term term)) [
  | inl q ↦ rw q (reset_to_follower-Turn env term s (λ safe. ground arith))
  | inr q ↦ rw q (kept (Same-refl s))
]

-- A vote in the term of the node.
decide_vote-Turn :
    {Safe : Type 0} (env : Env) (request : RequestVoteRequest) (s : Consensus)
    → Turn Safe s (decide_vote env request s).0
unfolding decide_vote may_grant store_state schedule_election RaftLog.set_metadata
decide_vote-Turn env request s = elim (Bool-cases (may_grant request s)) [
  | inl q ↦ rw q (
      voted (record { term_stored = refl; vote_stored = refl }) refl
        (ground (arith, text_eqb_iff s.m_vote [], text_eqb_iff s.m_vote request.candidate_id)))
  | inr q ↦ rw q (kept (Same-refl s))
]

pub handle_request_vote-Turn :
    (env : Env) (request : RequestVoteRequest) (s : Consensus) (Safe : Type 0)
    → Turn Safe s (handle_request_vote env request s).0
handle_request_vote-Turn env request s Safe =
    handle_request_vote-cases (Turn Safe s) env request s (kept (Same-refl s))
      (kept (now-Same env s))
      (Turn-trans (kept (now-Same env s)) (
        Turn-trans (follow_term-Turn env request.term (now env s).1)
          (decide_vote-Turn env request (asked env request s))))

count_vote-Same :
    (s t : Consensus)
    → (do
      let counted = record s { m_votes_received = s.m_votes_received + 1 }
      addresses ← Config.server_addresses s.m_configuration
      if ltb (length addresses) (counted.m_votes_received * 2)
          then promote_to_leader counted
          else ok counted)
      ≡ ok t
    → Same s t
count_vote-Same s t h =
    let counted : Consensus = record s { m_votes_received = s.m_votes_received + 1 } in
    let same : Same s counted = record {
      same_term = refl;
      same_vote = refl;
      same_metadata = refl;
    } in
    let (addresses, read, h') =
      >>=_inversion (Config.server_addresses s.m_configuration)
        (λ addresses.
          if ltb (length addresses) (counted.m_votes_received * 2)
          then promote_to_leader counted
          else ok counted)
        t h in
    elim (Bool-cases (ltb (length addresses) (counted.m_votes_received * 2))) [
      | inl q ↦ Same-trans same (promote_to_leader-Same counted t (rw q at h'))
      | inr q ↦ Same-ok same (rw q at h')
    ]

pub handle_vote_response-Turn :
    (env : Env) (request : RequestVoteRequest) (reply : RequestVoteResponse) (s t : Consensus)
    → handle_vote_response env request reply s ≡ ok t
    → Turn (s.m_term ≤ℤ request.term) s t
unfolding handle_vote_response
handle_vote_response-Turn env request reply s t h =
    elim (Bool-cases (not (is_candidate s.m_state))) [
      | inl q ↦ kept (Same-ok (Same-refl s) (rw q at h))
      | inr running ↦ elim (Bool-cases (ltb_ℤ request.term reply.term)) [
        | inl q ↦
            let same : reset_to_follower env reply.term s ≡ t =
              ok-injective (rw (running, q) at h) in
            rw⁻¹ same (reset_to_follower-Turn env reply.term s (ground arith))
        | inr current ↦ elim (Bool-cases (eqb_ℤ reply.term request.term && reply.vote_granted)) [
          | inr q ↦ kept (Same-ok (Same-refl s) (rw (running, current, q) at h))
          | inl q ↦ kept (count_vote-Same s t (rw (running, current, q) at h))
        ]
      ]
    ]
