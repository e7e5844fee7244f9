-- ===== src/Consensus/Winning.antt =====
-- How an election ends, in the handler of the replies to RequestVote of consensus_module.cpp.
use maelstromdb.Base.{
  ◌+◌, ◌*◌, ◌≤◌, ◌<◌, ◌≡◌, refl, ◌⊎◌, inl, inr, [], ◌∷◌, ◌++◌, true, false, Bool-cases, ◌&&◌, arith,
  eqb_ℤ, ltb_ℤ, length, ltb, ◌<ℤ◌, ◌≤ℤ◌, ltb_ℤ→lt, ltb_ℤ→le, eqb_ℤ-sound, eqb_ℤ_iff,
}
use maelstromdb.Base.Result.{ok}
use maelstromdb.Protos.{
  LogEntry, RequestVoteRequest, RequestVoteResponse, no_op, not_set, has_configuration,
}
use maelstromdb.Config
use maelstromdb.Config.{is_sync}
use maelstromdb.Consensus.RaftLog
use maelstromdb.Consensus.State.{Env, Consensus, leader, follower, is_candidate}
use maelstromdb.Consensus.Roles.{
  append_entry, promote_to_leader, schedule_heartbeat, reset_to_follower, store_state,
  schedule_election,
}
use maelstromdb.Consensus.Voting.{handle_vote_response}

-- The entry that a new leader appends.
abbrev pub leading_entry : Consensus → LogEntry
leading_entry s = record { term = s.m_term; type = no_op; log_data = not_set }

-- The node leads in its term, with an entry of the term at the end of its log.
pub record IsPromoted (s t : Consensus) : Type 0 where
  pub leads : t.m_state ≡ leader
  pub same_term : t.m_term ≡ s.m_term
  pub same_vote : t.m_vote ≡ s.m_vote
  pub appended : t.log.log_entries ≡ s.log.log_entries ++ leading_entry s ∷ []

promote_to_leader-IsPromoted :
    (s : Consensus) → (t : Consensus) × (promote_to_leader s ≡ ok t) × IsPromoted s t
unfolding promote_to_leader append_entry has_configuration schedule_heartbeat RaftLog.append
promote_to_leader-IsPromoted s =
    (_, refl, record { leads = refl; same_term = refl; same_vote = refl; appended = refl })

-- The reply has a newer term than the request, and the node follows in it.
pub record IsOutdated (request : RequestVoteRequest) (reply : RequestVoteResponse) (t : Consensus)
    : Type 0 where
  pub newer : request.term <ℤ reply.term
  pub follows : t.m_state ≡ follower
  pub in_term : t.m_term ≡ reply.term
  pub free_vote : t.m_vote ≡ []

-- The reply counts as a vote: its term is that of the request, and it grants the vote.
abbrev pub Counts : RequestVoteRequest → RequestVoteResponse → Type 0
Counts request reply = (reply.term ≡ request.term) × (reply.vote_granted ≡ true)

-- A vote that makes the votes a majority of the servers.
pub record IsWon (request : RequestVoteRequest) (reply : RequestVoteResponse) (s t : Consensus)
    : Type 0 where
  pub counts : Counts request reply
  pub majority : length s.m_configuration.m_addresses < (s.m_votes_received + 1) * 2
  pub promoted : IsPromoted s t

-- A vote that is counted, and leaves the votes short of a majority.
pub record IsOpen (request : RequestVoteRequest) (reply : RequestVoteResponse) (s t : Consensus)
    : Type 0 where
  pub counts : Counts request reply
  pub too_few : (s.m_votes_received + 1) * 2 ≤ length s.m_configuration.m_addresses
  pub counted : t ≡ record s { m_votes_received = s.m_votes_received + 1 }

-- A reply that is no vote and has no newer term than the request.
pub record IsVoid (request : RequestVoteRequest) (reply : RequestVoteResponse) (s t : Consensus)
    : Type 0 where
  pub not_newer : reply.term ≤ℤ request.term
  pub no_vote : ¬ Counts request reply
  pub unchanged : t ≡ s

-- The outcome is named by `P`.
abbrev Ends :
    (Consensus → Type 0) → Env → RequestVoteRequest → RequestVoteResponse → Consensus → Type 0
Ends P env request reply s =
    (t : Consensus) × (handle_vote_response env request reply s ≡ ok t) × P t

module _ (env : Env) (request : RequestVoteRequest) (reply : RequestVoteResponse)
    (s : Consensus) where
  newer_term :
      is_candidate s.m_state ≡ true
      → ltb_ℤ request.term reply.term ≡ true
      → Ends (IsOutdated request reply) env request reply s
  unfolding handle_vote_response reset_to_follower store_state schedule_election
  newer_term stands newer = (
    reset_to_follower env reply.term s,
    rw (stands, newer) refl,
    record {
      newer = ltb_ℤ→lt request.term reply.term newer;
      follows = refl;
      in_term = refl;
      free_vote = refl;
    },
  )

  module _ (stands : is_candidate s.m_state ≡ true)
      (older : ltb_ℤ request.term reply.term ≡ false) where
    no_vote :
        (eqb_ℤ reply.term request.term && reply.vote_granted) ≡ false
        → Ends (IsVoid request reply s) env request reply s
    unfolding handle_vote_response
    no_vote void = (
      s,
      rw (stands, older, void) refl,
      record {
        not_newer = ltb_ℤ→le request.term reply.term older;
        no_vote = λ counts. ground (arith, counts.0, counts.1, eqb_ℤ_iff reply.term request.term);
        unchanged = refl;
      },
    )

    vote :
        (eqb_ℤ reply.term request.term && reply.vote_granted) ≡ true
        → is_sync s.m_configuration.m_state ≡ false
        → Ends (λ t. IsWon request reply s t ⊎ IsOpen request reply s t) env request reply s
    unfolding handle_vote_response Config.server_addresses
    vote counts quiet =
        let next = record s { m_votes_received = s.m_votes_received + 1 } in
        let voted : Counts request reply =
          (eqb_ℤ-sound reply.term request.term (ground arith), ground arith) in
        elim (Bool-cases
          (ltb (length s.m_configuration.m_addresses) ((s.m_votes_received + 1) * 2))) [
            | inl most ↦
                let (t, done, p) = promote_to_leader-IsPromoted next in
                (
                  t,
                  rw (stands, older, counts, quiet, most) done,
                  inl (record {
                    counts = voted;
                    majority = ground arith;
                    promoted = record {
                      leads = p.leads;
                      same_term = p.same_term;
                      same_vote = p.same_vote;
                      appended = p.appended;
                    };
                  }),
                )
            | inr few ↦ (
              next,
              rw (stands, older, counts, quiet, few) refl,
              inr (record { counts = voted; too_few = ground arith; counted = refl }),
            )
          ]

-- The reply to a candidate outside a log sync is handled with success. Where its term is newer than
-- that of the request, the node is a follower of that term, with no vote in it. Where it is a
-- granted vote in the term of the request, and completes a majority of the servers, the node leads
-- its term, with an entry of the term at the end of its log; where it does not, the vote is counted
-- and nothing else changes. Where the reply is neither, the node is unchanged.
pub handle_vote_response_lem :
    (env : Env) (request : RequestVoteRequest) (reply : RequestVoteResponse) (s : Consensus)
    → is_candidate s.m_state ≡ true
    → is_sync s.m_configuration.m_state ≡ false
    → (t : Consensus) × (handle_vote_response env request reply s ≡ ok t)
      × (IsOutdated request reply t
          ⊎ ((IsWon request reply s t ⊎ IsOpen request reply s t) ⊎ IsVoid request reply s t))
handle_vote_response_lem env request reply s stands quiet =
    elim (Bool-cases (ltb_ℤ request.term reply.term)) [
      | inl newer ↦
          let (t, done, p) = newer_term env request reply s stands newer in (t, done, inl p)
      | inr older ↦ elim (Bool-cases (eqb_ℤ reply.term request.term && reply.vote_granted)) [
        | inr void ↦
            let (t, done, p) = no_vote env request reply s stands older void in
            (t, done, inr (inr p))
        | inl counts ↦
            let (t, done, p) = vote env request reply s stands older counts quiet in
            (t, done, inr (inl p))
      ]
    ]
