-- ===== src/Consensus/Votes.antt =====
-- The votes that the handler of RequestVote in consensus_module.cpp grants.
use maelstromdb.Base.{
  ℤ, ◌≡◌, refl, sym, ◌≢◌, ◌⊎◌, inl, inr, ◌≤ℤ◌, ◌<ℤ◌, Text, List, [], ◌∷◌, true, false, Bool-cases,
  leb, ap, pos_part, neg_part, arith, text_eqb_iff, eqb_ℤ-sound, ltb_ℤ,
}
use maelstromdb.Protos.{RequestVoteRequest}
use maelstromdb.Consensus.RaftLog
use maelstromdb.Consensus.State.{Env, Consensus, now, is_dead, is_leader}
use maelstromdb.Consensus.Roles.{reset_to_follower, schedule_election, store_state}
use maelstromdb.Consensus.Voting.{
  is_up_to_date, may_grant, decide_vote, follow_term, handle_request_vote,
}

-- The term and the vote in memory are those on disk.
pub record IsPersisted (s : Consensus) : Type 0 where
  pub term_stored : s.log.log_metadata.term ≡ s.m_term
  pub vote_stored : s.log.log_metadata.vote ≡ s.m_vote

-- The state that `decide_vote` starts from.
abbrev pub asked : Env → RequestVoteRequest → Consensus → Consensus
asked env request s = follow_term env request.term (now env s).1

decide_vote-grant :
    (env : Env) (request : RequestVoteRequest) (s : Consensus)
    → may_grant request s ≡ true
    → ((decide_vote env request s).0.m_vote ≡ request.candidate_id)
      × ((decide_vote env request s).0.m_term ≡ request.term)
      × IsPersisted (decide_vote env request s).0
unfolding decide_vote may_grant store_state schedule_election RaftLog.set_metadata
decide_vote-grant env request s h = rw h (
  refl,
  sym (eqb_ℤ-sound request.term s.m_term (ground arith)),
  record { term_stored = refl; vote_stored = refl },
)

-- Where a vote is granted, every guard has let the request pass.
guards_passed :
    (env : Env) (request : RequestVoteRequest) (s : Consensus)
    → (handle_request_vote env request s).1.vote_granted ≡ true
    → (is_dead s.m_state ≡ false)
      × (is_leader s.m_state ≡ false)
      × (leb (env.clock s.readings) s.m_election_deadline ≡ false)
      × (may_grant request (asked env request s) ≡ true)
      × ((handle_request_vote env request s).0 ≡ (decide_vote env request (asked env request s)).0)
unfolding handle_request_vote decide_vote now
guards_passed env request s h = elim (Bool-cases (is_dead s.m_state)) [
  | inl q ↦ ground arith
  | inr alive ↦ elim (Bool-cases (leb (env.clock s.readings) s.m_election_deadline)) [
    | inl q ↦ ground arith
    | inr passed ↦ elim (Bool-cases (is_leader s.m_state)) [
      | inl q ↦ ground arith
      | inr quiet ↦ elim (Bool-cases (may_grant request (asked env request s))) [
        | inl q ↦ (alive, quiet, passed, q, rw (alive, passed, quiet))
        | inr q ↦ ground arith
      ]
    ]
  ]
]

may_grant-asked :
    (env : Env) (request : RequestVoteRequest) (s : Consensus)
    → may_grant request (asked env request s) ≡ true
    → (s.m_term ≤ℤ request.term)
      × ((s.m_term <ℤ request.term) ⊎ ((s.m_vote ≡ []) ⊎ (s.m_vote ≡ request.candidate_id)))
      × (is_up_to_date request s.log ≡ true)
unfolding may_grant follow_term reset_to_follower store_state schedule_election now
    RaftLog.set_metadata is_up_to_date RaftLog.last_term RaftLog.last_index RaftLog.size
may_grant-asked env request s h = elim (Bool-cases (ltb_ℤ s.m_term request.term)) [
  | inl q ↦ (ground arith, inl (ground arith), ground arith)
  | inr q ↦ (
    ground arith,
    ground (arith, text_eqb_iff s.m_vote [], text_eqb_iff s.m_vote request.candidate_id),
    ground arith,
  )
]

-- What a granted vote shows of the node before and after.
pub record Granted (env : Env) (request : RequestVoteRequest) (s t : Consensus) : Type 0 where
  pub alive : is_dead s.m_state ≡ false
  pub not_leading : is_leader s.m_state ≡ false
  pub deadline_passed : leb (env.clock s.readings) s.m_election_deadline ≡ false
  pub not_newer : s.m_term ≤ℤ request.term
  pub free_vote : (s.m_term <ℤ request.term) ⊎ ((s.m_vote ≡ []) ⊎ (s.m_vote ≡ request.candidate_id))
  pub up_to_date : is_up_to_date request s.log ≡ true
  pub voted : t.m_vote ≡ request.candidate_id
  pub in_term : t.m_term ≡ request.term
  pub persisted : IsPersisted t

-- A vote is granted only by a live node that does not lead and whose deadline has passed, to a
-- candidate whose term is not behind and whose log is up to date, where the term is new or the vote
-- is free or already the candidate's; afterwards the node is in the term of the request, its vote
-- is the candidate's, and both are on disk.
pub handle_request_vote-Granted :
    (env : Env) (request : RequestVoteRequest) (s : Consensus)
    → (handle_request_vote env request s).1.vote_granted ≡ true
    → Granted env request s (handle_request_vote env request s).0
handle_request_vote-Granted env request s h =
    let (alive, quiet, passed, may, same) = guards_passed env request s h in
    let (term, free, current) = may_grant-asked env request s may in
    let (vote, in_term, stored) = decide_vote-grant env request (asked env request s) may in
    record {
      alive = alive;
      not_leading = quiet;
      deadline_passed = passed;
      not_newer = term;
      free_vote = free;
      up_to_date = current;
      voted = rw same vote;
      in_term = rw same in_term;
      persisted = rw same stored;
    }

-- A property of states that handling a request keeps where it holds for a reading of the clock and
-- for the decision on the vote.
pub handle_request_vote-cases {ℓ} :
    (P : Consensus → Type ℓ) (env : Env) (request : RequestVoteRequest) (s : Consensus)
    → P s
    → P (now env s).1
    → P (decide_vote env request (asked env request s)).0
    → P (handle_request_vote env request s).0
unfolding handle_request_vote now
handle_request_vote-cases P env request s same read voted = elim (Bool-cases (is_dead s.m_state)) [
  | inl q ↦ rw q same
  | inr alive ↦ elim (Bool-cases (leb (env.clock s.readings) s.m_election_deadline)) [
    | inl q ↦ rw (alive, q) read
    | inr passed ↦ elim (Bool-cases (is_leader s.m_state)) [
      | inl q ↦ rw (alive, passed, q) read
      | inr quiet ↦ rw (alive, passed, quiet) voted
    ]
  ]
]

-- The state of the node after requests for votes, one after the other.
unfoldable pub after_requests : Env → List RequestVoteRequest → Consensus → Consensus
after_requests env [] s = s
after_requests env (request ∷ requests) s =
    after_requests env requests (handle_request_vote env request s).0

-- The node is past the term, or has voted for the candidate in it.
unfoldable pub HasVoted : ℤ → Text → Consensus → Type 0
HasVoted term candidate_id s = (term <ℤ s.m_term) ⊎ ((s.m_term ≡ term) × (s.m_vote ≡ candidate_id))

module _ (env : Env) (request : RequestVoteRequest) (term : ℤ) (a : Text) where
  follow_term-HasVoted :
      (s : Consensus) → HasVoted term a s → HasVoted term a (follow_term env request.term s)
  unfolding HasVoted follow_term reset_to_follower store_state schedule_election
  follow_term-HasVoted s h = elim (Bool-cases (ltb_ℤ s.m_term request.term)) [
    | inl q ↦ inl (elim h [ inl past ↦ ground arith | inr (same, vote) ↦ rw⁻¹ same (ground arith) ])
    | inr q ↦ rw q h
  ]

  decide_vote-HasVoted :
      (s : Consensus) → a ≢ [] → HasVoted term a s → HasVoted term a (decide_vote env request s).0
  unfolding HasVoted decide_vote may_grant store_state schedule_election
  decide_vote-HasVoted s named h = elim (Bool-cases (may_grant request s)) [
    | inl q ↦ rw q (elim h [
      | inl past ↦ inl past
      | inr (same, vote) ↦ inr (
        same,
        ground (arith, text_eqb_iff s.m_vote [], text_eqb_iff s.m_vote request.candidate_id),
      )
    ])
    | inr q ↦ rw q h
  ]

  pub handle_request_vote-HasVoted :
      (s : Consensus)
      → a ≢ []
      → HasVoted term a s
      → HasVoted term a (handle_request_vote env request s).0
  unfolding HasVoted now
  handle_request_vote-HasVoted s named h =
      handle_request_vote-cases (HasVoted term a) env request s h h
        (decide_vote-HasVoted (asked env request s) named (follow_term-HasVoted (now env s).1 h))

after_requests-HasVoted :
    (env : Env) (requests : List RequestVoteRequest) (term : ℤ) (a : Text) (s : Consensus)
    → a ≢ []
    → HasVoted term a s
    → HasVoted term a (after_requests env requests s)
unfolding after_requests
after_requests-HasVoted env [] term a s named h = h
after_requests-HasVoted env (request ∷ requests) term a s named h =
    after_requests-HasVoted env requests term a (handle_request_vote env request s).0 named
      (handle_request_vote-HasVoted env request term a s named h)

-- A node that has granted its vote to a named candidate, and has then handled any requests for
-- votes, grants a vote in the same term to the same candidate only.
single_vote :
    (env : Env) (first second : RequestVoteRequest) (between : List RequestVoteRequest)
    (s : Consensus)
    → first.candidate_id ≢ []
    → (handle_request_vote env first s).1.vote_granted ≡ true
    → (handle_request_vote env second
        (after_requests env between (handle_request_vote env first s).0)).1.vote_granted
      ≡ true
    → second.term ≡ first.term
    → second.candidate_id ≡ first.candidate_id
unfolding HasVoted
single_vote env first second between s named granted again same_term =
    let once = handle_request_vote-Granted env first s granted in
    let u = after_requests env between (handle_request_vote env first s).0 in
    let twice = handle_request_vote-Granted env second u again in
    let kept =
      after_requests-HasVoted env between first.term first.candidate_id
        (handle_request_vote env first s).0 named (inr (once.in_term, once.voted)) in
    let same_pos = ap pos_part same_term in
    let same_neg = ap neg_part same_term in
    let not_newer = twice.not_newer in
    let free = twice.free_vote in
    elim kept [ inl past ↦ ground arith | inr (same, vote) ↦ ground arith ]

-- Handling a request for a vote keeps the term and the vote on disk those in memory, and never goes
-- back to an earlier term.
handle_request_vote-IsPersisted :
    (env : Env) (request : RequestVoteRequest) (s : Consensus)
    → IsPersisted s
    → IsPersisted (handle_request_vote env request s).0
      × (s.m_term ≤ℤ (handle_request_vote env request s).0.m_term)
unfolding now follow_term reset_to_follower decide_vote store_state schedule_election
    RaftLog.set_metadata
handle_request_vote-IsPersisted env request s h =
    handle_request_vote-cases (λ t. IsPersisted t × (s.m_term ≤ℤ t.m_term)) env request s
      (h, omega arith)
      (record { term_stored = h.term_stored; vote_stored = h.vote_stored }, omega arith)
      (elim (Bool-cases (ltb_ℤ s.m_term request.term)) [
        | inl q ↦ elim (Bool-cases (may_grant request (asked env request s))) [
          | inl g ↦ rw (g, q) (record { term_stored = refl; vote_stored = refl }, ground arith)
          | inr g ↦ rw (g, q) (record { term_stored = refl; vote_stored = refl }, ground arith)
        ]
        | inr q ↦ elim (Bool-cases (may_grant request (asked env request s))) [
          | inl g ↦ rw (g, q) (record { term_stored = refl; vote_stored = refl }, omega arith)
          | inr g ↦
              rw (g, q)
                (record { term_stored = h.term_stored; vote_stored = h.vote_stored }, omega arith)
        ]
      ])
