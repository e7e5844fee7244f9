-- ===== src/Rpc/Client/Replies.antt =====
-- The calls that raft_client.cpp starts for the consensus module.
use maelstromdb.Base.{
  ℤ, ◌≡◌, refl, ap, ◌∙◌, List, [], ◌∷◌, ◌++◌, append-nil, append_assoc, Bool, true, false, none,
  some, if◌then◌else◌, Text, text_eq, text_eqb_self, ◌==◌, find, assign, find-assign, contains,
  Bool-cases, inl, inr, eqb, length, ◌&&◌, ◌+ℤ◌,
}
use maelstromdb.Base.Result.{ok}
use maelstromdb.Config
use maelstromdb.Consensus.RaftLog
use maelstromdb.Consensus.Roles.{schedule_election, store_state}
use maelstromdb.Consensus.State.{Env, Consensus, Effect, emit}
use maelstromdb.Consensus.Elections
use maelstromdb.Rpc.Client.{
  Client, create_connections, stub_of, start_call, request_vote, AsyncClientCall, vote_call,
  perform, perform_all,
}
use maelstromdb.Rpc.Client.Stubs.{find-create_connections}

stub_of-none :
    (peer : Text) (c : Client)
    → find peer c.m_stubs ≡ none
    → stub_of peer c ≡ (false, record c { m_stubs = assign peer false c.m_stubs })
unfolding stub_of assign
stub_of-none peer c h = rw (stub_of, h) refl

stub_of-some :
    (peer : Text) (stub : Bool) (c : Client)
    → find peer c.m_stubs ≡ some stub
    → stub_of peer c ≡ (stub, c)
unfolding stub_of
stub_of-some peer stub c h = rw (stub_of, h) refl

module _ (peer : Text) (term last_log_index last_log_term : ℤ) (c : Client) where
  request_vote_absent :
      find peer c.m_stubs ≡ none
      → request_vote peer term last_log_index last_log_term c
        ≡ record c { m_stubs = assign peer false c.m_stubs }
  unfolding request_vote start_call
  request_vote_absent h = rw (stub_of-none peer c h) refl

  request_vote_disconnected :
      find peer c.m_stubs ≡ some false → request_vote peer term last_log_index last_log_term c ≡ c
  unfolding request_vote start_call
  request_vote_disconnected h = rw (stub_of-some peer false c h) refl

  -- The call that a request starts.
  abbrev started_call : AsyncClientCall
  started_call =
      vote_call
        (record {
          term = term;
          candidate_id = c.address;
          last_log_index = last_log_index;
          last_log_term = last_log_term;
        })
        peer

  request_vote_connected :
      find peer c.m_stubs ≡ some true
      → request_vote peer term last_log_index last_log_term c
        ≡ record c { calls = c.calls ++ (started_call ∷ []) }
  unfolding request_vote start_call
  request_vote_connected h = rw (stub_of-some peer true c h) refl

module _ (peer : Text) (peers : List Text) (term last_log_index last_log_term : ℤ)
    (s : Consensus) where
  request_votes_self :
      (peer == s.address) ≡ true
      → Elections.request_votes (peer ∷ peers) term last_log_index last_log_term s
        ≡ Elections.request_votes peers term last_log_index last_log_term s
  unfolding Elections.request_votes
  request_votes_self h = rw h refl

  request_votes_other :
      (peer == s.address) ≡ false
      → Elections.request_votes (peer ∷ peers) term last_log_index last_log_term s
        ≡ Elections.request_votes peers term last_log_index last_log_term
            (emit (Effect.request_vote peer term last_log_index last_log_term) s)
  unfolding Elections.request_votes
  request_votes_other h = rw h refl

request_votes_nil :
    (term last_log_index last_log_term : ℤ) (s : Consensus)
    → Elections.request_votes [] term last_log_index last_log_term s ≡ s
unfolding Elections.request_votes
request_votes_nil term last_log_index last_log_term s = refl

-- A request that the consensus module asks for is a call, where there is a stub.
perform_all-request_vote :
    (peer : Text) (term last_log_index last_log_term : ℤ) (s : Consensus) (c : Client)
    → find peer (perform_all s.effects c).m_stubs ≡ some true
    → perform_all (emit (Effect.request_vote peer term last_log_index last_log_term) s).effects c
      ≡ record (perform_all s.effects c) {
        calls =
            (perform_all s.effects c).calls
            ++ (started_call peer term last_log_index last_log_term (perform_all s.effects c) ∷ []);
      }
unfolding perform_all perform emit
perform_all-request_vote peer term last_log_index last_log_term s c h =
    request_vote_connected peer term last_log_index last_log_term (perform_all s.effects c) h

-- A request to a server that the client has no entry for makes an entry without a stub. The
-- connections that are made later, for servers with this one among them, leave it so, and drop
-- every further request to it.
pub never_connected :
    (peer : Text) (peers : List Text) (term last_log_index last_log_term : ℤ) (c : Client)
    → find peer c.m_stubs ≡ none
    → contains peer peers ≡ true
    → (t : Client) × (create_connections peers
          (request_vote peer term last_log_index last_log_term c)
        ≡ t)
      × (find peer t.m_stubs ≡ some false)
      × ((new_term new_index new_log_term : ℤ)
          → request_vote peer new_term new_index new_log_term t ≡ t)
never_connected peer peers term last_log_index last_log_term c none_yet named =
    let asked : Client = record c { m_stubs = assign peer false c.m_stubs } in
    let entry : find peer asked.m_stubs ≡ some false =
      find-assign peer peer false c.m_stubs ∙ rw (text_eqb_self peer) refl in
    let kept : find peer (create_connections peers asked).m_stubs ≡ some false =
      find-create_connections peer peers asked ∙ rw (named, entry) refl in
    (
      create_connections peers asked,
      ap (create_connections peers)
          (request_vote_absent peer term last_log_index last_log_term c none_yet),
      kept,
      λ new_term new_index new_log_term.
          request_vote_disconnected peer new_term new_index new_log_term
            (create_connections peers asked) kept,
    )

-- The other servers have stubs.
unfoldable pub AreConnected : Text → List Text → List (Text × Bool) → Type 0
AreConnected self [] stubs = Unit
AreConnected self (peer ∷ peers) stubs =
    ((peer == self ≡ false) → find peer stubs ≡ some true) × AreConnected self peers stubs

-- A request for a vote to each server but the node.
unfoldable pub vote_calls : Text → List Text → ℤ → ℤ → ℤ → List AsyncClientCall
vote_calls self [] term last_log_index last_log_term = []
vote_calls self (peer ∷ peers) term last_log_index last_log_term =
    let rest = vote_calls self peers term last_log_index last_log_term in
    if peer == self
    then rest
    else vote_call
        (record {
          term = term;
          candidate_id = self;
          last_log_index = last_log_index;
          last_log_term = last_log_term;
        })
        peer
      ∷ rest

-- The requests for votes, as calls.
request_votes-vote_calls :
    (peers : List Text) (term last_log_index last_log_term : ℤ) (s : Consensus) (c : Client)
    → (perform_all s.effects c).address ≡ s.address
    → AreConnected s.address peers (perform_all s.effects c).m_stubs
    → perform_all (Elections.request_votes peers term last_log_index last_log_term s).effects c
      ≡ record (perform_all s.effects c) {
        calls =
            (perform_all s.effects c).calls
            ++ vote_calls s.address peers term last_log_index last_log_term;
      }
unfolding AreConnected vote_calls emit
request_votes-vote_calls [] term last_log_index last_log_term s c self connected =
    rw
      (
        append-nil (perform_all s.effects c).calls,
        request_votes_nil term last_log_index last_log_term s,
      )
      refl
request_votes-vote_calls (peer ∷ peers) term last_log_index last_log_term s c self connected =
    elim (Bool-cases (peer == s.address)) [
      | inl q ↦
          rw (request_votes_self peer peers term last_log_index last_log_term s q, q)
            (request_votes-vote_calls peers term last_log_index last_log_term s c self connected.1)
      | inr q ↦
          let asked = emit (Effect.request_vote peer term last_log_index last_log_term) s in
          let started =
            perform_all-request_vote peer term last_log_index last_log_term s c (connected.0 q) in
          let rest =
            request_votes-vote_calls peers term last_log_index last_log_term asked c
              (rw started self) (rw started connected.1) in
          rw
            (
              request_votes_other peer peers term last_log_index last_log_term s q,
              q,
              rest,
              started,
              self,
            )
            (ap (λ calls. record (perform_all s.effects c) { address = s.address; calls = calls })
              (append_assoc (perform_all s.effects c).calls _ _))
    ]

-- An election in a cluster of other servers too, of a node whose client is connected to them,
-- succeeds, and what the node asks for makes the client start one call to each other server of the
-- configuration, in order, with the next term, the node as the candidate, and the index and the
-- term of its last entry; there is no call to the node itself, and the connections stay.
pub run_election-vote_calls :
    (env : Env) (s : Consensus) (c : Client) (addresses : List Text) (known : Bool)
    → Config.server_addresses s.m_configuration ≡ ok addresses
    → Config.known_server s.address s.m_configuration ≡ ok known
    → (eqb (length addresses) 1 && known) ≡ false
    → (perform_all s.effects c).address ≡ s.address
    → AreConnected s.address addresses (perform_all s.effects c).m_stubs
    → (t : Consensus) × (Elections.run_election env (Elections.stand_for_election s) ≡ ok t)
      × (perform_all t.effects c ≡ record (perform_all s.effects c) {
        calls =
            (perform_all s.effects c).calls
            ++ vote_calls s.address addresses
                (s.m_term +ℤ ℤ.pos 1)
                (RaftLog.last_index s.log)
                (RaftLog.last_term s.log);
      })
unfolding Elections.run_election Elections.stand_for_election schedule_election store_state
    RaftLog.set_metadata RaftLog.last_index RaftLog.size RaftLog.last_term
run_election-vote_calls env s c addresses known listed asked others self connected =
    let u = Elections.stand_for_election s in
    let term = s.m_term +ℤ ℤ.pos 1 in
    let last_index = RaftLog.last_index s.log in
    let last_term = RaftLog.last_term s.log in
    (
      schedule_election env term (Elections.request_votes addresses term last_index last_term u),
      rw (listed, asked, others) refl,
      request_votes-vote_calls addresses term last_index last_term u c self connected,
    )
