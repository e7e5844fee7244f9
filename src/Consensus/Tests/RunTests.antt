-- ===== src/Consensus/Tests/RunTests.antt =====
-- Runs of the node of the tests.
use maelstromdb.Base.{◌≡◌, refl, arith}
use maelstromdb.Consensus.State.{Consensus, is_candidate}
use maelstromdb.Consensus.Voting.{handle_request_vote, handle_vote_response}
use maelstromdb.Consensus.Steps.{
  Run, start, then, AreVoteSafe, IsVoteSafe, request_vote, vote_response,
}
use maelstromdb.Consensus.Runs.{single_vote_in_run}
use maelstromdb.Consensus.Tests.{program, clocks, a, b, c, node, request, granted}

-- The node after it has voted for `b` in term 2.
abbrev cast : Consensus
cast = (handle_request_vote clocks (request b) node).0

-- It refuses `c`, and drops a reply to a request of its own term.
abbrev between : Run clocks cast (handle_request_vote clocks (request c) cast).0
unfolding program is_candidate handle_vote_response
between = then (then start (request_vote (request c) refl)) (vote_response (request a) granted refl)

single_vote_in_run_example : b ≡ b
unfolding program AreVoteSafe IsVoteSafe is_candidate handle_vote_response
single_vote_in_run_example =
    single_vote_in_run clocks (request b) (request b) node
      (handle_request_vote clocks (request c) cast).0 between ((tt, tt), omega arith) (λ h. cc) refl
      refl refl
