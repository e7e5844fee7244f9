-- ===== src/Node/Elections.antt =====
-- The elections of a cluster, by the lives of its nodes.
use maelstromdb.Base.{ℤ, ◌≡◌, ◌≢◌, Text, List, [], true, contains, text_eq, arith}
use maelstromdb.Protos.{Server}
use maelstromdb.Config.Quorum.{IsMajority, overlap}
use maelstromdb.Consensus.State.{Env, Consensus}
use maelstromdb.Consensus.Votes.{IsPersisted}
use maelstromdb.Node.Lives.{Life, AreSafeEvents, Held, single_vote_in_life}

-- A cluster of nodes that have lived from `first` to `last`, by their addresses.
pub record Cluster : Type 0 where
  pub env : Text → Env
  pub first : Text → Consensus
  pub last : Text → Consensus
  pub life : (t : Text) → Life (env t) (first t) (last t)

-- All the addresses are those of nodes that have had a vote for the candidate in the term.
abbrev pub HaveVoted : Cluster → ℤ → Text → List Text → Type 0
HaveVoted cluster term a votes = (t : Text) → contains t votes ≡ true → Held term a (cluster.life t)

-- Two named candidates that each have had the votes of a majority of the same servers in the same
-- term are one, where the term and the vote of each node are on disk at first and, in each node's
-- life, no reply is to a request of an earlier term than the node's, no request to append entries
-- in the node's own term finds it a candidate or a leader with a vote, and no lease timer runs out
-- but one made in a later term; nodes may have crashed and restarted, not as the leader, from
-- directories with any log files and with the two metadata files of which the newer one holds the
-- metadata last set, or none where they were never set.
pub single_winner :
    (cluster : Cluster) (servers : List Server) (term : ℤ) (a b : Text)
    (votes_a votes_b : List Text)
    → ((t : Text) → AreSafeEvents (cluster.life t))
    → ((t : Text) → IsPersisted (cluster.first t))
    → a ≢ []
    → b ≢ []
    → IsMajority servers votes_a
    → IsMajority servers votes_b
    → HaveVoted cluster term a votes_a
    → HaveVoted cluster term b votes_b
    → a ≡ b
single_winner cluster servers term a b votes_a votes_b safe persisted named_a named_b most_a most_b
      voted_a voted_b =
    let (t, listed, in_a, in_b) = overlap servers votes_a votes_b (omega arith) in
    single_vote_in_life (cluster.env t) (cluster.first t) (cluster.last t) term a b (cluster.life t)
      (safe t) (persisted t) named_a named_b (voted_a t in_a) (voted_b t in_b)
