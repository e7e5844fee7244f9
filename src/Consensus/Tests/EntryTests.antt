-- ===== src/Consensus/Tests/EntryTests.antt =====
-- A leader with one more entry than the node of the tests.
use maelstromdb.Base.{zero, suc, ℤ, ◌≡◌, refl, [], ◌∷◌, ◌++◌, true, take, minus_one, arith}
use maelstromdb.Base.Result.{Result, ok}
use maelstromdb.Protos.{
  AppendEntriesRequest, AppendEntriesResponse, Status, status_ok, has_configuration,
}
use maelstromdb.Consensus.RaftLog
use maelstromdb.Consensus.State.{Consensus, leader, is_follower}
use maelstromdb.Consensus.Roles.{append_entries}
use maelstromdb.Consensus.Elections.{previous_term}
use maelstromdb.Consensus.Following.{handle_append_entries}
use maelstromdb.Consensus.Matching.{AreMatching}
use maelstromdb.Consensus.Merged.{HasEarlier}
use maelstromdb.Consensus.Sent.{IsSent}
use maelstromdb.Consensus.Replicated.{handle_append_entries-replicates}
use maelstromdb.Consensus.Tests.{program, clocks, b, node, write_entry, log, three}

abbrev leading_node : Consensus
leading_node = record node {
  address = b;
  m_state = leader;
  log = record log { log_entries = log.log_entries ++ (write_entry 1 ∷ []) };
}

abbrev sending : AppendEntriesRequest
sending = record {
  term = ℤ.pos 1;
  leader_id = b;
  prev_log_index = ℤ.pos 2;
  prev_log_term = ℤ.pos 1;
  entries = write_entry 1 ∷ [];
  leader_commit = minus_one;
}

sending-IsSent : IsSent leading_node 3 sending
unfolding program previous_term RaftLog.range RaftLog.entry
sending-IsSent = record { index = refl; previous = refl; entries = refl }

logs-AreMatching : AreMatching leading_node.log.log_entries node.log.log_entries
unfolding program AreMatching
logs-AreMatching zero x y at_x at_y same = refl
logs-AreMatching (suc zero) x y at_x at_y same = refl
logs-AreMatching (suc (suc zero)) x y at_x at_y same = refl
logs-AreMatching (suc (suc (suc i))) x y at_x at_y same = cc

abbrev state_of : Result (Consensus × AppendEntriesResponse × Status) → Consensus
state_of (ok (s, answer, code)) = s
state_of _ = node

abbrev received : Consensus
received = state_of (handle_append_entries clocks sending node)

handle_append_entries-replicates_example :
    take 4 received.log.log_entries ≡ leading_node.log.log_entries
unfolding program handle_append_entries RaftLog.entry is_follower append_entries has_configuration
    HasEarlier
handle_append_entries-replicates_example =
    handle_append_entries-replicates clocks leading_node 3 sending node received
      (record { term = ℤ.pos 1; success = true }) status_ok sending-IsSent logs-AreMatching refl
      (ℤ.pos 0, three, refl, omega arith) refl refl
