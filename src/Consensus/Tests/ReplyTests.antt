-- ===== src/Consensus/Tests/ReplyTests.antt =====
-- A leader that gets the answers to two heartbeats with the same entries.
use maelstromdb.Base.{ℤ, ◌<ℤ◌, refl, [], ◌∷◌, true, minus_one, arith}
use maelstromdb.Base.Result.{Result, ok, ◌>>=◌}
use maelstromdb.Protos.{has_configuration, AppendEntriesRequest, AppendEntriesResponse}
use maelstromdb.Config
use maelstromdb.Consensus.RaftLog
use maelstromdb.Consensus.State.{Consensus, index_of, emit}
use maelstromdb.Consensus.Replication.{update_commit_index, commit_entry}
use maelstromdb.Consensus.Leading.{handle_append_response}
use maelstromdb.Consensus.Counting.{handle_append_response-overcounts}
use maelstromdb.Consensus.Roles.{append_entry}
use maelstromdb.Consensus.Clients.{begin_register, waiting}
use maelstromdb.Consensus.Steps.{Run, start, then, append_response, register}
use maelstromdb.Consensus.Growth.{Grows}
use maelstromdb.Consensus.Growth.AppendOnly.{AreLed, Run-Grows}
use maelstromdb.Consensus.Tests.{program, clocks, a, b, leading, write_entry}

replies : Unit {0}
unfolding program handle_append_response update_commit_index Config.update_sync_progress
    RaftLog.range Config.server_addresses RaftLog.entry commit_entry emit Config.known_server
    begin_register append_entry has_configuration AreLed
replies = tt

-- The leader of the tests, that takes `b` to have the first entry alone.
abbrev sender : Consensus
sender = record leading { m_next_index = (b, ℤ.pos 1) ∷ []; m_match_index = (b, ℤ.pos 0) ∷ [] }

abbrev heartbeat : AppendEntriesRequest
heartbeat = record {
  term = ℤ.pos 1;
  leader_id = a;
  prev_log_index = ℤ.pos 0;
  prev_log_term = ℤ.pos 0;
  entries = write_entry 1 ∷ write_entry 1 ∷ [];
  leader_commit = minus_one;
}

abbrev success : AppendEntriesResponse
success = record { term = ℤ.pos 1; success = true }

abbrev or_else : Consensus → Result Consensus → Consensus
or_else s (ok t) = t
or_else s _ = s

abbrev answered : Consensus
answered = or_else sender (handle_append_response clocks heartbeat success b sender)

abbrev answered_twice : Consensus
answered_twice = or_else sender (handle_append_response clocks heartbeat success b answered)

handle_append_response-overcounts_example :
    RaftLog.last_index sender.log <ℤ index_of b answered_twice.m_match_index
unfolding replies
handle_append_response-overcounts_example =
    handle_append_response-overcounts clocks heartbeat success b 1 sender answered answered_twice
      refl refl refl refl (omega arith) refl refl refl (omega arith) refl refl

abbrev registering : Consensus
registering = or_else answered (begin_register answered >>= λ p. ok p.1)

-- The leader gets the answer of `b`, and then a new client.
abbrev led : Run clocks sender registering
unfolding replies
led =
    then (then start (append_response heartbeat success b refl))
      (register (waiting (ℤ.pos 3) (ℤ.pos 1)) refl)

Run-Grows_example : Grows sender registering
unfolding replies
Run-Grows_example = Run-Grows led ((tt, refl), refl)
