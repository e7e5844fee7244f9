-- ===== src/Consensus/Tests/RetryTests.antt =====
-- A client that asks twice for the same write.
use maelstromdb.Base.{ℤ, ◌≡◌, refl, [], ◌∷◌, contains, find, int_eq, arith, eqb_ℤ_iff}
use maelstromdb.Base.Result.{Result, ok}
use maelstromdb.Protos.{status_ok}
use maelstromdb.Machine
use maelstromdb.Session
use maelstromdb.Session.{SessionCache}
use maelstromdb.Session.Eviction.{IsSound}
use maelstromdb.Consensus.State.{Consensus}
use maelstromdb.Consensus.Clients.{
  Stage, answered, ClientRequestRequest, finish_request, success_reply,
}
use maelstromdb.Consensus.Retries.{finish_request-retry}
use maelstromdb.Consensus.Tests.{program, leading}

-- The session of the client 1.
abbrev opened : SessionCache
opened = record { m_capacity = 2; m_size = 1; m_cache = (ℤ.pos 1, []) ∷ []; order = ℤ.pos 1 ∷ [] }

opened-IsSound : IsSound opened
unfolding Session.session_exists contains find
opened-IsSound = record {
  distinct = (refl, tt);
  count = refl;
  bounded = omega arith;
  keys = λ j. ground (arith, eqb_ℤ_iff (ℤ.pos 1) j);
}

-- The node leads, and has committed the entry with the write.
abbrev committed : Consensus
committed = record leading {
  m_commit_index = ℤ.pos 2;
  m_state_machine = record { m_last_applied = ℤ.pos 1; m_sessions = opened; m_store = [] };
}

abbrev asking : ClientRequestRequest
asking = record { client_id = ℤ.pos 1; sequence_num = ℤ.pos 7; command = b'k' ∷ b':' ∷ b'v' ∷ [] }

abbrev state_of : Result (Stage Session.ClientRequestResponse × Consensus) → Consensus
state_of (ok (stage, s)) = s
state_of _ = committed

abbrev written : Consensus
written = state_of (finish_request (ℤ.pos 2) (ℤ.pos 1) asking committed)

finish_request-retry_example :
    (v : Consensus) × (finish_request (ℤ.pos 2) (ℤ.pos 1) asking written
      ≡ ok (answered success_reply status_ok, v))
    × (v.m_state_machine.m_store ≡ (b'k' ∷ [], b'v' ∷ []) ∷ [])
unfolding program finish_request Session.session_exists Session.get_cached_response
    Machine.apply_command Session.cache_response Machine.increment_last_applied Machine.write_key
    Machine.parse_command Machine.split_at Machine.data_of
finish_request-retry_example =
    finish_request-retry (ℤ.pos 2) (ℤ.pos 1) (ℤ.pos 2) (ℤ.pos 1) asking success_reply committed
      written written opened-IsSound refl refl refl refl
