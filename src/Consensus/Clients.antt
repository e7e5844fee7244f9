-- ===== src/Consensus/Clients.antt =====
-- consensus_module.cpp: the handlers of the clients' requests. A handler that waits on a condition
-- variable is cut there, as in Membership.
use maelstromdb.Base.{
  ℤ, [], ◌∷◌, Bool, true, false, Option, none, some, if◌then◌else◌, leb_ℤ, not, ◌==◌, ◌||◌, text_eq,
  int_eq, Text,
}
use maelstromdb.Base.Result.{Result, ok, ◌>>=◌}
use maelstromdb.Protos.{
  LogEntry, not_set, data_set, register_client, write, Status, status_ok, not_leader,
  session_expired, lease_expired, unexpected_error,
}
use maelstromdb.Machine
use maelstromdb.Session
use maelstromdb.Session.{ClientRequestResponse}
use maelstromdb.Consensus.State.{Consensus, is_leader}
use maelstromdb.Consensus.Roles.{append_entry}
use maelstromdb.Consensus.Membership.{construct_error}

-- A handler has replied, or waits for the commit of its entry, with the index and the term saved.
pub data Stage (A : Type 0) : Type 0 where
  answered : A → Status → Stage A
  waiting : ℤ → ℤ → Stage A

-- raft.proto: RegisterClient.Response
pub record RegisterClientResponse : Type 0 where
  pub status : Bool
  pub client_id : ℤ

abbrev pub refused_registration : RegisterClientResponse
refused_registration = record { status = false; client_id = ℤ.pos 0 }

abbrev pub refused_request : ClientRequestResponse
refused_request = record { status = false; response = []; leader_hint = [] }

unfoldable pub begin_register : Consensus → Result (Stage RegisterClientResponse × Consensus)
begin_register s =
    if not (is_leader s.m_state)
    then ok (answered refused_registration (construct_error not_leader s), s)
    else (do
      (session_id, appended) ←
          append_entry (record { term = s.m_term; type = register_client; log_data = not_set }) s
      ok (waiting session_id s.m_term, appended))

-- Whether the wait ends.
unfoldable pub is_decided : ℤ → ℤ → Consensus → Bool
is_decided index saved_term s = leb_ℤ index s.m_commit_index || not (s.m_term == saved_term)

-- `IncrementLastApplied`
unfoldable pub skip_entry : Consensus → Consensus
skip_entry s = record s { m_state_machine = Machine.increment_last_applied s.m_state_machine }

unfoldable pub apply_entry : ℤ → LogEntry → Consensus → Result Consensus
apply_entry index e s = do
  machine ← Machine.apply_command index e s.m_state_machine
  ok (record s { m_state_machine = machine })

unfoldable pub finish_register :
    ℤ → ℤ → Consensus → Result (Stage RegisterClientResponse × Consensus)
unfolding is_decided skip_entry apply_entry
finish_register session_id saved_term s =
    if not (is_decided session_id saved_term s)
    then ok (waiting session_id saved_term, s)
    else if not (s.m_term == saved_term)
    then ok (answered refused_registration (construct_error not_leader s), skip_entry s)
    else (do
      applied ←
          apply_entry session_id
            (record { term = saved_term; type = register_client; log_data = not_set }) s
      ok (answered (record { status = true; client_id = session_id }) status_ok, applied))

-- raft.proto: ClientRequest.Request
pub record ClientRequestRequest : Type 0 where
  pub client_id : ℤ
  pub sequence_num : ℤ
  pub command : Text

unfoldable pub write_entry : ℤ → ClientRequestRequest → LogEntry
write_entry saved_term request = record {
  term = saved_term;
  type = write;
  log_data = data_set request.command;
}

unfoldable pub begin_request :
    ClientRequestRequest → Consensus → Result (Stage ClientRequestResponse × Consensus)
unfolding write_entry
begin_request request s =
    if not (is_leader s.m_state)
    then ok (answered refused_request (construct_error not_leader s), s)
    else (do
      (write_id, appended) ← append_entry (write_entry s.m_term request) s
      ok (waiting write_id s.m_term, appended))

-- The sessions of the state machine, replaced.
unfoldable pub with_sessions : Session.SessionCache → Consensus → Consensus
with_sessions sessions s = record s {
  m_state_machine = record s.m_state_machine { m_sessions = sessions };
}

-- "SUCCESS"
abbrev pub success_text : Text
success_text = b'S' ∷ b'U' ∷ b'C' ∷ b'C' ∷ b'E' ∷ b'S' ∷ b'S' ∷ []

abbrev pub success_reply : ClientRequestResponse
success_reply = record { status = true; response = success_text; leader_hint = [] }

-- The write is applied once, and its reply is kept in the session of the client.
unfoldable pub apply_request :
    ℤ → ℤ → ClientRequestRequest → Consensus → Result (Stage ClientRequestResponse × Consensus)
unfolding apply_entry write_entry with_sessions
apply_request write_id saved_term request s = do
  applied ← apply_entry write_id (write_entry saved_term request) s
  sessions ←
      Session.cache_response request.client_id request.sequence_num success_reply
        applied.m_state_machine.m_sessions
  ok (answered success_reply status_ok, with_sessions sessions applied)

unfoldable pub finish_request :
    ℤ → ℤ → ClientRequestRequest → Consensus → Result (Stage ClientRequestResponse × Consensus)
unfolding is_decided skip_entry with_sessions apply_request
finish_request write_id saved_term request s =
    let (cached, sessions) =
      Session.get_cached_response request.client_id request.sequence_num
        s.m_state_machine.m_sessions in
    if not (is_decided write_id saved_term s)
    then ok (waiting write_id saved_term, s)
    else if not (s.m_term == saved_term)
    then ok (answered refused_request (construct_error not_leader s), skip_entry s)
    else if not (Session.session_exists request.client_id s.m_state_machine.m_sessions)
    then ok (answered refused_request (construct_error session_expired s), skip_entry s)
    else elim cached [
      | some reply ↦ ok (answered reply status_ok, skip_entry (with_sessions sessions s))
      | none ↦ apply_request write_id saved_term request s
    ]

-- `ProcessClientQueryClientRequest`; `none` is a reply without a response.
unfoldable pub handle_query : Text → Consensus → Option Text × Status
handle_query query s =
    if not (is_leader s.m_state)
    then (none, construct_error not_leader s)
    else if not s.m_lease_holder
    then (none, construct_error lease_expired s)
    else elim (Machine.read query s.m_state_machine.m_store) [
      | ok response ↦ (some response, status_ok)
      | _ ↦ (none, construct_error unexpected_error s)
    ]
