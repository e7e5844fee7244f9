-- ===== src/Consensus/Growth/Clients.antt =====
-- consensus_module.cpp: the log through the handlers of the clients.
use maelstromdb.Base.{
  ap, ◌==◌, ℤ, ◌≡◌, arith, Bool-cases, inl, inr, not, text_eq, int_eq, if◌then◌else◌,
}
use maelstromdb.Base.Result.{ok, ◌>>=◌, >>=_inversion}
use maelstromdb.Protos.{
  Configuration, LogEntry, configuration, configuration_set, register_client, not_set, timeout,
  not_leader,
}
use maelstromdb.Config
use maelstromdb.Session.{ClientRequestResponse}
use maelstromdb.Consensus.State.{Consensus, connect, emit, is_leader}
use maelstromdb.Consensus.Roles.{append_entry}
use maelstromdb.Consensus.Membership.{
  SetConfigurationRequest, ChangeStage, begin_change, head_of_sync, after_wait, give_up, syncing,
  committing,
}
use maelstromdb.Consensus.Clients.{
  Stage, RegisterClientResponse, ClientRequestRequest, begin_register, finish_register,
  begin_request, finish_request, skip_entry, apply_entry, apply_request, with_sessions, write_entry,
  waiting,
}
use maelstromdb.Consensus.Growth.{
  SameLog, SameLog-refl, SameLog-Grows, Grows, Grows-ok, append_entry-Grows,
}

pub begin_change-SameLog :
    (request : SetConfigurationRequest) (stage : ChangeStage) (s t : Consensus)
    → begin_change request s ≡ ok (stage, t)
    → SameLog s t
unfolding begin_change connect emit
begin_change-SameLog request stage s t h = ground arith

give_up-SameLog :
    (stage : ChangeStage) (s t : Consensus) → ok (give_up timeout s) ≡ ok (stage, t) → SameLog s t
unfolding give_up
give_up-SameLog stage s t h = ground arith

-- A handler that appends an entry and waits for it.
appended-Grows :
    {A : Type 0} (e : LogEntry) (wait : ℤ → A) (stage : A) (s t : Consensus)
    → ◌>>=◌ {Y = A × Consensus} (append_entry e s) (λ r. ok (wait r.0, r.1)) ≡ ok (stage, t)
    → Grows s t
appended-Grows e wait stage s t h =
    let ((i, u), appended, h') =
      >>=_inversion (append_entry e s) (λ r. ok (wait r.0, r.1)) (stage, t) h in
    Grows-ok (append_entry-Grows e s u i appended) (ap (λ r. r >>= λ p. ok p.1) h')

unsynced-SameLog :
    (saved_term : ℤ) (joint : Configuration) (stage : ChangeStage) (s t : Consensus)
    → (if not (s.m_term == saved_term)
        then ok (give_up not_leader s)
        else ok (syncing saved_term joint, s))
      ≡ ok (stage, t)
    → SameLog s t
unfolding give_up
unsynced-SameLog saved_term joint stage s t h = ground arith

pub head_of_sync-Grows :
    (saved_term : ℤ) (joint : Configuration) (stage : ChangeStage) (s t : Consensus)
    → head_of_sync saved_term joint s ≡ ok (stage, t)
    → Grows s t
unfolding head_of_sync
head_of_sync-Grows saved_term joint stage s t h =
    let e : LogEntry = record {
      term = s.m_term;
      type = configuration;
      log_data = configuration_set joint;
    } in
    let (complete, read, h') =
      >>=_inversion (Config.sync_complete s.m_configuration)
        (λ complete.
          if complete
          then (do (i, appended) ← append_entry e s; ok (committing i saved_term, appended))
          else if not (s.m_term == saved_term)
          then ok (give_up not_leader s)
          else ok (syncing saved_term joint, s))
        (stage, t) h in
    elim (Bool-cases complete) [
      | inl q ↦ appended-Grows e (λ i. committing i saved_term) stage s t (rw q at h')
      | inr q ↦ SameLog-Grows (unsynced-SameLog saved_term joint stage s t (rw q at h'))
    ]

pub after_wait-Grows :
    (saved_term : ℤ) (joint : Configuration) (stage : ChangeStage) (s t : Consensus)
    → after_wait saved_term joint s ≡ ok (stage, t)
    → Grows s t
unfolding after_wait
after_wait-Grows saved_term joint stage s t h =
    let (progress, read, h') =
      >>=_inversion (Config.sync_progress s.m_configuration)
        (λ progress.
          if not progress then ok (give_up timeout s) else head_of_sync saved_term joint s)
        (stage, t) h in
    elim (Bool-cases (not progress)) [
      | inl q ↦ SameLog-Grows (give_up-SameLog stage s t (rw q at h'))
      | inr q ↦ head_of_sync-Grows saved_term joint stage s t (rw q at h')
    ]

pub begin_register-Grows :
    (stage : Stage RegisterClientResponse) (s t : Consensus)
    → begin_register s ≡ ok (stage, t)
    → Grows s t
unfolding begin_register
begin_register-Grows stage s t h =
    let e : LogEntry = record { term = s.m_term; type = register_client; log_data = not_set } in
    elim (Bool-cases (not (is_leader s.m_state))) [
      | inl q ↦ Grows-ok (SameLog-Grows (SameLog-refl s)) (ap (λ r. r >>= λ p. ok p.1) (rw q at h))
      | inr q ↦ appended-Grows e (λ i. waiting i s.m_term) stage s t (rw q at h)
    ]

pub begin_request-Grows :
    (request : ClientRequestRequest) (stage : Stage ClientRequestResponse) (s t : Consensus)
    → begin_request request s ≡ ok (stage, t)
    → Grows s t
unfolding begin_request
begin_request-Grows request stage s t h = elim (Bool-cases (not (is_leader s.m_state))) [
  | inl q ↦ Grows-ok (SameLog-Grows (SameLog-refl s)) (ap (λ r. r >>= λ p. ok p.1) (rw q at h))
  | inr q ↦
      appended-Grows (write_entry s.m_term request) (λ i. waiting i s.m_term) stage s t (rw q at h)
]

pub finish_register-SameLog :
    (session_id saved_term : ℤ) (stage : Stage RegisterClientResponse) (s t : Consensus)
    → finish_register session_id saved_term s ≡ ok (stage, t)
    → SameLog s t
unfolding finish_register skip_entry apply_entry
finish_register-SameLog session_id saved_term stage s t h = ground arith

pub finish_request-SameLog :
    (write_id saved_term : ℤ) (request : ClientRequestRequest) (stage : Stage ClientRequestResponse)
    (s t : Consensus)
    → finish_request write_id saved_term request s ≡ ok (stage, t)
    → SameLog s t
unfolding finish_request skip_entry apply_entry apply_request with_sessions
finish_request-SameLog write_id saved_term request stage s t h = ground arith
