-- ===== src/Consensus/Quiet.antt =====
-- The operations of consensus_module.cpp that send, notify and schedule, and change nothing else
-- that the protocol rests on.
use maelstromdb.Base.{
  ℤ, ◌≡◌, refl, List, [], ◌∷◌, Bool-cases, inl, inr, ◌-ℤ◌, ◌==◌, text_eq, arith, Text, ◌∙◌,
}
use mathlib.Core.Path.{subst}
use maelstromdb.Base.Result.{ok, ◌>>=◌, >>=_inversion, ok-injective}
use maelstromdb.Protos.{LogEntry}
use maelstromdb.Consensus.RaftLog
use maelstromdb.Consensus.State.{
  Env, Consensus, Effect, emit, now, index_of, append_entries, request_vote,
}
use maelstromdb.Consensus.Roles.{schedule_election, schedule_heartbeat}
use maelstromdb.Consensus.Replication.{commit_entry, commit_entries}
use maelstromdb.Consensus.Elections.{begin_round, request_votes, send_heartbeats, previous_term}
use maelstromdb.Consensus.Following.{defer_deadline}

-- The term, the vote, the log, the role and the indices are the same.
pub record Quiet (s t : Consensus) : Type 0 where
  pub term : t.m_term ≡ s.m_term
  pub vote : t.m_vote ≡ s.m_vote
  pub log : t.log ≡ s.log
  pub role : t.m_state ≡ s.m_state
  pub commit : t.m_commit_index ≡ s.m_commit_index
  pub next : t.m_next_index ≡ s.m_next_index
  pub matched : t.m_match_index ≡ s.m_match_index

pub Quiet-refl : (s : Consensus) → Quiet s s
Quiet-refl s = record {
  term = refl;
  vote = refl;
  log = refl;
  role = refl;
  commit = refl;
  next = refl;
  matched = refl;
}

pub Quiet-trans : {s t u : Consensus} → Quiet s t → Quiet t u → Quiet s u
Quiet-trans h g = record {
  term = g.term ∙ h.term;
  vote = g.vote ∙ h.vote;
  log = g.log ∙ h.log;
  role = g.role ∙ h.role;
  commit = g.commit ∙ h.commit;
  next = g.next ∙ h.next;
  matched = g.matched ∙ h.matched;
}

pub Quiet-ok : {s t u : Consensus} → Quiet s t → ok t ≡ ok u → Quiet s u
Quiet-ok {s} h p = subst (Quiet s) (ok-injective p) h

pub emit-Quiet : (e : Effect) (s : Consensus) → Quiet s (emit e s)
unfolding emit
emit-Quiet e s = record {
  term = refl;
  vote = refl;
  log = refl;
  role = refl;
  commit = refl;
  next = refl;
  matched = refl;
}

pub schedule_election-Quiet :
    (env : Env) (term : ℤ) (s : Consensus) → Quiet s (schedule_election env term s)
unfolding schedule_election
schedule_election-Quiet env term s = record {
  term = refl;
  vote = refl;
  log = refl;
  role = refl;
  commit = refl;
  next = refl;
  matched = refl;
}

pub schedule_heartbeat-Quiet : (s : Consensus) → Quiet s (schedule_heartbeat s)
unfolding schedule_heartbeat
schedule_heartbeat-Quiet s = record {
  term = refl;
  vote = refl;
  log = refl;
  role = refl;
  commit = refl;
  next = refl;
  matched = refl;
}

pub begin_round-Quiet : (env : Env) (s : Consensus) → Quiet s (begin_round env s)
unfolding begin_round now
begin_round-Quiet env s = record {
  term = refl;
  vote = refl;
  log = refl;
  role = refl;
  commit = refl;
  next = refl;
  matched = refl;
}

pub defer_deadline-Quiet : (env : Env) (s : Consensus) → Quiet s (defer_deadline env s)
unfolding defer_deadline now
defer_deadline-Quiet env s = record {
  term = refl;
  vote = refl;
  log = refl;
  role = refl;
  commit = refl;
  next = refl;
  matched = refl;
}

commit_entry-Quiet : (e : LogEntry) (s : Consensus) → Quiet s (commit_entry e s)
unfolding commit_entry emit
commit_entry-Quiet e s = ground arith

pub commit_entries-Quiet : (es : List LogEntry) (s : Consensus) → Quiet s (commit_entries es s)
unfolding commit_entries
commit_entries-Quiet [] s = Quiet-refl s
commit_entries-Quiet (e ∷ es) s =
    Quiet-trans (commit_entry-Quiet e s) (commit_entries-Quiet es (commit_entry e s))

pub request_votes-Quiet :
    (peers : List Text) (term last_log_index last_log_term : ℤ) (s : Consensus)
    → Quiet s (request_votes peers term last_log_index last_log_term s)
unfolding request_votes
request_votes-Quiet [] term last_log_index last_log_term s = Quiet-refl s
request_votes-Quiet (peer ∷ peers) term last_log_index last_log_term s =
    elim (Bool-cases (peer == s.address)) [
      | inl q ↦ rw q (request_votes-Quiet peers term last_log_index last_log_term s)
      | inr q ↦
          let asking = request_vote peer term last_log_index last_log_term in
          rw q (
            Quiet-trans (emit-Quiet asking s)
              (request_votes-Quiet peers term last_log_index last_log_term (emit asking s)))
    ]

pub send_heartbeats-Quiet :
    (peers : List Text) (s t : Consensus) → send_heartbeats peers s ≡ ok t → Quiet s t
unfolding send_heartbeats
send_heartbeats-Quiet [] s t h = Quiet-ok (Quiet-refl s) h
send_heartbeats-Quiet (peer ∷ peers) s t h = elim (Bool-cases (peer == s.address)) [
  | inl q ↦ send_heartbeats-Quiet peers s t (rw q at h)
  | inr q ↦
      let next = index_of peer s.m_next_index in
      let prev_log_index = next -ℤ ℤ.pos 1 in
      let asking : ℤ → List LogEntry → Effect = λ prev_log_term es.
        append_entries peer s.m_term prev_log_index prev_log_term es s.m_commit_index in
      let (prev_log_term, read, h') =
        >>=_inversion (previous_term prev_log_index s)
          (λ prev_log_term. do
            es ← RaftLog.range next (RaftLog.size s.log) s.log
            send_heartbeats peers (emit (asking prev_log_term es) s))
          t (rw q at h) in
      let (es, ranged, left) =
        >>=_inversion (RaftLog.range next (RaftLog.size s.log) s.log)
          (λ es. send_heartbeats peers (emit (asking prev_log_term es) s)) t h' in
      Quiet-trans (emit-Quiet (asking prev_log_term es) s)
        (send_heartbeats-Quiet peers (emit (asking prev_log_term es) s) t left)
]
