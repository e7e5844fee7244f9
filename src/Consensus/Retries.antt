-- ===== src/Consensus/Retries.antt =====
-- The requests of clients in consensus_module.cpp, and the sessions that answer them again.
use maelstromdb.Base.{
  ℤ, ◌≡◌, ◌∙◌, refl, ap, true, Bool-cases, Option-cases, some, arith, inl, inr, int_eq, not, ◌==◌,
  eqb_ℤ_iff,
}
use maelstromdb.Base.Result.{Result, ok, ok-injective}
use maelstromdb.Protos.{status_ok}
use maelstromdb.Machine
use maelstromdb.Session
use maelstromdb.Session.{SessionCache, ClientRequestResponse}
use maelstromdb.Session.Eviction.{IsSound, cache_response-IsSound}
use maelstromdb.Session.Cached.{get_cached_response-again}
use maelstromdb.Consensus.State.{Consensus}
use maelstromdb.Consensus.Membership.{construct_error}
use maelstromdb.Consensus.Clients.{
  Stage, answered, ClientRequestRequest, finish_request, apply_request, apply_entry, write_entry,
  with_sessions, is_decided, skip_entry, success_reply,
}

-- The cache has the response to the request.
abbrev pub Has : ClientRequestRequest → ClientRequestResponse → SessionCache → Type 0
Has request reply c =
    ((Session.get_cached_response request.client_id request.sequence_num c).0 ≡ some reply)
    × (Session.session_exists request.client_id c ≡ true)

abbrev sessions : Consensus → SessionCache
sessions s = s.m_state_machine.m_sessions

cached-exists :
    (id n : ℤ) (reply : ClientRequestResponse) (c : SessionCache)
    → (Session.get_cached_response id n c).0 ≡ some reply
    → Session.session_exists id c ≡ true
unfolding Session.get_cached_response Session.node_value Session.session_exists
cached-exists id n reply c h = ground arith

abbrev reply_of : Stage ClientRequestResponse → ClientRequestResponse
reply_of (answered reply code) = reply
reply_of _ = success_reply

answered_again :
    (write_id saved_term : ℤ) (request : ClientRequestRequest) (r reply : ClientRequestResponse)
    (s t : Consensus)
    → IsSound (sessions s)
    → (Session.get_cached_response request.client_id request.sequence_num (sessions s)).0 ≡ some r
    → ◌≡◌ {A = Result (Stage ClientRequestResponse × Consensus)}
        (ok (
          answered r status_ok,
          skip_entry (
              with_sessions
                (Session.get_cached_response request.client_id request.sequence_num (sessions s)).1
                s),
        ))
        (ok (answered reply status_ok, t))
    → Has request reply (sessions t)
unfolding skip_entry with_sessions Machine.increment_last_applied
answered_again write_id saved_term request r reply s t sound cached h =
    let pair = ok-injective h in
    let same : r ≡ reply = ap (λ p. reply_of p.0) pair in
    let (again, there, still) =
      get_cached_response-again request.client_id request.sequence_num r (sessions s) sound
        cached in
    rw⁻¹ (ap (λ p. sessions p.1) pair) (again ∙ ap some same, there)

-- The response to a write that is applied is cached.
apply_request-Has :
    (write_id saved_term : ℤ) (request : ClientRequestRequest) (reply : ClientRequestResponse)
    (s t : Consensus)
    → IsSound (sessions s)
    → Session.session_exists request.client_id (sessions s) ≡ true
    → apply_request write_id saved_term request s ≡ ok (answered reply status_ok, t)
    → Has request reply (sessions t)
unfolding apply_request apply_entry write_entry with_sessions Machine.apply_command
    Machine.increment_last_applied
apply_request-Has write_id saved_term request reply s t sound there h =
    let (d, caching, still, order, cached) =
      cache_response-IsSound request.client_id request.sequence_num success_reply (sessions s) sound
        there in
    let done = rw caching at h in
    let pair = ok-injective done in
    let kept : d ≡ sessions t = ap (λ p. sessions p.1) pair in
    let same : success_reply ≡ reply = ap (λ p. reply_of p.0) pair in
    rw⁻¹ kept (
      cached ∙ ap some same,
      cached-exists request.client_id request.sequence_num success_reply d cached,
    )

-- A request that got a response with no error has it in the cache.
finish_request-Has :
    (write_id saved_term : ℤ) (request : ClientRequestRequest) (reply : ClientRequestResponse)
    (s t : Consensus)
    → IsSound (sessions s)
    → finish_request write_id saved_term request s ≡ ok (answered reply status_ok, t)
    → Has request reply (sessions t)
unfolding finish_request construct_error
finish_request-Has write_id saved_term request reply s t sound h =
    let id = request.client_id in
    let n = request.sequence_num in
    elim (Bool-cases (not (is_decided write_id saved_term s))) [
      | inl q ↦ absurd (ground arith)
      | inr decided ↦ elim (Bool-cases (not (s.m_term == saved_term))) [
        | inl q ↦ absurd (ground arith)
        | inr current ↦ elim (Bool-cases (not (Session.session_exists id (sessions s)))) [
          | inl q ↦ absurd (ground arith)
          | inr there ↦ elim (Option-cases (Session.get_cached_response id n (sessions s)).0) [
            | inl fresh ↦
                apply_request-Has write_id saved_term request reply s t sound (ground arith)
                  (rw (decided, current, there, fresh) at h)
            | inr (r, cached) ↦
                answered_again write_id saved_term request r reply s t sound cached
                  (rw (decided, current, there, cached) at h)
          ]
        ]
      ]
    ]

-- A client that asks again with the same id and number, as an entry that is committed in its term,
-- gets the response that it got before, where the sessions are sound and as the first request left
-- them, and nothing is written.
pub finish_request-retry :
    (write_id saved_term again_id again_term : ℤ) (request : ClientRequestRequest)
    (reply : ClientRequestResponse) (s t u : Consensus)
    → IsSound s.m_state_machine.m_sessions
    → finish_request write_id saved_term request s ≡ ok (answered reply status_ok, t)
    → u.m_state_machine.m_sessions ≡ t.m_state_machine.m_sessions
    → is_decided again_id again_term u ≡ true
    → u.m_term ≡ again_term
    → (v : Consensus) × (finish_request again_id again_term request u
        ≡ ok (answered reply status_ok, v))
      × (v.m_state_machine.m_store ≡ u.m_state_machine.m_store)
unfolding finish_request skip_entry with_sessions Machine.increment_last_applied
finish_request-retry write_id saved_term again_id again_term request reply s t u sound h kept
      decided current =
    let (cached, there) = finish_request-Has write_id saved_term request reply s t sound h in
    let found : (Session.get_cached_response request.client_id request.sequence_num (sessions u)).0
        ≡ some reply =
      rw kept cached in
    let exists : Session.session_exists request.client_id (sessions u) ≡ true = rw kept there in
    let same : (u.m_term == again_term) ≡ true = ground (arith, eqb_ℤ_iff u.m_term again_term) in
    (
      skip_entry (
          with_sessions
            (Session.get_cached_response request.client_id request.sequence_num (sessions u)).1 u),
      rw (decided, same, exists, found) refl,
      refl,
    )
