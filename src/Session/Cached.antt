-- ===== src/Session/Cached.antt =====
-- src/raft/session_cache.cpp: the responses that `NodeValue` returns.
use maelstromdb.Base.{
  ℤ, ◌≡◌, ◌∙◌, refl, sym, ap, true, Option-cases, some, arith, contains, find, inl, inr, int_eq,
}
use maelstromdb.Session.{
  SessionCache, ClientRequestResponse, move_to_head, session_exists, node_value,
  get_cached_response,
}
use maelstromdb.Session.Eviction.{IsSound, move_to_head_lem, get_cached_response_found}

-- A cached response is found again after it was returned, and the cache is sound still.
pub get_cached_response-again :
    (id n : ℤ) (reply : ClientRequestResponse) (c : SessionCache)
    → IsSound c
    → (get_cached_response id n c).0 ≡ some reply
    → ((get_cached_response id n (get_cached_response id n c).1).0 ≡ some reply)
      × (session_exists id (get_cached_response id n c).1 ≡ true)
      × IsSound (get_cached_response id n c).1
unfolding get_cached_response node_value session_exists
get_cached_response-again id n reply c h cached = elim (Option-cases (find id c.m_cache)) [
  | inl gone ↦ absurd (ground arith)
  | inr (val, here) ↦ elim (Option-cases (find n val)) [
    | inl gone ↦ absurd (ground arith)
    | inr (r, found) ↦
        let same : r ≡ reply = ground arith in
        let present : contains id c.order ≡ true =
          sym (h.keys id) ∙ rw (session_exists, here) refl in
        let (sound, order, kept) = move_to_head_lem id c h present in
        let here_still : find id (move_to_head id c).m_cache ≡ some val = rw kept here in
        let moved : get_cached_response id n c ≡ (some r, move_to_head id c) =
          rw (get_cached_response, node_value, here, found) refl in
        rw moved (
          get_cached_response_found id n reply (move_to_head id c) val here_still
              (found ∙ ap some same),
          rw (session_exists, here_still) refl,
          sound,
        )
  ]
]
