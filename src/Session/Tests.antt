-- ===== src/Session/Tests.antt =====
-- A cache for two sessions.
use maelstromdb.Base.{ℤ, ◌≡◌, refl, [], ◌∷◌, true, contains, find, remove, int_eq, arith, eqb_ℤ_iff}
use maelstromdb.Base.Result.{ok}
use maelstromdb.Session.{SessionCache, ClientRequestResponse, add_session, session_exists}
use maelstromdb.Session.Eviction.{IsSound, add_session-IsSound}

program : Unit {0}
unfolding session_exists contains find remove
program = tt

abbrev reply : ClientRequestResponse
reply = record { status = true; response = []; leader_hint = [] }

abbrev full : SessionCache
full = record {
  m_capacity = 2;
  m_size = 2;
  m_cache = (ℤ.pos 3, []) ∷ (ℤ.pos 7, []) ∷ [];
  order = ℤ.pos 7 ∷ ℤ.pos 3 ∷ [];
}

full-IsSound : IsSound full
unfolding program
full-IsSound = record {
  distinct = (refl, (refl, tt));
  count = refl;
  bounded = omega arith;
  keys = λ j. ground (arith, eqb_ℤ_iff (ℤ.pos 3) j, eqb_ℤ_iff (ℤ.pos 7) j);
}

-- The session 3, the least recent one, is evicted.
add_session-IsSound_example :
    (d : SessionCache) × (add_session (ℤ.pos 9) full ≡ ok d)
    × IsSound d
    × (d.order ≡ ℤ.pos 9 ∷ ℤ.pos 7 ∷ [])
    × (d.m_capacity ≡ 2)
unfolding program
add_session-IsSound_example = add_session-IsSound (ℤ.pos 9) full full-IsSound refl
